-- ===== src/Msp/Panel.antt =====
-- MSPOverviewPage.tsx, `ClientDetailPanel`.
use ready_jlmirror.Common.{
  String, Bool, true, false, not, List, [], ◌∷◌, ◌++◌, Option, none, some, ◌==◌, ◌||◌, ◌or_else◌,
  if◌then◌else◌, truthy, truthy?, eqb, length, show,
}
use ready_jlmirror.Msp.{ClientHealth, health_text, initials_or}
use ready_jlmirror.Ui.{
  Effect, request, post, notify, error, info, open_page, leave, str, Variant, warning, danger,
  muted, Query, Element, text, badge, spinner, button, row, when, each,
}

-- `ClientAlert`
pub record ClientAlert : Type 0 where
  pub alert_id : String
  pub source_kind : String
  pub lifecycle_state : String
  pub severity : Option String
  pub monitoring_resource_id : Option String
  pub opened_at : Option String
  pub name : Option String
  pub problem_name : Option String

-- `severity === text`
is_severity : Option String → String → Bool
is_severity none t = false
is_severity (some s) t = s == t

sev_variant : Option String → Variant
unfolding is_severity
sev_variant s =
    if is_severity s "critical"
    then danger
    else if is_severity s "warning" || is_severity s "degraded"
    then warning
    else if is_severity s "info"
    then Variant.info
    else muted

-- `fmtTs`, with the date as the browser writes it.
fmt_ts : (String → String) → Option String → String
fmt_ts local none = "—"
fmt_ts local (some iso) = if truthy iso then local iso else "—"

-- `a || b`
or_text : Option String → String → String
or_text none t = t
or_text (some s) t = if truthy s then s else t

-- `alertDisplayTitle`
pub alert_title : ClientAlert → String
unfolding or_text
alert_title a =
    or_text a.name (or_text a.problem_name (or_text a.monitoring_resource_id a.source_kind))

pub data Message : Type 0 where
  close : Message
  open_dashboard : Message
  selected select_failed : Message

-- The state is `isSwitching`; `on_select` is what the parent's `onSelectTenant` does, if it is given.
unfoldable pub update :
    Option (String → List Effect) → ClientHealth → Message → Bool → Bool × List Effect
update on_select c close b = (b, leave ∷ [])
update (some f) c open_dashboard b =
    (b, notify "Alternando para workspace do cliente..." info ∷ f c.tenant_id)
update none c open_dashboard b = (
  true,
  notify "Alternando para workspace do cliente..." info
      ∷ request post "/api/tenant/select" (some (("tenant_id", str c.tenant_id) ∷ []))
      ∷ [],
)
update on_select c selected b = (false, open_page "/" ∷ [])
update on_select c select_failed b = (false, notify "Erro ao alternar tenant" error ∷ [])

abbrev View : Type 0
View = List (Element Message)

alert_view : (String → String) → ClientAlert → View
unfolding sev_variant fmt_ts
alert_view local a =
    text (alert_title a)
      ∷ badge (sev_variant a.severity) (a.severity or_else "N/A")
      ∷ when (truthy? a.monitoring_resource_id) (text (a.monitoring_resource_id or_else "") ∷ [])
    ++ text (fmt_ts local a.opened_at) ∷ []

alerts_view : (String → String) → Query (List ClientAlert) → View
unfolding alert_view
alerts_view local q =
    let alerts = q.result or_else [] in
    if q.is_loading
    then spinner ∷ []
    else if q.is_error
    then text "Falha ao carregar alertas." ∷ []
    else if eqb (length alerts) 0
    then text "Nenhum alerta ativo." ∷ []
    else each (alert_view local) alerts

-- The first row is the area around the panel.
unfoldable pub panel_view :
    (String → String) → (String → String) → ClientHealth → Query (List ClientAlert) → Bool → View
unfolding alerts_view
panel_view upper local c q is_switching =
    row close
    ∷ text (initials_or upper c.display_name)
    ∷ text c.display_name
    ∷ text c.tenant_id
    ∷ text (health_text c.health)
    ∷ button "✕" true close
    ∷ text (show c.active_alerts)
    ∷ text "Alertas ativos"
    ∷ text (show c.critical_alerts)
    ∷ text "Críticos"
    ∷ text (show c.source_count)
    ∷ text "Fontes"
    ∷ button (if is_switching then "Alternando…" else "Abrir dashboard do cliente")
        (not is_switching) open_dashboard
    ∷ text "Alertas ativos recentes"
    ∷ alerts_view local q
