-- ===== src/Noc/View.antt =====
-- NOCDashboard.tsx: what the dashboard shows.
use ready_jlmirror.Common.{
  String, Bool, true, false, not, List, [], ◌∷◌, ◌++◌, ◌&&◌, ◌<>◌, ◌or_else◌, if◌then◌else◌, eqb,
  length, show, ◌≡◌, refl,
}
use ready_jlmirror.Ui.{
  Element, text, badge, spinner, button, row, check, link, when, each, Query, warning,
}
use ready_jlmirror.Noc.{
  RawAlert, RawSource, MaintenanceWindow, severity_of, sev_variant, sev_label, alert_title, fmt_ts,
  health_variant, critical_count, degraded_count, sources_ok, in_maintenance,
}
use ready_jlmirror.Noc.Stream.{Noc, alerts_polled, update, live}
use ready_jlmirror.Noc.Widgets.{
  WidgetKey, stats, alerts, sources, Page, Message, toggle_widget, toggle_customize,
  close_customize, open_alert, open_monitoring, shows,
}

abbrev pub View : Type 0
View = List (Element Message)

-- The query for the maintenance windows, and what the browser does with texts.
pub record Inputs : Type 0 where
  pub maintenance : Query (List MaintenanceWindow)
  pub local : String → String
  pub upper : String → String

-- `LiveDot`
live_dot : Bool → View
live_dot connected = text (if connected then "live" else "reconnecting…") ∷ []

-- `StatCard`
stat_card : String → String → View
stat_card label value = text value ∷ text label ∷ []

widget_label : WidgetKey → String
widget_label stats = "Resumo de contadores"
widget_label alerts = "Alertas ativos"
widget_label sources = "Fontes de monitoramento"

widget_check : Page → WidgetKey → View
unfolding widget_label
widget_check p key = check (widget_label key) (shows key p.widgets) (toggle_widget key) ∷ []

customize_view : Page → View
unfolding widget_check
customize_view p =
    button "⚙ Personalizar" true toggle_customize
    ∷ when p.show_customize (
        text "Widgets visíveis" ∷ each (widget_check p) (stats ∷ alerts ∷ sources ∷ [])
        ++ button "Fechar" true close_customize ∷ [])

stats_view : Noc → View
unfolding stat_card
stats_view s =
    stat_card "Alertas ativos" (show (length s.alerts))
    ++ stat_card "Críticos" (show (critical_count s.alerts))
    ++ stat_card "Degradados" (show (degraded_count s.alerts))
    ++ stat_card "Fontes ativas" (show (sources_ok s.sources) <> "/" <> show (length s.sources))

welcome_view : View
welcome_view =
    text "Bem-vindo ao JLMirror 👋"
    ∷ text
        "Nenhuma fonte de monitoramento conectada ainda. Configure sua primeira fonte para começar a receber alertas."
    ∷ link "1. Adicionar fonte" "/monitoring"
    ∷ text "Conecte Zabbix ao JLMirror"
    ∷ link "2. Definir políticas" "/policies"
    ∷ text "Configure as regras de alerta e escalonamento"
    ∷ link "3. Configurar automação" "/automation"
    ∷ text "Crie respostas automáticas a incidentes"
    ∷ link "Ir para Monitoramento" "/monitoring"
    ∷ []

alert_row : Inputs → RawAlert → View
alert_row i a =
    row (open_alert a.alert_id)
    ∷ badge (sev_variant (severity_of a.evidence)) (sev_label i.upper (severity_of a.evidence))
    ∷ text (alert_title a)
    ∷ text a.monitoring_source_id
    ∷ text (fmt_ts i.local a.opened_at)
    ∷ []

alerts_table : Inputs → Noc → View
unfolding alert_row
alerts_table i s =
    text "Severidade"
    ∷ text "Evento / Recurso"
    ∷ text "Fonte"
    ∷ text "Aberto em"
    ∷ each (alert_row i) s.alerts

-- The contents of the card of alerts.
unfoldable pub alerts_body : Inputs → Noc → View
unfolding alerts_table
alerts_body i s =
    if s.loading
    then spinner ∷ []
    else if s.error
    then text "Falha ao carregar alertas." ∷ []
    else if eqb (length s.alerts) 0
    then text "Nenhum alerta ativo." ∷ []
    else alerts_table i s

alerts_view : Inputs → Noc → View
unfolding alerts_body
alerts_view i s =
    text "Alertas ativos" ∷ when (not s.connected && not s.loading) (spinner ∷ [])
    ++ alerts_body i s

source_card : Inputs → RawSource → View
source_card i s =
    row open_monitoring
      ∷ text s.display_name
      ∷ when (in_maintenance (i.maintenance.result or_else []) s) (badge warning "manutenção" ∷ [])
    ++ badge (health_variant s.operational_evidence_state) s.operational_evidence_state
      ∷ text s.monitoring_source_id
      ∷ []

sources_view : Inputs → Noc → View
unfolding source_card
sources_view i s =
    text "Fontes de monitoramento"
    ∷ (if s.loading
        then spinner ∷ []
        else if eqb (length s.sources) 0
        then text "Nenhuma fonte configurada." ∷ link "Adicionar fonte →" "/monitoring" ∷ []
        else each (source_card i) s.sources)

unfoldable pub noc_view : Inputs → Noc → Page → View
unfolding live_dot customize_view stats_view welcome_view alerts_view sources_view
noc_view i s p =
    text "NOC Overview" ∷ live_dot s.connected
    ++ customize_view p
    ++ when (shows stats p.widgets) (stats_view s)
    ++ when (not s.loading && eqb (length s.sources) 0) welcome_view
    ++ when (shows alerts p.widgets) (alerts_view i s)
    ++ when (shows sources p.widgets) (sources_view i s)
    ++ when
        (not (shows stats p.widgets)
          && not (shows alerts p.widgets)
          && not (shows sources p.widgets))
        (text "Nenhum widget visível. Clique em ⚙ Personalizar para reativar." ∷ [])

-- While the dashboard shows that the alerts could not be loaded, alerts that the service then
-- answers do not replace that text.
pub alerts_body-polled :
    (i : Inputs) (s : Noc) (polled : List RawAlert)
    → s.cancelled ≡ false
    → s.error ≡ true
    → alerts_body i ((update (alerts_polled polled) s).0) ≡ text "Falha ao carregar alertas." ∷ []
unfolding alerts_body update live
alerts_body-polled i s polled c e = rw (c, e) refl
