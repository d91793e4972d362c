-- ===== src/Aiops.antt =====
-- frontend/src/pages/AIOpsPage.tsx: what an analysis of the alerts has found.
use Prim.Native.Char.{code}
use ready_jlmirror.Common.{
  String, Bool, true, false, not, List, [], ◌∷◌, ◌++◌, Option, none, some, ◌==◌, ◌<>◌, ◌or_else◌,
  if◌then◌else◌, eqb, ltb, length, lookup,
}
use ready_jlmirror.Ui.{
  Effect, request, post, notify, success, error, invalidate, navigate, Number, Variant, info,
  warning, danger, muted, Query, Element, text, badge, spinner, button, when, each,
}

-- `Finding`
pub record Finding : Type 0 where
  pub finding_id : String
  pub finding_type : String
  pub severity_hint : String
  pub title : String
  pub explanation : String
  pub evidence_refs : Option (List String)
  pub confidence : Option Number
  pub model_id : String
  pub created_at : String
  pub expires_at : String
  pub dismissed_at : Option String

type_variant : String → Variant
type_variant t =
    if t == "root_cause"
    then warning
    else if t == "anomaly"
    then info
    else if t == "prediction"
    then Variant.success
    else muted

sev_variant : String → Variant
sev_variant s = if s == "high" then danger else if s == "medium" then warning else muted

abbrev type_labels : List (String × String)
type_labels =
    ("anomaly", "Anomaly")
    ∷ ("correlation", "Correlation")
    ∷ ("root_cause", "Root cause")
    ∷ ("prediction", "Prediction")
    ∷ []

-- A type without a label shows nothing.
type_label : String → String
type_label t = lookup t type_labels or_else ""

-- `percent` is `Math.round(c * 100)` as a text.
fmt_confidence : (Number → String) → Option Number → String
fmt_confidence percent none = "—"
fmt_confidence percent (some c) = percent c <> "%"

-- The rest of a text after a word at its beginning.
after_prefix : String → String → Option String
after_prefix String.[] s = some s
after_prefix (String.◌∷◌ w ws) String.[] = none
after_prefix (String.◌∷◌ w ws) (String.◌∷◌ c s) =
    let rest = after_prefix ws s in if eqb (code w) (code c) then rest else none

-- The `useState` values.
pub record Page : Type 0 where
  pub expanded : Option String
  pub show_dismissed : Bool

abbrev pub start : Page
start = record { expanded = none; show_dismissed = false }

pub data Message : Type 0 where
  toggle_dismissed : Message
  toggle dismiss : String → Message
  dismissed dismiss_failed : Message
  -- with the identity of the alert
  show_alert : String → Message

-- The path of the query.
pub findings_path : Page → String
findings_path p =
    if p.show_dismissed
    then "/api/v1/aiops/findings?limit=50&include_dismissed=true"
    else "/api/v1/aiops/findings?limit=50"

-- `expanded === id`
abbrev is_expanded : Option String → String → Bool
is_expanded none id = false
is_expanded (some shown) id = shown == id

unfoldable pub update : String → Message → Page → Page × List Effect
update tenant toggle_dismissed p = (record p { show_dismissed = not p.show_dismissed }, [])
update tenant (toggle id) p =
    (record p { expanded = if is_expanded p.expanded id then none else some id }, [])
update tenant (dismiss id) p =
    (p, request post ("/api/v1/aiops/findings/" <> id <> "/dismiss") (some []) ∷ [])
update tenant dismissed p =
    (p, invalidate ("aiops-findings" ∷ tenant ∷ []) ∷ notify "Finding descartado" success ∷ [])
update tenant dismiss_failed p = (p, notify "Erro ao descartar" error ∷ [])
update tenant (show_alert id) p = (p, navigate ("/alerts?highlight=" <> id) false ∷ [])

pub record Inputs : Type 0 where
  pub findings : Query (List Finding)
  pub can_operate : Bool
  pub is_dismissing : Bool
  pub local : String → String
  pub percent : Number → String

abbrev View : Type 0
View = List (Element Message)

-- A reference to an alert is a link that leads to it.
ref_of : String → Option String → View
ref_of ref none = text ref ∷ []
ref_of ref (some id) = button ref true (show_alert id) ∷ []

ref_view : String → View
unfolding after_prefix ref_of
ref_view ref = ref_of ref (after_prefix "alert:" ref)

detail_view : Inputs → Finding → View
unfolding ref_view
detail_view i f =
    let refs = f.evidence_refs or_else [] in
    text f.explanation
      ∷ when (ltb 0 (length refs)) (text "Referenced evidence" ∷ each ref_view refs)
    ++ text ("Model: " <> f.model_id)
      ∷ text ("Generated: " <> i.local f.created_at)
      ∷ text ("Expires: " <> i.local f.expires_at)
      ∷ []

finding_view : Inputs → Page → Finding → View
unfolding type_variant sev_variant type_label fmt_confidence detail_view
finding_view i p f =
    badge (type_variant f.finding_type) (type_label f.finding_type)
      ∷ badge (sev_variant f.severity_hint) f.severity_hint
      ∷ button f.title true (toggle f.finding_id)
      ∷ text ("conf " <> fmt_confidence i.percent f.confidence)
      ∷ when i.can_operate (button "Dismiss" (not i.is_dismissing) (dismiss f.finding_id) ∷ [])
    ++ when (is_expanded p.expanded f.finding_id) (detail_view i f)

list_view : Inputs → Page → View
unfolding finding_view
list_view i p =
    let findings = i.findings.result or_else [] in
    if i.findings.is_loading
    then spinner ∷ []
    else if i.findings.is_error
    then text "Failed to load findings." ∷ []
    else if eqb (length findings) 0
    then text
        "No active advisory findings. Analysis runs every 30 minutes when there are active alerts."
      ∷ []
    else each (finding_view i p) findings

unfoldable pub page_view : Inputs → Page → View
unfolding list_view
page_view i p =
    text "AIOps Advisory Findings"
      ∷ text "AI-generated analysis · advisory only · does not create or resolve alerts"
      ∷ when i.findings.is_fetching (spinner ∷ [])
    ++ button (if p.show_dismissed then "Ocultar descartados" else "Ver descartados") true
        toggle_dismissed
      ∷ when p.show_dismissed (
          text "Nota: findings descartados não são listados caso o servidor não suporte o filtro."
          ∷ [])
    ++ list_view i p
