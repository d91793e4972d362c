-- ===== src/Incident.antt =====
-- frontend/src/pages/IncidentResponsePage.tsx: the errors that applications report, and the policy
-- that says what is done about them.
pub mod Event
pub mod Policy
pub mod Page
mod Tests
use ready_jlmirror.Common.{
  String, Bool, true, false, List, [], ◌∷◌, Option, none, some, ◌==◌, if◌then◌else◌, truthy,
}
use ready_jlmirror.Ui.{
  Variant, danger, warning, info, muted, success, Query, Element, text, badge, spinner, button, row,
  embed, when, each,
}

-- `ErrorEvent`
pub record ErrorEvent : Type 0 where
  pub event_id : String
  pub application_id : String
  pub error_code : String
  pub error_message : String
  pub occurred_at : String
  pub received_at : String
  pub severity_hint : Option String
  pub status : String
  pub source_principal_id : String
  pub operation : Option String

-- `s === text`
abbrev pub is_hint : Option String → String → Bool
is_hint none t = false
is_hint (some s) t = s == t

pub sev_variant : Option String → Variant
sev_variant s =
    if is_hint s "CRITICAL"
    then danger
    else if is_hint s "HIGH"
    then warning
    else if is_hint s "MEDIUM"
    then info
    else muted

pub status_variant : String → Variant
status_variant s =
    if s == "processed"
    then success
    else if s == "processing"
    then warning
    else if s == "failed"
    then danger
    else muted

-- `fmtTs`, with the date as the browser writes it.
pub fmt_ts : (String → String) → String → String
fmt_ts local iso = if truthy iso then local iso else ""
