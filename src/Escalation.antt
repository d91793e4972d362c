-- ===== src/Escalation.antt =====
-- frontend/src/pages/EscalationPage.tsx: escalation policies and their steps. Step numbers and
-- delays that the service reports are natural numbers.
pub mod AddStep
pub mod Link
pub mod Detail
pub mod Page
pub mod Screen
pub mod Errors
mod Tests
use ready_jlmirror.Common.{
  ℕ, ◌/◌, ◌%◌, String, Bool, true, false, List, [], ◌∷◌, Option, none, some, ◌<>◌, ◌or_else◌,
  if◌then◌else◌, ltb, show, lookup,
}
use ready_jlmirror.Client.{Failure}

-- `EscalationPolicy`
pub record Policy : Type 0 where
  pub policy_id : String
  pub name : String
  pub description : Option String
  pub created_at : String
  pub linked_alert_policy_id : Option String

-- `EscalationStep`
pub record EscalationStep : Type 0 where
  pub step_number : ℕ
  pub delay_minutes : ℕ
  pub channel_class : String
  pub destination_ref : String
  pub payload_ref : String

pub record PolicyDetail : Type 0 where
  pub policy : Policy
  pub steps : List EscalationStep

pub record AlertPolicyVersion : Type 0 where
  pub policy_id : String
  pub policy_version : ℕ
  pub is_effective : Bool
  pub escalation_policy_id : Option String

abbrev channel_labels : List (String × String)
channel_labels =
    ("whatsapp_business@1", "WhatsApp") ∷ ("email_smtp@1", "Email") ∷ ("slack@1", "Slack") ∷ []

-- `CHANNEL_LABELS[channel] ?? channel`
pub channel_label : String → String
channel_label c = lookup c channel_labels or_else c

-- The label and the value of each option.
abbrev pub channel_options : List (String × String)
channel_options =
    ("Email", "email_smtp@1") ∷ ("WhatsApp", "whatsapp_business@1") ∷ ("Slack", "slack@1") ∷ []

pub fmt_delay : ℕ → String
fmt_delay minutes =
    let h = minutes / 60 in
    let m = minutes % 60 in
    if ltb minutes 60
    then show minutes <> "m"
    else if ltb 0 m
    then show h <> "h " <> show m <> "m"
    else show h <> "h"

-- `(e as { detail?: string })?.detail ?? fallback`
unfoldable pub detail_or : Failure → String → String
detail_or e fallback = e.detail or_else fallback

abbrev pub policies_path : String
policies_path = "/api/v1/alerting/escalation-policies"
