-- ===== src/Incident/Tests.antt =====
-- The incidents on a concrete event and policy.
use ready_jlmirror.Common.{false, List, [], ◌∷◌, none, some}
use ready_jlmirror.Incident.Policy.{Policy, Patch, threshold, channels}

abbrev served : Policy
served = record {
  severity_threshold = "LOW";
  auto_open_ticket = false;
  manual_override_only = false;
  notify_channels = none;
  automation_triggers = some ("script-1" ∷ []);
  updated_by = none;
  updated_at = none;
}

abbrev changes : List Patch
changes = threshold "HIGH" ∷ channels ("slack" ∷ []) ∷ threshold "CRITICAL" ∷ []
