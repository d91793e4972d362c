-- ===== src/Policies/Tests.antt =====
-- The policies on concrete versions.
use ready_jlmirror.Common.{
  ℕ, String, Bool, true, false, List, [], ◌∷◌, none, some, ◌≡◌, All, lookup, filter,
}
use ready_jlmirror.Ui.{offers}
use ready_jlmirror.Policies.{PolicyVersion, group_policies}
use ready_jlmirror.Policies.Grouping.{is_of, nonempty, lookup-group_policies}
use ready_jlmirror.Policies.Page.{Policies, start, Inputs, update, policies_view}
use ready_jlmirror.Policies.Page.Controls.{Permitted, Meant, policies_view-Permitted}

abbrev version : ℕ → String → Bool → PolicyVersion
version n id now = record {
  policy_id = id;
  policy_version = n;
  source_kind = "monitoring_problem";
  problem_min_severity = some "warning";
  health_classes = none;
  monitoring_source_id = none;
  monitoring_resource_id = none;
  superseded = false;
  effective_enabled = true;
  is_effective = now;
  created_at = "2024-01-01T00:00:00Z";
  escalation_policy_id = none;
}

abbrev versions : List PolicyVersion
versions = version 1 "warn" false ∷ version 1 "crit" true ∷ version 2 "warn" true ∷ []

lookup-group_policies_example :
    lookup "warn" (group_policies versions) ≡ nonempty (filter (is_of "warn") versions)
lookup-group_policies_example = lookup-group_policies versions "warn"

abbrev inputs : Inputs
inputs = record {
  policies = record {
    result = some versions;
    is_loading = false;
    is_error = false;
    is_fetching = false;
  };
  sources = record { result = none; is_loading = false; is_error = false; is_fetching = false };
  toggling = record { is_pending = false; variables = none };
  deletion = record { is_pending = false; variables = none };
  creation = record { is_pending = false; variables = none };
  can_operate = true;
}

abbrev asking : Policies
asking = record start { show_form = true; deleting_policy_id = some "warn" }

policies_view-Permitted_example :
    All
      (λ m. Permitted inputs asking m × All (Meant inputs asking) (update m asking).1)
      (offers (policies_view inputs asking))
policies_view-Permitted_example = policies_view-Permitted inputs asking
