-- ===== src/Policies.antt =====
-- frontend/src/pages/AlertPoliciesPage.tsx: the policies that raise alerts, each a list of versions
-- of which one is in effect.
pub mod Grouping
pub mod Form
pub mod Page
mod Tests
use ready_jlmirror.Common.{
  ℕ, String, Bool, true, false, not, List, [], ◌∷◌, ◌++◌, Option, none, some, ◌==◌, ◌<>◌, ◌or_else◌,
  if◌then◌else◌, is_some, lookup, insert, join, find?, filter,
}
use ready_jlmirror.Ui.{Variant, danger, warning, muted}

-- `PolicyVersion`
pub record PolicyVersion : Type 0 where
  pub policy_id : String
  pub policy_version : ℕ
  pub source_kind : String
  pub problem_min_severity : Option String
  pub health_classes : Option (List String)
  pub monitoring_source_id : Option String
  pub monitoring_resource_id : Option String
  pub superseded : Bool
  pub effective_enabled : Bool
  pub is_effective : Bool
  pub created_at : String
  pub escalation_policy_id : Option String

-- `MonitoringSource`
pub record MonitoringSource : Type 0 where
  pub monitoring_source_id : String
  pub display_name : String

abbrev pub severities : List String
severities = "informational" ∷ "warning" ∷ "degraded" ∷ "critical" ∷ []

abbrev pub health_classes_all : List String
health_classes_all = "unknown" ∷ "healthy" ∷ "degraded" ∷ "unhealthy" ∷ []

pub severity_variant : String → Variant
severity_variant s =
    if s == "critical"
    then danger
    else if s == "degraded"
    then warning
    else if s == "warning"
    then warning
    else muted

-- The `Map` of `groupPolicies`, in the order in which its keys were set.
abbrev pub Groups : Type 0
Groups = List (String × List PolicyVersion)

-- `if (!map.has(id)) map.set(id, [])`
with_key : String → Groups → Groups
with_key id groups = if is_some (lookup id groups) then groups else insert id [] groups

-- One round of the loop.
add_version : PolicyVersion → Groups → Groups
unfolding with_key
add_version v groups =
    let keyed = with_key v.policy_id groups in
    insert v.policy_id ((lookup v.policy_id keyed or_else []) ++ v ∷ []) keyed

group_from : Groups → List PolicyVersion → Groups
unfolding add_version
group_from groups [] = groups
group_from groups (v ∷ versions) = group_from (add_version v groups) versions

unfoldable pub group_policies : List PolicyVersion → Groups
unfolding group_from
group_policies versions = group_from [] versions

pub condition_label : PolicyVersion → String
condition_label v =
    if v.source_kind == "monitoring_problem"
    then "severity ≥ " <> (v.problem_min_severity or_else "?")
    else "health in [" <> join (v.health_classes or_else []) <> "]"

-- `effective` and `historical`
unfoldable pub effective : List PolicyVersion → Option PolicyVersion
effective versions = find? (λ v. v.is_effective) versions

unfoldable pub historical : List PolicyVersion → List PolicyVersion
historical versions = filter (λ v. not v.is_effective) versions
