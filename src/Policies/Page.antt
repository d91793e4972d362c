-- ===== src/Policies/Page.antt =====
-- AlertPoliciesPage.tsx, `AlertPoliciesPage`. The answers to the form come while it is shown.
pub mod Controls
use ready_jlmirror.Common.{
  ℕ, String, Bool, true, false, not, List, [], ◌∷◌, ◌++◌, Option, none, some, ◌==◌, ◌&&◌, ◌<>◌,
  ◌or_else◌, if◌then◌else◌, is_some, truthy, truthy?, ltb, eqb, length, show,
}
use ready_jlmirror.Session.{includes}
use ready_jlmirror.Shell.Frame.{toggled}
use ready_jlmirror.Ui.{
  Effect, request, post, delete, notify, success, error, invalidate, num, nat, flag, Query,
  Mutation, Element, text, badge, spinner, button, when, each, muted, warning,
}
use ready_jlmirror.Ui.Confirm.{confirm_view}
use ready_jlmirror.Policies.{
  PolicyVersion, MonitoringSource, Groups, group_policies, severity_variant, condition_label,
  effective, historical,
}
use ready_jlmirror.Policies.Form.{PolicyForm, mounted, mounted_for, form_view, is_kind}
use ready_jlmirror.Policies.Form

-- The `useState` values of the page, and those of the form that it mounts.
pub record Policies : Type 0 where
  pub show_form : Bool
  pub new_version_for : Option String
  pub expanded : List String
  pub deleting_policy_id : Option String
  pub form : PolicyForm

abbrev pub start : Policies
start = record {
  show_form = false;
  new_version_for = none;
  expanded = [];
  deleting_policy_id = none;
  form = mounted;
}

pub data Message : Type 0 where
  new_policy : Message
  -- with the kind of the version in effect, if there is one
  new_version : String → Option String → Message
  in_form : Form.Message → Message
  toggle_history : String → Message
  ask_delete confirm_delete : String → Message
  cancel_delete deleted delete_failed : Message
  toggle_effective : String → ℕ → Bool → Message
  effective_toggled : Bool → Message
  toggle_failed : Message

abbrev pub policies_path : String
policies_path = "/api/v1/alerting/policies"

-- Whether the form for a new policy is shown, and the form for a version of this policy.
abbrev pub shows_create : Policies → Bool
shows_create s = s.show_form && not (truthy? s.new_version_for)

abbrev is_for : Option String → String → Bool
is_for none id = false
is_for (some v) id = v == id

abbrev pub shows_version : Policies → String → Bool
shows_version s id = is_for s.new_version_for id && s.show_form

-- `onDone` of the form that is shown.
done : Policies → Policies
done s =
    if truthy? s.new_version_for
    then record s { show_form = false; new_version_for = none }
    else record s { show_form = false }

with_form : Policies → Option PolicyForm × List Effect → Policies × List Effect
unfolding done
with_form s (none, effects) = (done s, effects)
with_form s (some f, effects) = (record s { form = f }, effects)

-- A form that is shown already keeps its state.
unfoldable pub update : Message → Policies → Policies × List Effect
unfolding with_form
update new_policy s = (
  record s {
    show_form = true;
    new_version_for = none;
    form = if shows_create s then s.form else mounted;
  },
  [],
)
update (new_version id kind) s = (
  record s {
    show_form = true;
    new_version_for = some id;
    form = if shows_version s id then s.form else mounted_for id kind;
  },
  [],
)
update (in_form m) s = with_form s (Form.update m s.form)
update (toggle_history id) s = (record s { expanded = toggled id s.expanded }, [])
update (ask_delete id) s = (record s { deleting_policy_id = some id }, [])
update (confirm_delete id) s = (s, request delete (policies_path <> "/" <> id) none ∷ [])
update cancel_delete s = (record s { deleting_policy_id = none }, [])
update deleted s = (
  record s { deleting_policy_id = none },
  notify "Política excluída." success ∷ invalidate ("alert-policies" ∷ []) ∷ [],
)
update delete_failed s =
    (record s { deleting_policy_id = none }, notify "Erro ao excluir política." error ∷ [])
update (toggle_effective id version enabled) s = (
  s,
  request post (policies_path <> "/" <> id <> "/effective")
        (some (("policy_version", num (nat version)) ∷ ("enabled", flag enabled) ∷ []))
      ∷ [],
)
update (effective_toggled enabled) s = (
  s,
  notify (if enabled then "Política ativada." else "Política desativada.") success
      ∷ invalidate ("alert-policies" ∷ [])
      ∷ [],
)
update toggle_failed s = (s, notify "Erro ao alterar status da política." error ∷ [])

abbrev View : Type 0
View = List (Element Message)

pub record Inputs : Type 0 where
  pub policies : Query (List PolicyVersion)
  pub sources : Query (List MonitoringSource)
  pub toggling : Mutation (String × ℕ × Bool)
  pub deletion : Mutation String
  pub creation : Mutation {0} Unit
  pub can_operate : Bool

-- The badges of the version in effect.
effective_badges : Option PolicyVersion → View
effective_badges none = []
effective_badges (some v) =
    badge muted ("v" <> show v.policy_version)
      ∷ when (v.source_kind == "monitoring_problem")
          (badge (severity_variant (v.problem_min_severity or_else "")) (condition_label v) ∷ [])
    ++ when (v.source_kind == "monitoring_health_projection")
        (badge warning (condition_label v) ∷ [])

toggle_button : Inputs → String → Option PolicyVersion → View
toggle_button i id none = []
toggle_button i id (some v) =
    button (if v.effective_enabled then "Disable" else "Enable") (not i.toggling.is_pending)
      (toggle_effective id v.policy_version (not v.effective_enabled))
    ∷ []

abbrev pub kind_of : Option PolicyVersion → Option String
kind_of none = none
kind_of (some v) = some v.source_kind

scope_of : Option PolicyVersion → Option String
scope_of none = none
scope_of (some v) = v.monitoring_source_id

version_row : PolicyVersion → View
version_row v =
    text ("v" <> show v.policy_version)
    ∷ text (condition_label v)
    ∷ when v.superseded (badge muted "superseded" ∷ [])

version_form : Inputs → Policies → String → View
version_form i s id =
    text ("New version for " <> id)
    ∷ form_view in_form (i.sources.result or_else []) i.creation.is_pending s.form

-- The card of a policy.
policy_card : Inputs → Policies → String × List PolicyVersion → View
unfolding effective_badges toggle_button scope_of version_row version_form
policy_card i s (id, versions) =
    let now = effective versions in
    let old = historical versions in
    text id ∷ effective_badges now
    ++ when i.can_operate (toggle_button i id now)
    ++ when i.can_operate (button "New version" true (new_version id (kind_of now)) ∷ [])
    ++ when (ltb 0 (length old)) (
        button (if includes id s.expanded then "Hide" else "History (" <> show (length old) <> ")")
          true (toggle_history id)
        ∷ [])
    ++ when i.can_operate (button "Excluir" true (ask_delete id) ∷ [])
    ++ when (truthy? (scope_of now)) (text ("Scope: " <> (scope_of now or_else "")) ∷ [])
    ++ when (i.can_operate && shows_version s id) (version_form i s id)
    ++ when (includes id s.expanded && ltb 0 (length old)) (each version_row old)

dialog_view : Inputs → Option String → View
dialog_view i none = []
dialog_view i (some id) = when (truthy id) (
    confirm_view "Excluir política de alertas"
      ("Excluir a política \"" <> id
        <> "\" e todas as suas versões? Esta ação não pode ser desfeita.")
      "Excluir" i.deletion.is_pending (confirm_delete id) cancel_delete)

list_view : Inputs → Policies → View
unfolding policy_card
list_view i s =
    let groups = group_policies (i.policies.result or_else []) in
    if i.policies.is_loading
    then spinner ∷ []
    else if i.policies.is_error
    then text "Could not load policies." ∷ []
    else if eqb (length groups) 0
    then text "No alert policies defined." ∷ []
    else each (policy_card i s) groups

unfoldable pub policies_view : Inputs → Policies → View
unfolding dialog_view list_view
policies_view i s =
    dialog_view i s.deleting_policy_id
    ++ text "Alert policies"
      ∷ text "Immutable · append-only · version-controlled"
      ∷ when i.policies.is_fetching (spinner ∷ [])
    ++ when i.can_operate (button "New policy" true new_policy ∷ [])
    ++ when (i.can_operate && shows_create s) (
        text "Create policy"
        ∷ form_view in_form (i.sources.result or_else []) i.creation.is_pending s.form)
    ++ list_view i s
