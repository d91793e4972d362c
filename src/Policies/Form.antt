-- ===== src/Policies/Form.antt =====
-- AlertPoliciesPage.tsx, `PolicyForm`: the form for a policy or for a version of it.
use ready_jlmirror.Common.{
  String, Bool, true, false, not, List, [], ◌∷◌, ◌++◌, Option, none, some, ◌==◌, ◌&&◌, ◌<>◌,
  ◌or_else◌, if◌then◌else◌, truthy, truthy?, ltb, length, map,
}
use ready_jlmirror.Session.{includes}
use ready_jlmirror.Client.{Failure}
use ready_jlmirror.Shell.Frame.{toggled}
use ready_jlmirror.Ui.{
  Effect, request, post, notify, success, error, invalidate, Body, str, strs, flag, Element, text,
  button, input, select, check, when, each,
}
use ready_jlmirror.Ui.Offers.{
  OffersOnly, append, after_button, after_check, under, by_test, for_each, view_rules,
}
use ready_jlmirror.Policies.{MonitoringSource, severities, health_classes_all}

-- `PolicyFormData`. The kind is absent where the form is mounted for a policy that has no version
-- in effect.
pub record PolicyFormData : Type 0 where
  pub policy_id : String
  pub source_kind : Option String
  pub problem_min_severity : String
  pub health_classes : List String
  pub monitoring_source_id : String

abbrev pub empty_form : PolicyFormData
empty_form = record {
  policy_id = "";
  source_kind = some "monitoring_problem";
  problem_min_severity = "warning";
  health_classes = "degraded" ∷ "unhealthy" ∷ [];
  monitoring_source_id = "";
}

-- The `useState` values of the form; `is_version` says whether `initial` names a policy.
pub record PolicyForm : Type 0 where
  pub form : PolicyFormData
  pub err : Option String
  pub is_version : Bool

-- The form for a new policy, and for a version of a policy: `{ ...EMPTY_FORM, ...initial }`.
abbrev pub mounted : PolicyForm
mounted = record { form = empty_form; err = none; is_version = false }

abbrev pub mounted_for : String → Option String → PolicyForm
mounted_for id kind = record {
  form = record empty_form { policy_id = id; source_kind = kind };
  err = none;
  is_version = truthy id;
}

pub data Message : Type 0 where
  set_policy_id set_source_kind set_min_severity set_source_id toggle_class : String → Message
  submit created cancel : Message
  failed : Failure → Message

-- `form.source_kind === text`
abbrev pub is_kind : Option String → String → Bool
is_kind none t = false
is_kind (some k) t = k == t

kind_field : Option String → Body
kind_field none = []
kind_field (some k) = ("source_kind", str k) ∷ []

-- The body of the request.
unfoldable pub body : PolicyFormData → Body
unfolding kind_field
body f =
    ("policy_id", str f.policy_id) ∷ kind_field f.source_kind
    ++ ("make_effective", flag true)
      ∷ (if is_kind f.source_kind "monitoring_problem"
          then ("problem_min_severity", str f.problem_min_severity) ∷ []
          else ("health_classes", strs f.health_classes) ∷ [])
    ++ (if truthy f.monitoring_source_id
        then ("monitoring_source_id", str f.monitoring_source_id) ∷ []
        else [])

abbrev pub edit : PolicyForm → PolicyFormData → Option PolicyForm × List Effect
edit s f = (some (record s { form = f }), [])

-- The state after a message, or none where the form calls `onDone`, and the effects. The field of
-- the identity cannot be edited in the form for a version.
unfoldable pub update : Message → PolicyForm → Option PolicyForm × List Effect
unfolding body
update (set_policy_id t) s = edit s (record s.form { policy_id = t })
update (set_source_kind t) s = edit s (record s.form { source_kind = some t })
update (set_min_severity t) s = edit s (record s.form { problem_min_severity = t })
update (set_source_id t) s = edit s (record s.form { monitoring_source_id = t })
update (toggle_class c) s =
    edit s (record s.form { health_classes = toggled c s.form.health_classes })
update submit s = (some s, request post "/api/v1/alerting/policies" (some (body s.form)) ∷ [])
update created s =
    (none, notify "Política criada e ativada." success ∷ invalidate ("alert-policies" ∷ []) ∷ [])
update cancel s = (none, [])
update (failed e) s = (
  some (record s { err = e.message }),
  notify (if truthy? e.message then e.message or_else "" else "Erro ao criar política.") error ∷ [],
)

class_check : {M : Type 0} → (Message → M) → PolicyForm → String → List (Element M)
class_check send s hc = check hc (includes hc s.form.health_classes) (send (toggle_class hc)) ∷ []

source_option : MonitoringSource → String × String
source_option m = (m.monitoring_source_id, m.display_name <> " (" <> m.monitoring_source_id <> ")")

-- What the form shows, its messages wrapped by the page that holds it.
unfoldable pub form_view :
    {M : Type 0} → (Message → M) → List MonitoringSource → Bool → PolicyForm → List (Element M)
unfolding class_check source_option
form_view send sources is_pending s =
    (if s.is_version
      then text s.form.policy_id ∷ []
      else input "Policy ID" s.form.policy_id (λ t. send (set_policy_id t)) ∷ [])
    ++ select "Source kind" (s.form.source_kind or_else "")
        (("monitoring_problem", "monitoring_problem")
          ∷ ("monitoring_health_projection", "monitoring_health_projection")
          ∷ [])
        (λ t. send (set_source_kind t))
      ∷ (if is_kind s.form.source_kind "monitoring_problem"
          then select "Min severity (inclusive)" s.form.problem_min_severity
              (map (λ v. (v, v)) severities) (λ t. send (set_min_severity t))
            ∷ []
          else text "Health classes (trigger on)" ∷ each (class_check send s) health_classes_all)
    ++ (if ltb 0 (length sources)
        then select "Fonte de monitoramento (escopo opcional)" s.form.monitoring_source_id
            (("", "Todas as fontes") ∷ map source_option sources) (λ t. send (set_source_id t))
          ∷ []
        else input "Fonte de monitoramento (escopo opcional)" s.form.monitoring_source_id
            (λ t. send (set_source_id t))
          ∷ [])
    ++ when (truthy? s.err) (text (s.err or_else "") ∷ [])
    ++ button (if is_pending then "" else "Create & activate")
        (truthy s.form.policy_id && not is_pending) (send submit)
      ∷ button "Cancel" true (send cancel)
      ∷ []

module _ {M : Type 0} {P : M → Type 0} where
  pub form_view-OffersOnly :
      (send : Message → M) (sources : List MonitoringSource) (is_pending : Bool) (s : PolicyForm)
      → ((m : Message) → P (send m))
      → OffersOnly P (form_view send sources is_pending s)
  unfolding form_view class_check
  form_view-OffersOnly send sources is_pending s h =
      search (view_rules, under, append, by_test, after_button, after_check, for_each, h) depth 30
