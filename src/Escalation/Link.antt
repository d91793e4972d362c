-- ===== src/Escalation/Link.antt =====
-- frontend/src/pages/EscalationPage.tsx, `LinkAlertPolicyModal`.
pub mod Unique
use ready_jlmirror.Common.{
  ℕ, String, Bool, true, false, not, List, [], ◌∷◌, ◌++◌, Option, none, some, ◌==◌, ◌&&◌, ◌<>◌,
  ◌or_else◌, if◌then◌else◌, truthy, eqb, length, map, spread,
}
use ready_jlmirror.Ui.{
  Value, str, Effect, request, patch, notify, success, error, invalidate, Query, Element, text,
  spinner, button, row, select, when,
}
use ready_jlmirror.Client.{Failure}
use ready_jlmirror.Escalation.{AlertPolicyVersion, detail_or, policies_path}

-- The escalation policy that it was opened for, and its `useState` value.
pub record LinkModal : Type 0 where
  pub esc_policy_id : String
  pub selected_policy_id : String

pub data Message : Type 0 where
  choose : String → Message
  submit close linked : Message
  failed : Failure → Message

-- `new Map(alertPolicies.map((p) => [p.policy_id, p]))`: a later version takes the place of an
-- earlier one.
unfoldable pub policy_map : List AlertPolicyVersion → List (String × AlertPolicyVersion)
unfolding spread
policy_map policies = spread [] (map (λ p. (p.policy_id, p)) policies)

-- Its values.
unfoldable pub unique_policies : List AlertPolicyVersion → List AlertPolicyVersion
unfolding policy_map
unique_policies policies = map (λ e. e.1) (policy_map policies)

-- The state after a message, or none where the modal calls `onClose`, and the effects.
unfoldable pub update : String → Message → LinkModal → Option LinkModal × List Effect
unfolding detail_or
update tenant (choose id) s = (some (record s { selected_policy_id = id }), [])
update tenant submit s = (
  some s,
  request patch (policies_path <> "/" <> s.esc_policy_id)
        (some (("linked_alert_policy_id", str s.selected_policy_id) ∷ []))
      ∷ [],
)
update tenant close s = (none, [])
update tenant linked s = (
  none,
  notify "Política de alerta vinculada." success ∷ invalidate ("esc-policies" ∷ tenant ∷ []) ∷ [],
)
update tenant (failed e) s = (some s, notify (detail_or e "Erro ao vincular política.") error ∷ [])

unfoldable pub choice_view :
    {M : Type 0} → (Message → M) → Query (List AlertPolicyVersion) → LinkModal → List (Element M)
unfolding unique_policies
choice_view send query s =
    let policies = unique_policies (query.result or_else []) in
    if query.is_loading
    then spinner ∷ []
    else if eqb (length policies) 0
    then text "Nenhuma política de alerta encontrada." ∷ []
    else select "Política de alerta" s.selected_policy_id
        (("Selecione…", "") ∷ map (λ p. (p.policy_id, p.policy_id)) policies)
        (λ id. send (choose id))
      ∷ []

unfoldable pub link_view :
    {M : Type 0}
    → (Message → M)
    → Query (List AlertPolicyVersion)
    → Bool
    → LinkModal
    → List (Element M)
unfolding choice_view
link_view send query is_pending s =
    row (send close) ∷ text "Vincular a política de alerta" ∷ choice_view send query s
    ++ when is_pending (spinner ∷ [])
    ++ button "Vincular" (truthy s.selected_policy_id && not is_pending) (send submit)
      ∷ button "Cancelar" true (send close)
      ∷ []
