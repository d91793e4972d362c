-- ===== src/Escalation/Detail.antt =====
-- frontend/src/pages/EscalationPage.tsx, `PolicyDetailView`: the steps of a policy. The form for a
-- new step is a part of its state while it is shown.
pub mod Numbers
pub mod Controls
use ready_jlmirror.Common.{
  ℕ, zero, suc, ◌+◌, String, Bool, true, false, not, List, [], ◌∷◌, ◌++◌, Option, none, some, ◌==◌,
  ◌&&◌, ◌<>◌, ◌or_else◌, if◌then◌else◌, truthy?, truthy, eqb, ltb, length, map, max, show, is_some,
}
use ready_jlmirror.Ui.{
  Number, nat, Effect, request, delete, notify, success, error, invalidate, leave, Query, Mutation,
  Element, text, badge, info, spinner, button, when, each,
}
use ready_jlmirror.Ui.Confirm.{confirm_view}
use ready_jlmirror.Escalation.{
  EscalationStep, PolicyDetail, channel_label, fmt_delay, policies_path,
}
use ready_jlmirror.Escalation.AddStep
use ready_jlmirror.Escalation.AddStep.{StepForm, mounted, add_step_view}

-- The form is there exactly while `addingStep` is true.
pub record Detail : Type 0 where
  pub adding_step : Option StepForm
  pub deleting_step_no : Option ℕ

abbrev pub start : Detail
start = record { adding_step = none; deleting_step_no = none }

pub data Message : Type 0 where
  -- with the number of the next step when the page was drawn
  add_step : ℕ → Message
  form : AddStep.Message → Message
  ask_remove confirm_remove : ℕ → Message
  cancel_remove removed remove_failed back : Message
  -- the policy is drawn again, after its query loaded or failed, with the number of the next step
  redrawn : ℕ → Message

-- `Math.max(...numbers)` of numbers that are not empty.
unfoldable pub greatest : ℕ → List ℕ → ℕ
greatest n [] = n
greatest n (m ∷ ms) = max n (greatest m ms)

unfoldable pub next_step : List EscalationStep → ℕ
unfolding greatest
next_step [] = 1
next_step (s ∷ steps) = greatest s.step_number (map (λ t. t.step_number) steps) + 1

unfoldable pub step_form :
    String → AddStep.Message → Option StepForm → Option StepForm × List Effect
step_form policy_id m none = (none, [])
step_form policy_id m (some f) = AddStep.update policy_id m f

-- A form that was shown is mounted anew.
mounted_again : ℕ → Option StepForm → Option StepForm
mounted_again n none = none
mounted_again n (some f) = some (mounted (nat n))

unfoldable pub update : String → Message → Detail → Detail × List Effect
unfolding step_form mounted_again
update policy_id (add_step n) s = (record s { adding_step = some (mounted (nat n)) }, [])
update policy_id (form m) s =
    let (f, effects) = step_form policy_id m s.adding_step in
    (record s { adding_step = f }, effects)
update policy_id (ask_remove n) s = (record s { deleting_step_no = some n }, [])
update policy_id (confirm_remove n) s =
    (s, request delete (policies_path <> "/" <> policy_id <> "/steps/" <> show n) none ∷ [])
update policy_id cancel_remove s = (record s { deleting_step_no = none }, [])
update policy_id removed s = (
  record s { deleting_step_no = none },
  notify "Step removido." success ∷ invalidate ("esc-policy" ∷ policy_id ∷ []) ∷ [],
)
update policy_id remove_failed s =
    (record s { deleting_step_no = none }, notify "Erro ao remover step." error ∷ [])
update policy_id back s = (s, leave ∷ [])
update policy_id (redrawn n) s = (record s { adding_step = mounted_again n s.adding_step }, [])

pub record Inputs : Type 0 where
  pub query : Query PolicyDetail
  pub add : Mutation {0} Unit
  pub remove : Mutation ℕ
  pub can_operate : Bool
  pub number : String → Number
  pub numeral : Number → String

abbrev pub View : Type 0
View = List (Element Message)

unfoldable pub step_view : Inputs → String → EscalationStep → View
step_view i prefix s =
    text (show s.step_number)
      ∷ text (prefix <> fmt_delay s.delay_minutes)
      ∷ badge info (channel_label s.channel_class)
      ∷ text s.destination_ref
      ∷ when (truthy s.payload_ref) (text s.payload_ref ∷ [])
    ++ when i.can_operate (button "remove" true (ask_remove s.step_number) ∷ [])

-- The first step is due "after" its delay, the others "+" their delays.
unfoldable pub steps_view : Inputs → List EscalationStep → View
unfolding step_view
steps_view i [] = []
steps_view i (s ∷ steps) = step_view i "after " s ++ each (step_view i "+") steps

unfoldable pub remove_view : Inputs → Option ℕ → View
remove_view i none = []
remove_view i (some n) =
    confirm_view "Remover step" ("Remover o step #" <> show n <> " desta política?") "Remover"
      i.remove.is_pending (confirm_remove n) cancel_remove

unfoldable pub form_view : Inputs → Option StepForm → View
form_view i none = []
form_view i (some f) = when i.can_operate (add_step_view form i.number i.numeral i.add.is_pending f)

unfoldable pub policy_view : Inputs → Detail → PolicyDetail → View
unfolding next_step steps_view remove_view form_view
policy_view i s d =
    remove_view i s.deleting_step_no
    ++ button "← Policies" true back
      ∷ text "/"
      ∷ text d.policy.name
      ∷ when (truthy? d.policy.description) (text (d.policy.description or_else "") ∷ [])
    ++ text "Escalation steps"
      ∷ when (i.can_operate && not (is_some s.adding_step))
          (button "Add step" true (add_step (next_step d.steps)) ∷ [])
    ++ when (eqb (length d.steps) 0 && not (is_some s.adding_step))
        (text "No steps defined. Add a step to enable escalation." ∷ [])
    ++ steps_view i d.steps
    ++ form_view i s.adding_step

-- A query that neither loads nor failed has a result; without one the component throws, and shows
-- nothing.
unfoldable pub result_view : Inputs → Detail → Option PolicyDetail → View
unfolding policy_view
result_view i s none = []
result_view i s (some d) = policy_view i s d

unfoldable pub detail_view : Inputs → Detail → View
unfolding result_view
detail_view i s =
    if i.query.is_loading
    then spinner ∷ []
    else if i.query.is_error
    then text "Failed to load policy." ∷ []
    else result_view i s i.query.result
