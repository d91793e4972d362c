-- ===== src/Escalation/Detail/Controls.antt =====
-- Who can change the steps of a policy.
use ready_jlmirror.Common.{
  ℕ, String, Bool, true, List, [], ◌∷◌, Option, none, some, ◌≡◌, refl, ◌<>◌, show, All,
}
use ready_jlmirror.Ui.{Effect, request, get, delete, offers}
use ready_jlmirror.Ui.Offers.{
  OffersOnly, nil, append, after_text, after_badge, after_spinner, after_button, after_input,
  after_select, under, by_test, for_each,
}
use ready_jlmirror.Ui.Confirm.{confirm_view-OffersOnly}
use ready_jlmirror.Escalation.{EscalationStep, PolicyDetail, policies_path}
use ready_jlmirror.Escalation.AddStep
use ready_jlmirror.Escalation.AddStep.{StepForm, add_step_view}
use ready_jlmirror.Escalation.Detail.{
  Detail, Message, confirm_remove, cancel_remove, Inputs, update, step_form, step_view, steps_view,
  remove_view, form_view, policy_view, result_view, detail_view,
}

-- A DELETE request is for the step that the page asks about, and for nothing else; another write
-- is by a user who may operate.
abbrev pub Meant : String → Bool → Detail → Effect → Type 0
Meant policy_id can s (request delete path body) =
    (n : ℕ) × (path ≡ policies_path <> "/" <> policy_id <> "/steps/" <> show n)
    × (body ≡ none)
    × (s.deleting_step_no ≡ some n)
Meant policy_id can s (request get path body) = Unit
Meant policy_id can s (request m path body) = can ≡ true
Meant policy_id can s _ = Unit

module _ (policy_id : String) (i : Inputs) (s : Detail) where
  abbrev Good : Message → Type 0
  Good m = All (Meant policy_id i.can_operate s) (update policy_id m s).1

  form-Meant :
      (m : AddStep.Message) (o : Option StepForm)
      → i.can_operate ≡ true
      → All (Meant policy_id i.can_operate s) (step_form policy_id m o).1
  unfolding step_form AddStep.update
  form-Meant m none can = tt
  form-Meant (AddStep.set_step_number n) (some f) can = tt
  form-Meant (AddStep.set_delay_minutes n) (some f) can = tt
  form-Meant (AddStep.set_channel c) (some f) can = tt
  form-Meant (AddStep.set_dest_ref t) (some f) can = tt
  form-Meant (AddStep.set_payload_ref t) (some f) can = tt
  form-Meant AddStep.save (some f) can = (can, tt)
  form-Meant AddStep.cancel (some f) can = tt
  form-Meant AddStep.added (some f) can = (tt, (tt, tt))
  form-Meant (AddStep.failed e) (some f) can = (tt, tt)

  form_view-Good : (o : Option StepForm) → OffersOnly Good (form_view i o)
  unfolding form_view add_step_view update
  form_view-Good none = nil
  form_view-Good (some f) = under (λ can.
      append
        (append
          (after_text (
            after_input (
              after_input
                (after_select (after_input (after_input (under (λ _. after_text nil))))))))
          (under (λ _. after_spinner nil)))
        (after_button (λ _. form-Meant AddStep.save s.adding_step can)
          (after_button (λ _. form-Meant AddStep.cancel s.adding_step can) nil)))

  remove_view-Good : OffersOnly Good (remove_view i s.deleting_step_no)
  unfolding remove_view update
  remove_view-Good = go s.deleting_step_no refl
    where
      go : (o : Option ℕ) → s.deleting_step_no ≡ o → OffersOnly Good (remove_view i o)
      go none e = nil
      go (some n) e =
          confirm_view-OffersOnly _ _ _ (confirm_remove n) cancel_remove
            (λ _. ((n, refl, refl, e), tt)) tt

  step_view-Good : (prefix : String) (t : EscalationStep) → OffersOnly Good (step_view i prefix t)
  unfolding step_view update
  step_view-Good prefix t =
      append (after_text (after_text (after_badge (after_text (under (λ _. after_text nil))))))
        (under (λ _. after_button (λ _. tt) nil))

  steps_view-Good : (ts : List EscalationStep) → OffersOnly Good (steps_view i ts)
  unfolding steps_view
  steps_view-Good [] = nil
  steps_view-Good (t ∷ ts) = append (step_view-Good "after " t) (for_each ts (step_view-Good "+"))

  policy_view-Good : (d : PolicyDetail) → OffersOnly Good (policy_view i s d)
  unfolding policy_view update
  policy_view-Good d =
      append
        (append
          (append
            (append
              (append remove_view-Good (
                after_button (λ _. (tt, tt))
                  (after_text (after_text (under (λ _. after_text nil))))))
              (after_text (under (λ _. after_button (λ _. tt) nil))))
            (under (λ _. after_text nil)))
          (steps_view-Good d.steps))
        (form_view-Good s.adding_step)

  result_view-Good : (o : Option PolicyDetail) → OffersOnly Good (result_view i s o)
  unfolding result_view
  result_view-Good none = nil
  result_view-Good (some d) = policy_view-Good d

-- In any state of the page of one policy, a click sends a DELETE request only in the dialog for
-- the step that the page asks about, for that step; and it sends another request than GET and
-- DELETE only for a user who may operate.
pub detail_view-Meant :
    (policy_id : String) (i : Inputs) (s : Detail)
    → All
        (λ m. All (Meant policy_id i.can_operate s) (update policy_id m s).1)
        (offers (detail_view i s))
unfolding detail_view
detail_view-Meant policy_id i s =
    (by_test i.query.is_loading (λ _. after_spinner nil)
      (λ _.
        by_test i.query.is_error (λ _. after_text nil)
          (λ _. result_view-Good policy_id i s i.query.result))).only
