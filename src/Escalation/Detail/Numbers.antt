-- ===== src/Escalation/Detail/Numbers.antt =====
-- The numbers of steps.
use ready_jlmirror.Common.{
  ℕ, ◌≤◌, ◌<◌, String, List, [], ◌∷◌, Option, none, some, ◌≡◌, refl, All, All-mono, map, arith,
  lookup,
}
use ready_jlmirror.Ui.{Effect, request, post, Number, nat, num}
use ready_jlmirror.Escalation.{EscalationStep}
use ready_jlmirror.Escalation.AddStep
use ready_jlmirror.Escalation.AddStep.{StepForm}
use ready_jlmirror.Escalation.Detail.{
  Detail, add_step, form, update, next_step, greatest, step_form,
}

greatest_first : (n : ℕ) (ms : List ℕ) → n ≤ greatest n ms
unfolding greatest
greatest_first n [] = omega arith
greatest_first n (m ∷ ms) = omega (arith, greatest_first m ms)

greatest-All :
    (n : ℕ) (ss : List EscalationStep)
    → All (λ s. s.step_number ≤ greatest n (map (λ t. t.step_number) ss)) ss
unfolding greatest
greatest-All n [] = tt
greatest-All n (s ∷ ss) = (
  omega (arith, greatest_first s.step_number (map (λ t. t.step_number) ss)),
  All-mono ss (λ t h. omega arith) (greatest-All s.step_number ss),
)

next_step-lt : (steps : List EscalationStep) → All (λ s. s.step_number < next_step steps) steps
unfolding next_step
next_step-lt [] = tt
next_step-lt (s ∷ steps) = (
  omega (arith, greatest_first s.step_number (map (λ t. t.step_number) steps)),
  All-mono steps (λ t h. omega arith) (greatest-All s.step_number steps),
)

-- The user leaves the number of the step as it is.
abbrev pub KeepsNumber : AddStep.Message → Type 0
KeepsNumber (AddStep.set_step_number n) = ⊥
KeepsNumber _ = Unit

-- The page with the form, after some messages to the form.
pub fill : String → Detail → List AddStep.Message → Detail
fill policy_id s [] = s
fill policy_id s (m ∷ ms) = fill policy_id (update policy_id (form m) s).0 ms

-- The effect, if it posts a step, posts one with this number.
abbrev pub Posts : ℕ → Effect → Type 0
Posts n (request post path (some b)) = lookup "step_number" b ≡ some (num (nat n))
Posts n _ = Unit

abbrev HasNumber : ℕ → Option StepForm → Type 0
HasNumber n none = Unit
HasNumber n (some f) = f.step_number ≡ nat n

keeps :
    (policy_id : String) (n : ℕ) (m : AddStep.Message) (o : Option StepForm)
    → KeepsNumber m
    → HasNumber n o
    → HasNumber n (step_form policy_id m o).0
unfolding step_form AddStep.update
keeps policy_id n m none k h = tt
keeps policy_id n (AddStep.set_step_number _) (some f) k h = absurd k
keeps policy_id n AddStep.cancel (some f) k h = tt
keeps policy_id n AddStep.added (some f) k h = tt
keeps policy_id n _ (some f) k h = h

fill-keeps :
    (policy_id : String) (n : ℕ) (ms : List AddStep.Message) (s : Detail)
    → All KeepsNumber ms
    → HasNumber n s.adding_step
    → HasNumber n (fill policy_id s ms).adding_step
unfolding fill update
fill-keeps policy_id n [] s ks h = h
fill-keeps policy_id n (m ∷ ms) s (k, ks) h =
    fill-keeps policy_id n ms (update policy_id (form m) s).0 ks
      (keeps policy_id n m s.adding_step k h)

posts :
    (policy_id : String) (n : ℕ) (o : Option StepForm)
    → HasNumber n o
    → All (Posts n) (step_form policy_id AddStep.save o).1
unfolding step_form AddStep.update AddStep.body lookup
posts policy_id n none h = tt
posts policy_id n (some f) h = (ap_num h, tt)
  where
    ap_num : {k : Number} → k ≡ nat n → some (num k) ≡ some (num (nat n))
    ap_num e = cc e

-- The form that a click on "Add step" opens is filled in, with no change of the step's number.
-- What "Save" then posts has the number that the page offered for the steps it showed, and this
-- number is above that of every one of these steps.
pub new_number :
    (policy_id : String) (s : Detail) (steps : List EscalationStep) (ms : List AddStep.Message)
    → All KeepsNumber ms
    → let opened = (update policy_id (add_step (next_step steps)) s).0 in
      All
        (Posts (next_step steps))
        (update policy_id (form AddStep.save) (fill policy_id opened ms)).1
      × All (λ t. t.step_number < next_step steps) steps
unfolding update
new_number policy_id s steps ms ks = (
  posts policy_id (next_step steps) _ (
      fill-keeps policy_id (next_step steps) ms (update policy_id (add_step (next_step steps)) s).0
        ks refl),
  next_step-lt steps,
)
