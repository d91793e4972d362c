-- ===== src/Toasts/Tests.antt =====
-- Toasts raised and removed on concrete inputs.
use ready_jlmirror.Common.{
  [], ◌∷◌, ◌++◌, none, some, show, ◌≡◌, refl, ◌≢◌, List, length, All, last_of,
}
use ready_jlmirror.Ui.{error, info}
use ready_jlmirror.Toasts.{Toast, start, toast, Action, add, drop_toast, act, run}
use ready_jlmirror.Toasts.Numbers.{run-bounded, run-toast, Distinct}
use Prim.Native.Nat.{◌≤◌}

abbrev story : List Action
story =
    add "a" none none
    ∷ add "b" (some error) none
    ∷ add "c" none (some 100)
    ∷ drop_toast "toast-2"
    ∷ []

run-bounded_example : (length (run start story).toasts ≤ 5) × Distinct (run start story).toasts
run-bounded_example = run-bounded story

abbrev first : Toast
first = record { id = "toast-1"; message = "a"; variant = info; duration = none }

abbrev third : Toast
third = record { id = "toast-3"; message = "c"; variant = info; duration = some 100 }

run-story : (run start story).toasts ≡ first ∷ third ∷ []
unfolding run act toast show
run-story = refl

run-toast_example :
    let s = run start story in
    (t : Toast) × ((toast "d" none none s).toasts ≡ last_of 4 s.toasts ++ t ∷ [])
    × (t.message ≡ "d")
    × All (λ u. u.id ≢ t.id) s.toasts
run-toast_example = run-toast story "d" none none
