-- ===== src/Maintenance/Form.antt =====
-- The form for a new maintenance window.
use ready_jlmirror.Common.{
  ℕ, ◌<◌, ◌≤◌, String, false, [], ◌∷◌, none, some, ◌≡◌, refl, ◌⊎◌, inl, inr, arith, leb, leb→le,
  Bool-cases,
}
use ready_jlmirror.Ui.{request, post}
use ready_jlmirror.Maintenance.{
  Clock, Maintenance, submit, update, handle_create, create_between, create_at, create_body,
  ends_early,
}

-- What a submitted form does, where both dates are valid.
abbrev pub Submitted : Clock → String → Maintenance → ℕ → ℕ → Type 0
Submitted c tenant s starts ends =
    (starts < ends
      × (update c tenant submit s ≡ (
        record s { form_err = none },
        request post "/api/v1/maintenance/windows"
              (some (create_body tenant s (c.iso starts) (c.iso ends)))
            ∷ [],
      )))
    ⊎ (ends ≤ starts
        × (update c tenant submit s
            ≡ (record s { form_err = some "End time must be after start time" }, [])))

-- Where both dates of the form are valid, and `new Date` reads what `toISOString` writes for each of
-- the two as the same date, submitting the form posts the window, with the dates as the form has
-- them, exactly if it ends after it starts; otherwise nothing is sent and the form says why.
pub submit-valid :
    (c : Clock) (tenant : String) (s : Maintenance) (starts ends : ℕ)
    → c.instant s.starts_at ≡ some starts
    → c.instant s.ends_at ≡ some ends
    → c.instant (c.iso starts) ≡ some starts
    → c.instant (c.iso ends) ≡ some ends
    → Submitted c tenant s starts ends
unfolding update handle_create create_between create_at ends_early create_body
submit-valid c tenant s starts ends hs he rs re = elim (Bool-cases (leb ends starts)) [
  | inl e ↦ inr (leb→le ends starts e, rw (hs, he, rs, re, e) refl)
  | inr e ↦ inl (after e, rw (hs, he, rs, re, e) refl)
]
  where
    after : leb ends starts ≡ false → starts < ends
    after e = ground arith
