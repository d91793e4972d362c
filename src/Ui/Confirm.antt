-- ===== src/Ui/Confirm.antt =====
-- frontend/src/components/ui/confirm-modal.tsx: the dialog that asks before something is done.
use ready_jlmirror.Common.{
  String, Bool, true, false, not, List, [], ◌∷◌, ◌++◌, Option, none, some, ◌==◌, ◌≡◌, if◌then◌else◌,
  arith,
}
use ready_jlmirror.Ui.{Element, text, spinner, button, row, when}
use ready_jlmirror.Ui.Offers.{
  OffersOnly, nil, append, after_text, after_spinner, after_button, after_row, under,
}

-- The area around the dialog is clickable, and has the cross and the label "Cancelar" do the
-- same.
pub confirm_view : {M : Type 0} → String → String → String → Bool → M → M → List (Element M)
confirm_view title description confirm_label is_pending on_confirm on_cancel =
    row on_cancel
      ∷ button "✕" true on_cancel
      ∷ text title
      ∷ text description
      ∷ when is_pending (spinner ∷ [])
    ++ button (if is_pending then "" else confirm_label) (not is_pending) on_confirm
      ∷ button "Cancelar" true on_cancel
      ∷ []

-- What a key of the keyboard does.
pub confirm_key : {M : Type 0} → M → String → Option M
confirm_key on_cancel key = if key == "Escape" then some on_cancel else none

module _ {M : Type 0} {P : M → Type 0} where
  pub confirm_view-OffersOnly :
      (title description label : String) {is_pending : Bool} (on_confirm on_cancel : M)
      → (is_pending ≡ false → P on_confirm)
      → P on_cancel
      → OffersOnly P (confirm_view title description label is_pending on_confirm on_cancel)
  unfolding confirm_view
  confirm_view-OffersOnly title description label {is_pending} on_confirm on_cancel h cancels =
      append
        (after_row cancels
          (after_button (λ _. cancels) (after_text (after_text (under (λ _. after_spinner nil))))))
        (after_button (λ e. h (idle is_pending e)) (after_button (λ _. cancels) nil))
    where
      idle : (b : Bool) → not b ≡ true → b ≡ false
      idle b h = ground arith
