-- ===== src/Escalation/Page/Offered.antt =====
-- What the list of policies offers: a rule for a property of messages.
use ready_jlmirror.Common.{
  String, Bool, true, List, [], ◌∷◌, Option, none, some, ◌≡◌, refl, ◌==◌, ◌&&◌, ◌or_else◌, truthy?,
  eqb, length, find?, any, arith, Bool-cases, inl, inr,
}
use ready_jlmirror.Ui.Offers.{
  OffersOnly, nil, append, after_text, after_spinner, after_button, after_row, after_input,
  after_select, after_embed, under, by_test, for_each,
}
use ready_jlmirror.Ui.Confirm.{confirm_view-OffersOnly}
use ready_jlmirror.Escalation.{Policy}
use ready_jlmirror.Escalation.Link
use ready_jlmirror.Escalation.Link.{LinkModal, choice_view, link_view, unique_policies}
use ready_jlmirror.Escalation.Page.{
  Page, Message, new_policy, create, cancel_create, ask_delete, ask_link, link, open_policy,
  confirm_delete, cancel_delete, Inputs, delete_view, deleting_view, linking_view, create_view,
  policy_row, table_view, list_view, page_view,
}

-- The messages of the controls that are there for operators.
abbrev pub NeedsOperator : Message → Type 0
NeedsOperator new_policy = Unit
NeedsOperator create = Unit
NeedsOperator cancel_create = Unit
NeedsOperator (ask_delete id) = Unit
NeedsOperator (ask_link id) = Unit
NeedsOperator (link m) = Unit
NeedsOperator _ = ⊥

-- A policy with this identity is in the list.
abbrev pub is_listed : List Policy → String → Bool
is_listed policies id = any (λ p. p.policy_id == id) policies

found :
    (q : Policy → Bool) (policies : List Policy) {p : Policy}
    → find? q policies ≡ some p
    → any q policies ≡ true
found q [] h = absurd cc
found q (p ∷ policies) h = elim (Bool-cases (q p)) [
  | inl e ↦ rw e refl
  | inr e ↦ rw e (found q policies (rw e at h))
]

module _ (P : Message → Type 0) (i : Inputs) (s : Page) (policies : List Policy)
    (browse : (id : String) → P (open_policy id))
    (operate : (m : Message) → i.can_operate ≡ true → NeedsOperator m → P m)
    (confirm : (id : String)
      → s.deleting_id ≡ some id
      → is_listed policies id ≡ true
      → P (confirm_delete id))
    (keep : (id : String) → s.deleting_id ≡ some id → P cancel_delete) where
  deleting_view-OffersOnly : OffersOnly P (deleting_view i policies s.deleting_id)
  unfolding deleting_view delete_view
  deleting_view-OffersOnly = go s.deleting_id refl
    where
      shown :
          (id : String)
          → s.deleting_id ≡ some id
          → (o : Option Policy) → find? (λ p. p.policy_id == id) policies ≡ o
          → OffersOnly P (delete_view i id o)
      shown id e none h = nil
      shown id e (some p) h =
          confirm_view-OffersOnly _ _ _ (confirm_delete id) cancel_delete
            (λ _. confirm id e (found _ policies h)) (keep id e)

      go : (o : Option String) → s.deleting_id ≡ o → OffersOnly P (deleting_view i policies o)
      go none e = nil
      go (some id) e = under (λ _. shown id e _ refl)

  linking_view-OffersOnly : (o : Option LinkModal) → OffersOnly P (linking_view i o)
  unfolding linking_view link_view choice_view
  linking_view-OffersOnly none = nil
  linking_view-OffersOnly (some l) = under (λ h.
      append
        (append (after_row (may Link.close _ h) (after_text (choice l)))
          (under (λ _. after_spinner nil)))
        (after_button (λ _. may Link.submit _ h) (after_button (λ _. may Link.close _ h) nil)))
    where
      left : (b c : Bool) → (b && c) ≡ true → b ≡ true
      left b c h = ground arith

      may : (m : Link.Message) (c : Bool) → (i.can_operate && c) ≡ true → P (link m)
      may m c h = operate (link m) (left i.can_operate c h) tt

      choice : (l : LinkModal) → OffersOnly P (choice_view link i.alert_policies l)
      choice l =
          by_test i.alert_policies.is_loading (λ _. after_spinner nil)
            (λ _.
              by_test (eqb (length (unique_policies (i.alert_policies.result or_else []))) 0)
                (λ _. after_text nil) (λ _. after_select nil))

  create_view-OffersOnly : i.can_operate ≡ true → OffersOnly P (create_view i s)
  unfolding create_view
  create_view-OffersOnly can =
      append
        (append (after_text (after_input (after_input (under (λ _. after_text nil)))))
          (under (λ _. after_spinner nil)))
        (after_button (λ _. operate create can tt)
          (after_button (λ _. operate cancel_create can tt) nil))

  policy_row-OffersOnly : (p : Policy) → OffersOnly P (policy_row i p)
  unfolding policy_row
  policy_row-OffersOnly p =
      append
        (after_row (browse p.policy_id) (
          after_text (
            after_text (
              after_text (
                after_text (
                  under (λ can. after_button (λ _. operate (ask_link p.policy_id) can tt) nil)))))))
        (under (λ can. after_button (λ _. operate (ask_delete p.policy_id) can tt) nil))

  table_view-OffersOnly : OffersOnly P (table_view i policies)
  unfolding table_view
  table_view-OffersOnly =
      by_test i.query.is_loading (λ _. after_spinner nil)
        (λ _.
          by_test i.query.is_error (λ _. after_text nil)
            (λ _.
              by_test (eqb (length policies) 0) (λ _. after_text nil)
                (λ _. after_text (
                  after_text (after_text (after_text (for_each policies policy_row-OffersOnly)))))))

  list_view-OffersOnly : OffersOnly P (list_view i s policies)
  unfolding list_view
  list_view-OffersOnly =
      append
        (append
          (append (append deleting_view-OffersOnly (linking_view-OffersOnly s.linking)) (
            after_text (
              after_text
                (under (λ h. after_button (λ _. operate new_policy (left _ _ h) tt) nil)))))
          (under (λ h. create_view-OffersOnly (left _ _ h))))
        table_view-OffersOnly
    where
      left : (b c : Bool) → (b && c) ≡ true → b ≡ true
      left b c h = ground arith

-- A property of messages that holds of the controls of the list, and of those of its dialogs and
-- forms where they are shown, holds of all that the page offers.
pub page_view-OffersOnly :
    (P : Message → Type 0) (i : Inputs) (s : Page)
    → ((id : String) → P (open_policy id))
    → ((m : Message) → i.can_operate ≡ true → NeedsOperator m → P m)
    → ((id : String)
        → s.deleting_id ≡ some id
        → is_listed (i.query.result or_else []) id ≡ true
        → P (confirm_delete id))
    → ((id : String) → s.deleting_id ≡ some id → P cancel_delete)
    → OffersOnly P (page_view i s)
unfolding page_view
page_view-OffersOnly P i s browse operate confirm keep =
    by_test (truthy? s.selected_policy_id) (λ _. after_embed nil)
      (λ _. list_view-OffersOnly P i s (i.query.result or_else []) browse operate confirm keep)
