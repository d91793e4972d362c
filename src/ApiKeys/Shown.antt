-- ===== src/ApiKeys/Shown.antt =====
-- Which keys can be revoked, and when a key is created.
use ready_jlmirror.Common.{
  Bool, true, false, not, List, [], ◌∷◌, ◌==◌, ◌≡◌, refl, All, arith, Bool-cases, inl, inr,
}
use ready_jlmirror.Session.{includes}
use ready_jlmirror.Ui.{offers}
use ready_jlmirror.Ui.Offers.{
  OffersOnly, nil, append, after_button, under, by_test, for_each, for-All, view_rules,
}
use ready_jlmirror.ApiKeys.{
  ApiKey, Page, Message, revoke, remove, Inputs, keys_view, keys_of, table_view, key_row,
  key_buttons,
}

-- A key that is listed: it is one of the answer, and it was not removed from the list.
abbrev pub Listed : Page → ApiKey → Type 0
Listed p k = includes k.key_id p.locally_removed ≡ false

-- A message about a key that is listed: a revocation of an active one while none is pending, or the
-- removal of one that is not active.
abbrev pub About : Inputs → Page → Message → Type 0
About i p (revoke id) =
    (k : ApiKey) × (k.key_id ≡ id)
    × Listed p k
    × ((k.state == "active") ≡ true)
    × (i.is_revoking ≡ false)
About i p (remove id) =
    (k : ApiKey) × (k.key_id ≡ id) × Listed p k × ((k.state == "active") ≡ false)
About i p _ = Unit

module _ (i : Inputs) (p : Page) where
  keys_of-Listed : (keys : List ApiKey) → All (Listed p) (keys_of p keys)
  unfolding keys_of
  keys_of-Listed [] = tt
  keys_of-Listed (k ∷ keys) = elim (Bool-cases (includes k.key_id p.locally_removed)) [
    | inl e ↦ rw e (keys_of-Listed keys)
    | inr e ↦ rw (e, e) (refl, keys_of-Listed keys)
  ]

  idle : (b : Bool) → not b ≡ true → b ≡ false
  idle b h = ground arith

  buttons-About : (k : ApiKey) → Listed p k → OffersOnly (About i p) (key_buttons i k)
  unfolding key_buttons
  buttons-About k listed =
      by_test (k.state == "active")
        (λ e. after_button (λ h. (k, refl, listed, e, idle i.is_revoking h)) nil)
        (λ e. after_button (λ h. (k, refl, listed, e)) nil)

  row-About : (k : ApiKey) → Listed p k → OffersOnly (About i p) (key_row i k)
  unfolding key_row
  row-About k listed = search (view_rules, append, for_each, buttons-About) depth 30

  table-About :
      (keys : List ApiKey) → All (Listed p) keys → OffersOnly (About i p) (table_view i keys)
  unfolding table_view
  table-About keys listed = search (view_rules, append, by_test, for-All, row-About) depth 30

-- Whatever the state of the page and of its requests, a key is revoked only if it is listed and
-- active and while no revocation is pending, and removed from the list only if it is listed and
-- not active.
pub keys_view-About : (i : Inputs) (p : Page) → All (About i p) (offers (keys_view i p))
unfolding keys_view
keys_view-About i p = shown.only
  where
    shown : OffersOnly (About i p) (keys_view i p)
    shown =
        search (view_rules, append, under, by_test, table-About i p, keys_of-Listed i p) depth 30
