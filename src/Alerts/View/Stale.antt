-- ===== src/Alerts/View/Stale.antt =====
-- A page of the list that no longer exists.
use ready_jlmirror.Common.{
  ℕ, zero, suc, ◌*◌, ◌≤◌, ◌<◌, false, List, [], ◌∷◌, ◌≡◌, refl, arith, length, drop_all, take,
  ◌or_else◌, ltb, eqb,
}
use ready_jlmirror.Ui.{text, when}
use ready_jlmirror.Alerts.{Alert, Alerts, filtered_alerts, page_of, page_size}
use ready_jlmirror.Alerts.View.{Inputs, table_view, rows_view, pager_view}

beyond : (p : ℕ) (alerts : List Alert) → length alerts ≤ p * page_size → page_of p alerts ≡ []
unfolding page_of
beyond p alerts h = rw (drop_all (p * page_size) alerts h) (take_nil _)
  where
    take_nil : (n : ℕ) → take {A = Alert} n [] ≡ []
    take_nil zero = refl
    take_nil (suc n) = refl

rows_none :
    (i : Inputs) (alerts fs : List Alert)
    → 0 < length fs
    → rows_view i alerts fs [] ≡ text "No alerts." ∷ []
unfolding rows_view
rows_none i alerts fs h = rw (not_empty (length fs) h) refl
  where
    not_empty : (n : ℕ) → 0 < n → eqb n 0 ≡ false
    not_empty n k = ground arith

no_pager : (s : Alerts) (n : ℕ) → n ≤ page_size → pager_view s n ≡ []
unfolding pager_view when
no_pager s n h = rw (fits n h) refl
  where
    fits : (k : ℕ) → k ≤ 50 → ltb 50 k ≡ false
    fits k l = ground arith

-- The list has been read, no alert is selected, and between one and fifty alerts have the chosen
-- severity. On a page after the first one, the table shows "No alerts.", and the pager that would
-- lead back to the first page is not there.
pub stale_page :
    (i : Inputs) (s : Alerts)
    → i.query.is_loading ≡ false
    → i.query.is_error ≡ false
    → 0 < length (filtered_alerts s (i.query.result or_else []))
    → length (filtered_alerts s (i.query.result or_else [])) ≤ page_size
    → 0 < s.page
    → (table_view i s (i.query.result or_else []) ≡ text "No alerts." ∷ [])
      × (pager_view s (length (filtered_alerts s (i.query.result or_else []))) ≡ [])
unfolding table_view
stale_page i s l e some_match few p =
    let fs = filtered_alerts s (i.query.result or_else []) in
    (
      simp (
        l,
        e,
        beyond s.page fs (reaches (length fs) s.page few p),
        rows_none i (i.query.result or_else []) fs some_match,
      ),
      no_pager s (length fs) few,
    )
  where
    reaches : (n q : ℕ) → n ≤ 50 → 0 < q → n ≤ q * 50
    reaches n q a b = omega arith
