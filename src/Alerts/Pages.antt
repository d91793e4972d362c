-- ===== src/Alerts/Pages.antt =====
-- The pages of the list: together they are the list, and the pager keeps to them.
use ready_jlmirror.Common.{
  ℕ, zero, suc, ◌+◌, ◌-◌, ◌*◌, ◌≤◌, ◌<◌, String, Bool, Option, none, some, List, [], ◌∷◌, ◌++◌, ◌≡◌,
  refl, sym, ap, ◌∙◌, arith, length, take, drop, take_all,
}
use native.Mathlib.Nat.{zero-add, suc-add}
use ready_jlmirror.Alerts.{
  Alerts, Message, set_filter, set_severity, previous, next, select, back, control, settled,
  show_highlight, auto_open, update, page_size, total_pages, page_of,
}

module _ {ℓ} {A : Type ℓ} where
  take-nil : (n : ℕ) → take {A = A} n [] ≡ []
  take-nil zero = refl
  take-nil (suc n) = refl

  take-add : (m n : ℕ) (xs : List A) → take (m + n) xs ≡ take m xs ++ take n (drop m xs)
  take-add zero n xs = rw zero-add
  take-add (suc m) n [] = rw suc-add (sym (take-nil n))
  take-add (suc m) n (x ∷ xs) = rw suc-add (ap (λ t. x ∷ t) (take-add m n xs))

  -- The first n pages, one after another.
  pub pages : ℕ → List A → List A
  pages zero alerts = []
  pages (suc n) alerts = pages n alerts ++ page_of n alerts

  pages_lem : (n : ℕ) (alerts : List A) → pages n alerts ≡ take (n * page_size) alerts
  unfolding pages page_of
  pages_lem zero alerts = refl
  pages_lem (suc n) alerts = rw (pages_lem n alerts) (
      sym (take-add (n * page_size) ((n + 1) * page_size - n * page_size) alerts)
      ∙ ap (λ k. take k alerts) (omega arith))

total_pages-length : (n : ℕ) → n ≤ total_pages n * page_size
unfolding total_pages
total_pages-length n = omega arith

-- The pages that the pager counts, one after another, are the whole list of alerts, each alert
-- once and in its order.
pub pages_total {ℓ} :
    {A : Type ℓ} (alerts : List A) → pages (total_pages (length alerts)) alerts ≡ alerts
pages_total alerts =
    pages_lem (total_pages (length alerts)) alerts
    ∙ take_all (total_pages (length alerts) * page_size) alerts (total_pages-length (length alerts))

-- A click on the pager's forward button carries the number of pages that it was drawn with.
abbrev pub IsDrawn : ℕ → Message → Type 0
IsDrawn total (next k) = k ≡ total
IsDrawn total _ = Unit

auto_open_page :
    (h : Option String) (loading : Bool) (s : Alerts) → (auto_open h loading s).page ≡ s.page
unfolding auto_open
auto_open_page none loading s = refl
auto_open_page (some h) loading s = ground arith

-- While the number of alerts stays n, no event leads from a page that exists to one that does not.
pub page-lt-total :
    (tenant : String) (m : Message) (s : Alerts) (n : ℕ)
    → s.page < total_pages n
    → IsDrawn (total_pages n) m
    → (update tenant m s).0.page < total_pages n
unfolding update
page-lt-total tenant (set_filter f) s n h d = omega arith
page-lt-total tenant (set_severity v) s n h d = omega arith
page-lt-total tenant previous s n h d = omega arith
page-lt-total tenant (next k) s n h d = omega arith
page-lt-total tenant (select id) s n h d = h
page-lt-total tenant back s n h d = h
page-lt-total tenant (control id c) s n h d = h
page-lt-total tenant settled s n h d = h
page-lt-total tenant (show_highlight o loading) s n h d = rw (auto_open_page o loading s) h
