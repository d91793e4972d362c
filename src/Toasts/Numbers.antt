-- ===== src/Toasts/Numbers.antt =====
-- The identities of the toasts: every one is fresh, so a toast is removed alone.
use text.Mathlib.TextLemmas.{append_cancel_left}
use ready_jlmirror.Common.{
  ℕ, zero, suc, ◌-◌, ◌≤◌, ◌<◌, String, Bool, not, List, [], ◌∷◌, ◌++◌, Option, ◌==◌, eq_iff,
  eq_refl, ◌≡◌, refl, ◌≢◌, sym, ◌∙◌, arith, show, show_inj, length, drop, last_of, filter, All,
  All-mono, length-append, length-drop, length-filter-le, Bool-cases, inl, inr,
}
use ready_jlmirror.Ui.{ToastVariant}
use ready_jlmirror.Toasts.{
  Toast, Toasts, start, toast_id, toast, remove, Action, add, drop_toast, act, run,
}

toast_id_inj : (m n : ℕ) → toast_id m ≡ toast_id n → m ≡ n
toast_id_inj m n e = show_inj m n (append_cancel_left "toast-" (show m) (show n) e)

-- The identities have rising numbers, above the first bound and up to the second.
abbrev pub Numbered : ℕ → ℕ → List Toast → Type 0
Numbered lo hi [] = lo ≤ hi
Numbered lo hi (t ∷ ts) = (k : ℕ) × (t.id ≡ toast_id k) × (lo < k) × Numbered k hi ts

module _ (hi : ℕ) where
  Numbered-wider :
      (lo lo' : ℕ) (ts : List Toast) → lo' ≤ lo → Numbered lo hi ts → Numbered lo' hi ts
  Numbered-wider lo lo' [] h n = omega arith
  Numbered-wider lo lo' (t ∷ ts) h (k, e, p, n) = (k, e, omega arith, n)

  Numbered-drop : (m lo : ℕ) (ts : List Toast) → Numbered lo hi ts → Numbered lo hi (drop m ts)
  Numbered-drop zero lo ts n = n
  Numbered-drop (suc m) lo [] n = n
  Numbered-drop (suc m) lo (t ∷ ts) (k, e, p, n) =
      Numbered-drop m lo ts (Numbered-wider k lo ts (omega arith) n)

  Numbered-filter :
      (p : Toast → Bool) (lo : ℕ) (ts : List Toast)
      → Numbered lo hi ts
      → Numbered lo hi (filter p ts)
  Numbered-filter p lo [] n = n
  Numbered-filter p lo (t ∷ ts) (k, e, q, n) = elim (Bool-cases (p t)) [
    | inl keep ↦ rw keep (k, e, q, Numbered-filter p k ts n)
    | inr gone ↦ rw gone (Numbered-filter p lo ts (Numbered-wider k lo ts (omega arith) n))
  ]

  Numbered-bound : (lo : ℕ) (ts : List Toast) → Numbered lo hi ts → lo ≤ hi
  Numbered-bound lo [] n = n
  Numbered-bound lo (t ∷ ts) (k, e, p, n) = omega (arith, Numbered-bound k ts n)

  Numbered-snoc :
      (lo : ℕ) (ts : List Toast) (t : Toast)
      → t.id ≡ toast_id (suc hi)
      → Numbered lo hi ts
      → Numbered lo (suc hi) (ts ++ t ∷ [])
  Numbered-snoc lo [] t e n = (suc hi, e, omega arith, omega arith)
  Numbered-snoc lo (u ∷ ts) t e (k, f, p, n) = (k, f, p, Numbered-snoc k ts t e n)

  -- An identity above the bound is that of no toast, and so is one below.
  Numbered-above :
      (lo m : ℕ) (ts : List Toast) → Numbered lo hi ts → hi < m → All (λ t. t.id ≢ toast_id m) ts
  Numbered-above lo m [] n h = tt
  Numbered-above lo m (t ∷ ts) (k, e, p, n) h = (
    (λ f. absurd (omega (arith, toast_id_inj k m (sym e ∙ f), Numbered-bound k ts n))),
    Numbered-above k m ts n h,
  )

  Numbered-below :
      (lo m : ℕ) (ts : List Toast) → Numbered lo hi ts → m ≤ lo → All (λ t. t.id ≢ toast_id m) ts
  Numbered-below lo m [] n h = tt
  Numbered-below lo m (t ∷ ts) (k, e, p, n) h = (
    (λ f. absurd (omega (arith, toast_id_inj k m (sym e ∙ f)))),
    Numbered-below k m ts n (omega arith),
  )

-- At most five toasts, numbered up to the counter.
pub record IsValid (s : Toasts) : Type 0 where
  pub few : length s.toasts ≤ 5
  pub numbered : Numbered 0 s.counter s.toasts

pub start-IsValid : IsValid start
start-IsValid = record { few = omega arith; numbered = omega arith }

toast-IsValid :
    (m : String) (v : Option ToastVariant) (d : Option ℕ) {s : Toasts}
    → IsValid s
    → IsValid (toast m v d s)
unfolding toast
toast-IsValid m v d {s} h = record {
  few = omega (
    arith,
    h.few,
    length-append {0} (last_of 4 s.toasts) (_ ∷ []),
    length-drop {0} (length s.toasts - 4) s.toasts,
  );
  numbered =
      Numbered-snoc s.counter 0 (last_of 4 s.toasts) _ refl
        (Numbered-drop s.counter (length s.toasts - 4) 0 s.toasts h.numbered);
}

remove-IsValid : (k : String) {s : Toasts} → IsValid s → IsValid (remove k s)
unfolding remove
remove-IsValid k {s} h = record {
  few = omega (arith, h.few, length-filter-le {0} (λ t. not (t.id == k)) s.toasts);
  numbered = Numbered-filter s.counter (λ t. not (t.id == k)) 0 s.toasts h.numbered;
}

act-IsValid : (a : Action) {s : Toasts} → IsValid s → IsValid (act s a)
unfolding act
act-IsValid (add m v d) h = toast-IsValid m v d h
act-IsValid (drop_toast k) h = remove-IsValid k h

pub run-IsValid : (actions : List Action) {s : Toasts} → IsValid s → IsValid (run s actions)
unfolding run
run-IsValid [] h = h
run-IsValid (a ∷ more) h = run-IsValid more (act-IsValid a h)

-- No two toasts have one identity.
abbrev pub Distinct : List Toast → Type 0
Distinct [] = Unit
Distinct (t ∷ ts) = All (λ u. u.id ≢ t.id) ts × Distinct ts

Numbered-Distinct : (lo hi : ℕ) (ts : List Toast) → Numbered lo hi ts → Distinct ts
Numbered-Distinct lo hi [] n = tt
Numbered-Distinct lo hi (t ∷ ts) (k, e, p, n) = (
  All-mono ts (λ u ne f. ne (f ∙ e)) (Numbered-below hi k k ts n (omega arith)),
  Numbered-Distinct k hi ts n,
)

-- Whatever toasts were raised and removed from the start on, at most five are shown and no two of
-- them have one identity.
pub run-bounded :
    (actions : List Action)
    → (length (run start actions).toasts ≤ 5) × Distinct (run start actions).toasts
run-bounded actions =
    let v = run-IsValid actions start-IsValid in
    (v.few, Numbered-Distinct 0 (run start actions).counter (run start actions).toasts v.numbered)

All_middle :
    (P : Toast → Type 0) (xs : List Toast) (t : Toast) (ys : List Toast)
    → All P (xs ++ t ∷ ys)
    → P t
All_middle P [] t ys (p, _) = p
All_middle P (x ∷ xs) t ys (_, h) = All_middle P xs t ys h

filter_keeps :
    (k : String) (ts : List Toast) → All (λ u. u.id ≢ k) ts → filter (λ u. not (u.id == k)) ts ≡ ts
filter_keeps k [] h = refl
filter_keeps k (t ∷ ts) (p, h) = ground (arith, eq_iff t.id k, filter_keeps k ts h)

filter_removes :
    (xs : List Toast) (t : Toast) (ys : List Toast)
    → Distinct (xs ++ t ∷ ys)
    → filter (λ u. not (u.id == t.id)) (xs ++ t ∷ ys) ≡ xs ++ ys
filter_removes [] t ys (p, _) = rw (eq_refl t.id) (filter_keeps t.id ys p)
filter_removes (x ∷ xs) t ys (p, h) =
    let other : t.id ≢ x.id = All_middle (λ u. u.id ≢ x.id) xs t ys p in
    ground (arith, eq_iff x.id t.id, filter_removes xs t ys h)

-- Whatever happened before, removing a toast that is shown leaves every other toast in its place.
pub run-remove :
    (actions : List Action) (xs : List Toast) (t : Toast) (ys : List Toast)
    → (run start actions).toasts ≡ xs ++ t ∷ ys
    → (remove t.id (run start actions)).toasts ≡ xs ++ ys
unfolding remove
run-remove actions xs t ys e = rw e (filter_removes xs t ys (rw e at (run-bounded actions).1))

-- Whatever happened before, a new toast is shown after the last four of the toasts that were
-- shown, and its identity is that of none of the toasts that were shown.
pub run-toast :
    (actions : List Action) (m : String) (v : Option ToastVariant) (d : Option ℕ)
    → let s = run start actions in
      (t : Toast) × ((toast m v d s).toasts ≡ last_of 4 s.toasts ++ t ∷ [])
      × (t.message ≡ m)
      × All (λ u. u.id ≢ t.id) s.toasts
unfolding toast
run-toast actions m v d =
    let s = run start actions in
    (
      _,
      refl,
      refl,
      Numbered-above s.counter 0 (suc s.counter) s.toasts
          (run-IsValid actions start-IsValid).numbered (omega arith),
    )
