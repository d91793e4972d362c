-- ===== src/Onboarding/Steps.antt =====
-- The order of the steps of the page, while it is shown.
use mathlib.Core.Path.{subst}
use ready_jlmirror.Common.{
  ℕ, ◌+◌, ◌≤◌, suc, List, [], ◌∷◌, some, ◌≡◌, ◌==◌, arith, inl, inr, Bool-cases, refl, sym, ap,
  truthy, trim, if◌then◌else◌,
}
use ready_jlmirror.Ui.{Effect, request, post, text, spinner}
use ready_jlmirror.Onboarding.{
  Step, welcome, naming, creating, binding, done, Waiting, idle, registration, selection, Page,
  start, Message, begin, back, leave_app, set_name, submit, registered, register_failed, selected,
  select_failed, session_stale, update, Enabled, register_path,
}
use ready_jlmirror.Onboarding.View.{page_view}

-- How many registrations were sent, how many answers said that one failed, and how many brought a
-- workspace. What the service did for a request whose answer is lost is not counted.
pub record Counts : Type 0 where
  pub sent : ℕ
  pub failures : ℕ
  pub reports : ℕ

abbrev pub nothing_yet : Counts
nothing_yet = record { sent = 0; failures = 0; reports = 0 }

-- A number, increased by the registrations among the effects.
unfoldable pub posts : List Effect → ℕ → ℕ
posts [] n = n
posts (request post path body ∷ es) n =
    let rest = posts es n in if path == register_path then suc rest else rest
posts (_ ∷ es) n = posts es n

-- A number, increased for the answer that a registration failed, and for one that brings a workspace.
unfoldable pub with_failure : Message → ℕ → ℕ
with_failure (register_failed e) n = suc n
with_failure _ n = n

unfoldable pub with_report : Message → ℕ → ℕ
with_report (registered tenant) n = suc n
with_report _ n = n

abbrev pub counted : Message → List Effect → Counts → Counts
counted m es n = record {
  sent = posts es n.sent;
  failures = with_failure m n.failures;
  reports = with_report m n.reports;
}

-- The states that the page can come to, with what was counted on the way.
pub data Reach : Counts → Page → Type 0 where
  first : Reach nothing_yet start
  next :
      {n : Counts} {p : Page} (m : Message)
      → Reach n p
      → Enabled m p
      → Reach (counted m (update m p).1 n) ((update m p).0)

abbrev Free : Counts → Type 0
Free n = (n.sent ≡ n.failures) × (n.reports ≡ 0)

abbrev Sent : Counts → Type 0
Sent n = (n.sent ≡ suc n.failures) × (n.reports ≡ 0)

abbrev Made : Counts → Type 0
Made n = (n.sent ≡ suc n.failures) × (n.reports ≡ 1)

-- What is awaited in a step, and what was counted by then.
abbrev Consistent : Counts → Step → Waiting → Type 0
Consistent n welcome idle = Free n
Consistent n naming idle = Free n
Consistent n creating registration = Sent n
Consistent n binding selection = Made n
Consistent n binding idle = Made n
Consistent n done idle = Made n
Consistent _ _ _ = ⊥

at_welcome : (n : Counts) (w : Waiting) → Consistent n welcome w → (w ≡ idle) × Free n
at_welcome n idle h = (refl, h)
at_welcome n registration h = absurd h
at_welcome n selection h = absurd h

at_naming : (n : Counts) (w : Waiting) → Consistent n naming w → (w ≡ idle) × Free n
at_naming n idle h = (refl, h)
at_naming n registration h = absurd h
at_naming n selection h = absurd h

registering : (n : Counts) (s : Step) → Consistent n s registration → Sent n
registering n welcome h = absurd h
registering n naming h = absurd h
registering n creating h = h
registering n binding h = absurd h
registering n done h = absurd h

selecting : (n : Counts) (s : Step) → Consistent n s selection → (s ≡ binding) × Made n
selecting n welcome h = absurd h
selecting n naming h = absurd h
selecting n creating h = absurd h
selecting n binding h = (refl, h)
selecting n done h = absurd h

-- The invariant, in a state.
abbrev Holds : Counts → Page → Type 0
Holds n p = Consistent n p.step p.waiting

module _ (n : Counts) (p : Page) (h : Holds n p) where
  welcomed : p.step ≡ welcome → (p.waiting ≡ idle) × Free n
  welcomed e = at_welcome n p.waiting (subst (λ s. Consistent n s p.waiting) e h)

  named : p.step ≡ naming → (p.waiting ≡ idle) × Free n
  named e = at_naming n p.waiting (subst (λ s. Consistent n s p.waiting) e h)

  awaiting : p.waiting ≡ registration → Sent n
  awaiting e = registering n p.step (subst (λ w. Consistent n p.step w) e h)

  select_awaited : p.waiting ≡ selection → (p.step ≡ binding) × Made n
  select_awaited e = selecting n p.step (subst (λ w. Consistent n p.step w) e h)

-- A state that differs in its step only.
moved : (n : Counts) (s : Step) (w : Waiting) → w ≡ idle → Consistent n s idle → Consistent n s w
moved n s w e h = subst (λ v. Consistent n s v) (sym e) h

submit-Holds :
    (n : Counts) (p : Page)
    → Holds n p
    → Free n
    → Holds (counted submit (update submit p).1 n) ((update submit p).0)
unfolding update posts with_failure with_report
submit-Holds n p h free = elim (Bool-cases (truthy (trim p.tenant_name))) [
  | inl e ↦ rw e (ap suc free.0, free.1)
  | inr e ↦ rw e h
]

step-Holds :
    (n : Counts) (m : Message) (p : Page)
    → Enabled m p
    → Holds n p
    → Holds (counted m (update m p).1 n) ((update m p).0)
unfolding update Enabled posts with_failure with_report
step-Holds n begin p e h = let now = welcomed n p h e in moved n naming p.waiting now.0 now.1
step-Holds n back p e h = let now = named n p h e in moved n welcome p.waiting now.0 now.1
step-Holds n leave_app p e h = h
step-Holds n (set_name t) p e h = h
step-Holds n submit p e h = submit-Holds n p h (named n p h e).1
step-Holds n (registered t) p e h = let now = awaiting n p h e in (now.0, ap suc now.1)
step-Holds n (register_failed f) p e h = awaiting n p h e
step-Holds n selected p e h = (select_awaited n p h e).1
step-Holds n select_failed p e h =
    let now = select_awaited n p h e in subst (λ s. Consistent n s idle) (sym now.0) now.1
step-Holds n session_stale p e h = h

Reach-Holds : (n : Counts) (p : Page) → Reach n p → Holds n p
Reach-Holds n p first = (refl, refl)
Reach-Holds n p (next {n = before} {p = q} m r e) = step-Holds before m q e (Reach-Holds before q r)

-- What every step says of the counts.
abbrev Limited : Counts → Type 0
Limited n = (n.sent ≤ n.failures + 1) × (n.reports ≤ 1)

limits : (n : Counts) (s : Step) (w : Waiting) → Consistent n s w → Limited n
limits n welcome idle h = (omega (arith, h), omega (arith, h))
limits n naming idle h = (omega (arith, h), omega (arith, h))
limits n creating registration h = (omega (arith, h), omega (arith, h))
limits n binding selection h = (omega (arith, h), omega (arith, h))
limits n binding idle h = (omega (arith, h), omega (arith, h))
limits n done idle h = (omega (arith, h), omega (arith, h))
limits n welcome registration h = absurd h
limits n welcome selection h = absurd h
limits n naming registration h = absurd h
limits n naming selection h = absurd h
limits n creating idle h = absurd h
limits n creating selection h = absurd h
limits n binding registration h = absurd h
limits n done registration h = absurd h
limits n done selection h = absurd h

-- In every state that the page comes to while it is shown, at most one more registration was sent
-- than answers said that one failed, and at most one answer brought a workspace.
pub Reach-once : (n : Counts) (p : Page) → Reach n p → (n.sent ≤ n.failures + 1) × (n.reports ≤ 1)
Reach-once n p r = limits n p.step p.waiting (Reach-Holds n p r)

-- When the choice of the new workspace fails, in a state that the page comes to, the text of the
-- error is set, but the page shows only the spinner and the text that the session is set up.
pub select_failure_lost :
    (n : Counts) (p : Page)
    → Reach n p
    → p.waiting ≡ selection
    → ((update select_failed p).0.err
        ≡ some "Workspace criado, mas não foi possível iniciar a sessão. Recarregue a página.")
      × (page_view ((update select_failed p).0) ≡ (spinner ∷ text "Configurando sessão…" ∷ []))
unfolding update page_view
select_failure_lost n p r w = (refl, rw (select_awaited n p (Reach-Holds n p r) w).0 refl)
