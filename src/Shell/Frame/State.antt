-- ===== src/Shell/Frame/State.antt =====
-- What is stored is what is read back, and which screen is shown.
use ready_jlmirror.Common.{
  String, Bool, true, false, not, List, [], ◌∷◌, ◌++◌, Option, none, some, ◌==◌, ◌≡◌, refl, ◌↔◌,
  sym, ap, ◌∙◌, arith, Bool-cases, Option-cases, ◌⊎◌, inl, inr, if◌then◌else◌, filter, eq_iff,
  ◌or_else◌,
}
use ready_jlmirror.Ui.{Effect, store, Query}
use ready_jlmirror.Session.{Session, SessionState, Tenant, includes, ready}
use ready_jlmirror.Shell.Frame.{
  Shell, toggle_collapsed, update, initial_collapsed, toggled, frame, screen, screen_of_session,
  screen_of_state,
}

-- The text that an update stores last under a key.
pub stored_under : String → List Effect → Option String
stored_under k [] = none
stored_under k (store j v ∷ effects) =
    let later = stored_under k effects in if j == k then some (later or_else v) else later
stored_under k (_ ∷ effects) = stored_under k effects

-- After the menu was folded or unfolded, a reload of the page finds it as it is shown.
pub initial_collapsed-update :
    (tenant : Option String) (s : Shell)
    → let (s', effects) = update tenant toggle_collapsed s in
      (s'.collapsed ≡ not s.collapsed)
      × (initial_collapsed (stored_under "jlm_sidebar_collapsed" effects) ≡ s'.collapsed)
unfolding update stored_under initial_collapsed
initial_collapsed-update tenant s = elim (Bool-cases s.collapsed) [
  | inl e ↦ rw e (refl, refl)
  | inr e ↦ rw e (refl, refl)
]

includes-filter :
    (x y : String) (set : List String)
    → includes y (filter (λ z. not (z == x)) set) ≡ (if x == y then false else includes y set)
includes-filter x y [] = ground arith
includes-filter x y (z ∷ set) =
    ground (arith, eq_iff x y, eq_iff z x, eq_iff z y, includes-filter x y set)

includes_snoc :
    (x y : String) (set : List String)
    → includes y (set ++ x ∷ []) ≡ (if x == y then true else includes y set)
includes_snoc x y [] = ground arith
includes_snoc x y (z ∷ set) = ground (arith, includes_snoc x y set)

flip_at :
    (x y : String) (set : List String) (b : Bool)
    → includes x set ≡ b
    → (if x == y then not b else includes y set)
      ≡ (if x == y then not (includes y set) else includes y set)
flip_at x y set b e = elim (Bool-cases (x == y)) [
  | inl eq ↦ rw eq (ap not (sym (rw ((eq_iff x y).0 eq) at e)))
  | inr ne ↦ rw ne
]

-- A click on a group's title changes whether that group is folded, and no other group.
pub includes-toggled :
    (x y : String) (set : List String)
    → includes y (toggled x set) ≡ (if x == y then not (includes y set) else includes y set)
includes-toggled x y set = elim (Bool-cases (includes x set)) [
  | inl there ↦ rw there (includes-filter x y set ∙ flip_at x y set true there)
  | inr absent ↦ rw absent (includes_snoc x y set ∙ flip_at x y set false absent)
]

screen_of_state-frame :
    (st : SessionState) (ms : List Tenant) → screen_of_state st ms ≡ frame → st ≡ ready
unfolding screen_of_state
screen_of_state-frame st ms e = ground arith

screen-frame_sound :
    (q : Query Session)
    → screen q ≡ frame
    → (q.is_loading ≡ false) × (s : Session) × (q.result ≡ some s) × (s.state ≡ ready)
unfolding screen screen_of_session
screen-frame_sound q e = elim (Bool-cases q.is_loading) [
  | inl busy ↦ cc (rw busy at e)
  | inr idle ↦
      let (s, found, r) = of_result (Option-cases q.result) (rw idle at e) in (idle, s, found, r)
]
  where
    of_result :
        (q.result ≡ none) ⊎ ((s : Session) × (q.result ≡ some s))
        → screen_of_session q.result ≡ frame
        → (s : Session) × (q.result ≡ some s) × (s.state ≡ ready)
    of_result (inl nothing) f = cc (rw nothing at f)
    of_result (inr (s, found)) f =
        (s, found, screen_of_state-frame s.state (s.memberships or_else []) (rw found at f))

-- The frame, and with it every page of a tenant, is shown exactly if the session was read and its
-- state is ready.
pub screen-frame_iff :
    (q : Query Session)
    → (screen q ≡ frame)
      ↔ (q.is_loading ≡ false) × (s : Session) × (q.result ≡ some s) × (s.state ≡ ready)
unfolding screen screen_of_session screen_of_state
screen-frame_iff q = (screen-frame_sound q, (λ (idle, s, found, r). rw (idle, found, r)))
