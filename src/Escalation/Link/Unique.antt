-- ===== src/Escalation/Link/Unique.antt =====
-- The choice of alert policies.
use ready_jlmirror.Common.{
  String, Bool, true, false, List, [], ◌∷◌, Option, none, some, ◌≡◌, refl, sym, ◌∙◌, ap, ◌==◌,
  eq_iff, All, arith, if◌then◌else◌, drop, filter, map, insert, spread, Bool-cases, inl, inr,
}
use ready_jlmirror.Escalation.{AlertPolicyVersion}
use ready_jlmirror.Escalation.Link.{policy_map, unique_policies}

-- The last version of a policy in a list, or else the given one.
pub latest :
    String → Option AlertPolicyVersion → List AlertPolicyVersion → Option AlertPolicyVersion
latest id o [] = o
latest id o (p ∷ ps) = latest id (if p.policy_id == id then some p else o) ps

pub to_list : Option AlertPolicyVersion → List AlertPolicyVersion
to_list none = []
to_list (some p) = p ∷ []

abbrev pub has_id : String → AlertPolicyVersion → Bool
has_id id p = p.policy_id == id

abbrev Entries : Type 0
Entries = List (String × AlertPolicyVersion)

-- Each entry stands under its own identity.
abbrev Keyed : Entries → Type 0
Keyed m = All (λ e. e.0 ≡ e.1.policy_id) m

abbrev with_id : String → Entries → List AlertPolicyVersion
with_id id m = filter (has_id id) (map (λ e. e.1) m)

insert-Keyed : (p : AlertPolicyVersion) (m : Entries) → Keyed m → Keyed (insert p.policy_id p m)
unfolding insert
insert-Keyed p [] h = (refl, tt)
insert-Keyed p ((j, w) ∷ m) (e, h) = elim (Bool-cases (j == p.policy_id)) [
  | inl k ↦ rw k ((eq_iff j p.policy_id).0 k, h)
  | inr k ↦ rw k (e, insert-Keyed p m h)
]

-- An entry for another identity leaves those of this one.
with_id-other :
    (id : String) (p : AlertPolicyVersion) (m : Entries)
    → Keyed m
    → (p.policy_id == id) ≡ false
    → with_id id (insert p.policy_id p m) ≡ with_id id m
unfolding insert
with_id-other id p [] h n = rw n refl
with_id-other id p ((j, w) ∷ m) (e, h) n = elim (Bool-cases (j == p.policy_id)) [
  | inl k ↦ rw (k, n, differs k) refl
  | inr k ↦ rw k (elim (Bool-cases (has_id id w)) [
    | inl c ↦ rw c (ap (λ t. w ∷ t) (with_id-other id p m h n))
    | inr c ↦ rw c (with_id-other id p m h n)
  ])
]
  where
    differs : (j == p.policy_id) ≡ true → has_id id w ≡ false
    differs k = rw (sym e ∙ (eq_iff j p.policy_id).0 k) n

with_id-same :
    (id : String) (p : AlertPolicyVersion) (m : Entries) (o : Option AlertPolicyVersion)
    → Keyed m
    → (p.policy_id == id) ≡ true
    → with_id id m ≡ to_list o
    → with_id id (insert p.policy_id p m) ≡ p ∷ []
unfolding insert to_list
with_id-same id p [] o h y k = rw y refl
with_id-same id p ((j, w) ∷ m) o (e, h) y k = elim (Bool-cases (j == p.policy_id)) [
  | inl c ↦ rw (c, y) (ap (λ t. p ∷ t) (rest o (rw (has c) at k)))
  | inr c ↦ rw (c, lacks c) (with_id-same id p m o h y (rw (lacks c) at k))
]
  where
    has : (j == p.policy_id) ≡ true → has_id id w ≡ true
    has c = rw (sym e ∙ (eq_iff j p.policy_id).0 c) y

    lacks : (j == p.policy_id) ≡ false → has_id id w ≡ false
    lacks c = ground (arith, eq_iff j p.policy_id, eq_iff p.policy_id id, eq_iff w.policy_id id)

    rest : (q : Option AlertPolicyVersion) → w ∷ with_id id m ≡ to_list q → with_id id m ≡ []
    rest none f = absurd cc
    rest (some q) f = ap (drop 1) f

with_id-spread :
    (id : String) (ps : List AlertPolicyVersion) (m : Entries) (o : Option AlertPolicyVersion)
    → Keyed m
    → with_id id m ≡ to_list o
    → with_id id (spread m (map (λ p. (p.policy_id, p)) ps)) ≡ to_list (latest id o ps)
unfolding spread latest to_list
with_id-spread id [] m o h k = k
with_id-spread id (p ∷ ps) m o h k = elim (Bool-cases (p.policy_id == id)) [
  | inl y ↦ rw y (
      with_id-spread id ps (insert p.policy_id p m) (some p) (insert-Keyed p m h)
        (with_id-same id p m o h y k))
  | inr n ↦ rw n (
      with_id-spread id ps (insert p.policy_id p m) o (insert-Keyed p m h)
        (with_id-other id p m h n ∙ k))
]

-- Of the versions that the service reports for a policy, the choice has exactly one, the last;
-- of a policy with no version it has none.
pub unique_policies-latest :
    (id : String) (ps : List AlertPolicyVersion)
    → filter (has_id id) (unique_policies ps) ≡ to_list (latest id none ps)
unfolding unique_policies policy_map to_list
unique_policies-latest id ps = with_id-spread id ps [] none tt refl
