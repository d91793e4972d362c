-- ===== src/Policies/Grouping.antt =====
-- The versions of a policy are those that name it.
use ready_jlmirror.Common.{
  String, Bool, true, false, List, [], ◌∷◌, ◌++◌, Option, none, some, ◌==◌, ◌≡◌, refl, sym, ap,
  lookup, insert, lookup-insert, filter, Bool-cases, inl, inr, eq_iff, eq_refl, Option-cases,
}
use mathlib.Core.Path.{subst}
use mathlib.Core.List.{append_assoc, append-nil}
use ready_jlmirror.Policies.{
  PolicyVersion, Groups, with_key, add_version, group_from, group_policies,
}

-- The test of `pvs` for a policy.
abbrev pub is_of : String → PolicyVersion → Bool
is_of id v = v.policy_id == id

-- A list with something in it.
abbrev pub nonempty : List PolicyVersion → Option (List PolicyVersion)
nonempty [] = none
nonempty (v ∷ vs) = some (v ∷ vs)

-- What stands at a key after the versions are added at the end.
extended : Option (List PolicyVersion) → List PolicyVersion → Option (List PolicyVersion)
extended none vs = nonempty vs
extended (some us) vs = some (us ++ vs)

extended-nil : (o : Option (List PolicyVersion)) → extended o [] ≡ o
unfolding extended
extended-nil none = refl
extended-nil (some us) = ap some (append-nil us)

lookup-add_same :
    (groups : Groups) (v : PolicyVersion)
    → lookup v.policy_id (add_version v groups) ≡ extended (lookup v.policy_id groups) (v ∷ [])
unfolding add_version with_key extended
lookup-add_same groups v = elim (Option-cases (lookup v.policy_id groups)) [
  | inl e ↦
      rw
        (
          e,
          lookup-insert (insert v.policy_id [] groups) v.policy_id v.policy_id,
          lookup-insert groups v.policy_id v.policy_id,
          eq_refl v.policy_id,
        )
        refl
  | inr (us, e) ↦ rw (e, lookup-insert groups v.policy_id v.policy_id, e, eq_refl v.policy_id) refl
]

lookup-add_other :
    (groups : Groups) (v : PolicyVersion) (key : String)
    → (v.policy_id == key) ≡ false
    → lookup key (add_version v groups) ≡ lookup key groups
unfolding add_version with_key
lookup-add_other groups v key h = elim (Option-cases (lookup v.policy_id groups)) [
  | inl e ↦
      rw
        (
          e,
          lookup-insert (insert v.policy_id [] groups) v.policy_id key,
          h,
          lookup-insert groups v.policy_id key,
          h,
        )
        refl
  | inr (us, e) ↦ rw (e, lookup-insert groups v.policy_id key, h) refl
]

extended-append :
    (o : Option (List PolicyVersion)) (v : PolicyVersion) (vs : List PolicyVersion)
    → extended (extended o (v ∷ [])) vs ≡ extended o (v ∷ vs)
unfolding extended
extended-append none v vs = refl
extended-append (some us) v vs = ap some (append_assoc us (v ∷ []) vs)

lookup-group_from :
    (groups : Groups) (vs : List PolicyVersion) (key : String)
    → lookup key (group_from groups vs) ≡ extended (lookup key groups) (filter (is_of key) vs)
unfolding group_from
lookup-group_from groups [] key = sym (extended-nil (lookup key groups))
lookup-group_from groups (v ∷ vs) key = elim (Bool-cases (v.policy_id == key)) [
  | inl e ↦
      rw
        (
          e,
          lookup-group_from (add_version v groups) vs key,
          same e,
          extended-append (lookup key groups) v,
        )
        refl
  | inr e ↦
      rw (e, lookup-group_from (add_version v groups) vs key, lookup-add_other groups v key e) refl
]
  where
    same :
        (v.policy_id == key) ≡ true
        → lookup key (add_version v groups) ≡ extended (lookup key groups) (v ∷ [])
    same e =
        subst (λ k. lookup k (add_version v groups) ≡ extended (lookup k groups) (v ∷ []))
          ((eq_iff v.policy_id key).0 e) (lookup-add_same groups v)

-- For every policy, the page has the versions that name it, in the order of the answer, and it has
-- no entry for a policy that no version names.
pub lookup-group_policies :
    (versions : List PolicyVersion) (id : String)
    → lookup id (group_policies versions) ≡ nonempty (filter (is_of id) versions)
unfolding group_policies lookup extended
lookup-group_policies versions id = lookup-group_from [] versions id
