-- ===== src/Common/Dict.antt =====
-- A JavaScript object with text keys, in the order of its keys.
use Prim.Native.String.{String}
use mathlib.Core.Path.{◌≡◌, refl}
use mathlib.Core.List.{List, [], ◌∷◌}
use mathlib.Core.Option.{Option, none, some}
use native.Mathlib.Omega.{arith}
use text.Mathlib.Text.{◌==◌}
use text.Mathlib.TextEquality.{eq_iff}
use mathlib.Core.Logic.{inl, inr}
use mathlib.Core.Bool.{Bool, true, false}
use ready_jlmirror.Common.Tests.{if◌then◌else◌, Bool-cases}

module _ {ℓ} {V : Type ℓ} where
  -- The value of the first entry for a key.
  unfoldable pub lookup : String → List (String × V) → Option V
  lookup key [] = none
  lookup key ((name, value) ∷ entries) =
      let later = lookup key entries in if name == key then some value else later

  -- A new value for a key that is there stands in its place.
  unfoldable pub insert : String → V → List (String × V) → List (String × V)
  insert key new [] = (key, new) ∷ []
  insert key new ((name, value) ∷ entries) =
      let others = insert key new entries in
      if name == key then (name, new) ∷ entries else (name, value) ∷ others

  -- `{ ...base, ...extra }`
  unfoldable pub spread : List (String × V) → List (String × V) → List (String × V)
  unfolding insert
  spread base [] = base
  spread base ((name, value) ∷ extra) = spread (insert name value base) extra

  pub lookup-insert :
      (entries : List (String × V)) (at' key : String) (new : V)
      → lookup key (insert at' new entries) ≡ (if at' == key then some new else lookup key entries)
  unfolding lookup insert
  lookup-insert [] at' key new = refl
  lookup-insert ((name, value) ∷ entries) at' key new = elim (Bool-cases (name == at')) [
    | inl here ↦ rw here (replaced (name == key) (at' == key) (rw ((eq_iff name at').0 here) refl))
    | inr away ↦ rw away (elim (Bool-cases (name == key)) [
      | inl found ↦ rw (found, differs away found) refl
      | inr other ↦ rw other (lookup-insert entries at' key new)
    ])
  ]
    where
      replaced :
          (b c : Bool)
          → b ≡ c
          → (if b then some new else lookup key entries)
            ≡ (if c then some new else (if b then some value else lookup key entries))
      replaced true true e = refl
      replaced false false e = refl
      replaced true false e = absurd cc
      replaced false true e = absurd cc

      differs : (name == at') ≡ false → (name == key) ≡ true → (at' == key) ≡ false
      differs away found = ground (arith, eq_iff name at', eq_iff name key, eq_iff at' key)
