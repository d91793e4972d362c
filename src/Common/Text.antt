-- ===== src/Common/Text.antt =====
-- Text: templates, truth values, `trim`, and the decimal text of a number.
use Prim.Native.Nat.{ℕ, zero, suc, ◌+◌, ◌-◌, ◌*◌, ◌/◌, ◌%◌, ◌<◌}
use Prim.Native.Char.{Char, code}
use Prim.Native.String
use Prim.Native.String.{String, [], ◌∷◌}
use mathlib.Core.Path.{◌≡◌, refl, sym, ap, ◌∙◌}
use mathlib.Core.Bool.{Bool, true, false, not, ◌&&◌, ◌||◌}
use mathlib.Core.Option.{Option, none, some}
use mathlib.Core.Logic.{inl, inr}
use mathlib.Core.List.{List}
use native.Mathlib.Omega.{arith}
use text.Mathlib.Text.{◌==◌}
use ready_jlmirror.Common.Tests.{if◌then◌else◌, eqb, leb, Bool-cases}

infixr 66 ◌<>◌
abbrev pub ◌<>◌ : String → String → String
s <> t = String.◌++◌ s t

-- A text is false as a condition exactly when it is empty; an absent one is false too.
abbrev pub truthy : String → Bool
truthy s = not (s == "")

abbrev pub truthy? : Option String → Bool
truthy? none = false
truthy? (some s) = truthy s

-- The white space and line ends that `trim` removes.
abbrev pub is_space : ℕ → Bool
is_space c =
    (leb 9 c && leb c 13)
    || eqb c 32
    || eqb c 160
    || eqb c 0x1680
    || (leb 0x2000 c && leb c 0x200a)
    || eqb c 0x2028
    || eqb c 0x2029
    || eqb c 0x202f
    || eqb c 0x205f
    || eqb c 0x3000
    || eqb c 0xfeff

unfoldable pub trim_start : String → String
trim_start [] = []
trim_start (c ∷ s) = if is_space (code c) then trim_start s else c ∷ s

unfoldable pub trim_end : String → String
trim_end [] = []
trim_end (c ∷ s) = let t = trim_end s in if is_space (code c) && (t == "") then "" else c ∷ t

-- `s.trim()`
unfoldable pub trim : String → String
unfolding trim_start trim_end
trim s = trim_end (trim_start s)

-- `String(n)` of a natural number.
abbrev pub digit : ℕ → Char
digit zero = "0"
digit (suc zero) = "1"
digit (suc (suc zero)) = "2"
digit (suc (suc (suc zero))) = "3"
digit (suc (suc (suc (suc zero)))) = "4"
digit (suc (suc (suc (suc (suc zero))))) = "5"
digit (suc (suc (suc (suc (suc (suc zero)))))) = "6"
digit (suc (suc (suc (suc (suc (suc (suc zero))))))) = "7"
digit (suc (suc (suc (suc (suc (suc (suc (suc zero)))))))) = "8"
digit n = "9"

show_from : ℕ → ℕ → String → String
show_from zero n rest = rest
show_from (suc fuel) n rest =
    let longer = show_from fuel (n / 10) (digit (n % 10) ∷ rest) in
    if eqb (n / 10) 0 then digit (n % 10) ∷ rest else longer

unfoldable pub show : ℕ → String
unfolding show_from
show n = show_from (suc n) n ""

-- The number that decimal digits stand for, continuing from `n`.
unfoldable pub value_from : ℕ → String → ℕ
value_from n [] = n
value_from n (c ∷ s) = value_from (n * 10 + (code c - 48)) s

code-digit : (d : ℕ) → d < 10 → code (digit d) - 48 ≡ d
code-digit zero h = refl
code-digit (suc zero) h = refl
code-digit (suc (suc zero)) h = refl
code-digit (suc (suc (suc zero))) h = refl
code-digit (suc (suc (suc (suc zero)))) h = refl
code-digit (suc (suc (suc (suc (suc zero))))) h = refl
code-digit (suc (suc (suc (suc (suc (suc zero)))))) h = refl
code-digit (suc (suc (suc (suc (suc (suc (suc zero))))))) h = refl
code-digit (suc (suc (suc (suc (suc (suc (suc (suc zero)))))))) h = refl
code-digit (suc (suc (suc (suc (suc (suc (suc (suc (suc zero))))))))) h = refl
code-digit (suc (suc (suc (suc (suc (suc (suc (suc (suc (suc n)))))))))) h = absurd (omega arith)

value_from-show_from :
    (fuel n : ℕ) (rest : String)
    → n < fuel
    → value_from 0 (show_from fuel n rest) ≡ value_from n rest
unfolding value_from show_from
value_from-show_from zero n rest h = absurd (omega arith)
value_from-show_from (suc fuel) n rest h = elim (Bool-cases (eqb (n / 10) 0)) [
  | inl e ↦ rw e (
      ap (λ k. value_from k rest)
        (omega (arith, code-digit (n % 10) (omega arith), is_zero (n / 10) e)))
  | inr e ↦ rw e (
      value_from-show_from fuel (n / 10) (digit (n % 10) ∷ rest) (below e)
      ∙ ap (λ k. value_from k rest) (omega (arith, code-digit (n % 10) (omega arith))))
]
  where
    is_zero : (k : ℕ) → eqb k 0 ≡ true → k ≡ 0
    is_zero k e = ground arith

    nonzero : (k : ℕ) → eqb k 0 ≡ false → 0 < k
    nonzero k e = ground arith

    below : eqb (n / 10) 0 ≡ false → n / 10 < fuel
    below e = omega (arith, nonzero (n / 10) e)

unfoldable pub number_of : String → ℕ
unfolding value_from
number_of s = value_from 0 s

-- The text of a number is read back as the number.
pub number_of-show : (n : ℕ) → number_of (show n) ≡ n
unfolding number_of show value_from
number_of-show n = value_from-show_from (suc n) n "" (omega arith)

-- Different numbers have different texts.
pub show_inj : (m n : ℕ) → show m ≡ show n → m ≡ n
show_inj m n e = sym (number_of-show m) ∙ ap number_of e ∙ number_of-show n

-- `xs.join(", ")`
unfoldable pub join : List String → String
join List.[] = ""
join (List.◌∷◌ x List.[]) = x
join (List.◌∷◌ x (List.◌∷◌ y xs)) = x <> ", " <> join (List.◌∷◌ y xs)
