-- ===== src/Maintenance/SourceIds/Roundtrip.antt =====
-- The identities that a text lists.
use Prim.Native.Char.{Char, code}
use Prim.Native.String.{String, [], ◌∷◌}
use mathlib.Core.List.{List}
use text.Mathlib.TextLemmas.{nil-append, cons-append, append-nil}
use ready_jlmirror.Common.{
  ℕ, suc, ◌≤◌, Bool, true, false, not, ◌&&◌, ◌≡◌, refl, sym, ap, ◌∙◌, ◌==◌, some, arith, trim,
  trim_start, trim_end, truthy, ◌<>◌, join, is_space, All, Bool-cases, inl, inr, eq_iff,
}
use ready_jlmirror.Maintenance.SourceIds.{is_separator, at_front, split, cleaned, source_ids}

-- The text has no separator.
unfoldable pub one_word : String → Bool
one_word [] = true
one_word (c ∷ s) = not (is_separator c) && one_word s

-- A text that stands for itself in a list: not empty, without separators, and without white space
-- at its ends.
abbrev pub IsId : String → Type 0
IsId s = (truthy s ≡ true) × (one_word s ≡ true) × (trim s ≡ s)

left : (b c : Bool) → (not b && c) ≡ true → b ≡ false
left b c h = ground arith

right : (b c : Bool) → (b && c) ≡ true → c ≡ true
right b c h = ground arith

split_last : (b : Bool) (s : String) → one_word s ≡ true → split b s ≡ List.◌∷◌ s List.[]
unfolding split at_front one_word
split_last b [] h = refl
split_last b (c ∷ s) h =
    rw (left (is_separator c) (one_word s) h, split_last false s (right _ (one_word s) h)) refl

comma-append : (t : String) → ", " <> t ≡ "," ∷ (" " ∷ t)
comma-append t =
    cons-append "," " " t
    ∙ ap (λ s. "," ∷ s) (cons-append " " "" t ∙ ap (λ s. " " ∷ s) (nil-append t))

split_comma :
    (rest : String) → split false (", " <> rest) ≡ List.◌∷◌ "" (at_front " " (split false rest))
unfolding split at_front
split_comma rest = ap (split false) (comma-append rest)

split_word :
    (s rest : String)
    → one_word s ≡ true
    → split false (s <> ", " <> rest) ≡ List.◌∷◌ s (at_front " " (split false rest))
unfolding split at_front one_word
split_word [] rest h = ap (split false) (nil-append (", " <> rest)) ∙ split_comma rest
split_word (c ∷ s) rest h =
    ap (split false) (cons-append c s (", " <> rest))
    ∙ rw (left (is_separator c) (one_word s) h, split_word s rest (right _ (one_word s) h)) refl

cleaned_space : (ps : List String) → cleaned (at_front " " ps) ≡ cleaned ps
unfolding cleaned at_front trim trim_start trim_end
cleaned_space List.[] = refl
cleaned_space (List.◌∷◌ p ps) = refl

cleaned_id :
    (s : String) (ps : List String) → IsId s → cleaned (List.◌∷◌ s ps) ≡ List.◌∷◌ s (cleaned ps)
unfolding cleaned
cleaned_id s ps (t, _, e) = rw (e, t) refl

cleaned-join :
    (id : String) (ids : List String)
    → All IsId (List.◌∷◌ id ids)
    → cleaned (split false (join (List.◌∷◌ id ids))) ≡ List.◌∷◌ id ids
unfolding join cleaned
cleaned-join id List.[] (h, _) = rw (split_last false id h.1) (cleaned_id id List.[] h ∙ refl)
cleaned-join id (List.◌∷◌ next ids) (h, hs) =
    rw (split_word id (join (List.◌∷◌ next ids)) h.1)
      (cleaned_id id _ h ∙ ap (λ t. List.◌∷◌ id t) (cleaned_space _ ∙ cleaned-join next ids hs))

size : String → ℕ
size [] = 0
size (c ∷ s) = suc (size s)

size-trim_start : (s : String) → size (trim_start s) ≤ size s
unfolding size trim_start
size-trim_start [] = omega arith
size-trim_start (c ∷ s) = elim (Bool-cases (is_space (code c))) [
  | inl e ↦ rw e (omega (arith, size-trim_start s))
  | inr e ↦ rw e (omega arith)
]

size-trim_end : (s : String) → size (trim_end s) ≤ size s
unfolding size trim_end
size-trim_end [] = omega arith
size-trim_end (c ∷ s) = elim (Bool-cases (is_space (code c) && (trim_end s == ""))) [
  | inl e ↦ rw e (omega arith)
  | inr e ↦ rw e (omega (arith, size-trim_end s))
]

starts_trimmed : (c : Char) (s : String) → trim (c ∷ s) ≡ c ∷ s → is_space (code c) ≡ false
unfolding trim trim_start size
starts_trimmed c s h = elim (Bool-cases (is_space (code c))) [
  | inl e ↦ absurd (long (rw e at h))
  | inr e ↦ e
]
  where
    long : trim_end (trim_start s) ≡ c ∷ s → ⊥
    long k = omega (arith, ap size k, size-trim_end (trim_start s), size-trim_start s)

cons_not_empty : (c : Char) (s : String) → ((c ∷ s) == "") ≡ false
cons_not_empty c s = elim (Bool-cases ((c ∷ s) == "")) [
  | inl e ↦ absurd (cc ((eq_iff (c ∷ s) "").0 e))
  | inr e ↦ e
]

trim_cons : (c : Char) (s : String) → is_space (code c) ≡ false → trim (c ∷ s) ≡ c ∷ trim_end s
unfolding trim trim_start trim_end
trim_cons c s e = rw e (rw e refl)

not_blank : (s rest : String) → IsId s → (trim (s <> rest) == "") ≡ false
not_blank [] rest (t, _, _) = absurd cc
not_blank (c ∷ s) rest (t, _, e) =
    ap (λ u. trim u == "") (cons-append c s rest)
    ∙ ap (λ u. u == "") (trim_cons c (s <> rest) (starts_trimmed c s e))
    ∙ cons_not_empty c (trim_end (s <> rest))

join_not_blank :
    (id : String) (ids : List String) → IsId id → (trim (join (List.◌∷◌ id ids)) == "") ≡ false
unfolding join
join_not_blank id List.[] h = ap (λ u. trim u == "") (sym (append-nil id)) ∙ not_blank id "" h
join_not_blank id (List.◌∷◌ next ids) h = not_blank id _ h

-- A list of identities, none of which is empty, has a separator in it or has white space at its
-- ends, is read back from its text with ", " between them.
pub source_ids-join :
    (id : String) (ids : List String)
    → All IsId (List.◌∷◌ id ids)
    → source_ids (join (List.◌∷◌ id ids)) ≡ some (List.◌∷◌ id ids)
unfolding source_ids
source_ids-join id ids (h, hs) =
    rw (join_not_blank id ids h) (ap some (cleaned-join id ids (h, hs)))
