-- ===== src/Client/Csrf.antt =====
-- The token that `csrfToken` reads out of a cookie.
use Prim.Native.String.{[], ◌∷◌}
use Prim.Native.Char.{code}
use mathlib.Core.List.{List}
use text.Mathlib.TextLemmas.{nil-append, cons-append, append_assoc, append-nil}
use ready_jlmirror.Common.{
  ℕ, String, true, false, Option, none, some, ◌≡◌, refl, ◌≢◌, ap, ◌∙◌, sym, ◌==◌, ◌<>◌, eq_iff,
  arith, if◌then◌else◌, All, Bool-cases, inl, inr, eqb, eqb_iff, ◌or_else◌, lookup,
}
use text.Mathlib.TextEquality.{Char-path}
use ready_jlmirror.Client.{strip, value, find_later, find_token, csrf_token, decode_match}
use ready_jlmirror.Client.Uri.{Lacks, decode, decode_of_Lacks}

-- `document.cookie`: the pairs of a jar, joined by "; ".
unfoldable pub print_jar : List (String × String) → String
print_jar List.[] = ""
print_jar (List.◌∷◌ (n, v) List.[]) = n <> "=" <> v
print_jar (List.◌∷◌ (n, v) (List.◌∷◌ p jar)) = n <> "=" <> v <> "; " <> print_jar (List.◌∷◌ p jar)

-- A name holds no "=" and no ";", and a value no ";".
abbrev pub IsPair : String × String → Type 0
IsPair p = Lacks b'=' p.0 × Lacks b';' p.0 × Lacks b';' p.1

strip-append : (p t : String) → strip p (p <> t) ≡ some t
unfolding strip
strip-append [] t = rw nil-append
strip-append (c ∷ p) t = rw cons-append (ground (arith, strip-append p t))

strip_same : (k t : String) → strip (k <> "=") (k <> "=" <> t) ≡ some t
strip_same k t = rw (← append_assoc k "=" t) (strip-append (k <> "=") t)

-- One equals sign before a text.
equals-append : (t : String) → "=" <> t ≡ "=" ∷ t
equals-append t = cons-append "=" "" t ∙ ap (λ s. "=" ∷ s) (nil-append t)

strip_other :
    (k n t : String) → k ≢ n → Lacks b'=' k → Lacks b'=' n → strip (k <> "=") (n <> "=" <> t) ≡ none
unfolding strip
strip_other [] [] t h _ _ = absurd (h refl)
strip_other [] (d ∷ n) t h _ (q, _) = rw cons-append (ground arith)
strip_other (c ∷ k) [] t h (p, _) _ = rw (nil-append, cons-append, equals-append) (ground arith)
strip_other (c ∷ k) (d ∷ n) t h (_, p) (_, q) = elim (Bool-cases (eqb (code c) (code d))) [
  | inl same ↦
      rw (cons-append, cons-append) (rw same (strip_other k n t (λ e. h (cons_eq same e)) p q))
  | inr differ ↦ rw (cons-append, cons-append) (rw differ)
]
  where
    cons_eq : eqb (code c) (code d) ≡ true → k ≡ n → (c ∷ k) ≡ (d ∷ n)
    cons_eq same e = λ i. Char-path c d ((eqb_iff (code c) (code d)).0 same) i ∷ e i

Lacks-append : (n : ℕ) (s t : String) → Lacks n s → Lacks n t → Lacks n (s <> t)
Lacks-append n [] t _ h = rw nil-append h
Lacks-append n (c ∷ s) t (p, g) h = rw cons-append (p, Lacks-append n s t g h)

-- No match begins in a text with no semicolon.
find_later-append : (s t : String) → Lacks b';' s → find_later (s <> t) ≡ find_later t
unfolding find_later
find_later-append [] t _ = rw nil-append
find_later-append (c ∷ s) t (p, h) = rw cons-append (ground (arith, find_later-append s t h))

value_of_Lacks : (v : String) → Lacks b';' v → value v ≡ v
unfolding value
value_of_Lacks [] _ = refl
value_of_Lacks (c ∷ v) (p, h) = ground (arith, value_of_Lacks v h)

value-append : (v t : String) → Lacks b';' v → value (v <> "; " <> t) ≡ v
unfolding value
value-append [] t _ = rw (nil-append, cons-append)
value-append (c ∷ v) t (p, h) = rw cons-append (ground (arith, value-append v t h))

-- A semicolon and a space before a text.
separator-append : (t : String) → "; " <> t ≡ ";" ∷ (" " ∷ t)
separator-append t =
    cons-append ";" " " t
    ∙ ap (λ s. ";" ∷ s) (cons-append " " "" t)
    ∙ ap (λ s. ";" ∷ (" " ∷ s)) (nil-append t)

find_later-separator : (t : String) → find_later ("; " <> t) ≡ find_token t
unfolding find_token
find_later-separator t = rw separator-append (unfold find_later strip in (ground arith))

first_pair-append : (n v t : String) → (n <> "=" <> v) <> t ≡ n <> "=" <> v <> t
first_pair-append n v t = append_assoc n ("=" <> v) t ∙ ap (λ s. n <> s) (append_assoc "=" v t)

-- Where the first pair has another name, the match is in the rest.
find_token_skip :
    (n v t : String)
    → "jl_csrf" ≢ n
    → IsPair (n, v)
    → find_token (n <> "=" <> v <> t) ≡ find_later t
unfolding find_token
find_token_skip n v t h (eq, semi, vsemi) =
    rw (strip_other "jl_csrf" n (v <> t) h lacks eq, find_token)
      (rw (← first_pair-append n v t) (
        find_later-append (n <> "=" <> v) t
          (Lacks-append b';' n ("=" <> v) semi (Lacks-append b';' "=" v (omega arith) vsemi))))
  where
    lacks : Lacks b'=' "jl_csrf"
    lacks = omega arith

find_token_here : (v t : String) → find_token ("jl_csrf" <> "=" <> v <> t) ≡ some (value (v <> t))
unfolding find_token
find_token_here v t = rw (strip_same "jl_csrf" (v <> t), find_token)

find_token_step :
    (n v t : String)
    → IsPair (n, v)
    → find_token (n <> "=" <> v <> "; " <> t) ≡ (if n == "jl_csrf" then some v else find_token t)
find_token_step n v t p = elim (Bool-cases (n == "jl_csrf")) [
  | inl same ↦
      rw (same, (eq_iff n "jl_csrf").0 same)
        (find_token_here v ("; " <> t) ∙ ap some (value-append v t p.2))
  | inr differ ↦
      rw differ
        (find_token_skip n v ("; " <> t) (λ e. ne differ (sym e)) p ∙ find_later-separator t)
]
  where
    ne : (n == "jl_csrf") ≡ false → n ≢ "jl_csrf"
    ne differ e = ground (arith, eq_iff n "jl_csrf")

find_token_last :
    (n v : String)
    → IsPair (n, v)
    → find_token (n <> "=" <> v) ≡ (if n == "jl_csrf" then some v else none)
find_token_last n v p = elim (Bool-cases (n == "jl_csrf")) [
  | inl same ↦
      rw (same, (eq_iff n "jl_csrf").0 same)
        (rw append-nil at (find_token_here v "") ∙ ap some (value_of_Lacks v p.2))
  | inr differ ↦
      rw differ (rw append-nil at (find_token_skip n v "" (λ e. ne differ (sym e)) p) ∙ nothing)
]
  where
    ne : (n == "jl_csrf") ≡ false → n ≢ "jl_csrf"
    ne differ e = ground (arith, eq_iff n "jl_csrf")

    nothing : find_later "" ≡ none
    nothing = unfold find_later in refl

-- What the regular expression of `csrfToken` finds in the text of a jar is the value of the
-- first pair with that name.
find_token-print_jar :
    (jar : List (String × String))
    → All IsPair jar
    → find_token (print_jar jar) ≡ lookup "jl_csrf" jar
unfolding print_jar lookup
find_token-print_jar List.[] _ = unfold find_token find_later strip in refl
find_token-print_jar (List.◌∷◌ (n, v) List.[]) (p, _) = find_token_last n v p
find_token-print_jar (List.◌∷◌ (n, v) (List.◌∷◌ q jar)) (p, ps) =
    find_token_step n v (print_jar (List.◌∷◌ q jar)) p
    ∙ ap (λ o. if n == "jl_csrf" then some v else o) (find_token-print_jar (List.◌∷◌ q jar) ps)

-- For a cookie that is the text of a jar whose names hold no "=" and no ";" and whose values hold
-- no ";", `csrfToken` gives the decoded value of the first pair named jl_csrf, and the empty text
-- if there is none.
pub csrf_token-print_jar :
    (jar : List (String × String))
    → All IsPair jar
    → csrf_token (print_jar jar) ≡ decode (lookup "jl_csrf" jar or_else "")
unfolding csrf_token
csrf_token-print_jar jar h = rw (find_token-print_jar jar h) (found (lookup "jl_csrf" jar))
  where
    found : (o : Option String) → decode_match o ≡ decode (o or_else "")
    found none = unfold decode_match in sym (decode_of_Lacks "" tt)
    found (some v) = unfold decode_match in refl
