-- ===== src/Monitoring/Slug.antt =====
-- MonitoringPage.tsx, `slugify`: the name under which a credential is kept. A text is a list of
-- code points here; the characters that stay in it are one code unit each.
use Prim.Native.Char.{Char, code}
use Prim.Native.String.{[], ◌∷◌}
use ready_jlmirror.Common.{
  ℕ, zero, suc, ◌≤◌, ◌<◌, String, Bool, true, false, ◌&&◌, ◌||◌, ◌≡◌, refl, arith, if◌then◌else◌,
  leb, eqb, is_space, truthy, Bool-cases, inl, inr,
}

-- `/\s+/g` replaced by "-": after a white space or not.
unfoldable pub dashed : Bool → String → String
dashed after [] = ""
dashed after (c ∷ s) =
    let rest = dashed true s in
    let word = dashed false s in
    if is_space (code c) then if after then rest else "-" ∷ rest else c ∷ word

-- `[a-z0-9-]`
abbrev pub is_slug : Char → Bool
is_slug c =
    (leb b'a' (code c) && leb (code c) b'z')
    || (leb b'0' (code c) && leb (code c) b'9')
    || eqb (code c) b'-'

-- `.replace(/[^a-z0-9-]/g, "")`
unfoldable pub kept : String → String
kept [] = ""
kept (c ∷ s) = let rest = kept s in if is_slug c then c ∷ rest else rest

-- `.slice(0, n)`
unfoldable pub first : ℕ → String → String
first zero s = ""
first (suc n) [] = ""
first (suc n) (c ∷ s) = c ∷ first n s

-- `lower` is `toLowerCase`.
unfoldable pub slugify : (String → String) → String → String
unfolding dashed kept first
slugify lower s =
    let slug = first 40 (kept (dashed false (lower s))) in
    if truthy slug then slug else "cred-binding"

unfoldable pub size : String → ℕ
size [] = 0
size (c ∷ s) = suc (size s)

-- Every character is one of `[a-z0-9-]`.
unfoldable pub all_slug : String → Bool
all_slug [] = true
all_slug (c ∷ s) = is_slug c && all_slug s

all_slug-kept : (s : String) → all_slug (kept s) ≡ true
unfolding all_slug kept
all_slug-kept [] = refl
all_slug-kept (c ∷ s) = elim (Bool-cases (is_slug c)) [
  | inl e ↦ rw (e, e) (all_slug-kept s)
  | inr e ↦ rw e (all_slug-kept s)
]

all_slug-first : (n : ℕ) (s : String) → all_slug s ≡ true → all_slug (first n s) ≡ true
unfolding all_slug first
all_slug-first zero s h = refl
all_slug-first (suc n) [] h = refl
all_slug-first (suc n) (c ∷ s) h =
    both (is_slug c) (all_slug s) (all_slug (first n s)) h (all_slug-first n s)
  where
    both : (b x y : Bool) → (b && x) ≡ true → (x ≡ true → y ≡ true) → (b && y) ≡ true
    both true x y h k = k h
    both false x y h k = h

size-first : (n : ℕ) (s : String) → size (first n s) ≤ n
unfolding size first
size-first zero s = omega arith
size-first (suc n) [] = omega arith
size-first (suc n) (c ∷ s) = omega (arith, size-first n s)

size-truthy : (s : String) → truthy s ≡ true → 0 < size s
unfolding size
size-truthy [] h = absurd cc
size-truthy (c ∷ s) h = omega arith

-- Whatever the name, the reference that is made of it has between 1 and 40 characters, each a
-- small letter, a digit or a dash.
pub slugify-bounded :
    (lower : String → String) (s : String)
    → (0 < size (slugify lower s))
      × (size (slugify lower s) ≤ 40)
      × (all_slug (slugify lower s) ≡ true)
unfolding slugify size all_slug
slugify-bounded lower s =
    let letters = kept (dashed false (lower s)) in
    chosen (first 40 letters) (size-first 40 letters)
      (all_slug-first 40 letters (all_slug-kept (dashed false (lower s))))
  where
    chosen :
        (slug : String)
        → size slug ≤ 40
        → all_slug slug ≡ true
        → (0 < size (if truthy slug then slug else "cred-binding"))
          × (size (if truthy slug then slug else "cred-binding") ≤ 40)
          × (all_slug (if truthy slug then slug else "cred-binding") ≡ true)
    chosen slug h k = elim (Bool-cases (truthy slug)) [
      | inl e ↦ rw e (size-truthy slug e, h, k)
      | inr e ↦ rw e (omega arith, omega arith, refl)
    ]
