-- ===== src/Client/Uri.antt =====
-- `decodeURIComponent`, which api/client.ts applies to the value of a cookie. A text is a list of
-- code points here; `none` is the URIError that it throws.
use Prim.Native.Nat.{Ordering, compare}
use Prim.Native.Char.{Char, char, code, IsScalar}
use Prim.Native.String.{[], ◌∷◌}
use mathlib.Core.List.{List}
use ready_jlmirror.Common.{
  ℕ, zero, suc, ◌+◌, ◌-◌, ◌*◌, String, ◌&&◌, ◌||◌, Option, none, some, ◌≡◌, refl, ◌≢◌, arith, leb,
  ltb, eqb, if◌then◌else◌,
}

-- `IsScalar n` unfolds to the same clauses at three comparisons.
abbrev IsLess : Ordering → Type 0
IsLess Ordering.lt = Unit
IsLess Ordering.eq = ⊥
IsLess Ordering.gt = ⊥

abbrev AreLess : Ordering → Ordering → Type 0
AreLess Ordering.lt o = IsLess o
AreLess Ordering.eq _ = ⊥
AreLess Ordering.gt _ = ⊥

abbrev IsValid : Ordering → Ordering → Ordering → Type 0
IsValid Ordering.lt _ _ = Unit
IsValid Ordering.eq o p = AreLess o p
IsValid Ordering.gt o p = AreLess o p

valid? : (a b c : Ordering) → Option (IsValid a b c)
valid? Ordering.lt b c = some tt
valid? Ordering.eq Ordering.lt Ordering.lt = some tt
valid? Ordering.gt Ordering.lt Ordering.lt = some tt
valid? _ _ _ = none

abbrev make_char : (n : ℕ) → Option (IsScalar n) → Option Char
make_char n none = none
make_char n (some p) = some (char n p)

-- The character of a code point, if it is a scalar value.
from_code : ℕ → Option Char
unfolding valid?
from_code n = make_char n (valid? (compare n 55296) (compare 57343 n) (compare n 1114112))

-- A unit of the encoded text: a character that stands for itself, or the byte of `%XX`.
pub data Piece : Type 0 where
  plain : Char → Piece
  byte : ℕ → Piece

hex : Char → Option ℕ
hex c =
    if leb b'0' (code c) && leb (code c) b'9'
    then some (code c - b'0')
    else if leb b'A' (code c) && leb (code c) b'F'
    then some (code c - b'A' + 10)
    else if leb b'a' (code c) && leb (code c) b'f'
    then some (code c - b'a' + 10)
    else none

push : {A : Type 0} → A → Option (List A) → Option (List A)
push a none = none
push a (some l) = some (List.◌∷◌ a l)

escaped : Option ℕ → Option ℕ → Option (List Piece) → Option (List Piece)
unfolding push
escaped (some h) (some l) rest = push (byte (h * 16 + l)) rest
escaped _ _ rest = none

pieces : String → Option (List Piece)
unfolding push hex escaped
pieces [] = some List.[]
pieces (c ∷ []) = if eqb (code c) b'%' then none else some (List.◌∷◌ (plain c) List.[])
pieces (c ∷ d ∷ []) = if eqb (code c) b'%' then none else push (plain c) (pieces (d ∷ []))
pieces (c ∷ d ∷ e ∷ s) =
    let escape = escaped (hex d) (hex e) (pieces s) in
    let character = push (plain c) (pieces (d ∷ e ∷ s)) in
    if eqb (code c) b'%' then escape else character

write : Option Char → Option String → Option String
write (some c) (some s) = some (c ∷ s)
write _ _ = none

-- The bytes as UTF-8: `more` bytes are still to come for the value so far, which must be at
-- least `least`.
utf8 : (more value least : ℕ) → List Piece → Option String
unfolding write from_code
utf8 zero value least List.[] = some ""
utf8 zero value least (List.◌∷◌ (plain c) ps) = write (some c) (utf8 zero 0 0 ps)
utf8 zero value least (List.◌∷◌ (byte b) ps) =
    let one = write (from_code b) (utf8 zero 0 0 ps) in
    let two = utf8 1 (b - 0xc0) 0x80 ps in
    let three = utf8 2 (b - 0xe0) 0x800 ps in
    let four = utf8 3 (b - 0xf0) 0x10000 ps in
    if ltb b 0x80
    then one
    else if ltb b 0xc0
    then none
    else if ltb b 0xe0
    then two
    else if ltb b 0xf0
    then three
    else if ltb b 0xf8
    then four
    else none
utf8 (suc more) value least List.[] = none
utf8 (suc more) value least (List.◌∷◌ (plain c) ps) = none
utf8 (suc more) value least (List.◌∷◌ (byte b) ps) =
    let value' = value * 64 + (b - 0x80) in
    let last = write (from_code value') (utf8 zero 0 0 ps) in
    let next = utf8 more value' least ps in
    if ltb b 0x80 || leb 0xc0 b
    then none
    else if leb 1 more
    then next
    else if leb least value'
    then last
    else none

decode_all : Option (List Piece) → Option String
unfolding utf8
decode_all none = none
decode_all (some ps) = utf8 zero 0 0 ps

unfoldable pub decode : String → Option String
unfolding pieces decode_all
decode s = decode_all (pieces s)

-- No character of the text is the given one.
abbrev pub Lacks : ℕ → String → Type 0
Lacks n [] = Unit
Lacks n (c ∷ s) = (code c ≢ n) × Lacks n s

characters : String → List Piece
characters [] = List.[]
characters (c ∷ s) = List.◌∷◌ (plain c) (characters s)

pieces-characters : (s : String) → Lacks b'%' s → pieces s ≡ some (characters s)
unfolding pieces characters
pieces-characters [] h = refl
pieces-characters (c ∷ []) h = ground arith
pieces-characters (c ∷ d ∷ []) (p, h) = ground (arith, pieces-characters (d ∷ []) h)
pieces-characters (c ∷ d ∷ e ∷ s) (p, h) = ground (arith, pieces-characters (d ∷ e ∷ s) h)

utf8-characters : (s : String) → utf8 zero 0 0 (characters s) ≡ some s
unfolding utf8 characters
utf8-characters [] = refl
utf8-characters (c ∷ s) = rw (utf8-characters s)

-- A text with no percent sign is its own decoding.
pub decode_of_Lacks : (s : String) → Lacks b'%' s → decode s ≡ some s
unfolding decode
decode_of_Lacks s h = rw (pieces-characters s h) (utf8-characters s)

euro : decode "a%20%E2%82%ACb" ≡ some "a €b"
unfolding decode
euro = refl

malformed : (decode "%E2%82" ≡ none) × (decode "%C0%80" ≡ none) × (decode "%4" ≡ none)
unfolding decode
malformed = (refl, refl, refl)
