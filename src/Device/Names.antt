-- ===== src/Device/Names.antt =====
-- DeviceDetail.tsx: the patterns that find the metrics of the overview by their names.
use Prim.Native.Char.{code}
use ready_jlmirror.Common.{
  ℕ, String, Bool, true, false, not, List, [], ◌∷◌, Option, none, some, ◌&&◌, ◌||◌, if◌then◌else◌,
  leb, eqb, any,
}

-- The pieces of the patterns: `(a|b)`, `.*` and `\b` after a word.
pub data Piece : Type 0 where
  words : List String → Piece
  gap edge : Piece

-- The rest of a text after a word at its beginning.
strip : String → String → Option String
strip String.[] s = some s
strip (String.◌∷◌ w ws) String.[] = none
strip (String.◌∷◌ w ws) (String.◌∷◌ c s) =
    let rest = strip ws s in if eqb (code w) (code c) then rest else none

then_matches : (String → Bool) → Option String → Bool
then_matches p none = false
then_matches p (some s) = p s

-- The line ends, which `.` does not match.
is_line_end : ℕ → Bool
is_line_end c = eqb c 10 || eqb c 13 || eqb c 0x2028 || eqb c 0x2029

-- `.*` before what the test accepts.
after_gap : (String → Bool) → String → Bool
unfolding is_line_end
after_gap p String.[] = p String.[]
after_gap p (String.◌∷◌ c s) =
    let later = after_gap p s in p (String.◌∷◌ c s) || (not (is_line_end (code c)) && later)

-- `\w`
is_word : ℕ → Bool
is_word c =
    (leb b'a' c && leb c b'z')
    || (leb b'A' c && leb c b'Z')
    || (leb b'0' c && leb c b'9')
    || eqb c b'_'

-- `\b` after a word character.
at_edge : String → Bool
unfolding is_word
at_edge String.[] = true
at_edge (String.◌∷◌ c s) = not (is_word (code c))

unfoldable pub matches : List Piece → String → Bool
unfolding strip then_matches after_gap at_edge
matches [] s = true
matches ((words ws) ∷ ps) s = let p = matches ps in any (λ w. then_matches p (strip w s)) ws
matches (gap ∷ ps) s = let p = matches ps in after_gap p s
matches (edge ∷ ps) s = let p = matches ps in at_edge s && p s

-- A match anywhere in the text.
unfoldable pub found : List Piece → String → Bool
found ps String.[] = matches ps String.[]
found ps (String.◌∷◌ c s) = let later = found ps s in matches ps (String.◌∷◌ c s) || later

abbrev rx_cpu : List Piece
rx_cpu = words ("cpu" ∷ []) ∷ gap ∷ words ("util" ∷ "usage" ∷ "load" ∷ "percent" ∷ []) ∷ []

abbrev rx_mem : List Piece
rx_mem =
    words ("mem" ∷ [])
    ∷ gap
    ∷ words ("util" ∷ "usage" ∷ "used" ∷ "available" ∷ "free" ∷ "percent" ∷ [])
    ∷ []

abbrev rx_disk : List Piece
rx_disk =
    words ("disk" ∷ "storage" ∷ "filesystem" ∷ "fs" ∷ [])
    ∷ gap
    ∷ words ("util" ∷ "used" ∷ "free" ∷ "space" ∷ "percent" ∷ "%" ∷ [])
    ∷ []

abbrev rx_net_in_first : List Piece
rx_net_in_first =
    words ("interface" ∷ [])
    ∷ gap
    ∷ words ("in" ∷ "received" ∷ "rx" ∷ [])
    ∷ gap
    ∷ words ("bit" ∷ [])
    ∷ []

abbrev rx_net_in_second : List Piece
rx_net_in_second = words ("bit" ∷ []) ∷ gap ∷ words ("receiv" ∷ "in" ∷ []) ∷ edge ∷ []

abbrev rx_net_out_first : List Piece
rx_net_out_first =
    words ("interface" ∷ [])
    ∷ gap
    ∷ words ("out" ∷ "sent" ∷ "tx" ∷ [])
    ∷ gap
    ∷ words ("bit" ∷ [])
    ∷ []

abbrev rx_net_out_second : List Piece
rx_net_out_second = words ("bit" ∷ []) ∷ gap ∷ words ("sent" ∷ "out" ∷ []) ∷ edge ∷ []

-- The tests of a name in small letters, which the flag `i` of the patterns stands for.
unfoldable pub is_cpu : String → Bool
is_cpu name = found rx_cpu name

unfoldable pub is_mem : String → Bool
is_mem name = found rx_mem name

unfoldable pub is_disk : String → Bool
is_disk name = found rx_disk name

unfoldable pub is_net_in : String → Bool
is_net_in name = found rx_net_in_first name || found rx_net_in_second name

unfoldable pub is_net_out : String → Bool
is_net_out name = found rx_net_out_first name || found rx_net_out_second name
