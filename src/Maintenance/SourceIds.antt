-- ===== src/Maintenance/SourceIds.antt =====
-- frontend/src/pages/MaintenancePage.tsx: how `handleCreate` reads the identities of sources.
pub mod Roundtrip
use Prim.Native.Char.{Char, code}
use Prim.Native.String.{String, [], ◌∷◌}
use mathlib.Core.List.{List}
use ready_jlmirror.Common.{
  Bool, true, false, ◌||◌, ◌==◌, Option, none, some, eqb, if◌then◌else◌, trim, truthy, filter, map,
}

-- The characters of `/[\n,]/`.
abbrev pub is_separator : Char → Bool
is_separator c = eqb (code c) 10 || eqb (code c) 44

-- The character stands at the beginning of the first piece.
unfoldable pub at_front : Char → List String → List String
at_front c List.[] = List.◌∷◌ (c ∷ "") List.[]
at_front c (List.◌∷◌ p ps) = List.◌∷◌ (c ∷ p) ps

-- `text.split(/[\n,]+/)`, after a separator or not: a run of separators separates once.
unfoldable pub split : Bool → String → List String
unfolding at_front
split after [] = List.◌∷◌ "" List.[]
split after (c ∷ s) =
    let rest = split true s in
    let word = split false s in
    if is_separator c then if after then rest else List.◌∷◌ "" rest else at_front c word

unfoldable pub cleaned : List String → List String
cleaned ps = filter truthy (map trim ps)

unfoldable pub source_ids : String → Option (List String)
unfolding split cleaned
source_ids raw = if trim raw == "" then none else some (cleaned (split false raw))
