-- ===== src/Inventory/Cursors.antt =====
-- The pages of the inventory, forth and back.
use ready_jlmirror.Common.{
  String, true, false, List, [], ◌∷◌, ◌++◌, Option, none, some, ◌≡◌, refl, ap, ◌∙◌, All, truthy,
  arith, length, Bool-cases, inl, inr,
}
use ready_jlmirror.Ui.{danger}
use ready_jlmirror.Inventory.{
  Inventory, Resource, Message, set_search, select_source, select_resource, back, previous, next,
  start, update, top, popped, go_next, page_number, has_variant, health_variant, count,
}

top-append : (stack : List (Option String)) (c : Option String) → top (stack ++ c ∷ []) ≡ c
unfolding top
top-append [] c = refl
top-append (b ∷ []) c = refl
top-append (b ∷ d ∷ stack) c = top-append (d ∷ stack) c

popped-append :
    (stack : List (Option String)) (c : Option String) → popped (stack ++ c ∷ []) ≡ stack
unfolding popped
popped-append [] c = refl
popped-append (b ∷ []) c = refl
popped-append (b ∷ d ∷ stack) c = ap (λ t. b ∷ t) (popped-append (d ∷ stack) c)

-- The state after going on along some cursors, and after going back some pages.
pub forth : List String → Inventory → Inventory
forth [] s = s
forth (c ∷ cs) s = forth cs (update (next (some c)) s)

pub back_pages : List String → Inventory → Inventory
back_pages [] s = s
back_pages (c ∷ cs) s = update previous (back_pages cs s)

next_previous :
    (c : String) (s : Inventory) → truthy c ≡ true → update previous (update (next (some c)) s) ≡ s
unfolding update go_next
next_previous c s h =
    rw h (rw (top-append s.cursor_stack s.cursor, popped-append s.cursor_stack s.cursor) refl)

-- From any page, going on any number of pages and then back as many is the page, with the whole
-- state as it was.
pub back_pages-forth :
    (cs : List String) (s : Inventory)
    → All (λ c. truthy c ≡ true) cs
    → back_pages cs (forth cs s) ≡ s
unfolding back_pages forth
back_pages-forth [] s h = refl
back_pages-forth (c ∷ cs) s (h, hs) =
    ap (update previous) (back_pages-forth cs (update (next (some c)) s) hs) ∙ next_previous c s h

unfoldable pub run : List Message → Inventory → Inventory
run [] s = s
run (m ∷ ms) s = run ms (update m s)

-- The bottom of the stack, or the cursor where the stack is empty, is that of the first page.
IsRooted : List (Option String) → Option String → Type 0
IsRooted [] cursor = cursor ≡ none
IsRooted (c ∷ stack) cursor = c ≡ none

IsRooted-append :
    (stack : List (Option String)) (c d : Option String)
    → IsRooted stack c
    → IsRooted (stack ++ c ∷ []) d
unfolding IsRooted
IsRooted-append [] c d h = h
IsRooted-append (b ∷ stack) c d h = h

IsRooted-popped :
    (stack : List (Option String)) (c : Option String)
    → IsRooted stack c
    → IsRooted (popped stack) (top stack)
unfolding IsRooted popped top
IsRooted-popped [] c h = refl
IsRooted-popped (b ∷ []) c h = h
IsRooted-popped (b ∷ d ∷ stack) c h = h

IsRooted-next :
    (o : Option String) (s : Inventory)
    → IsRooted s.cursor_stack s.cursor
    → IsRooted (go_next o s).cursor_stack (go_next o s).cursor
unfolding go_next
IsRooted-next none s h = h
IsRooted-next (some c) s h = elim (Bool-cases (truthy c)) [
  | inl e ↦ rw e (IsRooted-append s.cursor_stack s.cursor (some c) h)
  | inr e ↦ rw e h
]

IsRooted-update :
    (m : Message) (s : Inventory)
    → IsRooted s.cursor_stack s.cursor
    → IsRooted (update m s).cursor_stack (update m s).cursor
unfolding update IsRooted
IsRooted-update (set_search t) s h = h
IsRooted-update (select_source id) s h = refl
IsRooted-update (select_resource a b) s h = h
IsRooted-update back s h = h
IsRooted-update previous s h = IsRooted-popped s.cursor_stack s.cursor h
IsRooted-update (next c) s h = IsRooted-next c s h

IsRooted-run :
    (ms : List Message) (s : Inventory)
    → IsRooted s.cursor_stack s.cursor
    → IsRooted (run ms s).cursor_stack (run ms s).cursor
unfolding run
IsRooted-run [] s h = h
IsRooted-run (m ∷ ms) s h = IsRooted-run ms (update m s) (IsRooted-update m s h)

-- Whatever the user did, the page that is numbered 1 is the one that is asked for with no cursor.
pub page_number-run :
    (ms : List Message) → page_number (run ms start) ≡ 1 → (run ms start).cursor ≡ none
unfolding page_number IsRooted
page_number-run ms h =
    bottom (run ms start).cursor_stack (run ms start).cursor (IsRooted-run ms start refl)
      (omega (arith, h))
  where
    bottom :
        (stack : List (Option String)) (c : Option String)
        → IsRooted stack c
        → length stack ≡ 0
        → c ≡ none
    bottom [] c h e = h
    bottom (b ∷ stack) c h e = absurd (omega (arith, e))

never_danger : (r : Resource) → has_variant danger r ≡ false
unfolding has_variant health_variant
never_danger r = ground arith

-- Whatever the resources, none is counted as unhealthy.
pub count_danger : (resources : List Resource) → count danger resources ≡ 0
unfolding count
count_danger [] = refl
count_danger (r ∷ resources) = rw (never_danger r) (count_danger resources)
