-- ===== src/Inventory.antt =====
-- frontend/src/pages/InventoryPage.tsx: the resources of a monitoring source, page by page. A page
-- is known by the cursor that the service gave for it, the first by none.
pub mod View
pub mod Cursors
mod Tests
use ready_jlmirror.Common.{
  ℕ, ◌+◌, String, Bool, true, false, not, List, [], ◌∷◌, ◌++◌, Option, none, some, ◌==◌, ◌&&◌, ◌||◌,
  ◌<>◌, ◌or_else◌, if◌then◌else◌, truthy, truthy?, length, filter, show,
}
use ready_jlmirror.Ui.{Variant, muted, success, warning, danger}

-- `Source`
pub record Source : Type 0 where
  pub monitoring_source_id : String
  pub display_name : String
  pub operational_evidence_state : String

-- `Resource`
pub record Resource : Type 0 where
  pub monitoring_resource_id : String
  pub display_name : Option String
  pub resource_kind : Option String
  pub scope_evidence_state : Option String
  pub presence_evidence_state : Option String
  pub presence_state : Option String
  pub last_observed_at : Option String

-- What the service answers for a page.
pub record ResourcePage : Type 0 where
  pub items : List Resource
  pub generation_state : Option String
  pub next_cursor : Option String

-- `field === text`
abbrev is_text : Option String → String → Bool
is_text none t = false
is_text (some s) t = s == t

abbrev is_current : Resource → Bool
is_current r =
    is_text r.scope_evidence_state "current" && is_text r.presence_evidence_state "current"

pub health_variant : Resource → Variant
health_variant r =
    if is_text r.presence_state "removed"
    then muted
    else if is_current r
    then success
    else if truthy? r.scope_evidence_state || truthy? r.presence_evidence_state
    then warning
    else muted

-- The first of two optional texts that is there.
abbrev first_text : Option String → Option String → Option String
first_text none t = t
first_text (some s) t = some s

pub health_label : Resource → String
health_label r =
    if is_text r.presence_state "removed"
    then "removed"
    else if is_current r
    then "healthy"
    else first_text r.scope_evidence_state r.presence_evidence_state or_else "unknown"

-- `healthVariant(r) === v`
pub has_variant : Variant → Resource → Bool
has_variant v r = same v (health_variant r)
  where
    same : Variant → Variant → Bool
    same success success = true
    same warning warning = true
    same danger danger = true
    same _ _ = false

-- `counts`, for one variant.
pub count : Variant → List Resource → ℕ
unfolding has_variant
count v resources = length (filter (has_variant v) resources)

-- The `useState` values of the page.
pub record Inventory : Type 0 where
  pub search : String
  pub selected_source : Option String
  pub selected_resource : Option (String × String)
  pub cursor : Option String
  pub cursor_stack : List (Option String)

abbrev pub start : Inventory
start = record {
  search = "";
  selected_source = none;
  selected_resource = none;
  cursor = none;
  cursor_stack = [];
}

pub data Message : Type 0 where
  set_search : String → Message
  select_source : String → Message
  select_resource : String → String → Message
  back : Message
  previous : Message
  -- with the cursor of the next page when the page was drawn
  next : Option String → Message

-- `stack[stack.length - 1] ?? null`
pub top : List (Option String) → Option String
top [] = none
top (c ∷ []) = c
top (c ∷ d ∷ stack) = top (d ∷ stack)

-- `stack.slice(0, -1)`
pub popped : List (Option String) → List (Option String)
popped [] = []
popped (c ∷ []) = []
popped (c ∷ d ∷ stack) = c ∷ popped (d ∷ stack)

go_next : Option String → Inventory → Inventory
go_next none s = s
go_next (some c) s =
    if truthy c
    then record s { cursor = some c; cursor_stack = s.cursor_stack ++ s.cursor ∷ [] }
    else s

unfoldable pub update : Message → Inventory → Inventory
unfolding top popped go_next
update (set_search t) s = record s { search = t }
update (select_source id) s = record s {
  selected_source = some id;
  cursor = none;
  cursor_stack = [];
}
update (select_resource source resource) s = record s {
  selected_resource = some (source, resource);
}
update back s = record s { selected_resource = none }
update previous s = record s { cursor = top s.cursor_stack; cursor_stack = popped s.cursor_stack }
update (next c) s = go_next c s

-- `sources[0]?.monitoring_source_id`
abbrev first_source : List Source → Option String
first_source [] = none
first_source (s ∷ sources) = some s.monitoring_source_id

pub active_source : Inventory → List Source → Option String
active_source s sources = first_text s.selected_source (first_source sources)

-- The path of the query for the resources; `encode` is `encodeURIComponent`.
pub resources_path : (String → String) → String → Inventory → String
resources_path encode source s =
    "/api/v1/monitoring/sources/"
    <> source
    <> "/resources?limit="
    <> show 50
    <> (if truthy? s.cursor then "&cursor=" <> encode (s.cursor or_else "") else "")

unfoldable pub page_number : Inventory → ℕ
page_number s = length s.cursor_stack + 1

-- The filter of the resources; `lower` is `toLowerCase` and `has` is `includes`.
pub matching :
    (String → String) → (String → String → Bool) → Inventory → List Resource → List Resource
matching lower has s items = filter shown items
  where
    shown : Resource → Bool
    shown r =
        not (truthy s.search)
        || has (lower (r.display_name or_else "")) (lower s.search)
        || has (lower (r.resource_kind or_else "")) (lower s.search)
