-- ===== src/Inventory/View.antt =====
-- What the inventory page shows, and that its pager waits.
use ready_jlmirror.Common.{
  String, Bool, true, false, not, List, [], ◌∷◌, ◌++◌, Option, none, some, ◌≡◌, refl, ◌&&◌, ◌<>◌,
  ◌or_else◌, All, if◌then◌else◌, eqb, length, show, truthy, truthy?, is_some, arith,
}
use ready_jlmirror.Ui.{
  Query, Element, text, badge, spinner, button, row, input, embed, when, each, offers, success,
  warning, danger,
}
use ready_jlmirror.Ui.Offers.{
  OffersOnly, nil, append, after_text, after_badge, after_spinner, after_button, after_row,
  after_input, after_embed, under, by_test, for_each,
}
use ready_jlmirror.Inventory.{
  Source, Resource, ResourcePage, health_variant, health_label, count, Inventory, Message,
  set_search, select_source, select_resource, previous, next, active_source, page_number, matching,
}

abbrev pub View : Type 0
View = List (Element Message)

pub record Inputs : Type 0 where
  pub sources : Query (List Source)
  pub resources : Query ResourcePage
  pub lower : String → String
  pub has : String → String → Bool
  pub local : String → String

items_of : Option ResourcePage → List Resource
items_of none = []
items_of (some p) = p.items

next_of : Option ResourcePage → Option String
next_of none = none
next_of (some p) = p.next_cursor

pub shown_resources : Inputs → Inventory → List Resource
unfolding items_of
shown_resources i s = matching i.lower i.has s (items_of i.resources.result)

-- `fmtTs`
fmt_ts : (String → String) → Option String → String
fmt_ts local none = "—"
fmt_ts local (some iso) = if truthy iso then local iso else "—"

source_button : Source → View
source_button s = button s.display_name true (select_source s.monitoring_source_id) ∷ []

resource_row : Inputs → String → Resource → View
unfolding fmt_ts
resource_row i source r =
    row (select_resource source r.monitoring_resource_id)
    ∷ text (r.display_name or_else r.monitoring_resource_id)
    ∷ text (r.resource_kind or_else "—")
    ∷ badge (health_variant r) (health_label r)
    ∷ text (fmt_ts i.local r.last_observed_at)
    ∷ []

header_view : Inputs → Inventory → View
unfolding source_button
header_view i s =
    let resources = shown_resources i s in
    text "Resource Inventory"
      ∷ text (show (length resources) <> " dispositivos · página " <> show (page_number s))
      ∷ text (show (count success resources) <> " healthy")
      ∷ text (show (count warning resources) <> " degraded")
      ∷ text (show (count danger resources) <> " unhealthy")
      ∷ when i.resources.is_fetching (spinner ∷ [])
    ++ (if i.sources.is_loading
        then spinner ∷ []
        else each source_button (i.sources.result or_else []))
    ++ input "Filter by name or kind…" s.search set_search ∷ []

pager_view : Inputs → Inventory → View
unfolding next_of
pager_view i s =
    button "← Anterior" (not (eqb (length s.cursor_stack) 0) && not i.resources.is_fetching)
      previous
    ∷ text ("Página " <> show (page_number s))
    ∷ button "Próxima →" (truthy? (next_of i.resources.result) && not i.resources.is_fetching)
        (next (next_of i.resources.result))
    ∷ []

table_view : Inputs → Inventory → String → List Resource → View
unfolding resource_row pager_view
table_view i s source [] =
    text (if truthy s.search then "No resources match your filter." else "No resources found.") ∷ []
table_view i s source (r ∷ rs) =
    text "Name"
      ∷ text "Kind"
      ∷ text "Health"
      ∷ text "Last seen"
      ∷ each (resource_row i source) (r ∷ rs)
    ++ pager_view i s

source_view : Inputs → Inventory → String → View
unfolding table_view
source_view i s source =
    if not (truthy source)
    then text "No monitoring sources configured." ∷ []
    else if i.resources.is_loading
    then spinner ∷ []
    else if i.resources.is_error
    then text "Failed to load inventory." ∷ []
    else table_view i s source (shown_resources i s)

pub inventory_view : Inputs → Inventory → View
unfolding header_view source_view
inventory_view i s =
    if is_some s.selected_resource
    then embed "DeviceDetail" ∷ []
    else header_view i s
      ++ source_view i s (active_source s (i.sources.result or_else []) or_else "")

-- A click on the pager is for a page that the state or the last answer knows, and comes while no
-- answer is awaited.
abbrev pub Known : Inputs → Inventory → Message → Type 0
Known i s previous = (eqb (length s.cursor_stack) 0 ≡ false) × (i.resources.is_fetching ≡ false)
Known i s (next c) =
    (truthy? c ≡ true)
    × (i.resources.is_fetching ≡ false)
    × (p : ResourcePage) × (i.resources.result ≡ some p)
    × (p.next_cursor ≡ c)
Known i s _ = Unit

left : (b c : Bool) → (b && not c) ≡ true → b ≡ true
left b c h = ground arith

right : (b c : Bool) → (b && not c) ≡ true → c ≡ false
right b c h = ground arith

module _ (i : Inputs) (s : Inventory) where
  pager_view-Known : OffersOnly (Known i s) (pager_view i s)
  unfolding pager_view next_of
  pager_view-Known =
      after_button (λ h. (shown (eqb (length s.cursor_stack) 0) (left _ _ h), right _ _ h))
        (after_text (
          after_button
            (λ h.
              let k = from i.resources.result (left _ _ h) in
              (left _ _ h, right _ i.resources.is_fetching h, k.0, k.1, k.2))
            nil))
    where
      shown : (b : Bool) → not b ≡ true → b ≡ false
      shown b h = ground arith

      from :
          (o : Option ResourcePage)
          → truthy? (next_of o) ≡ true
          → (p : ResourcePage) × (o ≡ some p) × (p.next_cursor ≡ next_of o)
      from none h = absurd cc
      from (some p) h = (p, refl, refl)

  table_view-Known :
      (source : String) (rs : List Resource) → OffersOnly (Known i s) (table_view i s source rs)
  unfolding table_view resource_row
  table_view-Known source [] = after_text nil
  table_view-Known source (r ∷ rs) =
      append
        (after_text (
          after_text (
            after_text (
              after_text (
                for_each (r ∷ rs)
                  (λ q. after_row tt (after_text (after_text (after_badge (after_text nil))))))))))
        pager_view-Known

  source_view-Known : (source : String) → OffersOnly (Known i s) (source_view i s source)
  unfolding source_view
  source_view-Known source =
      by_test (not (truthy source)) (λ _. after_text nil)
        (λ _.
          by_test i.resources.is_loading (λ _. after_spinner nil)
            (λ _.
              by_test i.resources.is_error (λ _. after_text nil)
                (λ _. table_view-Known source (shown_resources i s))))

  header_view-Known : OffersOnly (Known i s) (header_view i s)
  unfolding header_view source_button
  header_view-Known =
      append
        (append
          (after_text
            (after_text (after_text (after_text (after_text (under (λ _. after_spinner nil)))))))
          (by_test i.sources.is_loading (λ _. after_spinner nil)
            (λ _. for_each (i.sources.result or_else []) (λ q. after_button (λ _. tt) nil))))
        (after_input nil)

-- Whatever the state of the page and of its requests, the pager goes back only from a page that is
-- not the first, and on only to the cursor of the answer shown, and neither while an answer is
-- awaited.
pub inventory_view-Known :
    (i : Inputs) (s : Inventory) → All (Known i s) (offers (inventory_view i s))
unfolding inventory_view
inventory_view-Known i s =
    (by_test (is_some s.selected_resource) (λ _. after_embed nil)
      (λ _. append (header_view-Known i s) (source_view-Known i s _))).only
