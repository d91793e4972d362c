-- ===== src/Inventory/Tests.antt =====
-- The inventory on concrete resources.
use ready_jlmirror.Common.{String, true, false, List, [], ◌∷◌, none, some, ◌≡◌, refl, All}
use ready_jlmirror.Ui.{offers, danger}
use ready_jlmirror.Inventory.{
  Resource, Inventory, Message, start, next, previous, set_search, count, page_number, update,
}
use ready_jlmirror.Inventory.Cursors.{
  forth, back_pages, run, back_pages-forth, page_number-run, count_danger,
}
use ready_jlmirror.Inventory.View.{Inputs, inventory_view, Known, inventory_view-Known}

abbrev cursors : List String
cursors = "c50" ∷ "c100" ∷ []

back_pages-forth_example : back_pages cursors (forth cursors start) ≡ start
back_pages-forth_example = back_pages-forth cursors start (refl, (refl, tt))

abbrev clicks : List Message
clicks = next (some "c50") ∷ set_search "db" ∷ previous ∷ []

numbered_one : page_number (run clicks start) ≡ 1
unfolding page_number run update
numbered_one = refl

page_number-run_example : (run clicks start).cursor ≡ none
page_number-run_example = page_number-run clicks numbered_one

abbrev host : Resource
host = record {
  monitoring_resource_id = "host-7";
  display_name = some "db-7";
  resource_kind = some "host";
  scope_evidence_state = some "stale";
  presence_evidence_state = some "current";
  presence_state = some "present";
  last_observed_at = none;
}

count_danger_example : count danger (host ∷ []) ≡ 0
count_danger_example = count_danger (host ∷ [])

abbrev inputs : Inputs
inputs = record {
  sources = record { result = none; is_loading = false; is_error = false; is_fetching = false };
  resources = record {
    result = some (record { items = host ∷ []; generation_state = none; next_cursor = some "c50" });
    is_loading = false;
    is_error = false;
    is_fetching = false;
  };
  lower = λ t. t;
  has = λ t u. true;
  local = λ t. t;
}

abbrev listed : Inventory
listed = record start { selected_source = some "src-1" }

inventory_view-Known_example : All (Known inputs listed) (offers (inventory_view inputs listed))
inventory_view-Known_example = inventory_view-Known inputs listed
