-- ===== src/Alerts/Tests.antt =====
-- The page of alerts on concrete alerts.
use ready_jlmirror.Common.{
  ◌<◌, String, true, false, List, [], ◌∷◌, none, some, ◌≡◌, refl, arith, All, length, ◌==◌,
}
use ready_jlmirror.Ui.{offers, text}
use ready_jlmirror.Alerts.{
  Alert, Alerts, start, next, back, show_highlight, update, total_pages, filtered_alerts,
}
use ready_jlmirror.Alerts.View.{Inputs, alerts_view, table_view, pager_view}
use ready_jlmirror.Alerts.View.Controls.{MaySnooze, alerts_view-MaySnooze}
use ready_jlmirror.Alerts.View.Stale.{stale_page}
use ready_jlmirror.Alerts.Pages.{pages, pages_total, page-lt-total}
use ready_jlmirror.Alerts.Highlight.{run, auto_open_once}

abbrev disk_full : Alert
disk_full = record {
  alert_id = "al-1";
  lifecycle_state = "active";
  source_kind = "problem";
  monitoring_source_id = "src-1";
  monitoring_resource_id = "host-7";
  evidence = none;
  opened_at = "2026-01-05T10:00:00Z";
  resolved_at = none;
  snoozed_until = none;
}

abbrev inputs : Inputs
inputs = record {
  query = record {
    result = some (disk_full ∷ []);
    is_loading = false;
    is_error = false;
    is_fetching = false;
  };
  snooze = record { is_pending = false; variables = none };
  unsnooze = record { is_pending = false; variables = none };
  can_operate = true;
  is_open = λ id. id == "al-1";
  local = λ iso. iso;
  time = λ iso. none;
  now = 0;
  upper = λ t. t;
}

abbrev second_page : Alerts
second_page = record (start none) { page = 1 }

alerts_view-MaySnooze_example :
    All (MaySnooze true (disk_full ∷ [])) (offers (alerts_view inputs (start none)))
alerts_view-MaySnooze_example = alerts_view-MaySnooze inputs (start none)

stale_page_example :
    (table_view inputs second_page (disk_full ∷ []) ≡ text "No alerts." ∷ [])
    × (pager_view second_page 1 ≡ [])
unfolding filtered_alerts
stale_page_example =
    stale_page inputs second_page refl refl (omega arith) (omega arith) (omega arith)

abbrev ids : List String
ids = "al-1" ∷ "al-2" ∷ "al-3" ∷ []

pages_total_example : pages (total_pages (length ids)) ids ≡ ids
pages_total_example = pages_total ids

two_pages : total_pages 60 ≡ 2
unfolding total_pages
two_pages = refl

page-lt-total_example : (update "t1" (next (total_pages 60)) (start none)).0.page < total_pages 60
page-lt-total_example =
    page-lt-total "t1" (next (total_pages 60)) (start none) 60 (rw two_pages (omega arith)) refl

auto_open_once_example :
    let s' = (update "t1" (show_highlight (some "al-1") false) (start none)).0 in
    (s'.selected_id ≡ some "al-1")
    × ((update "t1" (show_highlight (some "al-1") false) (run "t1" s' (back ∷ []))).0
        ≡ run "t1" s' (back ∷ []))
auto_open_once_example =
    auto_open_once "t1" "al-1" (start none) (back ∷ []) false refl (λ e. cc) (tt, tt)
