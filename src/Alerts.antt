-- ===== src/Alerts.antt =====
-- frontend/src/pages/AlertsPage.tsx: the list of alerts with its filters and pages, the snoozing of
-- an alert, and the opening of the alert that the address highlights. The texts of dates are made
-- by the browser: `local` writes one in the local format, and `time` is its time in
-- milliseconds, absent for an invalid date.
pub mod View
pub mod Pages
pub mod Highlight
mod Tests
use ready_jlmirror.Common.{
  ℕ, ◌+◌, ◌-◌, ◌*◌, ◌/◌, max, min, suc, String, Bool, true, false, not, List, [], ◌∷◌, Option, none,
  some, ◌==◌, ◌&&◌, ◌||◌, ◌<>◌, ◌or_else◌, if◌then◌else◌, leb, ltb, length, filter, slice, show,
  truthy, truthy?, join,
}
use ready_jlmirror.Ui.{
  Effect, request, get, post, invalidate, store, Value, num, nat, Variant, danger, warning, info,
  muted, success,
}

pub record Evidence : Type 0 where
  pub severity_class : Option String
  pub problem_id : Option String
  pub health_classes : Option (List String)

-- `RawAlert`
pub record Alert : Type 0 where
  pub alert_id : String
  pub lifecycle_state : String
  pub source_kind : String
  pub monitoring_source_id : String
  pub monitoring_resource_id : String
  pub evidence : Option Evidence
  pub opened_at : String
  pub resolved_at : Option String
  pub snoozed_until : Option String

abbrev pub snooze_options : List (String × ℕ)
snooze_options =
    ("30 min", 30) ∷ ("1 hour", 60) ∷ ("4 hours", 240) ∷ ("8 hours", 480) ∷ ("24 hours", 1440) ∷ []

abbrev pub severity_filters : List (String × String)
severity_filters =
    ("Todas", "all")
    ∷ ("Critical", "critical")
    ∷ ("High", "degraded")
    ∷ ("Medium", "warning")
    ∷ ("Low", "informational")
    ∷ ("Info", "info")
    ∷ []

abbrev pub page_size : ℕ
page_size = 50

abbrev pub severity_of : Alert → Option String
severity_of a = class_of a.evidence
  where
    class_of : Option Evidence → Option String
    class_of none = none
    class_of (some e) = e.severity_class

pub sev_variant : Option String → Variant
sev_variant none = muted
sev_variant (some c) =
    if c == "critical"
    then danger
    else if (c == "degraded") || (c == "warning")
    then warning
    else if c == "informational"
    then info
    else muted

pub lc_variant : String → Variant
lc_variant s = if s == "active" then warning else if s == "resolved" then success else muted

abbrev joined : Option (List String) → String
joined none = ""
joined (some cs) = join cs

resource_or_kind : Alert → String
resource_or_kind a =
    if truthy a.monitoring_resource_id then a.monitoring_resource_id else a.source_kind

has_classes : Option (List String) → Bool
has_classes none = false
has_classes (some cs) = ltb 0 (length cs)

pub alert_title : Alert → String
unfolding join resource_or_kind has_classes
alert_title a = elim a.evidence [
  | none ↦ resource_or_kind a
  | some e ↦
      if truthy? e.problem_id
      then e.problem_id or_else ""
      else if has_classes e.health_classes
      then joined e.health_classes
      else resource_or_kind a
]

pub fmt_ts : (String → String) → Option String → String
fmt_ts local none = ""
fmt_ts local (some iso) = if truthy iso then local iso else ""

-- `Math.round((t - now) / 60_000)` where t is not before now, and its absolute value where it is.
minutes_ahead : ℕ → ℕ → ℕ
minutes_ahead now t = (t - now + 30000) / 60000

minutes_behind : ℕ → ℕ → ℕ
minutes_behind now t = (now - t + 29999) / 60000

expiry_text : ℕ → String
expiry_text minutes =
    let hours = (minutes + 30) / 60 in
    if ltb minutes 60
    then show minutes <> "m"
    else if ltb hours 24
    then show hours <> "h"
    else show ((hours + 12) / 24) <> "d"

past_text : ℕ → String
past_text minutes = if ltb 0 minutes then "-" <> show minutes <> "m" else "0m"

pub fmt_snooze_expiry : (String → Option ℕ) → ℕ → String → String
unfolding expiry_text past_text minutes_ahead minutes_behind
fmt_snooze_expiry time now iso = elim (time iso) [
  | none ↦ "NaNd"
  | some t ↦
      if leb now t then expiry_text (minutes_ahead now t) else past_text (minutes_behind now t)
]

pub data Filter : Type 0 where
  active all : Filter

-- `loadAlertFilter`, from what is stored.
pub load_alert_filter : Option String → Filter
load_alert_filter none = active
load_alert_filter (some v) = if v == "all" then all else active

abbrev filter_text : Filter → String
filter_text active = "active"
filter_text all = "all"

-- The messages of one `SnoozeControl`.
pub data Control : Type 0 where
  open_menu close_menu cancel : Control
  choose : ℕ → Control

-- Its state is whether the menu is open.
pub control_step : Control → Bool → Bool
control_step open_menu s = true
control_step close_menu s = false
control_step cancel s = s
control_step (choose minutes) s = false

-- The `useState` values of the page.
pub record Alerts : Type 0 where
  pub filter : Filter
  pub severity_filter : String
  pub page : ℕ
  pub selected_id : Option String
  pub auto_opened_for : Option String

abbrev pub start : Option String → Alerts
start stored = record {
  filter = load_alert_filter stored;
  severity_filter = "all";
  page = 0;
  selected_id = none;
  auto_opened_for = none;
}

pub data Message : Type 0 where
  set_filter : Filter → Message
  set_severity : String → Message
  previous : Message
  -- with the number of pages when the page was drawn
  next : ℕ → Message
  select : String → Message
  back : Message
  control : String → Control → Message
  -- a snooze or its cancelling succeeded
  settled : Message
  -- the effect runs, for a highlight and whether the list is loading
  show_highlight : Option String → Bool → Message

same_text : Option String → String → Bool
same_text none h = false
same_text (some o) h = o == h

-- The effect that opens the highlighted alert.
auto_open : Option String → Bool → Alerts → Alerts
unfolding same_text
auto_open none loading s = s
auto_open (some h) loading s =
    if not (truthy h) || same_text s.auto_opened_for h || loading
    then s
    else record s { auto_opened_for = some h; selected_id = some h }

snooze_effects : String → Control → List Effect
snooze_effects id (choose minutes) =
    request post ("/api/v1/alerting/alerts/" <> id <> "/snooze")
      (some (("duration_minutes", num (nat minutes)) ∷ []))
    ∷ []
snooze_effects id cancel =
    request post ("/api/v1/alerting/alerts/" <> id <> "/unsnooze") (some []) ∷ []
snooze_effects id _ = []

pub update : String → Message → Alerts → Alerts × List Effect
unfolding auto_open snooze_effects
update tenant (set_filter f) s =
    (record s { filter = f; page = 0 }, store ("jlm_alerts_filter_" <> tenant) (filter_text f) ∷ [])
update tenant (set_severity v) s = (record s { severity_filter = v; page = 0 }, [])
update tenant previous s = (record s { page = max 0 (s.page - 1) }, [])
update tenant (next total) s = (record s { page = min (total - 1) (s.page + 1) }, [])
update tenant (select id) s = (record s { selected_id = some id }, [])
update tenant back s = (record s { selected_id = none }, [])
update tenant (control id c) s = (s, snooze_effects id c)
update tenant settled s = (s, invalidate ("alerts" ∷ []) ∷ [])
update tenant (show_highlight h loading) s = (auto_open h loading s, [])

-- The path of the query.
pub query_path : Filter → String
query_path active = "/api/v1/alerting/alerts?lifecycle_state=active"
query_path all = "/api/v1/alerting/alerts"

has_severity : String → Alert → Bool
has_severity v a = elim (severity_of a) [ none ↦ false | some c ↦ c == v ]

pub filtered_alerts : Alerts → List Alert → List Alert
unfolding has_severity
filtered_alerts s alerts =
    if s.severity_filter == "all" then alerts else filter (has_severity s.severity_filter) alerts

-- `Math.max(1, Math.ceil(n / PAGE_SIZE))`
pub total_pages : ℕ → ℕ
total_pages n = max 1 ((n + (page_size - 1)) / page_size)

pub page_of {ℓ} : {A : Type ℓ} → ℕ → List A → List A
page_of p alerts = slice (p * page_size) ((p + 1) * page_size) alerts
