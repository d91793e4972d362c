-- ===== src/Alerts/View.antt =====
-- What the page of alerts shows.
pub mod Controls
pub mod Stale
use ready_jlmirror.Common.{
  ℕ, suc, ◌+◌, ◌-◌, String, Bool, true, false, not, List, [], ◌∷◌, ◌++◌, Option, none, some, ◌==◌,
  ◌&&◌, ◌||◌, ◌<>◌, ◌or_else◌, if◌then◌else◌, leb, ltb, eqb, length, show, truthy?, is_some,
}
use ready_jlmirror.Ui.{
  Query, Mutation, Element, text, badge, spinner, button, row, embed, when, each, warning,
}
use ready_jlmirror.Alerts.{
  Alert, severity_of, severity_filters, snooze_options, page_size, sev_variant, lc_variant,
  alert_title, fmt_ts, fmt_snooze_expiry, Filter, active, all, Control, open_menu, close_menu,
  cancel, choose, Alerts, Message, set_filter, set_severity, previous, next, select, control,
  filtered_alerts, total_pages, page_of,
}

abbrev View : Type 0
View = List (Element Message)

-- What the page reads besides its own state: the query, the two mutations, the permission, the
-- menus that are open, the highlight, and the dates as the browser writes them.
pub record Inputs : Type 0 where
  pub query : Query (List Alert)
  pub snooze : Mutation (String × ℕ)
  pub unsnooze : Mutation String
  pub can_operate : Bool
  pub is_open : String → Bool
  pub local : String → String
  pub time : String → Option ℕ
  pub now : ℕ
  -- `severity_class.toUpperCase()`
  pub upper : String → String

abbrev is_for : Option String → String → Bool
is_for none id = false
is_for (some v) id = v == id

abbrev first : Option (String × ℕ) → Option String
first none = none
first (some v) = some v.0

-- Whether a call for this alert is pending.
pub busy : Inputs → Alert → Bool
busy i a =
    (i.snooze.is_pending && is_for (first i.snooze.variables) a.alert_id)
    || (i.unsnooze.is_pending && is_for i.unsnooze.variables a.alert_id)

snooze_option : Alert → Bool → String × ℕ → View
snooze_option a is_busy o = button o.0 (not is_busy) (control a.alert_id (choose o.1)) ∷ []

open_control : Alert → Bool → View
unfolding snooze_option
open_control a is_busy =
    each (snooze_option a is_busy) snooze_options
    ++ button "✕" true (control a.alert_id close_menu) ∷ []

snoozed_control : Inputs → Alert → Bool → View
snoozed_control i a is_busy =
    badge warning ("snoozed " <> fmt_snooze_expiry i.time i.now (a.snoozed_until or_else ""))
    ∷ button "cancel" (not is_busy) (control a.alert_id cancel)
    ∷ []

-- `SnoozeControl`
snooze_control : Inputs → Alert → Bool → View
unfolding open_control snoozed_control
snooze_control i a is_busy =
    if truthy? a.snoozed_until
    then snoozed_control i a is_busy
    else if i.is_open a.alert_id
    then open_control a is_busy
    else button "Snooze" (not is_busy) (control a.alert_id open_menu) ∷ []

alert_row : Inputs → Alert → View
unfolding snooze_control
alert_row i a =
    row (select a.alert_id)
    ∷ badge (sev_variant (severity_of a)) (i.upper (severity_of a or_else "unknown"))
    ∷ text (alert_title a)
    ∷ badge (lc_variant a.lifecycle_state) a.lifecycle_state
    ∷ text a.monitoring_source_id
    ∷ text (fmt_ts i.local (some a.opened_at))
    ∷ when (i.can_operate && (a.lifecycle_state == "active")) (snooze_control i a (busy i a))

filter_button : Filter → View
filter_button active = button "Active" true (set_filter active) ∷ []
filter_button all = button "All" true (set_filter all) ∷ []

severity_button : String × String → View
severity_button f = button f.0 true (set_severity f.1) ∷ []

header_view : Alerts → List Alert → View
unfolding filter_button severity_button
header_view s alerts =
    text "Alerts" ∷ each filter_button (active ∷ all ∷ [])
    ++ each severity_button severity_filters
    ++ when (ltb 0 (length alerts)) (
        text (
          show (length (filtered_alerts s alerts))
          <> " de "
          <> show (length alerts)
          <> " alert"
          <> (if eqb (length alerts) 1 then "" else "s"))
        ∷ [])

abbrev pub no_match : String
no_match = "Nenhum alerta com a severidade selecionada."

table_head : View
table_head =
    text "Severity"
    ∷ text "Event / Resource"
    ∷ text "State"
    ∷ text "Source"
    ∷ text "Opened"
    ∷ text "Actions"
    ∷ []

rows_view : Inputs → List Alert → List Alert → List Alert → View
unfolding alert_row table_head
rows_view i alerts filtered [] =
    text (if eqb (length filtered) 0 && ltb 0 (length alerts) then no_match else "No alerts.") ∷ []
rows_view i alerts filtered (a ∷ as') = table_head ++ each (alert_row i) (a ∷ as')

pub table_view : Inputs → Alerts → List Alert → View
unfolding rows_view
table_view i s alerts =
    let filtered = filtered_alerts s alerts in
    if i.query.is_loading
    then spinner ∷ []
    else if i.query.is_error
    then text "Failed to load alerts." ∷ []
    else rows_view i alerts filtered (page_of s.page filtered)

pub pager_view : Alerts → ℕ → View
pager_view s n =
    let total = total_pages n in
    when (ltb page_size n) (
      text ("Página " <> show (s.page + 1) <> " de " <> show total <> " · " <> show n <> " alertas")
      ∷ button "← Anterior" (not (eqb s.page 0)) previous
      ∷ button "Próxima →" (not (leb (total - 1) s.page)) (next total)
      ∷ [])

list_view : Inputs → Alerts → List Alert → View
unfolding header_view table_view pager_view
list_view i s alerts =
    header_view s alerts
    ++ table_view i s alerts
    ++ pager_view s (length (filtered_alerts s alerts))
    ++ when (i.query.is_fetching && not i.query.is_loading) (spinner ∷ text "Refreshing…" ∷ [])

-- What the component returns.
pub alerts_view : Inputs → Alerts → View
unfolding list_view
alerts_view i s =
    if truthy? s.selected_id
    then embed "AlertDetail" ∷ []
    else list_view i s (i.query.result or_else [])
