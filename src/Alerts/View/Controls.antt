-- ===== src/Alerts/View/Controls.antt =====
-- Who can snooze, and which alerts.
use ready_jlmirror.Common.{
  ℕ, ◌+◌, ◌*◌, String, Bool, true, List, [], ◌∷◌, ◌≡◌, ◌==◌, eq_refl, ◌&&◌, ◌||◌, arith, All,
  All-mono, All-take, All-drop, All-filter, any, Bool-cases, inl, inr, ◌or_else◌, truthy?, slice,
}
use ready_jlmirror.Ui.{Element, offers}
use ready_jlmirror.Ui.Offers.{
  OffersOnly, nil, append, after_text, after_badge, after_spinner, after_button, after_row,
  after_embed, under, for_each, for-All,
}
use ready_jlmirror.Alerts.{
  Alert, Alerts, Message, control, Filter, active, all, filtered_alerts, has_severity, page_of,
  page_size, severity_filters, snooze_options,
}
use ready_jlmirror.Alerts.View.{
  Inputs, busy, snooze_option, open_control, snoozed_control, snooze_control, alert_row,
  filter_button, severity_button, header_view, table_head, rows_view, table_view, pager_view,
  list_view, alerts_view,
}

-- An active alert with this identity is in the list.
pub is_listed : List Alert → String → Bool
is_listed alerts id = any (λ b. (b.alert_id == id) && (b.lifecycle_state == "active")) alerts

-- A message to a snooze control is for a user who may operate and an active alert of the list.
abbrev pub MaySnooze : Bool → List Alert → Message → Type 0
MaySnooze can alerts (control id c) = (can ≡ true) × (is_listed alerts id ≡ true)
MaySnooze can alerts _ = Unit

abbrev Listed : List Alert → Alert → Type 0
Listed alerts a = (a.lifecycle_state == "active") ≡ true → is_listed alerts a.alert_id ≡ true

All-Listed : (alerts : List Alert) → All (Listed alerts) alerts
unfolding is_listed
All-Listed [] = tt
All-Listed (a ∷ alerts) = (
  (λ e. rw (eq_refl a.alert_id, e)),
  All-mono alerts (λ b h e. rw (h e) (or_true _)) (All-Listed alerts),
)
  where
    or_true : (b : Bool) → (b || true) ≡ true
    or_true b = ground arith

module _ (i : Inputs) (alerts : List Alert) where
  abbrev Good : List (Element Message) → Type 0
  Good = OffersOnly (MaySnooze i.can_operate alerts)

  module _ (a : Alert) (can : i.can_operate ≡ true)
      (listed : is_listed alerts a.alert_id ≡ true) where
    snooze_control-Good : (is_busy : Bool) → Good (snooze_control i a is_busy)
    unfolding snooze_control open_control snoozed_control snooze_option
    snooze_control-Good is_busy = elim (Bool-cases (truthy? a.snoozed_until)) [
      | inl e ↦ rw e (after_badge (after_button (λ _. (can, listed)) nil))
      | inr e ↦ rw e (elim (Bool-cases (i.is_open a.alert_id)) [
        | inl o ↦ rw o (
            append (for_each snooze_options (λ _. after_button (λ _. (can, listed)) nil))
              (after_button (λ _. (can, listed)) nil))
        | inr o ↦ rw o (after_button (λ _. (can, listed)) nil)
      ])
    ]

  alert_row-Good : (a : Alert) → Listed alerts a → Good (alert_row i a)
  unfolding alert_row
  alert_row-Good a listed = after_row tt (
      after_badge (
        after_text (
          after_badge (
            after_text (
              after_text (
                under
                  (λ e. snooze_control-Good a (left _ _ e) (listed (right _ _ e)) (busy i a))))))))
    where
      left : (b c : Bool) → (b && c) ≡ true → b ≡ true
      left b c h = ground arith

      right : (b c : Bool) → (b && c) ≡ true → c ≡ true
      right b c h = ground arith

  rows_view-Good :
      (fs rows : List Alert) → All (Listed alerts) rows → Good (rows_view i alerts fs rows)
  unfolding rows_view table_head
  rows_view-Good fs [] h = after_text nil
  rows_view-Good fs (a ∷ rows) h =
      append (after_text (after_text (after_text (after_text (after_text (after_text nil))))))
        (for-All (a ∷ rows) h alert_row-Good)

  shown-Listed : (s : Alerts) → All (Listed alerts) (page_of s.page (filtered_alerts s alerts))
  unfolding page_of filtered_alerts
  shown-Listed s = elim (Bool-cases (s.severity_filter == "all")) [
    | inl e ↦ rw e (cut alerts (All-Listed alerts))
    | inr e ↦ rw e (
        cut _
          (All-filter (Listed alerts) (has_severity s.severity_filter) alerts (All-Listed alerts)))
  ]
    where
      cut :
          (xs : List Alert)
          → All (Listed alerts) xs
          → All (Listed alerts) (slice (s.page * page_size) ((s.page + 1) * page_size) xs)
      cut xs h = All-take (Listed alerts) _ _ (All-drop (Listed alerts) (s.page * page_size) xs h)

  table_view-Good : (s : Alerts) → Good (table_view i s alerts)
  unfolding table_view busy
  table_view-Good s = elim (Bool-cases i.query.is_loading) [
    | inl e ↦ rw e (after_spinner nil)
    | inr e ↦ rw e (elim (Bool-cases i.query.is_error) [
      | inl f ↦ rw f (after_text nil)
      | inr f ↦ rw f (rows_view-Good _ _ (shown-Listed s))
    ])
  ]

  filter_button-Good : (f : Filter) → Good (filter_button f)
  unfolding filter_button
  filter_button-Good active = after_button (λ _. tt) nil
  filter_button-Good all = after_button (λ _. tt) nil

  severity_button-Good : (f : String × String) → Good (severity_button f)
  unfolding severity_button
  severity_button-Good f = after_button (λ _. tt) nil

  header_view-Good : (s : Alerts) → Good (header_view s alerts)
  unfolding header_view
  header_view-Good s =
      append
        (append (after_text (for_each (active ∷ all ∷ []) filter_button-Good))
          (for_each severity_filters severity_button-Good))
        (under (λ _. after_text nil))

  pager_view-Good : (s : Alerts) (n : ℕ) → Good (pager_view s n)
  unfolding pager_view
  pager_view-Good s n =
      under (λ _. after_text (after_button (λ _. tt) (after_button (λ _. tt) nil)))

  list_view-Good : (s : Alerts) → Good (list_view i s alerts)
  unfolding list_view
  list_view-Good s =
      append (append (append (header_view-Good s) (table_view-Good s)) (pager_view-Good s _))
        (under (λ _. after_spinner (after_text nil)))

-- Whatever the state of the page and of its requests, a control that opens a snooze menu, snoozes
-- an alert or cancels a snooze is enabled only for a user who may operate, and only on an alert
-- of the query's result that is active.
pub alerts_view-MaySnooze :
    (i : Inputs) (s : Alerts)
    → All (MaySnooze i.can_operate (i.query.result or_else [])) (offers (alerts_view i s))
unfolding alerts_view
alerts_view-MaySnooze i s = elim (Bool-cases (truthy? s.selected_id)) [
  | inl e ↦ rw e (after_embed {P = MaySnooze i.can_operate (i.query.result or_else [])} nil).only
  | inr e ↦ rw e (list_view-Good i (i.query.result or_else []) s).only
]
