-- ===== src/Maintenance/View.antt =====
-- What the page of maintenance windows shows, and to whom.
use ready_jlmirror.Common.{
  ℕ, String, Bool, true, not, List, [], ◌∷◌, ◌++◌, Option, none, some, ◌≡◌, ◌&&◌, ◌<>◌, ◌or_else◌,
  All, if◌then◌else◌, ltb, eqb, length, truthy, truthy?, join, arith,
}
use ready_jlmirror.Ui.{
  Query, Mutation, Element, text, badge, spinner, button, input, when, each, offers,
}
use ready_jlmirror.Ui.Offers.{
  OffersOnly, nil, append, after_text, after_badge, after_spinner, after_button, after_input, under,
  for_each,
}
use ready_jlmirror.Maintenance.{
  MaintenanceWindow, Clock, status_variant, Maintenance, Message, new_window, set_label,
  set_source_ids, set_starts_at, set_ends_at, submit, hide_form, cancel_window, active_windows,
  upcoming_windows,
}

abbrev pub View : Type 0
View = List (Element Message)

pub record Inputs : Type 0 where
  pub query : Query (List MaintenanceWindow)
  pub creation : Mutation {0} Unit
  pub cancellation : Mutation String
  pub can_operate : Bool
  pub clock : Clock
  pub now : ℕ

sources_text : Option (List String) → String
sources_text none = "All sources"
sources_text (some ids) = "Sources: " <> join ids

-- `WindowCard`
window_card : Inputs → MaintenanceWindow → View
unfolding sources_text
window_card i w =
    text w.label
    ∷ badge (status_variant w) (if w.active then "active" else "upcoming")
    ∷ text (i.clock.local w.starts_at <> " → " <> i.clock.local w.ends_at)
    ∷ text (sources_text w.source_ids)
    ∷ text ("Created by " <> w.created_by <> " · " <> i.clock.local w.created_at)
    ∷ when i.can_operate (
        button
          (if i.cancellation.is_pending
            then ""
            else if w.active
            then "Encerrar agora"
            else "Cancelar janela")
          (not i.cancellation.is_pending) (cancel_window w.window_id)
        ∷ [])

form_view : Inputs → Maintenance → View
form_view i s =
    text "New Maintenance Window"
      ∷ input "Label *" s.label set_label
      ∷ input "Source IDs (comma-separated, blank = all sources)" s.source_ids_raw set_source_ids
      ∷ input "Starts at *" s.starts_at set_starts_at
      ∷ input "Ends at *" s.ends_at set_ends_at
      ∷ when (truthy? s.form_err) (text (s.form_err or_else "") ∷ [])
    ++ button (if i.creation.is_pending then "Creating…" else "Create")
        (not i.creation.is_pending && truthy s.label) submit
      ∷ button "Cancel" true hide_form
      ∷ []

section_view : Inputs → String → List MaintenanceWindow → View
unfolding window_card
section_view i title windows =
    when (ltb 0 (length windows)) (text title ∷ each (window_card i) windows)

pub maintenance_view : Inputs → Maintenance → View
unfolding form_view section_view
maintenance_view i s =
    let windows = i.query.result or_else [] in
    text "Maintenance Windows"
      ∷ when (i.can_operate && not s.show_form) (button "+ New Window" true (new_window i.now) ∷ [])
    ++ when (i.can_operate && s.show_form) (form_view i s)
    ++ when i.query.is_loading (spinner ∷ [])
    ++ when i.query.is_error (text "Failed to load maintenance windows." ∷ [])
    ++ section_view i "Active" (active_windows windows)
    ++ section_view i "Upcoming" (upcoming_windows windows)
    ++ when (not i.query.is_loading && eqb (length windows) 0)
        (text "No maintenance windows. Active and upcoming windows appear here." ∷ [])

module _ (i : Inputs) (s : Maintenance) where
  abbrev Operates : Message → Type 0
  Operates m = i.can_operate ≡ true

  section_view-Operates :
      (title : String) (ws : List MaintenanceWindow) → OffersOnly Operates (section_view i title ws)
  unfolding section_view window_card
  section_view-Operates title ws = under (λ _. after_text (
      for_each ws (λ w. after_text (
        after_badge
          (after_text (after_text (after_text (under (λ can. after_button (λ _. can) nil)))))))))

  form_view-Operates : i.can_operate ≡ true → OffersOnly Operates (form_view i s)
  unfolding form_view
  form_view-Operates can =
      append
        (after_text
          (after_input (after_input (after_input (after_input (under (λ _. after_text nil)))))))
        (after_button (λ _. can) (after_button (λ _. can) nil))

-- Whatever the state of the page and of its requests, no control of the page is enabled for a user
-- who may not operate.
pub maintenance_view-operators :
    (i : Inputs) (s : Maintenance) → All (λ m. i.can_operate ≡ true) (offers (maintenance_view i s))
unfolding maintenance_view
maintenance_view-operators i s =
    (append
      (append
        (append
          (append
            (append
              (append (after_text (under (λ h. after_button (λ _. left _ _ h) nil)))
                (under (λ h. form_view-Operates i s (left _ _ h))))
              (under (λ _. after_spinner nil)))
            (under (λ _. after_text nil)))
          (section_view-Operates i s "Active" _))
        (section_view-Operates i s "Upcoming" _))
      (under (λ _. after_text nil))).only
  where
    left : (b c : Bool) → (b && c) ≡ true → b ≡ true
    left b c h = ground arith
