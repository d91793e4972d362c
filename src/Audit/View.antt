-- ===== src/Audit/View.antt =====
-- What the audit trail shows.
use ready_jlmirror.Common.{
  ◌+◌, String, Bool, false, not, List, [], ◌∷◌, ◌++◌, Option, none, some, ◌==◌, ◌||◌, ◌<>◌, ◌≡◌,
  refl, ◌or_else◌, if◌then◌else◌, truthy?, eqb, ltb, length, show, map, All,
}
use ready_jlmirror.Ui.{
  Query, Element, text, badge, spinner, button, row, input, select, when, each, offers,
}
use ready_jlmirror.Ui.Offers.{
  OffersOnly, nil, append, after_text, after_button, under, by_test, view_rules,
}
use ready_jlmirror.Audit.{
  AuditEvent, actor_variant, page_size, actions_of, subject_types_of, Audit, Message, set_from,
  set_to, set_actor, set_action, set_subject, toggle, previous, next, export,
}

pub record Inputs : Type 0 where
  pub events : Query (List AuditEvent)
  pub local : String → String

abbrev View : Type 0
View = List (Element Message)

-- `hasNext`
unfoldable pub has_next : List AuditEvent → Bool
has_next events = eqb (length events) page_size

is_open : Option String → String → Bool
is_open none id = false
is_open (some shown) id = shown == id

event_row : Inputs → Audit → AuditEvent → View
unfolding is_open
event_row i s e =
    row (toggle e.audit_event_id)
      ∷ text (i.local e.occurred_at)
      ∷ text e.action
      ∷ badge (actor_variant e.actor_kind) e.actor_kind
      ∷ when (truthy? e.actor_id) (text (e.actor_id or_else "") ∷ [])
    ++ text e.subject_type
      ∷ text e.subject_id
      ∷ when (is_open s.expanded e.audit_event_id) (text e.detail_json ∷ [])

option_of : String → String × String
option_of t = (t, t)

filters_view : Audit → List AuditEvent → View
unfolding option_of
filters_view s events =
    input "De" s.date_from set_from
    ∷ input "Até" s.date_to set_to
    ∷ input "Filtrar por ator (ID ou email)" s.actor_filter set_actor
    ∷ select "" s.filter_action (("", "Todos os actions") ∷ map option_of (actions_of events))
        set_action
    ∷ select "" s.filter_subject_type
        (("", "Todos os subjects") ∷ map option_of (subject_types_of events)) set_subject
    ∷ text (show (length events) <> " eventos · página " <> show (s.page + 1))
    ∷ []

pager_view : Inputs → Audit → List AuditEvent → View
pager_view i s events =
    button "← Anterior" (not (eqb s.page 0 || i.events.is_fetching)) previous
    ∷ text ("Página " <> show (s.page + 1))
    ∷ button "Próxima →" (not (not (has_next events) || i.events.is_fetching)) next
    ∷ []

table_view : Inputs → Audit → List AuditEvent → View
unfolding event_row pager_view
table_view i s [] =
    text (if ltb 0 s.page then "Nenhum evento nesta página." else "No audit events found.") ∷ []
table_view i s (e ∷ es) =
    text "Time" ∷ text "Action" ∷ text "Actor" ∷ text "Subject" ∷ each (event_row i s) (e ∷ es)
    ++ pager_view i s (e ∷ es)

unfoldable pub audit_view : Inputs → Audit → View
unfolding filters_view table_view
audit_view i s =
    let events = i.events.result or_else [] in
    text "Audit trail"
      ∷ text "Append-only · tenant-scoped · newest first"
      ∷ when i.events.is_fetching (spinner ∷ [])
    ++ when s.exporting (spinner ∷ [])
    ++ button "Exportar CSV" (not s.exporting) export ∷ filters_view s events
    ++ (if i.events.is_loading
        then spinner ∷ []
        else if i.events.is_error
        then text "Could not load audit events." ∷ []
        else table_view i s events)

-- A message that only the button of the export sends.
abbrev pub IsExport : Message → Type 0
IsExport export = Unit
IsExport _ = ⊥

empty_table :
    (i : Inputs) (s : Audit) (events : List AuditEvent)
    → events ≡ []
    → OffersOnly IsExport (table_view i s events)
unfolding table_view
empty_table i s [] h = after_text nil
empty_table i s (e ∷ es) h = absurd cc

empty_view :
    (i : Inputs) (s : Audit)
    → (i.events.result or_else []) ≡ []
    → OffersOnly IsExport (audit_view i s)
unfolding audit_view filters_view
empty_view i s h = search (view_rules, append, under, by_test, after_button, empty_table) depth 40

-- On a page for which the service answers no event, the only button or row that can be clicked is the
-- export: the pager is not shown. The fields and choices of the filters are no clicks.
pub empty_page :
    (i : Inputs) (s : Audit) → i.events.result ≡ some [] → All IsExport (offers (audit_view i s))
empty_page i s h = (empty_view i s (rw h refl)).only
