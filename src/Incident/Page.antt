-- ===== src/Incident/Page.antt =====
-- IncidentResponsePage.tsx, `EventsTab` and `IncidentResponsePage`.
use ready_jlmirror.Common.{
  String, true, not, List, [], ◌∷◌, ◌++◌, Option, none, some, ◌&&◌, ◌or_else◌, if◌then◌else◌, eqb,
  length,
}
use ready_jlmirror.Ui.{Query, Element, text, badge, spinner, button, row, embed, when, each}
use ready_jlmirror.Incident.{ErrorEvent, sev_variant, status_variant, fmt_ts}

pub data Tab : Type 0 where
  events policy : Tab

-- The `useState` values of the page and of the tab of events, which is mounted anew whenever it is
-- shown again.
pub record Page : Type 0 where
  pub tab : Tab
  pub selected : Option ErrorEvent

pub data Message : Type 0 where
  show_tab : Tab → Message
  select : ErrorEvent → Message
  back : Message

unfoldable pub update : Message → Page → Page
update (show_tab events) p = shown p.tab
  where
    shown : Tab → Page
    shown events = p
    shown policy = record { tab = events; selected = none }
update (show_tab policy) p = record { tab = policy; selected = none }
update (select e) p = record p { selected = some e }
update back p = record p { selected = none }

-- What the query makes of the answer: `events` of the answer if it is an array, else it throws.
pub events_of : Option (Option (List ErrorEvent)) → Option (List ErrorEvent)
events_of none = none
events_of (some field) = field

abbrev View : Type 0
View = List (Element Message)

pub record Inputs : Type 0 where
  pub events_query : Query (List ErrorEvent)
  pub local : String → String

event_row : (String → String) → ErrorEvent → View
event_row local e =
    row (select e)
    ∷ badge (sev_variant e.severity_hint) (e.severity_hint or_else "N/A")
    ∷ text e.application_id
    ∷ text e.error_code
    ∷ text e.error_message
    ∷ badge (status_variant e.status) e.status
    ∷ text (fmt_ts local e.occurred_at)
    ∷ []

events_table : Inputs → View
unfolding event_row
events_table i =
    let rows = i.events_query.result or_else [] in
    if i.events_query.is_loading
    then spinner ∷ []
    else if i.events_query.is_error
    then text "Falha ao carregar eventos." ∷ []
    else if eqb (length rows) 0
    then text "Nenhum evento de erro registrado." ∷ []
    else text "Severidade"
      ∷ text "Aplicação"
      ∷ text "Código"
      ∷ text "Mensagem"
      ∷ text "Status"
      ∷ text "Ocorreu em"
      ∷ each (event_row i.local) rows

-- `EventsTab`
events_view : Inputs → Option ErrorEvent → View
unfolding events_table
events_view i (some e) = embed "EventDetail" ∷ []
events_view i none =
    text "Eventos de erro de aplicações integradas via webhook G11."
      ∷ when (i.events_query.is_fetching && not i.events_query.is_loading) (spinner ∷ [])
    ++ events_table i

tab_view : Inputs → Page → Tab → View
unfolding events_view
tab_view i p events = events_view i p.selected
tab_view i p policy = embed "PolicyTab" ∷ []

unfoldable pub page_view : Inputs → Page → View
unfolding tab_view
page_view i p =
    text "Incident Response"
    ∷ button "Eventos" true (show_tab events)
    ∷ button "Política" true (show_tab policy)
    ∷ tab_view i p p.tab
