-- ===== src/Itsm.antt =====
-- frontend/src/pages/ITSMPage.tsx: requests for change.
pub mod Create
pub mod Change
use ready_jlmirror.Common.{
  String, Bool, true, false, not, List, [], ◌∷◌, ◌++◌, Option, none, some, ◌==◌, ◌<>◌, ◌or_else◌,
  if◌then◌else◌, truthy, eqb, length, lookup,
}
use ready_jlmirror.Ui.{
  Effect, invalidate, Variant, muted, warning, info, danger, Query, Element, text, badge, spinner,
  button, row, embed, when, each,
}

-- `Task`
pub record Task : Type 0 where
  pub task_id : String
  pub title : String
  pub state : String
  pub assignee_ref : Option String
  pub updated_at : String

-- `Approval`
pub record Approval : Type 0 where
  pub approval_id : String
  pub approver_ref : String
  pub decision : String
  pub notes : Option String
  pub decided_at : Option String

-- `RFC`
pub record Rfc : Type 0 where
  pub rfc_id : String
  pub title : String
  pub description : String
  pub category : String
  pub risk : String
  pub state : String
  pub planned_start : Option String
  pub planned_end : Option String
  pub incident_id : Option String
  pub created_by : String
  pub created_at : String
  pub tasks : Option (List Task)
  pub approvals : Option (List Approval)

abbrev state_colors : List (String × Variant)
state_colors =
    ("draft", muted)
    ∷ ("review", warning)
    ∷ ("approved", info)
    ∷ ("scheduled", info)
    ∷ ("implementing", warning)
    ∷ ("complete", Variant.success)
    ∷ ("cancelled", muted)
    ∷ []

abbrev risk_colors : List (String × Variant)
risk_colors = ("low", muted) ∷ ("medium", info) ∷ ("high", warning) ∷ ("critical", danger) ∷ []

-- `STATE_COLORS[state] ?? "muted"` and `RISK_COLORS[risk] ?? "muted"`
pub state_color : String → Variant
state_color state = lookup state state_colors or_else muted

pub risk_color : String → Variant
risk_color risk = lookup risk risk_colors or_else muted

-- `fmtTs`, with the date as the browser writes it.
pub fmt_ts : (String → String) → Option String → String
fmt_ts local none = "—"
fmt_ts local (some iso) = if truthy iso then local iso else "—"

-- The `useState` values of the page.
pub record Page : Type 0 where
  pub creating : Bool
  pub selected : Option Rfc

pub data Message : Type 0 where
  create create_done : Message
  select : Rfc → Message
  back : Message

unfoldable pub update : String → Message → Page → Page × List Effect
update tenant create p = (record p { creating = true }, [])
update tenant create_done p = (record p { creating = false }, [])
update tenant (select r) p = (record p { selected = some r }, [])
update tenant back p =
    (record p { selected = none }, invalidate ("itsm-changes" ∷ tenant ∷ []) ∷ [])

abbrev View : Type 0
View = List (Element Message)

rfc_row : (String → String) → Rfc → View
rfc_row local r =
    row (select r)
    ∷ badge (state_color r.state) r.state
    ∷ text r.title
    ∷ text r.category
    ∷ badge (risk_color r.risk) r.risk
    ∷ text (fmt_ts local r.planned_start)
    ∷ text (fmt_ts local (some r.created_at))
    ∷ []

table_view : (String → String) → Query (List Rfc) → View
unfolding rfc_row
table_view local q =
    let rfcs = q.result or_else [] in
    if q.is_loading
    then spinner ∷ []
    else if q.is_error
    then text "Failed to load changes." ∷ []
    else if eqb (length rfcs) 0
    then text "No change requests yet. Create an RFC to begin." ∷ []
    else text "State"
      ∷ text "Title"
      ∷ text "Category"
      ∷ text "Risk"
      ∷ text "Planned"
      ∷ text "Created"
      ∷ each (rfc_row local) rfcs

list_view : (String → String) → Query (List Rfc) → Page → View
unfolding table_view
list_view local q p =
    text "Change Management"
      ∷ text "RFCs, approvals, and change tasks."
      ∷ when (not p.creating) (button "New RFC" true create ∷ [])
    ++ when p.creating (embed "CreateRFCForm" ∷ [])
    ++ table_view local q

selected_view : (String → String) → Query (List Rfc) → Page → Option Rfc → View
unfolding list_view
selected_view local q p (some r) = embed "RFCDetail" ∷ []
selected_view local q p none = list_view local q p

unfoldable pub page_view : (String → String) → Query (List Rfc) → Page → View
unfolding selected_view
page_view local q p = selected_view local q p p.selected
