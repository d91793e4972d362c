-- ===== src/Itsm/Change.antt =====
-- ITSMPage.tsx, `RFCDetail`: a change with its tasks and approvals.
use ready_jlmirror.Common.{
  String, Bool, true, false, not, List, [], ◌∷◌, ◌++◌, Option, some, ◌==◌, ◌&&◌, ◌||◌, ◌<>◌,
  ◌or_else◌, ◌≡◌, All, arith, if◌then◌else◌, truthy, truthy?, trim, eqb, ltb, length,
}
use ready_jlmirror.Ui.{
  Effect, request, post, put, invalidate, leave, str, Variant, danger, muted, Query, Element, text,
  badge, spinner, button, input, select, when, each, offers,
}
use ready_jlmirror.Ui.Offers.{OffersOnly, append, after_button, under, for_each, view_rules}
use ready_jlmirror.Itsm.{Task, Approval, Rfc, state_color, risk_color, fmt_ts}

-- The `useState` values.
pub record Detail : Type 0 where
  pub task_title : String
  pub approver : String
  pub approval_decision : String

abbrev pub start : Detail
start = record { task_title = ""; approver = ""; approval_decision = "approved" }

pub data Message : Type 0 where
  back submit submitted : Message
  set_task_title set_approver set_decision : String → Message
  add_task task_added : Message
  set_task_state : String → String → Message
  task_state_set : Message
  record_approval approval_recorded : Message

changes_path : Rfc → String
changes_path r = "/api/v1/itsm/changes/" <> r.rfc_id

refreshed : Rfc → Effect
refreshed r = invalidate ("itsm-rfc" ∷ r.rfc_id ∷ [])

unfoldable pub update : String → Rfc → Message → Detail → Detail × List Effect
unfolding changes_path refreshed
update tenant r back s = (s, leave ∷ [])
update tenant r submit s =
    (s, request put (changes_path r) (some (("state", str "review") ∷ [])) ∷ [])
update tenant r submitted s = (s, refreshed r ∷ [])
update tenant r (set_task_title t) s = (record s { task_title = t }, [])
update tenant r (set_approver t) s = (record s { approver = t }, [])
update tenant r (set_decision t) s = (record s { approval_decision = t }, [])
update tenant r add_task s =
    (s, request post (changes_path r <> "/tasks") (some (("title", str s.task_title) ∷ [])) ∷ [])
update tenant r task_added s = (record s { task_title = "" }, refreshed r ∷ [])
update tenant r (set_task_state task state) s =
    (s, request put (changes_path r <> "/tasks/" <> task) (some (("state", str state) ∷ [])) ∷ [])
update tenant r task_state_set s = (s, refreshed r ∷ [])
update tenant r record_approval s = (
  s,
  request post (changes_path r <> "/approvals")
        (some (("approver_ref", str s.approver) ∷ ("decision", str s.approval_decision) ∷ []))
      ∷ [],
)
update tenant r approval_recorded s =
    (record s { approver = "" }, refreshed r ∷ invalidate ("itsm-changes" ∷ tenant ∷ []) ∷ [])

-- The change as it was read again, or else as the list had it; and which calls are pending.
pub record Inputs : Type 0 where
  pub detail : Query Rfc
  pub is_submitting : Bool
  pub is_adding : Bool
  pub is_recording : Bool
  pub local : String → String

abbrev View : Type 0
View = List (Element Message)

optional_line : String → Option String → View
optional_line before t = when (truthy? t) (text (before <> (t or_else "")) ∷ [])

date_line : Inputs → String → Option String → View
date_line i before t = when (truthy? t) (text (before <> fmt_ts i.local t) ∷ [])

task_card : Task → View
unfolding optional_line
task_card t =
    text t.title ∷ optional_line "" t.assignee_ref
    ++ select "" t.state
        (("open", "Open")
          ∷ ("in_progress", "In progress")
          ∷ ("done", "Done")
          ∷ ("skipped", "Skipped")
          ∷ [])
        (λ state. set_task_state t.task_id state)
      ∷ []

decision_color : String → Variant
decision_color d =
    if d == "approved" then Variant.success else if d == "rejected" then danger else muted

approval_card : Approval → View
unfolding optional_line decision_color
approval_card a =
    text a.approver_ref ∷ optional_line "" a.notes
    ++ badge (decision_color a.decision) a.decision ∷ []

header_view : Inputs → Rfc → View
unfolding optional_line date_line
header_view i d =
    button "← Changes" true back
      ∷ badge (state_color d.state) d.state
      ∷ badge (risk_color d.risk) ("risk: " <> d.risk)
      ∷ text d.category
      ∷ text d.title
      ∷ when (truthy d.description) (text d.description ∷ [])
    ++ text ("Created by " <> d.created_by) ∷ date_line i "Start: " d.planned_start
    ++ date_line i "End: " d.planned_end
    ++ optional_line "Incident: " d.incident_id
    ++ when (d.state == "draft") (
        when i.is_submitting (spinner ∷ [])
        ++ button "Submit for review" (not i.is_submitting) submit ∷ [])

tasks_view : Inputs → Detail → List Task → View
unfolding task_card
tasks_view i s tasks =
    text "Tasks" ∷ when (eqb (length tasks) 0) (text "No tasks yet." ∷ [])
    ++ each task_card tasks
    ++ input "Add task…" s.task_title set_task_title
      ∷ button "Add" (not i.is_adding && truthy (trim s.task_title)) add_task
      ∷ []

record_view : Inputs → Detail → View
record_view i s =
    input "Approver name or ID" s.approver set_approver
      ∷ select "" s.approval_decision (("approved", "Approve") ∷ ("rejected", "Reject") ∷ [])
          set_decision
      ∷ when i.is_recording (spinner ∷ [])
    ++ button "Record" (not i.is_recording && truthy (trim s.approver)) record_approval ∷ []

approvals_view : Inputs → Detail → Rfc → View
unfolding approval_card record_view
approvals_view i s d =
    let approvals = d.approvals or_else [] in
    when ((d.state == "review") || ltb 0 (length approvals)) (
      text "Approvals" ∷ each approval_card approvals
      ++ when (d.state == "review") (record_view i s))

-- `d`
unfoldable pub shown : Inputs → Rfc → Rfc
shown i r = i.detail.result or_else r

unfoldable pub change_view : Inputs → Rfc → Detail → View
unfolding header_view tasks_view approvals_view
change_view i r s =
    header_view i (shown i r)
    ++ tasks_view i s ((shown i r).tasks or_else [])
    ++ approvals_view i s (shown i r)

-- What may be done with a change in its state, and what has to be filled in for it.
abbrev pub Fits : Inputs → Rfc → Detail → Message → Type 0
Fits i r s submit = (((shown i r).state == "draft") ≡ true) × (i.is_submitting ≡ false)
Fits i r s add_task = (truthy (trim s.task_title) ≡ true) × (i.is_adding ≡ false)
Fits i r s record_approval =
    (((shown i r).state == "review") ≡ true)
    × (truthy (trim s.approver) ≡ true)
    × (i.is_recording ≡ false)
Fits i r s _ = Unit

idle : (b : Bool) → not b ≡ true → b ≡ false
idle b h = ground arith

free : (b c : Bool) → (not b && c) ≡ true → b ≡ false
free b c h = ground arith

right : (b c : Bool) → (b && c) ≡ true → c ≡ true
right b c h = ground arith

module _ (i : Inputs) (r : Rfc) (s : Detail) where
  header-Fits : OffersOnly (Fits i r s) (header_view i (shown i r))
  unfolding header_view optional_line date_line
  header-Fits = search (view_rules, append, under, after_button, idle) depth 40

  tasks-Fits : (tasks : List Task) → OffersOnly (Fits i r s) (tasks_view i s tasks)
  unfolding tasks_view task_card optional_line
  tasks-Fits tasks =
      search (view_rules, append, under, after_button, for_each, free, right) depth 40

  approvals-Fits : OffersOnly (Fits i r s) (approvals_view i s (shown i r))
  unfolding approvals_view approval_card optional_line record_view
  approvals-Fits = search (view_rules, append, under, after_button, for_each, free, right) depth 40

  change-Fits : OffersOnly (Fits i r s) (change_view i r s)
  unfolding change_view
  change-Fits = append (append header-Fits (tasks-Fits _)) approvals-Fits

-- Whatever the state of the page and of its requests, a change is submitted only while the page shows
-- it as a draft, an approval is recorded only while it shows it in review and with an approver that
-- is not blank, a task has a title, and none of these is sent while one like it is pending.
pub change_view-Fits :
    (i : Inputs) (r : Rfc) (s : Detail) → All (Fits i r s) (offers (change_view i r s))
change_view-Fits i r s = (change-Fits i r s).only
