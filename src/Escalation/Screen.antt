-- ===== src/Escalation/Screen.antt =====
-- frontend/src/pages/EscalationPage.tsx: the list of policies together with the view of the policy
-- that is selected, as `EscalationPage` shows it in the place of the list.
pub mod Reading
use ready_jlmirror.Common.{String, Bool, List, [], Option, ◌or_else◌, if◌then◌else◌, truthy?}
use ready_jlmirror.Ui.{Effect, Element, relabel}
use ready_jlmirror.Escalation.Detail
use ready_jlmirror.Escalation.Detail.{Detail, detail_view}
use ready_jlmirror.Escalation.Page
use ready_jlmirror.Escalation.Page.{Page, page_view}

-- The states of the two components; that of the view of a policy counts while one is selected.
pub record Screen : Type 0 where
  pub page : Page
  pub detail : Detail

abbrev pub start : Screen
start = record { page = Page.start; detail = Detail.start }

-- A message of the list, or one of the view of the policy with an identity.
pub data Message : Type 0 where
  in_page : Page.Message → Message
  in_detail : String → Detail.Message → Message

-- The view of a policy is mounted anew where none was selected before. An answer for a view that was
-- left and opened anew is left out.
unfoldable pub detail_after : Option String → Detail → Detail
detail_after selected d = if truthy? selected then d else Detail.start

-- `onBack` of the view of a policy is the message `back` of the list.
unfoldable pub update : String → Message → Screen → Screen × List Effect
unfolding detail_after
update tenant (in_page m) s = (
  record {
    page = (Page.update tenant m s.page).0;
    detail = detail_after s.page.selected_policy_id s.detail;
  },
  (Page.update tenant m s.page).1,
)
update tenant (in_detail id Detail.back) s =
    (record s { page = (Page.update tenant Page.back s.page).0 }, [])
update tenant (in_detail id m) s =
    (record s { detail = (Detail.update id m s.detail).0 }, (Detail.update id m s.detail).1)

pub record Inputs : Type 0 where
  pub page : Page.Inputs
  pub detail : Detail.Inputs

unfoldable pub screen_view : Inputs → Screen → List (Element Message)
screen_view i s =
    if truthy? s.page.selected_policy_id
    then relabel (in_detail (s.page.selected_policy_id or_else "")) (detail_view i.detail s.detail)
    else relabel in_page (page_view i.page s.page)
