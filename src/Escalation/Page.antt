-- ===== src/Escalation/Page.antt =====
-- frontend/src/pages/EscalationPage.tsx, `EscalationPage`: the list of policies. The modal that
-- links a policy is a part of the state while it is shown. `date` writes a date as the browser
-- does.
pub mod Offered
pub mod Confirmed
use ready_jlmirror.Common.{
  ℕ, String, Bool, true, false, not, List, [], ◌∷◌, ◌++◌, Option, none, some, ◌==◌, ◌&&◌, ◌<>◌,
  ◌or_else◌, if◌then◌else◌, truthy?, truthy, trim, eqb, length, find?, take, is_some,
}
use ready_jlmirror.Ui.{
  Value, str, Body, Effect, request, post, delete, notify, success, error, invalidate, Query,
  Mutation, Element, text, spinner, button, row, input, embed, when, each,
}
use ready_jlmirror.Ui.Confirm.{confirm_view}
use ready_jlmirror.Client.{Failure}
use ready_jlmirror.Escalation.{Policy, AlertPolicyVersion, detail_or, policies_path}
use ready_jlmirror.Escalation.Link
use ready_jlmirror.Escalation.Link.{LinkModal, link_view}

pub record Page : Type 0 where
  pub selected_policy_id : Option String
  pub creating : Bool
  pub new_name : String
  pub new_desc : String
  pub create_err : Option String
  pub deleting_id : Option String
  -- the modal for `linkingId`
  pub linking : Option LinkModal

abbrev pub start : Page
start = record {
  selected_policy_id = none;
  creating = false;
  new_name = "";
  new_desc = "";
  create_err = none;
  deleting_id = none;
  linking = none;
}

pub data Message : Type 0 where
  new_policy create cancel_create : Message
  set_name set_desc : String → Message
  created : Policy → Message
  create_failed : Failure → Message
  open_policy ask_delete confirm_delete ask_link : String → Message
  cancel_delete deleted delete_failed back : Message
  link : Link.Message → Message

-- `{ name, description }`, where a description that is undefined is absent.
unfoldable pub create_body : Page → Body
create_body s =
    ("name", str (trim s.new_name))
    ∷ (if truthy (trim s.new_desc) then ("description", str (trim s.new_desc)) ∷ [] else [])

unfoldable pub link_modal :
    String → Link.Message → Option LinkModal → Option LinkModal × List Effect
link_modal tenant m none = (none, [])
link_modal tenant m (some l) = Link.update tenant m l

-- The modal leaves with the list; it is mounted anew when the list comes back.
remounted : Option LinkModal → Option LinkModal
remounted none = none
remounted (some l) = some (record l { selected_policy_id = "" })

unfoldable pub update : String → Message → Page → Page × List Effect
unfolding create_body link_modal detail_or remounted
update tenant new_policy s = (record s { creating = true }, [])
update tenant (set_name t) s = (record s { new_name = t }, [])
update tenant (set_desc t) s = (record s { new_desc = t }, [])
update tenant create s =
    (record s { create_err = none }, request post policies_path (some (create_body s)) ∷ [])
update tenant cancel_create s = (record s { creating = false; new_name = "" }, [])
update tenant (created p) s = (
  record s {
    creating = false;
    new_name = "";
    new_desc = "";
    selected_policy_id = some p.policy_id;
    linking = remounted s.linking;
  },
  notify "Política criada com sucesso." success ∷ invalidate ("esc-policies" ∷ tenant ∷ []) ∷ [],
)
update tenant (create_failed e) s =
    let msg = detail_or e "Falha ao criar política." in
    (record s { create_err = some msg }, notify msg error ∷ [])
update tenant (open_policy id) s =
    (record s { selected_policy_id = some id; linking = remounted s.linking }, [])
update tenant back s = (record s { selected_policy_id = none }, [])
update tenant (ask_delete id) s = (record s { deleting_id = some id }, [])
update tenant (confirm_delete id) s = (s, request delete (policies_path <> "/" <> id) none ∷ [])
update tenant cancel_delete s = (record s { deleting_id = none }, [])
update tenant deleted s = (
  record s { deleting_id = none },
  notify "Política excluída." success ∷ invalidate ("esc-policies" ∷ tenant ∷ []) ∷ [],
)
update tenant delete_failed s =
    (record s { deleting_id = none }, notify "Erro ao excluir política." error ∷ [])
update tenant (ask_link id) s =
    (record s { linking = some (record { esc_policy_id = id; selected_policy_id = "" }) }, [])
update tenant (link m) s =
    let (l, effects) = link_modal tenant m s.linking in (record s { linking = l }, effects)

pub record Inputs : Type 0 where
  pub query : Query (List Policy)
  pub alert_policies : Query (List AlertPolicyVersion)
  pub creation : Mutation {0} Unit
  pub deletion : Mutation String
  pub linkage : Mutation {0} Unit
  pub can_operate : Bool
  pub date : String → String
  -- `text.slice(0, 20)`
  pub first_20 : String → String

abbrev pub View : Type 0
View = List (Element Message)

unfoldable pub delete_view : Inputs → String → Option Policy → View
delete_view i id none = []
delete_view i id (some p) =
    confirm_view "Excluir política de escalação"
      ("Excluir \"" <> p.name <> "\"? Esta ação não pode ser desfeita.") "Excluir"
      i.deletion.is_pending (confirm_delete id) cancel_delete

-- The dialog for `deletingId`, where the policy is in the list.
unfoldable pub deleting_view : Inputs → List Policy → Option String → View
unfolding delete_view
deleting_view i policies none = []
deleting_view i policies (some id) =
    when (truthy id) (delete_view i id (find? (λ p. p.policy_id == id) policies))

-- The modal, which is shown for an identity that is not empty.
unfoldable pub linking_view : Inputs → Option LinkModal → View
linking_view i none = []
linking_view i (some l) =
    when (i.can_operate && truthy l.esc_policy_id)
      (link_view link i.alert_policies i.linkage.is_pending l)

unfoldable pub create_view : Inputs → Page → View
create_view i s =
    text "New escalation policy"
      ∷ input "Name" s.new_name set_name
      ∷ input "Description (optional)" s.new_desc set_desc
      ∷ when (truthy? s.create_err) (text (s.create_err or_else "") ∷ [])
    ++ when i.creation.is_pending (spinner ∷ [])
    ++ button "Create" (not i.creation.is_pending && truthy (trim s.new_name)) create
      ∷ button "Cancel" true cancel_create
      ∷ []

abbrev linked_text : Inputs → Option String → String
linked_text i none = "—"
linked_text i (some id) = if truthy id then i.first_20 id <> "…" else "—"

unfoldable pub policy_row : Inputs → Policy → View
policy_row i p =
    row (open_policy p.policy_id)
      ∷ text p.name
      ∷ text (p.description or_else "—")
      ∷ text (linked_text i p.linked_alert_policy_id)
      ∷ text (i.date p.created_at)
      ∷ when i.can_operate (button "vincular" true (ask_link p.policy_id) ∷ [])
    ++ when i.can_operate (button "delete" true (ask_delete p.policy_id) ∷ [])

unfoldable pub table_view : Inputs → List Policy → View
unfolding policy_row
table_view i policies =
    if i.query.is_loading
    then spinner ∷ []
    else if i.query.is_error
    then text "Failed to load policies." ∷ []
    else if eqb (length policies) 0
    then text "No escalation policies. Create one to enable time-based alert escalation." ∷ []
    else text "Policy"
      ∷ text "Description"
      ∷ text "Vinculado a"
      ∷ text "Created"
      ∷ each (policy_row i) policies

unfoldable pub list_view : Inputs → Page → List Policy → View
unfolding deleting_view linking_view create_view table_view
list_view i s policies =
    deleting_view i policies s.deleting_id
    ++ linking_view i s.linking
    ++ text "Escalation Policies"
      ∷ text "Define time-based escalation chains for unacknowledged alerts."
      ∷ when (i.can_operate && not s.creating) (button "New policy" true new_policy ∷ [])
    ++ when (i.can_operate && s.creating) (create_view i s)
    ++ table_view i policies

-- What the component returns; `PolicyDetailView` stands in its place for a selected policy.
unfoldable pub page_view : Inputs → Page → View
unfolding list_view
page_view i s =
    if truthy? s.selected_policy_id
    then embed "PolicyDetailView" ∷ []
    else list_view i s (i.query.result or_else [])
