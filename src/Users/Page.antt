-- ===== src/Users/Page.antt =====
-- UsersAdminPage.tsx, `UsersAdminPage` and its dialog, `ConfirmModal`.
use ready_jlmirror.Common.{
  String, Bool, true, false, not, List, [], ◌∷◌, ◌++◌, Option, none, some, ◌<>◌, ◌or_else◌,
  if◌then◌else◌, truthy, truthy?, eqb, ltb, length, show,
}
use ready_jlmirror.Client.{Failure}
use ready_jlmirror.Ui.{
  Effect, request, post, delete, notify, success, error, invalidate, muted, Query, Element, text,
  badge, spinner, button, embed, when, each,
}
use ready_jlmirror.Users.{User, fmt, full_name, active_users, inactive_users}
use ready_jlmirror.Users.Invite.{modal, password_view}

-- `type` of `confirmAction`
pub data Action : Type 0 where
  deactivate reactivate remove : Action

-- The `useState` values.
pub record Page : Type 0 where
  pub show_invite : Bool
  pub temp_pwd : Option (String × String)
  pub confirm_action : Option (Action × User)

abbrev pub start : Page
start = record { show_invite = false; temp_pwd = none; confirm_action = none }

pub data Message : Type 0 where
  invite close_invite close_password : Message
  -- `onCreated`
  created : String → String → Message
  ask : Action → User → Message
  confirm dismiss : Message
  done : Action → Message
  failed : Failure → Message

-- `handleConfirm`
confirmed : Option (Action × User) → List Effect
confirmed none = []
confirmed (some (deactivate, u)) =
    request post ("/api/admin/users/" <> u.principal_id <> "/deactivate") (some []) ∷ []
confirmed (some (reactivate, u)) =
    request post ("/api/admin/users/" <> u.principal_id <> "/reactivate") (some []) ∷ []
confirmed (some (remove, u)) = request delete ("/api/admin/users/" <> u.principal_id) none ∷ []

done_text : Action → String
done_text deactivate = "Usuário desativado"
done_text reactivate = "Usuário reativado"
done_text remove = "Usuário removido"

unfoldable pub update : Message → Page → Page × List Effect
unfolding confirmed done_text
update invite p = (record p { show_invite = true }, [])
update close_invite p = (record p { show_invite = false }, [])
update close_password p = (record p { temp_pwd = none }, [])
update (created email pwd) p = (record p { show_invite = false; temp_pwd = some (email, pwd) }, [])
update (ask a u) p = (record p { confirm_action = some (a, u) }, [])
update confirm p = (p, confirmed p.confirm_action)
update dismiss p = (record p { confirm_action = none }, [])
update (done a) p = (
  record p { confirm_action = none },
  invalidate ("admin-users" ∷ []) ∷ notify (done_text a) success ∷ [],
)
update (failed e) p =
    (p, notify (if truthy? e.message then e.message or_else "" else "Erro na operação") error ∷ [])

pub record Inputs : Type 0 where
  pub users : Query (List User)
  -- whether one of the three calls is pending
  pub is_pending : Bool
  pub local : String → String

abbrev View : Type 0
View = List (Element Message)

active_row : Inputs → User → View
active_row i u =
    text (full_name u)
    ∷ text (if truthy u.email then u.email else "sem email")
    ∷ embed "RoleCell"
    ∷ text (fmt i.local u.created_at)
    ∷ button "Desativar" true (ask deactivate u)
    ∷ button "Remover" true (ask remove u)
    ∷ []

inactive_row : User → View
inactive_row u =
    text (full_name u)
    ∷ text u.email
    ∷ badge muted u.role
    ∷ button "Reativar" true (ask reactivate u)
    ∷ button "Remover" true (ask remove u)
    ∷ []

plural : List User → String → String
plural users word = show (length users) <> " " <> word <> (if eqb (length users) 1 then "" else "s")

title_of : Action → String
title_of remove = "Remover usuário"
title_of deactivate = "Desativar usuário"
title_of reactivate = "Reativar usuário"

message_of : Action → User → String
message_of remove u =
    "Isso vai remover "
    <> full_name u
    <> " do workspace e revogar o acesso. O registro de auditoria é preservado."
message_of deactivate u = full_name u <> " não conseguirá fazer login até ser reativado."
message_of reactivate u = full_name u <> " voltará a ter acesso ao workspace."

label_of : Action → String
label_of remove = "Remover"
label_of deactivate = "Desativar"
label_of reactivate = "Reativar"

-- `ConfirmModal` of this page.
dialog_view : Inputs → Option (Action × User) → View
unfolding title_of message_of label_of
dialog_view i none = []
dialog_view i (some (a, u)) = modal dismiss (
    text (title_of a)
    ∷ text (message_of a u)
    ∷ button (if i.is_pending then "" else label_of a) (not i.is_pending) confirm
    ∷ button "Cancelar" true dismiss
    ∷ [])

pwd_view : Option (String × String) → View
pwd_view none = []
pwd_view (some (email, pwd)) = password_view email pwd close_password

table_view : Inputs → View
unfolding active_row
table_view i =
    let active = active_users (i.users.result or_else []) in
    if i.users.is_loading
    then spinner ∷ []
    else if i.users.is_error
    then text "Não foi possível carregar os usuários." ∷ []
    else if eqb (length active) 0
    then text "Nenhum usuário ativo." ∷ []
    else text "Nome" ∷ text "Email" ∷ text "Função" ∷ text "Criado" ∷ each (active_row i) active

unfoldable pub users_view : Inputs → Page → View
unfolding table_view inactive_row plural pwd_view dialog_view
users_view i p =
    let users = i.users.result or_else [] in
    text "Usuários"
      ∷ text "Gerenciamento de acesso · requer tenant:admin"
      ∷ text "Usuários ativos"
      ∷ text (plural (active_users users) "usuário")
      ∷ when i.users.is_fetching (spinner ∷ [])
    ++ button "Convidar" true invite ∷ table_view i
    ++ when (ltb 0 (length (inactive_users users))) (
        text (plural (inactive_users users) "desativado")
        ∷ each inactive_row (inactive_users users))
    ++ when p.show_invite (embed "InviteModal" ∷ [])
    ++ pwd_view p.temp_pwd
    ++ dialog_view i p.confirm_action
