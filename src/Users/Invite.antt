-- ===== src/Users/Invite.antt =====
-- UsersAdminPage.tsx, `InviteModal`, `TempPasswordModal` and `CopyButton`.
use ready_jlmirror.Common.{
  String, Bool, true, false, not, List, [], ◌∷◌, ◌++◌, Option, none, some, ◌&&◌, ◌or_else◌,
  if◌then◌else◌, truthy, truthy?, trim, map,
}
use ready_jlmirror.Client.{Failure}
use ready_jlmirror.Ui.{
  Effect, request, post, invalidate, leave, copy_text, timer, str, Element, text, button, row,
  input, select, embed, when,
}
use ready_jlmirror.Users.{roles}

-- `CopyButton`: the state says whether the text was copied a moment ago.
pub data CopyMessage : Type 0 where
  copy copied copy_over : CopyMessage

unfoldable pub update_copy : String → CopyMessage → Bool → Bool × List Effect
update_copy t copy b = (b, copy_text t ∷ [])
update_copy t copied b = (true, timer 2000 ∷ [])
update_copy t copy_over b = (false, [])

unfoldable pub copy_view : Bool → List (Element CopyMessage)
copy_view is_copied = button (if is_copied then "Copiado" else "Copiar") true copy ∷ []

-- `Modal`: the area around it and its cross close it.
unfoldable pub modal : {M : Type 0} → M → List (Element M) → List (Element M)
modal on_close v = row on_close ∷ button "✕" true on_close ∷ v

-- The `useState` values of the modal.
pub record Invite : Type 0 where
  pub email : String
  pub first_name : String
  pub last_name : String
  pub role : String
  pub err : Option String

abbrev pub start : Invite
start = record { email = ""; first_name = ""; last_name = ""; role = "viewer"; err = none }

pub data Message : Type 0 where
  set_email set_first_name set_last_name set_role : String → Message
  submit close : Message
  -- with the password of the answer
  invited : String → Message
  failed : Failure → Message

-- The last but one message also calls `onCreated` with the address that the field has then.
unfoldable pub update : Message → Invite → Invite × List Effect
update (set_email t) s = (record s { email = t }, [])
update (set_first_name t) s = (record s { first_name = t }, [])
update (set_last_name t) s = (record s { last_name = t }, [])
update (set_role t) s = (record s { role = t }, [])
update submit s = (
  s,
  request post "/api/admin/users" (
        some (
          ("email", str (trim s.email))
          ∷ ("first_name", str (trim s.first_name))
          ∷ ("last_name", str (trim s.last_name))
          ∷ ("role", str s.role)
          ∷ []))
      ∷ [],
)
update close s = (s, leave ∷ [])
update (invited password) s = (s, invalidate ("admin-users" ∷ []) ∷ [])
update (failed e) s = (record s { err = e.message }, [])

-- What `onCreated` is called with.
pub created_with : String → Invite → String × String
created_with password s = (trim s.email, password)

unfoldable pub invite_view : Bool → Invite → List (Element Message)
invite_view is_pending s = modal close (
    text "Convidar usuário"
      ∷ input "Nome *" s.first_name set_first_name
      ∷ input "Sobrenome" s.last_name set_last_name
      ∷ input "Email *" s.email set_email
      ∷ select "Função" s.role (map (λ r. (r, r)) roles) set_role
      ∷ when (truthy? s.err) (text (s.err or_else "") ∷ [])
    ++ button (if is_pending then "" else "Criar usuário")
        (truthy (trim s.email) && truthy (trim s.first_name) && not is_pending) submit
      ∷ button "Cancelar" true close
      ∷ [])

-- `TempPasswordModal`
unfoldable pub password_view : {M : Type 0} → String → String → M → List (Element M)
password_view email password on_close = modal on_close (
    text "Usuário criado"
    ∷ text "Compartilhe estas credenciais com o usuário pelo WhatsApp ou telefone."
    ∷ text "Email de acesso"
    ∷ text email
    ∷ embed "CopyButton"
    ∷ text "Senha temporária"
    ∷ text password
    ∷ embed "CopyButton"
    ∷ text "O usuário deverá trocar a senha no primeiro login."
    ∷ button "Entendido" true on_close
    ∷ [])
