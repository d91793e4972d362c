-- ===== src/Team/CreateUser.antt =====
-- TeamPage.tsx, `CreateUserModal`, and `CredentialCard`, which shows a password once.
use ready_jlmirror.Common.{
  String, Bool, true, false, not, List, [], ◌∷◌, ◌++◌, Option, none, some, ◌&&◌, ◌<>◌, ◌or_else◌,
  if◌then◌else◌, truthy, truthy?, trim,
}
use ready_jlmirror.Client.{Failure}
use ready_jlmirror.Ui.{
  Effect, request, post, invalidate, leave, copy_text, timer, str, Element, text, badge, button,
  input, select, embed, when,
}
use ready_jlmirror.Team.{ProvisionResult, role_variant}

-- `CredentialCard`: the state says whether the credentials were copied a moment ago.
pub data CardMessage : Type 0 where
  copy_all copy_over close_card : CardMessage

-- `origin` is that of the window.
unfoldable pub update_card : String → ProvisionResult → CardMessage → Bool → Bool × List Effect
update_card origin r copy_all b = (
  true,
  copy_text
        ("Email: " <> r.email <> "\nSenha temporária: " <> r.temp_password <> "\nURL: " <> origin)
      ∷ timer 2000
      ∷ [],
)
update_card origin r copy_over b = (false, [])
update_card origin r close_card b = (b, leave ∷ [])

unfoldable pub card_view : String → ProvisionResult → Bool → List (Element CardMessage)
card_view origin r copied =
    text "Usuário criado com sucesso"
    ∷ button "✕ Fechar" true close_card
    ∷ text
        "Anote as credenciais abaixo — a senha temporária não será exibida novamente. O usuário deve trocá-la no primeiro acesso."
    ∷ text "Email"
    ∷ text r.email
    ∷ text "Senha temporária"
    ∷ text r.temp_password
    ∷ text "Função"
    ∷ badge (role_variant r.role) r.role
    ∷ text "URL"
    ∷ text origin
    ∷ button (if copied then "Copiado!" else "Copiar credenciais") true copy_all
    ∷ []

-- The `useState` values of the modal.
pub record Modal : Type 0 where
  pub email : String
  pub first_name : String
  pub last_name : String
  pub role : String
  pub err : Option String
  pub result : Option ProvisionResult

abbrev pub start : Modal
start = record {
  email = "";
  first_name = "";
  last_name = "";
  role = "viewer";
  err = none;
  result = none;
}

pub data Message : Type 0 where
  set_email set_first_name set_last_name set_role : String → Message
  submit close close_credentials : Message
  provisioned : ProvisionResult → Message
  failed : Failure → Message

unfoldable pub update : String → Message → Modal → Modal × List Effect
update tenant (set_email t) s = (record s { email = t }, [])
update tenant (set_first_name t) s = (record s { first_name = t }, [])
update tenant (set_last_name t) s = (record s { last_name = t }, [])
update tenant (set_role t) s = (record s { role = t }, [])
update tenant submit s = (
  s,
  request post "/api/v1/platform/users" (
        some (
          ("email", str (trim s.email))
          ∷ ("first_name", str (trim s.first_name))
          ∷ ("last_name", str (trim s.last_name))
          ∷ ("tenant_id", str tenant)
          ∷ ("role", str s.role)
          ∷ []))
      ∷ [],
)
update tenant close s = (s, leave ∷ [])
update tenant close_credentials s = (record s { result = none }, leave ∷ [])
update tenant (provisioned r) s =
    (record s { result = some r; err = none }, invalidate ("team-members" ∷ []) ∷ [])
update tenant (failed e) s = (record s { err = e.message }, [])

form_view : Bool → Modal → List (Element Message)
form_view is_pending s =
    text "Criar novo usuário"
      ∷ button "✕" true close
      ∷ input "Nome" s.first_name set_first_name
      ∷ input "Sobrenome" s.last_name set_last_name
      ∷ input "E-mail (será o login)" s.email set_email
      ∷ select "Função" s.role
          (("viewer", "viewer — somente leitura (TV, monitor, stakeholder)")
            ∷ ("operator", "operator — operações (ack, assign, notas)")
            ∷ ("admin", "admin — administrador do tenant")
            ∷ ("auditor", "auditor — leitura + trilha de auditoria")
            ∷ [])
          set_role
      ∷ when (truthy? s.err) (text (s.err or_else "") ∷ [])
    ++ button (if is_pending then "" else "Criar usuário")
        (truthy (trim s.email)
          && truthy (trim s.first_name)
          && truthy (trim s.last_name)
          && not is_pending)
        submit
      ∷ button "Cancelar" true close
      ∷ []

result_view : Bool → Modal → Option ProvisionResult → List (Element Message)
unfolding form_view
result_view is_pending s (some r) = embed "CredentialCard" ∷ []
result_view is_pending s none = form_view is_pending s

unfoldable pub modal_view : Bool → Modal → List (Element Message)
unfolding result_view
modal_view is_pending s = result_view is_pending s s.result
