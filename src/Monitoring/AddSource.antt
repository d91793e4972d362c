-- ===== src/Monitoring/AddSource.antt =====
-- MonitoringPage.tsx, `AddSourceModal`.
use Prim.Native.Char.{code}
use ready_jlmirror.Common.{
  String, Bool, true, not, List, [], ◌∷◌, ◌++◌, some, ◌&&◌, ◌<>◌, ◌or_else◌, if◌then◌else◌, eqb,
  trim, truthy, filter, map,
}
use ready_jlmirror.Client.{Failure}
use ready_jlmirror.Maintenance.SourceIds.{at_front}
use ready_jlmirror.Ui.{
  Effect, request, post, notify, success, error, invalidate, leave, Body, str, strs, Element, text,
  spinner, button, row, input, when,
}
use ready_jlmirror.Monitoring.Slug.{slugify}

-- `AddSourceForm`, the `useState` value.
pub record AddSourceForm : Type 0 where
  pub display_name : String
  pub provider_base_url : String
  pub api_token : String
  pub credential_binding_ref : String
  pub host_group_refs : String

abbrev pub empty_form : AddSourceForm
empty_form = record {
  display_name = "";
  provider_base_url = "";
  api_token = "";
  credential_binding_ref = "";
  host_group_refs = "";
}

pub data Message : Type 0 where
  set_name set_url set_token set_ref set_groups : String → Message
  submit added close : Message
  failed : Failure → Message

-- `text.split(",")`
split_commas : String → List String
split_commas String.[] = "" ∷ []
split_commas (String.◌∷◌ c s) =
    let rest = split_commas s in if eqb (code c) 44 then "" ∷ rest else at_front c rest

pub groups_of : String → List String
unfolding split_commas
groups_of raw = filter truthy (map trim (split_commas raw))

-- A field that is left out where the text is empty.
text_field : String → String → Body
text_field name t = if truthy t then (name, str t) ∷ [] else []

list_field : String → List String → Body
list_field name [] = []
list_field name (x ∷ xs) = (name, strs (x ∷ xs)) ∷ []

-- The body of the request; `lower` is `toLowerCase`.
unfoldable pub body : (String → String) → AddSourceForm → Body
unfolding text_field list_field
body lower f =
    ("display_name", str f.display_name)
      ∷ ("provider_base_url", str f.provider_base_url)
      ∷ text_field "api_token" f.api_token
    ++ (
      "credential_binding_ref",
      str (
          if truthy f.credential_binding_ref
          then f.credential_binding_ref
          else slugify lower f.display_name),
    )
      ∷ list_field "host_group_refs" (groups_of f.host_group_refs)

unfoldable pub update :
    (String → String) → String → Message → AddSourceForm → AddSourceForm × List Effect
unfolding body
update lower tenant (set_name t) f = (record f { display_name = t }, [])
update lower tenant (set_url t) f = (record f { provider_base_url = t }, [])
update lower tenant (set_token t) f = (record f { api_token = t }, [])
update lower tenant (set_ref t) f = (record f { credential_binding_ref = t }, [])
update lower tenant (set_groups t) f = (record f { host_group_refs = t }, [])
update lower tenant submit f =
    (f, request post "/api/v1/monitoring/sources" (some (body lower f)) ∷ [])
update lower tenant added f = (
  f,
  notify "Fonte adicionada com sucesso." success
      ∷ invalidate ("sources" ∷ tenant ∷ [])
      ∷ leave
      ∷ [],
)
update lower tenant close f = (f, leave ∷ [])
update lower tenant (failed e) f =
    (f, notify (e.detail or_else (e.message or_else "Erro ao adicionar fonte.")) error ∷ [])

-- `credRef`
cred_ref : (String → String) → AddSourceForm → String
cred_ref lower f =
    if truthy f.credential_binding_ref
    then f.credential_binding_ref
    else slugify lower f.display_name

-- The area around the dialog is clickable.
unfoldable pub modal_view : (String → String) → Bool → AddSourceForm → List (Element Message)
unfolding cred_ref
modal_view lower is_pending f =
    row close
      ∷ text "Adicionar fonte de monitoramento"
      ∷ button "✕" true close
      ∷ input "Nome da fonte *" f.display_name set_name
      ∷ input "URL do Zabbix *" f.provider_base_url set_url
      ∷ input "Token de API do Zabbix *" f.api_token set_token
      ∷ text ("Auto: \"" <> cred_ref lower f <> "\"")
      ∷ input "Referência de credencial" f.credential_binding_ref set_ref
      ∷ text "IDs ou nomes separados por vírgula (deixe vazio para todos)"
      ∷ input "Grupos de hosts" f.host_group_refs set_groups
      ∷ button "Cancelar" true close
      ∷ when is_pending (spinner ∷ [])
    ++ button "Adicionar fonte"
        (truthy f.display_name && truthy f.provider_base_url && not is_pending) submit
      ∷ []
