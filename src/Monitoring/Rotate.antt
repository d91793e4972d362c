-- ===== src/Monitoring/Rotate.antt =====
-- MonitoringPage.tsx, `RotateTokenModal`.
use ready_jlmirror.Common.{
  String, Bool, true, not, List, [], ◌∷◌, ◌++◌, some, ◌&&◌, ◌<>◌, ◌or_else◌, trim, truthy,
}
use ready_jlmirror.Client.{Failure}
use ready_jlmirror.Ui.{
  Effect, request, put, notify, success, error, invalidate, leave, str, Element, text, spinner,
  button, row, input, when,
}

-- The state is the text of the field, `token`.
pub data Message : Type 0 where
  set_token : String → Message
  submit rotated close : Message
  failed : Failure → Message

unfoldable pub update : String → String → Message → String → String × List Effect
update source tenant (set_token t) token = (t, [])
update source tenant submit token = (
  token,
  request put ("/api/v1/monitoring/sources/" <> source <> "/credential")
        (some (("api_token", str token) ∷ []))
      ∷ [],
)
update source tenant rotated token = (
  token,
  notify "Token atualizado com sucesso." success
      ∷ invalidate ("sources" ∷ tenant ∷ [])
      ∷ leave
      ∷ [],
)
update source tenant close token = (token, leave ∷ [])
update source tenant (failed e) token =
    (token, notify (e.detail or_else (e.message or_else "Erro ao atualizar token.")) error ∷ [])

unfoldable pub modal_view : Bool → String → List (Element Message)
modal_view is_pending token =
    row close
      ∷ text "Trocar token de API"
      ∷ button "✕" true close
      ∷ text "O novo token será gravado no OpenBao e no arquivo de fallback."
      ∷ text "Revogue o token antigo manualmente em Zabbix → Administration → API tokens."
      ∷ input "Novo token de API do Zabbix *" token set_token
      ∷ button "Cancelar" true close
      ∷ when is_pending (spinner ∷ [])
    ++ button "Salvar token" (truthy (trim token) && not is_pending) submit ∷ []
