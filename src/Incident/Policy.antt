-- ===== src/Incident/Policy.antt =====
-- IncidentResponsePage.tsx, `PolicyTab`, and the pickers that it shows.
pub mod Draft
use ready_jlmirror.Common.{
  String, Bool, true, false, not, List, [], ◌∷◌, ◌++◌, Option, none, some, ◌==◌, ◌&&◌, ◌<>◌,
  ◌or_else◌, if◌then◌else◌, truthy, truthy?, lookup, eqb, length, filter, map,
}
use ready_jlmirror.Session.{includes}
use ready_jlmirror.Shell.Frame.{toggled}
use ready_jlmirror.Ui.{
  Effect, request, put, notify, success, invalidate, navigate, Body, str, strs, flag, dicts, Call,
  Query, Element, text, spinner, button, select, check, link, when, each,
}
use ready_jlmirror.Incident.{fmt_ts}

-- `Policy`. The code reads the two lists as absent or there; a trigger is its `script_id`.
pub record Policy : Type 0 where
  pub severity_threshold : String
  pub auto_open_ticket : Bool
  pub manual_override_only : Bool
  pub notify_channels : Option (List String)
  pub automation_triggers : Option (List String)
  pub updated_by : Option String
  pub updated_at : Option String

-- `Destination`
pub record Destination : Type 0 where
  pub destination_config_id : String
  pub channel_class : String
  pub destination_ref : String
  pub label : String

-- `Script`
pub record Script : Type 0 where
  pub script_id : String
  pub name : String
  pub script_type : String
  pub enabled : Bool

abbrev pub severities : List String
severities = "LOW" ∷ "MEDIUM" ∷ "HIGH" ∷ "CRITICAL" ∷ []

abbrev channel_labels : List (String × String)
channel_labels =
    ("whatsapp_business@1", "WhatsApp") ∷ ("email_smtp@1", "Email") ∷ ("slack@1", "Slack") ∷ []

-- What `updateForm` is called with.
pub data Patch : Type 0 where
  threshold : String → Patch
  auto_open manual_only : Bool → Patch
  channels triggers : List String → Patch

-- `{ ...policy, ...patch }`
unfoldable pub patched : Patch → Policy → Policy
patched (threshold t) p = record p { severity_threshold = t }
patched (auto_open b) p = record p { auto_open_ticket = b }
patched (manual_only b) p = record p { manual_override_only = b }
patched (channels ids) p = record p { notify_channels = some ids }
patched (triggers ids) p = record p { automation_triggers = some ids }

-- The `useState` values.
pub record PolicyTab : Type 0 where
  pub form : Option Policy
  pub is_dirty : Bool

abbrev pub clean : PolicyTab
clean = record { form = none; is_dirty = false }

pub data Message : Type 0 where
  edit : Patch → Message
  -- with the policy that is shown
  save : Policy → Message
  cancel saved : Message
  open_page : String → Message

-- `form ?? q.data ?? null`
unfoldable pub policy_of : Option Policy → PolicyTab → Option Policy
policy_of answer s = shown s.form
  where
    shown : Option Policy → Option Policy
    shown none = answer
    shown (some f) = some f

-- `setForm(...)` of `updateForm`. Where no policy is shown, no control is.
edited : Option Policy → Patch → PolicyTab → PolicyTab
edited none patch s = s
edited (some p) patch s = record s { form = some (patched patch p); is_dirty = true }

script_dict : String → List (String × String)
script_dict id = ("script_id", id) ∷ []

channels_field : Option (List String) → Body
channels_field none = []
channels_field (some ids) = ("notify_channels", strs ids) ∷ []

body_with : Policy → Option (List String) → Option Body
unfolding script_dict channels_field
body_with p none = none
body_with p (some ids) = some (
    ("severity_threshold", str p.severity_threshold)
      ∷ ("auto_open_ticket", flag p.auto_open_ticket)
      ∷ ("manual_override_only", flag p.manual_override_only)
      ∷ channels_field p.notify_channels
    ++ ("automation_triggers", dicts (map script_dict ids)) ∷ [])

-- The body of the request; it throws, and nothing is sent, where the triggers are absent.
pub body : Policy → Option Body
unfolding body_with
body p = body_with p p.automation_triggers

-- The request that saves a policy.
unfoldable pub saving : String → Option Body → List Effect
saving tenant none = []
saving tenant (some b) =
    request put ("/api/v1/alerting/tenants/" <> tenant <> "/incident-response-policy") (some b) ∷ []

unfoldable pub update : String → Option Policy → Message → PolicyTab → PolicyTab × List Effect
unfolding edited policy_of saving
update tenant answer (edit patch) s = (edited (policy_of answer s) patch s, [])
update tenant answer (save p) s = (s, saving tenant (body p))
update tenant answer cancel s = (clean, [])
update tenant answer saved s = (
  clean,
  invalidate ("ir-policy" ∷ tenant ∷ []) ∷ notify "Política salva com sucesso." success ∷ [],
)
update tenant answer (open_page path) s = (s, navigate path false ∷ [])

abbrev View : Type 0
View = List (Element Message)

pub record Inputs : Type 0 where
  pub policy : Query Policy
  pub channels : Query (List Destination)
  pub scripts : Query (List Script)
  pub call : Call
  pub local : String → String

channel_button : List String → Destination → View
channel_button selected d =
    button
      ((lookup d.channel_class channel_labels or_else d.channel_class)
        <> (if truthy d.label then d.label else d.destination_ref))
      true (edit (channels (toggled d.destination_config_id selected)))
    ∷ []

-- `ChannelPicker`
channel_picker : Inputs → List String → View
unfolding channel_button
channel_picker i selected =
    let destinations = i.channels.result or_else [] in
    if i.channels.is_loading
    then text "Carregando canais…" ∷ []
    else if eqb (length destinations) 0
    then text "Nenhum canal configurado."
      ∷ button "Adicione em Canais de Notificação." true (open_page "/channels")
      ∷ []
    else each (channel_button selected) destinations

script_button : List String → Script → View
script_button selected s =
    button (s.script_type <> s.name) true (edit (triggers (toggled s.script_id selected))) ∷ []

-- `ScriptPicker`
script_picker : Inputs → List String → View
unfolding script_button
script_picker i selected =
    let scripts = filter (λ s. s.enabled) (i.scripts.result or_else []) in
    if i.scripts.is_loading
    then text "Carregando scripts…" ∷ []
    else if eqb (length scripts) 0
    then text "Nenhum script de automação ativo."
      ∷ button "Crie em Automação." true (open_page "/automation")
      ∷ []
    else each (script_button selected) scripts

form_view : Inputs → PolicyTab → Option Policy → View
unfolding channel_picker script_picker
form_view i s none = text "Falha ao carregar política." ∷ []
form_view i s (some p) =
    text "Define o comportamento automático ao receber eventos de erro de aplicações."
      ∷ text "Política de Resposta a Incidentes"
      ∷ when (truthy? p.updated_at)
          (text ("atualizado em " <> fmt_ts i.local (p.updated_at or_else "")) ∷ [])
    ++ select "Severidade mínima para acionar" p.severity_threshold (map (λ v. (v, v)) severities)
        (λ t. edit (threshold t))
      ∷ check "Abrir ticket automaticamente" p.auto_open_ticket
          (edit (auto_open (not p.auto_open_ticket)))
      ∷ check "Apenas ação manual" p.manual_override_only
          (edit (manual_only (not p.manual_override_only)))
      ∷ text "Canais de notificação"
      ∷ channel_picker i (p.notify_channels or_else [])
    ++ text "Scripts de automação a disparar" ∷ script_picker i (p.automation_triggers or_else [])
    ++ button (if i.call.is_pending then "" else "Salvar política")
        (s.is_dirty && not i.call.is_pending) (save p)
      ∷ when s.is_dirty (button "Cancelar" true cancel ∷ [])
    ++ when i.call.is_error (text "Falha ao salvar. Tente novamente." ∷ [])
    ++ when (i.call.is_success && not s.is_dirty) (text "Política salva com sucesso." ∷ [])

unfoldable pub policy_view : Inputs → PolicyTab → View
unfolding form_view policy_of
policy_view i s =
    if i.policy.is_loading then spinner ∷ [] else form_view i s (policy_of i.policy.result s)
