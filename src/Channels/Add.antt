-- ===== src/Channels/Add.antt =====
-- NotificationChannelsPage.tsx, `AddDestinationForm`.
use ready_jlmirror.Common.{
  String, Bool, true, not, List, [], ◌∷◌, ◌++◌, Option, none, some, ◌==◌, ◌&&◌, ◌<>◌, ◌or_else◌,
  if◌then◌else◌, truthy, truthy?, trim,
}
use ready_jlmirror.Client.{Failure}
use ready_jlmirror.Ui.{
  Effect, request, post, notify, success, error, invalidate, leave, str, Element, text, spinner,
  button, input, select, when,
}

abbrev channel_options : List (String × String)
channel_options =
    ("email_smtp@1", "Email (SMTP)")
    ∷ ("whatsapp_business@1", "WhatsApp Business")
    ∷ ("slack@1", "Slack Webhook")
    ∷ []

-- The `useState` values.
pub record Form : Type 0 where
  pub channel : String
  pub dest_ref : String
  pub label : String
  pub err : Option String

pub data Message : Type 0 where
  set_channel set_dest_ref set_label : String → Message
  submit added cancel : Message
  failed : Failure → Message

unfoldable pub update : String → Message → Form → Form × List Effect
update tenant (set_channel t) f = (record f { channel = t }, [])
update tenant (set_dest_ref t) f = (record f { dest_ref = t }, [])
update tenant (set_label t) f = (record f { label = t }, [])
update tenant submit f = (
  record f { err = none },
  request post "/api/v1/alerting/notification-channels" (
        some (
          ("channel_class", str f.channel)
          ∷ ("destination_ref", str (trim f.dest_ref))
          ∷ ("label", str (trim f.label))
          ∷ []))
      ∷ [],
)
update tenant added f = (
  f,
  invalidate ("notification-channels" ∷ tenant ∷ [])
      ∷ notify "Canal criado com sucesso" success
      ∷ leave
      ∷ [],
)
update tenant cancel f = (f, leave ∷ [])
update tenant (failed e) f =
    let detail = e.detail or_else (e.message or_else "Falha ao adicionar canal.") in
    (record f { err = some detail }, notify ("Erro: " <> detail) error ∷ [])

unfoldable pub form_view : Bool → Form → List (Element Message)
form_view is_pending f =
    text "Add notification destination"
      ∷ select "Channel" f.channel channel_options set_channel
      ∷ input
          (if f.channel == "email_smtp@1"
            then "Email address"
            else if f.channel == "slack@1"
            then "Webhook URL"
            else "Phone / destination ref")
          f.dest_ref set_dest_ref
      ∷ input "Label" f.label set_label
      ∷ when (truthy? f.err) (text (f.err or_else "") ∷ [])
    ++ when is_pending (spinner ∷ [])
    ++ button "Add" (not is_pending && truthy (trim f.dest_ref) && truthy (trim f.label)) submit
      ∷ button "Cancel" true cancel
      ∷ []
