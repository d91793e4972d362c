-- ===== src/Escalation/AddStep.antt =====
-- frontend/src/pages/EscalationPage.tsx, `AddStepForm`. What `Number` makes of a text is an
-- argument, and so is the text that a number field shows.
use ready_jlmirror.Common.{
  String, Bool, true, not, List, [], ◌∷◌, ◌++◌, Option, none, some, ◌==◌, ◌&&◌, ◌<>◌, ◌or_else◌,
  if◌then◌else◌, trim, truthy, truthy?,
}
use ready_jlmirror.Ui.{
  Number, nat, num, str, Body, Effect, request, post, notify, success, error, invalidate, Element,
  text, spinner, button, input, select, when,
}
use ready_jlmirror.Client.{Failure}
use ready_jlmirror.Escalation.{channel_options, detail_or, policies_path}

-- The `useState` values of the form.
pub record StepForm : Type 0 where
  pub step_number : Number
  pub delay_minutes : Number
  pub channel : String
  pub dest_ref : String
  pub payload_ref : String
  pub err : Option String

-- The form as it is mounted with the number of the next step.
abbrev pub mounted : Number → StepForm
mounted next_step = record {
  step_number = next_step;
  delay_minutes = nat 15;
  channel = "email_smtp@1";
  dest_ref = "";
  payload_ref = "";
  err = none;
}

pub data Message : Type 0 where
  set_step_number set_delay_minutes : Number → Message
  set_channel set_dest_ref set_payload_ref : String → Message
  save cancel added : Message
  failed : Failure → Message

-- The body of the request.
unfoldable pub body : StepForm → Body
body s =
    ("step_number", num s.step_number)
    ∷ ("delay_minutes", num s.delay_minutes)
    ∷ ("channel_class", str s.channel)
    ∷ ("destination_ref", str (trim s.dest_ref))
    ∷ (if truthy (trim s.payload_ref) then ("payload_ref", str (trim s.payload_ref)) ∷ [] else [])

-- The state after a message, or none where the form calls `onDone`, and the effects.
unfoldable pub update : String → Message → StepForm → Option StepForm × List Effect
unfolding body detail_or
update policy_id (set_step_number n) s = (some (record s { step_number = n }), [])
update policy_id (set_delay_minutes n) s = (some (record s { delay_minutes = n }), [])
update policy_id (set_channel c) s = (some (record s { channel = c }), [])
update policy_id (set_dest_ref t) s = (some (record s { dest_ref = t }), [])
update policy_id (set_payload_ref t) s = (some (record s { payload_ref = t }), [])
update policy_id save s = (
  some (record s { err = none }),
  request post (policies_path <> "/" <> policy_id <> "/steps") (some (body s)) ∷ [],
)
update policy_id cancel s = (none, [])
update policy_id added s = (
  none,
  notify "Step adicionado com sucesso." success ∷ invalidate ("esc-policy" ∷ policy_id ∷ []) ∷ [],
)
update policy_id (failed e) s =
    let msg = detail_or e "Falha ao adicionar step." in
    (some (record s { err = some msg }), notify msg error ∷ [])

-- What the form shows, its messages wrapped by the component that holds it.
unfoldable pub add_step_view :
    {M : Type 0}
    → (Message → M)
    → (String → Number)
    → (Number → String)
    → Bool
    → StepForm
    → List (Element M)
add_step_view send number numeral is_pending s =
    text "Add step"
      ∷ input "Step #" (numeral s.step_number) (λ t. send (set_step_number (number t)))
      ∷ input "Delay (minutes)" (numeral s.delay_minutes) (λ t. send (set_delay_minutes (number t)))
      ∷ select "Channel" s.channel channel_options (λ c. send (set_channel c))
      ∷ input (if s.channel == "email_smtp@1" then "Email address" else "Destination ref")
          s.dest_ref (λ t. send (set_dest_ref t))
      ∷ input "Payload ref (opcional)" s.payload_ref (λ t. send (set_payload_ref t))
      ∷ when (truthy? s.err) (text (s.err or_else "") ∷ [])
    ++ when is_pending (spinner ∷ [])
    ++ button "Save" (not is_pending && truthy (trim s.dest_ref)) (send save)
      ∷ button "Cancel" true (send cancel)
      ∷ []
