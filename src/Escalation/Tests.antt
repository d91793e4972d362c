-- ===== src/Escalation/Tests.antt =====
-- Escalation policies on concrete ones.
use mathlib.Core.List.Memᴰ
use ready_jlmirror.Common.{ℕ, true, false, List, [], ◌∷◌, none, some, ◌≡◌, refl, All, ◌<◌, filter}
use ready_jlmirror.Ui.{offers, relabel, when, each, other, nat}
use ready_jlmirror.Client
use ready_jlmirror.Client.{Failure}
use ready_jlmirror.Escalation.AddStep.{StepForm, mounted}
use ready_jlmirror.Escalation.{Policy, EscalationStep, AlertPolicyVersion}
use ready_jlmirror.Escalation.AddStep
use ready_jlmirror.Escalation.Detail
use ready_jlmirror.Escalation.Detail.{next_step}
use ready_jlmirror.Escalation.Detail.Numbers.{Posts, fill, new_number}
use ready_jlmirror.Escalation.Detail.Controls.{Meant, detail_view-Meant}
use ready_jlmirror.Escalation.Link.{unique_policies, LinkModal}
use ready_jlmirror.Escalation.Link.Unique.{has_id, to_list, latest, unique_policies-latest}
use ready_jlmirror.Escalation.Page
use ready_jlmirror.Escalation.Page.{page_view}
use ready_jlmirror.Escalation.Page.Confirmed.{Asked, delete_confirmed}
use ready_jlmirror.Escalation.Screen
use ready_jlmirror.Escalation.Screen.Reading
use ready_jlmirror.Escalation.Screen.Reading.{Reads, Reaches, viewer-Reads}

abbrev on_call : Policy
on_call = record {
  policy_id = "esc-1";
  name = "NOC on-call";
  description = none;
  created_at = "2026-01-05T10:00:00Z";
  linked_alert_policy_id = none;
}

abbrev step : ℕ → EscalationStep
step n = record {
  step_number = n;
  delay_minutes = 15;
  channel_class = "slack@1";
  destination_ref = "#noc";
  payload_ref = "";
}

abbrev page_inputs : Page.Inputs
page_inputs = record {
  query = record {
    result = some (on_call ∷ []);
    is_loading = false;
    is_error = false;
    is_fetching = false;
  };
  alert_policies = record {
    result = none;
    is_loading = true;
    is_error = false;
    is_fetching = true;
  };
  creation = record { is_pending = false; variables = none };
  deletion = record { is_pending = false; variables = none };
  linkage = record { is_pending = false; variables = none };
  can_operate = false;
  date = λ d. d;
  first_20 = λ t. t;
}

abbrev asking : Page.Page
asking = record Page.start { deleting_id = some "esc-1" }

delete_confirmed_example :
    All
      (λ m. All (Asked asking (on_call ∷ [])) (Page.update "t1" m asking).1)
      (offers (page_view page_inputs asking))
delete_confirmed_example = delete_confirmed "t1" page_inputs asking

abbrev steps : List EscalationStep
steps = step 1 ∷ step 4 ∷ step 2 ∷ []

next_step_example : next_step steps ≡ 5
unfolding next_step Detail.greatest
next_step_example = refl

abbrev typed : List AddStep.Message
typed = AddStep.set_dest_ref "#ops" ∷ AddStep.set_delay_minutes (nat 30) ∷ []

new_number_example :
    let opened = (Detail.update "esc-1" (Detail.add_step (next_step steps)) Detail.start).0 in
    All
      (Posts (next_step steps))
      (Detail.update "esc-1" (Detail.form AddStep.save) (fill "esc-1" opened typed)).1
    × All (λ t. t.step_number < next_step steps) steps
new_number_example = new_number "esc-1" Detail.start steps typed (tt, (tt, tt))

abbrev detail_inputs : Detail.Inputs
detail_inputs = record {
  query = record {
    result = some (record { policy = on_call; steps = steps });
    is_loading = false;
    is_error = false;
    is_fetching = false;
  };
  add = record { is_pending = false; variables = none };
  remove = record { is_pending = false; variables = none };
  can_operate = true;
  number = λ t. other t;
  numeral = λ n. "";
}

detail_view-Meant_example :
    All
      (λ m. All (Meant "esc-1" true Detail.start) (Detail.update "esc-1" m Detail.start).1)
      (offers (Detail.detail_view detail_inputs Detail.start))
detail_view-Meant_example = detail_view-Meant "esc-1" detail_inputs Detail.start

abbrev version : ℕ → AlertPolicyVersion
version n = record {
  policy_id = "pol-1";
  policy_version = n;
  is_effective = true;
  escalation_policy_id = none;
}

unique_policies-latest_example :
    filter (has_id "pol-1") (unique_policies (version 1 ∷ version 2 ∷ []))
    ≡ to_list (latest "pol-1" none (version 1 ∷ version 2 ∷ []))
unique_policies-latest_example = unique_policies-latest "pol-1" (version 1 ∷ version 2 ∷ [])

abbrev refusal : Failure
refusal = record { detail = none; message = some "offline" }

abbrev empty_form : StepForm
empty_form = mounted (nat 1)

abbrev modal : LinkModal
modal = record { esc_policy_id = "esc-1"; selected_policy_id = "pol-1" }

-- The page of a user who may not operate, after the policy was opened.
abbrev screen_inputs : Screen.Inputs
screen_inputs = record { page = page_inputs; detail = record detail_inputs { can_operate = false } }

abbrev opened : Screen.Screen
opened = (Screen.update "t1" (Screen.in_page (Page.open_policy "esc-1")) Screen.start).0

opened-Reaches : Reaches "t1" false opened
unfolding Screen.screen_view Page.page_view Page.list_view Page.deleting_view Page.linking_view
    Page.table_view Page.policy_row offers relabel when each
opened-Reaches =
    Reading.click screen_inputs (Screen.in_page (Page.open_policy "esc-1")) (refl, refl)
      (Memᴰ.head refl) Reading.mounted

viewer-Reads_example :
    All
      (λ m. All Reads (Screen.update "t1" m opened).1)
      (offers (Screen.screen_view screen_inputs opened))
viewer-Reads_example = viewer-Reads "t1" opened-Reaches screen_inputs (refl, refl)
