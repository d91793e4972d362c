-- ===== src/Escalation/Errors.antt =====
-- What the handlers of failed requests show.
use ready_jlmirror.Common.{String, [], ◌∷◌, ◌≡◌}
use ready_jlmirror.Ui.{notify, error}
use ready_jlmirror.Client
use ready_jlmirror.Client.{Failure}
use ready_jlmirror.Escalation.AddStep
use ready_jlmirror.Escalation.AddStep.{StepForm}
use ready_jlmirror.Escalation.Link
use ready_jlmirror.Escalation.Link.{LinkModal}
use ready_jlmirror.Escalation.Page
use ready_jlmirror.Escalation.Page.{Page}

abbrev pub Generic : String → String → Failure → StepForm → LinkModal → Page → Type 0
Generic tenant policy_id f form modal page =
    ((AddStep.update policy_id (AddStep.failed f) form).1
      ≡ notify "Falha ao adicionar step." error ∷ [])
    × ((Link.update tenant (Link.failed f) modal).1
        ≡ notify "Erro ao vincular política." error ∷ [])
    × ((Page.update tenant (Page.create_failed f) page).1
        ≡ notify "Falha ao criar política." error ∷ [])
