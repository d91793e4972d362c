-- ===== src/Onboarding/Tests.antt =====
-- The steps at inputs of its own.
use ready_jlmirror.Common.{◌+◌, ◌≤◌, [], ◌∷◌, some, ◌≡◌, refl, trim}
use ready_jlmirror.Ui.{text, spinner}
use ready_jlmirror.Onboarding.{
  Page, start, begin, set_name, submit, registered, select_failed, selection, update, Enabled,
}
use ready_jlmirror.Onboarding.View.{page_view}
use ready_jlmirror.Onboarding.Steps.{
  Counts, posts, with_failure, with_report, Reach, first, next, Reach-once, select_failure_lost,
}

-- The page after the name was typed, the registration sent and answered.
abbrev typed : Page
typed = (update (set_name "Acme") ((update begin start).0)).0

abbrev waiting_for_selection : Page
waiting_for_selection = (update (registered "t-1") ((update submit typed).0)).0

abbrev one_each : Counts
one_each = record { sent = 1; failures = 0; reports = 1 }

reached : Reach one_each waiting_for_selection
unfolding update Enabled posts with_failure with_report trim
reached =
    next (registered "t-1") (next submit (next (set_name "Acme") (next begin first refl) refl) refl)
      refl

awaited : waiting_for_selection.waiting ≡ selection
unfolding update
awaited = refl

Reach-once_example : (one_each.sent ≤ one_each.failures + 1) × (one_each.reports ≤ 1)
Reach-once_example = Reach-once one_each waiting_for_selection reached

select_failure_lost_example :
    ((update select_failed waiting_for_selection).0.err
      ≡ some "Workspace criado, mas não foi possível iniciar a sessão. Recarregue a página.")
    × (page_view ((update select_failed waiting_for_selection).0)
        ≡ (spinner ∷ text "Configurando sessão…" ∷ []))
select_failure_lost_example = select_failure_lost one_each waiting_for_selection reached awaited
