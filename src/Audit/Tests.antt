-- ===== src/Audit/Tests.antt =====
-- The audit trail at inputs of its own.
use ready_jlmirror.Common.{[], some, false, All, refl}
use ready_jlmirror.Ui.{offers}
use ready_jlmirror.Audit.{Audit, start}
use ready_jlmirror.Audit.View.{Inputs, audit_view, IsExport, empty_page}

-- The second page, for which there is no event.
abbrev second : Audit
second = record start { page = 1 }

abbrev inputs : Inputs
inputs = record {
  events = record { result = some []; is_loading = false; is_error = false; is_fetching = false };
  local = λ iso. iso;
}

empty_page_example : All IsExport (offers (audit_view inputs second))
empty_page_example = empty_page inputs second refl
