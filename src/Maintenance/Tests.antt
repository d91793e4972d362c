-- ===== src/Maintenance/Tests.antt =====
-- Maintenance windows on concrete ones, with a clock that writes a date as its milliseconds.
use ready_jlmirror.Common.{
  Bool, true, false, [], ◌∷◌, none, some, ◌≡◌, refl, ap, All, show, number_of, number_of-show,
  value_from, join, trim, trim_start, trim_end,
}
use ready_jlmirror.Ui.{offers}
use ready_jlmirror.Maintenance.{Clock, Maintenance, MaintenanceWindow}
use ready_jlmirror.Maintenance.SourceIds.{source_ids}
use ready_jlmirror.Maintenance.SourceIds.Roundtrip.{one_word, source_ids-join}
use ready_jlmirror.Maintenance.Form.{Submitted, submit-valid}
use ready_jlmirror.Maintenance.View.{Inputs, maintenance_view, maintenance_view-operators}

abbrev clock : Clock
clock = record {
  instant = λ t. some (number_of t);
  iso = λ n. show n;
  fields = λ t. record { year = 2026; month = 0; date = 5; hours = 10; minutes = 7 };
  local = λ t. t;
}

abbrev filled : Maintenance
filled = record {
  show_form = true;
  label = "Planned DB upgrade";
  source_ids_raw = "mon-src-abc, mon-src-def";
  starts_at = "100";
  ends_at = "200";
  form_err = none;
}

starts : number_of "100" ≡ 100
unfolding number_of value_from
starts = refl

ends : number_of "200" ≡ 200
unfolding number_of value_from
ends = refl

submit-valid_example : Submitted clock "t1" filled 100 200
submit-valid_example =
    submit-valid clock "t1" filled 100 200 (ap some starts) (ap some ends)
      (ap some (number_of-show 100)) (ap some (number_of-show 200))

abbrev upgrade : Bool → MaintenanceWindow
upgrade active = record {
  window_id = "mw-1";
  label = "Planned DB upgrade";
  source_ids = none;
  starts_at = "100";
  ends_at = "200";
  created_by = "u1";
  created_at = "50";
  active = active;
}

-- The page of a user who may not operate, with an active window and an upcoming one.
abbrev inputs : Inputs
inputs = record {
  query = record {
    result = some (upgrade true ∷ upgrade false ∷ []);
    is_loading = false;
    is_error = false;
    is_fetching = false;
  };
  creation = record { is_pending = false; variables = none };
  cancellation = record { is_pending = false; variables = none };
  can_operate = false;
  clock = clock;
  now = 100;
}

maintenance_view-operators_example :
    All (λ m. false ≡ true) (offers (maintenance_view inputs filled))
maintenance_view-operators_example = maintenance_view-operators inputs filled

word_abc : one_word "src-a" ≡ true
unfolding one_word
word_abc = refl

word_def : one_word "src-b" ≡ true
unfolding one_word
word_def = refl

trim_abc : trim "src-a" ≡ "src-a"
unfolding trim trim_start trim_end
trim_abc = refl

trim_def : trim "src-b" ≡ "src-b"
unfolding trim trim_start trim_end
trim_def = refl

source_ids-join_example : source_ids (join ("src-a" ∷ "src-b" ∷ [])) ≡ some ("src-a" ∷ "src-b" ∷ [])
source_ids-join_example =
    source_ids-join "src-a" ("src-b" ∷ [])
      ((refl, word_abc, trim_abc), ((refl, word_def, trim_def), tt))
