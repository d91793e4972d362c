-- ===== src/Noc/Tests.antt =====
-- The dashboard on a stream that fails once.
use ready_jlmirror.Common.{true, false, [], ◌∷◌, none, ◌≡◌, refl, arith}
use ready_jlmirror.Ui.{text}
use ready_jlmirror.Noc.{RawAlert}
use ready_jlmirror.Noc.Stream.{
  Noc, failed, alerts_failed, alerts_polled, update, live, connect, start, mounted, Enabled, Reach,
  first, next,
}
use ready_jlmirror.Noc.Stream.Bounds.{Bounded, Reach-Bounded}
use ready_jlmirror.Noc.View.{Inputs, alerts_body, alerts_body-polled}

abbrev failed_once : Noc
failed_once = (update (failed 7) (mounted.0)).0

failed_once-Reach : Reach failed_once
unfolding Enabled mounted connect start
failed_once-Reach = next (failed 7) first (refl, omega arith)

Reach-Bounded_example : Bounded failed_once
Reach-Bounded_example = Reach-Bounded failed_once failed_once-Reach

abbrev disk : RawAlert
disk = record {
  alert_id = "a-1";
  source_kind = "zabbix";
  monitoring_source_id = "src-1";
  monitoring_resource_id = "host-7";
  evidence = none;
  opened_at = none;
}

abbrev inputs : Inputs
inputs = record {
  maintenance = record { result = none; is_loading = false; is_error = false; is_fetching = false };
  local = λ t. t;
  upper = λ t. t;
}

abbrev broken : Noc
broken = (update alerts_failed failed_once).0

broken-live : broken.cancelled ≡ false
unfolding update live mounted connect start
broken-live = refl

broken-error : broken.error ≡ true
unfolding update live mounted connect start
broken-error = refl

alerts_body-polled_example :
    alerts_body inputs ((update (alerts_polled (disk ∷ [])) broken).0)
    ≡ text "Falha ao carregar alertas." ∷ []
alerts_body-polled_example = alerts_body-polled inputs broken (disk ∷ []) broken-live broken-error
