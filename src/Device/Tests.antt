-- ===== src/Device/Tests.antt =====
-- The metrics of a network interface, by the names that they have in the templates of Zabbix.
use ready_jlmirror.Device.Layout.{Message, toggle_metric, change_period, save, start, update}
use ready_jlmirror.Device.Layout.Kept.{run, save_shown, run-saves}
use ready_jlmirror.Common.{◌⊎◌, inr, true, false, List, [], ◌∷◌, none, some, ◌≡◌, refl}
use ready_jlmirror.Session.{includes}
use ready_jlmirror.Ui.{nat}
use ready_jlmirror.Device.{Numbers, MetricState, number, is_numeric}
use ready_jlmirror.Device.Names.{is_cpu, is_mem, is_disk, is_net_in, is_net_out, found, matches}
use ready_jlmirror.Device.Metrics.{
  headlines, headline, grid_metrics, overview_shown, ids, cards, Unpaired, lone_net,
}

-- The name of the incoming traffic is not found.
received_unknown : is_net_in "interface eth0: bits received" ≡ false
unfolding is_net_in found matches
received_unknown = refl

sent_known : is_net_out "interface eth0: bits sent" ≡ true
unfolding is_net_out found matches
sent_known = refl

abbrev numbers : Numbers
numbers = record {
  at_least = λ k n. false;
  ratio = λ k d n. "";
  rounded = λ n. "";
  rounded_plain = λ n. "";
  plain = λ n. "";
  is_nan = λ n. false;
  is_zero = λ n. false;
  shortened = λ s. s;
}

abbrev sent : MetricState
sent = record {
  metric_definition_id = "m-2";
  observed_at = none;
  value_kind = "integer";
  value = number (nat 7);
  name = "interface eth0: bits sent";
  unit = some "bps";
}

abbrev received : MetricState
received = record sent { metric_definition_id = "m-1"; name = "interface eth0: bits received" }

abbrev metrics : List MetricState
metrics = received ∷ sent ∷ []

unpaired : Unpaired (headlines (λ t. t) metrics) sent
unfolding headlines headline is_numeric is_net_in is_net_out found matches
unpaired = inr (refl, refl)

no_cards : includes "m-2" (ids (cards (headlines (λ t. t) metrics))) ≡ false
unfolding headlines headline is_numeric is_cpu is_mem is_disk found matches cards
no_cards = refl

lone_net_example :
    (includes "m-2" (ids (overview_shown (headlines (λ t. t) metrics))) ≡ false)
    × (includes "m-2" (ids (grid_metrics numbers (λ t. t) true metrics)) ≡ false)
lone_net_example = lone_net numbers (λ t. t) true metrics sent unpaired refl no_cards

-- A metric is opened and the period changed, before the timer runs out.
abbrev events : List Message
events = toggle_metric "m-1" ∷ change_period "1h" ∷ []

run-saves_example :
    ((update (λ t. t) "src-1" "r-1" save (run (λ t. t) "src-1" "r-1" events start)).1 ≡ [])
    ⊎ ((update (λ t. t) "src-1" "r-1" save (run (λ t. t) "src-1" "r-1" events start)).1
        ≡ save_shown (λ t. t) "r-1" (run (λ t. t) "src-1" "r-1" events start))
run-saves_example = run-saves (λ t. t) "src-1" "r-1" events start (tt, (tt, tt)) refl
