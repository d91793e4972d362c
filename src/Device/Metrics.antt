-- ===== src/Device/Metrics.antt =====
-- DeviceDetail.tsx: the metrics of the overview, and those of the grid below it.
use mathlib.Core.List.{append-nil}
use ready_jlmirror.Common.{
  ◌⊎◌, String, Bool, true, false, not, List, [], ◌∷◌, ◌++◌, Option, none, some, ◌==◌, ◌&&◌, ◌||◌,
  ◌≡◌, refl, if◌then◌else◌, is_some, filter, find?, map, Bool-cases, inl, inr, eq_refl, eq_iff,
  truthy,
}
use ready_jlmirror.Session.{includes}
use ready_jlmirror.Device.{Numbers, MetricState, is_numeric, is_zero_value}
use ready_jlmirror.Device.Names.{is_cpu, is_mem, is_disk, is_net_in, is_net_out}

-- The metrics that the overview is made of.
pub record Headlines : Type 0 where
  pub cpu : Option MetricState
  pub mem : Option MetricState
  pub disk : Option MetricState
  pub net_in : Option MetricState
  pub net_out : Option MetricState

-- `numericMetrics.find(...)`; `lower` is the name in small letters.
unfoldable pub headline :
    (String → String) → (String → Bool) → List MetricState → Option MetricState
headline lower test metrics = find? (λ m. test (lower m.name)) (filter is_numeric metrics)

unfoldable pub headlines : (String → String) → List MetricState → Headlines
unfolding headline
headlines lower metrics = record {
  cpu = headline lower is_cpu metrics;
  mem = headline lower is_mem metrics;
  disk = headline lower is_disk metrics;
  net_in = headline lower is_net_in metrics;
  net_out = headline lower is_net_out metrics;
}

unfoldable pub has_overview : Headlines → Bool
has_overview h =
    is_some h.cpu || is_some h.mem || is_some h.disk || (is_some h.net_in && is_some h.net_out)

-- The identity of a metric that is there and has one.
id_of : Option MetricState → List String
id_of none = []
id_of (some m) = if truthy m.metric_definition_id then m.metric_definition_id ∷ [] else []

-- `overviewIds`
unfoldable pub overview_ids : Headlines → List String
unfolding id_of
overview_ids h = id_of h.cpu ++ id_of h.mem ++ id_of h.disk ++ id_of h.net_in ++ id_of h.net_out

-- `metrics`
unfoldable pub visible : Numbers → Bool → List MetricState → List MetricState
visible b hide_zeros metrics =
    if hide_zeros then filter (λ m. not (is_zero_value b m)) metrics else metrics

-- `gridMetrics`
unfoldable pub grid_metrics :
    Numbers → (String → String) → Bool → List MetricState → List MetricState
unfolding visible
grid_metrics b lower hide_zeros metrics =
    filter (λ m. not (includes m.metric_definition_id (overview_ids (headlines lower metrics))))
      (visible b hide_zeros metrics)

-- The two metrics of the chart of the network, which is there only with both.
net_shown : Option MetricState → Option MetricState → List MetricState
net_shown (some m) (some n) = m ∷ n ∷ []
net_shown _ _ = []

shown : Option MetricState → List MetricState
shown none = []
shown (some m) = m ∷ []

-- The metrics that the cards of the overview show.
unfoldable pub overview_shown : Headlines → List MetricState
unfolding net_shown shown
overview_shown h = shown h.cpu ++ shown h.mem ++ shown h.disk ++ net_shown h.net_in h.net_out

-- The identities that the page shows.
abbrev pub ids : List MetricState → List String
ids metrics = map (λ m. m.metric_definition_id) metrics

-- A metric of the overview is not in the grid.
not_kept :
    (listed : List String) (id : String) (metrics : List MetricState)
    → includes id listed ≡ true
    → includes id (ids (filter (λ m. not (includes m.metric_definition_id listed)) metrics)) ≡ false
not_kept listed id [] h = refl
not_kept listed id (m ∷ metrics) h = elim (Bool-cases (includes m.metric_definition_id listed)) [
  | inl e ↦ rw e (not_kept listed id metrics h)
  | inr e ↦ rw (e, differs e, not_kept listed id metrics h) refl
]
  where
    differs :
        includes m.metric_definition_id listed ≡ false → (m.metric_definition_id == id) ≡ false
    differs e = elim (Bool-cases (m.metric_definition_id == id)) [
      | inl same ↦ absurd (clash ((eq_iff m.metric_definition_id id).0 same) e)
      | inr other ↦ other
    ]
      where
        clash : m.metric_definition_id ≡ id → includes m.metric_definition_id listed ≡ false → ⊥
        clash p q = cc

includes_right :
    (x : String) (xs ys : List String) → includes x ys ≡ true → includes x (xs ++ ys) ≡ true
includes_right x [] ys h = h
includes_right x (y ∷ xs) ys h = elim (Bool-cases (y == x)) [
  | inl e ↦ rw e refl
  | inr e ↦ rw e (includes_right x xs ys h)
]

-- The metrics of the cards other than the network's.
unfoldable pub cards : Headlines → List MetricState
unfolding shown
cards h = shown h.cpu ++ shown h.mem ++ shown h.disk

-- The metric is the incoming or the outgoing traffic, and the other is not found.
abbrev pub Unpaired : Headlines → MetricState → Type 0
Unpaired h m =
    ((h.net_in ≡ some m) × (h.net_out ≡ none)) ⊎ ((h.net_in ≡ none) × (h.net_out ≡ some m))

listed :
    (h : Headlines) (m : MetricState)
    → Unpaired h m
    → truthy m.metric_definition_id ≡ true
    → includes m.metric_definition_id (overview_ids h) ≡ true
unfolding overview_ids id_of
listed h m (inl (a, b)) t =
    rw (b, append-nil (id_of h.cpu ++ id_of h.mem ++ id_of h.disk ++ id_of h.net_in))
      (includes_right m.metric_definition_id (id_of h.cpu ++ id_of h.mem ++ id_of h.disk)
        (id_of h.net_in) (rw (a, t, eq_refl m.metric_definition_id) refl))
listed h m (inr (a, b)) t =
    includes_right m.metric_definition_id
      (id_of h.cpu ++ id_of h.mem ++ id_of h.disk ++ id_of h.net_in) (id_of h.net_out)
      (rw (b, t, eq_refl m.metric_definition_id) refl)

shown-cards : (h : Headlines) (m : MetricState) → Unpaired h m → overview_shown h ≡ cards h
unfolding overview_shown cards net_shown
shown-cards h m (inl (a, b)) = rw (a, b) (append-nil (cards h))
shown-cards h m (inr (a, b)) = rw a (append-nil (cards h))

-- Where the incoming or the outgoing traffic of a device is found and the other is not, and that
-- metric, which has an identity, is not shown as that of the processor, the memory or the disk, it is
-- neither in the overview nor in the grid, whether or not zeros are hidden.
pub lone_net :
    (b : Numbers) (lower : String → String) (hide_zeros : Bool) (metrics : List MetricState)
    (m : MetricState)
    → Unpaired (headlines lower metrics) m
    → truthy m.metric_definition_id ≡ true
    → includes m.metric_definition_id (ids (cards (headlines lower metrics))) ≡ false
    → (includes m.metric_definition_id (ids (overview_shown (headlines lower metrics))) ≡ false)
      × (includes m.metric_definition_id (ids (grid_metrics b lower hide_zeros metrics)) ≡ false)
unfolding grid_metrics
lone_net b lower hide_zeros metrics m u t other = (
  rw (shown-cards (headlines lower metrics) m u) other,
  not_kept (overview_ids (headlines lower metrics)) m.metric_definition_id
      (visible b hide_zeros metrics) (listed (headlines lower metrics) m u t),
)
