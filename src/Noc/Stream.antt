-- ===== src/Noc/Stream.antt =====
-- NOCDashboard.tsx: the effect that keeps the stream of events open.
--
-- A failure comes with the value of `Math.random()`, counted in parts of 2 ^ -53, and the delay is
-- counted in parts of 2 ^ -53 of a tenth of a millisecond. That value is less than 1, but the code
-- computes with floating point numbers, whose rounding makes the delay of the greatest values that
-- of 1 (72000 ms for a base of 60000 ms); so 1 is allowed here, and the rounding elsewhere is left
-- out. So is the clearing of a timer that has run out, which does nothing.
pub mod Bounds
pub mod Reconnects
use ready_jlmirror.Common.{
  ℕ, ◌+◌, ◌*◌, ◌≤◌, ◌≡◌, min, String, Bool, true, false, List, [], ◌∷◌, ◌++◌, Option, none, some,
  if◌then◌else◌, refl, arith,
}
use ready_jlmirror.Noc.{RawAlert, RawSource}

-- The `useState` values and the `useRef` values of the stream. `is_open` says whether `esRef` holds
-- a stream that nobody closed, `retry` is the delay of the timer that `setTimeout` started, and
-- `cancelled` is the variable of the effect.
pub record Noc : Type 0 where
  pub alerts : List RawAlert
  pub sources : List RawSource
  pub connected : Bool
  pub loading : Bool
  pub error : Bool
  pub is_open : Bool
  pub retry : Option ℕ
  pub retry_delay : ℕ
  pub cancelled : Bool

pub data Message : Type 0 where
  -- the answers of the two requests that are sent when the dashboard is mounted
  loaded : List RawAlert → List RawSource → Message
  load_failed : Message
  -- `onopen`, `onmessage` with what the event's text is read as, and `onerror`
  opened : Message
  snapshot : Option (List RawAlert × List RawSource) → Message
  failed : ℕ → Message
  -- the answers of the requests that a failure sends
  alerts_polled : List RawAlert → Message
  alerts_failed : Message
  sources_polled : List RawSource → Message
  sources_failed : Message
  -- the timer runs out; the dashboard is removed; it is shown for another tenant, so that the effect
  -- is cleaned up and run again
  retried unmounted tenant_changed : Message

pub data Effect : Type 0 where
  fetch : String → Effect
  open_stream : String → Effect
  close_stream clear_timer : Effect
  set_timer : ℕ → Effect

abbrev alerts_path : String
alerts_path = "/api/v1/alerting/alerts?lifecycle_state=active&limit=50"

abbrev sources_path : String
sources_path = "/api/v1/monitoring/sources"

-- 2 ^ 53
abbrev pub parts : ℕ
parts = 9007199254740992

-- `retryDelayRef.current * (0.8 + Math.random() * 0.4)`
unfoldable pub jittered : ℕ → ℕ → ℕ
jittered delay random = delay * (8 * parts + 4 * random)

-- `connect`, which `cancelled` stops.
unfoldable pub connect : Noc → Noc × List Effect
connect s =
    if s.cancelled
    then (s, [])
    else (record s { is_open = true }, open_stream "/api/v1/noc/stream" ∷ [])

-- The states before the effect, and after it has run: `connect` comes after the two requests.
unfoldable pub start : Noc
start = record {
  alerts = [];
  sources = [];
  connected = false;
  loading = true;
  error = false;
  is_open = false;
  retry = none;
  retry_delay = 5000;
  cancelled = false;
}

unfoldable pub mounted : Noc × List Effect
unfolding connect start
mounted = ((connect start).0, fetch alerts_path ∷ fetch sources_path ∷ (connect start).1)

timers : Option ℕ → List Effect
timers none = []
timers (some n) = clear_timer ∷ []

streams : Bool → List Effect
streams true = close_stream ∷ []
streams false = []

-- The callbacks while `cancelled` is false.
unfoldable pub live : Message → Noc → Noc × List Effect
unfolding jittered connect timers streams
live (loaded as' ss) s = (record s { alerts = as'; sources = ss; loading = false }, [])
live load_failed s = (record s { loading = false }, [])
live opened s = (record s { connected = true; error = false; retry_delay = 5000 }, [])
live (snapshot none) s = (s, [])
live (snapshot (some (as', ss))) s =
    (record s { alerts = as'; sources = ss; loading = false; error = false }, [])
live (failed random) s = (
  record s {
    is_open = false;
    connected = false;
    retry_delay = min (s.retry_delay * 2) 60000;
    retry = some (jittered s.retry_delay random);
  },
  close_stream
      ∷ fetch alerts_path
      ∷ fetch sources_path
      ∷ set_timer (jittered s.retry_delay random)
      ∷ [],
)
live (alerts_polled as') s = (record s { alerts = as'; loading = false }, [])
live alerts_failed s = (record s { error = true }, [])
live (sources_polled ss) s = (record s { sources = ss }, [])
live sources_failed s = (s, [])
live retried s = connect (record s { retry = none })
live unmounted s = (
  record s { cancelled = true; is_open = false; retry = none },
  streams s.is_open ++ timers s.retry,
)
live tenant_changed s =
    let (t, effects) = connect (record s { is_open = false; retry = none }) in
    (t, streams s.is_open ++ timers s.retry ++ fetch alerts_path ∷ fetch sources_path ∷ effects)

-- Every callback does nothing once `cancelled` is true, but that a stream which opens is closed.
stopped : Message → Noc → Noc × List Effect
stopped opened s = (s, close_stream ∷ [])
stopped _ s = (s, [])

unfoldable pub update : Message → Noc → Noc × List Effect
unfolding live stopped
update m s = if s.cancelled then stopped m s else live m s

-- What the browser can call: an open stream's callbacks, a timer that was set, and the answers of
-- requests at any time.
unfoldable pub Enabled : Message → Noc → Type 0
Enabled opened s = s.is_open ≡ true
Enabled (snapshot e) s = s.is_open ≡ true
Enabled (failed random) s = (s.is_open ≡ true) × (random ≤ parts)
Enabled retried s = (n : ℕ) × (s.retry ≡ some n)
Enabled _ s = Unit

-- The states that the dashboard can come to.
pub data Reach : Noc → Type 0 where
  first : Reach (mounted.0)
  next : {s : Noc} (m : Message) → Reach s → Enabled m s → Reach ((update m s).0)

-- Both branches of `update`.
pub update_lem :
    (P : Noc → Type 0) (m : Message) (s : Noc)
    → P s
    → (s.cancelled ≡ false → P ((live m s).0))
    → P ((update m s).0)
unfolding update stopped
update_lem P m s h k = branch s.cancelled k
  where
    same : (m : Message) → (stopped m s).0 ≡ s
    same m = ground arith

    branch :
        (b : Bool) → (b ≡ false → P ((live m s).0)) → P ((if b then stopped m s else live m s).0)
    branch true k = rw (same m) h
    branch false k = k refl
