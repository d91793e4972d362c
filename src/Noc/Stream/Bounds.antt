-- ===== src/Noc/Stream/Bounds.antt =====
-- The delays after which the stream of events is opened again.
use ready_jlmirror.Common.{ℕ, ◌*◌, ◌+◌, ◌≤◌, Option, none, some, arith, inl, inr, Bool-cases}
use ready_jlmirror.Noc.Stream.{
  Noc, Message, loaded, load_failed, opened, snapshot, failed, alerts_polled, alerts_failed,
  sources_polled, sources_failed, retried, unmounted, tenant_changed, parts, jittered, connect,
  live, update_lem, Enabled, Reach, first, next, mounted, start,
}
use native.Mathlib.Nat.{mul-le-mul_right}

-- At least four seconds, and at most seventy-two.
abbrev pub Waits : Option ℕ → Type 0
Waits none = Unit
Waits (some n) = (40000 * parts ≤ n) × (n ≤ 720000 * parts)

-- The base of the delay is between five seconds and sixty.
abbrev pub Bounded : Noc → Type 0
Bounded s = (5000 ≤ s.retry_delay) × (s.retry_delay ≤ 60000) × Waits s.retry

jittered-Waits :
    (d random : ℕ) → 5000 ≤ d → d ≤ 60000 → random ≤ parts → Waits (some (jittered d random))
unfolding jittered
jittered-Waits d random h k r =
    let low = mul-le-mul_right (8 * parts + 4 * random) h in
    let high = mul-le-mul_right (8 * parts + 4 * random) k in
    (omega (arith, low), omega (arith, high, r))

connect-Bounded : (s : Noc) → Bounded s → Bounded ((connect s).0)
unfolding connect
connect-Bounded s h = elim (Bool-cases s.cancelled) [ inl e ↦ rw e h | inr e ↦ rw e h ]

live-Bounded : (m : Message) (s : Noc) → Enabled m s → Bounded s → Bounded ((live m s).0)
unfolding live Enabled
live-Bounded (loaded as' ss) s e h = h
live-Bounded load_failed s e h = h
live-Bounded opened s e (low, high, w) = (omega arith, omega arith, w)
live-Bounded (snapshot none) s e h = h
live-Bounded (snapshot (some (as', ss))) s e h = h
live-Bounded (failed random) s e (low, high, w) =
    (omega (arith, low), omega (arith, high), jittered-Waits s.retry_delay random low high e.1)
live-Bounded (alerts_polled as') s e h = h
live-Bounded alerts_failed s e h = h
live-Bounded (sources_polled ss) s e h = h
live-Bounded sources_failed s e h = h
live-Bounded retried s e h = connect-Bounded _ (h.0, h.1, tt)
live-Bounded unmounted s e h = (h.0, h.1, tt)
live-Bounded tenant_changed s e h = connect-Bounded _ (h.0, h.1, tt)

-- In every state that the dashboard comes to, the base of the delay is between five and sixty
-- seconds, and a timer that is set waits at least four seconds and at most seventy-two.
pub Reach-Bounded : (s : Noc) → Reach s → Bounded s
unfolding mounted connect start
Reach-Bounded s first = (omega arith, omega arith, tt)
Reach-Bounded s (next {s = t} m r e) =
    let h = Reach-Bounded t r in update_lem Bounded m t h (λ _. live-Bounded m t e h)
