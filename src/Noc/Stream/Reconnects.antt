-- ===== src/Noc/Stream/Reconnects.antt =====
-- The stream of events is open, or about to be opened again.
use ready_jlmirror.Common.{
  ℕ, ◌≤◌, Bool, true, false, Option, none, some, ◌≡◌, refl, List, [], ◌∷◌, length, is_some, not,
}
use ready_jlmirror.Noc.Stream.{
  Noc, Message, loaded, load_failed, opened, snapshot, failed, alerts_polled, alerts_failed,
  sources_polled, sources_failed, retried, unmounted, tenant_changed, connect, live, update,
  update_lem, Enabled, Reach, first, next, mounted, start,
}

-- Exactly one of an open stream and a timer, and neither once the dashboard is removed.
abbrev pub KeptAt : (cancelled is_open : Bool) (retry : Option ℕ) → Type 0
KeptAt true is_open retry = (is_open ≡ false) × (retry ≡ none)
KeptAt false is_open retry = is_some retry ≡ not is_open

abbrev pub Kept : Noc → Type 0
Kept s = KeptAt s.cancelled s.is_open s.retry

live-Kept :
    (m : Message) (s : Noc) → s.cancelled ≡ false → Enabled m s → Kept s → Kept ((live m s).0)
unfolding live Enabled connect
live-Kept (loaded as' ss) s c e h = h
live-Kept load_failed s c e h = h
live-Kept opened s c e h = h
live-Kept (snapshot none) s c e h = h
live-Kept (snapshot (some (as', ss))) s c e h = h
live-Kept (failed random) s c e h = rw c refl
live-Kept (alerts_polled as') s c e h = h
live-Kept alerts_failed s c e h = h
live-Kept (sources_polled ss) s c e h = h
live-Kept sources_failed s c e h = h
live-Kept retried s c e h = rw c refl
live-Kept unmounted s c e h = (refl, refl)
live-Kept tenant_changed s c e h = rw c refl

-- In every state that the dashboard comes to, exactly one of an open stream and a timer that will
-- open one is there, and neither once the dashboard is removed.
pub Reach-Kept : (s : Noc) → Reach s → Kept s
unfolding mounted connect start
Reach-Kept s first = refl
Reach-Kept s (next {s = t} m r e) =
    let h = Reach-Kept t r in update_lem Kept m t h (λ c. live-Kept m t c e h)

-- The state after messages that come in turn, and that each of them can come.
unfoldable pub run : List Message → Noc → Noc
run [] s = s
run (m ∷ ms) s = run ms ((update m s).0)

abbrev pub Runs : List Message → Noc → Type 0
Runs [] s = Unit
Runs (m ∷ ms) s = Enabled m s × Runs ms ((update m s).0)

Connects : Noc → Type 0
Connects s = (ms : List Message) × (length ms ≤ 2) × Runs ms s × ((run ms s).connected ≡ true)
