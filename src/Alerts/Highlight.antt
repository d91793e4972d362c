-- ===== src/Alerts/Highlight.antt =====
-- The highlighted alert is opened once.
use ready_jlmirror.Common.{
  String, Bool, true, false, List, [], ◌∷◌, Option, none, some, ◌≡◌, refl, ◌≢◌, eq_refl, eq_iff,
  truthy, arith, All,
}
use ready_jlmirror.Alerts.{
  Alerts, Message, set_filter, show_highlight, auto_open, same_text, update,
}

-- The state after some messages, for one tenant.
pub run : String → Alerts → List Message → Alerts
run tenant s [] = s
run tenant s (m ∷ ms) = run tenant (update tenant m s).0 ms

-- The address highlights the alert h all the time: the effect runs for it alone.
abbrev pub Highlights : String → Message → Type 0
Highlights h (show_highlight o loading) = o ≡ some h
Highlights h _ = Unit

module _ (h : String) where
  -- The effect opens the alert on a list that has been read, unless it did so before.
  opens :
      (s : Alerts)
      → truthy h ≡ true
      → s.auto_opened_for ≢ some h
      → auto_open (some h) false s ≡ record s { auto_opened_for = some h; selected_id = some h }
  unfolding auto_open
  opens s t n = rw (t, differs s.auto_opened_for n)
    where
      differs : (o : Option String) → o ≢ some h → same_text o h ≡ false
      differs none k = unfold same_text in refl
      differs (some o) k = unfold same_text in (ground (arith, eq_iff o h))

  rests :
      (loading : Bool) (s : Alerts) → s.auto_opened_for ≡ some h → auto_open (some h) loading s ≡ s
  unfolding auto_open
  rests loading s o = rw (o, eq_refl h, same_text) (ground arith)

  stays :
      (tenant : String) (m : Message) (s : Alerts)
      → Highlights h m
      → s.auto_opened_for ≡ some h
      → (update tenant m s).0.auto_opened_for ≡ some h
  unfolding update
  stays tenant (show_highlight q loading) s e o = rw e (rw (rests loading s o) o)
  stays tenant (set_filter f) s e o = o
  stays tenant _ s e o = o

  run-stays :
      (tenant : String) (ms : List Message) (s : Alerts)
      → All (Highlights h) ms
      → s.auto_opened_for ≡ some h
      → (run tenant s ms).auto_opened_for ≡ some h
  unfolding run
  run-stays tenant [] s e o = o
  run-stays tenant (m ∷ ms) s (e, es) o =
      run-stays tenant ms (update tenant m s).0 es (stays tenant m s e o)

-- Where the highlighted alert h was not opened yet, the effect opens it once the list is read.
-- From then on, whatever the user does while the address highlights h, the effect changes
-- nothing: after he went back to the list, the list stays.
pub auto_open_once :
    (tenant h : String) (s : Alerts) (ms : List Message) (loading : Bool)
    → truthy h ≡ true
    → s.auto_opened_for ≢ some h
    → All (Highlights h) ms
    → let s' = (update tenant (show_highlight (some h) false) s).0 in
      (s'.selected_id ≡ some h)
      × ((update tenant (show_highlight (some h) loading) (run tenant s' ms)).0 ≡ run tenant s' ms)
unfolding update
auto_open_once tenant h s ms loading t n es = rw (opens h s t n) (
  refl,
  rests h loading _
      (run-stays h tenant ms (record s { auto_opened_for = some h; selected_id = some h }) es refl),
)
