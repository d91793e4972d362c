-- ===== src/Device/Layout/Kept.antt =====
-- DeviceDetail.tsx: the layout that is saved is the one that the page shows.
use ready_jlmirror.Common.{
  String, Bool, List, [], ◌∷◌, Option, none, some, ◌≡◌, refl, sym, All, ◌<>◌, inl, inr, ◌⊎◌,
}
use ready_jlmirror.Ui.{Body, Effect, request, put, object, fields_of}
use mathlib.Core.Path.{subst}
use ready_jlmirror.Device.Layout.{
  Layout, Message, back, restored, toggle_metric, change_period, change_hide_zeros, save, refresh,
  refreshed, payload, update,
}

-- The layout that waits to be saved, if any, is that of these values.
abbrev pub Pending : Option Body → List String → String → Bool → Type 0
Pending none expanded period hide_zeros = Unit
Pending (some b) expanded period hide_zeros = b ≡ payload expanded period hide_zeros

-- It is the one that the page shows.
abbrev pub Kept : Layout → Type 0
Kept s = Pending s.saving s.expanded s.period s.hide_zeros

-- A message other than the answer that has a stored layout.
abbrev pub IsLocal : Message → Type 0
IsLocal (restored (some l)) = ⊥
IsLocal _ = Unit

-- The state after messages.
unfoldable pub run : (String → String) → String → String → List Message → Layout → Layout
run encode source resource [] s = s
run encode source resource (m ∷ ms) s =
    run encode source resource ms ((update encode source resource m s).0)

module _ (encode : String → String) (source resource : String) where
  kept :
      (m : Message) (s : Layout) → IsLocal m → Kept s → Kept ((update encode source resource m s).0)
  unfolding update
  kept back s l h = h
  kept (restored none) s l h = h
  kept (restored (some x)) s l h = absurd l
  kept (toggle_metric id) s l h = refl
  kept (change_period k) s l h = refl
  kept (change_hide_zeros b) s l h = refl
  kept save s l h = tt
  kept refresh s l h = h
  kept (refreshed now) s l h = h

  run-kept :
      (ms : List Message) (s : Layout)
      → All IsLocal ms
      → Kept s
      → Kept (run encode source resource ms s)
  unfolding run
  run-kept [] s l h = h
  run-kept (m ∷ ms) s (k, l) h =
      run-kept ms ((update encode source resource m s).0) l (kept m s k h)

-- The request that saves the layout that a page shows.
abbrev pub save_shown : (String → String) → String → Layout → List Effect
save_shown encode resource s =
    request put ("/api/v1/layout?view_type=device_panel&view_key=" <> encode resource)
      (some (("layout", object (fields_of (payload s.expanded s.period s.hide_zeros))) ∷ []))
    ∷ []

saved_kept :
    (encode : String → String) (source resource : String) (s : Layout) (waiting : Option Body)
    → s.saving ≡ waiting
    → Pending waiting s.expanded s.period s.hide_zeros
    → ((update encode source resource save s).1 ≡ [])
      ⊎ ((update encode source resource save s).1 ≡ save_shown encode resource s)
unfolding update
saved_kept encode source resource s none e h = inl (rw e refl)
saved_kept encode source resource s (some b) e h = inr (rw (e, h) refl)

-- After any events but the answer with a stored layout, from a state where no layout waits to be
-- saved, the timer that runs out sends nothing or the one request that saves the layout that the page
-- then shows.
pub run-saves :
    (encode : String → String) (source resource : String) (ms : List Message) (s : Layout)
    → All IsLocal ms
    → s.saving ≡ none
    → ((update encode source resource save (run encode source resource ms s)).1 ≡ [])
      ⊎ ((update encode source resource save (run encode source resource ms s)).1
          ≡ save_shown encode resource (run encode source resource ms s))
run-saves encode source resource ms s l e =
    saved_kept encode source resource (run encode source resource ms s)
      ((run encode source resource ms s).saving) refl
      (run-kept encode source resource ms s l
        (subst (λ w. Pending w s.expanded s.period s.hide_zeros) (sym e) tt))
