-- ===== src/Device/Layout.antt =====
-- DeviceDetail.tsx: the state of the page, which is kept on the service as a layout.
pub mod Kept
use ready_jlmirror.Common.{
  String, Bool, true, List, [], ◌∷◌, Option, none, some, ◌<>◌, ◌or_else◌, if◌then◌else◌, truthy?,
}
use ready_jlmirror.Shell.Frame.{toggled}
use ready_jlmirror.Ui.{
  Effect, request, put, invalidate, timer, leave, str, strs, flag, object, fields_of, Body,
}

-- What is kept; what is absent in a stored layout leaves the state as it is.
pub record Stored : Type 0 where
  pub expanded : Option (List String)
  pub period : Option String
  pub hide_zeros : Option Bool

-- The `useState` values, and the layout that the timer will save, if one is set. The time of the
-- last reading is what `new Date()` gives, as its text.
pub record Layout : Type 0 where
  pub period : String
  pub expanded : List String
  pub hide_zeros : Bool
  pub last_refreshed : Option String
  pub saving : Option Body

abbrev pub start : Layout
start = record {
  period = "24h";
  expanded = [];
  hide_zeros = true;
  last_refreshed = none;
  saving = none;
}

pub data Message : Type 0 where
  back : Message
  -- the answer with the layout, if it has one
  restored : Option Stored → Message
  toggle_metric change_period : String → Message
  change_hide_zeros : Bool → Message
  -- the timer runs out
  save : Message
  refresh : Message
  -- a reading that succeeded, or the end of a refresh, at a time
  refreshed : String → Message

-- `payload`
unfoldable pub payload : List String → String → Bool → Body
payload expanded period hide_zeros =
    ("expanded", strs expanded) ∷ ("period", str period) ∷ ("hideZeros", flag hide_zeros) ∷ []

-- The fields of a stored layout; a period that is the empty text is none.
restore : Stored → Layout → Layout
restore l s = record s {
  expanded = l.expanded or_else s.expanded;
  period = if truthy? l.period then l.period or_else "" else s.period;
  hide_zeros = l.hide_zeros or_else s.hide_zeros;
}

-- `saveLayout`: the timer that is set takes the place of the one before.
save_later : Layout → Layout × List Effect
unfolding payload
save_later s =
    (record s { saving = some (payload s.expanded s.period s.hide_zeros) }, timer 800 ∷ [])

saved : (String → String) → String → Option Body → List Effect
saved encode resource none = []
saved encode resource (some layout) =
    request put ("/api/v1/layout?view_type=device_panel&view_key=" <> encode resource)
      (some (("layout", object (fields_of layout)) ∷ []))
    ∷ []

-- `encode` is `encodeURIComponent`.
unfoldable pub update :
    (String → String) → String → String → Message → Layout → Layout × List Effect
unfolding restore save_later saved
update encode source resource back s = (s, leave ∷ [])
update encode source resource (restored none) s = (s, [])
update encode source resource (restored (some l)) s = (restore l s, [])
update encode source resource (toggle_metric id) s =
    save_later (record s { expanded = toggled id s.expanded })
update encode source resource (change_period k) s = save_later (record s { period = k })
update encode source resource (change_hide_zeros b) s = save_later (record s { hide_zeros = b })
update encode source resource save s = (record s { saving = none }, saved encode resource s.saving)
update encode source resource refresh s = (
  s,
  invalidate ("resource-current" ∷ source ∷ resource ∷ [])
      ∷ invalidate ("resource-problems" ∷ source ∷ resource ∷ [])
      ∷ [],
)
update encode source resource (refreshed now) s = (record s { last_refreshed = some now }, [])
