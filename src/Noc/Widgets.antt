-- ===== src/Noc/Widgets.antt =====
-- NOCDashboard.tsx: which parts of the dashboard are shown, and where that is stored.
use ready_jlmirror.Common.{
  String, Bool, true, false, not, List, [], ◌∷◌, Option, none, some, ◌==◌, ◌<>◌, ◌or_else◌,
  if◌then◌else◌, truthy,
}

-- `WidgetKey`
pub data WidgetKey : Type 0 where
  stats alerts sources : WidgetKey

-- What `DEFAULT_WIDGETS` has the type of.
pub record Widgets : Type 0 where
  pub shows_stats : Bool
  pub shows_alerts : Bool
  pub shows_sources : Bool

abbrev pub default_widgets : Widgets
default_widgets = record { shows_stats = true; shows_alerts = true; shows_sources = true }

-- The fields that a stored object has, those that it lacks being absent.
pub record Stored : Type 0 where
  pub stats? : Option Bool
  pub alerts? : Option Bool
  pub sources? : Option Bool

merged : Option Stored → Widgets
merged none = default_widgets
merged (some o) = record {
  shows_stats = o.stats? or_else true;
  shows_alerts = o.alerts? or_else true;
  shows_sources = o.sources? or_else true;
}

-- `loadWidgets` of what is stored, if anything; `parse` is `JSON.parse`, absent where it throws.
pub load_widgets : (String → Option Stored) → Option String → Widgets
unfolding merged
load_widgets parse none = default_widgets
load_widgets parse (some raw) = if truthy raw then merged (parse raw) else default_widgets

-- The `useState` values beside the stream's.
pub record Page : Type 0 where
  pub widgets : Widgets
  pub show_customize : Bool

pub data Message : Type 0 where
  toggle_widget : WidgetKey → Message
  toggle_customize close_customize : Message
  -- a press of the mouse, inside the menu or outside of it, and a key
  mouse_down : Bool → Message
  key_down : String → Message
  open_alert : String → Message
  open_monitoring : Message

pub data Effect : Type 0 where
  store_widgets : String → Widgets → Effect
  navigate : String → Effect

pub shows : WidgetKey → Widgets → Bool
shows stats w = w.shows_stats
shows alerts w = w.shows_alerts
shows sources w = w.shows_sources

-- `{ ...prev, [key]: !prev[key] }`
pub toggled : WidgetKey → Widgets → Widgets
toggled stats w = record w { shows_stats = not w.shows_stats }
toggled alerts w = record w { shows_alerts = not w.shows_alerts }
toggled sources w = record w { shows_sources = not w.shows_sources }

-- The listeners on the document are there while the menu is.
pub update : String → Message → Page → Page × List Effect
unfolding toggled
update tenant (toggle_widget key) s =
    let next = toggled key s.widgets in
    (record s { widgets = next }, store_widgets ("jlm_noc_widgets_" <> tenant) next ∷ [])
update tenant toggle_customize s = (record s { show_customize = not s.show_customize }, [])
update tenant close_customize s = (record s { show_customize = false }, [])
update tenant (mouse_down inside) s =
    (if inside then s else record s { show_customize = false }, [])
update tenant (key_down key) s =
    (if key == "Escape" then record s { show_customize = false } else s, [])
update tenant (open_alert id) s = (s, navigate ("/alerts?highlight=" <> id) ∷ [])
update tenant open_monitoring s = (s, navigate "/monitoring" ∷ [])
