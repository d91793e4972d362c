-- ===== src/Platform/Branding.antt =====
-- PlatformPage.tsx, `BrandingCard`.
use ready_jlmirror.Common.{
  String, Bool, true, false, not, List, [], ◌∷◌, ◌++◌, Option, none, some, ◌or_else◌, if◌then◌else◌,
  truthy, truthy?, trim,
}
use ready_jlmirror.Client.{Failure}
use ready_jlmirror.Ui.{
  Effect, request, put, invalidate, Value, str, null, Variant, Query, Element, text, badge, spinner,
  button, input, when,
}

-- `BrandingCfg`
pub record Branding : Type 0 where
  pub configured : Bool
  pub brand_name : Option String
  pub brand_color : Option String
  pub logo_url : Option String

-- The `useState` values.
pub record Card : Type 0 where
  pub editing : Bool
  pub name : String
  pub color : String
  pub logo_url : String
  pub err : Option String

abbrev pub start : Card
start = record { editing = false; name = ""; color = "#6366f1"; logo_url = ""; err = none }

pub data Message : Type 0 where
  start_edit cancel save saved : Message
  set_name set_color set_logo : String → Message
  failed : Failure → Message

-- A field of what is configured, or else a text.
field_or : Option Branding → (Branding → Option String) → String → String
field_or none f t = t
field_or (some cfg) f t = f cfg or_else t

-- `text || null`
text_or_null : String → Value
text_or_null t = if truthy t then str t else null

unfoldable pub update : String → Option Branding → Message → Card → Card × List Effect
unfolding field_or text_or_null
update tenant cfg start_edit c = (
  record {
    editing = true;
    name = field_or cfg (λ b. b.brand_name) "";
    color = field_or cfg (λ b. b.brand_color) "#6366f1";
    logo_url = field_or cfg (λ b. b.logo_url) "";
    err = none;
  },
  [],
)
update tenant cfg cancel c = (record c { editing = false }, [])
update tenant cfg save c = (
  record c { err = none },
  request put "/api/v1/platform/branding" (
        some (
          ("brand_name", text_or_null (trim c.name))
          ∷ ("brand_color", text_or_null c.color)
          ∷ ("logo_url", text_or_null (trim c.logo_url))
          ∷ []))
      ∷ [],
)
update tenant cfg saved c =
    (record c { editing = false }, invalidate ("branding" ∷ tenant ∷ []) ∷ [])
update tenant cfg (set_name t) c = (record c { name = t }, [])
update tenant cfg (set_color t) c = (record c { color = t }, [])
update tenant cfg (set_logo t) c = (record c { logo_url = t }, [])
update tenant cfg (failed e) c = (record c { err = some (e.message or_else "Save failed.") }, [])

abbrev View : Type 0
View = List (Element Message)

is_configured : Option Branding → Bool
is_configured none = false
is_configured (some cfg) = cfg.configured

line : String → String → View
line label value = when (truthy value) (text label ∷ text value ∷ [])

shown_view : Option Branding → View
unfolding is_configured field_or line
shown_view cfg =
    (if is_configured cfg
      then line "Name" (field_or cfg (λ b. b.brand_name) "")
        ++ line "Color" (field_or cfg (λ b. b.brand_color) "")
        ++ line "Logo" (field_or cfg (λ b. b.logo_url) "")
      else text "Not configured. Set a brand name, color, and logo for white-label deployments."
        ∷ [])
    ++ button (if is_configured cfg then "Edit" else "Configure") true start_edit ∷ []

form_view : Bool → Card → View
form_view is_pending c =
    input "Platform name" c.name set_name
      ∷ input "Brand color (hex)" c.color set_color
      ∷ input "" c.color set_color
      ∷ input "Logo URL (optional)" c.logo_url set_logo
      ∷ when (truthy? c.err) (text (c.err or_else "") ∷ [])
    ++ when is_pending (spinner ∷ [])
    ++ button "Save" (not is_pending) save ∷ button "Cancel" true cancel ∷ []

unfoldable pub card_view : Query Branding → Bool → Card → View
unfolding shown_view form_view
card_view q is_pending c =
    text "White-label Branding"
      ∷ when (is_configured q.result) (badge Variant.success "configured" ∷ [])
    ++ (if q.is_loading
        then spinner ∷ []
        else if not c.editing
        then shown_view q.result
        else form_view is_pending c)
