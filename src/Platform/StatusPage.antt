-- ===== src/Platform/StatusPage.antt =====
-- PlatformPage.tsx, `StatusPageCard`.
use ready_jlmirror.Common.{
  String, Bool, true, false, not, List, [], ◌∷◌, ◌++◌, Option, none, some, ◌&&◌, ◌<>◌, ◌or_else◌,
  if◌then◌else◌, truthy, truthy?, trim,
}
use ready_jlmirror.Client.{Failure}
use ready_jlmirror.StatusPublic.{Item}
use ready_jlmirror.Ui.{
  Effect, request, put, invalidate, str, flag, Variant, muted, Query, Element, text, badge, spinner,
  button, input, check, link, when,
}

-- `StatusPageCfg`; its components are those that the public page lists.
pub record StatusPageCfg : Type 0 where
  pub configured : Bool
  pub status_slug : Option String
  pub public_name : Option String
  pub enabled : Option Bool
  pub public_url : Option String
  pub components : Option (List Item)

-- The `useState` values.
pub record Card : Type 0 where
  pub editing : Bool
  pub slug : String
  pub name : String
  pub enabled : Bool
  pub err : Option String

abbrev pub start : Card
start = record { editing = false; slug = ""; name = ""; enabled = true; err = none }

pub data Message : Type 0 where
  start_edit cancel save saved toggle_enabled : Message
  set_slug set_name : String → Message
  failed : Failure → Message

-- A field of what is configured, or else a value.
pub field_or {ℓ} : {A : Type ℓ} → Option StatusPageCfg → (StatusPageCfg → Option A) → A → A
field_or none f a = a
field_or (some cfg) f a = f cfg or_else a

-- `lower` is `toLowerCase`.
unfoldable pub update :
    (String → String) → String → Option StatusPageCfg → Message → Card → Card × List Effect
update lower tenant cfg start_edit c = (
  record {
    editing = true;
    slug = field_or cfg (λ b. b.status_slug) "";
    name = field_or cfg (λ b. b.public_name) "";
    enabled = field_or cfg (λ b. b.enabled) true;
    err = none;
  },
  [],
)
update lower tenant cfg cancel c = (record c { editing = false }, [])
update lower tenant cfg save c = (
  record c { err = none },
  request put "/api/v1/platform/status-page" (
        some (
          ("status_slug", str (trim c.slug))
          ∷ ("public_name", str (trim c.name))
          ∷ ("enabled", flag c.enabled)
          ∷ []))
      ∷ [],
)
update lower tenant cfg saved c =
    (record c { editing = false }, invalidate ("status-page-cfg" ∷ tenant ∷ []) ∷ [])
update lower tenant cfg toggle_enabled c = (record c { enabled = not c.enabled }, [])
update lower tenant cfg (set_slug t) c = (record c { slug = lower t }, [])
update lower tenant cfg (set_name t) c = (record c { name = t }, [])
update lower tenant cfg (failed e) c =
    (record c { err = some (e.detail or_else "Failed to save.") }, [])

abbrev View : Type 0
View = List (Element Message)

pub is_configured : Option StatusPageCfg → Bool
is_configured none = false
is_configured (some cfg) = cfg.configured

enabled_badge : Option StatusPageCfg → View
enabled_badge cfg =
    let is_enabled = field_or cfg (λ b. b.enabled) false in
    when (is_configured cfg) (
      badge (if is_enabled then Variant.success else muted)
        (if is_enabled then "enabled" else "disabled")
      ∷ [])

shown_view : Option StatusPageCfg → View
shown_view cfg =
    let url = field_or cfg (λ b. b.public_url) "" in
    (if is_configured cfg
      then text "URL"
        ∷ link url url
        ∷ text "Name"
        ∷ text (field_or cfg (λ b. b.public_name) "")
        ∷ []
      else text "Not configured. Set up a public URL for customers to check service status." ∷ [])
    ++ button (if is_configured cfg then "Edit" else "Configure") true start_edit ∷ []

form_view : Bool → Card → View
form_view is_pending c =
    input "Slug (URL)" c.slug set_slug ∷ when (truthy c.slug) (text ("/status/" <> c.slug) ∷ [])
    ++ input "Public name" c.name set_name
      ∷ check "Enabled (publicly accessible)" c.enabled toggle_enabled
      ∷ when (truthy? c.err) (text (c.err or_else "") ∷ [])
    ++ when is_pending (spinner ∷ [])
    ++ button "Save" (not is_pending && truthy (trim c.slug) && truthy (trim c.name)) save
      ∷ button "Cancel" true cancel
      ∷ []

unfoldable pub card_view : Query StatusPageCfg → Bool → Card → View
unfolding enabled_badge shown_view form_view
card_view q is_pending c =
    text "Public Status Page" ∷ enabled_badge q.result
    ++ (if q.is_loading
        then spinner ∷ []
        else if not c.editing
        then shown_view q.result
        else form_view is_pending c)
