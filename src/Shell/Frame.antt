-- ===== src/Shell/Frame.antt =====
-- The state of the shell, its screens by the state of the session, and the frame with the menu.
pub mod View
pub mod State
use ready_jlmirror.Common.{
  ℕ, String, Bool, true, false, not, List, [], ◌∷◌, ◌++◌, Option, none, some, ◌==◌, ◌&&◌, ◌<>◌,
  ◌or_else◌, if◌then◌else◌, map, lookup, filter, any, is_some, truthy?, leb,
}
use ready_jlmirror.Ui.{
  Effect, request, post, invalidate, navigate, store, store_texts, log_out, Value, str, Query,
  Element, text, spinner, button, link, embed,
}
use ready_jlmirror.Session.{
  Session, SessionState, Tenant, Branding, includes, unauthenticated, forbidden, needs_tenant,
  ready, unavailable,
}
use ready_jlmirror.Shell.Routes.{Storage, current_view_from_path, go_to, page_of}
use ready_jlmirror.Shell.Menu.{NavItem, NavGroup, nav_groups, current_label}
use ready_jlmirror.Shell.Badges.{Counts, badge_count, badge_text}

-- The `useState` values.
pub record Shell : Type 0 where
  pub collapsed : Bool
  pub collapsed_groups : List String
  pub session_expired : Bool

-- The initial value of `collapsed`, from what is stored.
pub initial_collapsed : Option String → Bool
initial_collapsed none = true
initial_collapsed (some v) = v == "1"

-- The initial value of `collapsedGroups`: `parse` reads the texts of a stored array, or throws.
pub initial_groups : (String → Option (List String)) → Option String → List String
initial_groups parse none = []
initial_groups parse (some stored) = if stored == "" then [] else parse stored or_else []

pub data Message : Type 0 where
  expire : Message
  select_tenant : String → Message
  tenant_selected : Message
  choose_client : String → Message
  open_view : String → Message
  toggle_collapsed : Message
  toggle_group : String → Message
  sign_out : Message

-- A set of texts in the order in which they were added.
abbrev pub toggled : String → List String → List String
toggled x set = if includes x set then filter (λ y. not (y == x)) set else set ++ x ∷ []

-- The handlers, for the tenant of the session.
pub update : Option String → Message → Shell → Shell × List Effect
update tenant expire s = (record s { session_expired = true }, [])
update tenant (select_tenant t) s =
    (s, request post "/api/tenant/select" (some (("tenant_id", str t) ∷ [])) ∷ [])
update tenant tenant_selected s = (s, invalidate ("session" ∷ []) ∷ [])
update tenant (choose_client t) s = (
  s,
  request post "/api/tenant/select" (some (("tenant_id", str t) ∷ [])) ∷ navigate "/" false ∷ [],
)
update tenant (open_view v) s = (s, go_to tenant v)
update tenant toggle_collapsed s =
    let next = not s.collapsed in
    (record s { collapsed = next }, store "jlm_sidebar_collapsed" (if next then "1" else "0") ∷ [])
update tenant (toggle_group label) s =
    let next = toggled label s.collapsed_groups in
    (record s { collapsed_groups = next }, store_texts "jlm_collapsed_groups" next ∷ [])
update tenant sign_out s = (s, log_out ∷ [])

-- Which of its returns the component takes.
pub data Screen : Type 0 where
  loading no_service sign_in denied onboarding choose_workspace frame : Screen

screen_of_state : SessionState → List Tenant → Screen
screen_of_state unavailable ms = no_service
screen_of_state unauthenticated ms = sign_in
screen_of_state forbidden ms = denied
screen_of_state needs_tenant [] = onboarding
screen_of_state needs_tenant (m ∷ ms) = choose_workspace
screen_of_state ready ms = frame

screen_of_session : Option Session → Screen
unfolding screen_of_state
screen_of_session none = no_service
screen_of_session (some s) = screen_of_state s.state (s.memberships or_else [])

pub screen : Query Session → Screen
unfolding screen_of_session
screen q = if q.is_loading then loading else screen_of_session q.result
