-- ===== src/Users.antt =====
-- frontend/src/pages/UsersAdminPage.tsx: the users of a tenant.
pub mod Invite
pub mod RoleCell
pub mod Page
use ready_jlmirror.Common.{
  String, Bool, true, false, not, List, [], ◌∷◌, Option, none, some, ◌==◌, ◌&&◌, ◌||◌, ◌<>◌,
  if◌then◌else◌, truthy, filter,
}
use ready_jlmirror.Ui.{Variant, warning, muted}

-- `User`
pub record User : Type 0 where
  pub principal_id : String
  pub idp_subject_ref : String
  pub active : Bool
  pub created_at : Option String
  pub role : String
  pub membership_state : String
  pub email : String
  pub first_name : String
  pub last_name : String
  pub kc_enabled : Bool

abbrev pub roles : List String
roles = "admin" ∷ "operator" ∷ "viewer" ∷ "auditor" ∷ []

pub role_variant : String → Variant
role_variant role =
    if (role == "admin") || (role == "tenant_admin")
    then warning
    else if role == "operator"
    then Variant.success
    else muted

-- `fmt`, with the date as the browser writes it.
pub fmt : (String → String) → Option String → String
fmt local none = "—"
fmt local (some iso) = if truthy iso then local iso else "—"

-- `names.join(" ")` of at most two names.
joined : List String → String
joined [] = ""
joined (x ∷ []) = x
joined (x ∷ y ∷ xs) = x <> " " <> joined (y ∷ xs)

pub full_name : User → String
unfolding joined
full_name u =
    let names = joined (filter truthy (u.first_name ∷ u.last_name ∷ [])) in
    if truthy names then names else u.email

is_active : User → Bool
is_active u = u.active && (u.membership_state == "active")

unfoldable pub active_users : List User → List User
unfolding is_active
active_users users = filter is_active users

is_inactive : User → Bool
is_inactive u = not u.active || not (u.membership_state == "active")

unfoldable pub inactive_users : List User → List User
unfolding is_inactive
inactive_users users = filter is_inactive users
