-- ===== src/Team.antt =====
-- frontend/src/pages/TeamPage.tsx: the members of a tenant and their roles.
pub mod CreateUser
pub mod Members
pub mod Roles
use ready_jlmirror.Common.{
  String, Bool, true, false, List, [], ◌∷◌, Option, ◌==◌, ◌||◌, if◌then◌else◌, eqb, ℕ, show, ◌<>◌,
}
use ready_jlmirror.Ui.{Variant, warning, muted, Element, text, embed}

-- `Member`
pub record Member : Type 0 where
  pub membership_id : String
  pub principal_id : String
  pub role : String
  pub state : String
  pub created_at : String

-- `TenantRole`
pub record TenantRole : Type 0 where
  pub role_name : String
  pub permissions : List String
  pub state : String

-- `ProvisionResult`
pub record ProvisionResult : Type 0 where
  pub principal_id : String
  pub email : String
  pub tenant_id : String
  pub role : String
  pub membership_id : String
  pub temp_password : String
  pub must_change_password : Bool

abbrev pub builtin_roles : List String
builtin_roles = "admin" ∷ "operator" ∷ "viewer" ∷ "auditor" ∷ []

abbrev pub all_permissions : List String
all_permissions =
    "tenant:read" ∷ "tenant:admin" ∷ "monitoring:read" ∷ "monitoring:operate" ∷ "alerting:read"
    ∷ "alerting:operate" ∷ "observability:read" ∷ "audit:read" ∷ []

pub role_variant : String → Variant
role_variant role =
    if (role == "admin") || (role == "tenant_admin")
    then warning
    else if role == "operator"
    then Variant.success
    else muted

-- `n !== 1 ? "s" : ""`
pub counted : ℕ → String → String
counted n word = show n <> " " <> word <> (if eqb n 1 then "" else "s")

-- `TeamPage`
pub page_view : {M : Type 0} → List (Element M)
page_view =
    text "Equipe"
    ∷ text "Escopo do tenant · requer tenant:admin"
    ∷ embed "MembersSection"
    ∷ embed "RolesSection"
    ∷ []
