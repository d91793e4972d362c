-- ===== src/Session.antt =====
-- frontend/src/api/types.ts (the session), frontend/src/hooks, and the colour that the branding
-- hook sets. What `useQuery` reports of the session is an argument.
use ready_jlmirror.Common.{
  String, Bool, List, [], Option, none, some, ◌==◌, ◌&&◌, ◌or_else◌, truthy?, if◌then◌else◌, any,
}
use ready_jlmirror.Ui.{Query}

pub data SessionState : Type 0 where
  unauthenticated forbidden needs_tenant ready unavailable : SessionState

pub record Tenant : Type 0 where
  pub tenant_id : String
  pub display_name : Option String
  pub role : Option String

pub record Session : Type 0 where
  pub state : SessionState
  pub principal_id : Option String
  pub tenant_id : Option String
  pub display_name : Option String
  pub email : Option String
  pub permissions : Option (List String)
  pub memberships : Option (List Tenant)
  pub environment : Option String

-- `perms.includes(p)`
abbrev pub includes : String → List String → Bool
includes p perms = any (λ q. q == p) perms

-- The permissions of a session that may be absent, none if the field is.
abbrev pub permissions_of : Option Session → List String
permissions_of none = []
permissions_of (some s) = s.permissions or_else []

unfoldable pub use_permission : Query Session → String → Bool
use_permission session p = includes p (permissions_of session.result)

unfoldable pub use_can_operate : Query Session → Bool
unfolding use_permission
use_can_operate session = use_permission session "monitoring:operate"

unfoldable pub use_can_admin : Query Session → Bool
unfolding use_permission
use_can_admin session = use_permission session "tenant:admin"

pub record Branding : Type 0 where
  pub configured : Bool
  pub brand_name : Option String
  pub brand_color : Option String
  pub logo_url : Option String

-- The value of the property `--brand` that the hook sets on the document, or none where it
-- removes the property.
unfoldable pub brand_property : Option Branding → Option String
brand_property none = none
brand_property (some b) = if b.configured && truthy? b.brand_color then b.brand_color else none
