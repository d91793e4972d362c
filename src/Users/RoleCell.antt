-- ===== src/Users/RoleCell.antt =====
-- UsersAdminPage.tsx, `RoleCell`: the role of a user, changed in place.
use ready_jlmirror.Common.{
  String, Bool, true, false, not, List, [], ◌∷◌, some, ◌<>◌, if◌then◌else◌, map,
}
use ready_jlmirror.Ui.{Effect, request, patch, invalidate, str, Element, badge, row, button, select}
use ready_jlmirror.Users.{User, roles, role_variant}

-- The `useState` values.
pub record Cell : Type 0 where
  pub editing : Bool
  pub role : String

-- The cell as it is mounted.
abbrev pub mounted : User → Cell
mounted u = record { editing = false; role = u.role }

pub data Message : Type 0 where
  edit save cancel saved : Message
  set_role : String → Message

unfoldable pub update : User → Message → Cell → Cell × List Effect
update u edit c = (record c { editing = true }, [])
update u (set_role r) c = (record c { role = r }, [])
update u save c = (
  c,
  request patch ("/api/admin/users/" <> u.principal_id <> "/role")
        (some (("role", str c.role) ∷ []))
      ∷ [],
)
update u cancel c = (record { editing = false; role = u.role }, [])
update u saved c = (record c { editing = false }, invalidate ("admin-users" ∷ []) ∷ [])

-- The badge is a button.
unfoldable pub cell_view : Bool → User → Cell → List (Element Message)
cell_view is_pending u c =
    if not c.editing
    then row edit ∷ badge (role_variant u.role) u.role ∷ []
    else select "" c.role (map (λ r. (r, r)) roles) set_role
      ∷ button "Salvar" (not is_pending) save
      ∷ button "Cancelar" true cancel
      ∷ []
