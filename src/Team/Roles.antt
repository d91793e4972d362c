-- ===== src/Team/Roles.antt =====
-- TeamPage.tsx, `RolesSection`.
use ready_jlmirror.Common.{
  String, Bool, true, false, not, List, [], ◌∷◌, ◌++◌, Option, none, some, ◌==◌, ◌&&◌, ◌<>◌,
  ◌or_else◌, if◌then◌else◌, truthy, truthy?, trim, eqb, ltb, length, filter,
}
use ready_jlmirror.Client.{Failure}
use ready_jlmirror.Session.{includes}
use ready_jlmirror.Shell.Frame.{toggled}
use ready_jlmirror.Ui.{
  Effect, request, post, invalidate, str, strs, muted, Query, Element, text, badge, spinner, button,
  input, check, when, each,
}
use ready_jlmirror.Team.{TenantRole, builtin_roles, all_permissions, role_variant, counted}

-- The `useState` values.
pub record Roles : Type 0 where
  pub show_create : Bool
  pub role_name : String
  pub selected_perms : List String
  pub create_error : Option String

abbrev pub start : Roles
start = record { show_create = false; role_name = ""; selected_perms = []; create_error = none }

pub data Message : Type 0 where
  toggle_create : Message
  set_name toggle_perm retire : String → Message
  create created retired : Message
  create_failed : Failure → Message

unfoldable pub update : Message → Roles → Roles × List Effect
update toggle_create s = (record s { show_create = not s.show_create }, [])
update (set_name t) s = (record s { role_name = t }, [])
update (toggle_perm p) s = (record s { selected_perms = toggled p s.selected_perms }, [])
update create s = (
  s,
  request post "/api/v1/tenant/roles"
        (some (("name", str (trim s.role_name)) ∷ ("permissions", strs s.selected_perms) ∷ []))
      ∷ [],
)
update created s = (start, invalidate ("tenant-roles" ∷ []) ∷ [])
update (create_failed e) s = (record s { create_error = e.message }, [])
update (retire name) s =
    (s, request post ("/api/v1/tenant/roles/" <> name <> "/retire") (some []) ∷ [])
update retired s = (s, invalidate ("tenant-roles" ∷ []) ∷ [])

-- `customRoles` and `retiredRoles`
custom_roles : List TenantRole → List TenantRole
custom_roles roles = filter (λ r. not (r.state == "retired")) roles

retired_roles : List TenantRole → List TenantRole
retired_roles roles = filter (λ r. r.state == "retired") roles

pub record Inputs : Type 0 where
  pub roles : Query (List TenantRole)
  pub is_creating : Bool
  pub is_retiring : Bool

abbrev View : Type 0
View = List (Element Message)

perm_check : Roles → String → View
perm_check s p = check p (includes p s.selected_perms) (toggle_perm p) ∷ []

form_view : Inputs → Roles → View
unfolding perm_check
form_view i s =
    input "Nome da função (slug)" s.role_name set_name
      ∷ text "Permissões"
      ∷ each (perm_check s) all_permissions
    ++ when (truthy? s.create_error) (text (s.create_error or_else "") ∷ [])
    ++ button (if i.is_creating then "" else "Criar")
        (truthy (trim s.role_name) && not (eqb (length s.selected_perms) 0) && not i.is_creating)
        create
      ∷ []

role_card : Inputs → TenantRole → View
role_card i r =
    text ("custom:" <> r.role_name) ∷ each (λ p. badge muted p ∷ []) r.permissions
    ++ button "Aposentar" (not i.is_retiring) (retire r.role_name) ∷ []

custom_view : Inputs → List TenantRole → View
unfolding role_card
custom_view i roles =
    if i.roles.is_loading
    then spinner ∷ []
    else if ltb 0 (length roles)
    then text "Personalizadas" ∷ each (role_card i) roles
    else text "Nenhuma função personalizada definida." ∷ []

unfoldable pub roles_view : Inputs → Roles → View
unfolding custom_roles retired_roles form_view custom_view
roles_view i s =
    let custom = custom_roles (i.roles.result or_else []) in
    let retired = retired_roles (i.roles.result or_else []) in
    text "Funções personalizadas"
      ∷ text (counted (length custom) "ativa")
      ∷ when i.roles.is_fetching (spinner ∷ [])
    ++ button (if s.show_create then "Cancelar" else "Criar função") true toggle_create
      ∷ when s.show_create (form_view i s)
    ++ text "Funções padrão" ∷ each (λ r. badge (role_variant r) r ∷ []) builtin_roles
    ++ custom_view i custom
    ++ when (ltb 0 (length retired)) (
        text (counted (length retired) "aposentada")
        ∷ each (λ r. text ("custom:" <> r.role_name) ∷ []) retired)
