-- ===== src/Team/Members.antt =====
-- TeamPage.tsx, `MembersSection`.
use ready_jlmirror.Common.{
  String, Bool, true, false, not, List, [], ◌∷◌, ◌++◌, Option, none, some, ◌==◌, ◌||◌, ◌<>◌,
  ◌or_else◌, if◌then◌else◌, eqb, ltb, length, filter, map,
}
use ready_jlmirror.Ui.{
  Effect, request, post, patch, notify, success, error, invalidate, str, Query, Element, text,
  badge, spinner, button, select, embed, when, each,
}
use ready_jlmirror.Team.{Member, builtin_roles, role_variant, counted}

-- The `useState` values.
pub record Members : Type 0 where
  pub show_create : Bool
  pub editing_role_id : Option String
  pub editing_role_value : String

abbrev pub start : Members
start = record { show_create = false; editing_role_id = none; editing_role_value = "" }

pub data Message : Type 0 where
  toggle_create close_create : Message
  edit_role : String → String → Message
  set_role : String → Message
  save_role : String → Message
  cancel_role role_changed role_failed : Message
  revoke : String → Message
  revoked revoke_failed : Message

unfoldable pub update : Message → Members → Members × List Effect
update toggle_create s = (record s { show_create = not s.show_create }, [])
update close_create s = (record s { show_create = false }, [])
update (edit_role id role) s =
    (record s { editing_role_id = some id; editing_role_value = role }, [])
update (set_role role) s = (record s { editing_role_value = role }, [])
update (save_role id) s = (
  s,
  request patch ("/api/v1/tenant/members/" <> id) (some (("role", str s.editing_role_value) ∷ []))
      ∷ [],
)
update cancel_role s = (record s { editing_role_id = none }, [])
update role_changed s = (
  record s { editing_role_id = none },
  invalidate ("team-members" ∷ []) ∷ notify "Função atualizada" success ∷ [],
)
update role_failed s = (s, notify "Erro ao atualizar função" error ∷ [])
update (revoke id) s =
    (s, request post ("/api/v1/tenant/members/" <> id <> "/revoke") (some []) ∷ [])
update revoked s = (s, invalidate ("team-members" ∷ []) ∷ notify "Acesso revogado" success ∷ [])
update revoke_failed s = (s, notify "Erro ao revogar acesso" error ∷ [])

-- `active` and `revoked` of the members.
unfoldable pub active_members : List Member → List Member
active_members members = filter (λ m. not (m.state == "revoked")) members

unfoldable pub revoked_members : List Member → List Member
revoked_members members = filter (λ m. m.state == "revoked") members

pub record Inputs : Type 0 where
  pub members : Query (List Member)
  pub is_changing : Bool
  pub is_revoking : Bool
  pub local : String → String

abbrev View : Type 0
View = List (Element Message)

is_for : Option String → String → Bool
is_for none id = false
is_for (some v) id = v == id

-- The cell of a member's role.
role_view : Inputs → Members → Member → View
unfolding is_for
role_view i s m =
    if is_for s.editing_role_id m.membership_id
    then select "" s.editing_role_value (map (λ r. (r, r)) builtin_roles) set_role
      ∷ button (if i.is_changing then "" else "Salvar")
          (not (i.is_changing || (s.editing_role_value == m.role))) (save_role m.membership_id)
      ∷ button "✕" true cancel_role
      ∷ []
    else badge (role_variant m.role) m.role
      ∷ button "Alterar" true (edit_role m.membership_id m.role)
      ∷ []

member_row : Inputs → Members → Member → View
unfolding role_view
member_row i s m =
    text m.principal_id ∷ role_view i s m
    ++ text (i.local m.created_at)
      ∷ button "Revogar" (not i.is_revoking) (revoke m.membership_id)
      ∷ []

revoked_line : Member → View
revoked_line m = text (m.principal_id <> " · " <> m.role) ∷ []

table_view : Inputs → Members → View
unfolding member_row
table_view i s =
    let active = active_members (i.members.result or_else []) in
    if i.members.is_loading
    then spinner ∷ []
    else if i.members.is_error
    then text "Não foi possível carregar membros." ∷ []
    else if eqb (length active) 0
    then text "Nenhum membro ativo." ∷ []
    else text "Usuário" ∷ text "Função" ∷ text "Desde" ∷ each (member_row i s) active

unfoldable pub members_view : Inputs → Members → View
unfolding table_view revoked_line
members_view i s =
    let members = i.members.result or_else [] in
    text "Membros"
      ∷ text (counted (length (active_members members)) "ativo")
      ∷ when i.members.is_fetching (spinner ∷ [])
    ++ button (if s.show_create then "Cancelar" else "Criar usuário") true toggle_create
      ∷ when s.show_create (embed "CreateUserModal" ∷ [])
    ++ table_view i s
    ++ when (ltb 0 (length (revoked_members members))) (
        text (counted (length (revoked_members members)) "revogado")
        ∷ each revoked_line (revoked_members members))
