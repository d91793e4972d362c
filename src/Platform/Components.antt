-- ===== src/Platform/Components.antt =====
-- PlatformPage.tsx, `StatusPageComponentsCard`: the components that the public page lists.
use ready_jlmirror.Common.{
  ℕ, zero, suc, ◌+◌, String, Bool, true, false, not, List, [], ◌∷◌, ◌++◌, Option, none, some, ◌<>◌,
  ◌or_else◌, if◌then◌else◌, truthy, truthy?, trim, eqb, length, show, map, lookup,
}
use ready_jlmirror.Client.{Failure}
use ready_jlmirror.StatusPublic.{Item}
use ready_jlmirror.Ui.{
  Effect, request, put, invalidate, timer, str, flag, dicts, muted, Query, Element, text, badge,
  spinner, button, input, select, when,
}
use ready_jlmirror.Platform.StatusPage.{StatusPageCfg, field_or, is_configured}

abbrev status_options : List (String × String)
status_options =
    ("operational", "Operacional")
    ∷ ("degraded", "Degradado")
    ∷ ("outage", "Incidente ativo")
    ∷ ("maintenance", "Manutenção")
    ∷ []

-- The `useState` values.
pub record Card : Type 0 where
  pub components : List Item
  pub initialized : Bool
  pub new_name : String
  pub new_desc : String
  pub new_status : String
  pub err : Option String
  pub saved : Bool

abbrev pub start : Card
start = record {
  components = [];
  initialized = false;
  new_name = "";
  new_desc = "";
  new_status = "operational";
  err = none;
  saved = false;
}

pub data Message : Type 0 where
  -- the effect that reads the answer
  loaded : StatusPageCfg → Message
  add : Message
  remove : ℕ → Message
  set_name set_desc set_status : String → Message
  save was_saved saved_over : Message
  failed : Failure → Message

-- `components.filter((_, i) => i !== idx)`
unfoldable pub without : ℕ → List Item → List Item
without n [] = []
without zero (c ∷ cs) = cs
without (suc n) (c ∷ cs) = c ∷ without n cs

fields : Item → List (String × String)
fields c = ("name", c.name) ∷ ("description", c.description or_else "") ∷ ("status", c.status) ∷ []

-- The request, or none where the function of the mutation throws, after which `failed` comes.
save_request : Option StatusPageCfg → Card → List Effect
unfolding fields
save_request cfg s =
    if is_configured cfg
    then request put "/api/v1/platform/status-page" (
        some (
          ("status_slug", str (field_or cfg (λ b. b.status_slug) ""))
          ∷ ("public_name", str (field_or cfg (λ b. b.public_name) ""))
          ∷ ("enabled", flag (field_or cfg (λ b. b.enabled) true))
          ∷ ("components", dicts (map fields s.components))
          ∷ []))
      ∷ []
    else []

unfoldable pub update : String → Option StatusPageCfg → Message → Card → Card × List Effect
unfolding save_request
update tenant cfg (loaded answer) s = (
  if s.initialized
      then s
      else record s { components = answer.components or_else []; initialized = true },
  [],
)
update tenant cfg add s = (
  if truthy (trim s.new_name)
      then record s {
        components =
            s.components
            ++ record {
              name = trim s.new_name;
              description = some (trim s.new_desc);
              status = s.new_status;
            }
              ∷ [];
        new_name = "";
        new_desc = "";
        new_status = "operational";
      }
      else s,
  [],
)
update tenant cfg (remove n) s = (record s { components = without n s.components }, [])
update tenant cfg (set_name t) s = (record s { new_name = t }, [])
update tenant cfg (set_desc t) s = (record s { new_desc = t }, [])
update tenant cfg (set_status t) s = (record s { new_status = t }, [])
update tenant cfg save s = (record s { err = none }, save_request cfg s)
update tenant cfg was_saved s = (
  record s { err = none; saved = true },
  invalidate ("status-page-cfg" ∷ tenant ∷ []) ∷ timer 3000 ∷ [],
)
update tenant cfg saved_over s = (record s { saved = false }, [])
update tenant cfg (failed e) s =
    (record s { err = some (e.detail or_else "Falha ao salvar componentes.") }, [])

abbrev View : Type 0
View = List (Element Message)

-- The components, with the place of each.
rows : ℕ → List Item → View
rows n [] = []
rows n (c ∷ cs) =
    text c.name ∷ when (truthy? c.description) (text ("— " <> (c.description or_else "")) ∷ [])
    ++ text (lookup c.status status_options or_else c.status)
      ∷ button "Remover" true (remove n)
      ∷ rows (n + 1) cs

form_view : Bool → Card → View
unfolding rows
form_view is_pending s =
    rows 0 s.components
    ++ text "Adicionar componente"
      ∷ input "Nome *" s.new_name set_name
      ∷ input "Descrição (opcional)" s.new_desc set_desc
      ∷ select "Status" s.new_status status_options set_status
      ∷ button "Adicionar" (truthy (trim s.new_name)) add
      ∷ when (truthy? s.err) (text (s.err or_else "") ∷ [])
    ++ when s.saved (text "Componentes salvos com sucesso." ∷ [])
    ++ when is_pending (spinner ∷ [])
    ++ button "Salvar componentes" (not is_pending) save ∷ []

unfoldable pub card_view : Query StatusPageCfg → Bool → Card → View
unfolding form_view
card_view q is_pending s =
    text "Componentes da Status Page"
    ∷ badge muted (
        show (length s.components)
        <> " componente"
        <> (if eqb (length s.components) 1 then "" else "s"))
    ∷ (if q.is_loading
        then spinner ∷ []
        else if not (is_configured q.result)
        then text "Configure a Status Page primeiro antes de definir os componentes." ∷ []
        else form_view is_pending s)
