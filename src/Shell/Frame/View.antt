-- ===== src/Shell/Frame/View.antt =====
-- What the shell shows: the screens without the frame, and the parts of the frame.
pub mod Controls
use ready_jlmirror.Common.{
  ℕ, String, Bool, true, false, not, List, [], ◌∷◌, ◌++◌, Option, none, some, ◌==◌, ◌&&◌, ◌<>◌,
  ◌or_else◌, if◌then◌else◌, is_some, truthy?,
}
use ready_jlmirror.Ui.{Query, Element, text, spinner, button, link, embed, when, each}
use ready_jlmirror.Session.{Session, Tenant, Branding, includes}
use ready_jlmirror.Shell.Routes.{current_view_from_path, page_of}
use ready_jlmirror.Shell.Menu.{NavItem, NavGroup, nav_groups, current_label}
use ready_jlmirror.Shell.Badges.{Counts, badge_count, badge_text}
use ready_jlmirror.Shell.Frame.{
  Shell, Message, select_tenant, open_view, toggle_collapsed, toggle_group, sign_out, Screen,
  loading, no_service, sign_in, denied, onboarding, choose_workspace, frame, screen,
}

abbrev View : Type 0
View = List (Element Message)

maybe_text : Option String → View
maybe_text none = []
maybe_text (some t) = text t ∷ []

workspace_button : Tenant → View
workspace_button t =
    button ((t.display_name or_else t.tenant_id) <> (t.role or_else "")) true
      (select_tenant t.tenant_id)
    ∷ []

abbrev environment_of : Option Session → String
environment_of none = ""
environment_of (some s) = s.environment or_else ""

abbrev memberships_of : Option Session → List Tenant
memberships_of none = []
memberships_of (some s) = s.memberships or_else []

-- What the shell reads besides its own state.
pub record Inputs : Type 0 where
  pub session : Session
  pub path : String
  pub has_msp_clients : Bool
  pub counts : Counts
  pub branding : Option Branding
  pub initials : String

-- `initials` before `toUpperCase`: the first letters of the words, at most two.
first_letters : Bool → String → String
first_letters at_start String.[] = ""
first_letters at_start (String.◌∷◌ c s) =
    let is_blank = String.◌∷◌ c "" == " " in
    let rest = first_letters is_blank s in
    if at_start && not is_blank then String.◌∷◌ c rest else rest

abbrev first_two : String → String
first_two (String.◌∷◌ a (String.◌∷◌ b s)) = String.◌∷◌ a (String.◌∷◌ b "")
first_two s = s

pub initials_of : (String → String) → String → String
unfolding first_letters
initials_of upper name = upper (first_two (first_letters true name))

abbrev pub display_name : Session → String
display_name s = s.display_name or_else s.principal_id or_else ""

abbrev pub perms : Inputs → List String
perms i = i.session.permissions or_else []

abbrev pub tenant_text : Inputs → String
tenant_text i = i.session.tenant_id or_else ""

-- The banner of an expired session.
expired_view : Bool → View
expired_view expired =
    when expired (text "Sua sessão expirou." ∷ button "Fazer login novamente" true sign_out ∷ [])

brand_logo : Option Branding → View
brand_logo none = []
brand_logo (some b) = when (b.configured && truthy? b.logo_url) (embed "logo" ∷ [])

abbrev brand_text : Option Branding → String
brand_text none = "JLMirror"
brand_text (some b) =
    if b.configured && truthy? b.brand_name then b.brand_name or_else "" else "JLMirror"

logo_view : Option Branding → Bool → View
unfolding brand_logo
logo_view branding collapsed =
    if collapsed then text "JL" ∷ [] else brand_logo branding ++ text (brand_text branding) ∷ []

-- The button of a view, with its badge.
item_view : Counts → Bool → NavItem → View
unfolding maybe_text
item_view counts collapsed i =
    button (if collapsed then "" else i.label) true (open_view i.id)
    ∷ maybe_text (badge_text (badge_count counts i.id))

group_view : Counts → Bool → List String → NavGroup → View
unfolding item_view
group_view counts collapsed folded g =
    when (not collapsed) (button g.label true (toggle_group g.label) ∷ [])
    ++ when (not (not collapsed && includes g.label folded))
        (each (item_view counts collapsed) g.items)

user_view : Inputs → Bool → View
user_view i collapsed =
    text (if i.initials == "" then "?" else i.initials)
      ∷ when (not collapsed)
          (text (display_name i.session) ∷ text (tenant_text i) ∷ button "Sair" true sign_out ∷ [])
    ++ button (if collapsed then "" else "Recolher") true toggle_collapsed ∷ []

topbar_view : Inputs → String → View
unfolding maybe_text
topbar_view i view =
    text (current_label (perms i) i.has_msp_clients view)
      ∷ button "Alertas críticos" true (open_view "alerts")
      ∷ maybe_text (badge_text i.counts.critical)
    ++ text (tenant_text i) ∷ []

msp_banner : Bool → String → View
msp_banner has_clients view =
    when (has_clients && not (view == "msp"))
      (text "Visualizando como cliente" ∷ button "← Voltar para MSP" true (open_view "msp") ∷ [])

page_view : String → View
page_view view = embed (page_of view or_else "") ∷ []

-- The frame, whose parts stand in the order of the page.
pub frame_view : Inputs → Shell → View
unfolding expired_view logo_view group_view user_view topbar_view msp_banner page_view
frame_view i s =
    let view = current_view_from_path i.path in
    expired_view s.session_expired
    ++ logo_view i.branding s.collapsed
    ++ each (group_view i.counts s.collapsed s.collapsed_groups)
        (nav_groups (perms i) i.has_msp_clients)
    ++ button (if s.collapsed then "" else "Base de Conhecimento") true (open_view "kb")
      ∷ user_view i s.collapsed
    ++ topbar_view i view
    ++ msp_banner i.has_msp_clients view
    ++ page_view view

-- The screens without the frame.
pub bare_view : Query Session → Screen → View
unfolding workspace_button
bare_view q loading = spinner ∷ []
bare_view q no_service = text "Serviço indisponível." ∷ []
bare_view q sign_in =
    text "JLMirror"
    ∷ text "Plataforma de operações para MSPs e equipes de TI"
    ∷ link "Entrar" "/auth/login"
    ∷ when (environment_of q.result == "development") (link "dev sign-in" "/auth/dev-login" ∷ [])
bare_view q denied =
    text "Acesso negado — sem associação a um workspace ativo." ∷ button "Sair" true sign_out ∷ []
bare_view q onboarding = embed "OnboardingPage" ∷ []
bare_view q choose_workspace =
    text "Selecionar workspace" ∷ each workspace_button (memberships_of q.result)
bare_view q frame = []

abbrev inputs_of : Inputs → Option Session → Inputs
inputs_of i none = i
inputs_of i (some s) = record i { session = s }

-- What the component returns.
pub shell_view : Query Session → Inputs → Shell → View
unfolding bare_view frame_view
shell_view q i s = elim (screen q) [
  | frame ↦ frame_view (inputs_of i q.result) s
  | other ↦ bare_view q other
]
