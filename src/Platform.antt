-- ===== src/Platform.antt =====
-- frontend/src/pages/PlatformPage.tsx: the health of the system, and the settings of a tenant's brand
-- and public page.
pub mod Branding
pub mod StatusPage
pub mod Components
use Prim.Native.Char.{code}
use Prim.Native.String
use ready_jlmirror.Common.{
  String, Bool, true, false, List, [], ◌∷◌, ◌++◌, Option, none, some, ◌==◌, ◌||◌, ◌<>◌, ◌or_else◌,
  if◌then◌else◌, eqb, lookup,
}
use ready_jlmirror.Ui.{
  Number, Variant, warning, danger, muted, Query, Element, text, badge, spinner, embed, when, each,
}

-- A dependency of `HealthReady`.
pub record Dependency : Type 0 where
  pub state : String
  pub mode : String
  pub seconds_stale : Option Number

-- `HealthReady`
pub record HealthReady : Type 0 where
  pub status : String
  pub environment : String
  pub database : Option Dependency
  pub workers : Option Dependency

-- `Health`
pub record Health : Type 0 where
  pub status : String
  pub environment : String

pub state_variant : String → Variant
state_variant state =
    if (state == "ok") || (state == "ready")
    then Variant.success
    else if (state == "degraded") || (state == "stale")
    then warning
    else if (state == "unavailable") || (state == "not_ready") || (state == "failed")
    then danger
    else muted

abbrev descriptions : List (String × String)
descriptions =
    ("safe_recoverable", "Safe to deploy — rollback available and all evidence current")
    ∷ ("safe_forward_only", "Safe to deploy — no rollback path, forward-only migration")
    ∷ ("unsafe", "Deployment blocked — evidence gaps or security concerns")
    ∷ ("ambiguous", "Classification inconclusive — human review required")
    ∷ []

-- `status.replace("_", " ")`, which replaces the first.
spaced : String → String
spaced String.[] = String.[]
spaced (String.◌∷◌ c s) =
    let rest = spaced s in if eqb (code c) b'_' then " " <> s else String.◌∷◌ c rest

pub record Inputs : Type 0 where
  pub ready : Query HealthReady
  pub live : Query Health
  pub outcomes : Query (List String)
  -- `Math.round(n)` as a text
  pub round : Number → String

-- The page has no control of its own: those of its cards are theirs.
abbrev View : Type 0
View = List (Element ⊥)

environment_or : Option HealthReady → String
environment_or none = "unknown"
environment_or (some h) = h.environment

live_or : Option Health → String → String
live_or none e = e
live_or (some h) e = h.environment

-- `env`
pub environment_of : Inputs → String
unfolding environment_or live_or
environment_of i = live_or i.live.result (environment_or i.ready.result)

database_view : Option Dependency → View
database_view none = []
database_view (some d) = text "Database" ∷ badge (state_variant d.state) d.state ∷ []

stale_text : Inputs → Option Number → String
stale_text i none = ""
stale_text i (some n) = " (" <> i.round n <> "s)"

workers_view : Inputs → Option Dependency → View
unfolding stale_text
workers_view i none = []
workers_view i (some d) =
    text "Workers" ∷ badge (state_variant d.state) (d.state <> stale_text i d.seconds_stale) ∷ []

status_badge : Option HealthReady → View
unfolding spaced
status_badge none = []
status_badge (some h) = badge (state_variant h.status) (spaced h.status) ∷ []

health_of : Inputs → Option HealthReady → View
unfolding database_view workers_view
health_of i none = []
health_of i (some h) =
    text "Environment" ∷ text (environment_of i) ∷ database_view h.database
    ++ workers_view i h.workers

health_view : Inputs → View
unfolding status_badge health_of
health_view i =
    text "System health" ∷ status_badge i.ready.result
    ++ (if i.ready.is_loading
        then spinner ∷ []
        else if i.ready.is_error
        then text "Health check unavailable." ∷ []
        else health_of i i.ready.result)

gate_view : Inputs → View
gate_view i =
    let is_production = environment_of i == "production" in
    text "Production gate"
    ∷ badge (if is_production then Variant.success else warning)
        (if is_production then "production" else "not production")
    ∷ text "Run the preflight script before promoting to production:"
    ∷ text "python -m scripts.production_preflight"
    ∷ text
        "The script validates environment, TLS, secrets, DB connectivity, worker heartbeat, and migration state. Exit 0 = authorized."
    ∷ []

outcome_view : String → View
outcome_view o = text o ∷ text (lookup o descriptions or_else "") ∷ []

outcomes_view : Inputs → View
unfolding outcome_view
outcomes_view i =
    text "Release outcome classes" ∷ when i.outcomes.is_fetching (spinner ∷ [])
    ++ (if i.outcomes.is_loading
        then spinner ∷ []
        else if i.outcomes.is_error
        then text "Unavailable." ∷ []
        else each outcome_view (i.outcomes.result or_else []))

unfoldable pub page_view : Inputs → View
unfolding health_view gate_view outcomes_view
page_view i =
    text "Platform"
      ∷ text "System health · release classification vocabulary"
      ∷ when i.ready.is_fetching (spinner ∷ [])
    ++ health_view i
    ++ gate_view i
    ++ embed "StatusPageCard"
      ∷ embed "BrandingCard"
      ∷ embed "StatusPageComponentsCard"
      ∷ outcomes_view i
