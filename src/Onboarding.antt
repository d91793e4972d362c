-- ===== src/Onboarding.antt =====
-- frontend/src/pages/OnboardingPage.tsx: a user without a workspace makes one.
pub mod Steps
pub mod View
mod Tests
use ready_jlmirror.Common.{
  String, Bool, true, false, not, List, [], ◌∷◌, Option, none, some, ◌≡◌, ◌or_else◌, if◌then◌else◌,
  truthy, trim,
}
use ready_jlmirror.Client.{Failure}
use ready_jlmirror.Ui.{Effect, request, post, invalidate, timer, log_out, str}

-- `Step`
pub data Step : Type 0 where
  welcome naming creating binding done : Step

-- The request that is awaited: the registration, then the choice of the tenant.
pub data Waiting : Type 0 where
  idle registration selection : Waiting

-- The `useState` values, and what the query library keeps.
pub record Page : Type 0 where
  pub step : Step
  pub tenant_name : String
  pub err : Option String
  pub waiting : Waiting

abbrev pub start : Page
start = record { step = welcome; tenant_name = ""; err = none; waiting = idle }

pub data Message : Type 0 where
  begin back leave_app : Message
  set_name : String → Message
  -- the button, or the key Enter in the field
  submit : Message
  -- the answer with its `tenant_id`, and the failure, of the registration
  registered : String → Message
  register_failed : Failure → Message
  -- the answers of the choice of the tenant, and the timer that the first of them sets
  selected select_failed : Message
  session_stale : Message

abbrev pub register_path : String
register_path = "/api/v1/onboarding/register"

unfoldable pub update : Message → Page → Page × List Effect
update begin p = (record p { step = naming }, [])
update back p = (record p { step = welcome }, [])
update leave_app p = (p, log_out ∷ [])
update (set_name t) p = (record p { tenant_name = t }, [])
update submit p =
    if truthy (trim p.tenant_name)
    then (
      record p { step = creating; err = none; waiting = registration },
      request post register_path (some (("tenant_name", str (trim p.tenant_name)) ∷ [])) ∷ [],
    )
    else (p, [])
update (registered tenant) p = (
  record p { step = binding; waiting = selection },
  request post "/api/tenant/select" (some (("tenant_id", str tenant) ∷ [])) ∷ [],
)
update (register_failed e) p = (
  record p { step = naming; err = some (e.message or_else "Falha no registro."); waiting = idle },
  [],
)
update selected p = (record p { step = done; waiting = idle }, timer 800 ∷ [])
update select_failed p = (
  record p {
    err = some "Workspace criado, mas não foi possível iniciar a sessão. Recarregue a página.";
    waiting = idle;
  },
  [],
)
update session_stale p = (p, invalidate ("session" ∷ []) ∷ [])

-- What can come while the page is shown: what its step shows, and the answer that is awaited. Shell
-- takes the page away once a session that is read again has a workspace; that ends its events.
unfoldable pub Enabled : Message → Page → Type 0
Enabled begin p = p.step ≡ welcome
Enabled leave_app p = p.step ≡ welcome
Enabled back p = p.step ≡ naming
Enabled (set_name t) p = p.step ≡ naming
Enabled submit p = p.step ≡ naming
Enabled (registered tenant) p = p.waiting ≡ registration
Enabled (register_failed e) p = p.waiting ≡ registration
Enabled selected p = p.waiting ≡ selection
Enabled select_failed p = p.waiting ≡ selection
Enabled session_stale p = p.step ≡ done
