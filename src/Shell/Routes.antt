-- ===== src/Shell/Routes.antt =====
-- The paths of the views, and the path that is remembered for each tenant. `localStorage` is a
-- dictionary of texts; a read of it that throws is one that finds nothing.
pub mod Roundtrip
use ready_jlmirror.Common.{
  String, Bool, true, false, not, List, [], ◌∷◌, ◌++◌, Option, none, some, ◌==◌, ◌&&◌, ◌<>◌,
  ◌or_else◌, if◌then◌else◌, map, lookup, insert, spread, truthy?,
}
use ready_jlmirror.Ui.{Effect, navigate, store}
use ready_jlmirror.Session.{Session, SessionState, ready}

abbrev pub Storage : Type 0
Storage = List (String × String)

unfoldable pub view_to_path : List (String × String)
view_to_path =
    ("noc", "/")
    ∷ ("alerts", "/alerts")
    ∷ ("incidents", "/incidents")
    ∷ ("policies", "/policies")
    ∷ ("changes", "/changes")
    ∷ ("sla", "/sla")
    ∷ ("automation", "/automation")
    ∷ ("reports", "/reports")
    ∷ ("aiops", "/aiops")
    ∷ ("finops", "/finops")
    ∷ ("monitoring", "/monitoring")
    ∷ ("inventory", "/inventory")
    ∷ ("alertmanager", "/alertmanager")
    ∷ ("infra", "/infra")
    ∷ ("maintenance", "/maintenance")
    ∷ ("platform", "/platform")
    ∷ ("channels", "/channels")
    ∷ ("escalation", "/escalation")
    ∷ ("team", "/team")
    ∷ ("apikeys", "/api-keys")
    ∷ ("audit", "/audit")
    ∷ ("msp", "/msp")
    ∷ ("kb", "/kb")
    ∷ ("users", "/admin/users")
    ∷ ("platform-admin", "/platform-admin")
    ∷ []

-- `Object.fromEntries(Object.entries(VIEW_TO_PATH).map(([v, p]) => [p, v]))`
path_to_view : List (String × String)
unfolding view_to_path spread
path_to_view = spread [] (map (λ e. (e.1, e.0)) view_to_path)

pub current_view_from_path : String → String
unfolding path_to_view lookup
current_view_from_path pathname = lookup pathname path_to_view or_else "noc"

abbrev is_ready : SessionState → Bool
is_ready ready = true
is_ready _ = false

-- The key under which the last path is kept; an absent tenant reads as "undefined".
abbrev pub last_path_key : Option String → String
last_path_key tenant = "jlm_last_path_" <> (tenant or_else "undefined")

-- `goTo(v)`
pub go_to : Option String → String → List Effect
unfolding view_to_path lookup
go_to tenant v =
    let path = lookup v view_to_path or_else "/" in
    navigate path false ∷ store (last_path_key tenant) path ∷ []

-- What the effect on first load does: it returns to the path kept for the tenant.
pub restore : Session → String → Storage → List Effect
unfolding lookup
restore s pathname storage =
    let stored = lookup (last_path_key s.tenant_id) storage in
    if is_ready s.state && truthy? stored && (pathname == "/") && not ((stored or_else "") == "/")
    then navigate (stored or_else "") true ∷ []
    else []

-- The storage and the path after some effects.
unfoldable pub stored_by : List Effect → Storage → Storage
stored_by [] storage = storage
stored_by (store k v ∷ effects) storage = stored_by effects (insert k v storage)
stored_by (_ ∷ effects) storage = stored_by effects storage

unfoldable pub path_after : List Effect → String → String
path_after [] path = path
path_after (navigate p _ ∷ effects) path = path_after effects p
path_after (_ ∷ effects) path = path_after effects path

-- The component that the main area shows for a view.
pub page_of : String → Option String
unfolding lookup
page_of v = lookup v (
    ("noc", "NOCDashboard")
    ∷ ("alerts", "AlertsPage")
    ∷ ("monitoring", "MonitoringPage")
    ∷ ("inventory", "InventoryPage")
    ∷ ("aiops", "AIOpsPage")
    ∷ ("finops", "FinOpsPage")
    ∷ ("platform", "PlatformPage")
    ∷ ("audit", "AuditPage")
    ∷ ("policies", "AlertPoliciesPage")
    ∷ ("team", "TeamPage")
    ∷ ("maintenance", "MaintenancePage")
    ∷ ("channels", "NotificationChannelsPage")
    ∷ ("escalation", "EscalationPage")
    ∷ ("apikeys", "ApiKeysPage")
    ∷ ("changes", "ITSMPage")
    ∷ ("sla", "SLAPage")
    ∷ ("automation", "AutomationPage")
    ∷ ("reports", "ReportsPage")
    ∷ ("alertmanager", "AlertmanagerPage")
    ∷ ("infra", "InfraPage")
    ∷ ("kb", "KnowledgeBasePage")
    ∷ ("incidents", "IncidentResponsePage")
    ∷ ("msp", "MSPOverviewPage")
    ∷ ("users", "UsersAdminPage")
    ∷ ("platform-admin", "PlatformAdminPage")
    ∷ [])
