-- ===== src/Audit.antt =====
-- frontend/src/pages/AuditPage.tsx: the audit trail, page by page, with its filters and its export.
pub mod View
mod Tests
use Prim.Native.String.{compare}
use Prim.Native.Nat.{Ordering}
use ready_jlmirror.Common.{
  ℕ, ◌+◌, ◌-◌, ◌*◌, max, String, Bool, true, false, not, List, [], ◌∷◌, ◌++◌, Option, none, some,
  ◌==◌, ◌<>◌, if◌then◌else◌, truthy, show, map, filter, lookup, ◌or_else◌,
}
use ready_jlmirror.Session.{includes}
use ready_jlmirror.Ui.{
  Effect, plain_fetch, notify, error, timer, save_file, Variant, muted, warning, success,
}

-- `AuditEvent`, with the JSON of its details as the browser writes it.
pub record AuditEvent : Type 0 where
  pub audit_event_id : String
  pub action : String
  pub actor_kind : String
  pub actor_id : Option String
  pub subject_type : String
  pub subject_id : String
  pub detail_json : String
  pub occurred_at : String

abbrev actor_variants : List (String × Variant)
actor_variants =
    ("principal", Variant.success)
    ∷ ("platform_admin", warning)
    ∷ ("operator", warning)
    ∷ ("system", muted)
    ∷ ("worker", muted)
    ∷ ("delegated_principal", Variant.success)
    ∷ []

pub actor_variant : String → Variant
actor_variant kind = lookup kind actor_variants or_else muted

abbrev pub page_size : ℕ
page_size = 50

abbrev known_actions : List String
known_actions =
    "alert.acknowledged" ∷ "alert.created" ∷ "alert.escalated" ∷ "alert.resolved" ∷ "alert.snoozed"
    ∷ "apikey.created" ∷ "apikey.revoked" ∷ "automation.run.created" ∷ "automation.run.failed"
    ∷ "automation.run.succeeded" ∷ "escalation.policy.created" ∷ "escalation.policy.updated"
    ∷ "itsm.change.approved" ∷ "itsm.change.created" ∷ "itsm.change.rejected"
    ∷ "itsm.change.updated" ∷ "maintenance.window.created" ∷ "maintenance.window.deleted"
    ∷ "member.invited" ∷ "member.removed" ∷ "notification.channel.created"
    ∷ "notification.channel.deleted" ∷ "policy.created" ∷ "policy.deleted" ∷ "policy.updated"
    ∷ "report.generated" ∷ "sla.breach.detected" ∷ "tenant.settings.updated" ∷ []

abbrev known_subject_types : List String
known_subject_types =
    "alert" ∷ "alert_policy" ∷ "api_key" ∷ "automation_run" ∷ "automation_script" ∷ "change_request"
    ∷ "escalation_policy" ∷ "host" ∷ "itsm_change" ∷ "maintenance_window" ∷ "member"
    ∷ "monitoring_source" ∷ "notification_channel" ∷ "report" ∷ "sla_agreement" ∷ "tenant" ∷ "user"
    ∷ []

-- `Array.from(new Set(texts))`
distinct : List String → List String
distinct [] = []
distinct (x ∷ xs) = x ∷ filter (λ y. not (y == x)) (distinct xs)

-- `.sort()`; the order is that of the code points.
insert_sorted : String → List String → List String
insert_sorted x [] = x ∷ []
insert_sorted x (y ∷ ys) =
    let later = insert_sorted x ys in
    elim (compare x y) [ Ordering.gt ↦ y ∷ later | _ ↦ x ∷ y ∷ ys ]

sorted : List String → List String
unfolding insert_sorted
sorted [] = []
sorted (x ∷ xs) = insert_sorted x (sorted xs)

-- `actions` and `subjectTypes`
pub actions_of : List AuditEvent → List String
unfolding distinct sorted
actions_of events = sorted (distinct (known_actions ++ map (λ e. e.action) events))

pub subject_types_of : List AuditEvent → List String
unfolding distinct sorted
subject_types_of events =
    sorted (distinct (known_subject_types ++ map (λ e. e.subject_type) events))

-- The `useState` values, and the text that the timer of the actor's filter will set.
pub record Audit : Type 0 where
  pub filter_action : String
  pub filter_subject_type : String
  pub actor_filter : String
  pub debounced_actor_filter : String
  pub date_from : String
  pub date_to : String
  pub expanded : Option String
  pub page : ℕ
  pub exporting : Bool

abbrev pub start : Audit
start = record {
  filter_action = "";
  filter_subject_type = "";
  actor_filter = "";
  debounced_actor_filter = "";
  date_from = "";
  date_to = "";
  expanded = none;
  page = 0;
  exporting = false;
}

pub data Message : Type 0 where
  set_from set_to set_actor set_action set_subject : String → Message
  -- the timer of the actor's filter, of which only the last one runs out
  actor_settled : Message
  toggle : String → Message
  previous next : Message
  -- the query failed, which is told once
  load_failed : Message
  -- the export: its start, the file with the date of today, and its failure
  export export_failed : Message
  exported : String → String → Message

field_if : String → String → String → List (String × String)
field_if name value shown = if truthy value then (name, shown) ∷ [] else []

-- The parameters that the list and the export share.
filters : Audit → List (String × String)
unfolding field_if
filters s =
    field_if "action" s.filter_action s.filter_action
    ++ field_if "subject_type" s.filter_subject_type s.filter_subject_type
    ++ field_if "actor_id" s.debounced_actor_filter s.debounced_actor_filter
    ++ field_if "occurred_after" s.date_from (s.date_from <> "T00:00:00Z")
    ++ field_if "occurred_before" s.date_to (s.date_to <> "T23:59:59Z")

-- The parameters of the query.
unfoldable pub params : Audit → List (String × String)
unfolding filters
params s = ("limit", show page_size) ∷ ("offset", show (s.page * page_size)) ∷ filters s

-- The path of the query; `query` is what `URLSearchParams` makes of the parameters.
pub events_path : (List (String × String) → String) → Audit → String
events_path query s = "/api/v1/observability/audit-events?" <> query (params s)

toggled_row : String → Option String → Option String
toggled_row id none = some id
toggled_row id (some shown) = if shown == id then none else some id

unfoldable pub update : (List (String × String) → String) → Message → Audit → Audit × List Effect
unfolding toggled_row filters
update query (set_from t) s = (record s { date_from = t; page = 0 }, [])
update query (set_to t) s = (record s { date_to = t; page = 0 }, [])
update query (set_actor t) s = (record s { actor_filter = t; page = 0 }, timer 500 ∷ [])
update query (set_action t) s = (record s { filter_action = t; page = 0 }, [])
update query (set_subject t) s = (record s { filter_subject_type = t; page = 0 }, [])
update query actor_settled s = (record s { debounced_actor_filter = s.actor_filter }, [])
update query (toggle id) s = (record s { expanded = toggled_row id s.expanded }, [])
update query previous s = (record s { page = s.page - 1 }, [])
update query next s = (record s { page = s.page + 1 }, [])
update query load_failed s = (s, notify "Erro ao carregar auditoria" error ∷ [])
update query export s = (
  record s { exporting = true },
  plain_fetch ("/api/v1/observability/audit-events/export?" <> query (filters s)) ∷ [],
)
update query (exported today contents) s =
    (record s { exporting = false }, save_file ("audit-export-" <> today <> ".csv") contents ∷ [])
update query export_failed s =
    (record s { exporting = false }, notify "Erro ao exportar" error ∷ [])
