-- ===== src/Noc.antt =====
-- frontend/src/pages/NOCDashboard.tsx: the live overview. Its alerts and sources come over a stream
-- of events that is opened again, after a delay that doubles, whenever it fails, and meanwhile from
-- the service's ordinary answers.
pub mod Stream
pub mod Widgets
pub mod View
mod Tests
use ready_jlmirror.Common.{
  ℕ, ◌+◌, ◌*◌, min, String, Bool, true, false, not, List, [], ◌∷◌, ◌++◌, Option, none, some, ◌==◌,
  ◌||◌, ◌<>◌, ◌or_else◌, if◌then◌else◌, length, filter, any, truthy, truthy?, join,
}
use ready_jlmirror.Session.{includes}
use ready_jlmirror.Ui.{Variant, danger, warning, info, muted, success}

-- `source_evidence_summary`
pub record Evidence : Type 0 where
  pub severity_class : Option String
  pub problem_id : Option String
  pub health_classes : Option (List String)

pub record RawAlert : Type 0 where
  pub alert_id : String
  pub source_kind : String
  pub monitoring_source_id : String
  pub monitoring_resource_id : String
  pub evidence : Option Evidence
  pub opened_at : Option String

pub record RawSource : Type 0 where
  pub monitoring_source_id : String
  pub display_name : String
  pub operational_evidence_state : String

-- `a.source_evidence_summary?.severity_class`
pub severity_of : Option Evidence → Option String
severity_of none = none
severity_of (some e) = e.severity_class

-- `cls === text`
abbrev pub is_class : Option String → String → Bool
is_class none t = false
is_class (some c) t = c == t

pub sev_variant : Option String → Variant
sev_variant cls =
    if is_class cls "critical"
    then danger
    else if is_class cls "degraded" || is_class cls "warning"
    then warning
    else if is_class cls "informational"
    then info
    else muted

-- `upper` is `toUpperCase`.
pub sev_label : (String → String) → Option String → String
sev_label upper none = "UNKNOWN"
sev_label upper (some cls) = upper cls

-- The last line of `alertTitle`.
fallback_title : RawAlert → String
fallback_title a =
    if truthy a.monitoring_resource_id then a.monitoring_resource_id else a.source_kind

title_of_classes : RawAlert → Option (List String) → String
unfolding fallback_title
title_of_classes a none = fallback_title a
title_of_classes a (some []) = fallback_title a
title_of_classes a (some (c ∷ cs)) = join (c ∷ cs)

title_of_evidence : RawAlert → Option Evidence → String
unfolding fallback_title title_of_classes
title_of_evidence a none = fallback_title a
title_of_evidence a (some e) =
    if truthy? e.problem_id then e.problem_id or_else "" else title_of_classes a e.health_classes

pub alert_title : RawAlert → String
unfolding title_of_evidence
alert_title a = title_of_evidence a a.evidence

pub health_variant : String → Variant
health_variant state =
    if state == "current"
    then success
    else if (state == "stale") || (state == "incomplete") || (state == "reconciliation_required")
    then warning
    else if state == "unavailable"
    then danger
    else muted

-- `fmtTs`, with the date as the browser writes it.
pub fmt_ts : (String → String) → Option String → String
fmt_ts local none = ""
fmt_ts local (some iso) = if truthy iso then local iso else ""

is_critical : RawAlert → Bool
unfolding severity_of
is_critical a = is_class (severity_of a.evidence) "critical"

is_degraded : RawAlert → Bool
unfolding severity_of
is_degraded a =
    is_class (severity_of a.evidence) "degraded" || is_class (severity_of a.evidence) "warning"

pub critical_count : List RawAlert → ℕ
unfolding is_critical
critical_count alerts = length (filter is_critical alerts)

pub degraded_count : List RawAlert → ℕ
unfolding is_degraded
degraded_count alerts = length (filter is_degraded alerts)

-- `healthVariant(...) === "success"`
is_ok : RawSource → Bool
unfolding health_variant
is_ok s = succeeds (health_variant s.operational_evidence_state)
  where
    succeeds : Variant → Bool
    succeeds success = true
    succeeds _ = false

pub sources_ok : List RawSource → ℕ
unfolding is_ok
sources_ok sources = length (filter is_ok sources)

-- What the dashboard reads of a maintenance window.
pub record MaintenanceWindow : Type 0 where
  pub window_id : String
  pub source_ids : Option (List String)
  pub active : Bool

-- `maintenanceWindows.filter(active).flatMap(source_ids ?? [])`
pub maintenance_sources : List MaintenanceWindow → List String
maintenance_sources [] = []
maintenance_sources (w ∷ windows) =
    (if w.active then w.source_ids or_else [] else []) ++ maintenance_sources windows

covers_all : MaintenanceWindow → Bool
covers_all w = if w.active then absent w.source_ids else false
  where
    absent : Option (List String) → Bool
    absent none = true
    absent (some ids) = false

pub all_sources_maintenance : List MaintenanceWindow → Bool
unfolding covers_all
all_sources_maintenance windows = any covers_all windows

-- `inMaintenance`
pub in_maintenance : List MaintenanceWindow → RawSource → Bool
unfolding maintenance_sources all_sources_maintenance
in_maintenance windows s =
    all_sources_maintenance windows || includes s.monitoring_source_id (maintenance_sources windows)
