-- ===== src/Maintenance.antt =====
-- frontend/src/pages/MaintenancePage.tsx: maintenance windows. What the browser does with dates is
-- an argument, `Clock`; times are milliseconds since 1970.
pub mod SourceIds
pub mod Form
pub mod View
mod Tests
use ready_jlmirror.Common.{
  ℕ, ◌+◌, ◌*◌, String, Bool, true, false, not, List, [], ◌∷◌, Option, none, some, ◌<>◌, ◌or_else◌,
  if◌then◌else◌, ltb, leb, show, filter,
}
use ready_jlmirror.Ui.{
  Value, str, strs, null, Body, Effect, request, post, delete, notify, success, error, invalidate,
  Variant, muted,
}
use ready_jlmirror.Client.{Failure}
use ready_jlmirror.Maintenance.SourceIds.{source_ids}

-- `MaintenanceWindow`
pub record MaintenanceWindow : Type 0 where
  pub window_id : String
  pub label : String
  pub source_ids : Option (List String)
  pub starts_at : String
  pub ends_at : String
  pub created_by : String
  pub created_at : String
  pub active : Bool

-- What the getters of a date say in the local time zone; the month counts from 0.
pub record LocalDate : Type 0 where
  pub year : ℕ
  pub month : ℕ
  pub date : ℕ
  pub hours : ℕ
  pub minutes : ℕ

-- Dates are at most 8.64e15 milliseconds from 1970: `instant` gives no later time, and `iso` is only
-- meant for times up to then, since `toISOString` throws for the others.
pub record Clock : Type 0 where
  -- `new Date(text)`, absent for an invalid date
  pub instant : String → Option ℕ
  -- `toISOString()`
  pub iso : ℕ → String
  -- the fields of `new Date(text)`
  pub fields : String → LocalDate
  -- `new Date(text).toLocaleString(...)`
  pub local : String → String

-- `String(n).padStart(2, "0")`
pad : ℕ → String
pad n = if ltb n 10 then "0" <> show n else show n

pub to_local_input : Clock → String → String
unfolding pad
to_local_input c iso =
    let d = c.fields iso in
    show d.year
    <> "-"
    <> pad (d.month + 1)
    <> "-"
    <> pad d.date
    <> "T"
    <> pad d.hours
    <> ":"
    <> pad d.minutes

pub now_plus_minutes : Clock → ℕ → ℕ → String
unfolding to_local_input
now_plus_minutes c now mins = to_local_input c (c.iso (now + mins * 60000))

pub status_variant : MaintenanceWindow → Variant
status_variant w = if w.active then Variant.success else muted

-- The `useState` values of the page.
pub record Maintenance : Type 0 where
  pub show_form : Bool
  pub label : String
  pub source_ids_raw : String
  pub starts_at : String
  pub ends_at : String
  pub form_err : Option String

-- The messages with a number carry the time at which they happen.
pub data Message : Type 0 where
  new_window created : ℕ → Message
  set_label set_source_ids set_starts_at set_ends_at : String → Message
  submit hide_form cancelled : Message
  create_failed cancel_failed : Failure → Message
  cancel_window : String → Message

-- `resetForm`
pub reset_form : Clock → ℕ → Maintenance → Maintenance
unfolding now_plus_minutes
reset_form c now s = record s {
  label = "";
  source_ids_raw = "";
  starts_at = now_plus_minutes c now 0;
  ends_at = now_plus_minutes c now 60;
  form_err = none;
}

-- `new Date(ends) <= new Date(starts)`, which is false for an invalid date.
pub ends_early : Option ℕ → Option ℕ → Bool
ends_early (some starts) (some ends) = leb ends starts
ends_early _ _ = false

ids_value : Option (List String) → Value
ids_value none = null
ids_value (some ids) = strs ids

-- The body that `handleCreate` posts.
pub create_body : String → Maintenance → String → String → Body
unfolding ids_value
create_body tenant s starts ends =
    ("tenant_id", str tenant)
    ∷ ("label", str s.label)
    ∷ ("source_ids", ids_value (source_ids s.source_ids_raw))
    ∷ ("starts_at", str starts)
    ∷ ("ends_at", str ends)
    ∷ []

create_at : Clock → String → Maintenance → String → String → Maintenance × List Effect
unfolding ends_early create_body
create_at c tenant s starts ends =
    if ends_early (c.instant starts) (c.instant ends)
    then (record s { form_err = some "End time must be after start time" }, [])
    else (
      s,
      request post "/api/v1/maintenance/windows" (some (create_body tenant s starts ends)) ∷ [],
    )

-- The rest of `handleCreate`; `toISOString` throws for an invalid date, and then the handler ends.
create_between : Clock → String → Maintenance → Option ℕ → Option ℕ → Maintenance × List Effect
unfolding create_at
create_between c tenant s (some starts) (some ends) =
    create_at c tenant s (c.iso starts) (c.iso ends)
create_between c tenant s _ _ = (s, [])

pub handle_create : Clock → String → Maintenance → Maintenance × List Effect
unfolding create_between
handle_create c tenant s =
    create_between c tenant (record s { form_err = none }) (c.instant s.starts_at)
      (c.instant s.ends_at)

pub update : Clock → String → Message → Maintenance → Maintenance × List Effect
unfolding reset_form handle_create
update c tenant (new_window now) s = (reset_form c now (record s { show_form = true }), [])
update c tenant (set_label t) s = (record s { label = t }, [])
update c tenant (set_source_ids t) s = (record s { source_ids_raw = t }, [])
update c tenant (set_starts_at t) s = (record s { starts_at = t }, [])
update c tenant (set_ends_at t) s = (record s { ends_at = t }, [])
update c tenant hide_form s = (record s { show_form = false }, [])
update c tenant submit s = handle_create c tenant s
update c tenant (created now) s = (
  reset_form c now (record s { show_form = false }),
  invalidate ("maintenance-windows" ∷ []) ∷ notify "Janela de manutenção criada" success ∷ [],
)
update c tenant (create_failed e) s = (
  record s { form_err = some (e.message or_else "Failed to create window") },
  notify (e.message or_else "Erro ao criar janela") error ∷ [],
)
update c tenant (cancel_window id) s =
    (s, request delete ("/api/v1/maintenance/windows/" <> id <> "?tenant_id=" <> tenant) none ∷ [])
update c tenant cancelled s = (
  s,
  invalidate ("maintenance-windows" ∷ []) ∷ notify "Janela de manutenção cancelada" success ∷ [],
)
update c tenant (cancel_failed e) s =
    (s, notify (e.message or_else "Erro ao cancelar janela") error ∷ [])

pub active_windows : List MaintenanceWindow → List MaintenanceWindow
active_windows windows = filter (λ w. w.active) windows

pub upcoming_windows : List MaintenanceWindow → List MaintenanceWindow
upcoming_windows windows = filter (λ w. not w.active) windows
