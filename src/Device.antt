-- ===== src/Device.antt =====
-- frontend/src/pages/DeviceDetail.tsx: a device with its metrics and problems. Numbers that are not
-- natural, and their texts, are the browser's: an argument, `Numbers`. The charts are a library's.
pub mod Names
pub mod Layout
pub mod Metrics
pub mod View
mod Tests
use Prim.Native.Char.{code}
use Prim.Native.String
use ready_jlmirror.Common.{
  ℕ, ◌*◌, String, Bool, true, false, not, List, [], ◌∷◌, Option, none, some, ◌==◌, ◌&&◌, ◌||◌, ◌<>◌,
  ◌or_else◌, if◌then◌else◌, truthy, truthy?, eqb,
}
use ready_jlmirror.Ui.{Number, Variant, danger, warning, info, muted}

-- What the browser does with numbers.
pub record Numbers : Type 0 where
  -- `Math.abs(n) >= k`
  pub at_least : ℕ → Number → Bool
  -- `(n / k).toFixed(digits)`
  pub ratio : ℕ → ℕ → Number → String
  -- `parseFloat(n.toFixed(2)).toLocaleString(...)`, and its `toString()`
  pub rounded : Number → String
  pub rounded_plain : Number → String
  -- `${n}`
  pub plain : Number → String
  pub is_nan : Number → Bool
  pub is_zero : Number → Bool
  -- `String(s).slice(0, 80)`
  pub shortened : String → String

-- `value` of a metric: an object with the field `n` or else `s`, another object, or no object.
pub data MetricValue : Type 0 where
  number : Number → MetricValue
  words : String → MetricValue
  object nothing : MetricValue

-- `MetricState`
pub record MetricState : Type 0 where
  pub metric_definition_id : String
  pub observed_at : Option String
  pub value_kind : String
  pub value : MetricValue
  pub name : String
  pub unit : Option String

-- `Problem`
pub record Problem : Type 0 where
  pub monitoring_problem_id : String
  pub summary : Option String
  pub severity_class : Option String
  pub opened_at : Option String
  pub resolved_at : Option String

-- `fmtTs`, with the date as the browser writes it.
pub fmt_ts : (String → String) → Option String → String
fmt_ts local none = "—"
fmt_ts local (some iso) = if truthy iso then local iso else "—"

-- `unit.startsWith("!") ? unit.slice(1) : unit`
cleaned : String → String
cleaned String.[] = ""
cleaned (String.◌∷◌ c s) = if eqb (code c) b'!' then s else String.◌∷◌ c s

pub clean_unit : Option String → Option String
unfolding cleaned
clean_unit none = none
clean_unit (some unit) = some (cleaned unit)

pub fmt_bytes : Numbers → Number → String
fmt_bytes b n =
    if b.at_least 1099511627776 n
    then b.ratio 1099511627776 2 n <> " TB"
    else if b.at_least 1073741824 n
    then b.ratio 1073741824 2 n <> " GB"
    else if b.at_least 1048576 n
    then b.ratio 1048576 2 n <> " MB"
    else if b.at_least 1024 n
    then b.ratio 1024 2 n <> " KB"
    else b.plain n <> " B"

-- `unit === "B"`
is_bytes : Option String → Bool
is_bytes none = false
is_bytes (some u) = u == "B"

with_unit : Option String → String → String
with_unit none t = t
with_unit (some u) t = if truthy u then t <> " " <> u else t

pub fmt_number : Numbers → Number → Option String → String
unfolding is_bytes with_unit
fmt_number b n unit =
    if is_bytes (clean_unit unit) then fmt_bytes b n else with_unit (clean_unit unit) (b.rounded n)

pub fmt_tick : Numbers → Number → Option String → String
unfolding is_bytes
fmt_tick b n unit =
    if is_bytes (clean_unit unit)
    then if b.at_least 1073741824 n
      then b.ratio 1073741824 1 n <> "G"
      else if b.at_least 1048576 n
      then b.ratio 1048576 1 n <> "M"
      else if b.at_least 1024 n
      then b.ratio 1024 1 n <> "K"
      else b.plain n
    else if b.at_least 1000000 n
    then b.ratio 1000000 1 n <> "M"
    else if b.at_least 1000 n
    then b.ratio 1000 1 n <> "K"
    else b.rounded_plain n

pub fmt_metric_value : Numbers → MetricValue → Option String → String
fmt_metric_value b (number n) unit = if b.is_nan n then "—" else fmt_number b n unit
fmt_metric_value b (words s) unit = b.shortened s
fmt_metric_value b object unit = "—"
fmt_metric_value b nothing unit = "—"

pub is_zero_value : Numbers → MetricState → Bool
is_zero_value b m = zero_value m.value
  where
    zero_value : MetricValue → Bool
    zero_value (number n) = b.is_zero n
    zero_value (words s) = false
    zero_value object = false
    zero_value nothing = true

-- `a === text`
abbrev pub is_text : Option String → String → Bool
is_text none t = false
is_text (some s) t = s == t

pub avail_variant : Option String → Variant
avail_variant a =
    if is_text a "available"
    then Variant.success
    else if is_text a "unavailable"
    then danger
    else muted

pub avail_label : Option String → String
avail_label a =
    if is_text a "available"
    then "online"
    else if is_text a "unavailable"
    then "offline"
    else "desconhecido"

pub sev_variant : Option String → Variant
sev_variant s =
    if is_text s "critical"
    then danger
    else if is_text s "degraded" || is_text s "warning"
    then warning
    else if is_text s "informational"
    then info
    else muted

pub is_numeric : MetricState → Bool
is_numeric m = (m.value_kind == "number") || (m.value_kind == "integer")
