-- ===== src/Shell/Badges.antt =====
-- The counts beside the menu's entries: what each query selects from its reply. A reply that is no
-- array is `none`. The time of a date's text is a parameter: `none` is an invalid date.
use ready_jlmirror.Common.{
  ℕ, String, Bool, false, not, List, [], ◌∷◌, Option, none, some, ◌==◌, ◌&&◌, ◌||◌, leb, ltb,
  length, filter, lookup, show, truthy, if◌then◌else◌, ◌or_else◌,
}
use ready_jlmirror.Session.{includes}

-- `Array.isArray(d) ? d.length : 0`
pub count_all {ℓ} : {A : Type ℓ} → Option (List A) → ℕ
count_all none = 0
count_all (some d) = length d

-- `Array.isArray(d) ? d.filter(p).length : 0`
pub count_where {ℓ} : {A : Type ℓ} → (A → Bool) → Option (List A) → ℕ
count_where p none = 0
count_where p (some d) = length (filter p d)

-- A test of a field that may be absent; the empty text is as good as absent.
abbrev has_text : (String → Bool) → Option String → Bool
has_text p none = false
has_text p (some s) = truthy s && p s

-- `c.state && ["draft", "review", "approved"].includes(c.state)`
pub is_open_change : Option String → Bool
is_open_change = has_text (λ s. includes s ("draft" ∷ "review" ∷ "approved" ∷ []))

-- `s.operational_evidence_state && !["current"].includes(s.operational_evidence_state)`
pub is_unavailable : Option String → Bool
is_unavailable = has_text (λ s. not (includes s ("current" ∷ [])))

-- `n.current_state === "failed" || n.current_state === "permanently_failed"`
pub is_failed : Option String → Bool
is_failed none = false
is_failed (some s) = (s == "failed") || (s == "permanently_failed")

-- A comparison with an invalid date is false.
abbrev le_time : Option ℕ → Option ℕ → Bool
le_time (some a) (some b) = leb a b
le_time _ _ = false

pub record Window : Type 0 where
  pub starts_at : String
  pub ends_at : String

-- A maintenance window that is running now.
pub is_running : (String → Option ℕ) → ℕ → Window → Bool
is_running time now w = le_time (time w.starts_at) (some now) && le_time (some now) (time w.ends_at)

-- What the queries selected; `none` before they have.
pub record Counts : Type 0 where
  pub alerts : Option ℕ
  pub incidents : Option ℕ
  pub changes : Option ℕ
  pub sla : Option ℕ
  pub monitoring : Option ℕ
  pub maintenance : Option ℕ
  pub channels : Option ℕ
  pub critical : Option ℕ

-- `badgeCount[view]`
pub badge_count : Counts → String → Option ℕ
badge_count c view = lookup view (
    ("alerts", c.alerts or_else 0)
    ∷ ("incidents", c.incidents or_else 0)
    ∷ ("changes", c.changes or_else 0)
    ∷ ("sla", c.sla or_else 0)
    ∷ ("monitoring", c.monitoring or_else 0)
    ∷ ("maintenance", c.maintenance or_else 0)
    ∷ ("channels", c.channels or_else 0)
    ∷ [])

-- The text of a badge, which is shown only for a count that is not zero.
pub badge_text : Option ℕ → Option String
badge_text none = none
badge_text (some n) = if ltb 0 n then some (if ltb 99 n then "99+" else show n) else none
