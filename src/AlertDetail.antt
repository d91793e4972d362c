-- ===== src/AlertDetail.antt =====
-- frontend/src/pages/AlertDetail.tsx: one alert, what was done about it, and what the knowledge base
-- has about it.
pub mod View
use ready_jlmirror.Common.{
  ℕ, String, Bool, true, false, not, List, [], ◌∷◌, ◌++◌, Option, none, some, ◌==◌, ◌&&◌, ◌||◌,
  ◌<>◌, ◌or_else◌, if◌then◌else◌, truthy, truthy?, trim,
}
use ready_jlmirror.Ui.{
  Effect, request, post, notify, success, error, invalidate, navigate, leave, Body, str, Variant,
  danger, warning, info, muted,
}

-- `source_evidence_summary`, and its JSON as the browser writes it.
pub record Evidence : Type 0 where
  pub name : Option String
  pub problem_name : Option String
  pub severity_class : Option String
  pub json : String

-- `AlertFull`
pub record AlertFull : Type 0 where
  pub alert_id : String
  pub lifecycle_state : String
  pub source_kind : String
  pub monitoring_source_id : String
  pub monitoring_resource_id : String
  pub evidence : Option Evidence
  pub opened_at : String
  pub resolved_at : Option String
  pub policy_id : String
  pub policy_version : ℕ
  pub acknowledged_at : Option String
  pub acknowledged_by : Option String
  pub name : Option String
  pub problem_name : Option String

-- `Transition`
pub record Transition : Type 0 where
  pub alert_transition_id : String
  pub from_lifecycle_state : String
  pub to_lifecycle_state : String
  pub occurred_at : String

-- `KbArticle`
pub record KbArticle : Type 0 where
  pub article_id : String
  pub title : String
  pub category_name : Option String

-- What the service answers for an alert.
pub record Answer : Type 0 where
  pub alert : AlertFull
  pub transitions : List Transition

-- `cls === text`
abbrev is_class : Option String → String → Bool
is_class none t = false
is_class (some c) t = c == t

pub sev_variant : Option String → Variant
sev_variant cls =
    if is_class cls "critical"
    then danger
    else if is_class cls "degraded" || is_class cls "warning"
    then warning
    else if is_class cls "informational"
    then info
    else muted

-- `fmtTs`, with the date as the browser writes it.
pub fmt_ts : (String → String) → Option String → String
fmt_ts local none = "—"
fmt_ts local (some iso) = if truthy iso then local iso else "—"

-- `a || b` of texts that may be absent.
abbrev pub first_truthy : Option String → String → String
first_truthy a b = if truthy? a then a or_else "" else b

-- The fields of the evidence, none where it is absent.
abbrev pub evidence_of : (Evidence → Option String) → Option Evidence → Option String
evidence_of field none = none
evidence_of field (some e) = field e

-- `searchTerm`
unfoldable pub search_term : Option Answer → String
search_term none = ""
search_term (some d) = first_truthy (evidence_of (λ e. e.name) d.alert.evidence) (
    first_truthy (evidence_of (λ e. e.problem_name) d.alert.evidence)
      d.alert.monitoring_resource_id)

-- The path of the query for the articles, which is sent only once there is something to look for;
-- `encode` is `encodeURIComponent`.
pub articles_path : (String → String) → Option Answer → Bool → Bool → Option String
unfolding search_term
articles_path encode answer is_loading is_error =
    if not is_loading && not is_error && truthy (search_term answer)
    then some ("/api/v1/kb/articles?q=" <> encode (search_term answer) <> "&status=published")
    else none

unfoldable pub is_acknowledged : AlertFull → Bool
is_acknowledged a = truthy? a.acknowledged_at || truthy? a.acknowledged_by

pub alert_label : AlertFull → String
alert_label a = first_truthy a.name (first_truthy a.problem_name a.alert_id)

-- The `useState` values.
pub record Detail : Type 0 where
  pub note_text : String
  pub kb_open : Bool

-- A ticket and a note come with their title and description.
pub data Message : Type 0 where
  back : Message
  acknowledge acknowledged acknowledge_failed : Message
  open_ticket : String → String → Message
  ticket_opened ticket_failed : Message
  set_note : String → Message
  save_note : String → String → Message
  note_saved note_failed : Message
  toggle_kb : Message
  open_article : String → Message

change_body : String → String → String → Body
change_body title description risk =
    ("title", str title)
    ∷ ("description", str description)
    ∷ ("category", str "normal")
    ∷ ("risk", str risk)
    ∷ []

unfoldable pub update : String → Message → Detail → Detail × List Effect
unfolding change_body
update id back s = (s, leave ∷ [])
update id acknowledge s =
    (s, request post ("/api/v1/alerting/alerts/" <> id <> "/acknowledge") (some []) ∷ [])
update id acknowledged s = (
  s,
  notify "Alerta reconhecido" success
      ∷ invalidate ("alert" ∷ id ∷ [])
      ∷ invalidate ("alerts" ∷ [])
      ∷ [],
)
update id acknowledge_failed s = (s, notify "Erro ao reconhecer alerta" error ∷ [])
update id (open_ticket title description) s =
    (s, request post "/api/v1/itsm/changes" (some (change_body title description "medium")) ∷ [])
update id ticket_opened s =
    (s, notify "Ticket ITSM criado" success ∷ invalidate ("itsm-changes" ∷ []) ∷ [])
update id ticket_failed s = (s, notify "Erro ao criar ticket" error ∷ [])
update id (set_note t) s = (record s { note_text = t }, [])
update id (save_note title description) s =
    (s, request post "/api/v1/itsm/changes" (some (change_body title description "low")) ∷ [])
update id note_saved s = (record s { note_text = "" }, notify "Nota registrada" success ∷ [])
update id note_failed s = (s, notify "Erro ao salvar nota" error ∷ [])
update id toggle_kb s = (record s { kb_open = not s.kb_open }, [])
update id (open_article article) s = (s, navigate ("/kb?article=" <> article) false ∷ [])
