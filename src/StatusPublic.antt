-- ===== src/StatusPublic.antt =====
-- frontend/src/pages/StatusPublicPage.tsx: the public page of a tenant's status.
use ready_jlmirror.Common.{
  ℕ, String, not, List, [], ◌∷◌, ◌++◌, Option, none, some, ◌==◌, ◌&&◌, ◌<>◌, ◌or_else◌,
  if◌then◌else◌, truthy?, eqb, ltb, length, show, lookup,
}
use ready_jlmirror.Client.{Response, Reply, rejected, response, error, Result, ok, err}
use ready_jlmirror.Ui.{Query, Element, text, button, when, each}

-- `ComponentItem`, as the list shows it.
pub record Item : Type 0 where
  pub name : String
  pub description : Option String
  pub status : String

-- `StatusData`
pub record StatusData : Type 0 where
  pub public_name : String
  pub status : String
  pub active_alerts : ℕ
  pub critical_alerts : ℕ
  pub source_count : ℕ
  pub components : Option (List Item)

-- `STATUS_CONFIG`: the label of a status; the rest is styling.
abbrev status_config : List (String × String)
status_config =
    ("operational", "Todos os sistemas operacionais")
    ∷ ("degraded", "Degradação de performance")
    ∷ ("outage", "Interrupção de serviço")
    ∷ ("maintenance", "Em manutenção")
    ∷ ("unknown", "Status desconhecido")
    ∷ []

-- `STATUS_CONFIG[status] ?? STATUS_CONFIG.unknown`
pub banner_label : String → String
banner_label status = lookup status status_config or_else "Status desconhecido"

abbrev component_labels : List (String × String)
component_labels =
    ("operational", "Operacional")
    ∷ ("degraded", "Degradado")
    ∷ ("outage", "Incidente ativo")
    ∷ ("maintenance", "Manutenção")
    ∷ ("unknown", "Desconhecido")
    ∷ []

pub component_label : String → String
component_label status = lookup status component_labels or_else status

-- `fetchStatus`: what the reply of `fetch` for `/api/public/status/${slug}` comes to.
pub status_path : String → String
status_path slug = "/api/public/status/" <> slug

json_of : Response StatusData → Option StatusData → Result StatusData
json_of r (some d) = ok d
json_of r none = err (error r.json_error)

unfoldable pub fetch_status : Reply StatusData → Result StatusData
unfolding json_of
fetch_status (rejected message) = err (error message)
fetch_status (response r) =
    if eqb r.status 404
    then err (error "not_found")
    else if not r.ok
    then err (error "fetch_error")
    else json_of r r.json

pub monitoring_status : StatusData → String
monitoring_status d =
    if ltb 0 d.critical_alerts
    then "outage"
    else if ltb 0 d.active_alerts
    then "degraded"
    else if ltb 0 d.source_count
    then "operational"
    else "unknown"

pub alerts_status : StatusData → String
alerts_status d =
    if ltb 0 d.critical_alerts
    then "outage"
    else if ltb 0 d.active_alerts
    then "degraded"
    else "operational"

-- The components that are listed: those of the answer, or three that are made of its counts.
pub made_items : StatusData → List Item
made_items d =
    record { name = "Monitoramento"; description = none; status = monitoring_status d }
    ∷ record { name = "Alertas"; description = none; status = alerts_status d }
    ∷ record { name = "Plataforma"; description = none; status = "operational" }
    ∷ []

unfoldable pub items_of : StatusData → List Item
unfolding made_items
items_of d =
    let given = d.components or_else [] in if ltb 0 (length given) then given else made_items d

-- The one message: `refetch`.
pub data Message : Type 0 where
  refetch : Message

abbrev View : Type 0
View = List (Element Message)

item_view : Item → View
item_view c =
    text c.name ∷ when (truthy? c.description) (text (c.description or_else "") ∷ [])
    ++ text (component_label c.status) ∷ []

answer_view : String → Option StatusData → View
unfolding item_view
answer_view now none = []
answer_view now (some d) =
    text (banner_label d.status)
      ∷ text ("Atualizado em " <> now)
      ∷ text (show d.active_alerts)
      ∷ text "Alertas ativos"
      ∷ text (show d.critical_alerts)
      ∷ text "Críticos"
      ∷ text (show d.source_count)
      ∷ text "Fontes monitoradas"
      ∷ text "Componentes"
      ∷ each item_view (items_of d)
    ++ when (eqb d.active_alerts 0) (text "Nenhum incidente registrado nos últimos 90 dias." ∷ [])
    ++ text "Atualização automática a cada 60 segundos" ∷ []

name_of : String → Option StatusData → String
name_of slug none = slug
name_of slug (some d) = d.public_name

-- `message` of the error of the query, where there is one; `now` is the time as the browser writes
-- it.
unfoldable pub status_view : String → String → Query StatusData → Option String → View
unfolding name_of answer_view
status_view slug now q failure =
    text (name_of slug q.result)
      ∷ button "Atualizar" (not q.is_fetching) refetch
      ∷ when q.is_loading (text "Carregando status…" ∷ [])
    ++ when (q.is_error && ((failure or_else "") == "not_found")) (
        text "Página de status não encontrada"
        ∷ text "Verifique o endereço ou contate o responsável pelo serviço."
        ∷ [])
    ++ when (q.is_error && not ((failure or_else "") == "not_found"))
        (text "Não foi possível carregar o status. Tente novamente em instantes." ∷ [])
    ++ answer_view now q.result
    ++ text ("Atualizado em " <> now) ∷ text "Monitorado por JLMirror" ∷ []
