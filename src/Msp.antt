-- ===== src/Msp.antt =====
-- frontend/src/pages/MSPOverviewPage.tsx: the clients of a provider and their health. The requests
-- that the query library repeats are left out, and so is its reading again on `refetch`.
pub mod Panel
use ready_jlmirror.Common.{
  ℕ, String, Bool, true, false, not, List, [], ◌∷◌, ◌++◌, Option, none, some, ◌==◌, ◌&&◌, ◌<>◌,
  ◌or_else◌, if◌then◌else◌, is_some, truthy, eqb, ltb, length, show, filter,
}
use ready_jlmirror.Shell.Frame.View.{initials_of}
use ready_jlmirror.Ui.{Effect, navigate, Query, Element, text, button, row, embed, when, each}

-- `ClientHealth`
pub record ClientHealth : Type 0 where
  pub tenant_id : String
  pub display_name : String
  pub health : String
  pub active_alerts : ℕ
  pub critical_alerts : ℕ
  pub warning_alerts : ℕ
  pub source_count : ℕ

-- `HealthBadge`
pub health_text : String → String
health_text health =
    if health == "critical"
    then "Crítico"
    else if health == "warning"
    then "Atenção"
    else if health == "ok"
    then "Operacional"
    else "Desconhecido"

-- `initials || "?"`
pub initials_or : (String → String) → String → String
initials_or upper name =
    let initials = initials_of upper name in if truthy initials then initials else "?"

-- The `useState` value of the page: the client that is selected.
abbrev pub Page : Type 0
Page = Option ClientHealth

pub data Message : Type 0 where
  refetch administer close : Message
  select : ClientHealth → Message

unfoldable pub update : Message → Page → Page × List Effect
update refetch p = (p, [])
update administer p = (p, navigate "/platform-admin" false ∷ [])
update close p = (none, [])
update (select c) p = (some c, [])

abbrev View : Type 0
View = List (Element Message)

-- How many clients have a health.
unfoldable pub count_of : String → List ClientHealth → ℕ
count_of health clients = length (filter (λ c. c.health == health) clients)

client_card : (String → String) → ClientHealth → View
client_card upper c =
    row (select c)
    ∷ text (initials_or upper c.display_name)
    ∷ text c.display_name
    ∷ text c.tenant_id
    ∷ text (health_text c.health)
    ∷ text (show c.active_alerts)
    ∷ text "alertas"
    ∷ text (show c.critical_alerts)
    ∷ text "críticos"
    ∷ text (show c.source_count)
    ∷ text "fontes"
    ∷ text "Clique para ver detalhes"
    ∷ []

summary_view : List ClientHealth → View
summary_view clients =
    let critical = count_of "critical" clients in
    let warning = count_of "warning" clients in
    let ok = count_of "ok" clients in
    text
        (show (length clients) <> " " <> (if eqb (length clients) 1 then "cliente" else "clientes"))
      ∷ when (ltb 0 critical)
          (text (show critical <> " crítico" <> (if ltb 1 critical then "s" else "")) ∷ [])
    ++ when (ltb 0 warning) (text (show warning <> " atenção") ∷ [])
    ++ when (ltb 0 ok) (text (show ok <> " operacional" <> (if ltb 1 ok then "is" else "")) ∷ [])

empty_view : View
empty_view =
    text "Nenhum cliente configurado"
    ∷ text "Adicione clientes em"
    ∷ button "Administração da Plataforma" true administer
    ∷ text "para visualizá-los aqui."
    ∷ []

unfoldable pub page_view : (String → String) → Query (List ClientHealth) → Page → View
unfolding client_card summary_view empty_view
page_view upper q p =
    let clients = q.result or_else [] in
    text "Portfólio de Clientes" ∷ when (is_some q.result) (summary_view clients)
    ++ button "Atualizar" (not q.is_fetching) refetch
      ∷ when q.is_loading (text "Carregando clientes…" ∷ [])
    ++ when q.is_error
        (text "Falha ao carregar clientes." ∷ button "Tentar novamente" true refetch ∷ [])
    ++ when (not q.is_loading && not q.is_error && eqb (length clients) 0) empty_view
    ++ when (ltb 0 (length clients)) (each (client_card upper) clients)
    ++ when (is_some p) (embed "ClientDetailPanel" ∷ [])
