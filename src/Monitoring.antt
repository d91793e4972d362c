-- ===== src/Monitoring.antt =====
-- frontend/src/pages/MonitoringPage.tsx: the sources of monitoring data, and their credentials.
pub mod Slug
pub mod AddSource
pub mod Rotate
pub mod Card
mod Tests
use ready_jlmirror.Common.{
  ℕ, String, Bool, true, false, List, [], ◌∷◌, ◌++◌, Option, none, some, ◌==◌, ◌||◌, ◌or_else◌,
  if◌then◌else◌, eqb, length,
}
use ready_jlmirror.Ui.{
  Variant, danger, warning, muted, success, Query, Element, text, spinner, button, embed, when,
  each,
}

-- `Source`
pub record Source : Type 0 where
  pub monitoring_source_id : String
  pub display_name : String
  pub operational_evidence_state : String
  pub provider_instance_ref : Option String
  pub provider_base_url : Option String
  pub configuration_revision : Option ℕ
  pub scope_revision : Option ℕ

pub state_variant : String → Variant
state_variant state =
    if state == "current"
    then success
    else if (state == "stale") || (state == "incomplete") || (state == "reconciliation_required")
    then warning
    else if state == "unavailable"
    then danger
    else muted

-- The `useState` value of the page.
pub record Page : Type 0 where
  pub show_add : Bool

pub data Message : Type 0 where
  add close_add : Message

pub update : Message → Page → Page
update add p = record p { show_add = true }
update close_add p = record p { show_add = false }

card : {M : Type 0} → Source → List (Element M)
card s = embed "SourceCard" ∷ []

pub page_view : Query (List Source) → Page → List (Element Message)
unfolding card
page_view q p =
    let sources = q.result or_else [] in
    when p.show_add (embed "AddSourceModal" ∷ [])
    ++ text "Fontes de Monitoramento" ∷ when q.is_fetching (spinner ∷ [])
    ++ button "Adicionar fonte" true add
      ∷ (if q.is_loading
          then spinner ∷ []
          else if q.is_error
          then text "Falha ao carregar fontes." ∷ []
          else if eqb (length sources) 0
          then text "Nenhuma fonte configurada. Clique em \"Adicionar fonte\" para começar." ∷ []
          else each card sources)
