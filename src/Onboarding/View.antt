-- ===== src/Onboarding/View.antt =====
-- OnboardingPage.tsx: what each step shows.
use ready_jlmirror.Common.{
  String, Bool, true, false, not, List, [], ◌∷◌, ◌++◌, ◌&&◌, ◌or_else◌, truthy, truthy?, trim,
}
use ready_jlmirror.Ui.{Element, text, spinner, button, input, when, each}
use ready_jlmirror.Onboarding.{
  Step, welcome, naming, creating, binding, done, Waiting, idle, registration, selection, Page,
  Message, begin, back, leave_app, set_name, submit,
}

abbrev View : Type 0
View = List (Element Message)

abbrev features : List (String × String)
features =
    (
      "Monitoramento unificado",
      "Zabbix integrado nativamente — alertas, inventário e métricas em tempo real.",
    )
    ∷ (
      "Alertas inteligentes",
      "Políticas de alerta com supressão, escalonamento e resposta automática.",
    )
    ∷ ("Automação e ITSM", "Tickets, SLA, mudanças e automações integrados ao fluxo de operação.")
    ∷ []

feature_view : String × String → View
feature_view (title, desc) = text title ∷ text desc ∷ []

-- `register.isPending`: the mutation waits for its callback, which waits for the second request.
is_pending : Waiting → Bool
is_pending idle = false
is_pending registration = true
is_pending selection = true

name_view : Page → View
unfolding is_pending
name_view p =
    button "← Voltar" true back
      ∷ text "Nomeie seu workspace"
      ∷ text "Use o nome da sua empresa ou equipe. Pode ser alterado depois."
      ∷ input "Nome do workspace" p.tenant_name set_name
      ∷ when (truthy? p.err) (text (p.err or_else "") ∷ [])
    ++ when (is_pending p.waiting) (spinner ∷ [])
    ++ button "Criar workspace" (truthy (trim p.tenant_name) && not (is_pending p.waiting)) submit
      ∷ []

step_view : Page → Step → View
unfolding feature_view name_view
step_view p creating = spinner ∷ text "Criando workspace…" ∷ []
step_view p binding = spinner ∷ text "Configurando sessão…" ∷ []
step_view p done = text "Workspace pronto!" ∷ text "Carregando…" ∷ []
step_view p welcome =
    text "Plataforma de operações para MSPs e equipes de TI" ∷ each feature_view features
    ++ button "Criar meu workspace" true begin ∷ button "Sair" true leave_app ∷ []
step_view p naming = name_view p

unfoldable pub page_view : Page → View
unfolding step_view
page_view p = step_view p p.step
