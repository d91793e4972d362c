-- ===== src/Shell/Menu.antt =====
-- The groups of the navigation menu, by the permissions of the session and whether it has MSP
-- clients. Icons are left out.
pub mod Access
use ready_jlmirror.Common.{
  String, Bool, true, false, List, [], ◌∷◌, ◌++◌, Option, none, some, ◌||◌, ◌==◌, if◌then◌else◌,
  find?, ◌or_else◌,
}
use ready_jlmirror.Session.{includes}

pub record NavItem : Type 0 where
  pub id : String
  pub label : String
  pub description : String

pub record NavGroup : Type 0 where
  pub label : String
  pub items : List NavItem

abbrev item : String → String → String → NavItem
item i l d = record { id = i; label = l; description = d }

abbrev group : String → List NavItem → NavGroup
group l is = record { label = l; items = is }

-- `...(b ? xs : [])`
abbrev when {ℓ} : {A : Type ℓ} → Bool → List A → List A
when b xs = if b then xs else []

-- The groups, by `has("monitoring:operate")`, `has("tenant:admin")`, `has("audit:read")`,
-- `has("platform_admin")` and `hasMSPClients`.
groups_for : (operate admin audit platform msp : Bool) → List NavGroup
groups_for operate admin audit platform msp =
    (group "Operações" (
        item "noc" "NOC" "Painel em tempo real"
        ∷ item "alerts" "Alertas" "Alertas ativos"
        ∷ item "incidents" "Incidentes" "Gestão de incidentes"
        ∷ item "policies" "Políticas" "Regras de alerta"
        ∷ [])
      ∷ [])
    ++ when operate (
        group "ITSM" (
          item "changes" "Mudanças" "Controle de mudanças"
          ∷ item "sla" "SLA" "Níveis de serviço"
          ∷ item "automation" "Automação" "Scripts e tarefas"
          ∷ item "reports" "Relatórios" "Relatórios periódicos"
          ∷ [])
        ∷ [])
    ++ (group "Inteligência"
          (item "aiops" "AIOps" "Correlação por IA" ∷ item "finops" "FinOps" "Custos de infra" ∷ [])
        ∷ group "Integrações" (
            (item "monitoring" "Monitoramento" "Fontes e integrações"
              ∷ item "inventory" "Inventário" "Hosts e ativos"
              ∷ [])
            ++ when operate (item "alertmanager" "Alertmanager" "Regras Prometheus" ∷ []))
        ∷ group "Infraestrutura" (
            when operate (
              item "infra" "Infra" "Servidores e redes"
              ∷ item "maintenance" "Manutenção" "Janelas de manutenção"
              ∷ [])
            ++ (item "platform" "Plataforma" "Configurações gerais" ∷ []))
        ∷ [])
    ++ when operate (
        group "Notificações" (
          item "channels" "Canais" "Canais de notificação"
          ∷ item "escalation" "Escalonamento" "Políticas de escalonamento"
          ∷ [])
        ∷ [])
    ++ when (admin || audit) (
        group "Equipe & Acesso" (
          when admin (
            item "users" "Usuários" "Convidar e gerir usuários"
            ∷ item "team" "Equipe" "Membros e funções"
            ∷ item "apikeys" "API Keys" "Chaves de integração"
            ∷ [])
          ++ when audit (item "audit" "Auditoria" "Logs de auditoria" ∷ []))
        ∷ [])
    ++ when msp (group "MSP" (item "msp" "Portfólio de Clientes" "Clientes MSP" ∷ []) ∷ [])
    ++ when (platform || admin) (
        group "Plataforma" (
          item "platform-admin" "Administração da Plataforma" "Configurações globais da plataforma"
          ∷ [])
        ∷ [])

pub nav_groups : List String → Bool → List NavGroup
unfolding groups_for
nav_groups perms msp =
    groups_for (includes "monitoring:operate" perms) (includes "tenant:admin" perms)
      (includes "audit:read" perms) (includes "platform_admin" perms) msp

-- `navGroups.flatMap((g) => g.items)`
abbrev pub items_of : List NavGroup → List NavItem
items_of [] = []
items_of (g ∷ gs) = g.items ++ items_of gs

abbrev label_of : Option NavItem → String
label_of none = ""
label_of (some i) = i.label

-- `currentLabel`
pub current_label : List String → Bool → String → String
current_label perms msp view =
    label_of (find? (λ i. i.id == view) (items_of (nav_groups perms msp)))
