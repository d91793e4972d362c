-- ===== src/Device/View.antt =====
-- DeviceDetail.tsx: what the page of a device shows. The charts are a library's, and stand by their
-- names.
use ready_jlmirror.Common.{
  ℕ, ◌-◌, String, Bool, true, false, not, List, [], ◌∷◌, ◌++◌, Option, none, some, ◌==◌, ◌&&◌, ◌||◌,
  ◌<>◌, ◌or_else◌, if◌then◌else◌, is_some, truthy, truthy?, eqb, ltb, length, show, filter, find?,
}
use ready_jlmirror.Session.{includes}
use ready_jlmirror.Ui.{
  Query, Element, text, badge, spinner, button, row, link, embed, when, each, warning, muted,
  danger,
}
use ready_jlmirror.Device.{
  Numbers, MetricState, Problem, fmt_ts, clean_unit, fmt_metric_value, is_text, avail_variant,
  avail_label, sev_variant, is_numeric,
}
use ready_jlmirror.Device.Layout.{
  Layout, Message, back, toggle_metric, change_period, change_hide_zeros, refresh,
}
use ready_jlmirror.Device.Metrics.{Headlines, headlines, has_overview, overview_ids, grid_metrics}

-- `Interface`
pub record Interface : Type 0 where
  pub interfaceid : String
  pub interface_type : String
  pub main : Bool
  pub ip : Option String
  pub dns : Option String
  pub port : Option String

-- `Inventory`, the fields that are shown.
pub record Inventory : Type 0 where
  pub os : Option String
  pub os_full : Option String
  pub vendor : Option String
  pub model : Option String
  pub device_type : Option String
  pub hardware : Option String
  pub hardware_full : Option String
  pub serial_primary : Option String
  pub asset_tag : Option String
  pub location : Option String
  pub mac_primary : Option String
  pub mac_secondary : Option String
  pub contact : Option String
  pub poc_1_name : Option String
  pub poc_1_email : Option String
  pub poc_1_phone : Option String
  pub poc_2_name : Option String
  pub poc_2_email : Option String
  pub site_city : Option String
  pub site_rack : Option String
  pub site_notes : Option String
  pub url_a : Option String
  pub url_b : Option String
  pub url_c : Option String

-- `Evidence`, the fields that are shown; what is absent in it or is it itself absent is none.
pub record Evidence : Type 0 where
  pub host_status : Option String
  pub agent_availability : Option String
  pub agent_error : Option String
  pub snmp_error : Option String
  pub maintenance_status : Option String
  pub maintenance_type : Option String
  pub inventory : Option Inventory
  pub interfaces : Option (List Interface)
  -- reference and name
  pub groups : Option (List (String × Option String))
  -- tag and value
  pub tags : Option (List (String × String))

-- The evidence where `normalized_evidence` is absent.
abbrev no_evidence : Evidence
no_evidence = record {
  host_status = none;
  agent_availability = none;
  agent_error = none;
  snmp_error = none;
  maintenance_status = none;
  maintenance_type = none;
  inventory = none;
  interfaces = none;
  groups = none;
  tags = none;
}

-- `ResourceDetail`, the fields that are shown.
pub record ResourceDetail : Type 0 where
  pub monitoring_resource_id : String
  pub display_name : Option String
  pub presence_state : Option String
  pub last_observed_at : Option String
  pub normalized_evidence : Option Evidence

pub record Inputs : Type 0 where
  pub resource : Query ResourceDetail
  pub current : Query (List MetricState)
  pub problems : Query (List Problem)
  pub numbers : Numbers
  pub local : String → String
  pub local_time : String → String
  pub lower : String → String
  pub upper : String → String

abbrev View : Type 0
View = List (Element Message)

periods : List String
periods = "1h" ∷ "6h" ∷ "12h" ∷ "24h" ∷ "7d" ∷ []

-- `PeriodPicker`
period_button : String → View
period_button k = button k true (change_period k) ∷ []

period_picker : View
unfolding period_button periods
period_picker = each period_button periods

-- `KV`
kv_view : String → Option String → View
kv_view label none = []
kv_view label (some value) = when (truthy value) (text label ∷ text value ∷ [])

-- `a ?? b`
first_of : Option String → Option String → Option String
first_of none b = b
first_of (some a) b = some a

field_of : Option Inventory → (Inventory → Option String) → Option String
field_of none f = none
field_of (some inv) f = f inv

iface_field : Option Interface → (Interface → Option String) → Option String
iface_field none f = none
iface_field (some iface) f = f iface

first_iface : List Interface → Option Interface
first_iface [] = none
first_iface (iface ∷ ifaces) = some iface

main_or_first : List Interface → Option Interface → Option Interface
unfolding first_iface
main_or_first ifaces (some iface) = some iface
main_or_first ifaces none = first_iface ifaces

-- `primaryIface`
pub primary_iface : Evidence → Option Interface
unfolding main_or_first
primary_iface ev =
    let ifaces = ev.interfaces or_else [] in main_or_first ifaces (find? (λ i. i.main) ifaces)

-- `OverviewChartCard` with `MetricChart`
unit_text : Option String → View
unit_text none = []
unit_text (some u) = when (truthy u) (text (clean_unit (some u) or_else "") ∷ [])

overview_card : Inputs → String → Option MetricState → View
unfolding unit_text
overview_card i title none = []
overview_card i title (some m) =
    let value = fmt_metric_value i.numbers m.value m.unit in
    text title ∷ when (truthy value) (text value ∷ unit_text m.unit) ++ embed "MetricChart" ∷ []

net_card : Option MetricState → Option MetricState → View
net_card (some m) (some n) = text "Rede (entrada / saída)" ∷ embed "DualLineChart" ∷ []
net_card _ _ = []

overview_view : Inputs → Headlines → View
unfolding period_picker overview_card net_card
overview_view i h =
    text "Visão Geral" ∷ period_picker
    ++ overview_card i "CPU" h.cpu
    ++ overview_card i "Memória" h.mem
    ++ overview_card i "Disco" h.disk
    ++ net_card h.net_in h.net_out

iface_line : Interface → View
iface_line iface =
    text iface.interface_type
    ∷ text (
        if truthy? iface.ip
        then iface.ip or_else ""
        else if truthy? iface.dns
        then iface.dns or_else ""
        else "—")
    ∷ when iface.main (text "(primário)" ∷ [])

url_view : Option String → View
url_view none = []
url_view (some u) = when (truthy u) (link u u ∷ [])

identity_view : Inputs → ResourceDetail → Evidence → View
unfolding kv_view first_of field_of iface_field
identity_view i r ev =
    let inv = ev.inventory in
    let iface = primary_iface ev in
    text "Identificação" ∷ kv_view "Endereço IP" (iface_field iface (λ f. f.ip))
    ++ kv_view "DNS" (iface_field iface (λ f. f.dns))
    ++ kv_view "Porta" (iface_field iface (λ f. f.port))
    ++ kv_view "Protocolo" (iface_field iface (λ f. some f.interface_type))
    ++ kv_view "Sistema op." (first_of (field_of inv (λ v. v.os_full)) (field_of inv (λ v. v.os)))
    ++ kv_view "Fabricante" (field_of inv (λ v. v.vendor))
    ++ kv_view "Modelo" (field_of inv (λ v. v.model))
    ++ kv_view "Tipo" (field_of inv (λ v. v.device_type))
    ++ kv_view "Hardware"
        (first_of (field_of inv (λ v. v.hardware_full)) (field_of inv (λ v. v.hardware)))
    ++ kv_view "Serial" (field_of inv (λ v. v.serial_primary))
    ++ kv_view "Asset tag" (field_of inv (λ v. v.asset_tag))
    ++ kv_view "MAC primário" (field_of inv (λ v. v.mac_primary))
    ++ kv_view "MAC secundário" (field_of inv (λ v. v.mac_secondary))
    ++ kv_view "Último visto" (some (fmt_ts i.local r.last_observed_at))

contact_view : Evidence → View
unfolding kv_view field_of url_view iface_line
contact_view ev =
    let inv = ev.inventory in
    let url = λ (u : Inventory → Option String). field_of inv u in
    text "Localização e contato" ∷ kv_view "Local" (field_of inv (λ v. v.location))
    ++ kv_view "Rack" (field_of inv (λ v. v.site_rack))
    ++ kv_view "Cidade" (field_of inv (λ v. v.site_city))
    ++ kv_view "Observações" (field_of inv (λ v. v.site_notes))
    ++ kv_view "Contato" (field_of inv (λ v. v.contact))
    ++ kv_view "Responsável 1" (field_of inv (λ v. v.poc_1_name))
    ++ kv_view "E-mail 1" (field_of inv (λ v. v.poc_1_email))
    ++ kv_view "Telefone 1" (field_of inv (λ v. v.poc_1_phone))
    ++ kv_view "Responsável 2" (field_of inv (λ v. v.poc_2_name))
    ++ kv_view "E-mail 2" (field_of inv (λ v. v.poc_2_email))
    ++ when
        (truthy? (url (λ v. v.url_a))
          || truthy? (url (λ v. v.url_b))
          || truthy? (url (λ v. v.url_c)))
        (text "Acesso remoto" ∷ url_view (url (λ v. v.url_a))
          ++ url_view (url (λ v. v.url_b))
          ++ url_view (url (λ v. v.url_c)))
    ++ when (ltb 1 (length (ev.interfaces or_else [])))
        (text "Interfaces" ∷ each iface_line (ev.interfaces or_else []))
    ++ when (truthy? ev.agent_error) (text ("Erro agente: " <> (ev.agent_error or_else "")) ∷ [])
    ++ when (truthy? ev.snmp_error) (text ("Erro SNMP: " <> (ev.snmp_error or_else "")) ∷ [])

group_view : String × Option String → View
group_view (ref, name) = text (name or_else ref) ∷ []

tag_view : String × String → View
tag_view (tag, value) = text (tag <> (if truthy value then ": " <> value else "")) ∷ []

-- `MetricCard`; it is clickable where the metric is a number.
metric_card : Inputs → Layout → MetricState → View
metric_card i s m =
    when (is_numeric m) (row (toggle_metric m.metric_definition_id) ∷ [])
    ++ text m.name
      ∷ text (fmt_metric_value i.numbers m.value m.unit)
      ∷ when (truthy? m.observed_at) (text (fmt_ts i.local m.observed_at) ∷ [])
    ++ when (includes m.metric_definition_id s.expanded && is_numeric m) (embed "MetricChart" ∷ [])

-- What the card of all metrics shows; `others` is the number of metrics less that of the overview's
-- identities, which is not less than zero.
grid_view : Inputs → Layout → ℕ → List MetricState → View
unfolding metric_card
grid_view i s others grid =
    if i.current.is_loading
    then spinner ∷ []
    else if i.current.is_error
    then text "Falha ao carregar métricas." ∷ []
    else if eqb (length grid) 0
    then text (
        if ltb 0 others
        then "Todas as métricas estão com valor zero."
        else "Nenhuma métrica adicional disponível.")
      ∷ when (ltb 0 others) (button "Mostrar todas" true (change_hide_zeros false) ∷ [])
    else text "Clique em uma métrica numérica para ver o gráfico histórico."
      ∷ each (metric_card i s) grid

-- The identities of the overview, each once, as a `Set` has them.
distinct : List String → List String
distinct [] = []
distinct (x ∷ xs) = x ∷ filter (λ y. not (y == x)) (distinct xs)

metrics_view : Inputs → Layout → Headlines → List MetricState → View
unfolding grid_view distinct period_picker
metrics_view i s h metrics =
    let grid = grid_metrics i.numbers i.lower s.hide_zeros metrics in
    let others = length metrics - length (distinct (overview_ids h)) in
    text "Todas as métricas"
      ∷ text (
          show (length grid)
          <> (if s.hide_zeros && ltb (length grid) others then " / " <> show others else ""))
      ∷ button (if s.hide_zeros then "≠ 0" else "= 0") true (change_hide_zeros (not s.hide_zeros))
      ∷ when (not (has_overview h)) period_picker
    ++ grid_view i s others grid

-- `activeProblems`
active_problems : List Problem → List Problem
active_problems problems = filter (λ p. not (truthy? p.resolved_at)) problems

problem_view : Inputs → Problem → View
problem_view i p =
    badge (sev_variant p.severity_class) (i.upper (p.severity_class or_else "?"))
    ∷ text (p.summary or_else "—")
    ∷ text ("Aberto " <> fmt_ts i.local p.opened_at)
    ∷ []

problems_view : Inputs → View
unfolding active_problems problem_view
problems_view i =
    let active = active_problems (i.problems.result or_else []) in
    text "Problemas ativos"
      ∷ when (ltb 0 (length active)) (badge danger (show (length active)) ∷ [])
    ++ (if i.problems.is_loading
        then spinner ∷ []
        else if eqb (length active) 0
        then text "Nenhum problema ativo." ∷ []
        else each (problem_view i) active)

header_view : Inputs → Layout → ResourceDetail → Evidence → View
header_view i s r ev =
    button "← Inventário" true back
      ∷ text (r.display_name or_else r.monitoring_resource_id)
      ∷ badge (avail_variant ev.agent_availability) (avail_label ev.agent_availability)
      ∷ when (is_text ev.maintenance_status "active") (
          badge warning (
            "Em manutenção"
            <> (if is_text ev.maintenance_type "no_data" then " (sem coleta)" else ""))
          ∷ [])
    ++ when (is_text ev.host_status "disabled") (badge muted "Desabilitado" ∷ [])
    ++ when (is_text r.presence_state "removed") (badge muted "Removido" ∷ [])
    ++ when (is_some s.last_refreshed)
        (text ("Atualizado às " <> i.local_time (s.last_refreshed or_else "")) ∷ [])
    ++ button "Atualizar" (not i.current.is_fetching) refresh ∷ []

resource_view : Inputs → Layout → ResourceDetail → View
unfolding header_view overview_view identity_view contact_view group_view tag_view metrics_view
    problems_view
resource_view i s r =
    let ev = r.normalized_evidence or_else no_evidence in
    let metrics = i.current.result or_else [] in
    let h = headlines i.lower metrics in
    header_view i s r ev
    ++ when (has_overview h) (overview_view i h)
    ++ when (is_some ev.inventory || is_some (primary_iface ev))
        (identity_view i r ev ++ contact_view ev)
    ++ when (ltb 0 (length (ev.groups or_else [])) || ltb 0 (length (ev.tags or_else [])))
        (each group_view (ev.groups or_else []) ++ each tag_view (ev.tags or_else []))
    ++ when (ltb 0 (length metrics)) (metrics_view i s h metrics)
    ++ problems_view i

maybe_view : Inputs → Layout → Option ResourceDetail → View
unfolding resource_view
maybe_view i s none = button "← Inventário" true back ∷ text "Falha ao carregar dispositivo." ∷ []
maybe_view i s (some r) = resource_view i s r

unfoldable pub device_view : Inputs → Layout → View
unfolding maybe_view
device_view i s =
    if i.resource.is_loading
    then spinner ∷ []
    else if i.resource.is_error
    then maybe_view i s none
    else maybe_view i s i.resource.result
