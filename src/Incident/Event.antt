-- ===== src/Incident/Event.antt =====
-- IncidentResponsePage.tsx, `EventDetail`: what is done about an event.
use ready_jlmirror.Common.{
  String, Bool, true, false, not, List, [], ◌∷◌, ◌++◌, some, ◌==◌, ◌&&◌, ◌||◌, ◌<>◌, ◌or_else◌,
  if◌then◌else◌, truthy, trim, ◌≡◌, All, arith,
}
use ready_jlmirror.Ui.{
  Effect, request, post, patch, notify, success, error, invalidate, leave, str, Call, Element, text,
  badge, button, input, when, offers, Body,
}
use ready_jlmirror.Ui.Offers.{OffersOnly, append, after_button, under, by_test, view_rules}
use ready_jlmirror.Incident.{ErrorEvent, is_hint, sev_variant, status_variant, fmt_ts}

-- The `useState` values.
pub record EventDetail : Type 0 where
  pub assign_to : String
  pub show_assign_form : Bool

abbrev pub start : EventDetail
start = record { assign_to = ""; show_assign_form = false }

pub data Message : Type 0 where
  back open_ticket ticket_opened ticket_failed : Message
  mark_processed marked mark_failed : Message
  set_assign_to : String → Message
  show_assign hide_assign assign assigned assign_failed : Message

-- `event.error_code || ...`
title_of : ErrorEvent → String
title_of e = if truthy e.error_code then e.error_code else "Erro de aplicação"

ticket_body : ErrorEvent → Body
unfolding title_of
ticket_body e =
    ("title", str (title_of e))
    ∷ ("description", str e.error_message)
    ∷ (
      "category",
      str (
          if is_hint e.severity_hint "CRITICAL" || is_hint e.severity_hint "HIGH"
          then "emergency"
          else "normal"),
    )
    ∷ (
      "risk",
      str (
          if is_hint e.severity_hint "CRITICAL"
          then "critical"
          else if is_hint e.severity_hint "HIGH"
          then "high"
          else "medium"),
    )
    ∷ []

assign_body : ErrorEvent → String → Body
unfolding title_of
assign_body e to =
    ("title", str (title_of e))
    ∷ ("description", str (e.error_message <> "\n\nAtribuído a: " <> to))
    ∷ ("category", str "emergency")
    ∷ ("risk", str "high")
    ∷ []

unfoldable pub update : String → ErrorEvent → Message → EventDetail → EventDetail × List Effect
unfolding ticket_body assign_body
update tenant e back s = (s, leave ∷ [])
update tenant e open_ticket s = (s, request post "/api/v1/itsm/changes" (some (ticket_body e)) ∷ [])
update tenant e ticket_opened s =
    (s, invalidate ("itsm-changes" ∷ []) ∷ notify "Ticket ITSM criado com sucesso." success ∷ [])
update tenant e ticket_failed s = (s, notify "Erro ao criar ticket ITSM." error ∷ [])
update tenant e mark_processed s = (
  s,
  request patch
        ("/api/v1/alerting/tenants/" <> tenant <> "/application-error-events/" <> e.event_id)
        (some (("status", str "processed") ∷ []))
      ∷ [],
)
update tenant e marked s = (
  s,
  invalidate ("ir-events" ∷ tenant ∷ [])
      ∷ notify "Evento marcado como processado." success
      ∷ leave
      ∷ [],
)
update tenant e mark_failed s = (s, notify "Erro ao marcar evento como processado." error ∷ [])
update tenant e (set_assign_to t) s = (record s { assign_to = t }, [])
update tenant e show_assign s = (record s { show_assign_form = true }, [])
update tenant e hide_assign s = (record s { show_assign_form = false; assign_to = "" }, [])
update tenant e assign s =
    (s, request post "/api/v1/itsm/changes" (some (assign_body e s.assign_to)) ∷ [])
update tenant e assigned s = (
  record s { assign_to = ""; show_assign_form = false },
  invalidate ("itsm-changes" ∷ [])
      ∷ notify ("Evento atribuído a \"" <> s.assign_to <> "\" via ticket ITSM.") success
      ∷ [],
)
update tenant e assign_failed s = (s, notify "Erro ao atribuir evento." error ∷ [])

pub record Inputs : Type 0 where
  pub ticket : Call
  pub marking : Call
  pub assignment : Call
  pub local : String → String

abbrev View : Type 0
View = List (Element Message)

-- `Row`
field : String → String → View
field label value = text label ∷ text value ∷ []

ticket_view : Inputs → View
ticket_view i =
    button (if i.ticket.is_pending then "" else "Abrir ticket ITSM") (not i.ticket.is_pending)
        open_ticket
      ∷ when i.ticket.is_error (text "Falha ao criar ticket." ∷ [])
    ++ when i.ticket.is_success (text "Ticket criado." ∷ [])

mark_view : Inputs → View
mark_view i =
    button (if i.marking.is_pending then "" else "Marcar como processado")
      (not i.marking.is_pending) mark_processed
    ∷ when i.marking.is_error (text "Falha ao atualizar status." ∷ [])

assign_view : Inputs → EventDetail → View
assign_view i s =
    if not s.show_assign_form
    then button "Atribuir a…" true show_assign ∷ []
    else input "Nome ou e-mail do responsável" s.assign_to set_assign_to
      ∷ button (if i.assignment.is_pending then "" else "Atribuir")
          (truthy (trim s.assign_to) && not i.assignment.is_pending) assign
      ∷ button "Cancelar" true hide_assign
      ∷ when i.assignment.is_error (text "Falha ao atribuir." ∷ [])

unfoldable pub event_view : Inputs → ErrorEvent → EventDetail → View
unfolding field ticket_view mark_view assign_view
event_view i e s =
    button "← Voltar" true back
      ∷ text "Evento de Erro — Detalhes"
      ∷ badge (sev_variant e.severity_hint) (e.severity_hint or_else "N/A")
      ∷ badge (status_variant e.status) e.status
      ∷ field "Event ID" e.event_id
    ++ field "Aplicação" e.application_id
    ++ field "Código do erro" e.error_code
    ++ field "Mensagem" e.error_message
    ++ field "Ocorreu em" (fmt_ts i.local e.occurred_at)
    ++ field "Recebido em" (fmt_ts i.local e.received_at)
    ++ field "Operação" (e.operation or_else "—")
    ++ field "Principal" e.source_principal_id
    ++ text "Ações" ∷ when (not (e.status == "processed")) (ticket_view i)
    ++ when ((e.status == "received") || (e.status == "processing")) (mark_view i)
    ++ assign_view i s

-- What may be done with an event, by its status, and by what is awaited.
abbrev pub Fits : Inputs → ErrorEvent → EventDetail → Message → Type 0
Fits i e s open_ticket = ((e.status == "processed") ≡ false) × (i.ticket.is_pending ≡ false)
Fits i e s mark_processed =
    (((e.status == "received") || (e.status == "processing")) ≡ true)
    × (i.marking.is_pending ≡ false)
Fits i e s assign = (truthy (trim s.assign_to) ≡ true) × (i.assignment.is_pending ≡ false)
Fits i e s _ = Unit

idle : (b : Bool) → not b ≡ true → b ≡ false
idle b h = ground arith

left : (b c : Bool) → (b && c) ≡ true → b ≡ true
left b c h = ground arith

right : (b c : Bool) → (b && not c) ≡ true → c ≡ false
right b c h = ground arith

-- Whatever the state of the page and of its requests, a ticket is opened only for an event that is
-- not processed, only one that is received or in processing is marked, an assignment names
-- somebody, and none of these is sent while one like it is pending.
pub event_view-Fits :
    (i : Inputs) (e : ErrorEvent) (s : EventDetail) → All (Fits i e s) (offers (event_view i e s))
unfolding event_view field ticket_view mark_view assign_view offers
event_view-Fits i e s = shown.only
  where
    shown : OffersOnly (Fits i e s) (event_view i e s)
    shown = search (view_rules, append, after_button, under, by_test, idle, left, right) depth 40
