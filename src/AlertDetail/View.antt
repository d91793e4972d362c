-- ===== src/AlertDetail/View.antt =====
-- What the page of an alert shows.
use ready_jlmirror.Common.{
  String, Bool, true, false, not, List, [], ◌∷◌, ◌++◌, Option, none, some, ◌&&◌, ◌<>◌, ◌≡◌, All,
  arith, ◌or_else◌, if◌then◌else◌, truthy, truthy?, trim, take, length, eqb, ltb, show,
}
use ready_jlmirror.Ui.{
  Query, Call, Element, text, badge, spinner, button, row, input, when, each, info, muted, offers,
}
use ready_jlmirror.Ui.Offers.{
  OffersOnly, nil, append, after_button, after_row, under, by_test, for_each, view_rules,
}
use ready_jlmirror.AlertDetail.{
  AlertFull, Transition, KbArticle, Answer, sev_variant, fmt_ts, first_truthy, evidence_of,
  is_acknowledged, alert_label, Detail, Message, back, acknowledge, open_ticket, set_note,
  save_note, toggle_kb, open_article,
}

pub record Inputs : Type 0 where
  pub query : Query Answer
  pub articles : Query (List KbArticle)
  pub acknowledging : Call
  pub ticket : Call
  pub note : Call
  -- `kbQuery.isSuccess`
  pub articles_there : Bool
  pub can_operate : Bool
  pub local : String → String
  pub upper : String → String

abbrev View : Type 0
View = List (Element Message)

-- `KV`
pair_view : String → String → View
pair_view label value = text label ∷ text value ∷ []

actions_view : Inputs → AlertFull → View
actions_view i a =
    when (not (is_acknowledged a)) (
      when i.acknowledging.is_pending (spinner ∷ [])
      ++ button "Reconhecer alerta" (not i.acknowledging.is_pending) acknowledge ∷ [])
    ++ when i.ticket.is_pending (spinner ∷ [])
    ++ button "Abrir ticket ITSM" (not i.ticket.is_pending) (
        open_ticket ("Alerta: " <> alert_label a)
          (first_truthy a.problem_name (first_truthy a.name "")))
      ∷ []

details_view : Inputs → AlertFull → View
unfolding pair_view
details_view i a =
    text "Details" ∷ pair_view "State" a.lifecycle_state
    ++ pair_view "Source kind" a.source_kind
    ++ pair_view "Policy" (a.policy_id <> " v" <> show a.policy_version)
    ++ pair_view "Monitoring source" a.monitoring_source_id
    ++ pair_view "Resource" a.monitoring_resource_id
    ++ pair_view "Opened" (fmt_ts i.local (some a.opened_at))
    ++ pair_view "Resolved" (fmt_ts i.local a.resolved_at)
    ++ when (truthy? a.acknowledged_at)
        (pair_view "Reconhecido em" (fmt_ts i.local a.acknowledged_at))
    ++ when (truthy? a.acknowledged_by) (pair_view "Reconhecido por" (a.acknowledged_by or_else ""))
    ++ text "Evidence summary" ∷ text (evidence_of (λ e. some e.json) a.evidence or_else "") ∷ []

transition_row : Inputs → Transition → View
transition_row i t =
    text (if truthy t.from_lifecycle_state then t.from_lifecycle_state else "—")
    ∷ text " → "
    ∷ text t.to_lifecycle_state
    ∷ text (fmt_ts i.local (some t.occurred_at))
    ∷ []

note_view : Inputs → AlertFull → Detail → View
note_view i a s =
    text "Notas do operador"
      ∷ input "Registre o que foi verificado, ações tomadas, contexto relevante…" s.note_text
          set_note
      ∷ when i.note.is_pending (spinner ∷ [])
    ++ button "Salvar nota" (truthy (trim s.note_text) && not i.note.is_pending)
        (save_note ("Nota de alerta: " <> a.alert_id) (trim s.note_text))
      ∷ []

-- `kbArticles`
pub articles_of : Inputs → List KbArticle
articles_of i = take 5 (i.articles.result or_else [])

article_row : KbArticle → View
article_row article =
    row (open_article article.article_id)
    ∷ text article.title
    ∷ when (truthy? article.category_name) (badge muted (article.category_name or_else "") ∷ [])

articles_view : Inputs → Detail → View
unfolding article_row
articles_view i s =
    button
      ("Artigos relacionados na KB"
        <> (if i.articles_there then " (" <> show (length (articles_of i)) <> ")" else ""))
      true toggle_kb
    ∷ when s.kb_open (
        if i.articles.is_loading
        then spinner ∷ []
        else if eqb (length (articles_of i)) 0
        then text "Nenhum artigo encontrado para este alerta." ∷ []
        else each article_row (articles_of i))

answer_view : Inputs → Detail → Answer → View
unfolding actions_view details_view transition_row note_view articles_view
answer_view i s d =
    let a = d.alert in
    let cls = evidence_of (λ e. e.severity_class) a.evidence in
    button "← Alerts" true back
      ∷ text a.alert_id
      ∷ badge (sev_variant cls) (i.upper (cls or_else "unknown"))
      ∷ when (is_acknowledged a) (badge info "Reconhecido" ∷ [])
    ++ when i.can_operate (actions_view i a)
    ++ details_view i a
    ++ when (ltb 0 (length d.transitions))
        (text "Lifecycle transitions" ∷ each (transition_row i) d.transitions)
    ++ note_view i a s
    ++ articles_view i s

maybe_view : Inputs → Detail → Option Answer → View
unfolding answer_view
maybe_view i s none = button "← Back" true back ∷ text "Failed to load alert." ∷ []
maybe_view i s (some d) = answer_view i s d

unfoldable pub detail_view : Inputs → Detail → View
unfolding maybe_view
detail_view i s =
    if i.query.is_loading
    then spinner ∷ []
    else if i.query.is_error
    then maybe_view i s none
    else maybe_view i s i.query.result

-- Who may do what with an alert, and when.
abbrev pub Permitted : Inputs → Detail → Message → Type 0
Permitted i s acknowledge = (i.can_operate ≡ true) × (i.acknowledging.is_pending ≡ false)
Permitted i s (open_ticket title description) =
    (i.can_operate ≡ true) × (i.ticket.is_pending ≡ false)
Permitted i s (save_note title description) =
    (truthy (trim s.note_text) ≡ true) × (i.note.is_pending ≡ false)
Permitted i s _ = Unit

idle : (b : Bool) → not b ≡ true → b ≡ false
idle b h = ground arith

left : (b c : Bool) → (b && c) ≡ true → b ≡ true
left b c h = ground arith

right : (b c : Bool) → (b && not c) ≡ true → c ≡ false
right b c h = ground arith

module _ (i : Inputs) (s : Detail) where
  actions-Permitted :
      (a : AlertFull) → i.can_operate ≡ true → OffersOnly (Permitted i s) (actions_view i a)
  unfolding actions_view
  actions-Permitted a can =
      append
        (append
          (under (λ _.
            append (under (λ _. search view_rules))
              (after_button (λ h. (can, idle i.acknowledging.is_pending h)) nil)))
          (under (λ _. search view_rules)))
        (after_button (λ h. (can, idle i.ticket.is_pending h)) nil)

  details-Permitted : (a : AlertFull) → OffersOnly (Permitted i s) (details_view i a)
  unfolding details_view pair_view
  details-Permitted a = search (view_rules, append, under) depth 40

  note-Permitted : (a : AlertFull) → OffersOnly (Permitted i s) (note_view i a s)
  unfolding note_view
  note-Permitted a = search (view_rules, append, under, after_button, left, right) depth 40

  articles-Permitted : OffersOnly (Permitted i s) (articles_view i s)
  unfolding articles_view article_row
  articles-Permitted =
      search (view_rules, append, under, after_button, by_test, for_each, after_row) depth 40

  transition-Permitted : (t : Transition) → OffersOnly (Permitted i s) (transition_row i t)
  unfolding transition_row
  transition-Permitted t = search view_rules depth 10

  answer-Permitted : (d : Answer) → OffersOnly (Permitted i s) (answer_view i s d)
  unfolding answer_view
  answer-Permitted d =
      search
        (
          view_rules, append, under, after_button, for_each, actions-Permitted, details-Permitted,
          note-Permitted, articles-Permitted, transition-Permitted,
        )
        depth 40

  maybe-Permitted : (o : Option Answer) → OffersOnly (Permitted i s) (maybe_view i s o)
  unfolding maybe_view
  maybe-Permitted none = search (view_rules, after_button)
  maybe-Permitted (some d) = answer-Permitted d

  detail-Permitted : OffersOnly (Permitted i s) (detail_view i s)
  unfolding detail_view
  detail-Permitted = search (view_rules, by_test, maybe-Permitted)

-- Whatever the state of the page and of its requests, only operators acknowledge an alert or open a
-- ticket for it, a note that is saved is not blank, and none of these is sent while one like it is
-- pending.
pub detail_view-Permitted :
    (i : Inputs) (s : Detail) → All (Permitted i s) (offers (detail_view i s))
detail_view-Permitted i s = (detail-Permitted i s).only
