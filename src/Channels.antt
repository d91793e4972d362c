-- ===== src/Channels.antt =====
-- frontend/src/pages/NotificationChannelsPage.tsx: where notifications are sent.
pub mod Add
use ready_jlmirror.Common.{
  String, Bool, true, false, not, List, [], ◌∷◌, ◌++◌, Option, none, some, ◌==◌, ◌&&◌, ◌<>◌,
  ◌or_else◌, ◌≡◌, refl, All, arith, if◌then◌else◌, truthy, eqb, length, find?, lookup,
}
use ready_jlmirror.Client.{Failure}
use ready_jlmirror.Ui.{
  Effect, request, delete, notify, success, error, invalidate, Variant, info, muted, Query,
  Mutation, Element, text, badge, spinner, button, embed, when, each, offers,
}
use ready_jlmirror.Ui.Confirm.{confirm_view, confirm_view-OffersOnly}
use ready_jlmirror.Ui.Offers.{
  OffersOnly, nil, append, after_button, under, by_test, for_each, view_rules,
}

-- `Destination`
pub record Destination : Type 0 where
  pub destination_config_id : String
  pub channel_class : String
  pub destination_ref : String
  pub label : String
  pub created_at : String

abbrev channel_labels : List (String × String)
channel_labels =
    ("whatsapp_business@1", "WhatsApp") ∷ ("email_smtp@1", "Email") ∷ ("slack@1", "Slack") ∷ []

pub channel_variant : String → Variant
channel_variant cls =
    if cls == "whatsapp_business@1"
    then Variant.success
    else if cls == "email_smtp@1"
    then info
    else muted

-- The `useState` values.
pub record Page : Type 0 where
  pub adding : Bool
  pub deleting_id : Option String

pub data Message : Type 0 where
  add add_done : Message
  ask_delete confirm_delete : String → Message
  cancel_delete deleted : Message
  delete_failed : Failure → Message

unfoldable pub update : String → Message → Page → Page × List Effect
update tenant add p = (record p { adding = true }, [])
update tenant add_done p = (record p { adding = false }, [])
update tenant (ask_delete id) p = (record p { deleting_id = some id }, [])
update tenant (confirm_delete id) p =
    (p, request delete ("/api/v1/alerting/notification-channels/" <> id) none ∷ [])
update tenant cancel_delete p = (record p { deleting_id = none }, [])
update tenant deleted p = (
  record p { deleting_id = none },
  invalidate ("notification-channels" ∷ tenant ∷ []) ∷ notify "Canal removido" success ∷ [],
)
update tenant (delete_failed e) p =
    (p, notify ("Erro: " <> (e.message or_else "Falha ao remover canal.")) error ∷ [])

pub record Inputs : Type 0 where
  pub destinations : Query (List Destination)
  pub deletion : Mutation String
  pub can_operate : Bool
  pub local : String → String

abbrev View : Type 0
View = List (Element Message)

is_for : Option String → String → Bool
is_for none id = false
is_for (some v) id = v == id

-- `removing`
unfoldable pub is_removing : Inputs → Destination → Bool
unfolding is_for
is_removing i d = i.deletion.is_pending && is_for i.deletion.variables d.destination_config_id

destination_row : Inputs → Destination → View
destination_row i d =
    badge (channel_variant d.channel_class)
      (lookup d.channel_class channel_labels or_else d.channel_class)
    ∷ text d.label
    ∷ text d.destination_ref
    ∷ text (i.local d.created_at)
    ∷ when i.can_operate (
        button (if is_removing i d then "removing…" else "remove") (not (is_removing i d))
          (ask_delete d.destination_config_id)
        ∷ [])

label_of : Option Destination → Option String
label_of none = none
label_of (some d) = some d.label

dialog_view : Inputs → Option String → View
unfolding label_of
dialog_view i none = []
dialog_view i (some id) = when (truthy id) (
    confirm_view "Remover canal"
      ("Tem certeza que deseja remover \""
        <> (label_of (find? (λ d. d.destination_config_id == id) (i.destinations.result or_else []))
            or_else id)
        <> "\"? Esta ação não pode ser desfeita.")
      "Remover" i.deletion.is_pending (confirm_delete id) cancel_delete)

table_view : Inputs → View
unfolding destination_row
table_view i =
    let destinations = i.destinations.result or_else [] in
    if i.destinations.is_loading
    then spinner ∷ []
    else if i.destinations.is_error
    then text "Failed to load channels." ∷ []
    else if eqb (length destinations) 0
    then text "No destinations configured. Add one to enable email or WhatsApp notifications." ∷ []
    else text "Channel"
      ∷ text "Label"
      ∷ text "Destination"
      ∷ text "Added"
      ∷ each (destination_row i) destinations

unfoldable pub channels_view : Inputs → Page → View
unfolding table_view dialog_view
channels_view i p =
    text "Canais de Notificação"
      ∷ text "Destinos configurados para alertas e notificações de incidentes."
      ∷ when (i.can_operate && not p.adding) (button "Add destination" true add ∷ [])
    ++ when (i.can_operate && p.adding) (embed "AddDestinationForm" ∷ [])
    ++ table_view i
    ++ dialog_view i p.deleting_id

-- A deletion is for the channel that the dialog asks about, and the question for operators.
abbrev pub Permitted : Inputs → Page → Message → Type 0
Permitted i p (confirm_delete id) = (p.deleting_id ≡ some id) × (i.deletion.is_pending ≡ false)
Permitted i p (ask_delete id) = i.can_operate ≡ true
Permitted i p add = i.can_operate ≡ true
Permitted i p _ = Unit

left : (b c : Bool) → (b && c) ≡ true → b ≡ true
left b c h = ground arith

dialog-Permitted :
    (i : Inputs) (p : Page) (o : Option String)
    → p.deleting_id ≡ o
    → OffersOnly (Permitted i p) (dialog_view i o)
unfolding dialog_view
dialog-Permitted i p none e = nil
dialog-Permitted i p (some id) e = under (λ _.
    confirm_view-OffersOnly "Remover canal" _ "Remover" (confirm_delete id) cancel_delete
      (λ idle. (e, idle)) tt)

asked-Permitted : (i : Inputs) (p : Page) → OffersOnly (Permitted i p) (dialog_view i p.deleting_id)
asked-Permitted i p = dialog-Permitted i p p.deleting_id refl

table-Permitted : (i : Inputs) (p : Page) → OffersOnly (Permitted i p) (table_view i)
unfolding table_view destination_row
table-Permitted i p = search (view_rules, append, after_button, under, by_test, for_each) depth 40

shown-Permitted : (i : Inputs) (p : Page) → OffersOnly (Permitted i p) (channels_view i p)
unfolding channels_view
shown-Permitted i p =
    search (view_rules, append, after_button, under, left, table-Permitted, asked-Permitted) depth
      40

-- Whatever the state of the page and of its requests, only operators add a channel or ask to remove
-- one, and only the one asked about is removed, while no removal is pending.
pub channels_view-Permitted :
    (i : Inputs) (p : Page) → All (Permitted i p) (offers (channels_view i p))
channels_view-Permitted i p = (shown-Permitted i p).only
