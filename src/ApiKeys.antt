-- ===== src/ApiKeys.antt =====
-- frontend/src/pages/ApiKeysPage.tsx: the keys with which programs call the service.
pub mod Create
pub mod Shown
use ready_jlmirror.Common.{
  String, Bool, true, false, not, List, [], ◌∷◌, ◌++◌, Option, none, some, ◌==◌, ◌&&◌, ◌<>◌,
  ◌or_else◌, ◌≡◌, All, arith, if◌then◌else◌, truthy, truthy?, eqb, length, filter,
}
use ready_jlmirror.Session.{includes}
use ready_jlmirror.Client.{Failure}
use ready_jlmirror.Ui.{
  Effect, request, delete, notify, success, error, invalidate, Variant, muted, Query, Element, text,
  badge, spinner, button, embed, when, each, offers,
}
use ready_jlmirror.Ui.Offers.{
  OffersOnly, append, after_button, under, by_test, for_each, view_rules,
}

-- `ApiKey`
pub record ApiKey : Type 0 where
  pub key_id : String
  pub label : String
  pub scopes : List String
  pub state : String
  pub created_at : String
  pub expires_at : Option String
  pub last_used_at : Option String

-- `fmtTs` and `fmtDate`, with the text for a date that is absent, and the date as the browser writes
-- it.
fmt_or : String → (String → String) → Option String → String
fmt_or absent local none = absent
fmt_or absent local (some iso) = if truthy iso then local iso else absent

pub fmt_ts : (String → String) → Option String → String
unfolding fmt_or
fmt_ts local iso = fmt_or "never" local iso

pub fmt_date : (String → String) → Option String → String
unfolding fmt_or
fmt_date local iso = fmt_or "—" local iso

-- The `useState` values.
pub record Page : Type 0 where
  pub pending_raw_key : Option String
  pub locally_removed : List String

pub data Message : Type 0 where
  -- the form's `onCreated`
  created : String → Message
  close_key : Message
  revoke : String → Message
  revoked : Message
  revoke_failed : Failure → Message
  remove : String → Message

unfoldable pub update : Message → Page → Page × List Effect
update (created raw_key) p = (record p { pending_raw_key = some raw_key }, [])
update close_key p = (record p { pending_raw_key = none }, [])
update (revoke id) p = (p, request delete ("/api/v1/api-keys/" <> id) none ∷ [])
update revoked p = (p, invalidate ("api-keys" ∷ []) ∷ notify "Chave revogada" success ∷ [])
update (revoke_failed e) p = (p, notify (e.message or_else "Erro ao revogar chave.") error ∷ [])
update (remove id) p = (record p { locally_removed = p.locally_removed ++ id ∷ [] }, [])

-- `keys`
unfoldable pub keys_of : Page → List ApiKey → List ApiKey
keys_of p keys = filter (λ k. not (includes k.key_id p.locally_removed)) keys

has_state : String → ApiKey → Bool
has_state state k = k.state == state

pub record Inputs : Type 0 where
  pub keys : Query (List ApiKey)
  pub is_revoking : Bool
  pub local : String → String
  pub local_date : String → String

abbrev View : Type 0
View = List (Element Message)

key_buttons : Inputs → ApiKey → View
key_buttons i k =
    if k.state == "active"
    then button "Revoke" (not i.is_revoking) (revoke k.key_id) ∷ []
    else button "Remover da lista" true (remove k.key_id) ∷ []

key_row : Inputs → ApiKey → View
unfolding key_buttons
key_row i k =
    text k.label ∷ each (λ s. text s ∷ []) k.scopes
    ++ text (fmt_ts i.local k.last_used_at)
      ∷ text (fmt_date i.local_date (some k.created_at))
      ∷ badge (if k.state == "active" then Variant.success else muted) k.state
      ∷ key_buttons i k

table_view : Inputs → List ApiKey → View
unfolding key_row has_state
table_view i keys =
    if eqb (length (filter (has_state "active") keys)) 0
      && eqb (length (filter (has_state "revoked") keys)) 0
    then text "No API keys yet." ∷ []
    else text "Label"
      ∷ text "Scopes"
      ∷ text "Last used"
      ∷ text "Created"
      ∷ text "State"
      ∷ each (key_row i) keys

unfoldable pub keys_view : Inputs → Page → View
unfolding table_view
keys_view i p =
    when (truthy? p.pending_raw_key) (embed "NewKeyModal" ∷ [])
    ++ text "API Keys"
      ∷ text "Bearer tokens for programmatic read access · 60 req/min per key"
      ∷ when i.keys.is_fetching (spinner ∷ [])
    ++ text "Create API key"
      ∷ embed "CreateKeyForm"
      ∷ text "Use with: Authorization: Bearer jlm_…"
      ∷ (if i.keys.is_loading
          then spinner ∷ []
          else if i.keys.is_error
          then text "Failed to load keys." ∷ []
          else table_view i (keys_of p (i.keys.result or_else [])))
