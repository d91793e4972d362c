-- ===== src/Monitoring/Card.antt =====
-- MonitoringPage.tsx, `SourceCard`: the state of a source, and what is done about its credential.
use ready_jlmirror.Common.{
  ℕ, String, Bool, true, false, not, List, [], ◌∷◌, ◌++◌, Option, none, some, ◌==◌, ◌<>◌, ◌or_else◌,
  ◌≡◌, All, arith, if◌then◌else◌, show, truthy?,
}
use ready_jlmirror.Client.{Failure}
use ready_jlmirror.Ui.{
  Effect, request, post, delete, notify, success, error, invalidate, Element, text, badge, spinner,
  button, embed, when, offers,
}
use ready_jlmirror.Ui.Offers.{OffersOnly, append, after_button, under, by_test, view_rules}
use ready_jlmirror.Monitoring.{Source, state_variant}

-- The `useState` values.
pub record Card : Type 0 where
  pub show_rotate : Bool
  pub confirm_revoke : Bool

pub data Message : Type 0 where
  recheck rechecked recheck_failed refresh : Message
  open_rotate close_rotate : Message
  ask_revoke keep revoke revoked : Message
  revoke_failed : Failure → Message

source_path : Source → String
source_path s = "/api/v1/monitoring/sources/" <> s.monitoring_source_id

-- `refresh` comes five seconds after `rechecked`.
unfoldable pub update : String → Source → Message → Card → Card × List Effect
unfolding source_path
update tenant s recheck c = (c, request post (source_path s <> "/recheck") none ∷ [])
update tenant s rechecked c =
    (c, notify "Revalidação enfileirada. Aguarde alguns instantes." success ∷ [])
update tenant s recheck_failed c = (c, notify "Erro ao solicitar revalidação." error ∷ [])
update tenant s refresh c = (c, invalidate ("sources" ∷ tenant ∷ []) ∷ [])
update tenant s open_rotate c = (record c { show_rotate = true }, [])
update tenant s close_rotate c = (record c { show_rotate = false }, [])
update tenant s ask_revoke c = (record c { confirm_revoke = true }, [])
update tenant s keep c = (record c { confirm_revoke = false }, [])
update tenant s revoke c = (c, request delete (source_path s <> "/credential") none ∷ [])
update tenant s revoked c = (
  record c { confirm_revoke = false },
  notify "Credencial removida. A fonte perderá acesso ao provider." success
      ∷ invalidate ("sources" ∷ tenant ∷ [])
      ∷ [],
)
update tenant s (revoke_failed e) c =
    (c, notify (e.detail or_else (e.message or_else "Erro ao revogar credencial.")) error ∷ [])

abbrev View : Type 0
View = List (Element Message)

-- A line of the list that is there where the text is not empty, and where the number is there.
text_line : String → Option String → View
text_line label t = when (truthy? t) (text label ∷ text (t or_else "") ∷ [])

number_line : String → Option ℕ → View
number_line label none = []
number_line label (some n) = text label ∷ text (show n) ∷ []

-- `canRecheck`
can_recheck : Source → Bool
can_recheck s = not (s.operational_evidence_state == "current")

revoke_view : Bool → Card → View
revoke_view is_revoking c =
    if not c.confirm_revoke
    then button "Revogar credencial" true ask_revoke ∷ []
    else button "Cancelar" true keep ∷ when is_revoking (spinner ∷ [])
      ++ button "Confirmar" (not is_revoking) revoke ∷ []

-- The two tests say whether a check and a revocation are pending.
unfoldable pub card_view : Bool → Bool → Source → Card → View
unfolding text_line number_line can_recheck revoke_view
card_view is_checking is_revoking s c =
    when c.show_rotate (embed "RotateTokenModal" ∷ [])
    ++ text s.display_name
      ∷ text s.monitoring_source_id
      ∷ badge (state_variant s.operational_evidence_state) s.operational_evidence_state
      ∷ text_line "Provider" s.provider_instance_ref
    ++ text_line "URL" s.provider_base_url
    ++ number_line "Config rev" s.configuration_revision
    ++ number_line "Scope rev" s.scope_revision
    ++ when (can_recheck s) (button "Revalidar" (not is_checking) recheck ∷ [])
    ++ button "Trocar token" true open_rotate ∷ revoke_view is_revoking c

-- What is asked before it is sent.
abbrev pub Asked : Bool → Source → Card → Message → Type 0
Asked is_revoking s c revoke = (not c.confirm_revoke ≡ false) × (not is_revoking ≡ true)
Asked is_revoking s c recheck = (s.operational_evidence_state == "current") ≡ false
Asked is_revoking s c _ = Unit

idle : (b : Bool) → not b ≡ true → b ≡ false
idle b h = ground arith

-- Whatever the state of the card, a credential is revoked only once that is asked for and confirmed,
-- not while a revocation is pending, and only a source that is not current is checked again.
pub card_view-Asked :
    (is_checking is_revoking : Bool) (s : Source) (c : Card)
    → All (Asked is_revoking s c) (offers (card_view is_checking is_revoking s c))
unfolding card_view text_line number_line can_recheck revoke_view
card_view-Asked is_checking is_revoking s c = shown.only
  where
    numbers :
        (label : String) (n : Option ℕ) → OffersOnly (Asked is_revoking s c) (number_line label n)
    numbers label none = search view_rules
    numbers label (some n) = search view_rules

    shown : OffersOnly (Asked is_revoking s c) (card_view is_checking is_revoking s c)
    shown = search (view_rules, append, after_button, under, by_test, numbers, idle) depth 40
