-- ===== src/ApiKeys/Create.antt =====
-- ApiKeysPage.tsx, `CreateKeyForm` and `NewKeyModal`.
use ready_jlmirror.Common.{
  String, Bool, true, false, not, List, [], ◌∷◌, ◌++◌, Option, none, some, ◌==◌, ◌&&◌, ◌or_else◌,
  if◌then◌else◌, truthy, truthy?, trim, eqb, ltb, length,
}
use ready_jlmirror.Session.{includes}
use ready_jlmirror.Client.{Failure}
use ready_jlmirror.Shell.Frame.{toggled}
use ready_jlmirror.Ui.{
  Effect, request, post, notify, success, error, invalidate, copy_text, timer, leave, Body, str,
  strs, Element, text, spinner, button, input, check, when, each,
}

abbrev available_scopes : List String
available_scopes = "read" ∷ "write" ∷ "admin" ∷ []

-- The `useState` values of the form.
pub record Form : Type 0 where
  pub label : String
  pub scopes : List String
  pub expires_at : String
  pub err : Option String

abbrev pub start : Form
start = record { label = ""; scopes = "read" ∷ []; expires_at = ""; err = none }

pub data Message : Type 0 where
  set_label set_expires_at toggle_scope key_down : String → Message
  submit : Message
  -- with `raw_key` of the answer
  created : String → Message
  failed : Failure → Message

body_with : Form → List (String × String) → Body
body_with f [] = ("label", str f.label) ∷ ("scopes", strs f.scopes) ∷ []
body_with f ((name, t) ∷ fields) =
    ("label", str f.label) ∷ ("scopes", strs f.scopes) ∷ (name, str t) ∷ []

expiry : Option String → Option (List (String × String))
expiry none = none
expiry (some t) = some (("expires_at", t) ∷ [])

posting : Form → Option (List (String × String)) → List Effect
unfolding body_with
posting f none = []
posting f (some fields) = request post "/api/v1/api-keys" (some (body_with f fields)) ∷ []

-- The call of the mutation; `iso` is `new Date(text).toISOString()`, which throws for a text that is
-- no date, and then nothing is sent.
unfoldable pub create : (String → Option String) → Form → List Effect
unfolding posting expiry
create iso f = posting f (if truthy f.expires_at then expiry (iso f.expires_at) else some [])

-- The test that the key of the field makes before it calls the mutation.
unfoldable pub may_create : Form → Bool
may_create f = truthy (trim f.label) && ltb 0 (length f.scopes)

-- The state and the effects; the last message calls `onCreated` besides.
unfoldable pub update : (String → Option String) → Message → Form → Form × List Effect
unfolding create may_create
update iso (set_label t) f = (record f { label = t }, [])
update iso (set_expires_at t) f = (record f { expires_at = t }, [])
update iso (toggle_scope s) f = (record f { scopes = toggled s f.scopes }, [])
update iso (key_down key) f = (f, if (key == "Enter") && may_create f then create iso f else [])
update iso submit f = (record f { err = none }, create iso f)
update iso (created raw_key) f = (
  record f { label = ""; scopes = "read" ∷ []; expires_at = "" },
  invalidate ("api-keys" ∷ []) ∷ notify "Chave criada" success ∷ [],
)
update iso (failed e) f =
    let msg = e.message or_else "Failed to create key." in
    (record f { err = some msg }, notify msg error ∷ [])

scope_check : Form → String → List (Element Message)
scope_check f s = check s (includes s f.scopes) (toggle_scope s) ∷ []

unfoldable pub form_view : Bool → Form → List (Element Message)
unfolding scope_check
form_view is_pending f =
    input "Label" f.label set_label
      ∷ input "Expira em (opcional)" f.expires_at set_expires_at
      ∷ when is_pending (spinner ∷ [])
    ++ button "Create" (truthy (trim f.label) && not (eqb (length f.scopes) 0) && not is_pending)
        submit
      ∷ text "Scopes:"
      ∷ each (scope_check f) available_scopes
    ++ when (truthy? f.err) (text (f.err or_else "") ∷ [])

-- `NewKeyModal`: the state says whether the key was copied a moment ago.
pub data KeyMessage : Type 0 where
  copy copied copy_over done : KeyMessage

unfoldable pub update_key : String → KeyMessage → Bool → Bool × List Effect
update_key raw_key copy b = (b, copy_text raw_key ∷ [])
update_key raw_key copied b = (true, timer 2000 ∷ [])
update_key raw_key copy_over b = (false, [])
update_key raw_key done b = (b, leave ∷ [])

unfoldable pub key_view : String → Bool → List (Element KeyMessage)
key_view raw_key is_copied =
    text "API key created"
    ∷ text "Copy this key now — it will not be shown again."
    ∷ text raw_key
    ∷ button (if is_copied then "Copied!" else "Copy") true copy
    ∷ text "Store it in a secrets manager. This is the only time it will be displayed."
    ∷ button "Done" true done
    ∷ []
