-- ===== src/Itsm/Create.antt =====
-- ITSMPage.tsx, `CreateRFCForm`.
use ready_jlmirror.Common.{
  String, Bool, true, not, List, [], ◌∷◌, ◌++◌, Option, none, some, ◌&&◌, ◌or_else◌, truthy,
  truthy?, trim,
}
use ready_jlmirror.Client.{Failure}
use ready_jlmirror.Ui.{
  Effect, request, post, invalidate, leave, str, Element, text, spinner, button, input, select,
  when,
}

-- The `useState` values.
pub record Form : Type 0 where
  pub title : String
  pub desc : String
  pub category : String
  pub risk : String
  pub err : Option String

abbrev pub start : Form
start = record { title = ""; desc = ""; category = "normal"; risk = "medium"; err = none }

pub data Message : Type 0 where
  set_title set_desc set_category set_risk : String → Message
  submit created cancel : Message
  failed : Failure → Message

unfoldable pub update : String → Message → Form → Form × List Effect
update tenant (set_title t) f = (record f { title = t }, [])
update tenant (set_desc t) f = (record f { desc = t }, [])
update tenant (set_category t) f = (record f { category = t }, [])
update tenant (set_risk t) f = (record f { risk = t }, [])
update tenant submit f = (
  record f { err = none },
  request post "/api/v1/itsm/changes" (
        some (
          ("title", str f.title)
          ∷ ("description", str f.desc)
          ∷ ("category", str f.category)
          ∷ ("risk", str f.risk)
          ∷ []))
      ∷ [],
)
update tenant created f = (f, invalidate ("itsm-changes" ∷ tenant ∷ []) ∷ leave ∷ [])
update tenant cancel f = (f, leave ∷ [])
update tenant (failed e) f = (record f { err = some (e.detail or_else "Failed.") }, [])

unfoldable pub form_view : Bool → Form → List (Element Message)
form_view is_pending f =
    text "New change request"
      ∷ input "Title" f.title set_title
      ∷ input "Description" f.desc set_desc
      ∷ select "Category" f.category
          (("standard", "Standard") ∷ ("normal", "Normal") ∷ ("emergency", "Emergency") ∷ [])
          set_category
      ∷ select "Risk" f.risk
          (("low", "Low") ∷ ("medium", "Medium") ∷ ("high", "High") ∷ ("critical", "Critical") ∷ [])
          set_risk
      ∷ when (truthy? f.err) (text (f.err or_else "") ∷ [])
    ++ when is_pending (spinner ∷ [])
    ++ button "Create" (not is_pending && truthy (trim f.title)) submit
      ∷ button "Cancel" true cancel
      ∷ []
