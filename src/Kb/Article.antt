-- ===== src/Kb/Article.antt =====
-- KnowledgeBasePage.tsx, `ArticleDetailView`.
use ready_jlmirror.Common.{
  String, Bool, true, false, not, List, [], ◌∷◌, ◌++◌, none, some, ◌&&◌, ◌<>◌, ◌or_else◌,
  if◌then◌else◌, truthy, truthy?, trim, eqb, length,
}
use ready_jlmirror.Ui.{
  Effect, request, post, delete, invalidate, str, Element, text, button, input, when, each,
}
use ready_jlmirror.Ui.Confirm.{confirm_view}
use ready_jlmirror.Kb.{ArticleDetail, Incident}

-- The `useState` values.
pub record Shown : Type 0 where
  pub incident_input : String
  pub confirm_delete : Bool

abbrev pub start : Shown
start = record { incident_input = ""; confirm_delete = false }

pub data Message : Type 0 where
  -- `onBack`, `onEdit` and `onDelete`
  back edit delete_article : Message
  ask_delete keep : Message
  set_incident : String → Message
  -- the form is submitted
  link linked : Message
  unlink : String → Message
  unlinked : Message

article_path : ArticleDetail → String
article_path a = "/api/v1/kb/articles/" <> a.summary.article_id

-- The messages for the page that holds the view change no state here, but that the dialog is closed.
unfoldable pub update : ArticleDetail → Message → Shown → Shown × List Effect
unfolding article_path
update a back s = (s, [])
update a edit s = (s, [])
update a delete_article s = (record s { confirm_delete = false }, [])
update a ask_delete s = (record s { confirm_delete = true }, [])
update a keep s = (record s { confirm_delete = false }, [])
update a (set_incident t) s = (record s { incident_input = t }, [])
update a link s = (
  s,
  if truthy (trim s.incident_input)
      then request post (article_path a <> "/incidents")
          (some (("incident_id", str (trim s.incident_input)) ∷ []))
        ∷ []
      else [],
)
update a linked s =
    (record s { incident_input = "" }, invalidate ("kb-article" ∷ a.summary.article_id ∷ []) ∷ [])
update a (unlink id) s = (s, request delete (article_path a <> "/incidents/" <> id) none ∷ [])
update a unlinked s = (s, invalidate ("kb-article" ∷ a.summary.article_id ∷ []) ∷ [])

incident_row : Incident → List (Element Message)
incident_row inc =
    text inc.incident_id
    ∷ text ("linked by " <> inc.linked_by)
    ∷ button "unlink" true (unlink inc.incident_id)
    ∷ []

tag_view : {M : Type 0} → String → List (Element M)
tag_view tag = text tag ∷ []

-- `html` is the body as `marked` and `DOMPurify` render it.
unfoldable pub article_view :
    (String → String) → (String → String) → Bool → ArticleDetail → Shown → List (Element Message)
unfolding incident_row tag_view
article_view local html is_linking a s =
    button "← Back to articles" true back
      ∷ text a.summary.title
      ∷ text a.summary.status
      ∷ when (truthy? a.summary.category_name)
          (text ("in " <> (a.summary.category_name or_else "")) ∷ [])
    ++ text ("updated " <> local a.summary.updated_at)
      ∷ button "Edit" true edit
      ∷ button "Delete" true ask_delete
      ∷ each tag_view a.summary.tags
    ++ text (if truthy a.body then html a.body else "No content yet.")
      ∷ text "Linked incidents"
      ∷ (if eqb (length a.incidents) 0
          then text "No incidents linked." ∷ []
          else each incident_row a.incidents)
    ++ input "Incident ID to link" s.incident_input set_incident
      ∷ button (if is_linking then "Linking…" else "Link")
          (truthy (trim s.incident_input) && not is_linking) link
      ∷ when s.confirm_delete (
          confirm_view "Excluir artigo"
            "Esta ação é permanente. O artigo será removido e não poderá ser recuperado." "Excluir"
            false delete_article keep)
