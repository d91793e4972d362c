-- ===== src/Kb/Editor.antt =====
-- KnowledgeBasePage.tsx, `ArticleModal`.
use ready_jlmirror.Common.{
  String, Bool, true, false, List, [], ◌∷◌, Option, none, some, ◌or_else◌, if◌then◌else◌, truthy,
  trim, join, map,
}
use ready_jlmirror.Ui.{Body, str, strs, null, Element, text, button, input, select}
use ready_jlmirror.Monitoring.AddSource.{groups_of}
use ready_jlmirror.Kb.{Category, ArticleDetail}

-- The `useState` values; `is_editing` says whether there is an article to edit.
pub record Editor : Type 0 where
  pub title : String
  pub body : String
  pub cat_id : String
  pub article_status : String
  pub tags_raw : String
  pub is_editing : Bool

-- The modal as it is mounted, with the article to edit or none.
pub mounted : Option ArticleDetail → Editor
mounted none = record {
  title = "";
  body = "";
  cat_id = "";
  article_status = "draft";
  tags_raw = "";
  is_editing = false;
}
mounted (some a) = record {
  title = a.summary.title;
  body = a.body;
  cat_id = a.summary.category_id or_else "";
  article_status = a.summary.status;
  tags_raw = join a.summary.tags;
  is_editing = true;
}

pub data Message : Type 0 where
  set_title set_body set_category set_status set_tags : String → Message
  -- `onSave` and `onClose`
  save close : Message

pub update : Message → Editor → Editor
update (set_title t) e = record e { title = t }
update (set_body t) e = record e { body = t }
update (set_category t) e = record e { cat_id = t }
update (set_status t) e = record e { article_status = t }
update (set_tags t) e = record e { tags_raw = t }
update save e = e
update close e = e

-- What `onSave` is called with.
unfoldable pub saved : Editor → Body
saved e =
    ("title", str (trim e.title))
    ∷ ("body", str e.body)
    ∷ ("category_id", if truthy e.cat_id then str e.cat_id else null)
    ∷ ("status", str e.article_status)
    ∷ ("tags", strs (groups_of e.tags_raw))
    ∷ []

category_option : Category → String × String
category_option c = (c.category_id, c.name)

unfoldable pub editor_view :
    {M : Type 0} → (Message → M) → List Category → Editor → List (Element M)
unfolding category_option
editor_view send categories e =
    text (if e.is_editing then "Edit article" else "New article")
    ∷ input "Title" e.title (λ t. send (set_title t))
    ∷ select "Category" e.cat_id (("", "— no category —") ∷ map category_option categories)
        (λ t. send (set_category t))
    ∷ select "Status" e.article_status
        (("draft", "Draft") ∷ ("published", "Published") ∷ ("archived", "Archived") ∷ [])
        (λ t. send (set_status t))
    ∷ input "Body (Markdown)" e.body (λ t. send (set_body t))
    ∷ input "Tags (comma-separated)" e.tags_raw (λ t. send (set_tags t))
    ∷ button (if e.is_editing then "Save changes" else "Create article") (truthy (trim e.title))
        (send save)
    ∷ button "Cancel" true (send close)
    ∷ []
