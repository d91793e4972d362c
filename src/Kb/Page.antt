-- ===== src/Kb/Page.antt =====
-- KnowledgeBasePage.tsx, `KnowledgeBasePage`.
use ready_jlmirror.Common.{
  String, Bool, true, false, not, List, [], ◌∷◌, ◌++◌, Option, none, some, ◌==◌, ◌&&◌, ◌<>◌,
  ◌or_else◌, if◌then◌else◌, is_some, truthy, truthy?, trim, eqb, ltb, length, map, find?, take,
}
use ready_jlmirror.Ui.{
  Effect, request, post, put, delete, notify, success, error, invalidate, store, timer, Body, str,
  Query, Element, text, button, row, input, select, embed, when, each,
}
use ready_jlmirror.Ui.Confirm.{confirm_view}
use ready_jlmirror.Kb.{Category, ArticleSummary, ArticleDetail}
use ready_jlmirror.Kb.Editor.{Editor, mounted, saved, editor_view}
use ready_jlmirror.Kb.Editor

-- The `useState` values, and those of the editor that is mounted.
pub record Page : Type 0 where
  pub search : String
  pub filter_cat : String
  pub filter_status : String
  pub selected_id : Option String
  pub show_editor : Bool
  pub show_new_cat : Bool
  pub new_cat_name : String
  pub deleting_cat_id : Option String
  pub debounced_q : String
  pub editor : Editor

-- `loadKbStatus` of what is stored.
load_status : Option String → String
load_status stored = stored or_else "published"

article_of : Option String → Option String
article_of none = none
article_of (some id) = if truthy id then some id else none

-- The page as it is mounted, with the status that is stored and the article of the address; the
-- effect that reads the address has run.
unfoldable pub start : Option String → Option String → Page
unfolding load_status article_of
start stored article = record {
  search = "";
  filter_cat = "";
  filter_status = load_status stored;
  selected_id = article_of article;
  show_editor = false;
  show_new_cat = false;
  new_cat_name = "";
  deleting_cat_id = none;
  debounced_q = "";
  editor = mounted none;
}

pub data Message : Type 0 where
  set_search : String → Message
  -- the timer of the last change of the search
  search_settled : String → Message
  set_status set_cat select_article set_new_cat : String → Message
  new_article : Message
  -- of the article that is shown: `onBack`, `onEdit` with the article, `onDelete`
  back : Message
  edit : ArticleDetail → Message
  delete_article : String → Message
  article_deleted article_delete_failed : Message
  in_editor : Editor.Message → Message
  created : String → Message
  updated : Message
  toggle_new_cat close_new_cat : Message
  create_cat cat_created : Message
  ask_delete_cat delete_cat : String → Message
  keep_cat cat_deleted cat_delete_failed : Message

articles_path : String
articles_path = "/api/v1/kb/articles"

field_if : String → String → List (String × String)
field_if name value = if truthy value then (name, value) ∷ [] else []

-- The path of the query for the articles; `query` is what `URLSearchParams` makes of the fields.
pub list_path : (List (String × String) → String) → Page → String
unfolding field_if articles_path
list_path query p =
    let qs = query (
      field_if "q" p.debounced_q
      ++ field_if "category_id" p.filter_cat
      ++ field_if "status" p.filter_status) in
    if truthy qs then articles_path <> "?" <> qs else articles_path

-- `onSave`: a change of the article that is selected, or a new one.
save_request : Option String → Body → Effect
unfolding articles_path
save_request none body = request post articles_path (some body)
save_request (some id) body =
    if truthy id
    then request put (articles_path <> "/" <> id) (some body)
    else request post articles_path (some body)

-- The messages of the editor.
edited : Editor.Message → Page → Page × List Effect
unfolding save_request
edited Editor.save p = (p, save_request p.selected_id (saved p.editor) ∷ [])
edited Editor.close p = (record p { show_editor = false }, [])
edited m p = (record p { editor = Editor.update m p.editor }, [])

articles_stale : Effect
articles_stale = invalidate ("kb-articles" ∷ [])

unfoldable pub update : String → Message → Page → Page × List Effect
unfolding articles_path articles_stale edited
update tenant (set_search t) p = (record p { search = t }, timer 350 ∷ [])
update tenant (search_settled t) p = (record p { debounced_q = t }, [])
update tenant (set_status t) p =
    (record p { filter_status = t }, store ("jlm_kb_status_" <> tenant) t ∷ [])
update tenant (set_cat t) p = (record p { filter_cat = t }, [])
update tenant (select_article id) p = (record p { selected_id = some id }, [])
update tenant (set_new_cat t) p = (record p { new_cat_name = t }, [])
update tenant new_article p = (
  record p {
    selected_id = none;
    show_editor = true;
    editor = if p.show_editor then p.editor else mounted none;
  },
  [],
)
update tenant back p = (record p { selected_id = none }, [])
update tenant (edit a) p = (record p { show_editor = true; editor = mounted (some a) }, [])
update tenant (delete_article id) p = (p, request delete (articles_path <> "/" <> id) none ∷ [])
update tenant article_deleted p =
    (record p { selected_id = none }, articles_stale ∷ notify "Artigo excluído." success ∷ [])
update tenant article_delete_failed p = (p, notify "Erro ao excluir artigo." error ∷ [])
update tenant (in_editor m) p = edited m p
update tenant (created id) p =
    (record p { show_editor = false; selected_id = some id }, articles_stale ∷ [])
update tenant updated p = (
  record p { show_editor = false },
  articles_stale ∷ invalidate ("kb-article" ∷ (p.selected_id or_else "") ∷ []) ∷ [],
)
update tenant toggle_new_cat p = (record p { show_new_cat = not p.show_new_cat }, [])
update tenant close_new_cat p = (record p { show_new_cat = false }, [])
update tenant create_cat p = (
  p,
  if truthy (trim p.new_cat_name)
      then request post "/api/v1/kb/categories" (some (("name", str (trim p.new_cat_name)) ∷ []))
        ∷ []
      else [],
)
update tenant cat_created p =
    (record p { new_cat_name = "" }, invalidate ("kb-categories" ∷ []) ∷ [])
update tenant (ask_delete_cat id) p = (record p { deleting_cat_id = some id }, [])
update tenant (delete_cat id) p = (p, request delete ("/api/v1/kb/categories/" <> id) none ∷ [])
update tenant keep_cat p = (record p { deleting_cat_id = none }, [])
update tenant cat_deleted p = (
  record p { deleting_cat_id = none },
  invalidate ("kb-categories" ∷ []) ∷ notify "Categoria excluída." success ∷ [],
)
update tenant cat_delete_failed p =
    (record p { deleting_cat_id = none }, notify "Erro ao excluir categoria." error ∷ [])

pub record Inputs : Type 0 where
  pub categories : Query (List Category)
  pub articles : Query (List ArticleSummary)
  -- the article that is selected
  pub article : Option ArticleDetail
  pub is_creating_cat : Bool
  pub is_deleting_cat : Bool
  pub local : String → String

abbrev View : Type 0
View = List (Element Message)

category_row : Category → View
category_row c = text c.name ∷ button "Excluir" true (ask_delete_cat c.category_id) ∷ []

categories_view : Inputs → Page → View
unfolding category_row
categories_view i p =
    let categories = i.categories.result or_else [] in
    text "Gerenciar categorias"
      ∷ (if ltb 0 (length categories)
          then each category_row categories
          else text "Nenhuma categoria criada." ∷ [])
    ++ input "Nova categoria…" p.new_cat_name set_new_cat
      ∷ button "Criar" (truthy (trim p.new_cat_name) && not i.is_creating_cat) create_cat
      ∷ button "Fechar" true close_new_cat
      ∷ []

tag_view : String → View
tag_view tag = text tag ∷ []

article_card : Inputs → ArticleSummary → View
unfolding tag_view
article_card i a =
    row (select_article a.article_id)
      ∷ text a.title
      ∷ text a.status
      ∷ when (truthy? a.category_name) (text (a.category_name or_else "") ∷ [])
    ++ each tag_view (take 4 a.tags)
    ++ text (i.local a.updated_at) ∷ []

cat_option : Category → String × String
cat_option c = (c.category_id, c.name)

-- The dialog is there only while the category is in the list.
dialog_for : Inputs → String → Option Category → View
dialog_for i id none = []
dialog_for i id (some c) =
    confirm_view "Excluir categoria"
      ("Excluir a categoria \"" <> c.name <> "\"? Artigos vinculados perderão esta categoria.")
      "Excluir" i.is_deleting_cat (delete_cat id) keep_cat

dialog_view : Inputs → Option String → View
unfolding dialog_for
dialog_view i none = []
dialog_view i (some id) =
    when (truthy id)
      (dialog_for i id (find? (λ c. c.category_id == id) (i.categories.result or_else [])))

list_view : Inputs → Page → View
unfolding categories_view article_card cat_option dialog_view
list_view i p =
    let articles = i.articles.result or_else [] in
    when p.show_editor (editor_view in_editor (i.categories.result or_else []) p.editor)
    ++ text "Knowledge Base"
      ∷ button "New article" true new_article
      ∷ input "Search articles…" p.search set_search
      ∷ select "" p.filter_status
          (("", "All statuses")
            ∷ ("published", "Published")
            ∷ ("draft", "Draft")
            ∷ ("archived", "Archived")
            ∷ [])
          set_status
      ∷ select "" p.filter_cat
          (("", "All categories") ∷ map cat_option (i.categories.result or_else [])) set_cat
      ∷ button "+ Category" true toggle_new_cat
      ∷ when p.show_new_cat (categories_view i p)
    ++ (if i.articles.is_loading
        then text "Loading…" ∷ []
        else if eqb (length articles) 0
        then text "No articles found." ∷ []
        else each (article_card i) articles)
    ++ dialog_view i p.deleting_cat_id

unfoldable pub kb_view : Inputs → Page → View
unfolding list_view
kb_view i p =
    if truthy? p.selected_id && is_some i.article && not p.show_editor
    then embed "ArticleDetailView" ∷ []
    else list_view i p
