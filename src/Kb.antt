-- ===== src/Kb.antt =====
-- frontend/src/pages/KnowledgeBasePage.tsx: articles, their categories, and the incidents that they
-- are linked to. The HTML of a body is made by libraries.
pub mod Editor
pub mod Article
pub mod Page
use ready_jlmirror.Common.{String, ℕ, List, Option}
use ready_jlmirror.Ui.{Element, text}

-- `Category`
pub record Category : Type 0 where
  pub category_id : String
  pub name : String
  pub parent_id : Option String
  pub slug : String

-- `incidents` of `ArticleDetail`
pub record Incident : Type 0 where
  pub incident_id : String
  pub linked_by : String
  pub linked_at : String

-- `ArticleSummary`
pub record ArticleSummary : Type 0 where
  pub article_id : String
  pub title : String
  pub status : String
  pub category_id : Option String
  pub category_name : Option String
  pub tags : List String
  pub created_by : String
  pub updated_at : String
  pub body_length : ℕ

-- `ArticleDetail`, which extends a summary.
pub record ArticleDetail : Type 0 where
  pub summary : ArticleSummary
  pub body : String
  pub incidents : List Incident
