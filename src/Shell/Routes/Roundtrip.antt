-- ===== src/Shell/Routes/Roundtrip.antt =====
-- Views, paths and remembered paths lead back to each other.
use ready_jlmirror.Common.{
  String, Bool, true, false, not, arith, all, All-all, List, [], ◌∷◌, Option, some, ◌==◌, eq_iff,
  eq_refl, ◌≡◌, refl, sym, All, lookup, lookup-insert, insert, Bool-cases, inl, inr, is_some,
  Option-cases,
}
use ready_jlmirror.Session.{Session, ready}
use ready_jlmirror.Shell.Routes.{
  Storage, view_to_path, path_to_view, current_view_from_path, last_path_key, go_to, restore,
  stored_by, path_after, page_of,
}

-- What holds of every pair of a table holds of what a lookup finds.
All-lookup :
    (P : String × String → Type 0) (k v : String) (table : List (String × String))
    → All P table
    → lookup k table ≡ some v
    → P (k, v)
unfolding lookup
All-lookup P k v [] _ e = cc
All-lookup P k v ((j, w) ∷ table) (p, ps) e = elim (Bool-cases (j == k)) [
  | inl same ↦ found same (rw same at e)
  | inr other ↦ All-lookup P k v table ps (rw other at e)
]
  where
    found : (j == k) ≡ true → some w ≡ some v → P (k, v)
    found same e' = rw (sym ((eq_iff j k).0 same)) (rw (sym (value e')) p)
      where
        value : some w ≡ some v → w ≡ v
        value e'' = cc

paths_lead_back : all (λ e. current_view_from_path e.1 == e.0) view_to_path ≡ true
unfolding view_to_path current_view_from_path
paths_lead_back = refl

-- The path of every view leads back to the view.
pub current_view-path :
    (v p : String) → lookup v view_to_path ≡ some p → current_view_from_path p ≡ v
current_view-path v p e = (eq_iff (current_view_from_path p) v).0 (
    All-lookup (λ e'. (current_view_from_path e'.1 == e'.0) ≡ true) v p view_to_path
      (All-all _ view_to_path paths_lead_back) e)

views_have_pages : all (λ e. is_some (page_of e.1)) path_to_view ≡ true
unfolding path_to_view page_of
views_have_pages = refl

-- Whatever the path, the main area shows a page.
pub is_some-page : (pathname : String) → is_some (page_of (current_view_from_path pathname)) ≡ true
unfolding current_view_from_path
is_some-page pathname = elim (Option-cases (lookup pathname path_to_view)) [
  | inl e ↦ rw e (unfold page_of in refl)
  | inr (v, e) ↦ rw e (
      All-lookup (λ e'. is_some (page_of e'.1) ≡ true) pathname v path_to_view
        (All-all (λ e'. is_some (page_of e'.1)) path_to_view views_have_pages) e)
]

kept : (k p : String) (m : Storage) → lookup k (insert k p m) ≡ some p
kept k p m = rw (lookup-insert, eq_refl k)

-- The path that `go_to` a view keeps and opens.
go_to_path :
    (tenant : Option String) (v p path : String) (storage : Storage)
    → lookup v view_to_path ≡ some p
    → (path_after (go_to tenant v) path ≡ p)
      × (lookup (last_path_key tenant) (stored_by (go_to tenant v) storage) ≡ some p)
unfolding go_to path_after stored_by
go_to_path tenant v p path storage e = rw e (refl, kept (last_path_key tenant) p storage)

paths_not_empty : all (λ e. not (e.1 == "")) view_to_path ≡ true
unfolding view_to_path
paths_not_empty = refl

restore_path :
    (s : Session) (p : String) (storage : Storage)
    → s.state ≡ ready
    → lookup (last_path_key s.tenant_id) storage ≡ some p
    → (p == "") ≡ false
    → path_after (restore s "/" storage) "/" ≡ p
unfolding restore path_after
restore_path s p storage r e n = elim (Bool-cases (p == "/")) [
  | inl home ↦ rw (e, r, n, home) (sym ((eq_iff p "/").0 home))
  | inr away ↦ rw (e, r, n, away)
]

-- After the view v was opened in a session that is ready, a first load at "/" in a session of the
-- same tenant shows v again.
pub restore-go_to :
    (s : Session) (v p : String) (storage : Storage)
    → s.state ≡ ready
    → lookup v view_to_path ≡ some p
    → current_view_from_path
        (path_after (restore s "/" (stored_by (go_to s.tenant_id v) storage)) "/")
      ≡ v
restore-go_to s v p storage r e =
    rw
      (restore_path s p (stored_by (go_to s.tenant_id v) storage) r
        (go_to_path s.tenant_id v p "/" storage e).1
        (opposite (p == "") (
          All-lookup (λ e'. not (e'.1 == "") ≡ true) v p view_to_path
            (All-all _ view_to_path paths_not_empty) e)))
      (current_view-path v p e)
  where
    opposite : (b : Bool) → not b ≡ true → b ≡ false
    opposite b h = ground arith
