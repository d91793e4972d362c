-- ===== src/Escalation/Page/Confirmed.antt =====
-- The deletion of an escalation policy is asked for and confirmed.
use ready_jlmirror.Common.{
  String, true, List, [], Option, none, some, ◌≡◌, refl, All, ◌<>◌, ◌or_else◌,
}
use ready_jlmirror.Ui.{Effect, request, delete, offers}
use ready_jlmirror.Escalation.{Policy, policies_path}
use ready_jlmirror.Escalation.Link
use ready_jlmirror.Escalation.Link.{LinkModal}
use ready_jlmirror.Escalation.Page.{
  Page, Message, new_policy, create, cancel_create, ask_delete, ask_link, link, set_name, set_desc,
  created, create_failed, open_policy, confirm_delete, cancel_delete, deleted, delete_failed, back,
  Inputs, page_view, update, link_modal,
}
use ready_jlmirror.Escalation.Page.Offered.{NeedsOperator, is_listed, page_view-OffersOnly}

-- If the effect is a DELETE request, the page asks about a policy of its list, and the request is
-- for this policy and nothing else.
abbrev pub Asked : Page → List Policy → Effect → Type 0
Asked s policies (request delete path body) =
    (id : String) × (path ≡ policies_path <> "/" <> id)
    × (body ≡ none)
    × (s.deleting_id ≡ some id)
    × (is_listed policies id ≡ true)
Asked s policies _ = Unit

module _ (tenant : String) (s : Page) (policies : List Policy) where
  abbrev Good : Message → Type 0
  Good m = All (Asked s policies) (update tenant m s).1

  linked :
      (m : Link.Message) (o : Option LinkModal) → All (Asked s policies) (link_modal tenant m o).1
  unfolding link_modal Link.update
  linked m none = tt
  linked (Link.choose id) (some l) = tt
  linked Link.submit (some l) = (tt, tt)
  linked Link.close (some l) = tt
  linked Link.linked (some l) = (tt, (tt, tt))
  linked (Link.failed e) (some l) = (tt, tt)

  operate : (m : Message) → NeedsOperator m → Good m
  unfolding update
  operate new_policy _ = tt
  operate create _ = (tt, tt)
  operate cancel_create _ = tt
  operate (ask_delete id) _ = tt
  operate (ask_link id) _ = tt
  operate (link m) _ = linked m s.linking
  operate (set_name _) h = absurd h
  operate (set_desc _) h = absurd h
  operate (created _) h = absurd h
  operate (create_failed _) h = absurd h
  operate (open_policy _) h = absurd h
  operate (confirm_delete _) h = absurd h
  operate cancel_delete h = absurd h
  operate deleted h = absurd h
  operate delete_failed h = absurd h
  operate back h = absurd h

-- In any state of the page, a click sends a DELETE request only in the dialog that the page shows
-- for a policy of its list, and the request is for that policy.
pub delete_confirmed :
    (tenant : String) (i : Inputs) (s : Page)
    → All
        (λ m. All (Asked s (i.query.result or_else [])) (update tenant m s).1)
        (offers (page_view i s))
unfolding update
delete_confirmed tenant i s =
    let ps = i.query.result or_else [] in
    (page_view-OffersOnly (Good tenant s ps) i s (λ id. tt) (λ m _ h. operate tenant s ps m h)
      (λ id e h. ((id, refl, refl, e, h), tt)) (λ id e. tt)).only
