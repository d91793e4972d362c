-- ===== src/Policies/Page/Controls.antt =====
-- Who may change the policies, and what may be deleted.
use ready_jlmirror.Common.{
  String, Bool, true, false, not, List, [], Option, none, some, ◌&&◌, ◌≡◌, refl, ◌or_else◌, All,
  eqb, length, arith, All-mono, ◌<>◌,
}
use ready_jlmirror.Ui.{Effect, request, get, delete, offers}
use ready_jlmirror.Policies.Form
use ready_jlmirror.Ui.Offers.{
  OffersOnly, nil, append, after_text, after_spinner, after_button, under, by_test, for_each,
  view_rules,
}
use ready_jlmirror.Ui.Confirm.{confirm_view-OffersOnly}
use ready_jlmirror.Policies.{PolicyVersion, group_policies}
use ready_jlmirror.Policies.Form.{PolicyForm, form_view, form_view-OffersOnly}
use ready_jlmirror.Policies.Page.{
  Policies, Message, in_form, ask_delete, confirm_delete, cancel_delete, toggle_effective,
  new_policy, new_version, toggle_history, deleted, delete_failed, effective_toggled, toggle_failed,
  update, with_form, policies_path, Inputs, policies_view, dialog_view, list_view, policy_card,
  effective_badges, toggle_button, version_row, version_form,
}

-- A message that deletes is for the policy that the dialog asks about, while no deletion is
-- pending, and any that writes is for operators.
abbrev pub Permitted : Inputs → Policies → Message → Type 0
Permitted i s (confirm_delete id) =
    (s.deleting_policy_id ≡ some id) × (i.deletion.is_pending ≡ false)
Permitted i s (toggle_effective id version enabled) =
    (i.can_operate ≡ true) × (i.toggling.is_pending ≡ false)
Permitted i s (ask_delete id) = i.can_operate ≡ true
Permitted i s (in_form m) = i.can_operate ≡ true
Permitted i s _ = Unit

module _ (i : Inputs) (s : Policies) where
  idle : (b : Bool) → not b ≡ true → b ≡ false
  idle b h = ground arith

  left : (b c : Bool) → (b && c) ≡ true → b ≡ true
  left b c h = ground arith

  form-Permitted :
      (f : PolicyForm)
      → i.can_operate ≡ true
      → OffersOnly
          (Permitted i s)
          (form_view in_form (i.sources.result or_else []) i.creation.is_pending f)
  form-Permitted f can = form_view-OffersOnly in_form _ i.creation.is_pending f (λ m. can)

  badges-Permitted : (o : Option PolicyVersion) → OffersOnly (Permitted i s) (effective_badges o)
  unfolding effective_badges
  badges-Permitted none = nil
  badges-Permitted (some v) = search (view_rules, under, append) depth 14

  toggle-Permitted :
      (id : String) (o : Option PolicyVersion)
      → i.can_operate ≡ true
      → OffersOnly (Permitted i s) (toggle_button i id o)
  unfolding toggle_button
  toggle-Permitted id none can = nil
  toggle-Permitted id (some v) can = after_button (λ h. (can, idle i.toggling.is_pending h)) nil

  card-Permitted :
      (g : String × List PolicyVersion) → OffersOnly (Permitted i s) (policy_card i s g)
  unfolding policy_card effective_badges toggle_button version_row version_form
  card-Permitted (id, versions) =
      search
        (
          view_rules, under, append, after_button, for_each, badges-Permitted, toggle-Permitted,
          form-Permitted, left,
        )
        depth 30

  list-Permitted : OffersOnly (Permitted i s) (list_view i s)
  unfolding list_view
  list-Permitted =
      by_test i.policies.is_loading (λ _. after_spinner nil)
        (λ _.
          by_test i.policies.is_error (λ _. after_text nil)
            (λ _.
              by_test (eqb (length (group_policies (i.policies.result or_else []))) 0)
                (λ _. after_text nil) (λ _. for_each _ card-Permitted)))

  dialog-Permitted :
      (o : Option String) → s.deleting_policy_id ≡ o → OffersOnly (Permitted i s) (dialog_view i o)
  unfolding dialog_view
  dialog-Permitted none e = nil
  dialog-Permitted (some id) e = under (λ _.
      confirm_view-OffersOnly "Excluir política de alertas" _ "Excluir" (confirm_delete id)
        cancel_delete (λ idle. (e, idle)) tt)

controls-Permitted : (i : Inputs) (s : Policies) → OffersOnly (Permitted i s) (policies_view i s)
unfolding policies_view
controls-Permitted i s =
    append
      (append
        (append
          (append (dialog-Permitted i s s.deleting_policy_id refl)
            (after_text (after_text (under (λ _. after_spinner nil)))))
          (under (λ _. after_button (λ _. tt) nil)))
        (under (λ h. after_text (form-Permitted i s s.form (left i s _ _ h)))))
      (list-Permitted i s)

-- A DELETE request is for the policy that the dialog asks about and for nothing else, while no
-- deletion is pending; another write is by an operator.
abbrev pub Meant : Inputs → Policies → Effect → Type 0
Meant i s (request delete path body) =
    (id : String) × (path ≡ policies_path <> "/" <> id)
    × (body ≡ none)
    × (s.deleting_policy_id ≡ some id)
    × (i.deletion.is_pending ≡ false)
Meant i s (request get path body) = Unit
Meant i s (request m path body) = i.can_operate ≡ true
Meant i s _ = Unit

module _ (i : Inputs) (s : Policies) where
  filled-Meant :
      (m : Form.Message) (f : PolicyForm)
      → i.can_operate ≡ true
      → All (Meant i s) (with_form s (Form.update m f)).1
  unfolding with_form Form.update
  filled-Meant (Form.set_policy_id t) f can = tt
  filled-Meant (Form.set_source_kind t) f can = tt
  filled-Meant (Form.set_min_severity t) f can = tt
  filled-Meant (Form.set_source_id t) f can = tt
  filled-Meant (Form.toggle_class c) f can = tt
  filled-Meant Form.submit f can = (can, tt)
  filled-Meant Form.created f can = (tt, (tt, tt))
  filled-Meant Form.cancel f can = tt
  filled-Meant (Form.failed e) f can = (tt, tt)

  sent-Meant : (m : Message) → Permitted i s m → All (Meant i s) (update m s).1
  unfolding update
  sent-Meant new_policy h = tt
  sent-Meant (new_version id kind) h = tt
  sent-Meant (in_form m) can = filled-Meant m s.form can
  sent-Meant (toggle_history id) h = tt
  sent-Meant (ask_delete id) h = tt
  sent-Meant (confirm_delete id) (asked, idle) = ((id, refl, refl, asked, idle), tt)
  sent-Meant cancel_delete h = tt
  sent-Meant deleted h = (tt, (tt, tt))
  sent-Meant delete_failed h = (tt, tt)
  sent-Meant (toggle_effective id version enabled) (can, idle) = (can, tt)
  sent-Meant (effective_toggled enabled) h = (tt, (tt, tt))
  sent-Meant toggle_failed h = (tt, tt)

-- Whatever the state of the page and of its requests, a click sends a DELETE request only for the
-- policy that the page's dialog asks about, while no deletion is pending, and another request than
-- GET and DELETE only for an operator; only operators can ask for a deletion.
pub policies_view-Permitted :
    (i : Inputs) (s : Policies)
    → All (λ m. Permitted i s m × All (Meant i s) (update m s).1) (offers (policies_view i s))
policies_view-Permitted i s =
    All-mono (offers (policies_view i s)) (λ m h. (h, sent-Meant i s m h))
      (controls-Permitted i s).only
