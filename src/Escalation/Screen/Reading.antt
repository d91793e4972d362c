-- ===== src/Escalation/Screen/Reading.antt =====
-- A user who may not operate only reads.
use mathlib.Core.List.{Memᴰ}
use mathlib.Core.List.Memᴰ.{head, tail, not-nil}
use ready_jlmirror.Common.{
  ℕ, String, Bool, true, false, List, [], ◌∷◌, Option, none, some, ◌≡◌, refl, ◌&&◌, All, All-mono,
  arith, Bool-cases, inl, inr, truthy?,
}
use ready_jlmirror.Ui.{Effect, request, get, offers}
use ready_jlmirror.Ui.Offers.{
  OffersOnly, nil, append, after_text, after_badge, after_spinner, after_button, under, by_test,
  for_each, within,
}
use ready_jlmirror.Escalation.{EscalationStep, PolicyDetail}
use ready_jlmirror.Escalation.AddStep
use ready_jlmirror.Escalation.AddStep.{StepForm}
use ready_jlmirror.Escalation.Link
use ready_jlmirror.Escalation.Detail
use ready_jlmirror.Escalation.Detail.{
  Detail, step_view, steps_view, remove_view, form_view, policy_view, result_view, detail_view,
}
use ready_jlmirror.Escalation.Page
use ready_jlmirror.Escalation.Page.Offered.{page_view-OffersOnly}
use ready_jlmirror.Escalation.Screen.{
  Screen, start, Message, in_page, in_detail, detail_after, update, Inputs, screen_view,
}

-- The messages that are no clicks: what is typed or chosen, and what the query library calls back.
abbrev pub IsCallback : Message → Type 0
IsCallback (in_page (Page.set_name t)) = Unit
IsCallback (in_page (Page.set_desc t)) = Unit
IsCallback (in_page (Page.created p)) = Unit
IsCallback (in_page (Page.create_failed e)) = Unit
IsCallback (in_page Page.deleted) = Unit
IsCallback (in_page Page.delete_failed) = Unit
IsCallback (in_page (Page.link (Link.choose id))) = Unit
IsCallback (in_page (Page.link Link.linked)) = Unit
IsCallback (in_page (Page.link (Link.failed e))) = Unit
IsCallback (in_detail id (Detail.form (AddStep.set_step_number n))) = Unit
IsCallback (in_detail id (Detail.form (AddStep.set_delay_minutes n))) = Unit
IsCallback (in_detail id (Detail.form (AddStep.set_channel c))) = Unit
IsCallback (in_detail id (Detail.form (AddStep.set_dest_ref t))) = Unit
IsCallback (in_detail id (Detail.form (AddStep.set_payload_ref t))) = Unit
IsCallback (in_detail id (Detail.form AddStep.added)) = Unit
IsCallback (in_detail id (Detail.form (AddStep.failed e))) = Unit
IsCallback (in_detail id Detail.removed) = Unit
IsCallback (in_detail id Detail.remove_failed) = Unit
IsCallback (in_detail id (Detail.redrawn n)) = Unit
IsCallback _ = ⊥

-- The permission that both components read.
abbrev pub Can : Inputs → Bool → Type 0
Can i can = (i.page.can_operate ≡ can) × (i.detail.can_operate ≡ can)

-- The states that the page of a user with or without the permission to operate can reach,
-- whatever the requests report meanwhile.
pub data Reaches (tenant : String) (can : Bool) : Screen → Type 0 where
  mounted : Reaches tenant can start
  click :
      {s : Screen} (i : Inputs) (m : Message)
      → Can i can
      → Memᴰ m (offers (screen_view i s))
      → Reaches tenant can s
      → Reaches tenant can (update tenant m s).0
  callback :
      {s : Screen} (m : Message)
      → IsCallback m
      → Reaches tenant can s
      → Reaches tenant can (update tenant m s).0

-- The effect sends no request but GET requests.
abbrev pub Reads : Effect → Type 0
Reads (request m path body) = m ≡ get
Reads _ = Unit

All-Mem : (P : Message → Type 0) {m : Message} (ms : List Message) → All P ms → Memᴰ m ms → P m
All-Mem P [] h k = absurd (not-nil k)
All-Mem P (x ∷ ms) (p, h) (head e) = rw e p
All-Mem P (x ∷ ms) (p, h) (tail k) = All-Mem P ms h k

-- Neither the list nor the view of a policy asks about a deletion.
abbrev Quiet : Screen → Type 0
Quiet s = (s.page.deleting_id ≡ none) × (s.detail.deleting_step_no ≡ none)

-- The view of a policy offers a user who may not operate only the way back.
module _ (i : Detail.Inputs) (can : i.can_operate ≡ false) where
  abbrev IsBack : Detail.Message → Type 0
  IsBack m = m ≡ Detail.back

  step_view-IsBack :
      (prefix : String) (t : EscalationStep) → OffersOnly IsBack (step_view i prefix t)
  unfolding step_view
  step_view-IsBack prefix t =
      append (after_text (after_text (after_badge (after_text (under (λ _. after_text nil))))))
        (under (λ h. absurd (cc (can, h))))

  steps_view-IsBack : (ts : List EscalationStep) → OffersOnly IsBack (steps_view i ts)
  unfolding steps_view
  steps_view-IsBack [] = nil
  steps_view-IsBack (t ∷ ts) =
      append (step_view-IsBack "after " t) (for_each ts (step_view-IsBack "+"))

  form_view-IsBack : (o : Option StepForm) → OffersOnly IsBack (form_view i o)
  unfolding form_view
  form_view-IsBack none = nil
  form_view-IsBack (some f) = under (λ h. absurd (cc (can, h)))

  remove_view-IsBack : (o : Option ℕ) → o ≡ none → OffersOnly IsBack (remove_view i o)
  unfolding remove_view
  remove_view-IsBack none e = nil
  remove_view-IsBack (some n) e = absurd cc

  policy_view-IsBack :
      (s : Detail) (d : PolicyDetail)
      → s.deleting_step_no ≡ none
      → OffersOnly IsBack (policy_view i s d)
  unfolding policy_view
  policy_view-IsBack s d e =
      append
        (append
          (append
            (append
              (append (remove_view-IsBack s.deleting_step_no e)
                (after_button (λ _. refl) (after_text (after_text (under (λ _. after_text nil))))))
              (after_text (under (λ h. absurd (left _ h)))))
            (under (λ _. after_text nil)))
          (steps_view-IsBack d.steps))
        (form_view-IsBack s.adding_step)
    where
      left : (b : Bool) → (i.can_operate && b) ≡ true → ⊥
      left b h = ground (arith, can)

  result_view-IsBack :
      (s : Detail) (o : Option PolicyDetail)
      → s.deleting_step_no ≡ none
      → OffersOnly IsBack (result_view i s o)
  unfolding result_view
  result_view-IsBack s none e = nil
  result_view-IsBack s (some d) e = policy_view-IsBack s d e

  detail_view-IsBack :
      (s : Detail) → s.deleting_step_no ≡ none → OffersOnly IsBack (detail_view i s)
  unfolding detail_view
  detail_view-IsBack s e =
      by_test i.query.is_loading (λ _. after_spinner nil)
        (λ _.
          by_test i.query.is_error (λ _. after_text nil)
            (λ _. result_view-IsBack s i.query.result e))

kept :
    (o : Option String) (d : Detail)
    → d.deleting_step_no ≡ none
    → (detail_after o d).deleting_step_no ≡ none
unfolding detail_after
kept o d e = elim (Bool-cases (truthy? o)) [ inl h ↦ rw h e | inr h ↦ rw h refl ]

module _ (tenant : String) where
  -- The message sends nothing but reads, and asks for no deletion.
  abbrev Idle : Screen → Message → Type 0
  Idle s m = All Reads (update tenant m s).1 × Quiet ((update tenant m s).0)

  back-Idle :
      (id : String) (s : Screen) (m : Detail.Message)
      → Quiet s
      → m ≡ Detail.back
      → Idle s (in_detail id m)
  unfolding update Page.update
  back-Idle id s m q e = rw e (tt, q)

  offers-Idle :
      (i : Inputs) (s : Screen) → Can i false → Quiet s → OffersOnly (Idle s) (screen_view i s)
  unfolding screen_view update Page.update
  offers-Idle i s (cp, cd) (ep, ed) =
      by_test (truthy? s.page.selected_policy_id)
        (λ _. within (in_detail _) (record {
          only =
              All-mono (offers (detail_view i.detail s.detail)) (λ m h. back-Idle _ s m (ep, ed) h)
                (detail_view-IsBack i.detail cd s.detail ed).only;
        }))
        (λ _. within in_page (
          page_view-OffersOnly (λ m. Idle s (in_page m)) i.page s.page
            (λ id. (tt, (ep, kept s.page.selected_policy_id s.detail ed)))
            (λ m h _. absurd (cc (cp, h))) (λ id h _. absurd (cc (ep, h)))
            (λ id h. (tt, (refl, kept s.page.selected_policy_id s.detail ed)))))

  callback-Quiet :
      (m : Message) (s : Screen) → IsCallback m → Quiet s → Quiet ((update tenant m s).0)
  unfolding update Page.update Detail.update
  callback-Quiet (in_page (Page.set_name t)) s _ (ep, ed) =
      (ep, kept s.page.selected_policy_id s.detail ed)
  callback-Quiet (in_page (Page.set_desc t)) s _ (ep, ed) =
      (ep, kept s.page.selected_policy_id s.detail ed)
  callback-Quiet (in_page (Page.created p)) s _ (ep, ed) =
      (ep, kept s.page.selected_policy_id s.detail ed)
  callback-Quiet (in_page (Page.create_failed f)) s _ (ep, ed) =
      (ep, kept s.page.selected_policy_id s.detail ed)
  callback-Quiet (in_page Page.deleted) s _ (ep, ed) =
      (refl, kept s.page.selected_policy_id s.detail ed)
  callback-Quiet (in_page Page.delete_failed) s _ (ep, ed) =
      (refl, kept s.page.selected_policy_id s.detail ed)
  callback-Quiet (in_page (Page.link m)) s _ (ep, ed) =
      (ep, kept s.page.selected_policy_id s.detail ed)
  callback-Quiet (in_page Page.back) s h _ = absurd h
  callback-Quiet (in_page Page.new_policy) s h _ = absurd h
  callback-Quiet (in_page Page.create) s h _ = absurd h
  callback-Quiet (in_page Page.cancel_create) s h _ = absurd h
  callback-Quiet (in_page (Page.open_policy _)) s h _ = absurd h
  callback-Quiet (in_page (Page.ask_delete _)) s h _ = absurd h
  callback-Quiet (in_page (Page.confirm_delete _)) s h _ = absurd h
  callback-Quiet (in_page (Page.ask_link _)) s h _ = absurd h
  callback-Quiet (in_page Page.cancel_delete) s h _ = absurd h
  callback-Quiet (in_detail id (Detail.form m)) s _ q = q
  callback-Quiet (in_detail id Detail.removed) s _ (ep, ed) = (ep, refl)
  callback-Quiet (in_detail id Detail.remove_failed) s _ (ep, ed) = (ep, refl)
  callback-Quiet (in_detail id (Detail.redrawn n)) s _ q = q
  callback-Quiet (in_detail id (Detail.add_step _)) s h _ = absurd h
  callback-Quiet (in_detail id (Detail.ask_remove _)) s h _ = absurd h
  callback-Quiet (in_detail id (Detail.confirm_remove _)) s h _ = absurd h
  callback-Quiet (in_detail id Detail.cancel_remove) s h _ = absurd h
  callback-Quiet (in_detail id Detail.back) s h _ = absurd h

  Reaches-Quiet : {s : Screen} → Reaches tenant false s → Quiet s
  Reaches-Quiet mounted = (refl, refl)
  Reaches-Quiet (click {s} i m can k r) =
      (All-Mem (Idle s) (offers (screen_view i s)) (offers-Idle i s can (Reaches-Quiet r)).only k).1
  Reaches-Quiet (callback {s} m h r) = callback-Quiet m s h (Reaches-Quiet r)

-- In every state that the page of a user without the permission to operate can reach, with the list
-- or with the view of a selected policy, no click sends a request other than GET requests.
pub viewer-Reads :
    (tenant : String) {s : Screen}
    → Reaches tenant false s
    → (i : Inputs) → Can i false
    → All (λ m. All Reads (update tenant m s).1) (offers (screen_view i s))
viewer-Reads tenant {s} r i can =
    All-mono (offers (screen_view i s)) (λ m h. h.0)
      (offers-Idle tenant i s can (Reaches-Quiet tenant r)).only
