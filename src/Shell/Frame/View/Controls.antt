-- ===== src/Shell/Frame/View/Controls.antt =====
-- What the frame lets the user open.
use ready_jlmirror.Common.{
  String, Bool, true, false, List, [], ◌∷◌, ◌++◌, Option, none, some, ◌==◌, ◌||◌, ◌&&◌, ◌≡◌, refl,
  arith, All, Bool-cases, inl, inr, lookup, map, filter,
}
use ready_jlmirror.Ui.{Element, offers}
use ready_jlmirror.Ui.Offers.{
  OffersOnly, nil, append, after_text, after_button, after_embed, under, for-All,
}
use ready_jlmirror.Session.{Branding}
use ready_jlmirror.Shell.Routes.{current_view_from_path}
use ready_jlmirror.Shell.Menu.{NavItem, NavGroup, nav_groups, items_of}
use ready_jlmirror.Shell.Menu.Access.{Need, needs, is_met, nav_groups-needs}
use ready_jlmirror.Shell.Badges.{Counts}
use ready_jlmirror.Shell.Frame.{Shell, Message, open_view}
use ready_jlmirror.Shell.Frame.View.{
  Inputs, perms, frame_view, item_view, group_view, expired_view, logo_view, user_view, topbar_view,
  msp_banner, page_view, maybe_text, brand_logo,
}

abbrev met_by : List String → Bool → Option Need → Bool
met_by ps msp none = false
met_by ps msp (some n) = is_met ps msp n

-- The knowledge base is open to everybody, another view to the sessions that meet its need.
pub may_open : List String → Bool → String → Bool
may_open ps msp v = (v == "kb") || met_by ps msp (lookup v needs)

-- A message opens only what may be opened.
abbrev pub Allowed : List String → Bool → Message → Type 0
Allowed ps msp (open_view v) = may_open ps msp v ≡ true
Allowed ps msp _ = Unit

needs-lookup : All (λ e. lookup e.0 needs ≡ some e.1) needs
unfolding needs lookup
needs-lookup = (
  refl,
  (
    refl,
    (
      refl,
      (
        refl,
        (
          refl,
          (
            refl,
            (
              refl,
              (
                refl,
                (
                  refl,
                  (
                    refl,
                    (
                      refl,
                      (
                        refl,
                        (
                          refl,
                          (
                            refl,
                            (
                              refl,
                              (
                                refl,
                                (refl, (refl, (refl, (refl, (refl, (refl, (refl, (refl, tt)))))))),
                              ),
                            ),
                          ),
                        ),
                      ),
                    ),
                  ),
                ),
              ),
            ),
          ),
        ),
      ),
    ),
  ),
)

All-left : (P : NavItem → Type 0) (xs ys : List NavItem) → All P (xs ++ ys) → All P xs
All-left P [] ys _ = tt
All-left P (x ∷ xs) ys (p, h) = (p, All-left P xs ys h)

All-right : (P : NavItem → Type 0) (xs ys : List NavItem) → All P (xs ++ ys) → All P ys
All-right P [] ys h = h
All-right P (x ∷ xs) ys (p, h) = All-right P xs ys h

module _ (ps : List String) (msp : Bool) where
  met_may_open :
      (es : List (String × Need))
      → All (λ e. lookup e.0 needs ≡ some e.1) es
      → All (λ v. may_open ps msp v ≡ true) (map (λ e. e.0) (filter (λ e. is_met ps msp e.1) es))
  unfolding may_open
  met_may_open [] _ = tt
  met_may_open (e ∷ es) (p, h) = elim (Bool-cases (is_met ps msp e.1)) [
    | inl met ↦ rw met ((rw (p, met) (or_true (e.0 == "kb"))), met_may_open es h)
    | inr unmet ↦ rw unmet (met_may_open es h)
  ]
    where
      or_true : (b : Bool) → (b || true) ≡ true
      or_true b = ground arith

  All-map :
      (is : List NavItem)
      → All (λ v. may_open ps msp v ≡ true) (map (λ i. i.id) is)
      → All (λ i. may_open ps msp i.id ≡ true) is
  All-map [] _ = tt
  All-map (i ∷ is) (p, h) = (p, All-map is h)

  menu_may_open : All (λ i. may_open ps msp i.id ≡ true) (items_of (nav_groups ps msp))
  menu_may_open =
      All-map (items_of (nav_groups ps msp))
        (rw (nav_groups-needs ps msp) (met_may_open needs needs-lookup))

  abbrev Good : List (Element Message) → Type 0
  Good = OffersOnly (Allowed ps msp)

  maybe_text-Good : (o : Option String) → Good (maybe_text o)
  unfolding maybe_text
  maybe_text-Good none = nil
  maybe_text-Good (some t) = after_text nil

  item_view-Good :
      (c : Counts) (collapsed : Bool) (i : NavItem)
      → may_open ps msp i.id ≡ true
      → Good (item_view c collapsed i)
  unfolding item_view
  item_view-Good c collapsed i p = after_button (λ _. p) (maybe_text-Good _)

  group_view-Good :
      (c : Counts) (collapsed : Bool) (folded : List String) (g : NavGroup)
      → All (λ i. may_open ps msp i.id ≡ true) g.items
      → Good (group_view c collapsed folded g)
  unfolding group_view
  group_view-Good c collapsed folded g h =
      append (under (λ _. after_button (λ _. tt) nil))
        (under (λ _. for-All g.items h (item_view-Good c collapsed)))

  -- The groups of a list of items that may all be opened.
  each_group :
      (gs : List NavGroup)
      → All (λ i. may_open ps msp i.id ≡ true) (items_of gs)
      → All (λ g. All (λ i. may_open ps msp i.id ≡ true) g.items) gs
  each_group [] _ = tt
  each_group (g ∷ gs) h = (All-left _ g.items _ h, each_group gs (All-right _ g.items _ h))

  brand_logo-Good : (b : Option Branding) → Good (brand_logo b)
  unfolding brand_logo
  brand_logo-Good none = nil
  brand_logo-Good (some b) = under (λ _. after_embed nil)

  logo_view-Good : (b : Option Branding) (collapsed : Bool) → Good (logo_view b collapsed)
  unfolding logo_view
  logo_view-Good b true = after_text nil
  logo_view-Good b false = append (brand_logo-Good b) (after_text nil)

  user_view-Good : (i : Inputs) (collapsed : Bool) → Good (user_view i collapsed)
  unfolding user_view
  user_view-Good i collapsed = after_text (
      append (under (λ _. after_text (after_text (after_button (λ _. tt) nil))))
        (after_button (λ _. tt) nil))

  topbar_view-Good : (i : Inputs) (view : String) → Good (topbar_view i view)
  unfolding topbar_view may_open lookup needs
  topbar_view-Good i view =
      after_text (after_button (λ _. refl) (append (maybe_text-Good _) (after_text nil)))

  expired_view-Good : (e : Bool) → Good (expired_view e)
  unfolding expired_view
  expired_view-Good e = under (λ _. after_text (after_button (λ _. tt) nil))

  msp_banner-Good : (view : String) → Good (msp_banner msp view)
  unfolding msp_banner may_open lookup needs
  msp_banner-Good view =
      under (λ shown. after_text (after_button (λ _. has_clients msp _ shown) nil))
    where
      has_clients : (b c : Bool) → (b && c) ≡ true → b ≡ true
      has_clients b c h = ground arith

  page_view-Good : (view : String) → Good (page_view view)
  unfolding page_view
  page_view-Good view = after_embed nil

-- Whatever the state of the shell, every control of the frame that opens a view opens the
-- knowledge base or a view whose need the session meets.
pub frame_view-Allowed :
    (i : Inputs) (s : Shell) → All (Allowed (perms i) i.has_msp_clients) (offers (frame_view i s))
unfolding frame_view may_open
frame_view-Allowed i s =
    let ps = perms i in
    let msp = i.has_msp_clients in
    let view = current_view_from_path i.path in
    let groups =
      for-All (nav_groups ps msp) (each_group ps msp _ (menu_may_open ps msp))
        (group_view-Good ps msp i.counts s.collapsed s.collapsed_groups) in
    let knowledge = after_button (λ _. refl) (user_view-Good ps msp i s.collapsed) in
    (append
      (append
        (append
          (append
            (append
              (append (expired_view-Good ps msp s.session_expired)
                (logo_view-Good ps msp i.branding s.collapsed))
              groups)
            knowledge)
          (topbar_view-Good ps msp i view))
        (msp_banner-Good ps msp view))
      (page_view-Good ps msp view)).only
