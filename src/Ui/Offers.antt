-- ===== src/Ui/Offers.antt =====
-- What a view lets the user do: rules to show that it offers only messages of some kind.
use ready_jlmirror.Common.{
  String, Bool, true, false, List, [], ◌∷◌, ◌++◌, ◌≡◌, refl, ap, All, All-append, if◌then◌else◌,
}
use ready_jlmirror.Ui.{
  Element, text, badge, spinner, button, row, input, select, check, link, embed, Variant, offers,
  when, each, relabel,
}

pub offers-append : {M : Type 0} (v w : List (Element M)) → offers (v ++ w) ≡ offers v ++ offers w
unfolding offers
offers-append [] w = refl
offers-append (button label true m ∷ v) w = ap (λ ms. m ∷ ms) (offers-append v w)
offers-append (row m ∷ v) w = ap (λ ms. m ∷ ms) (offers-append v w)
offers-append (check label checked m ∷ v) w = ap (λ ms. m ∷ ms) (offers-append v w)
offers-append (_ ∷ v) w = offers-append v w

-- Every message that the view offers has the property.
pub record OffersOnly {M : Type 0} (P : M → Type 0) (v : List (Element M)) : Type 0 where
  pub only : All P (offers v)

module _ {M : Type 0} {P : M → Type 0} where
  pub nil : OffersOnly P []
  unfolding offers
  nil = record { only = tt }

  pub append : {v w : List (Element M)} → OffersOnly P v → OffersOnly P w → OffersOnly P (v ++ w)
  append {v} {w} h k = record {
    only = rw offers-append (All-append P (offers v) (offers w) h.only k.only);
  }

  pub after_text : {s : String} {v : List (Element M)} → OffersOnly P v → OffersOnly P (text s ∷ v)
  unfolding offers
  after_text h = record { only = h.only }

  pub after_badge :
      {a : Variant} {s : String} {v : List (Element M)}
      → OffersOnly P v
      → OffersOnly P (badge a s ∷ v)
  unfolding offers
  after_badge h = record { only = h.only }

  pub after_spinner : {v : List (Element M)} → OffersOnly P v → OffersOnly P (spinner ∷ v)
  unfolding offers
  after_spinner h = record { only = h.only }

  pub after_input :
      {l s : String} {f : String → M} {v : List (Element M)}
      → OffersOnly P v
      → OffersOnly P (input l s f ∷ v)
  unfolding offers
  after_input h = record { only = h.only }

  pub after_select :
      {l s : String} {os : List (String × String)} {f : String → M} {v : List (Element M)}
      → OffersOnly P v
      → OffersOnly P (select l s os f ∷ v)
  unfolding offers
  after_select h = record { only = h.only }

  pub after_link :
      {l s : String} {v : List (Element M)} → OffersOnly P v → OffersOnly P (link l s ∷ v)
  unfolding offers
  after_link h = record { only = h.only }

  pub after_embed :
      {s : String} {v : List (Element M)} → OffersOnly P v → OffersOnly P (embed s ∷ v)
  unfolding offers
  after_embed h = record { only = h.only }

  -- A button offers its message only where it is enabled.
  pub after_button :
      {l : String} {b : Bool} {m : M} {v : List (Element M)}
      → (b ≡ true → P m)
      → OffersOnly P v
      → OffersOnly P (button l b m ∷ v)
  unfolding offers
  after_button {b = true} p h = record { only = (p refl, h.only) }
  after_button {b = false} p h = record { only = h.only }

  pub after_row : {m : M} {v : List (Element M)} → P m → OffersOnly P v → OffersOnly P (row m ∷ v)
  unfolding offers
  after_row p h = record { only = (p, h.only) }

  pub after_check :
      {l : String} {b : Bool} {m : M} {v : List (Element M)}
      → P m
      → OffersOnly P v
      → OffersOnly P (check l b m ∷ v)
  unfolding offers
  after_check p h = record { only = (p, h.only) }

  -- A part that is shown under a test may use that it holds.
  pub under :
      {b : Bool} {v : List (Element M)} → (b ≡ true → OffersOnly P v) → OffersOnly P (when b v)
  unfolding when
  under {b = true} h = h refl
  under {b = false} h = nil

  pub by_test :
      (b : Bool) {v w : List (Element M)}
      → (b ≡ true → OffersOnly P v)
      → (b ≡ false → OffersOnly P w)
      → OffersOnly P (if b then v else w)
  by_test true h k = h refl
  by_test false h k = k refl

  pub for_each {ℓ} :
      {A : Type ℓ} {f : A → List (Element M)} (as' : List A)
      → ((a : A) → OffersOnly P (f a))
      → OffersOnly P (each f as')
  unfolding each
  for_each [] h = nil
  for_each (a ∷ as') h = append (h a) (for_each as' h)

  pub for-All {ℓ} :
      {A : Type ℓ} {f : A → List (Element M)} {Q : A → Type 0} (as' : List A)
      → All Q as'
      → ((a : A) → Q a → OffersOnly P (f a))
      → OffersOnly P (each f as')
  unfolding each
  for-All [] q h = nil
  for-All (a ∷ as') (q, qs) h = append (h a q) (for-All as' qs h)

-- What is shown within another component offers the messages that it has there.
within-All :
    {M N : Type 0} (P : N → Type 0) (f : M → N) (v : List (Element M))
    → All (λ m. P (f m)) (offers v)
    → All P (offers (relabel f v))
unfolding offers relabel
within-All P f [] h = tt
within-All P f (text t ∷ v) h = within-All P f v h
within-All P f (badge a t ∷ v) h = within-All P f v h
within-All P f (spinner ∷ v) h = within-All P f v h
within-All P f (button l true m ∷ v) h = (h.0, within-All P f v h.1)
within-All P f (button l false m ∷ v) h = within-All P f v h
within-All P f (row m ∷ v) h = (h.0, within-All P f v h.1)
within-All P f (input l t g ∷ v) h = within-All P f v h
within-All P f (select l t os g ∷ v) h = within-All P f v h
within-All P f (check l b m ∷ v) h = (h.0, within-All P f v h.1)
within-All P f (link l t ∷ v) h = within-All P f v h
within-All P f (embed t ∷ v) h = within-All P f v h

pub within :
    {M N : Type 0} {P : N → Type 0} (f : M → N) {v : List (Element M)}
    → OffersOnly (λ m. P (f m)) v
    → OffersOnly P (relabel f v)
within {P} f {v} h = record { only = within-All P f v h.only }

pub ruleset view_rules = (
  nil, append, after_text, after_badge, after_spinner, after_input, after_select, after_link,
  after_embed,
)
