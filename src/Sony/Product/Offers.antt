-- ===== src/Sony/Product/Offers.antt =====
-- Which of the price buttons of a product give its offer and its standard price.
use mathlib.Core.Path.{subst}
use psstore.Prelude.{
  any, Bool, ◌≡◌, refl, ap, ◌⊎◌, inl, inr, true, false, not, ◌||◌, Option, none, some, List, [],
  ◌∷◌, arith, is_empty, Bool-cases, Option-cases, if◌then◌else◌,
}
use psstore.Prelude.Texts.{Text, text_eq}
use psstore.Js.Trim.{js_trim}
use psstore.Js.Date.{◌>=>◌}
use psstore.Game.{PlusOffer, included, StandardPrice}
use psstore.Mapper.{find_map}
use psstore.Sony.Json.{Value}
use psstore.Sony.Product.{
  Cta, CtaPrice, is_upsell, has_ps_plus, is_some_true, tied_offer, offer_from_cta,
  standard_from_cta, text_or_empty, decoded_ctas, parse_product_price, included_cta_types,
}

-- The offer of an upsell: the game is included by a button of one of three kinds that is tied to a
-- subscription, or has the price of a button that is not.
pub data Tied (entry : Cta) (price : CtaPrice) : PlusOffer → Type 0 where
  tied :
      (kind : Text)
      → price.is_tied_to_subscription ≡ some true
      → entry.kind ≡ some kind
      → any (text_eq kind) included_cta_types ≡ true
      → Tied entry price included
  priced :
      (amount : Text)
      → price.is_tied_to_subscription ≡ some false
      → price.discounted_price ≡ some amount
      → is_empty (js_trim amount) ≡ false
      → Tied entry price (PlusOffer.price amount)

tied_offer-Tied :
    (entry : Cta) (price : CtaPrice) (kind amount : Option Text) (is_tied : Option Bool)
    (offer : PlusOffer)
    → entry.kind ≡ kind
    → price.discounted_price ≡ amount
    → price.is_tied_to_subscription ≡ is_tied
    → tied_offer kind amount is_tied ≡ some offer
    → Tied entry price offer
unfolding tied_offer
tied_offer-Tied entry price none amount (some true) offer k d t h = absurd (cc h)
tied_offer-Tied entry price (some kind) amount (some true) offer k d t h =
    elim (Bool-cases (any (text_eq kind) included_cta_types)) [
      | inl is_included ↦
          subst (Tied entry price) {x = included} {y = offer} (ground (arith, h, is_included))
            (tied kind t k is_included)
      | inr other ↦ absurd (ground (arith, h, other))
    ]
tied_offer-Tied entry price kind none (some false) offer k d t h = absurd (cc h)
tied_offer-Tied entry price kind (some amount) (some false) offer k d t h =
    elim (Bool-cases (is_empty (js_trim amount))) [
      | inl blank ↦ absurd (ground (arith, h, blank))
      | inr filled ↦
          subst (Tied entry price) {x = PlusOffer.price amount} {y = offer}
            (ground (arith, h, filled)) (priced amount t d filled)
    ]
tied_offer-Tied entry price kind amount none offer k d t h = absurd (cc h)

-- a PS Plus upsell button
pub record IsOffer (entry : Cta) (offer : PlusOffer) : Type 0 where
  pub price : CtaPrice
  pub has_price : entry.price ≡ some price
  pub upsell : is_upsell price ≡ true
  pub ps_plus : has_ps_plus price ≡ true
  pub given : Tied entry price offer

pub record IsStandard (entry : Cta) (standard : StandardPrice) : Type 0 where
  pub price : CtaPrice
  pub has_price : entry.price ≡ some price
  pub not_upsell : is_upsell price ≡ false
  pub not_tied : is_some_true price.is_tied_to_subscription ≡ false
  pub base_price : standard.base_price ≡ text_or_empty price.base_price
  pub discounted_price : standard.discounted_price ≡ text_or_empty price.discounted_price
  pub discount_text : standard.discount_text ≡ text_or_empty price.display_discount_text
  pub some_text :
      (is_empty standard.base_price ≡ false) ⊎ (is_empty standard.discounted_price ≡ false)

offer_from_cta-IsOffer :
    (entry : Cta) (offer : PlusOffer) → offer_from_cta entry ≡ some offer → IsOffer entry offer
unfolding offer_from_cta
offer_from_cta-IsOffer entry offer h = go entry.price refl h
  where
    go :
        (o : Option CtaPrice)
        → entry.price ≡ o
        → (o >=> λ price.
            if not (is_upsell price) || not (has_ps_plus price)
            then none
            else tied_offer entry.kind price.discounted_price price.is_tied_to_subscription)
          ≡ some offer
        → IsOffer entry offer
    go none e k = absurd (cc k)
    go (some price) e k = elim (Bool-cases (is_upsell price)) [
      | inr no_upsell ↦ absurd (ground (arith, k, no_upsell))
      | inl upsell ↦ elim (Bool-cases (has_ps_plus price)) [
        | inr no_plus ↦ absurd (ground (arith, k, no_plus))
        | inl plus ↦ record {
          price = price;
          has_price = e;
          upsell = upsell;
          ps_plus = plus;
          given =
              tied_offer-Tied entry price entry.kind price.discounted_price
                price.is_tied_to_subscription offer refl refl refl
                (ground (arith, k, upsell, plus));
        }
      ]
    ]

-- the texts of a button
abbrev standard_texts : CtaPrice → StandardPrice
standard_texts price = record {
  base_price = text_or_empty price.base_price;
  discounted_price = text_or_empty price.discounted_price;
  discount_text = text_or_empty price.display_discount_text;
}

standard_parts :
    (price : CtaPrice) (standard : StandardPrice)
    → (let found : StandardPrice = record {
      base_price = text_or_empty price.base_price;
      discounted_price = text_or_empty price.discounted_price;
      discount_text = text_or_empty price.display_discount_text;
    } in
        if is_upsell price || is_some_true price.is_tied_to_subscription
        then none
        else if not (is_empty found.base_price) || not (is_empty found.discounted_price)
        then some found
        else none)
      ≡ some standard
    → (is_upsell price ≡ false)
      × (is_some_true price.is_tied_to_subscription ≡ false)
      × (standard ≡ standard_texts price)
      × ((is_empty standard.base_price ≡ false) ⊎ (is_empty standard.discounted_price ≡ false))
standard_parts price standard h =
    elim (Bool-cases (is_upsell price || is_some_true price.is_tied_to_subscription)) [
      | inl out ↦ absurd (ground (arith, h, out))
      | inr inside ↦ elim (Bool-cases (is_empty (text_or_empty price.base_price))) [
        | inr some_base ↦ (
          ground (arith, inside),
          ground (arith, inside),
          ground (arith, h, inside, some_base),
          inl (ground (arith, h, inside, some_base)),
        )
        | inl no_base ↦ elim (Bool-cases (is_empty (text_or_empty price.discounted_price))) [
          | inr some_discounted ↦ (
            ground (arith, inside),
            ground (arith, inside),
            ground (arith, h, inside, no_base, some_discounted),
            inr (ground (arith, h, inside, no_base, some_discounted)),
          )
          | inl no_discounted ↦ absurd (ground (arith, h, inside, no_base, no_discounted))
        ]
      ]
    ]

standard_from_cta-IsStandard :
    (entry : Cta) (standard : StandardPrice)
    → standard_from_cta entry ≡ some standard
    → IsStandard entry standard
unfolding standard_from_cta
standard_from_cta-IsStandard entry standard h = go entry.price refl h
  where
    go :
        (o : Option CtaPrice)
        → entry.price ≡ o
        → (o >=> λ price.
            let found : StandardPrice = record {
              base_price = text_or_empty price.base_price;
              discounted_price = text_or_empty price.discounted_price;
              discount_text = text_or_empty price.display_discount_text;
            } in
            if is_upsell price || is_some_true price.is_tied_to_subscription
            then none
            else if not (is_empty found.base_price) || not (is_empty found.discounted_price)
            then some found
            else none)
          ≡ some standard
        → IsStandard entry standard
    go none e k = absurd (cc k)
    go (some price) e k =
        let parts = standard_parts price standard k in
        record {
          price = price;
          has_price = e;
          not_upsell = parts.0;
          not_tied = parts.1;
          base_price = ap (λ (s : StandardPrice). s.base_price) parts.2;
          discounted_price = ap (λ (s : StandardPrice). s.discounted_price) parts.2;
          discount_text = ap (λ (s : StandardPrice). s.discount_text) parts.2;
          some_text = parts.3;
        }

-- a membership that keeps its place
pub data In {A : Type 0} (a : A) : List A → Type 0 where
  here : (xs : List A) → In a (a ∷ xs)
  there : (x : A) (xs : List A) → In a xs → In a (x ∷ xs)

find_map-some :
    {A B : Type 0} (f : A → Option B) (P : A → B → Type 0)
    → ((a : A) (b : B) → f a ≡ some b → P a b)
    → (xs : List A) (b : B) → find_map f xs ≡ some b
    → (a : A) × In a xs × P a b
find_map-some f P h [] b k = absurd (cc k)
find_map-some f P h (x ∷ xs) b k = elim (Option-cases (f x)) [
  | inl none_case ↦
      let (a, place, found) = find_map-some f P h xs b (rw none_case at k) in
      (a, there x xs place, found)
  | inr (c, some_case) ↦ (x, here xs, h x b (ground (arith, k, some_case)))
]

abbrev pub IsOptionOf {ℓ} : {A : Type ℓ} → (A → Type 0) → Option A → Type 0
IsOptionOf P none = Unit
IsOptionOf P (some a) = P a

-- In every price response, an offer of PS Plus is that of a decoded button that is an upsell with the
-- branding of PS Plus: included by a button of a known kind that is tied to a subscription, or with the
-- price of a button that is not, when it is not blank. A standard price is that
-- of a decoded button that is neither an upsell nor tied to a subscription: its base price, its
-- discounted price and its discount text, with one of the two prices not empty.
pub parse_product_price_lem :
    (json : Value)
    → IsOptionOf
        (λ offer. (entry : Cta) × In entry (decoded_ctas json) × IsOffer entry offer)
        (parse_product_price json).plus_offer
      × IsOptionOf
          (λ standard. (entry : Cta) × In entry (decoded_ctas json) × IsStandard entry standard)
          (parse_product_price json).standard
unfolding parse_product_price
parse_product_price_lem json = (
  offers (find_map offer_from_cta (decoded_ctas json)) refl,
  standards (find_map standard_from_cta (decoded_ctas json)) refl,
)
  where
    offers :
        (o : Option PlusOffer)
        → find_map offer_from_cta (decoded_ctas json) ≡ o
        → IsOptionOf (λ offer. (entry : Cta) × In entry (decoded_ctas json) × IsOffer entry offer) o
    offers none h = tt
    offers (some offer) h =
        find_map-some offer_from_cta IsOffer offer_from_cta-IsOffer (decoded_ctas json) offer h

    standards :
        (o : Option StandardPrice)
        → find_map standard_from_cta (decoded_ctas json) ≡ o
        → IsOptionOf
            (λ standard. (entry : Cta) × In entry (decoded_ctas json) × IsStandard entry standard)
            o
    standards none h = tt
    standards (some standard) h =
        find_map-some standard_from_cta IsStandard standard_from_cta-IsStandard (decoded_ctas json)
          standard h
