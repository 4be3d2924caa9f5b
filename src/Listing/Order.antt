-- ===== src/Listing/Order.antt =====
-- `sort_by_date` and `narrow_genres` as stable sorts.
use mathlib.Core.List.{Perm}
use psstore.Prelude.{
  ◌≡◌, refl, Bool, true, false, not, ◌&&◌, Option, none, some, List, [], ◌∷◌, arith, filter, All,
}
use psstore.Prelude.Int.{ℤ, ◌≤ℤ◌, ltb_ℤ}
use psstore.Prelude.Sort.{InOrder, sort_by-perm, sort_by-InOrder, filter-sort_by}
use psstore.Js.Jiff.{Jiff}
use psstore.Js.Collation.{is_greater}
use psstore.Game.{Game}
use psstore.Listing.{
  SortOrder, date_desc, date_asc, date_cmp, release_ms, dated_after, sort_by_date,
}

date_cmp-asym :
    (order : SortOrder) (a b : Option ℤ)
    → is_greater (date_cmp order a b) ≡ true
    → is_greater (date_cmp order b a) ≡ false
unfolding date_cmp
date_cmp-asym date_desc a b h = ground arith
date_cmp-asym date_asc a b h = ground arith

-- What the list promises of two dates of which the first stands before the second.
abbrev pub MayPrecede : SortOrder → Option ℤ → Option ℤ → Type 0
MayPrecede date_desc (some a) (some b) = b ≤ℤ a
MayPrecede date_asc (some a) (some b) = a ≤ℤ b
MayPrecede order (some a) none = Unit
MayPrecede order none (some b) = ⊥
MayPrecede order none none = Unit

precede_of_cmp :
    (order : SortOrder) (a b : Option ℤ)
    → is_greater (date_cmp order a b) ≡ false
    → MayPrecede order a b
unfolding date_cmp
precede_of_cmp date_desc (some a) (some b) h = ground arith
precede_of_cmp date_asc (some a) (some b) h = ground arith
precede_of_cmp order (some a) none h = tt
precede_of_cmp order none (some b) h = cc
precede_of_cmp order none none h = tt

cmp_of_precede :
    (order : SortOrder) (a b : Option ℤ)
    → MayPrecede order a b
    → is_greater (date_cmp order a b) ≡ false
unfolding date_cmp
cmp_of_precede date_desc (some a) (some b) h = ground arith
cmp_of_precede date_asc (some a) (some b) h = ground arith
cmp_of_precede order (some a) none h = refl
cmp_of_precede order none (some b) h = absurd h
cmp_of_precede order none none h = refl

MayPrecede-trans :
    (order : SortOrder) (a b c : Option ℤ)
    → MayPrecede order a b
    → MayPrecede order b c
    → MayPrecede order a c
MayPrecede-trans date_desc (some a) (some b) (some c) h k = omega arith
MayPrecede-trans date_asc (some a) (some b) (some c) h k = omega arith
MayPrecede-trans order a none (some c) h k = absurd k
MayPrecede-trans order none (some b) c h k = absurd h
MayPrecede-trans order (some a) b none h k = tt
MayPrecede-trans order none none none h k = tt

date_cmp_trans :
    (order : SortOrder) (a b c : Option ℤ)
    → is_greater (date_cmp order a b) ≡ false
    → is_greater (date_cmp order b c) ≡ false
    → is_greater (date_cmp order a c) ≡ false
date_cmp_trans order a b c h k =
    cmp_of_precede order a c
      (MayPrecede-trans order a b c (precede_of_cmp order a b h) (precede_of_cmp order b c k))

-- equal dates, as a test
abbrev pub same_date : Option ℤ → Option ℤ → Bool
same_date (some a) (some b) = not (ltb_ℤ a b) && not (ltb_ℤ b a)
same_date none none = true
same_date _ _ = false

same_date-cmp :
    (order : SortOrder) (d a b : Option ℤ)
    → same_date a d ≡ true
    → same_date b d ≡ true
    → is_greater (date_cmp order a b) ≡ false
unfolding date_cmp
same_date-cmp date_desc d a b h k = ground arith
same_date-cmp date_asc d a b h k = ground arith

module _ (j : Jiff) where
  -- every card may stand before the cards behind it
  abbrev pub AllFollow : SortOrder → Game → List Game → Type 0
  AllFollow order x [] = Unit
  AllFollow order x (y ∷ ys) =
      MayPrecede order (release_ms j x) (release_ms j y) × AllFollow order x ys

  abbrev pub IsSorted : SortOrder → List Game → Type 0
  IsSorted order [] = Unit
  IsSorted order (x ∷ xs) = AllFollow order x xs × IsSorted order xs

  follow_of_All :
      (order : SortOrder) (x : Game) (ys : List Game)
      → All (λ y. dated_after j order x y ≡ false) ys
      → AllFollow order x ys
  follow_of_All order x [] h = tt
  follow_of_All order x (y ∷ ys) h = (precede_of_cmp order _ _ h.0, follow_of_All order x ys h.1)

  IsSorted-of_InOrder :
      (order : SortOrder) (xs : List Game) → InOrder (dated_after j order) xs → IsSorted order xs
  IsSorted-of_InOrder order [] h = tt
  IsSorted-of_InOrder order (x ∷ xs) h =
      (follow_of_All order x xs h.0, IsSorted-of_InOrder order xs h.1)

  -- `sort_by_date` returns the same cards, in the order of their dates: newest or oldest first, and
  -- the cards without a date last in both directions.
  pub sort_by_date-IsSorted :
      (games : List Game) (order : SortOrder)
      → IsSorted order (sort_by_date j games order) × Perm (sort_by_date j games order) games
  unfolding sort_by_date
  sort_by_date-IsSorted games order = (
    IsSorted-of_InOrder order _ (
        sort_by-InOrder (dated_after j order)
          (λ x y. date_cmp-asym order (release_ms j x) (release_ms j y))
          (λ x y z. date_cmp_trans order (release_ms j x) (release_ms j y) (release_ms j z)) games),
    sort_by-perm (dated_after j order) games,
  )

  -- The cards of one date, or those without one, keep their order.
  pub filter-sort_by_date :
      (games : List Game) (order : SortOrder) (date : Option ℤ)
      → filter (λ game. same_date (release_ms j game) date) (sort_by_date j games order)
        ≡ filter (λ game. same_date (release_ms j game) date) games
  unfolding sort_by_date
  filter-sort_by_date games order date =
      filter-sort_by (dated_after j order) (λ game. same_date (release_ms j game) date)
        (λ x y. same_date-cmp order date (release_ms j x) (release_ms j y)) games
