-- ===== src/Listing/Candidates.antt =====
-- `browse_candidate_ids`: the ids that BROWSE tries for a concept.
use psstore.Prelude.{
  ℕ, ◌≤◌, ◌≡◌, true, false, not, Option, none, some, List, [], ◌∷◌, ◌++◌, arith, length, take,
  filter, filter_map, zero, suc, All, All-filter_map, filter_holds, filter-All, take-All,
  append-All, length-take,
}
use psstore.Prelude.Texts.{Text, Text-discrete}
use psstore.Prelude.Dedupe.{dedupe-All}
use psstore.Js.Date.{◌>=>◌}
use psstore.Ids.{ProductId, parse_product_id, is_valid_product_id}
use psstore.Ids.Formats.{parse_product_id-some}
use psstore.Game.{Concept, ConceptProductRef}
use psstore.Mapper.{or_default}
use psstore.Listing.{is_ps5_title_product_id, concept_ids, browse_candidate_ids}

valid_of_ref :
    (o : Option Text) (id : ProductId)
    → (o >=> parse_product_id) ≡ some id
    → is_valid_product_id id.as_str ≡ true
valid_of_ref none id h = cc
valid_of_ref (some value) id h =
    let (valid, same) = parse_product_id-some value id h in rw same valid

concept_ids-valid :
    (concept : Concept)
    → All (λ (id : ProductId). is_valid_product_id id.as_str ≡ true) (concept_ids concept)
unfolding concept_ids
concept_ids-valid concept =
    dedupe-All Text-discrete (λ (id : ProductId). id.as_str)
      (λ (id : ProductId). is_valid_product_id id.as_str ≡ true)
      (filter_map (λ (product : ConceptProductRef). product.id >=> parse_product_id)
        (or_default concept.products))
      (All-filter_map (λ (id : ProductId). is_valid_product_id id.as_str ≡ true)
        (λ (product : ConceptProductRef). product.id >=> parse_product_id)
        (or_default concept.products) (λ product id. valid_of_ref product.id id))

-- no id of another title stands before one of a PS5 title
abbrev pub Ps5First : List ProductId → Type 0
Ps5First [] = Unit
Ps5First (id ∷ ids) =
    (is_ps5_title_product_id id ≡ false → All (λ other. is_ps5_title_product_id other ≡ false) ids)
    × Ps5First ids

Ps5First-append :
    (xs ys : List ProductId)
    → All (λ id. is_ps5_title_product_id id ≡ true) xs
    → All (λ id. is_ps5_title_product_id id ≡ false) ys
    → Ps5First (xs ++ ys)
Ps5First-append [] [] h k = tt
Ps5First-append [] (y ∷ ys) h k = (λ miss. k.1, Ps5First-append [] ys tt k.1)
Ps5First-append (x ∷ xs) ys h k = (λ miss. absurd (cc (miss, h.0)), Ps5First-append xs ys h.1 k)

Ps5First-take : (n : ℕ) (xs : List ProductId) → Ps5First xs → Ps5First (take n xs)
Ps5First-take zero xs h = tt
Ps5First-take (suc n) [] h = tt
Ps5First-take (suc n) (x ∷ xs) h = (λ miss. take-All _ n xs (h.0 miss), Ps5First-take n xs h.1)

All-not :
    (xs : List ProductId)
    → All (λ id. not (is_ps5_title_product_id id) ≡ true) xs
    → All (λ id. is_ps5_title_product_id id ≡ false) xs
All-not [] h = tt
All-not (x ∷ xs) h = (ground arith, All-not xs h.1)

-- The candidates of a concept for BROWSE: at most three, with valid product ids, those of PS5 titles
-- first.
pub browse_candidate_ids_lem :
    (concept : Concept)
    → (length (browse_candidate_ids concept) ≤ 3)
      × All
          (λ (id : ProductId). is_valid_product_id id.as_str ≡ true)
          (browse_candidate_ids concept)
      × Ps5First (browse_candidate_ids concept)
unfolding browse_candidate_ids
browse_candidate_ids_lem concept =
    let ids = concept_ids concept in
    let ps5 = filter is_ps5_title_product_id ids in
    let others = filter (λ id. not (is_ps5_title_product_id id)) ids in
    let valid = concept_ids-valid concept in
    (
      omega (arith, length-take 3 (ps5 ++ others)),
      take-All _ 3 (ps5 ++ others) (
          append-All _ ps5 others (filter-All _ is_ps5_title_product_id ids valid)
            (filter-All _ (λ id. not (is_ps5_title_product_id id)) ids valid)),
      Ps5First-take 3 (ps5 ++ others) (
          Ps5First-append ps5 others (filter_holds is_ps5_title_product_id ids)
            (All-not others (filter_holds (λ id. not (is_ps5_title_product_id id)) ids))),
    )
