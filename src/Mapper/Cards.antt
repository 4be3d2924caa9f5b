-- ===== src/Mapper/Cards.antt =====
-- What the mapping to cards promises: the cover, the discount fields and the
-- merge with the detail data.
use mathlib.Core.Path.{subst}
use psstore.Prelude.{
  ◌≡◌, refl, Bool, true, false, none, some, List, [], ◌∷◌, ◌++◌, arith, find?, filter,
  All-filter_map, find?-All, is_empty, All, Option-cases, inl, inr,
}
use psstore.Prelude.Int.{ℤ}
use psstore.Prelude.Texts.{Text, text, text_eq}
use psstore.Js.Jiff.{Jiff}
use psstore.Js.Date.{◌>=>◌}
use psstore.Ids.{GameId}
use psstore.Game.{Game, Media, Concept}
use psstore.Mapper.{
  or_default, find_map, non_empty, Image, is_some_text, media_of, image_media, cover_role_priority,
  pick_cover, concept_cover, is_concept_discounted, concept_to_game, fill_card_from_detail,
}

abbrev pub has_role : Text → Image → Bool
has_role role image = text_eq image.role role

abbrev pub NoneHasRole : List Text → List Image → Type 0
NoneHasRole [] images = Unit
NoneHasRole (role ∷ roles) images = (find? (has_role role) images ≡ none) × NoneHasRole roles images

-- The cover is the first image of the first role, in order of priority, that any image has.
pub pick_cover_role :
    (before : List Text) (role : Text) (after : List Text) (images : List Image) (image : Image)
    → NoneHasRole before images
    → find? (has_role role) images ≡ some image
    → pick_cover (before ++ role ∷ after) images ≡ image.url
unfolding pick_cover
pick_cover_role [] role after images image h found = rw found refl
pick_cover_role (r ∷ before) role after images image h found =
    rw (h.0) (pick_cover_role before role after images image h.1 found)

-- The merge of a card with its detail data a second time changes nothing.
pub fill_card_from_detail_idem :
    (card detail : Game)
    → fill_card_from_detail (fill_card_from_detail card detail) detail
      ≡ fill_card_from_detail card detail
unfolding fill_card_from_detail
fill_card_from_detail_idem card detail = ground arith

module _ (j : Jiff) where
  -- The discount fields of a card: without a discount they are all empty, and a date of the
  -- discount is the release date of the card.
  pub concept_to_game-discount :
      (concept : Concept) (id : GameId) (now_ms : ℤ)
      → (is_concept_discounted concept ≡ false
          → ((concept_to_game j concept id now_ms).original_price ≡ [])
            × ((concept_to_game j concept id now_ms).discount_text ≡ [])
            × ((concept_to_game j concept id now_ms).discount_date ≡ []))
        × (is_empty (concept_to_game j concept id now_ms).discount_date ≡ false
            → (concept_to_game j concept id now_ms).discount_date
              ≡ (concept_to_game j concept id now_ms).date)
  unfolding concept_to_game
  concept_to_game-discount concept id now_ms =
      (λ h. (ground arith, ground arith, ground arith), λ h. ground arith)

abbrev pub HasUrl : Image → Type 0
HasUrl image = is_empty image.url ≡ false

-- what `image_media` yields has a url that is not empty
kept_url :
    (item : Media) (image : Image)
    → (non_empty item.url >=> λ url. some (record { role = or_default item.role; url = url }))
      ≡ some image
    → is_empty image.url ≡ false
unfolding non_empty
kept_url item image h = ground arith

NonEmptyUrl-image_media : (concept : Concept) → All HasUrl (image_media concept)
unfolding image_media
NonEmptyUrl-image_media concept =
    All-filter_map HasUrl
      (λ (item : Media).
        non_empty item.url >=> λ url. some (record { role = or_default item.role; url = url }))
      (filter (λ (item : Media). is_some_text item.kind (text "IMAGE")) (media_of concept)) kept_url

role_url :
    (roles : List Text) (images : List Image) (image : Image)
    → All HasUrl images
    → find_map (λ role. find? (has_role role) images) roles ≡ some image
    → HasUrl image
role_url [] images image all h = absurd (ground arith)
role_url (role ∷ roles) images image all h = elim (Option-cases (find? (has_role role) images)) [
  | inl absent ↦ role_url roles images image all (ground arith)
  | inr (found, at) ↦
      subst HasUrl {x = found} {y = image} (ground arith)
        (find?-All HasUrl (has_role role) images found all at)
]

picked_url :
    (roles : List Text) (image : Image) (images : List Image)
    → All HasUrl (image ∷ images)
    → is_empty (pick_cover roles (image ∷ images)) ≡ false
unfolding pick_cover
picked_url roles image images all =
    elim (Option-cases (find_map (λ role. find? (has_role role) (image ∷ images)) roles)) [
      | inl absent ↦ rw absent all.0
      | inr (found, at) ↦ rw at (role_url roles (image ∷ images) found all at)
    ]

empty_of_cover :
    (images : List Image)
    → All HasUrl images
    → is_empty (pick_cover cover_role_priority images) ≡ true
    → images ≡ []
empty_of_cover [] all h = refl
empty_of_cover (image ∷ images) all h =
    absurd (cc (h, picked_url cover_role_priority image images all))

-- The cover of a concept is empty only where the concept has no image with a url.
pub concept_cover-empty :
    (concept : Concept) → is_empty (concept_cover concept) ≡ true → image_media concept ≡ []
unfolding concept_cover
concept_cover-empty concept h =
    empty_of_cover (image_media concept) (NonEmptyUrl-image_media concept) h
