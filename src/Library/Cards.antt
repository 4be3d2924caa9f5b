-- ===== src/Library/Cards.antt =====
-- The cards of the signed-in lists keep the ids, the order and the names of their entries.
use mathlib.Core.List.{Sublist}
use psstore.Prelude.{
  ◌≡◌, refl, ap, false, Option, none, some, List, [], ◌∷◌, map, arith, find?, is_empty, All,
}
use psstore.Prelude.Texts.{Text, Text-discrete}
use psstore.Prelude.Dedupe.{has_key, DistinctKeys, dedupe-DistinctKeys, find-dedupe, dedupe-sublist}
use psstore.Ids.{product_game_id, concept_game_id}
use psstore.Game.{Game, IdKind}
use psstore.Library.{
  PurchasedEntry, WishlistId, WishlistEntry, wish_text, wish_game_id, dedupe_purchased,
  library_card, purchased_cards, product_wish, concept_wish, wishlist_card, merge_wishlist_entry,
}

abbrev pub purchased_text : PurchasedEntry → Text
purchased_text entry = entry.product_id.as_str

-- The purchased list keeps Sony's order, holds no product id twice, and keeps the first entry of
-- every product id.
pub dedupe_purchased_lem :
    (entries : List PurchasedEntry)
    → Sublist (dedupe_purchased entries) entries
      × DistinctKeys Text-discrete purchased_text (dedupe_purchased entries)
      × ((id : Text)
          → find? (has_key Text-discrete purchased_text id) (dedupe_purchased entries)
            ≡ find? (has_key Text-discrete purchased_text id) entries)
unfolding dedupe_purchased
dedupe_purchased_lem entries = (
  dedupe-sublist Text-discrete purchased_text entries,
  dedupe-DistinctKeys Text-discrete purchased_text entries,
  λ id. find-dedupe Text-discrete purchased_text id entries,
)

-- The purchased cards are those of the entries, in their order: each has the product id of its
-- entry as its id, the kind of a product, and no date and no price.
pub purchased_cards_lem :
    (entries : List PurchasedEntry)
    → (map (λ (game : Game). game.id.as_str) (purchased_cards entries) ≡ map purchased_text entries)
      × All
          (λ (game : Game). (game.id_kind ≡ IdKind.product) × (game.date ≡ []) × (game.price ≡ []))
          (purchased_cards entries)
unfolding purchased_cards library_card product_game_id
purchased_cards_lem [] = (refl, tt)
purchased_cards_lem (entry ∷ entries) =
    let (ids, fields) = purchased_cards_lem entries in
    (ap (λ rest. purchased_text entry ∷ rest) ids, ((refl, refl, refl), fields))

wish_game_id_text : (id : WishlistId) → (wish_game_id id).as_str ≡ wish_text id
unfolding wish_game_id wish_text product_game_id concept_game_id
wish_game_id_text (product_wish id) = refl
wish_game_id_text (concept_wish id) = refl

-- A wishlist card has the id of its entry, whatever the store returned; it has a name and a cover
-- wherever the entry has one; and it has the store's name and cover wherever these are not empty.
pub merge_wishlist_entry_lem :
    (entry : WishlistEntry) (found : Option Game)
    → ((merge_wishlist_entry entry found).id.as_str ≡ wish_text entry.id)
      × (is_empty entry.name ≡ false → is_empty (merge_wishlist_entry entry found).name ≡ false)
      × (is_empty entry.image_url ≡ false → is_empty (merge_wishlist_entry entry found).url ≡ false)
      × ((game : Game)
          → found ≡ some game
          → is_empty game.name ≡ false
          → (merge_wishlist_entry entry found).name ≡ game.name)
unfolding merge_wishlist_entry wishlist_card library_card
merge_wishlist_entry_lem entry none = (wish_game_id_text entry.id, λ h. h, λ h. h, λ game h. cc)
merge_wishlist_entry_lem entry (some game) =
    (wish_game_id_text entry.id, ground arith, ground arith, λ g h k. ground arith)
