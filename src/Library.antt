-- ===== src/Library.antt =====
-- crates/domain/src/library.rs: the signed-in lists, the purchased games and the wishlist, and their
-- game cards.
pub mod Cards
use psstore.Prelude.{Option, none, some, List, [], map, false, is_empty, if◌then◌else◌}
use psstore.Prelude.Texts.{Text, Text-discrete}
use psstore.Prelude.Dedupe.{dedupe}
use psstore.Ids.{GameId, ProductId, ConceptId, product_game_id, concept_game_id}
use psstore.Game.{Game, IdKind}

pub record PurchasedEntry : Type 0 where
  pub product_id : ProductId
  pub name : Text
  pub image_url : Text

pub data WishlistId : Type 0 where
  product_wish : ProductId → WishlistId
  concept_wish : ConceptId → WishlistId

unfoldable pub wish_kind : WishlistId → IdKind
wish_kind (product_wish id) = IdKind.product
wish_kind (concept_wish id) = IdKind.concept

-- `WishlistId::as_str`
unfoldable pub wish_text : WishlistId → Text
wish_text (product_wish id) = id.as_str
wish_text (concept_wish id) = id.as_str

unfoldable pub wish_game_id : WishlistId → GameId
unfolding product_game_id concept_game_id
wish_game_id (product_wish id) = product_game_id id
wish_game_id (concept_wish id) = concept_game_id id

pub record WishlistEntry : Type 0 where
  pub id : WishlistId
  pub name : Text
  pub image_url : Text

unfoldable pub dedupe_purchased : List PurchasedEntry → List PurchasedEntry
dedupe_purchased entries =
    dedupe Text-discrete (λ (entry : PurchasedEntry). entry.product_id.as_str) entries

unfoldable pub library_card : GameId → Text → Text → IdKind → Game
library_card id name image_url id_kind = record {
  id = id;
  name = name;
  date = [];
  url = image_url;
  price = [];
  original_price = [];
  discount_text = [];
  discount_date = [];
  screenshots = [];
  videos = [];
  genres = [];
  description = [];
  studio = [];
  pre_order = false;
  plus_upsell_text = none;
  plus_offer = none;
  id_kind = id_kind;
}

unfoldable pub purchased_cards : List PurchasedEntry → List Game
unfolding library_card product_game_id
purchased_cards entries =
    map
      (λ (entry : PurchasedEntry).
        library_card (product_game_id entry.product_id) entry.name entry.image_url IdKind.product)
      entries

unfoldable pub wishlist_card : WishlistEntry → Game
unfolding library_card wish_game_id wish_kind
wishlist_card entry =
    library_card (wish_game_id entry.id) entry.name entry.image_url (wish_kind entry.id)

unfoldable pub wishlist_cards : List WishlistEntry → List Game
wishlist_cards entries = map wishlist_card entries

unfoldable pub merge_wishlist_entry : WishlistEntry → Option Game → Game
unfolding wishlist_card wish_game_id
merge_wishlist_entry entry none = wishlist_card entry
merge_wishlist_entry entry (some game) = record game {
  id = wish_game_id entry.id;
  name = if is_empty game.name then entry.name else game.name;
  url = if is_empty game.url then entry.image_url else game.url;
}
