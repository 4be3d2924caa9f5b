-- ===== src/Sony/Graphql/Outage.antt =====
-- An answer that the client retries as an outage of Sony has no node for any decoder.
use psstore.Prelude.{
  ℕ, ◌≡◌, refl, ◌⊎◌, inl, inr, Bool, true, false, ◌&&◌, Option, none, some, List, [], arith, any,
  all, Bool-cases,
}
use psstore.Prelude.Texts.{Text, text, text_eq}
use psstore.Js.Date.{◌>=>◌}
use psstore.Game.{default_detail}
use psstore.Sony.Json.{
  Value, null, boolean, number, string, array, object, Fields, end, field, as_object, get_field,
  field_values, is_null, object_of,
}
use psstore.Sony.Grid.{
  grid_node, extract_category_grid, grid_drift, extract_browse_page, browse_drift, extract_genres,
  genres_drift,
}
use psstore.Sony.Search.{parse_search_response, search_node, search_drift}
use psstore.Sony.Product.{product_retrieve, extract_product_detail, webctas, decoded_ctas}
use psstore.Sony.Purchased.{page_games, parse_page}
use psstore.Sony.Wishlist.{wishlist_values}
use psstore.Sony.Graphql.{body_errors, has_no_data, has_server_status, is_graphql_server_error}

-- a key of an object with null values only
null_field :
    (fields : Fields) (key : Text)
    → all is_null (field_values fields) ≡ true
    → (get_field key fields ≡ none) ⊎ (get_field key fields ≡ some null)
unfolding field_values get_field
null_field end key h = inl refl
null_field (field name null rest) key h = elim (Bool-cases (text_eq name key)) [
  | inl same ↦ inr (rw same refl)
  | inr other ↦ rw other (null_field rest key h)
]
null_field (field name (boolean b) rest) key h = absurd (cc h)
null_field (field name (number n) rest) key h = absurd (cc h)
null_field (field name (string s) rest) key h = absurd (cc h)
null_field (field name (array values) rest) key h = absurd (cc h)
null_field (field name (object inner) rest) key h = absurd (cc h)

-- the data of a body: absent, null, or an object in which every key is absent or null
pub data NoData (body : Value) : Type 0 where
  no_object : as_object body ≡ none → NoData body
  no_data :
      (root : Fields)
      → as_object body ≡ some root
      → get_field (text "data") root ≡ none
      → NoData body
  null_data :
      (root : Fields)
      → as_object body ≡ some root
      → get_field (text "data") root ≡ some null
      → NoData body
  null_nodes :
      (root fields : Fields)
      → as_object body ≡ some root
      → get_field (text "data") root ≡ some (object fields)
      → ((key : Text) → (get_field key fields ≡ none) ⊎ (get_field key fields ≡ some null))
      → NoData body

data_cases :
    (body : Value) (root : Fields) (o : Option Value)
    → as_object body ≡ some root
    → get_field (text "data") root ≡ o
    → has_no_data o ≡ true
    → NoData body
unfolding has_no_data
data_cases body root none is_root e h = no_data root is_root e
data_cases body root (some null) is_root e h = null_data root is_root e
data_cases body root (some (object fields)) is_root e h =
    null_nodes root fields is_root e (λ key. null_field fields key h)
data_cases body root (some (boolean b)) is_root e h = absurd (cc h)
data_cases body root (some (number n)) is_root e h = absurd (cc h)
data_cases body root (some (string s)) is_root e h = absurd (cc h)
data_cases body root (some (array values)) is_root e h = absurd (cc h)

root_cases :
    (body : Value) (o : Option Fields)
    → as_object body ≡ o
    → has_no_data (o >=> get_field (text "data")) ≡ true
    → NoData body
root_cases body none e h = no_object e
root_cases body (some root) e h = data_cases body root _ e refl h

NoData-of_server_error : (body : Value) → is_graphql_server_error body ≡ true → NoData body
unfolding is_graphql_server_error
NoData-of_server_error body h = root_cases body (as_object body) refl (go (body_errors body) h)
  where
    go :
        (o : Option (List Value))
        → elim o as (λ x. Bool) [
          | none ↦ false
          | some errors ↦
              has_no_data (as_object body >=> get_field (text "data"))
              && any has_server_status errors
        ]
          ≡ true
        → has_no_data (as_object body >=> get_field (text "data")) ≡ true
    go none k = absurd (cc k)
    go (some errors) k = ground (arith, k)

grid_node-none : (body : Value) → NoData body → grid_node body ≡ none
unfolding grid_node object_of
grid_node-none body (no_object e) = rw e refl
grid_node-none body (no_data root e d) = rw (e, d) refl
grid_node-none body (null_data root e d) = rw (e, d) refl
grid_node-none body (null_nodes root fields e d keys) = elim (keys (text "categoryGridRetrieve")) [
  | inl absent ↦ rw (e, d, absent) refl
  | inr is_nil ↦ rw (e, d, is_nil) refl
]

search_node-none : (body : Value) → NoData body → search_node body ≡ none
unfolding search_node object_of
search_node-none body (no_object e) = rw e refl
search_node-none body (no_data root e d) = rw (e, d) refl
search_node-none body (null_data root e d) = rw (e, d) refl
search_node-none body (null_nodes root fields e d keys) = elim (keys (text "universalSearch")) [
  | inl absent ↦ rw (e, d, absent) refl
  | inr is_nil ↦ rw (e, d, is_nil) refl
]

extract_product_detail-default :
    (body : Value) → NoData body → extract_product_detail body ≡ default_detail
unfolding extract_product_detail product_retrieve object_of
extract_product_detail-default body (no_object e) = rw (e, extract_product_detail) refl
extract_product_detail-default body (no_data root e d) = rw (e, d, extract_product_detail) refl
extract_product_detail-default body (null_data root e d) = rw (e, d, extract_product_detail) refl
extract_product_detail-default body (null_nodes root fields e d keys) =
    elim (keys (text "productRetrieve")) [
      | inl absent ↦ rw (e, d, absent, extract_product_detail) refl
      | inr is_nil ↦ rw (e, d, is_nil, extract_product_detail) refl
    ]

webctas-none : (body : Value) → NoData body → webctas body ≡ none
unfolding webctas object_of
webctas-none body (no_object e) = rw e refl
webctas-none body (no_data root e d) = rw (e, d) refl
webctas-none body (null_data root e d) = rw (e, d) refl
webctas-none body (null_nodes root fields e d keys) = elim (keys (text "productRetrieve")) [
  | inl absent ↦ rw (e, d, absent) refl
  | inr is_nil ↦ rw (e, d, is_nil) refl
]

wishlist_values-none : (body : Value) → NoData body → wishlist_values body ≡ none
unfolding wishlist_values psstore.Sony.Json.as_array
wishlist_values-none body (no_object e) = rw e refl
wishlist_values-none body (no_data root e d) = rw (e, d) refl
wishlist_values-none body (null_data root e d) = rw (e, d) refl
wishlist_values-none body (null_nodes root fields e d keys) =
    elim (keys (text "storeWishlistSecure")) [
      | inl absent ↦ rw (e, d, absent) refl
      | inr is_nil ↦ rw (e, d, is_nil) refl
    ]

page_games-none : (body : Value) → NoData body → page_games body ≡ none
unfolding page_games psstore.Sony.Json.as_array
page_games-none body (no_object e) = rw e refl
page_games-none body (no_data root e d) = rw (e, d) refl
page_games-none body (null_data root e d) = rw (e, d) refl
page_games-none body (null_nodes root fields e d keys) =
    elim (keys (text "purchasedTitlesRetrieve")) [
      | inl absent ↦ rw (e, d, absent) refl
      | inr is_nil ↦ rw (e, d, is_nil) refl
    ]

-- When a body is a server error of Sony, no decoder finds a node in it: the grids, the genre menu,
-- the search and the signed-in lists see drift or no list, the detail is the empty one and there
-- are no price buttons. So a retry of such an answer loses no part of it.
pub is_graphql_server_error_lem :
    (body : Value) (size : ℕ)
    → is_graphql_server_error body ≡ true
    → (extract_category_grid body ≡ grid_drift)
      × (extract_browse_page body size ≡ browse_drift)
      × (extract_genres body ≡ genres_drift)
      × (parse_search_response body ≡ search_drift)
      × (extract_product_detail body ≡ default_detail)
      × (decoded_ctas body ≡ [])
      × (wishlist_values body ≡ none)
      × (parse_page body ≡ none)
unfolding extract_category_grid extract_browse_page extract_genres parse_search_response
    decoded_ctas parse_page
is_graphql_server_error_lem body size h =
    let absent = NoData-of_server_error body h in
    (
      rw (grid_node-none body absent, extract_category_grid) refl,
      rw (grid_node-none body absent, extract_browse_page) refl,
      rw (grid_node-none body absent, extract_genres) refl,
      rw (search_node-none body absent, parse_search_response) refl,
      extract_product_detail-default body absent,
      rw (webctas-none body absent) refl,
      wishlist_values-none body absent,
      rw (page_games-none body absent, parse_page) refl,
    )
