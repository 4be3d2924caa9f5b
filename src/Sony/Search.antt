-- ===== src/Sony/Search.antt =====
-- crates/server/src/sources/sony/catalog/search.rs: a search response.
use psstore.Prelude.{ℕ, Bool, Option, none, some, List, ◌>>=◌, if◌then◌else◌}
use psstore.Prelude.Texts.{text}
use psstore.Js.Date.{◌>=>◌}
use psstore.Game.{SearchEntry}
use psstore.Sony.Json.{
  Value, Fields, object_of, get_field, is_null, opt_string, opt_bool, opt_list, opt_object_of,
}
use psstore.Sony.Grid.{result_ok, concept, grid_product, decode_all, is_text}

pub data SearchOutcome : Type 0 where
  search_drift : SearchOutcome
  searched : List SearchEntry → Bool → ℕ → SearchOutcome

unfoldable pub entry : Value → Option SearchEntry
unfolding object_of opt_string grid_product concept
entry element = result_ok (object_of element) >=> λ obj.
    result_ok (opt_string obj (text "__typename")) >=> λ typename.
    if is_text (text "Product") typename
    then (result_ok (grid_product element) >=> λ product. some (SearchEntry.product product))
    else if is_text (text "Concept") typename
    then (result_ok (concept element) >=> λ found. some (SearchEntry.concept found))
    else none

-- the object at `data.universalSearch`
unfoldable pub search_node : Value → Option Fields
unfolding object_of get_field
search_node json = result_ok (object_of json) >=> get_field (text "data") >=> λ data_value.
    if is_null data_value
    then none
    else (result_ok (object_of data_value) >=> get_field (text "universalSearch") >=> λ node.
        result_ok (object_of node))

unfoldable pub search_is_last : Fields → Option Bool
unfolding object_of opt_bool opt_object_of
search_is_last node =
    result_ok (
      opt_object_of node (text "pageInfo")
        (λ value. object_of value >>= λ info. opt_bool info (text "isLast")))
    >=> λ page_info. page_info >=> λ is_last. is_last

unfoldable pub parse_search_response : Value → SearchOutcome
unfolding search_node search_is_last opt_list decode_all entry
parse_search_response json = elim (search_node json) [
  | none ↦ search_drift
  | some node ↦ elim (result_ok (opt_list node (text "results")) >=> λ results. results) [
    | none ↦ search_drift
    | some results ↦ elim (search_is_last node) [
      | none ↦ search_drift
      | some is_last ↦
          let decoded = decode_all entry results in searched decoded.0 is_last decoded.1
    ]
  ]
]
