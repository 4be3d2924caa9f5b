-- ===== src/Examples/Texts.antt =====
-- Ids, keys, dates and comparisons of js.rs, id.rs, product_id.rs and browse.rs at concrete texts.
use psstore.Prelude.{◌≡◌, refl, false, none, some, is_empty}
use psstore.Prelude.Int.{pos}
use psstore.Prelude.Texts.{Text, text, bytes}
use psstore.Js.Trim.{js_trim, js_trim-js_trim}
use psstore.Js.Date.{parse_parts}
use psstore.Ids.{game_id_from_path}
use psstore.Ids.Formats.{game_id_from_path_lem}

abbrev sku : Text
sku = text "EP0006-PPSA04874_00-APEXLEGENDRSPWN1"

game_id_from_path_lem_example :
    (text "a" ≡ js_trim (text " a "))
    × (is_empty (text "a") ≡ false)
    × (game_id_from_path (text "a") ≡ some (record { as_str = text "a" }))
unfolding game_id_from_path js_trim psstore.Js.Trim.is_js_space
game_id_from_path_lem_example =
    game_id_from_path_lem (text " a ") (record { as_str = text "a" }) refl

reads_a_date :
    parse_parts (text "2024-06-15T00:00:00.5Z")
    ≡ some (record {
      year = pos 2024;
      month = 6;
      day = 15;
      hour = 0;
      minute = 0;
      second = 0;
      millisecond = 500;
      offset_seconds = pos 0;
    })
unfolding parse_parts bytes
reads_a_date = refl

rejects_a_month : parse_parts (text "2024-13") ≡ none
unfolding parse_parts bytes
rejects_a_month = refl
