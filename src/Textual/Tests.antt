-- ===== src/Textual/Tests.antt =====
-- Filters, pairs and splitting on small inputs.
use lidar.Prelude.{
  true, false, ◌||◌, [], ◌∷◌, some, ◌≡◌, refl, text, IsDistinct, find, same_bytes, count,
  below_bytes, assign, emplace,
}
use lidar.Virt.Driver.{codes}
use lidar.KeyValue.Map.{KeyValueMap, get, set_text}
use lidar.Textual.Split.{
  get_line, read_line, lines_of, split, split_rounds, split_num, is_one_of, ltrim, keep_front,
  rtrim, trim, pieces, split-eq-pieces, lacks, push,
}
use lidar.Textual.Pairs.{
  unquote, read_key_value_pairs, print_pairs, ArePlain, get-read_key_value_pairs, parse_arg,
  match_arg, store,
}
use lidar.Textual.Filter.{
  Filter, add_filter, filter_enabled, done, no_piece, parse_filter, fresh, value_of, set_name,
  parse_item, parse_items, set_filter, or_bits,
}
use lidar.Textual.Parsing.{
  fields, verdict, verdict_of, item_verdict, key_of, accepted, IsWellFormed,
  add_filter-IsWellFormed,
}
use lidar.Textual.Verdicts.{parse_filter-verdict}
use lidar.Textual.Enabled.{any_meets, all_zero, parse_filter-filter_enabled}

split_last : split (codes "a,,b,") 44 ≡ codes "a" ∷ [] ∷ codes "b" ∷ []
unfolding split lines_of read_line get_line
split_last = refl

split-eq-pieces_example : split (codes "a,,b,") 44 ≡ pieces 44 (codes "a,,b,")
split-eq-pieces_example = split-eq-pieces (codes "a,,b,") 44

abbrev file : KeyValueMap
file = (codes "name", codes "hall") ∷ (codes "url", codes "a=b") ∷ []

file-IsDistinct : IsDistinct text file
unfolding find same_bytes
file-IsDistinct = (refl, (refl, tt))

file-ArePlain : ArePlain file
unfolding lacks unquote trim ltrim rtrim keep_front is_one_of
file-ArePlain = (
  record {
    first = _;
    others = _;
    filled = refl;
    no_delimiter = refl;
    one_line = refl;
    in_line = refl;
    key_bare = refl;
    value_bare = refl;
  },
  (
    record {
      first = _;
      others = _;
      filled = refl;
      no_delimiter = refl;
      one_line = refl;
      in_line = refl;
      key_bare = refl;
      value_bare = refl;
    },
    tt,
  ),
)

get-read_key_value_pairs_example :
    get (codes "url") (read_key_value_pairs (print_pairs file)) ≡ get (codes "url") file
get-read_key_value_pairs_example =
    get-read_key_value_pairs file (codes "url") file-IsDistinct file-ArePlain

arguments :
    parse_arg (codes ":x,y" ∷ codes "@ { type=file }" ∷ codes "+d" ∷ []) []
    ≡ (codes "+d" ∷ [], (codes "filter", codes "x,y") ∷ (codes "type", codes "file") ∷ [], 2)
unfolding parse_arg match_arg store split_num split_rounds lines_of read_line get_line unquote trim
    ltrim rtrim keep_front is_one_of emplace assign count find same_bytes below_bytes set_text
arguments = refl

abbrev plain : Filter
plain = record { key_map = []; flag_map = []; filter = []; initialized = false }

abbrev named : Filter
named = add_filter (false ∷ true ∷ []) (codes "y") (add_filter (true ∷ []) (codes "x") plain)

named-IsWellFormed : IsWellFormed named
unfolding count find
named-IsWellFormed =
    add_filter-IsWellFormed (false ∷ true ∷ []) (codes "y")
      (add_filter (true ∷ []) (codes "x") plain)
      (add_filter-IsWellFormed (true ∷ []) (codes "x") plain (λ name. refl))

parse_filter-verdict_example :
    verdict_of (parse_filter (codes "y=h,x") named)
    ≡ some (verdict named.flag_map (fields 44 (codes "y=h,x")))
parse_filter-verdict_example = parse_filter-verdict (codes "y=h,x") named named-IsWellFormed

-- A comma at the end makes `parseFilter` read the first of no pieces.
comma_at_end : parse_filter (codes "y,") named ≡ no_piece
unfolding parse_filter parse_items parse_item fresh get_line split_num split_rounds lines_of
    read_line find same_bytes add_filter emplace assign count below_bytes value_of lacks set_name
    set_filter or_bits
comma_at_end = refl

both_accepted : verdict named.flag_map (fields 44 (codes "y=h")) ≡ accepted
unfolding verdict item_verdict key_of fields push find same_bytes add_filter emplace assign count
    below_bytes
both_accepted = refl

parse_filter-filter_enabled_example :
    (g : Filter) × (parse_filter (codes "y=h") named ≡ done g)
    × (filter_enabled (false ∷ true ∷ []) g ≡ (
        all_zero named.flag_map (fields 44 (codes "y=h"))
        || any_meets named.flag_map (fields 44 (codes "y=h")) (false ∷ true ∷ [])))
    × IsWellFormed g
parse_filter-filter_enabled_example =
    parse_filter-filter_enabled (codes "y=h") named (false ∷ true ∷ []) named-IsWellFormed
      both_accepted
