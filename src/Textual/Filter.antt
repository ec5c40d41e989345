-- ===== src/Textual/Filter.antt =====
-- `Filter`: the parts of the reports that are written, and the names that they have there. A mask of
-- 64 bits is the list of its bits, the lowest first,
-- in which those that are missing are 0.
use lidar.Prelude.{
  ℕ, zero, suc, Bool, true, false, ◌||◌, ◌&&◌, List, [], ◌∷◌, Option, none, some, if◌then◌else◌,
  length, text, find, count, emplace, replace,
}
use lidar.KeyValue.Map.{Text}
use lidar.Textual.Split.{split_num, get_line, lacks}

abbrev pub Bits : Type 0
Bits = List Bool

unfoldable pub or_bits : Bits → Bits → Bits
or_bits [] b = b
or_bits (x ∷ a) [] = x ∷ a
or_bits (x ∷ a) (y ∷ b) = (x || y) ∷ or_bits a b

-- Is a bit in both?
unfoldable pub meets : Bits → Bits → Bool
meets [] b = false
meets (x ∷ a) [] = false
meets (x ∷ a) (y ∷ b) = (x && y) || meets a b

unfoldable pub is_zero : Bits → Bool
is_zero [] = true
is_zero (x ∷ a) = let rest = is_zero a in if x then false else rest

pub record Filter : Type 0 where
  pub key_map : List (Text × Text)
  pub flag_map : List (Text × Bits)
  pub filter : Bits
  pub initialized : Bool

-- `addFilter`
unfoldable pub add_filter : Bits → Text → Filter → Filter
add_filter flag name f = record {
  key_map = emplace text name name f.key_map;
  flag_map = emplace text name flag f.flag_map;
  filter = f.filter;
  initialized = true;
}

-- `filterEnabled`
unfoldable pub filter_enabled : Bits → Filter → Bool
filter_enabled filt f = is_zero f.filter || meets f.filter filt

-- What `parseFilter` ends with: the filter, `exit( 2 )` at an unknown key, or an access that is out of
-- range, to the first of no pieces or to an entry of `KeyMap` that is not there.
pub data Parsed : Type 0 where
  done : Filter → Parsed
  exits : Parsed
  no_piece : Parsed
  no_entry : Parsed
  out_of_fuel : Parsed

-- The value of an item, if it has one: the second piece, or the empty text behind a `=`.
unfoldable pub value_of : Text → List Text → Option Text
value_of item [] = if lacks 61 item then none else some []
value_of item (value ∷ rest) = some value

unfoldable pub set_filter : Bits → Filter → Filter
set_filter flag f = record {
  key_map = f.key_map;
  flag_map = f.flag_map;
  filter = or_bits f.filter flag;
  initialized = f.initialized;
}

-- `KeyMap.find(key)->second = value`
unfoldable pub set_name : Text → Option Text → Filter → Option Filter
set_name key none f = some f
set_name key (some value) f =
    let g : Filter = record {
      key_map = replace text key value f.key_map;
      flag_map = f.flag_map;
      filter = f.filter;
      initialized = f.initialized;
    } in
    if count text key f.key_map then some g else none

-- The body of the loop of `parseFilter`.
unfoldable pub parse_item : Text → Filter → Parsed
parse_item item f = elim (split_num item 61 2) [
  | [] ↦ no_piece
  | key ∷ rest ↦ elim (find text key f.flag_map) [
    | none ↦ exits
    | some flag ↦ elim (set_name key (value_of item rest) f) [
      | none ↦ no_entry
      | some g ↦ done (set_filter flag g)
    ]
  ]
]

-- `while ( s_stream.good() )`, on the stream, which is `none` after the end was met
unfoldable pub parse_items : ℕ → Option Text → Filter → Parsed
parse_items n none f = done f
parse_items zero (some s) f = out_of_fuel
parse_items (suc n) (some s) f = elim (parse_item (get_line 44 s).0 f) [
  | done g ↦ parse_items n (get_line 44 s).1 g
  | exits ↦ exits
  | no_piece ↦ no_piece
  | no_entry ↦ no_entry
  | out_of_fuel ↦ out_of_fuel
]

-- `this->filter = 0`
unfoldable pub fresh : Filter → Filter
fresh f = record {
  key_map = f.key_map;
  flag_map = f.flag_map;
  filter = [];
  initialized = f.initialized;
}

-- `parseFilter`
unfoldable pub parse_filter : Text → Filter → Parsed
parse_filter s f = parse_items (suc (length s)) (some s) (fresh f)
