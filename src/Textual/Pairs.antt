-- ===== src/Textual/Pairs.antt =====
-- `readKeyValuePairs` and `parseArg`: keys and values in lines and in arguments.
use lidar.Prelude.{
  ℕ, suc, true, List, [], ◌∷◌, ◌++◌, Option, none, some, ◌≡◌, refl, arith, ◌==◌, if◌then◌else◌,
  text, find, IsDistinct,
}
use lidar.Virt.Driver.{codes}
use lidar.KeyValue.Map.{Text, KeyValueMap, get, set_text, set_all}
use lidar.KeyValue.Laws.{get-set_all, or_else}
use lidar.Textual.Split.{
  split, split_num, trim, blanks, pieces, split-eq-pieces, lacks, pieces-append, split_two,
}

-- A key or a value without the blanks and the quotation marks around it.
unfoldable pub unquote : Text → Text
unquote s = trim (34 ∷ []) (trim blanks s)

-- The pair of a line that has a key and a value.
unfoldable pub store : List Text → KeyValueMap → KeyValueMap
store [] m = m
store (key ∷ []) m = m
store (key ∷ value ∷ []) m = set_text (unquote key) (unquote value) m
store (key ∷ value ∷ x ∷ xs) m = m

unfoldable pub add_lines : List Text → KeyValueMap → KeyValueMap
add_lines [] m = m
add_lines (line ∷ lines) m = add_lines lines (store (split_num line 61 2) m)

-- `readKeyValuePairs`, on what the stream holds
unfoldable pub read_key_value_pairs : Text → KeyValueMap
read_key_value_pairs s = add_lines (split s 10) []

-- One round of `parseArg`: the description after an argument that matches.
unfoldable pub match_arg : Text → KeyValueMap → Option KeyValueMap
match_arg [] descr = none
match_arg (c ∷ arg) descr =
    if c == 58
    then some (set_text (codes "filter") arg descr)
    else if c == 64
    then some (store (split_num (trim (codes "{}") (trim blanks arg)) 61 2) descr)
    else none

-- `parseArg`, on the arguments behind the current one: what is left of them, the description, and
-- the number of arguments that were taken.
unfoldable pub parse_arg : List Text → KeyValueMap → List Text × KeyValueMap × ℕ
parse_arg [] descr = ([], descr, 0)
parse_arg (arg ∷ args) descr = elim (match_arg arg descr) [
  | none ↦ (arg ∷ args, descr, 0)
  | some next ↦ let rest = parse_arg args next in (rest.0, rest.1, suc rest.2)
]

-- A line for each entry.
unfoldable pub print_pairs : KeyValueMap → Text
print_pairs [] = []
print_pairs ((key, value) ∷ m) = (key ++ 61 ∷ value) ++ 10 ∷ print_pairs m

-- What the lines can hold: keys without `=`, values that are not empty, both of one line and without
-- blanks or quotation marks at their ends.
pub record IsPlain (key value : Text) : Type 0 where
  pub first : ℕ
  pub others : Text
  pub filled : value ≡ first ∷ others
  pub no_delimiter : lacks 61 key ≡ true
  pub one_line : lacks 10 value ≡ true
  pub in_line : lacks 10 (key ++ 61 ∷ value) ≡ true
  pub key_bare : unquote key ≡ key
  pub value_bare : unquote value ≡ value

abbrev pub ArePlain : KeyValueMap → Type 0
ArePlain [] = Unit
ArePlain ((key, value) ∷ m) = IsPlain key value × ArePlain m

store_line :
    (key value : Text) (m : KeyValueMap)
    → IsPlain key value
    → store (split_num (key ++ 61 ∷ value) 61 2) m ≡ set_text key value m
unfolding store
store_line key value m p =
    let one = rw p.filled at p.one_line in
    let two = split_two 61 key p.first p.others p.no_delimiter one in
    ground (arith, p.filled, two, p.key_bare, p.value_bare)

add_lines-pieces :
    (entries m : KeyValueMap)
    → ArePlain entries
    → add_lines (pieces 10 (print_pairs entries)) m ≡ set_all entries m
unfolding add_lines print_pairs set_all pieces
add_lines-pieces [] m h = refl
add_lines-pieces ((key, value) ∷ entries) m (p, ps) =
    let line : Text = key ++ 61 ∷ value in
    let cut = pieces-append 10 line (print_pairs entries) p.in_line in
    let here = store_line key value m p in
    let rest = add_lines-pieces entries (set_text key value m) ps in ground (arith, cut, here, rest)

or_else-none : (v : Option Text) → or_else v none ≡ v
or_else-none none = refl
or_else-none (some v) = refl

-- Entries with different keys that are printed as lines `key=value` are found with their values, and
-- nothing else is: keys without `=`, values that are not empty, both of one line and without blanks
-- or quotation marks at their ends.
pub get-read_key_value_pairs :
    (entries : KeyValueMap) (key : Text)
    → IsDistinct text entries
    → ArePlain entries
    → get key (read_key_value_pairs (print_pairs entries)) ≡ get key entries
unfolding read_key_value_pairs get find
get-read_key_value_pairs entries key d h = ground (
  arith,
  split-eq-pieces (print_pairs entries) 10,
  add_lines-pieces entries [] h,
  or_else-none (get key entries),
  get-set_all entries [] key d,
)
