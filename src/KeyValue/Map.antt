-- ===== src/KeyValue/Map.antt =====
-- `KeyValueMap`, and the free functions on maps of texts. A text is the list of its code points, none
-- of which is NUL.
use lidar.Prelude.{
  ℕ, ◌+◌, Bool, true, false, ◌||◌, List, [], ◌∷◌, Option, none, some, leb, ◌==◌, ◌&&◌,
  if◌then◌else◌, map, text, find, count, assign, emplace, erase, same_bytes,
}
use lidar.Virt.Driver.{codes}

abbrev pub Text : Type 0
Text = List ℕ

abbrev pub KeyValueMap : Type 0
KeyValueMap = List (Text × Text)

-- `tolower`, in the C locale
unfoldable pub to_lower : ℕ → ℕ
to_lower c = if leb 65 c && leb c 90 then c + 32 else c

-- `getValue( map, key, std::string & )`
unfoldable pub get : Text → KeyValueMap → Option Text
get key m = find text key m

-- The text of a key, unless it is empty.
unfoldable pub get_nonempty : Text → KeyValueMap → Option Text
get_nonempty key m = elim (get key m) [
  | none ↦ none
  | some [] ↦ none
  | some (c ∷ cs) ↦ some (c ∷ cs)
]

-- `getBool( stringValue, value )` of helper.h, and `getBool( stringValue )`
unfoldable pub parse_bool : Text → Option Bool
parse_bool s =
    let t = map to_lower s in
    if same_bytes t (codes "true") || (same_bytes t (codes "yes") || same_bytes t (codes "1"))
    then some true
    else if same_bytes t (codes "false") || (same_bytes t (codes "no") || same_bytes t (codes "0"))
    then some false
    else none

unfoldable pub get_bool_text : Text → Bool
get_bool_text s = elim (parse_bool s) [ none ↦ false | some b ↦ b ]

-- `getValue( map, key, bool & )`
unfoldable pub get_bool : Text → KeyValueMap → Option Bool
get_bool key m = elim (get_nonempty key m) [ none ↦ none | some v ↦ some (get_bool_text v) ]

-- `set`
unfoldable pub set_text : Text → Text → KeyValueMap → KeyValueMap
set_text key value m =
    if count text key m then assign text key value m else emplace text key value m

-- `setBool`
unfoldable pub set_bool : Text → Bool → KeyValueMap → KeyValueMap
set_bool key value m = set_text key (codes (if value then "true" else "false")) m

-- `set( other )`
unfoldable pub set_all : KeyValueMap → KeyValueMap → KeyValueMap
set_all [] m = m
set_all ((key, value) ∷ other) m = set_all other (set_text key value m)

-- `remove`
unfoldable pub remove : Text → KeyValueMap → KeyValueMap
remove key m = erase text key m

-- `rename`: the node is extracted and inserted under its new key, if that key is free.
unfoldable pub rename : Text → Text → KeyValueMap → KeyValueMap × Bool
rename key new_name m = elim (find text key m) [
  | none ↦ (m, false)
  | some value ↦ (emplace text new_name value (erase text key m), true)
]

-- What the number formats are: `std::atoi` and `std::atof`, and `std::to_string`.
pub record NumberText {ℓ} (N : Type ℓ) : Type ℓ where
  pub parse : Text → N
  pub print : N → Text
  pub one : N
  pub zero_ : N

module _ {ℓ} {N : Type ℓ} (t : NumberText N) where
  -- `getValue( map, key, float & )`, also for `double`
  unfoldable pub get_number : Text → KeyValueMap → Option N
  get_number key m = elim (get_nonempty key m) [ none ↦ none | some v ↦ some (t.parse v) ]

  -- `getValue( map, key, int & )`
  unfoldable pub int_of : Text → N
  int_of [] = t.parse []
  int_of (c ∷ cs) =
      if to_lower c == 116 then t.one else if to_lower c == 102 then t.zero_ else t.parse (c ∷ cs)

  unfoldable pub get_int : Text → KeyValueMap → Option N
  get_int key m = elim (get_nonempty key m) [ none ↦ none | some v ↦ some (int_of v) ]

  -- `setInt` and `setDouble`
  unfoldable pub set_number : Text → N → KeyValueMap → KeyValueMap
  set_number key value m = set_text key (t.print value) m
