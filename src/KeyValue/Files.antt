-- ===== src/KeyValue/Files.antt =====
-- Maps that are written to a file and read back.
use mathlib.Core.List.{append_assoc, append-nil}
use lidar.Prelude.{
  true, false, List, [], ◌∷◌, ◌++◌, none, some, ◌≡◌, refl, ap, sym, ◌∙◌, arith, text, find, assign,
  emplace, same_bytes, below_bytes,
}
use lidar.KeyValue.Map.{Text, KeyValueMap, set_text, set_all}
use lidar.KeyValue.Db.{KeyValueMapDb, get_map, map_of, set_map}
use lidar.KeyValue.Json.{
  write_key_values, read_key_values, write_db, read_named, read_db, read-write_key_values,
}

-- A key that stands before all keys of a map, in the order of texts.
abbrev pub Before {ℓ} : {V : Type ℓ} → Text → List (Text × V) → Type 0
Before k [] = Unit {0}
Before k ((l, w) ∷ m) = (same_bytes k l ≡ false) × (below_bytes k l ≡ true) × Before k m

-- The entries of a `std::map` stand in the order of their keys, each key once.
abbrev pub IsOrdered {ℓ} : {V : Type ℓ} → List (Text × V) → Type 0
IsOrdered [] = Unit {0}
IsOrdered ((k, v) ∷ m) = Before k m × IsOrdered m

abbrev AllBefore : KeyValueMap → KeyValueMap → Type 0
AllBefore [] m = Unit {0}
AllBefore ((l, w) ∷ pre) m = Before l m × AllBefore pre m

below_asym :
    (a b : Text) → below_bytes a b ≡ true → (same_bytes b a ≡ false) × (below_bytes b a ≡ false)
unfolding below_bytes same_bytes
below_asym [] [] h = absurd (ground (arith, h))
below_asym [] (y ∷ ys) h = (refl, refl)
below_asym (x ∷ xs) [] h = absurd (ground (arith, h))
below_asym (x ∷ xs) (y ∷ ys) h = ground (arith, h, below_asym xs ys)

assign_last :
    (k value : Text) (pre m : KeyValueMap)
    → AllBefore pre ((k, value) ∷ m)
    → assign text k value pre ≡ pre ++ (k, value) ∷ []
unfolding assign
assign_last k value [] m h = refl
assign_last k value ((l, w) ∷ pre) m (h, hs) =
    let (s, b) = below_asym l k h.1 in ground (arith, s, b, assign_last k value pre m hs)

set_text_last :
    (k value : Text) (pre m : KeyValueMap)
    → AllBefore pre ((k, value) ∷ m)
    → set_text k value pre ≡ pre ++ (k, value) ∷ []
unfolding set_text emplace
set_text_last k value pre m h = ground (arith, assign_last k value pre m h)

grows :
    (k value : Text) (pre m : KeyValueMap)
    → AllBefore pre ((k, value) ∷ m)
    → Before k m
    → AllBefore (pre ++ (k, value) ∷ []) m
grows k value [] m h b = (b, tt)
grows k value ((l, w) ∷ pre) m (h, hs) b = (h.2, grows k value pre m hs b)

set_all_ordered : (m pre : KeyValueMap) → AllBefore pre m → IsOrdered m → set_all m pre ≡ pre ++ m
unfolding set_all
set_all_ordered [] pre h o = sym (append-nil pre)
set_all_ordered ((k, v) ∷ m) pre h (b, o) =
    ap (set_all m) (set_text_last k v pre m h)
    ∙ set_all_ordered m (pre ++ (k, v) ∷ []) (grows k v pre m h b) o
    ∙ append_assoc pre ((k, v) ∷ []) m

-- A map with the entries in the order of their keys, as `std::map` keeps them, is read back from the
-- value that was written of it exactly as it was.
pub read-write_ordered :
    (m : KeyValueMap) → IsOrdered m → read_key_values (write_key_values m) [] ≡ some m
read-write_ordered m o = read-write_key_values m [] ∙ ap some (set_all_ordered m [] tt o)

abbrev pub AllOrdered : KeyValueMapDb → Type 0
AllOrdered [] = Unit {0}
AllOrdered ((name, m) ∷ db) = IsOrdered m × AllOrdered db

assign_first :
    (name : Text) (m : KeyValueMap) (db : KeyValueMapDb)
    → Before name db
    → assign text name m db ≡ (name, m) ∷ db
unfolding assign
assign_first name m [] h = refl
assign_first name m ((l, w) ∷ db) h = ground (arith, h.0, h.1)

find-Before : (name : Text) (db : KeyValueMapDb) → Before name db → find text name db ≡ none
unfolding find
find-Before name [] h = refl
find-Before name ((l, w) ∷ db) h = ground (arith, h.0, find-Before name db h.2)

set_map_first :
    (name : Text) (m : KeyValueMap) (db : KeyValueMapDb)
    → Before name db
    → IsOrdered m
    → set_map name m db ≡ (name, m) ∷ db
unfolding set_map map_of get_map
set_map_first name m db h o =
    ground (arith, find-Before name db h, set_all_ordered m [] tt o, assign_first name m db h)

read_named_first :
    (name : Text) (m : KeyValueMap) (db : KeyValueMapDb)
    → Before name db
    → IsOrdered m
    → read_named (record { name = some name; map_ = write_key_values m }) db ≡ (name, m) ∷ db
unfolding read_named
read_named_first name m db h o = ground (arith, read-write_ordered m o, set_map_first name m db h o)

-- A file of maps, each with its entries in order and with the names in order, gives the same maps when
-- it is read into an empty database.
pub read-write_db :
    (db : KeyValueMapDb) → IsOrdered db → AllOrdered db → read_db (write_db db) [] ≡ db
unfolding read_db write_db
read-write_db [] o os = refl
read-write_db ((name, m) ∷ db) (b, o) (om, os) =
    rw (read-write_db db o os) (read_named_first name m db b om)
