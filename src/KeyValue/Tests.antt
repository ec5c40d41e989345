-- ===== src/KeyValue/Tests.antt =====
-- Maps on small inputs.
use lidar.Prelude.{
  false, ℕ, true, [], ◌∷◌, some, ◌≡◌, refl, arith, text, find, same_bytes, below_bytes, IsDistinct,
  length, replicate, length-replicate, count, emplace, erase,
}
use lidar.Virt.Driver.{codes}
use lidar.KeyValue.Map.{Text, KeyValueMap, get, rename, NumberText}
use lidar.KeyValue.Laws.{has, renamed, get-rename, IsNumberText}
use lidar.KeyValue.Db.{KeyValueMapDb}
use lidar.KeyValue.Json.{read_db, write_db}
use lidar.KeyValue.Files.{IsOrdered, read-write_db}

abbrev host : Text
host = codes "host"

abbrev port : Text
port = codes "port"

abbrev settings : KeyValueMap
settings = (host, codes "a") ∷ (port, codes "80") ∷ []

abbrev override : KeyValueMap
override = (codes "fps", codes "5") ∷ (host, codes "b") ∷ []

abbrev stages : KeyValueMapDb
stages = (codes "hall", settings) ∷ (codes "room", override) ∷ []

override-IsDistinct : IsDistinct text override
unfolding find same_bytes
override-IsDistinct = (refl, (refl, tt))

settings-IsOrdered : IsOrdered settings
unfolding same_bytes below_bytes
settings-IsOrdered = ((refl, refl, tt), (tt, tt))

override-IsOrdered : IsOrdered override
unfolding same_bytes below_bytes
override-IsOrdered = ((refl, refl, tt), (tt, tt))

stages-IsOrdered : IsOrdered stages
unfolding same_bytes below_bytes
stages-IsOrdered = ((refl, refl, tt), (tt, tt))

host_there : get host settings ≡ some (codes "a")
unfolding get find same_bytes
host_there = refl

get-rename_example :
    ((rename host port settings).1 ≡ has (get host settings))
    × (get port (rename host port settings).0 ≡ renamed port host port settings (get host settings))
    × (has (get host settings) ≡ false → (rename host port settings).0 ≡ settings)
get-rename_example = get-rename port host port settings

-- The value of `host` is lost when it is renamed to the key that is there.
lost : rename host port settings ≡ ((port, codes "80") ∷ [], true)
unfolding rename find same_bytes erase emplace count
lost = refl

-- Numbers in unary.
unary_digits : Text → ℕ
unary_digits [] = 0
unary_digits (c ∷ cs) = length cs

abbrev unary : NumberText ℕ
unary = record { parse = unary_digits; print = λ n. 49 ∷ replicate n 49; one = 1; zero_ = 0 }

unary-IsNumberText : IsNumberText unary
unfolding unary_digits
unary-IsNumberText = record {
  digit = λ n. 49;
  digits = λ n. replicate n 49;
  printed = λ n. refl;
  no_letter = λ n. omega arith;
  parsed = λ n. length-replicate n 49;
}

read-write_db_example : read_db (write_db stages) [] ≡ stages
read-write_db_example =
    read-write_db stages stages-IsOrdered (settings-IsOrdered, (override-IsOrdered, tt))
