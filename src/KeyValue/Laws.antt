-- ===== src/KeyValue/Laws.antt =====
-- What each operation of a `KeyValueMap` does to what `get` finds.
use lidar.Prelude.{
  ℕ, ◌<◌, Bool, true, false, [], ◌∷◌, Option, none, some, ◌≡◌, refl, inl, inr, arith, if◌then◌else◌,
  Bool-cases, Option-cases, text, find, count, emplace, same_bytes, same_bytes→eq, find-assign,
  find_other, find-erase, find_not_erased, IsDistinct,
}
use lidar.Virt.Driver.{codes}
use lidar.KeyValue.Map.{
  Text, KeyValueMap, to_lower, get, get_nonempty, parse_bool, get_bool_text, get_bool, set_text,
  set_bool, set_all, remove, rename, NumberText, int_of, get_int, set_number,
}

-- After `set`, the key has the new value, and every other key the one that it had.
pub get-set_text :
    (j key value : Text) (m : KeyValueMap)
    → get j (set_text key value m) ≡ (if same_bytes j key then some value else get j m)
unfolding get set_text emplace
get-set_text j key value m = elim (Bool-cases (same_bytes j key)) [
  | inl e ↦ let k = same_bytes→eq j key e in ground (arith, e, k, find-assign text key value m)
  | inr n ↦ ground (arith, n, find_other text j key value m n)
]

-- After `remove`, the key is not found, and every other key has the value that it had.
pub get-remove :
    (j key : Text) (m : KeyValueMap)
    → get j (remove key m) ≡ (if same_bytes j key then none else get j m)
unfolding get remove
get-remove j key m = elim (Bool-cases (same_bytes j key)) [
  | inl e ↦ let k = same_bytes→eq j key e in ground (arith, e, k, find-erase text key m)
  | inr n ↦ ground (arith, n, find_not_erased text j key m n)
]

-- The value that a free key gets, and one that is taken keeps.
abbrev pub taken : Option Text → Text → Option Text
taken none v = some v
taken (some w) v = some w

abbrev pub or_else : Option Text → Option Text → Option Text
or_else none w = w
or_else (some v) w = some v

get-emplace :
    (j key value : Text) (m : KeyValueMap)
    → get j (emplace text key value m)
      ≡ (if same_bytes j key then taken (get key m) value else get j m)
unfolding get emplace count
get-emplace j key value m = elim (Bool-cases (same_bytes j key)) [
  | inl e ↦
      let k = same_bytes→eq j key e in
      elim (Option-cases (find text key m)) [
        | inl n ↦ ground (arith, e, k, n, find-assign text key value m)
        | inr (w, s) ↦ ground (arith, e, k, s)
      ]
  | inr n ↦ ground (arith, n, find_other text j key value m n)
]

abbrev pub has : Option Text → Bool
has none = false
has (some v) = true

-- What the value of a key becomes when a key that has a value, or none, is renamed.
abbrev pub renamed : Text → Text → Text → KeyValueMap → Option Text → Option Text
renamed j key new_name m none = get j m
renamed j key new_name m (some value) =
    if same_bytes j new_name
    then taken (if same_bytes new_name key then none else get new_name m) value
    else if same_bytes j key
    then none
    else get j m

-- `rename` succeeds exactly if the key is there, and changes nothing if it is not. A key that was there
-- is then gone, unless it is the new name, and the new name has its value, but if another entry had
-- that name before: that entry stays, and the value of the renamed one is lost. All other keys keep
-- their values.
pub get-rename :
    (j key new_name : Text) (m : KeyValueMap)
    → ((rename key new_name m).1 ≡ has (get key m))
      × (get j (rename key new_name m).0 ≡ renamed j key new_name m (get key m))
      × (has (get key m) ≡ false → (rename key new_name m).0 ≡ m)
unfolding get rename remove
get-rename j key new_name m = elim (Option-cases (find text key m)) [
  | inl out ↦ (ground (arith, out), ground (arith, out), λ h. rw (rename, out) refl)
  | inr (value, there) ↦ (
    ground (arith, there),
    ground (
      arith,
      there,
      get-emplace j new_name value (remove key m),
      get-remove new_name key m,
      get-remove j key m,
    ),
    λ h. ground (arith, there, h),
  )
]

-- `set( other )` gives the entries of `other` precedence over those that the map has.
pub get-set_all :
    (other m : KeyValueMap) (j : Text)
    → IsDistinct text other
    → get j (set_all other m) ≡ or_else (get j other) (get j m)
unfolding get set_all find
get-set_all [] m j d = refl
get-set_all ((key, value) ∷ other) m j (absent, d) =
    let rest = get-set_all other (set_text key value m) j d in
    let here = get-set_text j key value m in
    elim (Bool-cases (same_bytes j key)) [
      | inl e ↦ let k = same_bytes→eq j key e in ground (arith, e, k, absent, rest, here)
      | inr n ↦ ground (arith, n, rest, here)
    ]

-- What `setBool` stores, `get` of a `bool` reads back, and other keys are not changed by it.
pub get_bool-set_bool :
    (j key : Text) (value : Bool) (m : KeyValueMap)
    → get_bool j (set_bool key value m) ≡ (if same_bytes j key then some value else get_bool j m)
unfolding get_bool get_nonempty set_bool get_bool_text parse_bool same_bytes to_lower
get_bool-set_bool j key true m = elim (Bool-cases (same_bytes j key)) [
  | inl e ↦ ground (arith, e, get-set_text j key (codes "true") m)
  | inr n ↦ ground (arith, n, get-set_text j key (codes "true") m)
]
get_bool-set_bool j key false m = elim (Bool-cases (same_bytes j key)) [
  | inl e ↦ ground (arith, e, get-set_text j key (codes "false") m)
  | inr n ↦ ground (arith, n, get-set_text j key (codes "false") m)
]

-- Numbers whose texts start with a digit or a sign, and are read back as they were written.
pub record IsNumberText {ℓ} {N : Type ℓ} (t : NumberText N) : Type ℓ where
  pub digit : N → ℕ
  pub digits : N → Text
  pub printed : (n : N) → t.print n ≡ digit n ∷ digits n
  pub no_letter : (n : N) → digit n < 65
  pub parsed : (n : N) → t.parse (t.print n) ≡ n

-- What `setInt` stores, `get` of an `int` reads back.
pub get_int-set_number {ℓ} :
    {N : Type ℓ} (t : NumberText N)
    → IsNumberText t
    → (j key : Text) (value : N) (m : KeyValueMap)
    → get_int t j (set_number t key value m)
      ≡ (if same_bytes j key then some value else get_int t j m)
unfolding get_int get_nonempty set_number int_of to_lower
get_int-set_number t v j key value m = elim (Bool-cases (same_bytes j key)) [
  | inl e ↦
      let stored = rw (v.printed value, e) at (get-set_text j key (t.print value) m) in
      let same = rw (v.printed value) at (v.parsed value) in
      ground (arith, e, stored, same, v.no_letter value, v.printed value)
  | inr n ↦ ground (arith, n, get-set_text j key (t.print value) m)
]
