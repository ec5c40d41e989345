-- ===== src/Textual/Parsing.antt =====
-- What `parseFilter` makes of the items between the commas.
use lidar.Prelude.{
  ℕ, suc, true, ◌||◌, List, [], ◌∷◌, Option, none, some, ◌≡◌, refl, ap, inl, inr, arith, ◌==◌,
  if◌then◌else◌, Bool-cases, Option-cases, length, text, find, count, emplace, replace, assign,
  find-assign, find_other, find-replace, find_not_replaced, same_bytes, same_bytes→eq,
}
use lidar.KeyValue.Map.{Text}
use lidar.Textual.Split.{split_num, split_rounds, read_line, lines_of, get_line, push}
use lidar.Textual.Filter.{
  Bits, Filter, add_filter, Parsed, done, exits, no_piece, no_entry, out_of_fuel,
}

-- The items between the delimiters: one more than there are delimiters, the last one also if it is
-- empty.
unfoldable pub fields : ℕ → Text → List Text
fields d [] = [] ∷ []
fields d (c ∷ s) = let rest = fields d s in if c == d then [] ∷ rest else push c rest

-- What is before the first `=` of an item.
unfoldable pub key_of : Text → Text
key_of [] = []
key_of (c ∷ s) = let rest = key_of s in if c == 61 then [] else c ∷ rest

pub data Verdict : Type 0 where
  accepted : Verdict
  unknown_key : Verdict
  empty_item : Verdict

unfoldable pub item_verdict : List (Text × Bits) → Text → Verdict
item_verdict flags [] = empty_item
item_verdict flags (c ∷ s) = if count text (key_of (c ∷ s)) flags then accepted else unknown_key

-- The first item that is not accepted decides.
unfoldable pub verdict : List (Text × Bits) → List Text → Verdict
verdict flags [] = accepted
verdict flags (item ∷ items) = elim (item_verdict flags item) [
  | accepted ↦ verdict flags items
  | unknown_key ↦ unknown_key
  | empty_item ↦ empty_item
]

unfoldable pub verdict_of : Parsed → Option Verdict
verdict_of (done g) = some accepted
verdict_of exits = some unknown_key
verdict_of no_piece = some empty_item
verdict_of no_entry = none
verdict_of out_of_fuel = none

-- `KeyMap` and `FlagMap` have the same keys.
abbrev pub IsWellFormed : Filter → Type 0
IsWellFormed f = (name : Text) → count text name f.key_map ≡ count text name f.flag_map

module _ {ℓ} {V : Type ℓ} where
  pub count-assign :
      (j k : Text) (v : V) (m : List (Text × V))
      → count text j (assign text k v m) ≡ (same_bytes j k || count text j m)
  unfolding count
  count-assign j k v m = elim (Bool-cases (same_bytes j k)) [
    | inl y ↦ let e = same_bytes→eq j k y in ground (arith, y, e, find-assign text k v m)
    | inr n ↦ ground (arith, n, find_other text j k v m n)
  ]

  pub count-emplace :
      (j k : Text) (v : V) (m : List (Text × V))
      → count text j (emplace text k v m) ≡ (same_bytes j k || count text j m)
  unfolding emplace
  count-emplace j k v m = elim (Bool-cases (count text k m)) [
    | inl y ↦ elim (Bool-cases (same_bytes j k)) [
      | inl t ↦ let e = same_bytes→eq j k t in ground (arith, y, e, t)
      | inr n ↦ ground (arith, y, n)
    ]
    | inr n ↦ ground (arith, n, count-assign j k v m)
  ]

  pub count-replace :
      (j k : Text) (v : V) (m : List (Text × V))
      → count text k m ≡ true
      → count text j (replace text k v m) ≡ count text j m
  unfolding count
  count-replace j k v m h = elim (Bool-cases (same_bytes j k)) [
    | inl y ↦
        let e = same_bytes→eq j k y in
        elim (Option-cases (find text k m)) [
          | inl out ↦ ground (arith, out, h)
          | inr (w, there) ↦ ground (arith, y, e, there, find-replace text k v w m there)
        ]
    | inr n ↦ ground (arith, n, find_not_replaced text j k v m n)
  ]

-- `addFilter` keeps the keys of the two maps the same.
pub add_filter-IsWellFormed :
    (flag : Bits) (name : Text) (f : Filter)
    → IsWellFormed f
    → IsWellFormed (add_filter flag name f)
unfolding add_filter
add_filter-IsWellFormed flag name f h j =
    ground (arith, count-emplace j name name f.key_map, count-emplace j name flag f.flag_map, h j)

key_of-get_line : (s : Text) → (get_line 61 s).0 ≡ key_of s
unfolding get_line key_of
key_of-get_line [] = refl
key_of-get_line (c ∷ s) = elim (Bool-cases (c == 61)) [
  | inl y ↦ ground (arith, y)
  | inr n ↦ ground (arith, n, key_of-get_line s)
]

pub split_head :
    (c : ℕ) (s : Text) → (rest : List Text) × (split_num (c ∷ s) 61 2 ≡ key_of (c ∷ s) ∷ rest)
unfolding split_num split_rounds read_line
split_head c s =
    let rest : List Text = lines_of (suc (length (c ∷ s))) 10 (get_line 61 (c ∷ s)).1 in
    (rest, ap (λ k. k ∷ rest) (key_of-get_line (c ∷ s)))
