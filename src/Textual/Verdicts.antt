-- ===== src/Textual/Verdicts.antt =====
-- `parseFilter` ends with what the first faulty item decides, or with the flags of all items.
use lidar.Prelude.{
  ℕ, zero, suc, ◌≤◌, true, List, [], ◌∷◌, Option, none, some, ◌≡◌, refl, ◌∙◌, inl, inr, ◌⊎◌, arith,
  ◌==◌, Bool-cases, Option-cases, length, text, find, count, replace,
}
use lidar.KeyValue.Map.{Text}
use lidar.Textual.Split.{split_num, split_rounds, read_line, get_line, push}
use lidar.Textual.Filter.{
  Bits, or_bits, Filter, done, exits, no_piece, value_of, set_filter, set_name, parse_item,
  parse_items, fresh, parse_filter,
}
use lidar.Textual.Parsing.{
  fields, key_of, Verdict, accepted, unknown_key, empty_item, item_verdict, verdict, verdict_of,
  IsWellFormed, count-replace, split_head,
}

unfoldable pub fields_left : Option Text → List Text
fields_left none = []
fields_left (some s) = fields 44 s

unfoldable pub weight : Option Text → ℕ
weight none = 0
weight (some s) = suc (length s)

weight-get_line : (s : Text) → weight (get_line 44 s).1 ≤ length s
unfolding get_line weight
weight-get_line [] = ground arith
weight-get_line (c ∷ s) = elim (Bool-cases (c == 44)) [
  | inl y ↦ ground (arith, y)
  | inr n ↦ ground (arith, n, weight-get_line s)
]

fields-get_line : (s : Text) → fields 44 s ≡ (get_line 44 s).0 ∷ fields_left (get_line 44 s).1
unfolding fields get_line fields_left push
fields-get_line [] = refl
fields-get_line (c ∷ s) = elim (Bool-cases (c == 44)) [
  | inl y ↦ ground (arith, y)
  | inr n ↦ ground (arith, n, fields-get_line s)
]

-- The flag of an item.
unfoldable pub flag_of : List (Text × Bits) → Text → Bits
flag_of flags item = elim (find text (key_of item) flags) [ none ↦ [] | some flag ↦ flag ]

-- The state after an item that is accepted.
abbrev pub Takes : Filter → Text → Filter → Type 0
Takes f item g =
    (parse_item item f ≡ done g)
    × (g.flag_map ≡ f.flag_map)
    × (g.filter ≡ or_bits f.filter (flag_of f.flag_map item))
    × IsWellFormed g

set_name-IsWellFormed :
    (key : Text) (value : Option Text) (f : Filter)
    → IsWellFormed f
    → count text key f.flag_map ≡ true
    → (g : Filter) × (set_name key value f ≡ some g)
      × (g.flag_map ≡ f.flag_map)
      × (g.filter ≡ f.filter)
      × IsWellFormed g
unfolding set_name
set_name-IsWellFormed key none f h there = (f, refl, refl, refl, h)
set_name-IsWellFormed key (some value) f h there =
    let here : count text key f.key_map ≡ true = ground (arith, h key, there) in
    let g : Filter = record {
      key_map = replace text key value f.key_map;
      flag_map = f.flag_map;
      filter = f.filter;
      initialized = f.initialized;
    } in
    (g, ground (arith, here), refl, refl, λ j. count-replace j key value f.key_map here ∙ h j)

takes :
    (item : Text) (f : Filter)
    → IsWellFormed f
    → item_verdict f.flag_map item ≡ accepted
    → (g : Filter) × Takes f item g
unfolding parse_item item_verdict count flag_of set_filter
takes [] f h a = ground (arith, a)
takes (c ∷ s) f h a =
    let (rest, split) = split_head c s in
    elim (Option-cases (find text (key_of (c ∷ s)) f.flag_map)) [
      | inl out ↦ ground (arith, out, a)
      | inr (flag, there) ↦
          let (g, named, flags, filter, ok) =
            set_name-IsWellFormed (key_of (c ∷ s)) (value_of (c ∷ s) rest) f h
              (ground (arith, there)) in
          (
            set_filter flag g,
            (ground (arith, split, there, named), flags, ground (arith, filter, there), ok),
          )
    ]

refused :
    (item : Text) (f : Filter)
    → (item_verdict f.flag_map item ≡ unknown_key → parse_item item f ≡ exits)
      × (item_verdict f.flag_map item ≡ empty_item → parse_item item f ≡ no_piece)
unfolding parse_item item_verdict count split_num split_rounds read_line
refused [] f = (λ h. ground (arith, h), λ h. refl)
refused (c ∷ s) f =
    let (rest, split) = split_head c s in
    elim (Option-cases (find text (key_of (c ∷ s)) f.flag_map)) [
      | inl out ↦ (λ h. ground (arith, out, split), λ h. ground (arith, out, h))
      | inr (flag, there) ↦ (λ h. ground (arith, there, h), λ h. ground (arith, there, h))
    ]

verdict-cases : (v : Verdict) → (v ≡ accepted) ⊎ ((v ≡ unknown_key) ⊎ (v ≡ empty_item))
verdict-cases accepted = inl refl
verdict-cases unknown_key = inr (inl refl)
verdict-cases empty_item = inr (inr refl)

parse_items-verdict :
    (n : ℕ) (st : Option Text) (f : Filter)
    → weight st ≤ n
    → IsWellFormed f
    → verdict_of (parse_items n st f) ≡ some (verdict f.flag_map (fields_left st))
unfolding parse_items verdict verdict_of fields_left weight
parse_items-verdict n none f e h = refl
parse_items-verdict zero (some s) f e h = ground (arith, e)
parse_items-verdict (suc n) (some s) f e h =
    let less = weight-get_line s in
    let item = (get_line 44 s).0 in
    let cut = fields-get_line s in
    elim (verdict-cases (item_verdict f.flag_map item)) [
      | inl a ↦
          let (g, (parsed, flags, filter, ok)) = takes item f h a in
          let rest = parse_items-verdict n (get_line 44 s).1 g (ground (arith, e, less)) ok in
          ground (arith, cut, a, parsed, flags, rest)
      | inr (inl u) ↦ let out = (refused item f).0 u in ground (arith, cut, u, out)
      | inr (inr m) ↦ let out = (refused item f).1 m in ground (arith, cut, m, out)
    ]

-- If the two maps of a filter have the same keys, `parseFilter` ends, and the first faulty item
-- decides how: the program exits at an unknown key, an item that is empty makes it read the first of
-- no pieces, and without one of these it is done. No entry is looked up in vain.
pub parse_filter-verdict :
    (s : Text) (f : Filter)
    → IsWellFormed f
    → verdict_of (parse_filter s f) ≡ some (verdict f.flag_map (fields 44 s))
unfolding parse_filter fresh fields_left weight
parse_filter-verdict s f h = parse_items-verdict (suc (length s)) (some s) (fresh f) (omega arith) h

-- The flags of all items.
unfoldable pub all_flags : List (Text × Bits) → Bits → List Text → Bits
all_flags flags filter [] = filter
all_flags flags filter (item ∷ items) = all_flags flags (or_bits filter (flag_of flags item)) items

pub parse_items-done :
    (n : ℕ) (st : Option Text) (f : Filter)
    → weight st ≤ n
    → IsWellFormed f
    → verdict f.flag_map (fields_left st) ≡ accepted
    → (g : Filter) × (parse_items n st f ≡ done g)
      × (g.flag_map ≡ f.flag_map)
      × (g.filter ≡ all_flags f.flag_map f.filter (fields_left st))
      × IsWellFormed g
unfolding parse_items verdict fields_left weight all_flags
parse_items-done n none f e h a = (f, refl, refl, refl, h)
parse_items-done zero (some s) f e h a = ground (arith, e)
parse_items-done (suc n) (some s) f e h a =
    let less = weight-get_line s in
    let item = (get_line 44 s).0 in
    let cut = fields-get_line s in
    elim (verdict-cases (item_verdict f.flag_map item)) [
      | inl y ↦
          let (g, (parsed, flags, filter, ok)) = takes item f h y in
          let (k, left, same, all, well) =
            parse_items-done n (get_line 44 s).1 g (ground (arith, e, less)) ok
              (ground (arith, cut, a, y, flags)) in
          (
            k,
            ground (arith, parsed, left),
            same ∙ flags,
            ground (arith, all, cut, flags, filter),
            well,
          )
      | inr (inl u) ↦ ground (arith, cut, u, a)
      | inr (inr m) ↦ ground (arith, cut, m, a)
    ]
