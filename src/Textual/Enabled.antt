-- ===== src/Textual/Enabled.antt =====
-- What is enabled after `parseFilter`.
use lidar.Prelude.{
  Bool, true, false, ◌||◌, ◌&&◌, List, [], ◌∷◌, some, ◌≡◌, refl, arith, suc, length,
}
use lidar.KeyValue.Map.{Text}
use lidar.Textual.Filter.{
  Bits, or_bits, meets, is_zero, Filter, filter_enabled, done, parse_filter, fresh,
}
use lidar.Textual.Parsing.{fields, accepted, verdict, IsWellFormed}
use lidar.Textual.Verdicts.{flag_of, all_flags, weight, fields_left, parse_items-done}

-- Has one of the items a bit of `b`?
abbrev pub any_meets : List (Text × Bits) → List Text → Bits → Bool
any_meets flags [] b = false
any_meets flags (item ∷ items) b = meets (flag_of flags item) b || any_meets flags items b

-- Have the flags of the items no bit at all?
abbrev pub all_zero : List (Text × Bits) → List Text → Bool
all_zero flags [] = true
all_zero flags (item ∷ items) = is_zero (flag_of flags item) && all_zero flags items

meets-or_bits : (a b c : Bits) → meets (or_bits a b) c ≡ (meets a c || meets b c)
unfolding meets or_bits
meets-or_bits [] b c = refl
meets-or_bits (x ∷ a) [] c = ground arith
meets-or_bits (x ∷ a) (y ∷ b) [] = refl
meets-or_bits (x ∷ a) (y ∷ b) (z ∷ c) = ground (arith, meets-or_bits a b c)

is_zero-or_bits : (a b : Bits) → is_zero (or_bits a b) ≡ (is_zero a && is_zero b)
unfolding is_zero or_bits
is_zero-or_bits [] b = refl
is_zero-or_bits (x ∷ a) [] = ground arith
is_zero-or_bits (x ∷ a) (y ∷ b) = ground (arith, is_zero-or_bits a b)

meets-all_flags :
    (flags : List (Text × Bits)) (filter : Bits) (items : List Text) (b : Bits)
    → meets (all_flags flags filter items) b ≡ (meets filter b || any_meets flags items b)
unfolding all_flags
meets-all_flags flags filter [] b = ground arith
meets-all_flags flags filter (item ∷ items) b = ground (
  arith,
  meets-all_flags flags (or_bits filter (flag_of flags item)) items b,
  meets-or_bits filter (flag_of flags item) b,
)

is_zero-all_flags :
    (flags : List (Text × Bits)) (filter : Bits) (items : List Text)
    → is_zero (all_flags flags filter items) ≡ (is_zero filter && all_zero flags items)
unfolding all_flags
is_zero-all_flags flags filter [] = ground arith
is_zero-all_flags flags filter (item ∷ items) = ground (
  arith,
  is_zero-all_flags flags (or_bits filter (flag_of flags item)) items,
  is_zero-or_bits filter (flag_of flags item),
)

-- If the two maps of a filter have the same keys and all items are accepted, `parseFilter` is done
-- with a filter that enables exactly what has a bit of one of the items, or everything if the items
-- have no bits. Its two maps have the same keys again.
pub parse_filter-filter_enabled :
    (s : Text) (f : Filter) (b : Bits)
    → IsWellFormed f
    → verdict f.flag_map (fields 44 s) ≡ accepted
    → (g : Filter) × (parse_filter s f ≡ done g)
      × (filter_enabled b g
          ≡ (all_zero f.flag_map (fields 44 s) || any_meets f.flag_map (fields 44 s) b))
      × IsWellFormed g
unfolding parse_filter fresh filter_enabled fields_left weight meets is_zero
parse_filter-filter_enabled s f b h a =
    let (g, parsed, flags, filter, ok) =
      parse_items-done (suc (length s)) (some s) (fresh f) (omega arith) h a in
    (
      g,
      parsed,
      ground (
        arith,
        filter,
        meets-all_flags f.flag_map [] (fields 44 s) b,
        is_zero-all_flags f.flag_map [] (fields 44 s),
      ),
      ok,
    )
