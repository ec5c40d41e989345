-- ===== src/Textual/Split.antt =====
-- `split`, `trim` and what `std::getline` does on the stream of a text.
use lidar.Prelude.{
  ℕ, zero, suc, ◌<◌, Bool, true, false, List, [], ◌∷◌, ◌++◌, Option, none, some, ◌≡◌, refl, ap, inl,
  inr, arith, ◌==◌, if◌then◌else◌, Bool-cases, length, length-append, nat_same_refl,
}
use lidar.KeyValue.Map.{Text}

-- Reading up to a delimiter that is taken away, or up to the end: the item, and what is left if the
-- delimiter was found.
unfoldable pub get_line : ℕ → Text → Text × Option Text
get_line d [] = ([], none)
get_line d (c ∷ s) =
    let rest = get_line d s in if c == d then ([], some s) else (c ∷ rest.0, rest.1)

-- `getline` on a stream, which is `none` after the end was met. It fails if there is nothing left.
unfoldable pub read_line : ℕ → Option Text → Option (Text × Option Text)
read_line d none = none
read_line d (some []) = none
read_line d (some (c ∷ s)) = some (get_line d (c ∷ s))

-- `while ( getline( ss, item, d ) ) result.push_back( item )`
unfoldable pub lines_of : ℕ → ℕ → Option Text → List Text
lines_of zero d st = []
lines_of (suc n) d st = elim (read_line d st) [
  | none ↦ []
  | some (item, rest) ↦ item ∷ lines_of n d rest
]

-- `split( s, delim )`
unfoldable pub split : Text → ℕ → List Text
split s d = lines_of (suc (length s)) d (some s)

-- The rounds of `split` that read up to the delimiter, and behind them the one that reads lines.
unfoldable pub split_rounds : ℕ → ℕ → ℕ → Option Text → List Text
split_rounds fuel zero d st = lines_of fuel 10 st
split_rounds fuel (suc num) d st = elim (read_line d st) [
  | none ↦ []
  | some (item, rest) ↦ item ∷ split_rounds fuel num d rest
]

-- `split( s, delim, num )` for a `num` that is not negative
unfoldable pub split_num : Text → ℕ → ℕ → List Text
split_num s d zero = []
split_num s d (suc num) = split_rounds (suc (length s)) num d (some s)

unfoldable pub is_one_of : ℕ → Text → Bool
is_one_of c [] = false
is_one_of c (x ∷ t) = let rest = is_one_of c t in if c == x then true else rest

unfoldable pub ltrim : Text → Text → Text
ltrim t [] = []
ltrim t (c ∷ s) = let rest = ltrim t s in if is_one_of c t then rest else c ∷ s

-- A character before what `rtrim` leaves of the characters behind it.
unfoldable pub keep_front : Text → ℕ → Text → Text
keep_front t c [] = if is_one_of c t then [] else c ∷ []
keep_front t c (x ∷ s) = c ∷ x ∷ s

unfoldable pub rtrim : Text → Text → Text
rtrim t [] = []
rtrim t (c ∷ s) = keep_front t c (rtrim t s)

unfoldable pub trim : Text → Text → Text
trim t s = ltrim t (rtrim t s)

-- The characters that `trim` takes away when it is given none.
abbrev pub blanks : Text
blanks = 32 ∷ 9 ∷ 10 ∷ 13 ∷ 12 ∷ 11 ∷ []

-- A character at the front of the first piece.
unfoldable pub push : ℕ → List Text → List Text
push c [] = (c ∷ []) ∷ []
push c (x ∷ xs) = (c ∷ x) ∷ xs

-- The pieces of a text, by its characters.
unfoldable pub pieces : ℕ → Text → List Text
pieces d [] = []
pieces d (c ∷ s) = let rest = pieces d s in if c == d then [] ∷ rest else push c rest

-- The pieces of the rest of a stream.
unfoldable pieces_left : ℕ → Option Text → List Text
pieces_left d none = []
pieces_left d (some s) = pieces d s

left_length : Option Text → ℕ
left_length none = 0
left_length (some s) = length s

pieces-get_line :
    (d c : ℕ) (s : Text)
    → pieces d (c ∷ s) ≡ (get_line d (c ∷ s)).0 ∷ pieces_left d (get_line d (c ∷ s)).1
unfolding pieces get_line pieces_left push
pieces-get_line d c [] = elim (Bool-cases (c == d)) [
  | inl y ↦ ground (arith, y)
  | inr n ↦ ground (arith, n)
]
pieces-get_line d c (x ∷ s) = elim (Bool-cases (c == d)) [
  | inl y ↦ ground (arith, y)
  | inr n ↦ ground (arith, n, pieces-get_line d x s)
]

length-get_line : (d c : ℕ) (s : Text) → left_length (get_line d (c ∷ s)).1 < length (c ∷ s)
unfolding get_line left_length
length-get_line d c [] = elim (Bool-cases (c == d)) [
  | inl y ↦ ground (arith, y)
  | inr n ↦ ground (arith, n)
]
length-get_line d c (x ∷ s) = elim (Bool-cases (c == d)) [
  | inl y ↦ ground (arith, y)
  | inr n ↦ ground (arith, n, length-get_line d x s)
]

lines_of-eq-pieces :
    (n d : ℕ) (st : Option Text) → left_length st < n → lines_of n d st ≡ pieces_left d st
unfolding lines_of read_line pieces_left left_length pieces
lines_of-eq-pieces zero d st h = ground (arith, h)
lines_of-eq-pieces (suc n) d none h = refl
lines_of-eq-pieces (suc n) d (some []) h = refl
lines_of-eq-pieces (suc n) d (some (c ∷ s)) h =
    let less = length-get_line d c s in
    let here = pieces-get_line d c s in
    let rest = lines_of-eq-pieces n d (get_line d (c ∷ s)).1 (ground (arith, h, less)) in
    ground (arith, here, rest)

-- The loop of `split` has fuel enough for every text: it gives the pieces between the delimiters, in
-- which a delimiter at the end starts no piece.
pub split-eq-pieces : (s : Text) (d : ℕ) → split s d ≡ pieces d s
unfolding split pieces_left left_length
split-eq-pieces s d = lines_of-eq-pieces (suc (length s)) d (some s) (omega arith)

-- The texts without a delimiter.
unfoldable pub lacks : ℕ → Text → Bool
lacks d [] = true
lacks d (c ∷ s) = let rest = lacks d s in if c == d then false else rest

lacks_head : (d c : ℕ) (s : Text) → lacks d (c ∷ s) ≡ true → ((c == d) ≡ false) × (lacks d s ≡ true)
unfolding lacks
lacks_head d c s h = elim (Bool-cases (c == d)) [
  | inl y ↦ ground (arith, y, h)
  | inr n ↦ ground (arith, n, h)
]

-- A piece and its delimiter come off the front.
pub pieces-append :
    (d : ℕ) (item s : Text) → lacks d item ≡ true → pieces d (item ++ d ∷ s) ≡ item ∷ pieces d s
unfolding pieces push
pieces-append d [] s h = ground (arith, nat_same_refl d)
pieces-append d (c ∷ item) s h =
    let (apart, tail) = lacks_head d c item h in ground (arith, apart, pieces-append d item s tail)

-- A text without a delimiter is one piece.
pub pieces_one : (d c : ℕ) (s : Text) → lacks d (c ∷ s) ≡ true → pieces d (c ∷ s) ≡ (c ∷ s) ∷ []
unfolding pieces push
pieces_one d c [] h = let (apart, tail) = lacks_head d c [] h in ground (arith, apart)
pieces_one d c (x ∷ s) h =
    let (apart, tail) = lacks_head d c (x ∷ s) h in ground (arith, apart, pieces_one d x s tail)

get_line-append :
    (d : ℕ) (item s : Text) → lacks d item ≡ true → get_line d (item ++ d ∷ s) ≡ (item, some s)
unfolding get_line
get_line-append d [] s h = ground (arith, nat_same_refl d)
get_line-append d (c ∷ item) s h =
    let (apart, tail) = lacks_head d c item h in
    ground (arith, apart, get_line-append d item s tail)

get_line_last : (d : ℕ) (s : Text) → lacks d s ≡ true → get_line d s ≡ (s, none)
unfolding get_line
get_line_last d [] h = refl
get_line_last d (c ∷ s) h =
    let (apart, tail) = lacks_head d c s h in ground (arith, apart, get_line_last d s tail)

read_line-append :
    (d : ℕ) (item s : Text)
    → lacks d item ≡ true
    → read_line d (some (item ++ d ∷ s)) ≡ some (item, some s)
unfolding read_line
read_line-append d [] s h = ap some (get_line-append d [] s h)
read_line-append d (c ∷ item) s h = ap some (get_line-append d (c ∷ item) s h)

-- `split` in two gives a key and what is behind the first delimiter, if that is one line that is not
-- empty.
pub split_two :
    (d : ℕ) (key : Text) (c : ℕ) (s : Text)
    → lacks d key ≡ true
    → lacks 10 (c ∷ s) ≡ true
    → split_num (key ++ d ∷ c ∷ s) d 2 ≡ key ∷ (c ∷ s) ∷ []
unfolding split_num split_rounds pieces_left left_length
split_two d key c s h one =
    let text : Text = key ++ d ∷ c ∷ s in
    let size = length-append key (d ∷ c ∷ s) in
    let left = lines_of-eq-pieces (suc (length text)) 10 (some (c ∷ s)) (ground (arith, size)) in
    ground (arith, read_line-append d key (c ∷ s) h, left, pieces_one 10 c s one)

-- One piece only, if there is no delimiter, or nothing behind it.
pub split_one :
    (d : ℕ) (c : ℕ) (s : Text) → lacks d (c ∷ s) ≡ true → split_num (c ∷ s) d 2 ≡ (c ∷ s) ∷ []
unfolding split_num split_rounds lines_of read_line
split_one d c s h = ground (arith, get_line_last d (c ∷ s) h)
