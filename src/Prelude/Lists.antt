-- ===== src/Prelude/Lists.antt =====
-- Lists measured and indexed by the native numbers, under the library's names, and the block
-- operations that stand for `memcpy` between vectors.
use Prim.Native.Nat.{ℕ, zero, suc, ◌+◌, ◌-◌, ◌≤◌, ◌<◌, min}
use mathlib.Core.Path.{◌≡◌, refl, ap}
use mathlib.Core.Logic.{◌≢◌}
use mathlib.Core.List.{List, [], ◌∷◌, ◌++◌, map}
use mathlib.Core.Option.{Option, none, some}
use native.Mathlib.Omega.{arith}
use lidar.Prelude.Tests.{ltb, if◌then◌else◌}

module _ {ℓ} {A : Type ℓ} where
  abbrev pub length : List A → ℕ
  length [] = 0
  length (x ∷ xs) = suc (length xs)

  abbrev pub get_elem? : List A → ℕ → Option A
  get_elem? [] i = none
  get_elem? (x ∷ xs) zero = some x
  get_elem? (x ∷ xs) (suc i) = get_elem? xs i

  -- A write out of bounds changes nothing; the models test the bounds first.
  abbrev pub set : List A → ℕ → A → List A
  set [] i v = []
  set (x ∷ xs) zero v = v ∷ xs
  set (x ∷ xs) (suc i) v = x ∷ set xs i v

  abbrev pub take : ℕ → List A → List A
  take zero xs = []
  take (suc n) [] = []
  take (suc n) (x ∷ xs) = x ∷ take n xs

  abbrev pub drop : ℕ → List A → List A
  drop zero xs = xs
  drop (suc n) [] = []
  drop (suc n) (x ∷ xs) = drop n xs

  abbrev pub replicate : ℕ → A → List A
  replicate zero a = []
  replicate (suc n) a = a ∷ replicate n a

  -- The block `src` written over `dst` from index `i` on.
  abbrev pub write_at : ℕ → List A → List A → List A
  write_at i src [] = []
  write_at zero [] (y ∷ dst) = y ∷ dst
  write_at zero (x ∷ src) (y ∷ dst) = x ∷ write_at zero src dst
  write_at (suc i) src (y ∷ dst) = y ∷ write_at i src dst

module _ {ℓ} {A : Type ℓ} where
  pub length-append : (xs ys : List A) → length (xs ++ ys) ≡ length xs + length ys
  length-append [] ys = omega arith
  length-append (x ∷ xs) ys = omega (arith, length-append xs ys)

  pub length-set : (xs : List A) (i : ℕ) (v : A) → length (set xs i v) ≡ length xs
  length-set [] i v = refl
  length-set (x ∷ xs) zero v = refl
  length-set (x ∷ xs) (suc i) v = ap suc (length-set xs i v)

  pub get_elem?-set_self :
      (xs : List A) (i : ℕ) (v : A) → i < length xs → get_elem? (set xs i v) i ≡ some v
  get_elem?-set_self [] i v h = elim h [ ]
  get_elem?-set_self (x ∷ xs) zero v h = refl
  get_elem?-set_self (x ∷ xs) (suc i) v h = get_elem?-set_self xs i v (omega arith)

  pub get_elem?-set_ne :
      (xs : List A) (i j : ℕ) (v : A) → i ≢ j → get_elem? (set xs i v) j ≡ get_elem? xs j
  get_elem?-set_ne [] i j v h = refl
  get_elem?-set_ne (x ∷ xs) zero zero v h = absurd (h refl)
  get_elem?-set_ne (x ∷ xs) zero (suc j) v h = refl
  get_elem?-set_ne (x ∷ xs) (suc i) zero v h = refl
  get_elem?-set_ne (x ∷ xs) (suc i) (suc j) v h = get_elem?-set_ne xs i j v (λ e. h (ap suc e))

  pub length-take : (n : ℕ) (xs : List A) → length (take n xs) ≡ min n (length xs)
  length-take zero xs = omega arith
  length-take (suc n) [] = omega arith
  length-take (suc n) (x ∷ xs) = omega (arith, length-take n xs)

  pub length-drop : (n : ℕ) (xs : List A) → length (drop n xs) ≡ length xs - n
  length-drop zero xs = omega arith
  length-drop (suc n) [] = omega arith
  length-drop (suc n) (x ∷ xs) = omega (arith, length-drop n xs)

  pub length-replicate : (n : ℕ) (a : A) → length (replicate n a) ≡ n
  length-replicate zero a = refl
  length-replicate (suc n) a = ap suc (length-replicate n a)

  pub take_all : (n : ℕ) (xs : List A) → length xs ≤ n → take n xs ≡ xs
  take_all zero [] h = refl
  take_all zero (x ∷ xs) h = elim h [ ]
  take_all (suc n) [] h = refl
  take_all (suc n) (x ∷ xs) h = ap (λ t. x ∷ t) (take_all n xs (omega arith))

  pub take-append : (xs ys : List A) → take (length xs) (xs ++ ys) ≡ xs
  take-append [] ys = refl
  take-append (x ∷ xs) ys = ap (λ t. x ∷ t) (take-append xs ys)

  pub drop-append : (xs ys : List A) → drop (length xs) (xs ++ ys) ≡ ys
  drop-append [] ys = refl
  drop-append (x ∷ xs) ys = drop-append xs ys

  pub get_elem?-replicate :
      (n i : ℕ) (a : A) → get_elem? (replicate n a) i ≡ (if ltb i n then some a else none)
  get_elem?-replicate zero i a = ground arith
  get_elem?-replicate (suc n) zero a = ground arith
  get_elem?-replicate (suc n) (suc i) a = ground (arith, get_elem?-replicate n i a)

  pub get_elem?-take :
      (n i : ℕ) (xs : List A) → get_elem? (take n xs) i ≡ (if ltb i n then get_elem? xs i else none)
  get_elem?-take zero i xs = ground arith
  get_elem?-take (suc n) i [] = ground arith
  get_elem?-take (suc n) zero (x ∷ xs) = ground arith
  get_elem?-take (suc n) (suc i) (x ∷ xs) = ground (arith, get_elem?-take n i xs)

  pub get_elem?-drop : (n i : ℕ) (xs : List A) → get_elem? (drop n xs) i ≡ get_elem? xs (n + i)
  get_elem?-drop zero i xs = let e : 0 + i ≡ i = omega arith in rw e
  get_elem?-drop (suc n) i [] = refl
  get_elem?-drop (suc n) i (x ∷ xs) =
      let e : suc n + i ≡ suc (n + i) = omega arith in rw e (get_elem?-drop n i xs)

  pub get_elem?_bound : (xs : List A) (i : ℕ) → length xs ≤ i → get_elem? xs i ≡ none
  get_elem?_bound [] i h = refl
  get_elem?_bound (x ∷ xs) zero h = absurd (omega arith)
  get_elem?_bound (x ∷ xs) (suc i) h = get_elem?_bound xs i (omega arith)

  pub length-write_at : (i : ℕ) (src dst : List A) → length (write_at i src dst) ≡ length dst
  length-write_at i src [] = refl
  length-write_at zero [] (y ∷ dst) = refl
  length-write_at zero (x ∷ src) (y ∷ dst) = ap suc (length-write_at zero src dst)
  length-write_at (suc i) src (y ∷ dst) = ap suc (length-write_at i src dst)

  pub write_at_nil : (i : ℕ) (dst : List A) → write_at i [] dst ≡ dst
  write_at_nil i [] = refl
  write_at_nil zero (y ∷ dst) = refl
  write_at_nil (suc i) (y ∷ dst) = ap (λ t. y ∷ t) (write_at_nil i dst)

  -- Below the block nothing changes.
  pub get_elem?-write_at_below :
      (i j : ℕ) (src dst : List A) → j < i → get_elem? (write_at i src dst) j ≡ get_elem? dst j
  get_elem?-write_at_below i j src [] h = refl
  get_elem?-write_at_below zero j src (y ∷ dst) h = elim h [ ]
  get_elem?-write_at_below (suc i) zero src (y ∷ dst) h = refl
  get_elem?-write_at_below (suc i) (suc j) src (y ∷ dst) h =
      get_elem?-write_at_below i j src dst (omega arith)

  -- At and above its start stands the block, as far as it reaches.
  pub get_elem?-write_at :
      (i k : ℕ) (src dst : List A)
      → i + k < length dst
      → get_elem? (write_at i src dst) (i + k)
        ≡ (if ltb k (length src) then get_elem? src k else get_elem? dst (i + k))
  get_elem?-write_at i k src [] h = absurd (omega arith)
  get_elem?-write_at zero k [] (y ∷ dst) h = ground arith
  get_elem?-write_at zero zero (x ∷ src) (y ∷ dst) h =
      let e : 0 + 0 ≡ 0 = omega arith in rw e (ground arith)
  get_elem?-write_at zero (suc k) (x ∷ src) (y ∷ dst) h =
      let e : 0 + suc k ≡ suc (0 + k) = omega arith in
      rw e (ground (arith, get_elem?-write_at zero k src dst))
  get_elem?-write_at (suc i) k src (y ∷ dst) h =
      let e : suc i + k ≡ suc (i + k) = omega arith in
      rw e (get_elem?-write_at i k src dst (omega arith))

  -- Lists that agree at every index are equal.
  pub get_elem?_ext : (xs ys : List A) → ((i : ℕ) → get_elem? xs i ≡ get_elem? ys i) → xs ≡ ys
  get_elem?_ext [] [] h = refl
  get_elem?_ext [] (y ∷ ys) h = cc (h 0)
  get_elem?_ext (x ∷ xs) [] h = cc (h 0)
  get_elem?_ext (x ∷ xs) (y ∷ ys) h = ground (arith, h 0, get_elem?_ext xs ys (λ i. h (suc i)))

module _ {ℓ κ} {A : Type ℓ} {B : Type κ} where
  pub length-map : (xs : List A) (f : A → B) → length (map f xs) ≡ length xs
  length-map [] f = refl
  length-map (x ∷ xs) f = ap suc (length-map xs f)
