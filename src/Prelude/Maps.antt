-- ===== src/Prelude/Maps.antt =====
-- `std::map`, as the list of its entries in the order of the keys.
use Prim.Native.Nat.{ℕ}
use mathlib.Core.Path.{◌≡◌, refl, sym, ap, ◌∙◌}
use mathlib.Core.Logic.{inl, inr}
use mathlib.Core.Bool.{true≢false, Bool, true, false, ◌&&◌}
use mathlib.Core.Option.{Option, none, some}
use mathlib.Core.List.{List, [], ◌∷◌}
use native.Mathlib.Omega.{arith}
use lidar.Prelude.Tests.{if◌then◌else◌, Bool-cases, ltb, ◌==◌}

-- What `std::map` needs of its keys.
pub record Key {ℓ} (K : Type ℓ) : Type ℓ where
  pub same : K → K → Bool
  pub below : K → K → Bool
  pub same→eq : (a b : K) → same a b ≡ true → a ≡ b
  pub same-refl : (a : K) → same a a ≡ true

same_place {ℓ} :
    {K : Type ℓ} (o : Key K) (j k l : K)
    → o.same j k ≡ false
    → o.same k l ≡ true
    → o.same j l ≡ false
same_place o j k l h e = elim (Bool-cases (o.same j l)) [
  | inl t ↦ absurd (
      true≢false
        (sym (ap (λ x. o.same j x) (o.same→eq k l e ∙ sym (o.same→eq j l t)) ∙ o.same-refl j) ∙ h))
  | inr n ↦ n
]

same_flip {ℓ} : {K : Type ℓ} (o : Key K) (j k : K) → o.same j k ≡ false → o.same k j ≡ false
same_flip o j k h = elim (Bool-cases (o.same k j)) [
  | inl t ↦
      absurd (true≢false (sym (ap (λ x. o.same x k) (sym (o.same→eq k j t)) ∙ o.same-refl k) ∙ h))
  | inr n ↦ n
]

module _ {ℓ κ} {K : Type ℓ} {V : Type κ} (o : Key K) where
  unfoldable pub find : K → List (K × V) → Option V
  find k [] = none
  find k ((l, w) ∷ m) = let rest = find k m in if o.same k l then some w else rest

  unfoldable pub count : K → List (K × V) → Bool
  count k m = elim (find k m) [ none ↦ false | some v ↦ true ]

  -- `map[k] = v`
  unfoldable pub assign : K → V → List (K × V) → List (K × V)
  assign k v [] = (k, v) ∷ []
  assign k v ((l, w) ∷ m) =
      let rest = assign k v m in
      if o.same k l then (k, v) ∷ m else if o.below k l then (k, v) ∷ (l, w) ∷ m else (l, w) ∷ rest

  -- `map.emplace( k, v )`, which keeps the entry that is there
  unfoldable pub emplace : K → V → List (K × V) → List (K × V)
  emplace k v m = if count k m then m else assign k v m

  -- A value that is changed through a pointer to it.
  unfoldable pub replace : K → V → List (K × V) → List (K × V)
  replace k v [] = []
  replace k v ((l, w) ∷ m) =
      let rest = replace k v m in if o.same k l then (l, v) ∷ m else (l, w) ∷ rest

  -- `map.erase( k )`
  unfoldable pub erase : K → List (K × V) → List (K × V)
  erase k [] = []
  erase k ((l, w) ∷ m) = let rest = erase k m in if o.same k l then rest else (l, w) ∷ rest

  -- No key has two entries.
  abbrev pub IsDistinct : List (K × V) → Type κ
  IsDistinct [] = Unit {κ}
  IsDistinct ((l, w) ∷ m) = (find l m ≡ none) × IsDistinct m

  pub find-assign : (k : K) (v : V) (m : List (K × V)) → find k (assign k v m) ≡ some v
  unfolding find assign
  find-assign k v [] = ground (arith, o.same-refl k)
  find-assign k v ((l, w) ∷ m) = ground (arith, o.same-refl k, find-assign k v m)

  pub find_other :
      (j k : K) (v : V) (m : List (K × V)) → o.same j k ≡ false → find j (assign k v m) ≡ find j m
  unfolding find assign
  find_other j k v [] h = ground (arith, h)
  find_other j k v ((l, w) ∷ m) h = ground (arith, h, find_other j k v m h, same_place o j k l h)

  pub find-erase : (k : K) (m : List (K × V)) → find k (erase k m) ≡ none
  unfolding find erase
  find-erase k [] = refl
  find-erase k ((l, w) ∷ m) = ground (arith, find-erase k m)

  pub find_not_erased :
      (j k : K) (m : List (K × V)) → o.same j k ≡ false → find j (erase k m) ≡ find j m
  unfolding find erase
  find_not_erased j k [] h = refl
  find_not_erased j k ((l, w) ∷ m) h =
      ground (arith, h, find_not_erased j k m h, same_place o j k l h)

  pub find-replace :
      (k : K) (v w : V) (m : List (K × V)) → find k m ≡ some w → find k (replace k v m) ≡ some v
  unfolding find replace
  find-replace k v w [] h = ground (arith, h)
  find-replace k v w ((l, u) ∷ m) h = ground (arith, h, find-replace k v w m)

  pub find_not_replaced :
      (j k : K) (v : V) (m : List (K × V)) → o.same j k ≡ false → find j (replace k v m) ≡ find j m
  unfolding find replace
  find_not_replaced j k v [] h = refl
  find_not_replaced j k v ((l, u) ∷ m) h =
      ground (arith, h, find_not_replaced j k v m h, same_place o j k l h)

  pub find-none_replaced :
      (j k : K) (v : V) (m : List (K × V)) → find j m ≡ none → find j (replace k v m) ≡ none
  unfolding find replace
  find-none_replaced j k v [] h = refl
  find-none_replaced j k v ((l, u) ∷ m) h = ground (arith, h, find-none_replaced j k v m)

  pub replace-IsDistinct :
      (k : K) (v : V) (m : List (K × V)) → IsDistinct m → IsDistinct (replace k v m)
  unfolding replace
  replace-IsDistinct k v [] d = tt
  replace-IsDistinct k v ((l, u) ∷ m) (n, d) =
      ground (arith, n, d, replace-IsDistinct k v m d, find-none_replaced l k v m n)

  pub assign-IsDistinct :
      (k : K) (v : V) (m : List (K × V))
      → find k m ≡ none
      → IsDistinct m
      → IsDistinct (assign k v m)
  unfolding find assign
  assign-IsDistinct k v [] h d = (refl, tt)
  assign-IsDistinct k v ((l, u) ∷ m) h (n, d) = elim (Bool-cases (o.same k l)) [
    | inl y ↦ absurd (ground (arith, y, h))
    | inr apart ↦
        ground (
          arith,
          apart,
          h,
          n,
          d,
          assign-IsDistinct k v m,
          find_other l k v m (same_flip o k l apart),
        )
  ]

-- Texts, by their code points, in the order of `std::string`.
unfoldable pub same_bytes : List ℕ → List ℕ → Bool
same_bytes [] [] = true
same_bytes (x ∷ xs) (y ∷ ys) = x == y && same_bytes xs ys
same_bytes _ _ = false

unfoldable pub below_bytes : List ℕ → List ℕ → Bool
below_bytes [] [] = false
below_bytes [] (y ∷ ys) = true
below_bytes (x ∷ xs) [] = false
below_bytes (x ∷ xs) (y ∷ ys) = let rest = below_bytes xs ys in if x == y then rest else ltb x y

pub same_bytes→eq : (a b : List ℕ) → same_bytes a b ≡ true → a ≡ b
unfolding same_bytes
same_bytes→eq [] [] h = refl
same_bytes→eq [] (y ∷ ys) h = ground (arith, h)
same_bytes→eq (x ∷ xs) [] h = ground (arith, h)
same_bytes→eq (x ∷ xs) (y ∷ ys) h = ground (arith, h, same_bytes→eq xs ys)

pub same_bytes_refl : (a : List ℕ) → same_bytes a a ≡ true
unfolding same_bytes
same_bytes_refl [] = refl
same_bytes_refl (x ∷ xs) = ground (arith, same_bytes_refl xs)

abbrev pub text : Key (List ℕ)
text = record {
  same = same_bytes;
  below = below_bytes;
  same→eq = same_bytes→eq;
  same-refl = same_bytes_refl;
}

pub nat_same→eq : (a b : ℕ) → (a == b) ≡ true → a ≡ b
nat_same→eq a b h = ground arith

pub nat_same_refl : (a : ℕ) → (a == a) ≡ true
nat_same_refl a = ground arith

abbrev pub number : Key ℕ
number = record {
  same = λ a b. a == b;
  below = ltb;
  same→eq = nat_same→eq;
  same-refl = nat_same_refl;
}
