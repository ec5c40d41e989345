-- ===== src/Prelude/Weights.antt =====
-- Sums over the entries of a map, for lengths and for numbers of entries of a kind.
use Prim.Native.Nat.{ℕ, ◌+◌}
use mathlib.Core.Path.{◌≡◌, refl}
use mathlib.Core.Logic.{inl, inr}
use mathlib.Core.Option.{none, some}
use mathlib.Core.List.{List, [], ◌∷◌}
use native.Mathlib.Omega.{arith}
use lidar.Prelude.Tests.{Bool-cases}
use lidar.Prelude.Lists.{length}
use lidar.Prelude.Maps.{Key, find, assign, replace}

abbrev pub weigh {ℓ κ} : {K : Type ℓ} {V : Type κ} → (V → ℕ) → List (K × V) → ℕ
weigh f [] = 0
weigh f ((k, v) ∷ m) = f v + weigh f m

pub length-eq-weigh {ℓ κ} :
    {K : Type ℓ} {V : Type κ} (m : List (K × V)) → length m ≡ weigh (λ (v : V). 1) m
length-eq-weigh [] = refl
length-eq-weigh ((k, v) ∷ m) = omega (arith, length-eq-weigh m)

module _ {ℓ κ} {K : Type ℓ} {V : Type κ} (o : Key K) (f : V → ℕ) where
  pub weigh-assign :
      (k : K) (v : V) (m : List (K × V))
      → find o k m ≡ none
      → weigh f (assign o k v m) ≡ f v + weigh f m
  unfolding find assign
  weigh-assign k v [] h = refl
  weigh-assign k v ((l, u) ∷ m) h = elim (Bool-cases (o.same k l)) [
    | inl y ↦ absurd (ground (arith, y, h))
    | inr apart ↦ ground (arith, apart, h, weigh-assign k v m)
  ]

  pub weigh-replace :
      (k : K) (v w : V) (m : List (K × V))
      → find o k m ≡ some w
      → weigh f (replace o k v m) + f w ≡ weigh f m + f v
  unfolding find replace
  weigh-replace k v w [] h = absurd (ground (arith, h))
  weigh-replace k v w ((l, u) ∷ m) h = elim (Bool-cases (o.same k l)) [
    | inl y ↦ ground (arith, y, h)
    | inr apart ↦ ground (arith, apart, h, weigh-replace k v w m)
  ]
