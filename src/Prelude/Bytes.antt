-- ===== src/Prelude/Bytes.antt =====
-- Machine words as little-endian bytes, the way a struct is written by its memory.
use Prim.Native.Nat.{ℕ, zero, suc, ◌+◌, ◌*◌, ◌/◌, ◌%◌, ◌^◌, ◌<◌}
use mathlib.Core.Path.{◌≡◌, refl, ap}
use mathlib.Core.List.{List, [], ◌∷◌}
use native.Mathlib.Omega.{arith}
use native.Mathlib.Nat.{pow-suc}
use lidar.Prelude.Lists.{length}

-- The lowest `n` bytes of `x`, the lowest first.
unfoldable pub le_bytes : ℕ → ℕ → List ℕ
le_bytes zero x = []
le_bytes (suc n) x = x % 256 ∷ le_bytes n (x / 256)

unfoldable pub from_le : List ℕ → ℕ
from_le [] = 0
from_le (b ∷ bs) = b + 256 * from_le bs

pub length-le_bytes : (n x : ℕ) → length (le_bytes n x) ≡ n
unfolding le_bytes
length-le_bytes zero x = refl
length-le_bytes (suc n) x = ap suc (length-le_bytes n (x / 256))

pub from_le-le_bytes : (n x : ℕ) → x < 256 ^ n → from_le (le_bytes n x) ≡ x
unfolding le_bytes from_le
from_le-le_bytes zero x h = omega arith
from_le-le_bytes (suc n) x h =
    omega (arith, pow-suc 256 n, from_le-le_bytes n (x / 256) (omega (arith, pow-suc 256 n)))

-- Every element is a byte.
abbrev pub AllBytes : List ℕ → Type 0
AllBytes [] = Unit {0}
AllBytes (b ∷ bs) = (b < 256) × AllBytes bs

pub le_bytes-from_le : (bs : List ℕ) → AllBytes bs → le_bytes (length bs) (from_le bs) ≡ bs
unfolding le_bytes from_le
le_bytes-from_le [] h = refl
le_bytes-from_le (b ∷ bs) h =
    let low : (b + 256 * from_le bs) % 256 ≡ b = omega (arith, h.0) in
    let high : (b + 256 * from_le bs) / 256 ≡ from_le bs = omega (arith, h.0) in
    rw (low, high) (ap (λ t. b ∷ t) (le_bytes-from_le bs h.1))
