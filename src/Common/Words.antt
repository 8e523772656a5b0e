-- ===== src/Common/Words.antt =====
-- Numbers as bytes in memory, the lowest byte first.
use Prim.Native.Nat.{ℕ, zero, suc, ◌+◌, ◌*◌, ◌/◌, ◌%◌, ◌^◌, ◌<◌}
use mathlib.Core.Path.{◌≡◌, refl, ap}
use mathlib.Core.List.{List, [], ◌∷◌}
use native.Mathlib.Omega.{arith}
use native.Mathlib.Numerals.{unary_clauses}
use usbqemu_wheel.Common.Lists.{length}

-- `n` bytes of a number.
abbrev pub le_bytes : ℕ → ℕ → List ℕ
le_bytes zero x = []
le_bytes (suc n) x = (x % 256) ∷ le_bytes n (x / 256)

-- The number that bytes stand for.
abbrev pub le_value : List ℕ → ℕ
le_value [] = 0
le_value (b ∷ bs) = b + 256 * le_value bs

pub length-le_bytes : (n x : ℕ) → length (le_bytes n x) ≡ n
length-le_bytes zero x = refl
length-le_bytes (suc n) x = ap suc (length-le_bytes n (x / 256))

-- A number that fits comes back.
pub le_value-le_bytes : (n x : ℕ) → x < 256 ^ n → le_value (le_bytes n x) ≡ x
le_value-le_bytes zero x h = omega arith
le_value-le_bytes (suc n) x h =
    omega (arith, le_value-le_bytes n (x / 256) (omega (arith, simp unary_clauses at h)))
