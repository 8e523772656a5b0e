-- ===== src/Common/Bits.antt =====
-- The bits of machine words. A test `x & (1 << k)` is `bit x k`, `x & ~m` is `clear x m`.
use Prim.Native.Nat.{
  ℕ, zero, suc, ◌+◌, ◌-◌, ◌*◌, ◌^◌, ◌/◌, ◌%◌, ◌≤◌, min, max, bit_and, bit_or, bit_xor, digits,
  bit_and-bitwise, bit_or-bitwise, bit_xor-bitwise, differ,
}
use mathlib.Core.Path.{◌≡◌, refl}
use mathlib.Core.Bool.{Bool, true, false, not, ◌&&◌, ◌||◌}
use native.Mathlib.Omega.{arith}
use usbqemu_wheel.Common.Tests.{◌==◌, if◌then◌else◌}

-- bit `k` of `x`
unfoldable pub bit : ℕ → ℕ → Bool
bit x zero = x % 2 == 1
bit x (suc k) = bit (x / 2) k

unfoldable pub clear : ℕ → ℕ → ℕ
clear x m = bit_xor x (bit_and x m)

abbrev pub xor : Bool → Bool → Bool
xor true b = not b
xor false b = b

-- `(x >> shift) & (2^width - 1)`, as OHCI_BM reads a field.
abbrev pub field : ℕ → ℕ → ℕ → ℕ
field x shift width = x / 2 ^ shift % 2 ^ width

-- `x &= ~mask; x |= (v << shift) & mask`, as OHCI_SET_BM writes a field.
abbrev pub set_field : ℕ → ℕ → ℕ → ℕ → ℕ
set_field x shift width v = x - field x shift width * 2 ^ shift + v % 2 ^ width * 2 ^ shift

pub bit-zero : (k : ℕ) → bit 0 k ≡ false
unfolding bit
bit-zero zero = refl
bit-zero (suc k) = bit-zero k

double-add-mod : (d r : ℕ) → r ≤ 1 → (d * 2 + r) % 2 ≡ r
double-add-mod d r h = omega arith

double-add-div : (d r : ℕ) → r ≤ 1 → (d * 2 + r) / 2 ≡ d
double-add-div d r h = omega arith

-- An operation on digits acts on each bit as `g` acts on Booleans.
module _ (z : ℕ → ℕ) (f : ℕ → ℕ → ℕ) (g : Bool → Bool → Bool)
    (ends : (b k : ℕ) → bit (z b) k ≡ g false (bit b k))
    (lowest : (a b : ℕ) → a ≤ 1 → b ≤ 1 → (f a b == 1) ≡ g (a == 1) (b == 1))
    (small : (a b : ℕ) → a ≤ 1 → b ≤ 1 → f a b ≤ 1) where
  bit-digits : (n a b k : ℕ) → a ≤ n → bit (digits z f n a b) k ≡ g (bit a k) (bit b k)
  unfolding bit
  bit-digits zero zero b k h = rw bit-zero (ends b k)
  bit-digits zero (suc a) b k h = absurd (omega arith)
  bit-digits (suc n) zero b k h = rw bit-zero (ends b k)
  bit-digits (suc n) (suc a) b zero h =
      rw (double-add-mod _ _ (small (suc a % 2) (b % 2) (omega arith) (omega arith)))
        (lowest (suc a % 2) (b % 2) (omega arith) (omega arith))
  bit-digits (suc n) (suc a) b (suc k) h =
      rw (double-add-div _ _ (small (suc a % 2) (b % 2) (omega arith) (omega arith)))
        (bit-digits n (suc a / 2) (b / 2) k (omega arith))

-- The three digit operations on the digits 0 and 1.
min-lowest : (a b : ℕ) → a ≤ 1 → b ≤ 1 → (min a b == 1) ≡ ((a == 1) && (b == 1))
min-lowest a b p q = ground arith

max-lowest : (a b : ℕ) → a ≤ 1 → b ≤ 1 → (max a b == 1) ≡ ((a == 1) || (b == 1))
max-lowest a b p q = ground arith

differ-lowest : (a b : ℕ) → a ≤ 1 → b ≤ 1 → (differ a b == 1) ≡ xor (a == 1) (b == 1)
differ-lowest zero zero p q = refl
differ-lowest zero (suc b) p q = ground arith
differ-lowest (suc zero) zero p q = refl
differ-lowest (suc zero) (suc zero) p q = refl
differ-lowest (suc zero) (suc (suc b)) p q = absurd (omega arith)
differ-lowest (suc (suc a)) b p q = absurd (omega arith)

differ-le : (a b : ℕ) → a ≤ 1 → b ≤ 1 → differ a b ≤ 1
differ-le zero b p q = q
differ-le (suc zero) zero p q = p
differ-le (suc zero) (suc b) p q = omega arith
differ-le (suc (suc a)) b p q = absurd (omega arith)

and_lem : (a b : Bool) → xor a (a && b) ≡ (a && not b)
and_lem true true = refl
and_lem true false = refl
and_lem false true = refl
and_lem false false = refl

pub bit-bit_and : (a b k : ℕ) → bit (bit_and a b) k ≡ (bit a k && bit b k)
bit-bit_and a b k = rw bit_and-bitwise (
    bit-digits (λ _. 0) min ◌&&◌ (λ _ k. bit-zero k) min-lowest (λ a b p q. omega arith) a a b k
      (omega arith))

pub bit-bit_or : (a b k : ℕ) → bit (bit_or a b) k ≡ (bit a k || bit b k)
bit-bit_or a b k = rw bit_or-bitwise (
    bit-digits (λ y. y) max ◌||◌ (λ _ k. refl) max-lowest (λ a b p q. omega arith) a a b k
      (omega arith))

pub bit-bit_xor : (a b k : ℕ) → bit (bit_xor a b) k ≡ xor (bit a k) (bit b k)
bit-bit_xor a b k =
    rw bit_xor-bitwise
      (bit-digits (λ y. y) differ xor (λ _ k. refl) differ-lowest differ-le a a b k (omega arith))

pub bit-clear : (x m k : ℕ) → bit (clear x m) k ≡ (bit x k && not (bit m k))
unfolding clear
bit-clear x m k = simp (bit-bit_xor, bit-bit_and) (and_lem (bit x k) (bit m k))

pub bit-if : (c : Bool) (x y k : ℕ) → bit (if c then x else y) k ≡ (if c then bit x k else bit y k)
bit-if true x y k = refl
bit-if false x y k = refl

pub ruleset bit_laws = (bit-bit_and, bit-bit_or, bit-bit_xor, bit-clear, bit-if)
