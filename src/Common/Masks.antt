-- ===== src/Common/Masks.antt =====
-- Words by their bits, and the mask of one bit.
use Prim.Native.Nat.{ℕ, zero, suc, ◌+◌, ◌*◌, ◌^◌, ◌/◌, ◌%◌, ◌≤◌, ◌<◌, bit_and, bit_or, max}
use mathlib.Core.Path.{◌≡◌, refl, sym, ap, ◌∙◌}
use mathlib.Core.Bool.{Bool, true, false, not, ◌&&◌, ◌||◌}
use native.Mathlib.Omega.{arith}
use native.Mathlib.Numerals.{unary_clauses}
use usbqemu_wheel.Common.Tests.{◌==◌, if◌then◌else◌}
use usbqemu_wheel.Common.Bits.{bit, clear, bit_laws, bit-zero, bit-bit_or}

lowest : (x y : ℕ) → (x % 2 == 1) ≡ (y % 2 == 1) → x % 2 ≡ y % 2
lowest x y h = ground arith

-- Words with the same bits are equal.
bits-ext-upto : (n x y : ℕ) → x ≤ n → y ≤ n → ((k : ℕ) → bit x k ≡ bit y k) → x ≡ y
unfolding bit
bits-ext-upto zero x y p q h = omega arith
bits-ext-upto (suc n) x y p q h =
    let low : x % 2 ≡ y % 2 = lowest x y (h zero) in
    let high : x / 2 ≡ y / 2 =
      bits-ext-upto n (x / 2) (y / 2) (omega arith) (omega arith) (λ k. h (suc k)) in
    omega arith

pub bits-ext : (x y : ℕ) → ((k : ℕ) → bit x k ≡ bit y k) → x ≡ y
bits-ext x y h = bits-ext-upto (x + y) x y (omega arith) (omega arith) h

even-mod : (x : ℕ) → (x * 2) % 2 ≡ 0
even-mod x = omega arith

even-div : (x : ℕ) → (x * 2) / 2 ≡ x
even-div x = omega arith

suc-== : (j k : ℕ) → (suc j == suc k) ≡ (j == k)
suc-== j k = ground arith

zero-ne-suc : (k : ℕ) → false ≡ (0 == suc k)
zero-ne-suc k = ground arith

suc-ne-zero : (k : ℕ) → false ≡ (suc k == 0)
suc-ne-zero k = ground arith

bit-even : (x k : ℕ) → bit (x * 2) (suc k) ≡ bit x k
unfolding bit
bit-even x k = rw (even-div x) refl

two_pow-suc : (j : ℕ) → 2 ^ suc j ≡ 2 ^ j * 2
two_pow-suc j = simp unary_clauses (omega arith)

pub bit-two_pow : (j k : ℕ) → bit (2 ^ j) k ≡ (j == k)
unfolding bit
bit-two_pow zero zero = refl
bit-two_pow zero (suc k) = bit-zero k ∙ zero-ne-suc k
bit-two_pow (suc j) zero = rw (two_pow-suc j) (ap (λ r. r == 1) (even-mod (2 ^ j)) ∙ suc-ne-zero j)
bit-two_pow (suc j) (suc k) =
    rw (two_pow-suc j) (ap (λ r. bit r k) (even-div (2 ^ j)) ∙ bit-two_pow j k ∙ sym (suc-== j k))

and-same : (x j k : ℕ) → (bit x k && (j == k)) ≡ (if bit x j then j == k else false)
and-same x j k = grind arith

pub bit_and-two_pow : (x j : ℕ) → bit_and x (2 ^ j) ≡ (if bit x j then 2 ^ j else 0)
bit_and-two_pow x j = bits-ext _ _ (λ k. simp (bit_laws, bit-two_pow, bit-zero) (and-same x j k))

and-true : (b : Bool) → (b && not false) ≡ b
and-true true = refl
and-true false = refl

-- Clearing nothing.
pub clear-zero : (x : ℕ) → clear x 0 ≡ x
clear-zero x = bits-ext _ _ (λ k. simp (bit_laws, bit-zero) (and-true (bit x k)))

pub two_pow-pos : (j : ℕ) → 1 ≤ 2 ^ j
two_pow-pos zero = omega arith
two_pow-pos (suc j) =
    let h : 1 ≤ 2 ^ j = two_pow-pos j in
    let e : 2 ^ suc j ≡ 2 ^ j * 2 = two_pow-suc j in omega arith

digit : (z m : ℕ) → m ≤ 1 → (z * 2 + m) / 2 ≡ z
digit z m h = omega arith

max_bit : (x y z : ℕ) → ((x % 2 == 1) || (y % 2 == 1)) ≡ ((z * 2 + max (x % 2) (y % 2)) % 2 == 1)
max_bit x y z = ground arith

max_le : (x y : ℕ) → max (x % 2) (y % 2) ≤ 1
max_le x y = omega arith

or-false : (b : Bool) → (b || false) ≡ b
or-false true = refl
or-false false = refl

halves : (x b : ℕ) → (x + b / 2) * 2 + max (x * 2 % 2) (b % 2) ≡ x * 2 + b
halves x b = omega arith

or-step-bit :
    (x y k : ℕ) → bit (bit_or x y) k ≡ bit (bit_or (x / 2) (y / 2) * 2 + max (x % 2) (y % 2)) k
unfolding bit
or-step-bit x y zero = bit-bit_or x y zero ∙ max_bit x y (bit_or (x / 2) (y / 2))
or-step-bit x y (suc k) =
    bit-bit_or x y (suc k)
    ∙ sym (
        ap (λ r. bit r k) (digit (bit_or (x / 2) (y / 2)) _ (max_le x y))
        ∙ bit-bit_or (x / 2) (y / 2) k)

pub or-step : (x y : ℕ) → bit_or x y ≡ bit_or (x / 2) (y / 2) * 2 + max (x % 2) (y % 2)
or-step x y = bits-ext _ _ (λ k. or-step-bit x y k)

or-zero_right : (a : ℕ) → bit_or a 0 ≡ a
or-zero_right a = bits-ext _ _ (λ k. bit-bit_or a 0 k ∙ rw (bit-zero k) (or-false (bit a k)))

-- The bits of a shifted word and of one below it do not meet.
pub or-shift : (n a b : ℕ) → b < 2 ^ n → bit_or (a * 2 ^ n) b ≡ a * 2 ^ n + b
or-shift zero a b h = let e : b ≡ 0 = omega arith in rw e (or-zero_right (a * 1) ∙ omega arith)
or-shift (suc n) a b h =
    let p : 2 ^ suc n ≡ 2 ^ n * 2 = two_pow-suc n in
    let q : a * 2 ^ suc n ≡ a * 2 ^ n * 2 = rw p (omega arith) in
    let rest : bit_or (a * 2 ^ n) (b / 2) ≡ a * 2 ^ n + b / 2 =
      or-shift n a (b / 2) (omega arith) in
    rw (q, or-step (a * 2 ^ n * 2) b, even-div (a * 2 ^ n), rest) (halves (a * 2 ^ n) b)
