-- ===== src/Common/Bytes.antt =====
-- Lists of bytes, one element at a time.
use Prim.{Unit, tt}
use Prim.Native.Nat.{ℕ, zero, suc, ◌+◌, ◌/◌, ◌≤◌, ◌<◌}
use mathlib.Core.Path.{◌≡◌, refl, ap, sym, ◌∙◌}
use mathlib.Core.Logic.{◌≢◌, ◌⊎◌, inl, inr}
use mathlib.Core.List.{List, [], ◌∷◌, ◌++◌}
use native.Mathlib.Omega.{arith}
use usbqemu_wheel.Common.Tests.{◌==◌, if◌then◌else◌, ==_iff, Bool-cases}
use mathlib.Core.Bool.{false}
use usbqemu_wheel.Common.Lists.{
  length, get_or, set, write_at, length-set, get_or-set_self, get_or-set_ne,
}
use usbqemu_wheel.Common.Words.{le_bytes}

abbrev pub AreBytes : List ℕ → Type 0
AreBytes [] = Unit
AreBytes (x ∷ xs) = (x < 256) × AreBytes xs

pub get_or-AreBytes : (xs : List ℕ) (i : ℕ) → AreBytes xs → get_or xs i 0 < 256
get_or-AreBytes [] i v = omega arith
get_or-AreBytes (x ∷ xs) zero v = v.0
get_or-AreBytes (x ∷ xs) (suc i) v = get_or-AreBytes xs i v.1

pub append-AreBytes : (xs ys : List ℕ) → AreBytes xs → AreBytes ys → AreBytes (xs ++ ys)
append-AreBytes [] ys v w = w
append-AreBytes (x ∷ xs) ys v w = (v.0, append-AreBytes xs ys v.1 w)

pub le_bytes-AreBytes : (n x : ℕ) → AreBytes (le_bytes n x)
le_bytes-AreBytes zero x = tt
le_bytes-AreBytes (suc n) x = (omega arith, le_bytes-AreBytes n (x / 256))

set-AreBytes : (xs : List ℕ) (i v : ℕ) → AreBytes xs → v < 256 → AreBytes (set xs i v)
set-AreBytes [] i v a h = tt
set-AreBytes (x ∷ xs) zero v a h = (h, a.1)
set-AreBytes (x ∷ xs) (suc i) v a h = (a.0, set-AreBytes xs i v a.1 h)

pub write_at-AreBytes :
    (dst : List ℕ) (i : ℕ) (src : List ℕ)
    → AreBytes dst
    → AreBytes src
    → AreBytes (write_at dst i src)
write_at-AreBytes dst i [] a b = a
write_at-AreBytes dst i (x ∷ src) a b =
    write_at-AreBytes (set dst i x) (suc i) src (set-AreBytes dst i x a b.0) b.1

-- Elements beside a write, and in it.
pub get_or-write_at_out :
    (dst : List ℕ) (i : ℕ) (src : List ℕ) (j : ℕ)
    → (j < i) ⊎ (i + length src ≤ j)
    → get_or (write_at dst i src) j 0 ≡ get_or dst j 0
get_or-write_at_out dst i [] j h = refl
get_or-write_at_out dst i (x ∷ src) j h =
    get_or-write_at_out (set dst i x) (suc i) src j (further h)
    ∙ get_or-set_ne dst i j x 0 (λ e. absurd (omega (arith, e, h)))
  where
    further : (j < i) ⊎ (i + length (x ∷ src) ≤ j) → (j < suc i) ⊎ (suc i + length src ≤ j)
    further (inl l) = inl (omega arith)
    further (inr l) = inr (omega arith)

pub get_or-write_at_in :
    (dst : List ℕ) (i : ℕ) (src : List ℕ) (k : ℕ)
    → k < length src
    → i + length src ≤ length dst
    → get_or (write_at dst i src) (i + k) 0 ≡ get_or src k 0
get_or-write_at_in dst i [] k h g = absurd (omega arith)
get_or-write_at_in dst i (x ∷ src) zero h g =
    get_or-write_at_out (set dst i x) (suc i) src (i + 0) (inl (omega arith))
    ∙ ap (λ j. get_or (set dst i x) j 0) {y = i} (omega arith)
    ∙ get_or-set_self dst i x 0 (omega arith)
get_or-write_at_in dst i (x ∷ src) (suc k) h g =
    ap (λ j. get_or (write_at (set dst i x) (suc i) src) j 0) {y = suc i + k} (omega arith)
    ∙ get_or-write_at_in (set dst i x) (suc i) src k (omega arith)
        (omega (arith, length-set dst i x))

-- How many of the first `n` values are not `v`.
pub others : ℕ → (ℕ → ℕ) → ℕ → ℕ
others v g zero = 0
others v g (suc n) = others v g n + (if g n == v then 0 else 1)

pub others-same :
    (v : ℕ) (g g' : ℕ → ℕ) (n : ℕ) → ((j : ℕ) → j < n → g' j ≡ g j) → others v g' n ≡ others v g n
unfolding others
others-same v g g' zero h = refl
others-same v g g' (suc n) h =
    rw (h n (omega arith), others-same v g g' n (λ j l. h j (omega arith))) refl

pub others-one_less :
    (v : ℕ) (g g' : ℕ → ℕ) (a n : ℕ)
    → a < n
    → g a ≢ v
    → g' a ≡ v
    → ((j : ℕ) → j ≢ a → g' j ≡ g j)
    → others v g' n + 1 ≡ others v g n
unfolding others
others-one_less v g g' a zero l p q h = absurd (omega arith)
others-one_less v g g' a (suc n) l p q h = elim (Bool-cases (a == n)) [
  | inl e ↦ here ((==_iff a n).0 e)
  | inr e ↦ below (different e) (others-one_less v g g' a n (smaller (different e)) p q h)
]
  where
    different : (a == n) ≡ false → a ≢ n
    different e = ground (arith, e)

    smaller : a ≢ n → a < n
    smaller d = omega arith

    here : a ≡ n → others v g' (suc n) + 1 ≡ others v g (suc n)
    here e = ground (
      arith,
      others-same v g g' n (λ j m. h j (λ f. absurd (omega (arith, e, f, m)))),
      sym (ap g' e) ∙ q,
      λ (f : g n ≡ v). p (ap g e ∙ f),
    )

    below : a ≢ n → others v g' n + 1 ≡ others v g n → others v g' (suc n) + 1 ≡ others v g (suc n)
    below d less = rw (h n (λ e. d (sym e))) (omega (arith, less))

pub others_le : (v : ℕ) (g : ℕ → ℕ) (n : ℕ) → others v g n ≤ n
unfolding others
others_le v g zero = omega arith
others_le v g (suc n) = ground (arith, others_le v g n)
