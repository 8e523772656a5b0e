-- ===== src/RingBuffer/Contents.antt =====
-- What a ring buffer holds, oldest byte first, and what `write` and `read` do to it.
use Prim.Native.Nat.add
use mathlib.Core.Path.{ap₂}
use mathlib.Core.List.{append_assoc, append-nil}
use native.Mathlib.Nat.{mod-eq_of_lt, mod-eq-sub-mod, mod-add-mod, add-zero}
use native.Mathlib.Numerals.{add-one}
use native.Mathlib.Decide.{dec_lt}
use usbqemu_wheel.Common.{
  ℕ, zero, suc, ◌+◌, ◌-◌, ◌%◌, ◌≤◌, ◌<◌, ◌≡◌, refl, ap, ◌∙◌, ◌≢◌, ◌⊎◌, inl, inr, List, [], ◌∷◌,
  ◌++◌, arith, length, drop-get_or, get_or, set, take, drop, write_at, length-set, get_or-set_self,
  get_or-set_ne,
}
use usbqemu_wheel.RingBuffer.{RingBuffer, size}
use usbqemu_wheel.RingBuffer.Bounds.{IsValid}

module _ (cap : ℕ) where
  -- the index after `h`, going round
  abbrev pub next : ℕ → ℕ
  next h = (h + 1) % cap

  -- the `n` bytes from index `h` on
  abbrev pub segment : List ℕ → ℕ → ℕ → List ℕ
  segment buf h zero = []
  segment buf h (suc n) = get_or buf h 0 ∷ segment buf (next h) n

  next-add : (n h : ℕ) → (h + suc n) % cap ≡ (next h + n) % cap
  next-add n h = rw mod-add-mod (ap (λ k. k % cap) (omega arith))

  pub segment-add :
      (buf : List ℕ) (n m h : ℕ)
      → h < cap
      → segment buf h (n + m) ≡ segment buf h n ++ segment buf ((h + n) % cap) m
  segment-add buf zero m h lt = ground (arith, mod-eq_of_lt {n = h} {m = cap} lt)
  segment-add buf (suc n) m h lt =
      rw (add.suc n m, next-add n h)
        (ap (λ l. get_or buf h 0 ∷ l) (segment-add buf n m (next h) (omega arith)))

  segment-set :
      (buf : List ℕ) (x n h i : ℕ)
      → h < cap
      → ((k : ℕ) → k < n → (h + k) % cap ≢ i)
      → segment (set buf i x) h n ≡ segment buf h n
  segment-set buf x zero h i lh far = refl
  segment-set buf x (suc n) h i lh far =
      ap₂ ◌∷◌
        (get_or-set_ne buf i h x 0
          (λ e. far 0 (omega arith) (ground (arith, mod-eq_of_lt {n = h} {m = cap} lh))))
        (segment-set buf x n (next h) i (omega arith)
          (λ k lt e. far (suc k) (omega arith) (next-add k h ∙ e)))

  -- A position less than one round too far is taken back by one round.
  pub mod_cases :
      (i : ℕ) → i < cap + cap → (i < cap) × (i % cap ≡ i) ⊎ (cap ≤ i) × (i % cap ≡ i - cap)
  mod_cases i lt = elim (dec_lt i cap) [
    | yes p ↦ inl (p, mod-eq_of_lt p)
    | no p ↦ inr (
      omega arith,
      omega (
        arith,
        mod-eq-sub-mod {n = i} {m = cap} (omega arith),
        mod-eq_of_lt {n = i - cap} {m = cap} (omega arith),
      ),
    )
  ]

  -- Fewer than `cap` steps do not come back.
  apart : (h n k : ℕ) → h < cap → n < cap → k < n → (h + k) % cap ≢ (h + n) % cap
  apart h n k lh ln lk =
      omega (arith, mod_cases (h + k) (omega arith), mod_cases (h + n) (omega arith))

  -- A byte written just behind a segment extends it.
  segment-push :
      (buf : List ℕ) (x n h : ℕ)
      → cap ≤ length buf
      → h < cap
      → n < cap
      → segment (set buf ((h + n) % cap) x) h (n + 1) ≡ segment buf h n ++ (x ∷ [])
  segment-push buf x n h room lh ln = rw (
    segment-add (set buf ((h + n) % cap) x) n 1 h lh,
    segment-set buf x n h ((h + n) % cap) lh (λ k lt. apart h n k lh ln lt),
    get_or-set_self buf ((h + n) % cap) x 0 (omega arith),
  )

  pub segment-write_at :
      (src buf : List ℕ) (n h i : ℕ)
      → cap ≤ length buf
      → h < cap
      → n + length src ≤ cap
      → i + length src ≤ cap
      → i ≡ (h + n) % cap
      → segment (write_at buf i src) h (n + length src) ≡ segment buf h n ++ src
  segment-write_at [] buf n h i room lh fits inside e = rw (add-zero, append-nil)
  segment-write_at (x ∷ []) buf n h i room lh fits inside e =
      rw e (segment-push buf x n h room lh (omega arith))
  segment-write_at (x ∷ y ∷ src) buf n h i room lh fits inside e =
      ap (segment (write_at buf i (x ∷ y ∷ src)) h) (omega arith)
      ∙ segment-write_at (y ∷ src) (set buf i x) (n + 1) h (suc i)
          (omega (arith, length-set buf i x)) lh (omega arith) (omega arith) step
      ∙ ap (λ l. l ++ (y ∷ src)) pushed
      ∙ append_assoc (segment buf h n) (x ∷ []) (y ∷ src)
    where
      step : suc i ≡ (h + (n + 1)) % cap
      step = omega (arith, mod_cases (h + n) (omega arith), mod_cases (h + (n + 1)) (omega arith))

      pushed : segment (set buf i x) h (n + 1) ≡ segment buf h n ++ (x ∷ [])
      pushed = rw e (segment-push buf x n h room lh (omega arith))

  -- Up to the array's end a segment is a slice.
  pub segment-slice :
      (buf : List ℕ) (h n : ℕ)
      → cap ≤ length buf
      → h + n ≤ cap
      → segment buf h n ≡ take n (drop h buf)
  segment-slice buf h zero room inside = refl
  segment-slice buf h (suc zero) room inside = rw (drop-get_or h buf 0 (omega arith))
  segment-slice buf h (suc (suc n)) room inside = rw (drop-get_or h buf 0 (omega arith)) (
      ap (λ l. get_or buf h 0 ∷ l)
        (rw (mod-eq_of_lt {n = h + 1} {m = cap} (omega arith), add-one)
          (segment-slice buf (suc h) (suc n) room (omega arith))))

  pub length-segment : (buf : List ℕ) (h n : ℕ) → length (segment buf h n) ≡ n
  length-segment buf h zero = refl
  length-segment buf h (suc n) = ap suc (length-segment buf (next h) n)

abbrev pub contents : RingBuffer → List ℕ
contents r = segment r.capacity r.bytes r.begin (size r)

-- Below the capacity the end is `size` bytes behind the begin.
pub end_at :
    {r : RingBuffer} → IsValid r → size r < r.capacity → r.end ≡ (r.begin + size r) % r.capacity
unfolding size
end_at {r} v room = ground (
  arith,
  mod_cases r.capacity (r.begin + (r.end - r.begin)),
  mod_cases r.capacity (r.begin + (r.capacity - r.begin + r.end)),
  mod-eq_of_lt {n = r.begin} {m = r.capacity},
)
