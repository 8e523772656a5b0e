-- ===== src/Common/Slices.antt =====
-- `memcpy` as a slice put into a buffer, and slices of slices.
use Prim.Native.Nat.{ℕ, zero, suc, ◌+◌, ◌≤◌}
use Prim.Native.Nat.add
use mathlib.Core.Path.{◌≡◌, refl, ap, sym, ◌∙◌}
use mathlib.Core.List.{List, [], ◌∷◌, ◌++◌}
use native.Mathlib.Omega.{arith}
use usbqemu_wheel.Common.Lists.{length, length-drop, set, take, drop, write_at}

module _ {ℓ} {A : Type ℓ} where
  pub write_at-suc :
      (src dst : List A) (y : A) (i : ℕ) → write_at (y ∷ dst) (suc i) src ≡ y ∷ write_at dst i src
  write_at-suc [] dst y i = refl
  write_at-suc (x ∷ src) dst y i = write_at-suc src (set dst i x) y (suc i)

  -- What is written at the front stands there, before the rest of the buffer.
  pub write_at-zero :
      (dst src : List A)
      → length src ≤ length dst
      → write_at dst 0 src ≡ src ++ drop (length src) dst
  write_at-zero dst [] h = refl
  write_at-zero [] (x ∷ src) h = absurd (omega arith)
  write_at-zero (y ∷ dst) (x ∷ src) h =
      write_at-suc src dst x 0 ∙ ap (λ l. x ∷ l) (write_at-zero dst src (omega arith))

  -- A buffer of the right length is overwritten whole.
  pub write_at-whole : (dst src : List A) → length src ≡ length dst → write_at dst 0 src ≡ src
  write_at-whole [] [] h = refl
  write_at-whole [] (x ∷ src) h = absurd (omega arith)
  write_at-whole (y ∷ dst) [] h = absurd (omega arith)
  write_at-whole (y ∷ dst) (x ∷ src) h =
      write_at-suc src dst x 0 ∙ ap (λ l. x ∷ l) (write_at-whole dst src (omega arith))

  -- The slice that was written is read back.
  pub slice-write_at :
      (dst src : List A) (i : ℕ)
      → i + length src ≤ length dst
      → take (length src) (drop i (write_at dst i src)) ≡ src
  slice-write_at dst src zero h = rw (write_at-zero dst src (omega arith)) (front src _)
    where
      front : (xs ys : List A) → take (length xs) (xs ++ ys) ≡ xs
      front [] ys = refl
      front (x ∷ xs) ys = ap (λ l. x ∷ l) (front xs ys)
  slice-write_at [] src (suc i) h = absurd (omega arith)
  slice-write_at (y ∷ dst) src (suc i) h =
      rw (write_at-suc src dst y i) (slice-write_at dst src i (omega arith))

  -- Two writes, one right behind the other, are one.
  pub write_at-append :
      (dst xs ys : List A) (i : ℕ)
      → write_at (write_at dst i xs) (i + length xs) ys ≡ write_at dst i (xs ++ ys)
  write_at-append dst [] ys i = ap (λ k. write_at dst k ys) (omega arith)
  write_at-append dst (x ∷ xs) ys i =
      ap (λ k. write_at (write_at (set dst i x) (suc i) xs) k ys) (omega arith)
      ∙ write_at-append (set dst i x) xs ys (suc i)

  pub take-nil : (n : ℕ) → ◌≡◌ {A = List A} (take n []) []
  take-nil zero = refl
  take-nil (suc n) = refl

  pub drop-nil : (n : ℕ) → ◌≡◌ {A = List A} (drop n []) []
  drop-nil zero = refl
  drop-nil (suc n) = refl

  -- A slice and the next one.
  pub take-add : (n m : ℕ) (xs : List A) → take (n + m) xs ≡ take n xs ++ take m (drop n xs)
  take-add zero m xs = ap (λ k. take k xs) (omega arith)
  take-add (suc n) m [] = take-nil (suc n + m) ∙ sym (take-nil m)
  take-add (suc n) m (x ∷ xs) = rw (add.suc n m) (ap (λ l. x ∷ l) (take-add n m xs))

  pub drop-drop : (n m : ℕ) (xs : List A) → drop m (drop n xs) ≡ drop (n + m) xs
  drop-drop zero m xs = ap (λ k. drop k xs) (omega arith)
  drop-drop (suc n) m [] = drop-nil m ∙ sym (drop-nil (suc n + m))
  drop-drop (suc n) m (x ∷ xs) = rw (add.suc n m) (drop-drop n m xs)

  pub write_at-nil : (src : List A) (i : ℕ) → write_at [] i src ≡ []
  write_at-nil [] i = refl
  write_at-nil (x ∷ src) i = write_at-nil src (suc i)

  -- A write behind the first elements, seen without them.
  pub drop-write_at :
      (k j : ℕ) (dst src : List A) → drop k (write_at dst (k + j) src) ≡ write_at (drop k dst) j src
  drop-write_at zero j dst src = ap (λ i. write_at dst i src) (omega arith)
  drop-write_at (suc k) j [] src = rw (write_at-nil src (suc k + j), write_at-nil src j) refl
  drop-write_at (suc k) j (y ∷ dst) src =
      ap (λ i. drop (suc k) (write_at (y ∷ dst) i src)) {y = suc (k + j)} (omega arith)
      ∙ ap (drop (suc k)) (write_at-suc src dst y (k + j))
      ∙ drop-write_at k j dst src

  -- A slice of the first of two lists.
  pub slice-append :
      (n m : ℕ) (xs ys : List A)
      → n + m ≤ length xs
      → take m (drop n (xs ++ ys)) ≡ take m (drop n xs)
  slice-append zero zero xs ys h = refl
  slice-append zero (suc m) [] ys h = absurd (omega arith)
  slice-append zero (suc m) (x ∷ xs) ys h =
      ap (λ l. x ∷ l) (slice-append zero m xs ys (omega arith))
  slice-append (suc n) m [] ys h = absurd (omega arith)
  slice-append (suc n) m (x ∷ xs) ys h = slice-append n m xs ys (omega arith)

  -- A slice of a list that is cut behind it.
  pub slice-take :
      (n m p : ℕ) (xs : List A) → n + m ≤ p → take m (drop n (take p xs)) ≡ take m (drop n xs)
  slice-take zero zero p xs h = refl
  slice-take zero (suc m) zero xs h = absurd (omega arith)
  slice-take zero (suc m) (suc p) [] h = refl
  slice-take zero (suc m) (suc p) (x ∷ xs) h =
      ap (λ l. x ∷ l) (slice-take zero m p xs (omega arith))
  slice-take (suc n) m zero xs h = absurd (omega arith)
  slice-take (suc n) m (suc p) [] h = refl
  slice-take (suc n) m (suc p) (x ∷ xs) h = slice-take n m p xs (omega arith)

  -- A part of what was written is read back.
  pub part-write_at :
      (dst src : List A) (i n m : ℕ)
      → i + length src ≤ length dst
      → n + m ≤ length src
      → take m (drop (i + n) (write_at dst i src)) ≡ take m (drop n src)
  part-write_at dst src i n m h g =
      ap (take m) (sym (drop-drop i n (write_at dst i src)))
      ∙ ap (λ j. take m (drop n (drop i (write_at dst j src)))) {y = i + 0} (omega arith)
      ∙ ap (λ l. take m (drop n l)) (drop-write_at i 0 dst src)
      ∙ ap (λ l. take m (drop n l))
          (write_at-zero (drop i dst) src (omega (arith, length-drop i dst)))
      ∙ slice-append n m src (drop (length src) (drop i dst)) g
