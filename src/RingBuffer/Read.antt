-- ===== src/RingBuffer/Read.antt =====
-- `read`: the oldest bytes come out, in order, and the others stay.
use mathlib.Core.Path.{ap₂}
use usbqemu_wheel.Common.{
  ℕ, zero, suc, ◌+◌, ◌-◌, ◌%◌, ◌≤◌, ◌<◌, min, ◌≡◌, refl, sym, ap, ◌∙◌, inl, inr, true, false, ◌&&◌,
  some, List, [], ◌++◌, arith, length, take, drop, ltb, leb, Bool-cases, take-append, drop-append,
  length-take, length-drop,
}
use usbqemu_wheel.RingBuffer.{
  RingBuffer, size, peek_read, forward_read, advance_read, read_chunk, read_loop, read,
}
use usbqemu_wheel.RingBuffer.Bounds.{IsValid, forward_read-IsValid, peek_read_bounds}
use usbqemu_wheel.RingBuffer.Contents.{segment, contents, mod_cases, segment-add, segment-slice}

-- What a read of `n` bytes gives, and what it leaves behind.
record Gave (r : RingBuffer) (n : ℕ) (out : List ℕ) (r' : RingBuffer) : Type 0 where
  valid : IsValid r'
  given : out ≡ take n (contents r)
  left : contents r' ≡ drop n (contents r)

forward_read_lem :
    {r : RingBuffer} (n : ℕ)
    → IsValid r
    → 0 < n
    → n ≤ peek_read r
    → (forward_read r n ≡ record r { overrun = false; begin = (r.begin + n) % r.capacity })
      × (size (forward_read r n) ≡ size r - n)
      × (r.begin + n ≤ r.capacity)
      × (n ≤ size r)
unfolding forward_read size peek_read
forward_read_lem {r} n v some_n within = ground (arith, mod_cases r.capacity (r.begin + n))

-- What one round copies out of the ring, and the ring after it.
abbrev chunk : RingBuffer → ℕ → List ℕ × RingBuffer
chunk r n = (take n (drop r.begin r.bytes), forward_read r n)

-- A round stays clear of the assertion.
read_chunk_lem : (r : RingBuffer) (n : ℕ) → n ≤ size r → read_chunk r n ≡ some (chunk r n)
unfolding read_chunk advance_read
read_chunk_lem r n within = let e : leb n (size r) ≡ true = ground (arith, within) in rw (e) refl

-- The contents are what one round copies out, and then what the buffer holds after it.
chunk-splits :
    {r : RingBuffer} (n : ℕ)
    → IsValid r
    → 0 < n
    → n ≤ peek_read r
    → contents r ≡ (chunk r n).0 ++ contents (chunk r n).1
chunk-splits {r} n v some_n within =
    let (moved, shrunk, inside, held) = forward_read_lem n v some_n within in
    ap (segment r.capacity r.bytes r.begin) (omega arith)
    ∙ segment-add r.capacity r.bytes n (size r - n) r.begin v.begin_in
    ∙ ap₂ ◌++◌ (segment-slice r.capacity r.bytes r.begin n (omega (arith, v.storage)) inside) (
        sym (
          ap contents moved
          ∙ ap (segment r.capacity r.bytes ((r.begin + n) % r.capacity))
              (sym (ap size moved) ∙ shrunk)))

chunk-length :
    {r : RingBuffer} (n : ℕ) → IsValid r → 0 < n → n ≤ peek_read r → length (chunk r n).0 ≡ n
chunk-length {r} n v some_n within = omega (
  arith,
  length-take n (drop r.begin r.bytes),
  length-drop r.begin r.bytes,
  v.storage,
  (forward_read_lem n v some_n within).2,
)

peek_read_pos : {r : RingBuffer} → IsValid r → 0 < size r → 0 < peek_read r
unfolding peek_read size
peek_read_pos v h = ground arith

-- A round and then the rest.
Gave-chunk :
    {r r' : RingBuffer} {out : List ℕ} (n m : ℕ)
    → IsValid r
    → 0 < m
    → m ≤ n
    → m ≤ peek_read r
    → Gave (chunk r m).1 (n - m) out r'
    → Gave r n ((chunk r m).0 ++ out) r'
Gave-chunk {r} n m v some_m le within g = record {
  valid = g.valid;
  given =
      ap (λ l. (chunk r m).0 ++ l)
        (g.given ∙ ap (λ k. take (n - k) (contents (chunk r m).1)) (sym long))
      ∙ sym (take-append n _ _ (omega (arith, long)))
      ∙ ap (take n) (sym whole);
  left =
      g.left
      ∙ ap (λ k. drop (n - k) (contents (chunk r m).1)) (sym long)
      ∙ sym (drop-append n (chunk r m).0 _ (omega (arith, long)))
      ∙ ap (drop n) (sym whole);
}
  where
    long : length (chunk r m).0 ≡ m
    long = chunk-length m v some_m within

    whole : contents r ≡ (chunk r m).0 ++ contents (chunk r m).1
    whole = chunk-splits m v some_m within

-- Nothing asked for, or nothing there.
Gave-none :
    (r : RingBuffer) (n : ℕ) → IsValid r → (ltb 0 n && ltb 0 (size r)) ≡ false → Gave r n [] r
Gave-none r zero v stop = record { valid = v; given = refl; left = refl }
Gave-none r (suc n) v stop = record { valid = v; given = rw bare; left = rw bare }
  where
    bare : contents r ≡ []
    bare = ap (segment r.capacity r.bytes r.begin) {y = 0} (ground (arith, stop))

read_loop-Gave :
    (f : ℕ) (r : RingBuffer) (n : ℕ)
    → n < f
    → IsValid r
    → (out : List ℕ) × (r' : RingBuffer) × (read_loop f r n ≡ some (out, r')) × Gave r n out r'
unfolding read_loop
read_loop-Gave zero r n enough v = absurd (omega arith)
read_loop-Gave (suc f) r n enough v = elim (Bool-cases (ltb 0 n && ltb 0 (size r))) [
  | inl go ↦
      let m = min n (peek_read r) in
      let some_m : 0 < m = ground (arith, peek_read_pos v) in
      let out_of = read_chunk_lem r m (omega (arith, peek_read_bounds v)) in
      let (out, r', done, gave) =
        read_loop-Gave f (chunk r m).1 (n - m) (omega arith) (forward_read-IsValid m v) in
      (
        (chunk r m).0 ++ out,
        r',
        rw (go, out_of, done),
        Gave-chunk n m v some_m (omega arith) (omega arith) gave,
      )
  | inr stop ↦ ([], r, rw stop, Gave-none r n v stop)
]

-- A read from a valid ring ends, gives the oldest n bytes or all there are, and leaves the
-- others, in order, in a valid ring.
pub read_lem :
    (r : RingBuffer) (n : ℕ)
    → IsValid r
    → (out : List ℕ) × (r' : RingBuffer) × (read r n ≡ some (out, r'))
      × IsValid r'
      × (out ≡ take n (contents r))
      × (contents r' ≡ drop n (contents r))
unfolding read
read_lem r n v =
    let (out, r', done, gave) = read_loop-Gave (suc n) r n (omega arith) v in
    (out, r', done, gave.valid, gave.given, gave.left)
