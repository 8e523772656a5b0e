-- ===== src/RingBuffer/Write.antt =====
-- `write`: the bytes go behind what the ring holds, while they leave room.
use usbqemu_wheel.Common.{
  ℕ, zero, suc, ◌+◌, ◌-◌, ◌%◌, ◌≤◌, ◌<◌, min, ◌≡◌, refl, sym, ap, ◌∙◌, some, List, [], ◌∷◌, ◌++◌,
  arith, length, take, drop, write_at, length-take, length-drop, length-append, take-append-drop,
  length-write_at,
}
use mathlib.Core.Path.{subst}
use mathlib.Core.List.{append_assoc, append-nil}
use usbqemu_wheel.RingBuffer.{RingBuffer, size, advance_write, write_chunk, write_loop, write}
use usbqemu_wheel.RingBuffer.Bounds.{IsValid, write_chunk-IsValid}
use usbqemu_wheel.RingBuffer.Contents.{segment, contents, end_at, mod_cases, segment-write_at}

-- What a write leaves behind: a valid buffer that holds `src` after what it held.
pub record Wrote (r : RingBuffer) (src : List ℕ) (r' : RingBuffer) : Type 0 where
  pub valid : IsValid r'
  pub holds : contents r' ≡ contents r ++ src
  pub grown : size r' ≡ size r + length src
  pub same : r'.capacity ≡ r.capacity

-- With room for them, `n` bytes move the end and nothing else.
advance_write_lem :
    {r : RingBuffer} (n : ℕ)
    → IsValid r
    → r.end + n ≤ r.capacity
    → size r + n < r.capacity
    → (advance_write r n ≡ record r { end = (r.end + n) % r.capacity })
      × (size (advance_write r n) ≡ size r + n)
unfolding advance_write size
advance_write_lem {r} n v inside room = ground (arith, mod_cases r.capacity (r.end + n))

pub write_chunk-Wrote :
    {r : RingBuffer} (src : List ℕ)
    → IsValid r
    → r.end + length src ≤ r.capacity
    → size r + length src < r.capacity
    → Wrote r src (write_chunk r src)
unfolding write_chunk size
write_chunk-Wrote {r} src v inside room = record {
  valid = write_chunk-IsValid src v;
  holds =
      ap contents moved.0
      ∙ ap (segment r.capacity filled.bytes r.begin) (sym (ap size moved.0) ∙ moved.1)
      ∙ segment-write_at r.capacity src r.bytes (size r) r.begin r.end (omega (arith, v.storage))
          v.begin_in (omega arith) inside (end_at v (omega arith));
  grown = moved.1;
  same = ap (λ (x : RingBuffer). x.capacity) moved.0;
}
  where
    filled : RingBuffer
    filled = record r { bytes = write_at r.bytes r.end src }

    filled-IsValid : IsValid filled
    filled-IsValid = record {
      storage = omega (arith, length-write_at src r.bytes r.end);
      begin_in = v.begin_in;
      end_in = v.end_in;
    }

    moved :
        (advance_write filled (length src)
          ≡ record filled { end = (r.end + length src) % r.capacity })
        × (size (advance_write filled (length src)) ≡ size r + length src)
    moved = advance_write_lem {r = filled} (length src) filled-IsValid inside room

Wrote-trans :
    {r r' r'' : RingBuffer} (xs ys : List ℕ)
    → Wrote r xs r'
    → Wrote r' ys r''
    → Wrote r (xs ++ ys) r''
Wrote-trans {r} xs ys a b = record {
  valid = b.valid;
  holds = b.holds ∙ ap (λ l. l ++ ys) a.holds ∙ append_assoc (contents r) xs ys;
  grown = omega (arith, a.grown, b.grown, length-append xs ys);
  same = b.same ∙ a.same;
}

write_loop-Wrote :
    (f : ℕ) (r : RingBuffer) (src : List ℕ)
    → length src < f
    → IsValid r
    → size r + length src < r.capacity
    → (r' : RingBuffer) × (write_loop f r src ≡ some r') × Wrote r src r'
unfolding write_loop
write_loop-Wrote zero r src enough v room = absurd (omega arith)
write_loop-Wrote (suc f) r [] enough v room =
    (r, refl, record { valid = v; holds = sym (append-nil _); grown = omega arith; same = refl })
write_loop-Wrote (suc f) r (x ∷ xs) enough v room =
    let n = min (length (x ∷ xs)) (r.capacity - r.end) in
    let src = x ∷ xs in
    let first =
      write_chunk-Wrote (take n src) v (omega (arith, length-take n src))
        (omega (arith, length-take n src)) in
    let (r', done, wrote) =
      write_loop-Wrote f (write_chunk r (take n src)) (drop n src)
        (omega (arith, length-drop n src)) first.valid
        (omega (arith, length-take n src, length-drop n src, first.grown, first.same)) in
    (
      r',
      done,
      subst (λ l. Wrote r l r') (take-append-drop n src)
          (Wrote-trans (take n src) (drop n src) first wrote),
    )

-- A write to a valid ring that leaves at least one byte of the capacity free ends, keeps the
-- buffer valid, and puts exactly the written bytes behind the ones that were there.
pub write_lem :
    (r : RingBuffer) (src : List ℕ)
    → IsValid r
    → size r + length src < r.capacity
    → (r' : RingBuffer) × (write r src ≡ some r') × IsValid r' × (contents r' ≡ contents r ++ src)
unfolding write
write_lem r src v room =
    let (r', done, wrote) = write_loop-Wrote (suc (length src)) r src (omega arith) v room in
    (r', done, wrote.valid, wrote.holds)
