-- ===== src/RingBuffer/Full.antt =====
-- A write that fills the ring.
use usbqemu_wheel.Common.{
  ℕ, zero, suc, ◌+◌, ◌-◌, ◌≤◌, ◌<◌, min, ◌≡◌, ap, ◌∙◌, false, some, List, [], ◌∷◌, arith, length,
  take, drop, take-length, drop-length, length-take, length-drop,
}
use mathlib.Core.Path.{ap₂}
use native.Mathlib.Decide.{dec_le}
use usbqemu_wheel.RingBuffer.{RingBuffer, size, advance_write, write_chunk, write_loop, write}
use usbqemu_wheel.RingBuffer.Bounds.{IsValid}
use usbqemu_wheel.RingBuffer.Contents.{mod_cases}
use usbqemu_wheel.RingBuffer.Write.{write_chunk-Wrote}

-- The round that takes the last free byte makes the end meet the begin.
write_chunk-fills :
    {r : RingBuffer} (src : List ℕ)
    → IsValid r
    → r.overrun ≡ false
    → r.end + length src ≤ r.capacity
    → 0 < length src
    → size r + length src ≡ r.capacity
    → size (write_chunk r src) ≡ 0
unfolding write_chunk advance_write size
write_chunk-fills {r} src v kept inside some_src full =
    ground (arith, mod_cases r.capacity (r.end + length src))

write_chunk-overrun :
    {r : RingBuffer} (src : List ℕ)
    → IsValid r
    → r.overrun ≡ false
    → r.end + length src ≤ r.capacity
    → size r + length src ≤ r.capacity
    → (write_chunk r src).overrun ≡ false
unfolding write_chunk advance_write size
write_chunk-overrun {r} src v kept inside room = ground arith

write_loop-fills :
    (f : ℕ) (r : RingBuffer) (src : List ℕ)
    → length src < f
    → IsValid r
    → r.overrun ≡ false
    → 0 < length src
    → size r + length src ≡ r.capacity
    → (r' : RingBuffer) × (write_loop f r src ≡ some r') × (size r' ≡ 0)
unfolding write_loop
write_loop-fills zero r src enough v kept some_src full = absurd (omega arith)
write_loop-fills (suc f) r [] enough v kept some_src full = absurd (omega arith)
write_loop-fills (suc zero) r (x ∷ xs) enough v kept some_src full = absurd (omega arith)
write_loop-fills (suc (suc f)) r (x ∷ xs) enough v kept some_src full =
    elim (dec_le (length (x ∷ xs)) (r.capacity - r.end)) [
      | yes last ↦
          let all : min (length src) (r.capacity - r.end) ≡ length src = omega arith in
          (
            write_chunk r src,
            ap (λ k. write_loop (suc f) (write_chunk r (take k src)) (drop k src)) all
                ∙ ap₂ (λ a b. write_loop (suc f) (write_chunk r a) b) (take-length src)
                    (drop-length src),
            write_chunk-fills src v kept (omega arith) some_src full,
          )
      | no more ↦
          let n = min (length src) (r.capacity - r.end) in
          let first =
            write_chunk-Wrote (take n src) v (omega (arith, length-take n src))
              (omega (arith, length-take n src)) in
          write_loop-fills (suc f) (write_chunk r (take n src)) (drop n src)
            (omega (arith, length-drop n src)) first.valid
            (write_chunk-overrun (take n src) v kept (omega (arith, length-take n src))
              (omega (arith, length-take n src)))
            (omega (arith, length-drop n src))
            (omega (arith, length-drop n src, length-take n src, first.grown, first.same))
    ]
  where
    src : List ℕ
    src = x ∷ xs

-- A write that takes exactly the free bytes of a valid ring that has not run over ends with a
-- ring that reports no byte at all.
pub write_full :
    (r : RingBuffer) (src : List ℕ)
    → IsValid r
    → r.overrun ≡ false
    → 0 < length src
    → size r + length src ≡ r.capacity
    → (r' : RingBuffer) × (write r src ≡ some r') × (size r' ≡ 0)
unfolding write
write_full r src v kept some_src full =
    write_loop-fills (suc (length src)) r src (omega arith) v kept some_src full
