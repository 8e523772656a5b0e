-- ===== src/RingBuffer.antt =====
-- shared/ringbuffer.cpp and shared/ringbuffer.h: the byte ring between the audio and video sources
-- and the emulated devices. A method that changes the object returns the new object.
-- `mLastWrite` is a clock reading that no operation looks at, and is left out.
mod Tests
pub mod Bounds
pub mod Contents
pub mod Write
pub mod Read
pub mod Full
use mathlib.Core.Option
use usbqemu_wheel.Common.{
  ℕ, zero, suc, ◌+◌, ◌-◌, ◌%◌, min, Bool, true, false, ◌&&◌, ◌||◌, List, [], ◌∷◌, ◌++◌, Option,
  none, some, take, drop, ltb, leb, ◌==◌, if◌then◌else◌, length, replicate, write_at,
}

pub record RingBuffer : Type 0 where
  pub begin : ℕ
  pub end : ℕ
  pub capacity : ℕ
  pub bytes : List ℕ  -- `m_data`
  pub overrun : Bool

-- The default constructor, and the one that reserves.
pub empty : RingBuffer
empty = record { begin = 0; end = 0; capacity = 0; bytes = []; overrun = false }

-- A new array of zeros. The positions stay as they were.
pub reserve : RingBuffer → ℕ → RingBuffer
reserve r n = record r { bytes = replicate n 0; capacity = n }

pub create : ℕ → RingBuffer
unfolding empty reserve
create n = reserve empty n

pub size : RingBuffer → ℕ
size r =
    if r.begin == r.end
    then (if r.overrun then r.capacity else 0)
    else if ltb r.begin r.end
    then r.end - r.begin
    else r.capacity - r.begin + r.end

pub peek_read : RingBuffer → ℕ
peek_read r =
    if r.begin == r.end
    then (if r.overrun then r.capacity - r.begin else 0)
    else if ltb r.begin r.end
    then r.end - r.begin
    else if ltb r.begin r.capacity
    then r.capacity - r.begin
    else r.end

pub peek_write : RingBuffer → Bool → ℕ
peek_write r overwrite =
    if overwrite
    then r.capacity - r.end
    else if ltb r.end r.begin
    then r.begin - r.end
    else if ltb r.end r.capacity
    then r.capacity - r.end
    else r.begin

-- `write(size_t bytes)`: the end moves on, and pushes the begin forward where it overlaps it.
pub advance_write : RingBuffer → ℕ → RingBuffer
advance_write r n =
    if (ltb r.end r.begin && ltb r.begin (r.end + n)) || ltb (r.begin + r.capacity) (r.end + n)
    then record r {
      overrun = true;
      begin = (r.end + n) % r.capacity;
      end = (r.end + n) % r.capacity;
    }
    else record r { end = (r.end + n) % r.capacity }

-- `read(size_t bytes)` behind its assertion.
pub forward_read : RingBuffer → ℕ → RingBuffer
forward_read r n =
    if (ltb r.begin r.end && ltb r.end (r.begin + n)) || ltb (r.end + r.capacity) (r.begin + n)
    then record r { overrun = false; begin = 0; end = 0 }
    else record r { overrun = false; begin = (r.begin + n) % r.capacity }

-- `read(size_t bytes)`
pub advance_read : RingBuffer → ℕ → Option RingBuffer
unfolding size forward_read
advance_read r n = if leb n (size r) then some (forward_read r n) else none

-- One round of the loop of `write(uint8_t*, size_t)`: as many bytes as fit up to the array's end.
pub write_chunk : RingBuffer → List ℕ → RingBuffer
unfolding advance_write
write_chunk r src = advance_write (record r { bytes = write_at r.bytes r.end src }) (length src)

-- `write(uint8_t* src, size_t nbytes)`, where `src` holds the `nbytes` bytes. `none` is fuel run
-- out: with no capacity the source's loop does not end.
pub write_loop : ℕ → RingBuffer → List ℕ → Option RingBuffer
write_loop zero r src = none
write_loop (suc f) r [] = some r
write_loop (suc f) r (x ∷ xs) =
    let src = x ∷ xs in
    let n = min (length src) (r.capacity - r.end) in
    write_loop f (write_chunk r (take n src)) (drop n src)

pub write : RingBuffer → List ℕ → Option RingBuffer
unfolding write_chunk write_loop
write r src = write_loop (suc (length src)) r src

-- One round of the loop of `read(uint8_t*, size_t)`: what it copies out, and the buffer after it.
pub read_chunk : RingBuffer → ℕ → Option (List ℕ × RingBuffer)
unfolding advance_read
read_chunk r n =
    Option.map (λ (r' : RingBuffer). (take n (drop r.begin r.bytes), r')) (advance_read r n)

-- `read(uint8_t* dst, size_t nbytes)`, with the bytes copied to `dst`; their number is its result.
pub read_loop : ℕ → RingBuffer → ℕ → Option (List ℕ × RingBuffer)
read_loop zero r to_read = none
read_loop (suc f) r to_read =
    let n = min to_read (peek_read r) in
    let more : Option (List ℕ × RingBuffer) = elim (read_chunk r n) [
      | none ↦ none
      | some (out, r') ↦
          Option.map (λ (p : List ℕ × RingBuffer). (out ++ p.0, p.1)) (read_loop f r' (to_read - n))
    ] in
    if ltb 0 to_read && ltb 0 (size r) then more else some ([], r)

pub read : RingBuffer → ℕ → Option (List ℕ × RingBuffer)
unfolding size peek_read read_chunk read_loop
read r n = read_loop (suc n) r n
