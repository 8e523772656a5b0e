-- ===== src/RingBuffer/Bounds.antt =====
-- The positions of a ring buffer stay inside its array.
use usbqemu_wheel.Common.{ℕ, ◌+◌, ◌≤◌, ◌<◌, ◌≡◌, List, arith, length, length-write_at}
use usbqemu_wheel.RingBuffer.{RingBuffer, size, peek_read, advance_write, forward_read, write_chunk}

pub record IsValid (r : RingBuffer) : Type 0 where
  pub storage : length r.bytes ≡ r.capacity
  pub begin_in : r.begin < r.capacity
  pub end_in : r.end < r.capacity

pub advance_write-IsValid : {r : RingBuffer} (n : ℕ) → IsValid r → IsValid (advance_write r n)
unfolding advance_write
advance_write-IsValid n v = ground arith

pub forward_read-IsValid : {r : RingBuffer} (n : ℕ) → IsValid r → IsValid (forward_read r n)
unfolding forward_read
forward_read-IsValid n v = ground arith

pub write_chunk-IsValid : {r : RingBuffer} (src : List ℕ) → IsValid r → IsValid (write_chunk r src)
unfolding write_chunk
write_chunk-IsValid {r} src v = advance_write-IsValid (length src) (record {
  storage = omega (arith, length-write_at src r.bytes r.end);
  begin_in = v.begin_in;
  end_in = v.end_in;
})

-- In a valid ring, what can be read at once lies inside the array, and is no more than what is
-- stored.
pub peek_read_bounds :
    {r : RingBuffer} → IsValid r → (r.begin + peek_read r ≤ r.capacity) × (peek_read r ≤ size r)
unfolding peek_read size
peek_read_bounds v = ground arith
