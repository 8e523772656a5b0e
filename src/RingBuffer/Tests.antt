-- ===== src/RingBuffer/Tests.antt =====
-- Runs of the ring buffer.
use usbqemu_wheel.Common.{ℕ, ◌≡◌, false, refl, some, List, [], ◌∷◌, ◌++◌, take, drop, arith}
use usbqemu_wheel.RingBuffer.{RingBuffer, create, write, read, size}
use usbqemu_wheel.RingBuffer.Bounds.{IsValid}
use usbqemu_wheel.RingBuffer.Contents.{contents}
use usbqemu_wheel.RingBuffer.Write.{write_lem}
use usbqemu_wheel.RingBuffer.Read.{read_lem}
use usbqemu_wheel.RingBuffer.Full.{write_full}

abbrev four : RingBuffer
unfolding create
four = create 4

-- Three bytes round the end of the array.
abbrev wrapped : RingBuffer
wrapped = record { begin = 3; end = 2; capacity = 4; bytes = 5 ∷ 6 ∷ 7 ∷ 8 ∷ []; overrun = false }

three_bytes_run : read wrapped 9 ≡ some (8 ∷ 5 ∷ 6 ∷ [], record wrapped { begin = 2 })
unfolding read
three_bytes_run = refl

append_run :
    write four (1 ∷ 2 ∷ 3 ∷ []) ≡ some (record four { bytes = 1 ∷ 2 ∷ 3 ∷ 0 ∷ []; end = 3 })
unfolding write four
append_run = refl

-- Four bytes full_run the array, and leave it looking empty.
full_run : write four (1 ∷ 2 ∷ 3 ∷ 4 ∷ []) ≡ some (record four { bytes = 1 ∷ 2 ∷ 3 ∷ 4 ∷ [] })
unfolding write four
full_run = refl

four-IsValid : IsValid four
unfolding four
four-IsValid = record { storage = refl; begin_in = omega arith; end_in = omega arith }

wrapped-IsValid : IsValid wrapped
wrapped-IsValid = record { storage = refl; begin_in = omega arith; end_in = omega arith }

abbrev three_bytes : List ℕ
three_bytes = 1 ∷ 2 ∷ 3 ∷ []

abbrev four_bytes : List ℕ
four_bytes = 1 ∷ 2 ∷ 3 ∷ 4 ∷ []

write_example :
    (r' : RingBuffer) × (write four three_bytes ≡ some r')
    × IsValid r'
    × (contents r' ≡ contents four ++ three_bytes)
unfolding four size
write_example = write_lem four three_bytes four-IsValid (omega arith)

read_example :
    (out : List ℕ) × (r' : RingBuffer) × (read wrapped 2 ≡ some (out, r'))
    × IsValid r'
    × (out ≡ take 2 (contents wrapped))
    × (contents r' ≡ drop 2 (contents wrapped))
read_example = read_lem wrapped 2 wrapped-IsValid

full_example : (r' : RingBuffer) × (write four four_bytes ≡ some r') × (size r' ≡ 0)
unfolding four size
full_example = write_full four four_bytes four-IsValid refl (omega arith) refl
