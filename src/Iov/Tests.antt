-- ===== src/Iov/Tests.antt =====
-- Runs of the vectors.
use usbqemu_wheel.Common.{ℕ, ◌-◌, ◌≡◌, refl, min, none, some, List, [], ◌∷◌, length, arith}
use usbqemu_wheel.Iov.{
  iov_from_buf, iov_to_buf, iov_memset, iov_copy, iov_discard_back, iov_size, qemu_iovec_init,
  qemu_iovec_concat_iov, qemu_iovec_compare, qemu_iovec_discard_back,
}
use usbqemu_wheel.Iov.Laws.{Copied, iov_from_buf_lem}
use usbqemu_wheel.Iov.Read.{iov_from_buf-iov_to_buf}

abbrev buffers : List (List ℕ)
buffers = (1 ∷ 2 ∷ []) ∷ [] ∷ (3 ∷ 4 ∷ 5 ∷ []) ∷ []

copied_over :
    iov_from_buf buffers 1 (7 ∷ 8 ∷ []) 2 ≡ some ((1 ∷ 7 ∷ []) ∷ [] ∷ (8 ∷ 4 ∷ 5 ∷ []) ∷ [], 2)
unfolding iov_from_buf
copied_over = refl

-- An offset behind the vector.
offset_behind : iov_from_buf buffers 6 (7 ∷ []) 1 ≡ none
unfolding iov_from_buf
offset_behind = refl

filled : iov_memset buffers 4 9 5 ≡ some ((1 ∷ 2 ∷ []) ∷ [] ∷ (3 ∷ 4 ∷ 9 ∷ []) ∷ [], 1)
unfolding iov_memset
filled = refl

part_copied : iov_copy 4 buffers 1 2 ≡ some ((2 ∷ []) ∷ (3 ∷ []) ∷ [])
unfolding iov_copy
part_copied = refl

cut_back : iov_discard_back buffers 3 4 ≡ ((1 ∷ []) ∷ [] ∷ (3 ∷ 4 ∷ 5 ∷ []) ∷ [], 1, 4)
unfolding iov_discard_back
cut_back = refl

joined :
    qemu_iovec_concat_iov (qemu_iovec_init 1) buffers 1 3
    ≡ some (record { iov = (2 ∷ []) ∷ (3 ∷ 4 ∷ []) ∷ []; nalloc = some 3; size = 3 }, 3)
unfolding qemu_iovec_concat_iov qemu_iovec_init
joined = refl

first_difference :
    qemu_iovec_compare buffers ((1 ∷ 2 ∷ []) ∷ [] ∷ (3 ∷ 0 ∷ 5 ∷ []) ∷ []) 0 ≡ some (some 3)
unfolding qemu_iovec_compare
first_difference = refl

cut_vector :
    qemu_iovec_discard_back (record { iov = buffers; nalloc = none; size = 5 }) 1
    ≡ some (record { iov = (1 ∷ 2 ∷ []) ∷ [] ∷ (3 ∷ 4 ∷ []) ∷ []; nalloc = none; size = 4 })
unfolding qemu_iovec_discard_back
cut_vector = refl

abbrev letters : List ℕ
letters = 7 ∷ 8 ∷ 9 ∷ []

iov_from_buf_lem_example :
    (iov' : List (List ℕ)) × (iov_from_buf buffers 3 letters (length letters)
      ≡ some (iov', min (length letters) (iov_size buffers - 3)))
    × Copied buffers 3 letters iov'
unfolding iov_size
iov_from_buf_lem_example = iov_from_buf_lem buffers 3 letters (omega arith)

iov_from_buf-iov_to_buf_example :
    (iov' : List (List ℕ)) × (iov_from_buf buffers 1 letters (length letters)
      ≡ some (iov', length letters))
    × (iov_to_buf iov' 1 (0 ∷ 0 ∷ 0 ∷ []) (length letters) ≡ some (letters, length letters))
unfolding iov_size
iov_from_buf-iov_to_buf_example =
    iov_from_buf-iov_to_buf buffers 1 letters (0 ∷ 0 ∷ 0 ∷ []) (omega arith) refl
