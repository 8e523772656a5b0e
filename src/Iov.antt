-- ===== src/Iov.antt =====
-- qemu-usb/iov.cpp: vectors of buffers. A vector is the list of its buffers, each the list of its bytes, so
-- that `iov_cnt` and `iov_len` are lengths; the buffers of one vector do not overlap. A pointer that is
-- moved forward is a buffer without its first bytes. A failed assertion is `none`.
mod Laws
mod Read
mod Discard
mod Tests
use usbqemu_wheel.Common.{
  ℕ, zero, suc, ◌+◌, ◌-◌, ◌*◌, min, Bool, true, false, not, ◌&&◌, ◌||◌, Option, none, some, List,
  [], ◌∷◌, ◌++◌, ltb, leb, ◌==◌, if◌then◌else◌, length, get_or, set, take, drop, replicate,
  write_at,
}

-- The copy of the loop of `iov_from_buf_full`: the buffers, the offset that is left and `done`.
unfoldable pub from_buf_loop : List (List ℕ) → ℕ → ℕ → List ℕ → ℕ → List (List ℕ) × ℕ × ℕ
from_buf_loop [] offset done buf bytes = ([], offset, done)
from_buf_loop (v ∷ iov) offset done buf bytes =
    let len = min (length v - offset) (bytes - done) in
    let hit = from_buf_loop iov 0 (done + len) buf bytes in
    let miss = from_buf_loop iov (offset - length v) done buf bytes in
    let copied = write_at v offset (take len (drop done buf)) in
    if not (offset == 0) || ltb done bytes
    then (if ltb offset (length v)
        then (copied ∷ hit.0, hit.1, hit.2)
        else (v ∷ miss.0, miss.1, miss.2))
    else (v ∷ iov, offset, done)

-- `assert(offset == 0)`, and the result.
unfoldable pub finish : {A : Type 0} → A → ℕ → ℕ → Option (A × ℕ)
finish a offset done = if offset == 0 then some (a, done) else none

-- `iov_from_buf_full`: the buffers, and the number of bytes that were copied.
unfoldable pub iov_from_buf : List (List ℕ) → ℕ → List ℕ → ℕ → Option (List (List ℕ) × ℕ)
unfolding from_buf_loop finish
iov_from_buf iov offset buf bytes =
    let r = from_buf_loop iov offset 0 buf bytes in finish r.0 r.1 r.2

unfoldable pub to_buf_loop : List (List ℕ) → ℕ → ℕ → List ℕ → ℕ → List ℕ × ℕ × ℕ
to_buf_loop [] offset done buf bytes = (buf, offset, done)
to_buf_loop (v ∷ iov) offset done buf bytes =
    let len = min (length v - offset) (bytes - done) in
    let hit = to_buf_loop iov 0 (done + len) (write_at buf done (take len (drop offset v))) bytes in
    let miss = to_buf_loop iov (offset - length v) done buf bytes in
    if not (offset == 0) || ltb done bytes
    then (if ltb offset (length v) then hit else miss)
    else (buf, offset, done)

-- `iov_to_buf_full`: the buffer, and the number of bytes that were copied.
unfoldable pub iov_to_buf : List (List ℕ) → ℕ → List ℕ → ℕ → Option (List ℕ × ℕ)
unfolding to_buf_loop finish
iov_to_buf iov offset buf bytes = let r = to_buf_loop iov offset 0 buf bytes in finish r.0 r.1 r.2

unfoldable pub memset_loop : List (List ℕ) → ℕ → ℕ → ℕ → ℕ → List (List ℕ) × ℕ × ℕ
memset_loop [] offset done fillc bytes = ([], offset, done)
memset_loop (v ∷ iov) offset done fillc bytes =
    let len = min (length v - offset) (bytes - done) in
    let hit = memset_loop iov 0 (done + len) fillc bytes in
    let miss = memset_loop iov (offset - length v) done fillc bytes in
    let filled = write_at v offset (replicate len fillc) in
    if not (offset == 0) || ltb done bytes
    then (if ltb offset (length v)
        then (filled ∷ hit.0, hit.1, hit.2)
        else (v ∷ miss.0, miss.1, miss.2))
    else (v ∷ iov, offset, done)

-- `iov_memset`, for a byte `fillc`
unfoldable pub iov_memset : List (List ℕ) → ℕ → ℕ → ℕ → Option (List (List ℕ) × ℕ)
unfolding memset_loop finish
iov_memset iov offset fillc bytes =
    let r = memset_loop iov offset 0 fillc bytes in finish r.0 r.1 r.2

-- `iov_size`
unfoldable pub iov_size : List (List ℕ) → ℕ
iov_size [] = 0
iov_size (v ∷ iov) = length v + iov_size iov

-- The loop of `iov_copy`, with the room that is left in `dst_iov`: what is put there, and the offset.
unfoldable pub copy_loop : List (List ℕ) → ℕ → ℕ → ℕ → List (List ℕ) × ℕ
copy_loop [] room offset bytes = ([], offset)
copy_loop (v ∷ iov) room offset bytes =
    let len = min bytes (length v - offset) in
    let hit = copy_loop iov (room - 1) 0 (bytes - len) in
    let miss = copy_loop iov room (offset - length v) bytes in
    if ltb 0 room && (not (offset == 0) || not (bytes == 0))
    then (if leb (length v) offset then miss else (take len (drop offset v) ∷ hit.0, hit.1))
    else ([], offset)

-- `iov_copy`: the entries of `dst_iov` that were set.
unfoldable pub iov_copy : ℕ → List (List ℕ) → ℕ → ℕ → Option (List (List ℕ))
unfolding copy_loop
iov_copy dst_iov_cnt iov offset bytes =
    let r = copy_loop iov dst_iov_cnt offset bytes in if r.1 == 0 then some r.0 else none

-- `iov_discard_front`: the vector without its first bytes, and their number.
unfoldable pub iov_discard_front : List (List ℕ) → ℕ → List (List ℕ) × ℕ
iov_discard_front [] bytes = ([], 0)
iov_discard_front (v ∷ iov) bytes =
    let next = iov_discard_front iov (bytes - length v) in
    if ltb bytes (length v) then (drop bytes v ∷ iov, bytes) else (next.0, length v + next.1)

-- `iov_discard_back` of the first `iov_cnt` buffers: the buffers, how many of them are left, and the
-- number of bytes that were taken away.
unfoldable pub iov_discard_back : List (List ℕ) → ℕ → ℕ → List (List ℕ) × ℕ × ℕ
iov_discard_back iov zero bytes = (iov, 0, 0)
iov_discard_back iov (suc n) bytes =
    let cur = get_or iov n [] in
    let next = iov_discard_back iov n (bytes - length cur) in
    if ltb bytes (length cur)
    then (set iov n (take (length cur - bytes) cur), suc n, bytes)
    else (next.0, next.1, length cur + next.2)

-- `QEMUIOVector`: `niov` is the length of `iov`, and an `nalloc` of -1 is `none`.
pub record IoVector : Type 0 where
  pub iov : List (List ℕ)
  pub nalloc : Option ℕ
  pub size : ℕ

-- `qemu_iovec_init`
unfoldable pub qemu_iovec_init : ℕ → IoVector
qemu_iovec_init alloc_hint = record { iov = []; nalloc = some alloc_hint; size = 0 }

-- `qemu_iovec_init_external`
unfoldable pub qemu_iovec_init_external : List (List ℕ) → IoVector
unfolding iov_size
qemu_iovec_init_external iov = record { iov = iov; nalloc = none; size = iov_size iov }

-- `qemu_iovec_add`
unfoldable pub qemu_iovec_add : IoVector → List ℕ → Option IoVector
qemu_iovec_add q v = elim (q.nalloc) [
  | none ↦ none
  | some n ↦ some (record {
    iov = q.iov ++ (v ∷ []);
    nalloc = some (if length q.iov == n then 2 * n + 1 else n);
    size = q.size + length v;
  })
]

-- The loop of `qemu_iovec_concat_iov`, with `assert(soffset == 0)` behind it.
unfoldable pub concat_loop : IoVector → List (List ℕ) → ℕ → ℕ → ℕ → Option (IoVector × ℕ)
unfolding qemu_iovec_add
concat_loop dst [] soffset done sbytes = if soffset == 0 then some (dst, done) else none
concat_loop dst (v ∷ src) soffset done sbytes =
    let len = min (length v - soffset) (sbytes - done) in
    let hit : Option (IoVector × ℕ) = elim (qemu_iovec_add dst (take len (drop soffset v))) [
      | none ↦ none
      | some dst' ↦ concat_loop dst' src 0 (done + len) sbytes
    ] in
    let miss = concat_loop dst src (soffset - length v) done sbytes in
    if ltb done sbytes
    then (if ltb soffset (length v) then hit else miss)
    else (if soffset == 0 then some (dst, done) else none)

-- `qemu_iovec_concat_iov`
unfoldable pub qemu_iovec_concat_iov : IoVector → List (List ℕ) → ℕ → ℕ → Option (IoVector × ℕ)
unfolding concat_loop
qemu_iovec_concat_iov dst src soffset sbytes =
    let loop = concat_loop dst src soffset 0 sbytes in
    if sbytes == 0 then some (dst, 0) else elim (dst.nalloc) [ none ↦ none | some n ↦ loop ]

-- `qemu_iovec_reset`
unfoldable pub qemu_iovec_reset : IoVector → Option IoVector
qemu_iovec_reset q = elim (q.nalloc) [
  | none ↦ none
  | some n ↦ some (record q { iov = []; size = 0 })
]

-- `qemu_iovec_destroy`
unfoldable pub qemu_iovec_destroy : IoVector → Option IoVector
qemu_iovec_destroy q = elim (q.nalloc) [
  | none ↦ none
  | some n ↦ some (record { iov = []; nalloc = some 0; size = 0 })
]

-- The number of bytes in which two buffers of one length agree.
unfoldable pub agree : List ℕ → List ℕ → ℕ
agree [] w = 0
agree (x ∷ v) [] = 0
agree (x ∷ v) (y ∷ w) = if x == y then suc (agree v w) else 0

-- `qemu_iovec_compare`: the offset of the first byte that differs, or nothing; its assertions on the
-- lengths are the outer `none`.
unfoldable pub qemu_iovec_compare : List (List ℕ) → List (List ℕ) → ℕ → Option (Option ℕ)
unfolding agree
qemu_iovec_compare [] [] offset = some none
qemu_iovec_compare [] (w ∷ b) offset = none
qemu_iovec_compare (v ∷ a) [] offset = none
qemu_iovec_compare (v ∷ a) (w ∷ b) offset =
    let len = agree v w in
    let rest = qemu_iovec_compare a b (offset + len) in
    if not (length v == length w)
    then none
    else if not (len == length v)
    then some (some (offset + len))
    else rest

-- `qemu_iovec_discard_back`
unfoldable pub qemu_iovec_discard_back : IoVector → ℕ → Option IoVector
unfolding iov_discard_back
qemu_iovec_discard_back q bytes =
    let r = iov_discard_back q.iov (length q.iov) bytes in
    if leb bytes q.size && r.2 == bytes
    then some (record q { iov = take r.1 r.0; size = q.size - bytes })
    else none
