-- ===== src/Iov/Laws.antt =====
-- The copies into and out of a vector, as copies into and out of one buffer.
use usbqemu_wheel.Common.{
  ℕ, zero, suc, ◌+◌, ◌-◌, ◌≤◌, ◌≡◌, refl, sym, ap, ◌∙◌, min, inl, inr, false, not, ◌||◌, none, some,
  List, [], ◌∷◌, ◌++◌, ltb, ◌==◌, length, take, drop, write_at, write_at-suc, map, arith,
  Bool-cases, length-append, length-drop, length-write_at, ==_iff, write_at-nil, drop-drop, if_when,
  if_unless, ltb→lt, ltb→ge, take-nil, drop-nil,
}
use usbqemu_wheel.Iov.{from_buf_loop, iov_from_buf, finish, iov_size}

-- The bytes of a vector.
abbrev pub bytes_of : List (List ℕ) → List ℕ
bytes_of [] = []
bytes_of (v ∷ iov) = v ++ bytes_of iov

pub length-bytes_of : (iov : List (List ℕ)) → length (bytes_of iov) ≡ iov_size iov
unfolding iov_size
length-bytes_of [] = refl
length-bytes_of (v ∷ iov) =
    length-append v (bytes_of iov) ∙ ap (λ n. length v + n) (length-bytes_of iov)

-- A write behind the first of two lists.
write_at-behind :
    (v w src : List ℕ) (o : ℕ)
    → length v ≤ o
    → write_at (v ++ w) o src ≡ v ++ write_at w (o - length v) src
write_at-behind [] w src o h = ap (λ i. write_at w i src) (omega arith)
write_at-behind (x ∷ v) w src zero h = absurd (omega arith)
write_at-behind (x ∷ v) w src (suc o) h =
    write_at-suc src (v ++ w) x o
    ∙ ap (λ l. x ∷ l)
        (write_at-behind v w src o (omega arith) ∙ ap (λ i. v ++ write_at w i src) (omega arith))

-- A write that starts in the first of two lists, of which `n` bytes fit into it.
write_at-across :
    (v w src : List ℕ) (o n : ℕ)
    → n + o ≡ length v
    → write_at (v ++ w) o src ≡ write_at v o (take n src) ++ write_at w 0 (drop n src)
write_at-across [] w src zero zero h = refl
write_at-across [] w src zero (suc n) h = absurd (omega arith)
write_at-across [] w src (suc o) n h = absurd (omega arith)
write_at-across (x ∷ v) w src zero zero h = absurd (omega arith)
write_at-across (x ∷ v) w [] zero (suc n) h = refl
write_at-across (x ∷ v) w (s ∷ src) zero (suc n) h =
    write_at-suc src (v ++ w) s 0
    ∙ ap (λ l. s ∷ l) (write_at-across v w src 0 n (omega arith))
    ∙ ap (λ l. l ++ write_at w 0 (drop n src)) (sym (write_at-suc (take n src) v s 0))
write_at-across (x ∷ v) w src (suc o) n h =
    write_at-suc src (v ++ w) x o
    ∙ ap (λ l. x ∷ l) (write_at-across v w src o n (omega arith))
    ∙ ap (λ l. l ++ write_at w 0 (drop n src)) (sym (write_at-suc (take n src) v x o))

take-min : (n : ℕ) (xs : List ℕ) → take (min n (length xs)) xs ≡ take n xs
take-min zero xs = ap (λ k. take k xs) {y = 0} (omega arith)
take-min (suc n) [] = take-nil _
take-min (suc n) (x ∷ xs) =
    ap (λ k. take k (x ∷ xs)) {y = suc (min n (length xs))} (omega arith)
    ∙ ap (λ l. x ∷ l) (take-min n xs)

drop-min : (n : ℕ) (xs : List ℕ) → drop (min n (length xs)) xs ≡ drop n xs
drop-min zero xs = ap (λ k. drop k xs) {y = 0} (omega arith)
drop-min (suc n) [] = drop-nil _
drop-min (suc n) (x ∷ xs) =
    ap (λ k. drop k (x ∷ xs)) {y = suc (min n (length xs))} (omega arith) ∙ drop-min n xs

drop-all : (n : ℕ) (xs : List ℕ) → length xs ≤ n → drop n xs ≡ []
drop-all zero [] h = refl
drop-all zero (x ∷ xs) h = absurd (omega arith)
drop-all (suc n) [] h = refl
drop-all (suc n) (x ∷ xs) h = drop-all n xs (omega arith)

-- What `rest` puts into a vector from an offset on: the bytes are those of one buffer, and the sizes stay.
pub record Copied (iov : List (List ℕ)) (offset : ℕ) (rest : List ℕ) (iov' : List (List ℕ))
    : Type 0 where
  pub bytes : bytes_of iov' ≡ write_at (bytes_of iov) offset rest
  pub sizes : map length iov' ≡ map length iov

record CopyEnds (iov : List (List ℕ)) (offset done : ℕ) (buf : List ℕ) (r : List (List ℕ) × ℕ × ℕ)
    : Type 0 where
  copied : Copied iov offset (drop done buf) r.0
  left : r.1 ≡ 0
  count : r.2 ≡ done + min (length buf - done) (iov_size iov - offset)

hit-Copied :
    (v : List ℕ) (iov iov' : List (List ℕ)) (offset done : ℕ) (buf : List ℕ)
    → offset ≤ length v
    → Copied iov 0 (drop (done + min (length v - offset) (length buf - done)) buf) iov'
    → Copied (v ∷ iov) offset (drop done buf) (
        write_at v offset (take (min (length v - offset) (length buf - done)) (drop done buf))
        ∷ iov')
hit-Copied v iov iov' offset done buf h c =
    let a : ℕ = length v - offset in
    let rest : List ℕ = drop done buf in
    let short : min a (length buf - done) ≡ min a (length rest) =
      omega (arith, length-drop done buf) in
    let first : take (min a (length buf - done)) rest ≡ take a rest =
      ap (λ k. take k rest) short ∙ take-min a rest in
    let behind : drop (done + min a (length buf - done)) buf ≡ drop a rest =
      sym (drop-drop done (min a (length buf - done)) buf)
      ∙ ap (λ k. drop k rest) short
      ∙ drop-min a rest in
    record {
      bytes =
          ap (λ l. write_at v offset l ++ bytes_of iov') first
          ∙ ap (λ l. write_at v offset (take a rest) ++ l)
              (c.bytes ∙ ap (write_at (bytes_of iov) 0) behind)
          ∙ sym (write_at-across v (bytes_of iov) rest offset a (omega arith));
      sizes =
          ap (λ n. n ∷ map length iov')
            (length-write_at (take (min a (length buf - done)) rest) v offset)
          ∙ ap (λ l. length v ∷ l) c.sizes;
    }

miss-Copied :
    (v : List ℕ) (iov iov' : List (List ℕ)) (offset : ℕ) (rest : List ℕ)
    → length v ≤ offset
    → Copied iov (offset - length v) rest iov'
    → Copied (v ∷ iov) offset rest (v ∷ iov')
miss-Copied v iov iov' offset rest h c = record {
  bytes = ap (λ l. v ++ l) c.bytes ∙ sym (write_at-behind v (bytes_of iov) rest offset h);
  sizes = ap (λ l. length v ∷ l) c.sizes;
}

none-Copied :
    (iov : List (List ℕ)) (offset : ℕ) (rest : List ℕ) → rest ≡ [] → Copied iov offset rest iov
none-Copied iov offset rest e = record {
  bytes = ap (λ l. write_at (bytes_of iov) offset l) (sym e);
  sizes = refl;
}

pub stopped : (o d n : ℕ) → (not (o == 0) || ltb d n) ≡ false → (o ≡ 0) × (n ≤ d)
stopped o d n h = ground arith

from_buf_loop-CopyEnds :
    (iov : List (List ℕ)) (offset done : ℕ) (buf : List ℕ)
    → offset ≤ iov_size iov
    → done ≤ length buf
    → CopyEnds iov offset done buf (from_buf_loop iov offset done buf (length buf))
unfolding from_buf_loop iov_size
from_buf_loop-CopyEnds [] offset done buf h g = record {
  copied = record { bytes = sym (write_at-nil (drop done buf) offset); sizes = refl };
  left = omega arith;
  count = omega arith;
}
from_buf_loop-CopyEnds (v ∷ iov) offset done buf h g =
    let len : ℕ = min (length v - offset) (length buf - done) in
    let hit = from_buf_loop-CopyEnds iov 0 (done + len) buf (omega arith) (omega arith) in
    let P : List (List ℕ) × ℕ × ℕ → Type 0 = CopyEnds (v ∷ iov) offset done buf in
    elim (Bool-cases (not (offset == 0) || ltb done (length buf))) [
      | inl go ↦ if_when P _ go (elim (Bool-cases (ltb offset (length v))) [
        | inl e ↦ if_when P _ e (record {
          copied =
              hit-Copied v iov _ offset done buf (omega (arith, ltb→lt offset (length v) e))
                hit.copied;
          left = hit.left;
          count = omega (arith, hit.count, ltb→lt offset (length v) e);
        })
        | inr e ↦
            let miss =
              from_buf_loop-CopyEnds iov (offset - length v) done buf
                (omega (arith, ltb→ge offset (length v) e)) g in
            if_unless P _ e (record {
              copied =
                  miss-Copied v iov _ offset (drop done buf) (ltb→ge offset (length v) e)
                    miss.copied;
              left = miss.left;
              count = omega (arith, miss.count, ltb→ge offset (length v) e);
            })
      ])
      | inr stop ↦ if_unless P _ stop (record {
        copied =
            none-Copied (v ∷ iov) offset (drop done buf)
              (drop-all done buf (stopped offset done (length buf) stop).1);
        left = (stopped offset done (length buf) stop).0;
        count = omega (arith, stopped offset done (length buf) stop);
      })
    ]

-- From an offset inside of the vector, iov_from_buf does to the bytes of the vector what a copy
-- to that offset does to one buffer with these bytes: those that do not fit are left out, their
-- number is returned, and the buffers keep their sizes.
pub iov_from_buf_lem :
    (iov : List (List ℕ)) (offset : ℕ) (buf : List ℕ)
    → offset ≤ iov_size iov
    → (iov' : List (List ℕ)) × (iov_from_buf iov offset buf (length buf)
        ≡ some (iov', min (length buf) (iov_size iov - offset)))
      × Copied iov offset buf iov'
unfolding iov_from_buf finish
iov_from_buf_lem iov offset buf h =
    let c = from_buf_loop-CopyEnds iov offset 0 buf h (omega arith) in
    let n : (from_buf_loop iov offset 0 buf (length buf)).2
        ≡ min (length buf) (iov_size iov - offset) =
      omega (arith, c.count) in
    (
      (from_buf_loop iov offset 0 buf (length buf)).0,
      if_when
          (λ o.
            o
            ≡ some (
              (from_buf_loop iov offset 0 buf (length buf)).0,
              min (length buf) (iov_size iov - offset),
            ))
          none ((==_iff _ 0).1 c.left)
          (ap (λ n. some ((from_buf_loop iov offset 0 buf (length buf)).0, n)) n),
      c.copied,
    )
