-- ===== src/Iov/Read.antt =====
-- What is read out of a vector.
use usbqemu_wheel.Common.{
  ℕ, zero, suc, ◌+◌, ◌-◌, ◌≤◌, ◌<◌, ◌≡◌, refl, sym, ap, ◌∙◌, min, inl, inr, not, ◌||◌, none, some,
  List, [], ◌∷◌, ◌++◌, ltb, ◌==◌, length, take, slice-write_at, write_at-whole, drop, write_at,
  arith, Bool-cases, length-drop, length-take, length-write_at, write_at-append, ==_iff, if_when,
  if_unless, ltb→lt, ltb→ge, take-nil, drop-nil, drop-append,
}
use usbqemu_wheel.Iov.{iov_from_buf, to_buf_loop, iov_to_buf, finish, iov_size}
use usbqemu_wheel.Iov.Laws.{bytes_of, length-bytes_of, stopped, iov_from_buf_lem}

take-across :
    (xs w : List ℕ) (n k : ℕ)
    → k ≡ min (length xs) n
    → take n (xs ++ w) ≡ take k xs ++ take (n - k) w
take-across [] w n zero e = ap (λ j. take j w) (omega arith)
take-across [] w n (suc k) e = absurd (omega arith)
take-across (x ∷ xs) w zero zero e = refl
take-across (x ∷ xs) w zero (suc k) e = absurd (omega arith)
take-across (x ∷ xs) w (suc n) zero e = absurd (omega arith)
take-across (x ∷ xs) w (suc n) (suc k) e =
    ap (λ l. x ∷ l)
      (take-across xs w n k (omega arith) ∙ ap (λ j. take k xs ++ take j w) (omega arith))

pub drop-across : (v w : List ℕ) (o : ℕ) → o ≤ length v → drop o (v ++ w) ≡ drop o v ++ w
drop-across v w zero h = refl
drop-across [] w (suc o) h = absurd (omega arith)
drop-across (x ∷ v) w (suc o) h = drop-across v w o (omega arith)

record ReadEnds (iov : List (List ℕ)) (offset done : ℕ) (buf : List ℕ) (bytes : ℕ)
    (r : List ℕ × ℕ × ℕ) : Type 0 where
  read : r.0 ≡ write_at buf done (take (bytes - done) (drop offset (bytes_of iov)))
  left : r.1 ≡ 0
  count : r.2 ≡ done + min (bytes - done) (iov_size iov - offset)

hit-read :
    (v w buf : List ℕ) (offset done bytes len : ℕ)
    → offset ≤ length v
    → len ≡ min (length v - offset) (bytes - done)
    → write_at
        (write_at buf done (take len (drop offset v)))
        (done + len)
        (take (bytes - (done + len)) w)
      ≡ write_at buf done (take (bytes - done) (drop offset (v ++ w)))
hit-read v w buf offset done bytes len h e =
    let part : List ℕ = take len (drop offset v) in
    let size : length part ≡ len =
      omega (arith, length-take len (drop offset v), length-drop offset v) in
    let whole : take (bytes - done) (drop offset (v ++ w)) ≡ part ++ take (bytes - done - len) w =
      ap (take (bytes - done)) (drop-across v w offset h)
      ∙ take-across (drop offset v) w (bytes - done) len (omega (arith, length-drop offset v)) in
    ap (λ i. write_at (write_at buf done part) i (take (bytes - (done + len)) w))
      (omega (arith, size))
    ∙ write_at-append buf part (take (bytes - (done + len)) w) done
    ∙ ap (λ n. write_at buf done (part ++ take n w)) (omega arith)
    ∙ ap (write_at buf done) (sym whole)

to_buf_loop-ReadEnds :
    (iov : List (List ℕ)) (offset done : ℕ) (buf : List ℕ) (bytes : ℕ)
    → offset ≤ iov_size iov
    → done ≤ bytes
    → ReadEnds iov offset done buf bytes (to_buf_loop iov offset done buf bytes)
unfolding to_buf_loop iov_size
to_buf_loop-ReadEnds [] offset done buf bytes h g = record {
  read =
      ap (write_at buf done)
        (sym (ap (take (bytes - done)) (drop-nil offset) ∙ take-nil (bytes - done)));
  left = omega arith;
  count = omega arith;
}
to_buf_loop-ReadEnds (v ∷ iov) offset done buf bytes h g =
    let len : ℕ = min (length v - offset) (bytes - done) in
    let hit =
      to_buf_loop-ReadEnds iov 0 (done + len) (write_at buf done (take len (drop offset v))) bytes
        (omega arith) (omega arith) in
    let P : List ℕ × ℕ × ℕ → Type 0 = ReadEnds (v ∷ iov) offset done buf bytes in
    elim (Bool-cases (not (offset == 0) || ltb done bytes)) [
      | inl go ↦ if_when P _ go (elim (Bool-cases (ltb offset (length v))) [
        | inl e ↦
            let lt : offset < length v = ltb→lt offset (length v) e in
            if_when P _ e (record {
              read =
                  hit.read ∙ hit-read v (bytes_of iov) buf offset done bytes len (omega arith) refl;
              left = hit.left;
              count = omega (arith, hit.count);
            })
        | inr e ↦
            let ge : length v ≤ offset = ltb→ge offset (length v) e in
            let miss =
              to_buf_loop-ReadEnds iov (offset - length v) done buf bytes (omega arith) g in
            if_unless P _ e (record {
              read =
                  miss.read
                  ∙ ap (λ l. write_at buf done (take (bytes - done) l))
                      (sym (drop-append offset v (bytes_of iov) ge));
              left = miss.left;
              count = omega (arith, miss.count);
            })
      ])
      | inr stop ↦
          let (z, all) = stopped offset done bytes stop in
          if_unless P _ stop (record {
            read =
                ap (λ n. write_at buf done (take n (drop offset (v ++ bytes_of iov)))) {x = 0}
                  (omega arith);
            left = z;
            count = omega arith;
          })
    ]

-- From an offset inside of the vector, `iov_to_buf` copies the bytes of the vector that stand there.
pub iov_to_buf_lem :
    (iov : List (List ℕ)) (offset : ℕ) (buf : List ℕ) (bytes : ℕ)
    → offset ≤ iov_size iov
    → iov_to_buf iov offset buf bytes
      ≡ some (
        write_at buf 0 (take bytes (drop offset (bytes_of iov))),
        min bytes (iov_size iov - offset),
      )
unfolding iov_to_buf finish
iov_to_buf_lem iov offset buf bytes h =
    let c = to_buf_loop-ReadEnds iov offset 0 buf bytes h (omega arith) in
    let n : (to_buf_loop iov offset 0 buf bytes).2 ≡ min bytes (iov_size iov - offset) =
      omega (arith, c.count) in
    if_when
      (λ o.
        o
        ≡ some (
          write_at buf 0 (take bytes (drop offset (bytes_of iov))),
          min bytes (iov_size iov - offset),
        ))
      none ((==_iff _ 0).1 c.left)
      (ap (λ l. some (l, (to_buf_loop iov offset 0 buf bytes).2))
          (c.read
            ∙ ap (λ n. write_at buf 0 (take n (drop offset (bytes_of iov)))) {x = bytes - 0}
                (omega arith))
        ∙ ap (λ n. some (write_at buf 0 (take bytes (drop offset (bytes_of iov))), n)) n)

-- Bytes that iov_from_buf has put into a vector, from an offset on where they all fit, are
-- those that iov_to_buf then reads from this offset into a buffer of their length, and both
-- return their number.
pub iov_from_buf-iov_to_buf :
    (iov : List (List ℕ)) (offset : ℕ) (buf dst : List ℕ)
    → offset + length buf ≤ iov_size iov
    → length dst ≡ length buf
    → (iov' : List (List ℕ)) × (iov_from_buf iov offset buf (length buf) ≡ some (iov', length buf))
      × (iov_to_buf iov' offset dst (length buf) ≡ some (buf, length buf))
iov_from_buf-iov_to_buf iov offset buf dst h e =
    let (iov', r, c) = iov_from_buf_lem iov offset buf (omega arith) in
    let size : iov_size iov' ≡ iov_size iov =
      sym (length-bytes_of iov')
      ∙ ap length c.bytes
      ∙ length-write_at buf (bytes_of iov) offset
      ∙ length-bytes_of iov in
    let back : take (length buf) (drop offset (bytes_of iov')) ≡ buf =
      ap (λ l. take (length buf) (drop offset l)) c.bytes
      ∙ slice-write_at (bytes_of iov) buf offset (omega (arith, length-bytes_of iov)) in
    let n : min (length buf) (iov_size iov - offset) ≡ length buf = omega arith in
    let m : min (length buf) (iov_size iov' - offset) ≡ length buf = omega (arith, size) in
    (
      iov',
      r ∙ ap (λ k. some (iov', k)) n,
      iov_to_buf_lem iov' offset dst (length buf) (omega (arith, size))
          ∙ ap (λ l. some (l, min (length buf) (iov_size iov' - offset)))
              (ap (write_at dst 0) back ∙ write_at-whole dst buf (sym e))
          ∙ ap (λ k. some (buf, k)) m,
    )
