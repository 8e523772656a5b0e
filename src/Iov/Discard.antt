-- ===== src/Iov/Discard.antt =====
-- What is taken off the ends of a vector.
use usbqemu_wheel.Common.{
  ℕ, ◌+◌, ◌-◌, ◌≤◌, ◌≡◌, sym, ◌∙◌, min, inl, inr, List, [], ◌∷◌, ◌++◌, ltb, length, drop, arith,
  Bool-cases, if_when, if_unless, ltb→lt, ltb→ge, drop-nil, drop-append,
}
use usbqemu_wheel.Iov.{iov_discard_front, iov_size}
use usbqemu_wheel.Iov.Laws.{bytes_of}
use usbqemu_wheel.Iov.Read.{drop-across}

-- Discarding at the front drops bytes from the front of the vector, as many as are asked for or as there are.
pub iov_discard_front_lem :
    (iov : List (List ℕ)) (bytes : ℕ)
    → (bytes_of (iov_discard_front iov bytes).0 ≡ drop bytes (bytes_of iov))
      × ((iov_discard_front iov bytes).1 ≡ min bytes (iov_size iov))
unfolding iov_discard_front iov_size
iov_discard_front_lem [] bytes = (sym (drop-nil bytes), omega arith)
iov_discard_front_lem (v ∷ iov) bytes =
    let (e, n) = iov_discard_front_lem iov (bytes - length v) in
    let P : List (List ℕ) × ℕ → Type 0 = λ r.
      (bytes_of r.0 ≡ drop bytes (v ++ bytes_of iov))
      × (r.1 ≡ min bytes (length v + iov_size iov)) in
    elim (Bool-cases (ltb bytes (length v))) [
      | inl lt ↦
          let h : bytes ≤ length v = omega (arith, ltb→lt bytes (length v) lt) in
          if_when P _ lt (sym (drop-across v (bytes_of iov) bytes h), omega arith)
      | inr ge ↦ if_unless P _ ge (
        e ∙ sym (drop-append bytes v (bytes_of iov) (ltb→ge bytes (length v) ge)),
        omega (arith, n, ltb→ge bytes (length v) ge),
      )
    ]
