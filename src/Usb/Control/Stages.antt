-- ===== src/Usb/Control/Stages.antt =====
-- Whole data stages: the bytes of a control transfer, whatever packets carry them.
use usbqemu_wheel.Common.{
  ℕ, ◌+◌, ◌-◌, ◌≤◌, min, ◌≡◌, sym, ap, ◌∙◌, refl, ◌⊎◌, inl, inr, true, Option, some, List, [], ◌∷◌,
  ◌++◌, arith, length, take, drop, replicate, write_at, take-add, drop-drop, length-replicate,
  length-take, length-drop, slice-write_at,
}
use usbqemu_wheel.Usb.Packet.{Packet, Token, token_in, success}
use usbqemu_wheel.Usb.Control.{◌>>=◌, data_stage, ack, Turn, Handler, is_dir_in, do_token_in}
use usbqemu_wheel.Usb.Control.Bounds.{IsSafe}
use usbqemu_wheel.Usb.Control.Steps.{portion, advanced, do_token_in-transfer, transfer-in}

-- The sizes of a stage's packets, together.
unfoldable pub total : List ℕ → ℕ
total [] = 0
total (n ∷ ns) = n + total ns

-- The buffer of an IN packet.
abbrev pub blank : ℕ → List ℕ
blank n = replicate n 0

pub length-blank : (n : ℕ) → length (blank n) ≡ n
length-blank n = length-replicate n 0

-- The next packet of the stage, with nothing done yet.
abbrev pub offered : {D : Type 0} → Turn D → Token → List ℕ → Turn D
offered t pid buf = record t {
  packet = record (t.packet) { pid = pid; iov = buf; status = success; actual_length = 0 };
}

module _ {D : Type 0} (h : Handler D) where
  -- A host that polls with IN packets of the given sizes, and the bytes that it is given.
  pub in_stage : Turn D → List ℕ → Option (List ℕ × Turn D)
  in_stage t [] = some ([], t)
  in_stage t (n ∷ ns) = do_token_in h (offered t token_in (blank n)) >>= λ (t' : Turn D).
      in_stage t' ns >>= λ (r : List ℕ × Turn D).
      some (take t'.packet.actual_length t'.packet.iov ++ r.0, r.1)

  -- What is left of the stage.
  abbrev pub left : Turn D → ℕ
  left t = t.control.setup_len - t.control.setup_index

  -- The stage is going on, or all was sent.
  abbrev pub InStage : Turn D → Type 0
  InStage t =
      (t.control.setup_state ≡ data_stage)
      ⊎ ((t.control.setup_state ≡ ack) × (t.control.setup_len ≤ t.control.setup_index))

  pub advanced-InStage :
      (t : Turn D) (p : Packet) (buf : List ℕ) → InStage t → InStage (advanced t p buf)
  advanced-InStage t p buf g = ground arith

  do_token_in-ack :
      (t : Turn D)
      → t.control.setup_state ≡ ack
      → is_dir_in t.control.setup_buf ≡ true
      → do_token_in h t ≡ some t
  unfolding do_token_in
  do_token_in-ack t st dir = ground arith

  -- What a packet of an IN stage shows, and where it leaves the stage.
  record Served (t : Turn D) (n : ℕ) (t' : Turn D) : Type 0 where
    shown :
        take t'.packet.actual_length t'.packet.iov
        ≡ take (min n (left t)) (drop t.control.setup_index t.control.data_buf)
    data_kept : t'.control.data_buf ≡ t.control.data_buf
    setup_kept : t'.control.setup_buf ≡ t.control.setup_buf
    len_kept : t'.control.setup_len ≡ t.control.setup_len
    moved : t'.control.setup_index ≡ t.control.setup_index + min n (left t)
    going : InStage t'

  in_packet :
      (t : Turn D) (n : ℕ)
      → IsSafe t.control
      → InStage t
      → is_dir_in t.control.setup_buf ≡ true
      → (t' : Turn D) × (do_token_in h (offered t token_in (blank n)) ≡ some t') × Served t n t'
  in_packet t n v (inl st) dir = (
    advanced u sent t.control.data_buf,
    do_token_in-transfer h u st dir ∙ transfer-in h u refl refl,
    record {
      shown = shown;
      data_kept = refl;
      setup_kept = refl;
      len_kept = refl;
      moved = omega (arith, length-blank n);
      going = advanced-InStage u sent t.control.data_buf (inl st);
    },
  )
    where
      u : Turn D
      u = offered t token_in (blank n)

      slice : List ℕ
      slice = take (portion u) (drop t.control.setup_index t.control.data_buf)

      sent : Packet
      sent = record (u.packet) { iov = write_at (blank n) 0 slice; actual_length = portion u }

      slice_length : length slice ≡ portion u
      slice_length = omega (
        arith,
        length-take (portion u) (drop t.control.setup_index t.control.data_buf),
        length-drop t.control.setup_index t.control.data_buf,
        v.data_size,
        v.fits,
      )

      shown :
          take (portion u) (write_at (blank n) 0 slice)
          ≡ take (min n (left t)) (drop t.control.setup_index t.control.data_buf)
      shown =
          ap (λ k. take k (write_at (blank n) 0 slice)) (sym slice_length)
          ∙ slice-write_at (blank n) slice 0 (omega (arith, slice_length))
          ∙ ap (λ k. take k (drop t.control.setup_index t.control.data_buf))
              (omega (arith, length-blank n))
  in_packet t n v (inr (st, done)) dir = (
    offered t token_in (blank n),
    do_token_in-ack (offered t token_in (blank n)) st dir,
    record {
      shown =
          ap (λ k. take k (drop t.control.setup_index t.control.data_buf)) {x = 0} (omega arith);
      data_kept = refl;
      setup_kept = refl;
      len_kept = refl;
      moved = omega arith;
      going = inr (st, done);
    },
  )

  Served-IsSafe : {t t' : Turn D} (n : ℕ) → IsSafe t.control → Served t n t' → IsSafe t'.control
  Served-IsSafe n v s = record {
    setup_size = ap length s.setup_kept ∙ v.setup_size;
    data_size = ap length s.data_kept ∙ v.data_size;
    within = omega (arith, s.moved, s.len_kept, v.within);
    fits = omega (arith, s.len_kept, v.fits);
  }

  -- What one packet shows, and then what the others do.
  joined :
      (t t' : Turn D) (n : ℕ) (ns : List ℕ)
      → IsSafe t.control
      → Served t n t'
      → take (min n (left t)) (drop t.control.setup_index t.control.data_buf)
          ++ take (min (total ns) (left t')) (drop t'.control.setup_index t'.control.data_buf)
        ≡ take (min (total (n ∷ ns)) (left t)) (drop t.control.setup_index t.control.data_buf)
  unfolding total
  joined t t' n ns v s =
      ap (λ l. take (min n (left t)) bytes ++ take (min (total ns) (left t')) l) onward
      ∙ sym (take-add (min n (left t)) (min (total ns) (left t')) bytes)
      ∙ ap (λ k. take k bytes) (omega (arith, s.moved, s.len_kept, v.within))
    where
      bytes : List ℕ
      bytes = drop t.control.setup_index t.control.data_buf

      onward : drop t'.control.setup_index t'.control.data_buf ≡ drop (min n (left t)) bytes
      onward =
          ap (λ l. drop t'.control.setup_index l) s.data_kept
          ∙ ap (λ k. drop k t.control.data_buf) s.moved
          ∙ sym (drop-drop t.control.setup_index (min n (left t)) t.control.data_buf)

  -- In a safe state of the control pipe, in the data stage of an IN request or after it has
  -- sent all, IN packets of any sizes are all accepted, and together they are given the bytes
  -- of data_buf from the current offset on, as many as the packets hold or as are left, in
  -- order; the offset moves by that number.
  pub in_stage_lem :
      (t : Turn D) (ns : List ℕ)
      → IsSafe t.control
      → InStage t
      → is_dir_in t.control.setup_buf ≡ true
      → (t' : Turn D) × (in_stage t ns
          ≡ some
              (take (min (total ns) (left t)) (drop t.control.setup_index t.control.data_buf), t'))
        × InStage t'
        × (t'.control.setup_index ≡ t.control.setup_index + min (total ns) (left t))
  unfolding in_stage total
  in_stage_lem t [] v g dir =
      (t, ap (λ k. some (take k rest, t)) {x = 0} (omega arith), g, omega arith)
    where
      rest : List ℕ
      rest = drop t.control.setup_index t.control.data_buf
  in_stage_lem t (n ∷ ns) v g dir =
      let (t', one, s) = in_packet t n v g dir in
      let (t'', rest, g', i) =
        in_stage_lem t' ns (Served-IsSafe n v s) s.going (ap is_dir_in s.setup_kept ∙ dir) in
      (
        t'',
        rw (one, rest, s.shown) (ap (λ l. some (l, t'')) (joined t t' n ns v s)),
        g',
        omega (arith, s.moved, s.len_kept),
      )
