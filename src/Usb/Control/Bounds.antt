-- ===== src/Usb/Control/Bounds.antt =====
-- The control pipe stays inside `data_buf`, except after a SETUP packet that asks for more.
use native.Mathlib.Decide.{ℕ_discrete}
use usbqemu_wheel.Common.{
  ℕ, ◌≤◌, ◌≡◌, ◌≢◌, ◌∙◌, refl, ltb, ◌⊎◌, inl, inr, false, Option, none, some, List, arith, length,
  take, length-write_at, Bool-cases,
}
use usbqemu_wheel.Usb.Packet.{Token, token_setup, token_in, token_out, token_other, Packet}
use usbqemu_wheel.Usb.Control.Steps.{
  latched, portion, do_token_setup_lem, do_token_setup_other, transfer-in, transfer-out,
}
use usbqemu_wheel.Usb.Control.{
  Control, Turn, Handler, request_len, data_buf_size, is_dir_in, call_control, process_control,
  process_token, do_token_setup, do_token_in, do_token_out, transfer, setup_request, setup_answered,
  stalled, deliver,
}

pub record IsSafe (s : Control) : Type 0 where
  pub setup_size : length s.setup_buf ≡ 8
  pub data_size : length s.data_buf ≡ data_buf_size
  pub within : s.setup_index ≤ s.setup_len
  pub fits : s.setup_len ≤ data_buf_size

-- An operation that ends with no failed assertion, in a safe state.
abbrev pub EndsSafe : {D : Type 0} → Option (Turn D) → Type 0
EndsSafe none = ⊥
EndsSafe (some t) = IsSafe t.control

-- A device writes into `data_buf`, and does not resize it.
abbrev pub KeepsSize : {D : Type 0} → Handler D → Type 0
KeepsSize {D} h =
    (d : D) (p : Packet) (r v i l : ℕ) (buf : List ℕ)
    → length (h d p r v i l buf).bytes ≡ length buf

module _ {D : Type 0} (h : Handler D) (keeps : KeepsSize h) where
  call_control-IsSafe : (t : Turn D) → IsSafe t.control → IsSafe (call_control h t).control
  unfolding call_control
  call_control-IsSafe t v = record {
    setup_size = v.setup_size;
    data_size = omega (arith, v.data_size, keeps t.device t.packet _ _ _ _ t.control.data_buf);
    within = v.within;
    fits = v.fits;
  }

  setup_answered-IsSafe :
      (t : Turn D)
      → IsSafe t.control
      → t.control.setup_index ≡ 0
      → IsSafe (setup_answered h t).control
  unfolding setup_answered
  setup_answered-IsSafe t v e = ground arith

  setup_index-call_control :
      (t : Turn D) → (call_control h t).control.setup_index ≡ t.control.setup_index
  unfolding call_control
  setup_index-call_control t = refl

  setup_request-IsSafe :
      (t : Turn D)
      → IsSafe t.control
      → t.control.setup_index ≡ 0
      → IsSafe (setup_request h t).control
  unfolding setup_request
  setup_request-IsSafe t v e = elim (Bool-cases (is_dir_in t.control.setup_buf)) [
    | inl i ↦ rw i (
        setup_answered-IsSafe (call_control h t) (call_control-IsSafe t v)
          (setup_index-call_control t ∙ e))
    | inr o ↦ rw o (record {
      setup_size = v.setup_size;
      data_size = v.data_size;
      within = v.within;
      fits = v.fits;
    })
  ]

  -- A SETUP packet that is too short or asks for no more than `data_buf` has.
  do_token_setup-EndsSafe :
      (t : Turn D)
      → IsSafe t.control
      → t.packet.pid ≡ token_setup
      → t.packet.actual_length ≡ 0
      → request_len t.packet.iov ≤ data_buf_size
      → EndsSafe (do_token_setup h t)
  do_token_setup-EndsSafe t v e z small = elim (ℕ_discrete (length t.packet.iov) 8) [
    | yes n ↦
        rw (do_token_setup_lem h t e z n v.setup_size, fits_test)
          (setup_request-IsSafe (latched t)
            (record { setup_size = n; data_size = v.data_size; within = omega arith; fits = small })
            refl)
    | no n ↦ rw (do_token_setup_other h t n) (unfold stalled in v)
  ]
    where
      fits_test : ltb data_buf_size (request_len t.packet.iov) ≡ false
      fits_test = ground arith

  -- A data packet of either direction moves a slice that lies inside `data_buf`.
  transfer-EndsSafe :
      (t : Turn D)
      → IsSafe t.control
      → (t.packet.pid ≡ token_in) ⊎ (t.packet.pid ≡ token_out)
      → t.packet.actual_length ≡ 0
      → EndsSafe (transfer h t)
  transfer-EndsSafe t v (inl e) z = rw (transfer-in h t e z) (record {
    setup_size = v.setup_size;
    data_size = v.data_size;
    within = omega arith;
    fits = v.fits;
  })
  transfer-EndsSafe t v (inr e) z = rw (transfer-out h t e z) (record {
    setup_size = v.setup_size;
    data_size = omega (
      arith,
      v.data_size,
      length-write_at (take (portion t) t.packet.iov) t.control.data_buf t.control.setup_index,
    );
    within = omega arith;
    fits = v.fits;
  })

  deliver-IsSafe : (t : Turn D) → IsSafe t.control → IsSafe (deliver h t).control
  unfolding deliver
  deliver-IsSafe t v = ground (arith, call_control-IsSafe t v)

  do_token_in-EndsSafe :
      (t : Turn D)
      → IsSafe t.control
      → t.packet.pid ≡ token_in
      → t.packet.actual_length ≡ 0
      → EndsSafe (do_token_in h t)
  unfolding do_token_in
  do_token_in-EndsSafe t v e z = ground (arith, deliver-IsSafe t v, transfer-EndsSafe t v (inl e) z)

  do_token_out-EndsSafe :
      (t : Turn D)
      → IsSafe t.control
      → t.packet.pid ≡ token_out
      → t.packet.actual_length ≡ 0
      → EndsSafe (do_token_out h t)
  unfolding do_token_out
  do_token_out-EndsSafe t v e z = ground (arith, transfer-EndsSafe t v (inr e) z)

  process_token-EndsSafe :
      (k : Token) (t : Turn D)
      → IsSafe t.control
      → t.packet.pid ≡ k
      → t.packet.actual_length ≡ 0
      → (k ≢ token_setup) ⊎ (request_len t.packet.iov ≤ data_buf_size)
      → EndsSafe (process_token h k t)
  unfolding process_token stalled
  process_token-EndsSafe token_setup t v e z (inl other) = absurd (other refl)
  process_token-EndsSafe token_setup t v e z (inr small) = do_token_setup-EndsSafe t v e z small
  process_token-EndsSafe token_in t v e z small = do_token_in-EndsSafe t v e z
  process_token-EndsSafe token_out t v e z small = do_token_out-EndsSafe t v e z
  process_token-EndsSafe (token_other n) t v e z small = v

  -- For a device whose handle_control does not resize data_buf, in a state with setup_buf and
  -- data_buf of their sizes, an offset of at most the length and a length of at most the size
  -- of data_buf, a packet on the control pipe that starts with nothing transferred and
  -- carries no parameter, and that is no SETUP packet asking for more bytes than data_buf
  -- has, is processed without a failed assertion, and leads to such a state again.
  pub process_control-EndsSafe :
      (t : Turn D)
      → IsSafe t.control
      → t.packet.parameter ≡ 0
      → t.packet.actual_length ≡ 0
      → (t.packet.pid ≢ token_setup) ⊎ (request_len t.packet.iov ≤ data_buf_size)
      → EndsSafe (process_control h t)
  unfolding process_control
  process_control-EndsSafe t v w z small =
      rw w (process_token-EndsSafe t.packet.pid _ v refl z small)
