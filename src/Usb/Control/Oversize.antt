-- ===== src/Usb/Control/Oversize.antt =====
-- A SETUP packet that asks for more than `data_buf` has is refused, but its length stays behind.
use usbqemu_wheel.Common.{
  ◌+◌, ◌≤◌, ◌<◌, ◌≡◌, ◌∙◌, refl, true, Option, some, if◌then◌else◌, take, write_at, arith, length,
  ltb, lt→ltb,
}
use usbqemu_wheel.Usb.Packet.{token_setup, token_in, stall, Packet}
use usbqemu_wheel.Usb.Control.{
  data_stage, Turn, Handler, request_len, data_buf_size, is_dir_in, do_token_setup, do_token_in,
  stalled, setup_request,
}
use usbqemu_wheel.Usb.Control.Bounds.{IsSafe}
use usbqemu_wheel.Usb.Control.Steps.{
  latched, advanced, portion, do_token_setup_lem, do_token_in-transfer, transfer-in,
}

-- The device that a following packet meets.
abbrev asked_by : {D : Type 0} → Turn D → Packet → Turn D
asked_by t p = record (latched t) { packet = p }

module _ {D : Type 0} (h : Handler D) where
  transfer_oversize :
      (t : Turn D) (p : Packet)
      → t.control.setup_state ≡ data_stage
      → is_dir_in t.packet.iov ≡ true
      → p.pid ≡ token_in
      → p.actual_length ≡ 0
      → do_token_in h (asked_by t p)
        ≡ some (
            advanced
              (asked_by t p)
              (record p {
                iov = write_at p.iov 0 (take (portion (asked_by t p)) t.control.data_buf);
                actual_length = portion (asked_by t p);
              })
              t.control.data_buf)
  transfer_oversize t p st dir e z =
      do_token_in-transfer h (asked_by t p) st dir ∙ (transfer-in h (asked_by t p) e z)

  -- In a safe state of the control pipe, in a data stage, a SETUP packet with an IN request
  -- for more bytes than data_buf has is answered by a stall, with the state machine still in
  -- its data stage. An IN packet that is longer than data_buf, and no longer than the
  -- request, and that comes next is accepted, and the transfer's offset ends behind the end
  -- of data_buf.
  pub oversize_overruns :
      (t : Turn D) (p : Packet)
      → IsSafe t.control
      → t.control.setup_state ≡ data_stage
      → t.packet.pid ≡ token_setup
      → t.packet.actual_length ≡ 0
      → length t.packet.iov ≡ 8
      → is_dir_in t.packet.iov ≡ true
      → p.pid ≡ token_in
      → p.actual_length ≡ 0
      → data_buf_size < length p.iov
      → length p.iov ≤ request_len t.packet.iov
      → (t' t'' : Turn D) × (do_token_setup h t ≡ some t')
        × (t'.packet.status ≡ stall)
        × (do_token_in h (record t' { packet = p }) ≡ some t'')
        × (t''.packet.actual_length ≡ length p.iov)
        × (length t.control.data_buf < t''.control.setup_index)
  unfolding stalled
  oversize_overruns t p v st e z n dir e' z' big asked = (
    stalled h (latched t),
    _,
    do_token_setup_lem h t e z n v.setup_size ∙ refused,
    refl,
    transfer_oversize t p st dir e' z',
    whole,
    past,
  )
    where
      refused :
          ◌≡◌ {A = Option (Turn D)}
            (some (
              if ltb data_buf_size (request_len t.packet.iov)
              then stalled h (latched t)
              else setup_request h (latched t)))
            (some (stalled h (latched t)))
      refused = rw (lt→ltb data_buf_size (request_len t.packet.iov) (omega arith))

      whole : portion (asked_by t p) ≡ length p.iov
      whole = omega arith

      past : length t.control.data_buf < 0 + portion (asked_by t p)
      past = omega (arith, v.data_size)
