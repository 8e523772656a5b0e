-- ===== src/Usb/Control/Steps.antt =====
-- What one packet of each kind does to the control pipe, as equations.
use usbqemu_wheel.Common.{
  ℕ, ◌+◌, ◌-◌, ◌≤◌, min, ◌≡◌, ◌≢◌, refl, sym, if◌then◌else◌, ltb, true, false, some, List, arith,
  length, take, drop, write_at, write_at-whole, take-length, leb,
}
use usbqemu_wheel.Usb.Packet.{
  token_setup, token_in, token_out, Packet, copy, Status, success, nodev, nak, stall, babble,
  ioerror, async, add_to_queue, remove_from_queue,
}
use usbqemu_wheel.Usb.Control.{
  data_stage, ack, Turn, Handler, request_len, data_buf_size, is_dir_in, do_token_setup,
  do_token_in, do_token_out, transfer, setup_request, stalled,
}

-- A status is USB_RET_ASYNC, or another.
pub status_both :
    {A : Type 0} (P : A → Type 0) (st : Status) (x y : A)
    → P x
    → P y
    → P (elim st [ async ↦ x | _ ↦ y ])
status_both P success x y p q = q
status_both P nodev x y p q = q
status_both P nak x y p q = q
status_both P stall x y p q = q
status_both P babble x y p q = q
status_both P ioerror x y p q = q
status_both P async x y p q = p
status_both P add_to_queue x y p q = q
status_both P remove_from_queue x y p q = q

pub status_now :
    {A : Type 0} (P : A → Type 0) (st : Status) (x y : A)
    → st ≢ async
    → P y
    → P (elim st [ async ↦ x | _ ↦ y ])
status_now P success x y n q = q
status_now P nodev x y n q = q
status_now P nak x y n q = q
status_now P stall x y n q = q
status_now P babble x y n q = q
status_now P ioerror x y n q = q
status_now P async x y n q = absurd (n refl)
status_now P add_to_queue x y n q = q
status_now P remove_from_queue x y n q = q

pub status_later :
    {A : Type 0} (P : A → Type 0) (st : Status) (x y : A)
    → st ≡ async
    → P x
    → P (elim st [ async ↦ x | _ ↦ y ])
status_later P st x y e p = rw e p

-- The copies that the pipe makes, each whole. A SETUP packet has eight bytes.
pub copy-setup :
    (p : Packet) (buf : List ℕ)
    → p.pid ≡ token_setup
    → p.actual_length ≡ 0
    → length p.iov ≡ 8
    → length buf ≡ 8
    → copy p buf 0 8 ≡ some (record p { actual_length = 8 }, p.iov)
unfolding copy
copy-setup p buf e z n m = ground (arith, write_at-whole buf p.iov, take_all)
  where
    take_all : take 8 p.iov ≡ p.iov
    take_all = rw (sym n) (take-length p.iov)

pub copy-out :
    (p : Packet) (buf : List ℕ) (i n : ℕ)
    → p.pid ≡ token_out
    → p.actual_length ≡ 0
    → n ≤ length p.iov
    → copy p buf i n ≡ some (record p { actual_length = n }, write_at buf i (take n p.iov))
unfolding copy
copy-out p buf i n e z fits = ground arith

pub copy-in :
    (p : Packet) (buf : List ℕ) (i n : ℕ)
    → p.pid ≡ token_in
    → p.actual_length ≡ 0
    → n ≤ length p.iov
    → copy p buf i n
      ≡ some (record p { iov = write_at p.iov 0 (take n (drop i buf)); actual_length = n }, buf)
unfolding copy
copy-in p buf i n e z fits = ground arith

-- The device with the request of a SETUP packet in `setup_buf`.
abbrev pub latched : {D : Type 0} → Turn D → Turn D
latched t = record t {
  control = record (t.control) {
    setup_buf = t.packet.iov;
    setup_index = 0;
    setup_len = request_len t.packet.iov;
  };
  packet = record (t.packet) { actual_length = 0 };
}

-- The number of bytes that a data packet moves.
abbrev pub portion : {D : Type 0} → Turn D → ℕ
portion t = min (t.control.setup_len - t.control.setup_index) (length t.packet.iov)

-- The device after a data packet that left the packet `p` and the memory `buf`.
abbrev pub advanced : {D : Type 0} → Turn D → Packet → List ℕ → Turn D
advanced t p buf = record t {
  control = record (t.control) {
    data_buf = buf;
    setup_index = t.control.setup_index + portion t;
    setup_state =
        if leb t.control.setup_len (t.control.setup_index + portion t)
        then ack
        else t.control.setup_state;
  };
  packet = p;
}

module _ {D : Type 0} (h : Handler D) where
  pub do_token_setup_lem :
      (t : Turn D)
      → t.packet.pid ≡ token_setup
      → t.packet.actual_length ≡ 0
      → length t.packet.iov ≡ 8
      → length t.control.setup_buf ≡ 8
      → do_token_setup h t
        ≡ some (
            if ltb data_buf_size (request_len t.packet.iov)
            then stalled h (latched t)
            else setup_request h (latched t))
  unfolding do_token_setup
  do_token_setup_lem t e z n m = rw (n, copy-setup t.packet t.control.setup_buf e z n m)

  pub do_token_setup_other :
      (t : Turn D) → length t.packet.iov ≢ 8 → do_token_setup h t ≡ some (stalled h t)
  unfolding do_token_setup
  do_token_setup_other t n = ground arith

  pub transfer-in :
      (t : Turn D)
      → t.packet.pid ≡ token_in
      → t.packet.actual_length ≡ 0
      → transfer h t
        ≡ some (
            advanced t
              (record (t.packet) {
                iov =
                    write_at t.packet.iov 0
                      (take (portion t) (drop t.control.setup_index t.control.data_buf));
                actual_length = portion t;
              })
              t.control.data_buf)
  unfolding transfer
  transfer-in t e z =
      rw (copy-in t.packet t.control.data_buf t.control.setup_index (portion t) e z (omega arith))

  pub transfer-out :
      (t : Turn D)
      → t.packet.pid ≡ token_out
      → t.packet.actual_length ≡ 0
      → transfer h t
        ≡ some (
            advanced t
              (record (t.packet) { actual_length = portion t })
              (write_at t.control.data_buf t.control.setup_index (take (portion t) t.packet.iov)))
  unfolding transfer
  transfer-out t e z =
      rw (copy-out t.packet t.control.data_buf t.control.setup_index (portion t) e z (omega arith))

  pub do_token_in-transfer :
      (t : Turn D)
      → t.control.setup_state ≡ data_stage
      → is_dir_in t.control.setup_buf ≡ true
      → do_token_in h t ≡ transfer h t
  unfolding do_token_in
  do_token_in-transfer t st dir = ground arith

  pub do_token_out-transfer :
      (t : Turn D)
      → t.control.setup_state ≡ data_stage
      → is_dir_in t.control.setup_buf ≡ false
      → do_token_out h t ≡ transfer h t
  unfolding do_token_out
  do_token_out-transfer t st dir = ground arith
