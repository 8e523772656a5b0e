-- ===== src/Msd/Transfer.antt =====
-- The data stage of a READ or a WRITE command: its packets, and the states between them.
use usbqemu_wheel.Common.{
  ℕ, ◌+◌, ◌≤◌, ◌<◌, ◌^◌, ◌≡◌, sym, false, none, List, [], ◌∷◌, arith, length, ◌==◌, if◌then◌else◌,
}
use usbqemu_wheel.Usb.Packet.{Packet, Token, token_in, success, setup}
use usbqemu_wheel.Usb.Control.Stages.{blank}
use usbqemu_wheel.Msd.State.{Msd, Mode, csw_mode, buf_size}

-- A packet as `usb_packet_setup` and `usb_packet_addbuf` leave it.
abbrev pub fresh : Token → ℕ → List ℕ → Packet
fresh pid ep_nr iov = record {
  pid = pid;
  id = 0;
  ep_nr = ep_nr;
  stream = 0;
  iov = iov;
  parameter = 0;
  short_not_ok = false;
  int_req = false;
  status = success;
  actual_length = 0;
  state = setup;
}

abbrev pub asked : ℕ → Packet
asked n = fresh token_in 1 (blank n)

-- Packets that are not empty, and no larger than `buf`.
pub data Chunks : List ℕ → Type 0 where
  done : Chunks []
  chunk : {n : ℕ} {ns : List ℕ} → 0 < n → n ≤ buf_size → Chunks ns → Chunks (n ∷ ns)

-- The device in a READ command (`m` is `data_in`) or in a WRITE command (`m` is `data_out`), with
-- `left` bytes to move from the byte `pos` of its file on.
pub record IsTransferring {F : Type 0} (image : F → List ℕ) (position : F → ℕ) (m : Mode)
    (s : Msd F) (left pos : ℕ) : Type 0 where
  pub mode_is : s.mode ≡ (if left == 0 then csw_mode else m)
  pub own : s.tag ≡ s.file_op_tag
  pub idle : s.packet ≡ none
  pub passed : s.result ≡ 0
  pub left_is : s.data_len ≡ left
  pub small : left < 2 ^ 32
  pub room : length s.buf ≡ buf_size
  pub here : position s.file ≡ pos
  pub within : pos + left ≤ length (image s.file)

pub nonzero : (n : ℕ) (m : Mode) → 0 < n → (if n == 0 then csw_mode else m) ≡ m
nonzero n m h = ground arith

module _ {F : Type 0} {image : F → List ℕ} {position : F → ℕ} where
  pub moved_along :
      {m : Mode} {s : Msd F} {left left' pos pos' : ℕ}
      → IsTransferring image position m s left pos
      → left ≡ left'
      → pos ≡ pos'
      → IsTransferring image position m s left' pos'
  moved_along v e f = rw (sym e, sym f) v
