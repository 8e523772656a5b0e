-- ===== src/Msd/Part.antt =====
-- The end of a part of a command, when no packet waits.
use usbqemu_wheel.Common.{
  ℕ, ◌+◌, ◌-◌, ◌≤◌, ◌<◌, ◌^◌, ◌≡◌, ap, false, Option, none, some, List, arith, length, ◌==◌,
  if◌then◌else◌,
}
use usbqemu_wheel.Usb.Packet.{Packet}
use usbqemu_wheel.Usb.Control.{◌>>=◌}
use usbqemu_wheel.Msd.State.{Msd, Files, csw_mode, csw_sig}
use usbqemu_wheel.Msd.Transport.{Answer, copied, command_complete, after_copy, sub32}

module _ {F : Type 0} where
  -- A command's end with no packet waiting.
  unfoldable pub ended : Msd F → Msd F
  ended s = record s {
    csw = record {
      sig = csw_sig;
      tag = s.req_tag;
      residue = s.data_len;
      status = if s.result == 0 then 0 else 1;
    };
    mode = if s.data_len == 0 then csw_mode else s.mode;
    req_valid = false;
  }

  -- The device after `len` bytes of the command, with the buffer and the file that they left.
  unfoldable pub after_bytes : Msd F → List ℕ → F → ℕ → Msd F
  unfolding ended
  after_bytes s buf file len =
      ended (record s { buf = buf; file = file; off = s.off + len; data_len = s.data_len - len })

pub sub32_lem : (a b : ℕ) → b ≤ a → a < 2 ^ 32 → sub32 a b ≡ a - b
sub32_lem a b h w = omega arith

module _ {F : Type 0} (io : Files F) where
  pub command_complete-ended :
      (s : Msd F) → s.packet ≡ none → command_complete io s ≡ some (ended s)
  unfolding command_complete ended
  command_complete-ended s n = ground arith

  pub copied-after_bytes :
      (s : Msd F) (p : Packet) (buf : List ℕ) (file : F) (len : ℕ)
      → s.packet ≡ none
      → len ≤ s.data_len
      → s.data_len < 2 ^ 32
      → copied io (record { dev = record s { buf = buf; file = file }; packet = p }) len
        ≡ some (record { dev = after_bytes s buf file len; packet = p })
  unfolding copied after_bytes
  copied-after_bytes s p buf file len n h w = rw (sub32_lem s.data_len len h w) (
      ap (λ (o : Option (Msd F)). o >>= λ (t : Msd F). some (record { dev = t; packet = p }))
        (command_complete-ended
          (record s { buf = buf; file = file; off = s.off + len; data_len = s.data_len - len }) n))

  -- Nothing is cut off a packet that was filled.
  pub after_copy-full :
      (a : Answer F) → a.packet.actual_length ≡ length a.packet.iov → after_copy io a ≡ some a
  unfolding after_copy
  after_copy-full a full = ground arith
