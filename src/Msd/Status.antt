-- ===== src/Msd/Status.antt =====
-- The status stage of a command.
use usbqemu_wheel.Common.{
  ◌≤◌, ◌≡◌, refl, ◌∙◌, min, none, some, arith, length, take, write_at, ◌==◌, ltb_ge, if◌then◌else◌,
}
use usbqemu_wheel.Usb.Packet.{Packet, token_in}
use usbqemu_wheel.Usb.Control.Steps.{copy-in}
use usbqemu_wheel.Msd.State.{
  Msd, Files, csw_mode, cbw_mode, Csw, csw_sig, csw_size, csw_bytes, no_csw,
}
use usbqemu_wheel.Msd.Transport.{handle_data, handle_in, send_csw, send_status, status_size}
use usbqemu_wheel.Msd.Part.{ended, command_complete-ended}
use usbqemu_wheel.Msd.Reading.{handle_data-in}

-- What the device says of a command.
abbrev pub status_of : {F : Type 0} → Msd F → Csw
status_of s = record {
  sig = csw_sig;
  tag = s.req_tag;
  residue = s.data_len;
  status = if s.result == 0 then 0 else 1;
}

-- The device that waits for the next command.
unfoldable pub answered : {F : Type 0} → Msd F → Msd F
unfolding ended
answered s = record (ended s) { csw = no_csw; mode = cbw_mode }

module _ {F : Type 0} (io : Files F) where
  handle_in-status :
      (s : Msd F) (p : Packet) → s.mode ≡ csw_mode → handle_in io s p ≡ send_csw io s p
  unfolding handle_in
  handle_in-status s p m = ground arith

  send_status-ended :
      (s : Msd F) (p : Packet)
      → p.pid ≡ token_in
      → p.actual_length ≡ 0
      → send_status io (ended s) p
        ≡ some (record {
          dev = record (ended s) { csw = no_csw };
          packet = record p {
            iov = write_at p.iov 0 (take (min csw_size (length p.iov)) (csw_bytes (status_of s)));
            actual_length = min csw_size (length p.iov);
          };
        })
  unfolding send_status ended
  send_status-ended s p i z =
      rw
        (
          send_status,
          copy-in p (csw_bytes (status_of s)) 0 (min csw_size (length p.iov)) i z (omega arith),
        )
        refl

  -- The status packet.
  pub handle_data-status :
      (s : Msd F) (p : Packet)
      → p.pid ≡ token_in
      → p.ep_nr ≡ 1
      → p.actual_length ≡ 0
      → status_size ≤ length p.iov
      → s.mode ≡ csw_mode
      → s.packet ≡ none
      → handle_data io s p
        ≡ some (record {
          dev = answered s;
          packet = record p {
            iov = write_at p.iov 0 (take (min csw_size (length p.iov)) (csw_bytes (status_of s)));
            actual_length = min csw_size (length p.iov);
          };
        })
  unfolding send_csw answered
  handle_data-status s p i e z fits m n =
      handle_data-in io s p i e
      ∙ handle_in-status s p m
      ∙ rw
          (
            send_csw,
            ltb_ge (length p.iov) status_size fits,
            command_complete-ended io s n,
            send_status-ended s p i z,
          )
          refl
