-- ===== src/Msd/Refusals.antt =====
-- What the device refuses.
use usbqemu_wheel.Common.{
  le_bytes, ℕ, ◌%◌, ◌≡◌, refl, sym, ap, ◌∙◌, true, false, Option, some, List, [], ◌∷◌, ◌++◌, arith,
  length, take, ◌==◌, ==_ne, take-length,
}
use usbqemu_wheel.Usb.Packet.{Packet, token_out}
use usbqemu_wheel.Usb.Control.{◌>>=◌}
use usbqemu_wheel.Usb.Control.Steps.{copy-out}
use usbqemu_wheel.Msd.State.{Msd, Files, csw_mode, cbw_mode, Csw, csw_sig, csw_bytes}
use usbqemu_wheel.Msd.Transport.{Answer, handle_data}
use usbqemu_wheel.Msd.Part.{ended}
use usbqemu_wheel.Msd.Transfer.{fresh, asked}
use usbqemu_wheel.Common.{◌⊎◌, inl, inr, ◌≢◌}
use usbqemu_wheel.Usb.Packet.{stall}
use usbqemu_wheel.Msd.State.{parse_cbw, cbw_sig, reject, set_sense, command_failed, sense_bytes}
use usbqemu_wheel.Common.{Bool-cases, ==_iff, ◌&&◌}
use usbqemu_wheel.Msd.State.{Cbw, invalid_opcode}
use usbqemu_wheel.Msd.Command.{
  opcode, send_command, test_unit_ready, request_sense, inquiry, read_capacity_10, read_10, read_12,
  write_10, write_12,
}
use usbqemu_wheel.Msd.Accept.{IsCommand, handle_data-command}
use usbqemu_wheel.Msd.Status.{answered, handle_data-status}
use usbqemu_wheel.Msd.Transaction.{IsIdle}
use usbqemu_wheel.Msd.Transport.{cbw_size, accept, take_command, stalled}
use usbqemu_wheel.Msd.Accept.{handle_data-out, handle_out-command}

-- An opcode that is none of those of `send_command`.
pub record IsUnknown (c : Cbw) : Type 0 where
  pub no_test : opcode c ≢ test_unit_ready
  pub no_sense_request : opcode c ≢ request_sense
  pub no_inquiry : opcode c ≢ inquiry
  pub no_capacity : opcode c ≢ read_capacity_10
  pub no_read : opcode c ≢ read_10
  pub no_long_read : opcode c ≢ read_12
  pub no_write : opcode c ≢ write_10
  pub no_long_write : opcode c ≢ write_12

-- The first 13 bytes of a CSW.
abbrev pub csw_bytes_13 : Csw → List ℕ
csw_bytes_13 c =
    le_bytes 4 c.sig ++ (le_bytes 4 c.tag ++ (le_bytes 4 c.residue ++ ((c.status % 256) ∷ [])))

-- The device after a command that it does not know.
refused : {F : Type 0} → Msd F → Cbw → Msd F
refused s c = record s {
  tag = c.tag;
  data_len = c.data_len;
  mode = csw_mode;
  req_valid = true;
  req_tag = c.tag;
  last_cmd = opcode c;
  result = command_failed;
  off = 0;
  sense_buf = sense_bytes invalid_opcode;
}

module _ {F : Type 0} (io : Files F) where
  -- A packet that should be a command wrapper, and has the wrong size, the wrong signature or
  -- a LUN other than 0, is answered by a stall and changes nothing of the device.
  pub bad_command :
      (s : Msd F) (p : Packet)
      → p.pid ≡ token_out
      → p.ep_nr ≡ 2
      → p.actual_length ≡ 0
      → s.mode ≡ cbw_mode
      → (length p.iov ≢ cbw_size)
        ⊎ (((parse_cbw p.iov).sig ≢ cbw_sig) ⊎ ((parse_cbw p.iov).lun ≢ 0))
      → (q : Packet) × (handle_data io s p ≡ some (record { dev = s; packet = q }))
        × (q.status ≡ stall)
  unfolding take_command stalled
  bad_command s p i e z m (inl n) = (
    record p { status = stall },
    handle_data-out io s p i e
        ∙ handle_out-command io s p m
        ∙ rw (take_command, ==_ne (length p.iov) cbw_size n) refl,
    refl,
  )
  bad_command s p i e z m (inr bad) = elim (Bool-cases (length p.iov == cbw_size)) [
    | inl n ↦ sized ((==_iff (length p.iov) cbw_size).0 n)
    | inr n ↦ (
      record p { status = stall },
      handle_data-out io s p i e ∙ handle_out-command io s p m ∙ rw (take_command, n) refl,
      refl,
    )
  ]
    where
      wrong : ((parse_cbw p.iov).sig == cbw_sig && (parse_cbw p.iov).lun == 0) ≡ false
      wrong = ground (arith, bad)

      sized :
          length p.iov ≡ cbw_size
          → (q : Packet) × (handle_data io s p ≡ some (record { dev = s; packet = q }))
            × (q.status ≡ stall)
      sized n = (
        record p { actual_length = cbw_size; status = stall },
        handle_data-out io s p i e
            ∙ handle_out-command io s p m
            ∙ rw
                (
                  take_command,
                  copy-out p [] 0 cbw_size i z (omega arith),
                  ap (λ k. take k p.iov) (sym n) ∙ take-length p.iov,
                  n,
                  wrong,
                )
                refl,
        refl,
      )

  -- A host that sends a command without data, and asks for its status.
  pub run_command : Msd F → List ℕ → Option (List ℕ × Msd F)
  run_command s cbw = handle_data io s (fresh token_out 2 cbw) >>= λ (a : Answer F).
      handle_data io a.dev (asked 13) >>= λ (b : Answer F). some (b.packet.iov, b.dev)

  accept-unknown : (s : Msd F) (c : Cbw) → IsUnknown c → accept io s c ≡ refused s c
  unfolding accept send_command reject set_sense refused
  accept-unknown s c u =
      rw
        (
          accept,
          send_command,
          ==_ne (opcode c) test_unit_ready u.no_test,
          ==_ne (opcode c) request_sense u.no_sense_request,
          ==_ne (opcode c) inquiry u.no_inquiry,
          ==_ne (opcode c) read_capacity_10 u.no_capacity,
          ==_ne (opcode c) read_10 u.no_read,
          ==_ne (opcode c) read_12 u.no_long_read,
          ==_ne (opcode c) write_10 u.no_write,
          ==_ne (opcode c) write_12 u.no_long_write,
        )
        refl

  -- Between two commands, a well-formed wrapper with an opcode that the device does not know
  -- is followed by a status packet of 13 bytes with the command's tag, all of its data length
  -- as the residue and the status 1; the device then waits for the next command, with its
  -- file untouched and the sense data of an invalid opcode.
  pub unknown_command :
      (s : Msd F)
      → IsIdle s
      → (cbw : List ℕ) → length cbw ≡ cbw_size
      → IsCommand (parse_cbw cbw)
      → IsUnknown (parse_cbw cbw)
      → (s' : Msd F) × (run_command s cbw
          ≡ some (
            csw_bytes_13 (record {
              sig = csw_sig;
              tag = (parse_cbw cbw).tag;
              residue = (parse_cbw cbw).data_len;
              status = 1;
            }),
            s',
          ))
        × IsIdle s'
        × (s'.file ≡ s.file)
        × (s'.sense_buf ≡ sense_bytes invalid_opcode)
  unfolding run_command answered ended refused csw_bytes
  unknown_command s v cbw n q u =
      let t : Msd F = refused s (parse_cbw cbw) in
      (
        answered t,
        rw
            (
              handle_data-command io s (fresh token_out 2 cbw) refl refl refl n v.waits q,
              accept-unknown s (parse_cbw cbw) u,
              handle_data-status io t (asked 13) refl refl refl (omega arith) refl v.free,
            )
            refl,
        record { waits = refl; free = v.free; room = v.room },
        refl,
        refl,
      )
