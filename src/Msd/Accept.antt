-- ===== src/Msd/Accept.antt =====
-- The command stage of a READ or a WRITE command.
use usbqemu_wheel.Common.{
  ◌*◌, ◌%◌, ◌^◌, ◌≡◌, ◌≢◌, refl, ◌∙◌, ◌⊎◌, inl, inr, true, some, [], length, bit, arith, take,
  take-length, if◌then◌else◌, ==_ne, ap, sym,
}
use usbqemu_wheel.Usb.Packet.{Packet, token_out}
use usbqemu_wheel.Usb.Control.Steps.{copy-out}
use usbqemu_wheel.Msd.State.{
  Cbw, Msd, Files, cbw_mode, data_in, data_out, block_size, cbw_sig, parse_cbw, set_sense, no_sense,
  sense_bytes, command_passed,
}
use usbqemu_wheel.Msd.Command.{
  opcode, lba, transfer_len, do_transfer, send_command, read_10, read_12, write_10, write_12,
}
use usbqemu_wheel.Msd.Transport.{handle_data, handle_out, take_command, accept, cbw_size}

-- A command wrapper that the device takes.
pub record IsCommand (c : Cbw) : Type 0 where
  pub signed : c.sig ≡ cbw_sig
  pub first_lun : c.lun ≡ 0

-- READ_10, READ_12, WRITE_10 or WRITE_12
abbrev pub IsTransfer : Cbw → Type 0
IsTransfer c =
    ((opcode c ≡ read_10) ⊎ (opcode c ≡ read_12)) ⊎ ((opcode c ≡ write_10) ⊎ (opcode c ≡ write_12))

module _ {F : Type 0} where
  -- The device in the data stage of a READ or a WRITE command, with its file at the first block.
  unfoldable pub positioned : Msd F → Cbw → F → Msd F
  positioned s c file = record s {
    tag = c.tag;
    data_len = transfer_len c * block_size % 2 ^ 32;
    file_op_tag = c.tag;
    mode = if bit c.flags 7 then data_in else data_out;
    req_valid = true;
    req_tag = c.tag;
    last_cmd = opcode c;
    result = command_passed;
    off = 0;
    sense_buf = sense_bytes no_sense;
    file = file;
  }

module _ {F : Type 0} (io : Files F) where
  pub handle_data-out :
      (s : Msd F) (p : Packet)
      → p.pid ≡ token_out
      → p.ep_nr ≡ 2
      → handle_data io s p ≡ handle_out io s p
  unfolding handle_data
  handle_data-out s p i e = ground arith

  pub handle_out-command :
      (s : Msd F) (p : Packet) → s.mode ≡ cbw_mode → handle_out io s p ≡ take_command io s p
  unfolding handle_out
  handle_out-command s p m = ground arith

  -- A wrapper with the right size, signature and LUN is accepted.
  pub handle_data-command :
      (s : Msd F) (p : Packet)
      → p.pid ≡ token_out
      → p.ep_nr ≡ 2
      → p.actual_length ≡ 0
      → length p.iov ≡ cbw_size
      → s.mode ≡ cbw_mode
      → IsCommand (parse_cbw p.iov)
      → handle_data io s p
        ≡ some (record {
          dev = accept io s (parse_cbw p.iov);
          packet = record p { actual_length = cbw_size };
        })
  unfolding take_command
  handle_data-command s p i e z n m v =
      handle_data-out s p i e
      ∙ handle_out-command s p m
      ∙ rw
          (
            take_command,
            copy-out p [] 0 cbw_size i z (omega arith),
            whole,
            n,
            v.signed,
            v.first_lun,
          )
          refl
    where
      whole : take cbw_size p.iov ≡ p.iov
      whole = ap (λ k. take k p.iov) (sym n) ∙ take-length p.iov

  send_command-transfer :
      (s : Msd F) (c : Cbw)
      → IsTransfer c
      → send_command io s c
        ≡ do_transfer io
            (set_sense
              (record s { last_cmd = opcode c; result = command_passed; off = 0 })
              no_sense)
            c
  unfolding send_command
  send_command-transfer s c (inl (inl e)) = rw (send_command, e) refl
  send_command-transfer s c (inl (inr e)) = rw (send_command, e) refl
  send_command-transfer s c (inr (inl e)) = rw (send_command, e) refl
  send_command-transfer s c (inr (inr e)) = rw (send_command, e) refl

  pub accept-positioned :
      (s : Msd F) (c : Cbw) (file : F)
      → IsTransfer c
      → c.data_len ≢ 0
      → transfer_len c ≢ 0
      → io.fseek s.file (lba c * block_size) ≡ some file
      → accept io s c ≡ positioned s c file
  unfolding accept do_transfer positioned set_sense
  accept-positioned s c file t d n k =
      rw (accept, ==_ne c.data_len 0 d)
        (send_command-transfer _ c t ∙ rw (do_transfer, ==_ne (transfer_len c) 0 n, k) refl)
