-- ===== src/Msd/Writing.antt =====
-- One OUT packet of the data stage of a WRITE command.
use usbqemu_wheel.Common.{
  ◌≢◌, ◌≤◌, ◌<◌, ◌^◌, ◌≡◌, refl, ◌∙◌, none, some, arith, length, take, write_at, slice-write_at,
  ltb_ge, ==_ne, take-length,
}
use usbqemu_wheel.Usb.Packet.{Packet, token_out}
use usbqemu_wheel.Usb.Control.Steps.{copy-out}
use usbqemu_wheel.Msd.State.{Msd, Files, data_out, buf_size}
use usbqemu_wheel.Msd.Transport.{handle_data, handle_out, data_out_packet, copy_data, copy_to_file}
use usbqemu_wheel.Msd.Part.{after_bytes, copied-after_bytes, after_copy-full}
use usbqemu_wheel.Msd.Accept.{handle_data-out}

module _ {F : Type 0} (io : Files F) where
  -- The file takes the whole packet.
  copy_to_file-whole :
      (s : Msd F) (p : Packet) (file : F)
      → p.pid ≡ token_out
      → p.actual_length ≡ 0
      → length p.iov ≢ 0
      → length p.iov ≤ buf_size
      → length s.buf ≡ buf_size
      → io.fwrite s.file p.iov ≡ (length p.iov, file)
      → s.packet ≡ none
      → length p.iov ≤ s.data_len
      → s.data_len < 2 ^ 32
      → copy_to_file io s p (length p.iov)
        ≡ some (record {
          dev = after_bytes s (write_at s.buf 0 p.iov) file (length p.iov);
          packet = record p { actual_length = length p.iov };
        })
  unfolding copy_to_file
  copy_to_file-whole s p file i z some_bytes fits b wrote n h w =
      rw
        (
          copy_to_file,
          copy-out p s.buf 0 (length p.iov) i z (omega arith),
          take-length p.iov,
          slice,
          wrote,
          ==_ne (length p.iov) 0 some_bytes,
          ltb_ge (length p.iov) (length p.iov) (omega arith),
        )
        (copied-after_bytes io s (record p { actual_length = length p.iov })
          (write_at s.buf 0 p.iov) file (length p.iov) n h w)
    where
      slice : take (length p.iov) (write_at s.buf 0 p.iov) ≡ p.iov
      slice = slice-write_at s.buf p.iov 0 (omega arith)

  pub handle_out-data :
      (s : Msd F) (p : Packet) → s.mode ≡ data_out → handle_out io s p ≡ data_out_packet io s p
  unfolding handle_out
  handle_out-data s p m = ground arith

  copy_data-file :
      (s : Msd F) (p : Packet)
      → s.mode ≡ data_out
      → s.tag ≡ s.file_op_tag
      → p.actual_length ≡ 0
      → length p.iov ≤ buf_size
      → copy_data io s p ≡ copy_to_file io s p (length p.iov)
  unfolding copy_data
  copy_data-file s p m t z fits = ground arith

  -- A fresh OUT packet of a WRITE command, of at most 4096 bytes and no more than are left.
  pub handle_data-write :
      (s : Msd F) (p : Packet) (file : F)
      → p.pid ≡ token_out
      → p.ep_nr ≡ 2
      → p.actual_length ≡ 0
      → length p.iov ≢ 0
      → length p.iov ≤ buf_size
      → length s.buf ≡ buf_size
      → io.fwrite s.file p.iov ≡ (length p.iov, file)
      → s.packet ≡ none
      → s.mode ≡ data_out
      → s.tag ≡ s.file_op_tag
      → length p.iov ≤ s.data_len
      → s.data_len < 2 ^ 32
      → handle_data io s p
        ≡ some (record {
          dev = after_bytes s (write_at s.buf 0 p.iov) file (length p.iov);
          packet = record p { actual_length = length p.iov };
        })
  unfolding data_out_packet
  handle_data-write s p file i e z some_bytes fits b wrote n m t h w =
      handle_data-out io s p i e
      ∙ handle_out-data s p m
      ∙ rw
          (
            data_out_packet,
            ltb_ge s.data_len (length p.iov) h,
            ==_ne (length p.iov) 0 some_bytes,
            copy_data-file s p m t z fits,
            copy_to_file-whole s p file i z some_bytes fits b wrote n h w,
          )
          (after_copy-full io _ refl)
