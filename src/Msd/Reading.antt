-- ===== src/Msd/Reading.antt =====
-- One IN packet of the data stage of a READ command.
use usbqemu_wheel.Common.{
  ℕ, ◌≤◌, ◌<◌, ◌^◌, ◌≡◌, sym, ap, ◌∙◌, none, some, List, arith, length, take, write_at,
  write_at-whole, slice-write_at, ltb_ge,
}
use usbqemu_wheel.Usb.Packet.{Packet, token_in}
use usbqemu_wheel.Usb.Control.Steps.{copy-in}
use usbqemu_wheel.Msd.State.{Msd, Files, data_in, buf_size}
use usbqemu_wheel.Msd.Transport.{handle_data, handle_in, data_in_packet, copy_data, copy_from_file}
use usbqemu_wheel.Msd.Part.{after_bytes, copied-after_bytes, after_copy-full}

module _ {F : Type 0} (io : Files F) where
  -- The file gives the packet all that it asks for.
  copy_from_file-whole :
      (s : Msd F) (p : Packet) (bytes : List ℕ) (file : F)
      → p.pid ≡ token_in
      → p.actual_length ≡ 0
      → length p.iov ≤ buf_size
      → length s.buf ≡ buf_size
      → io.fread s.file (length p.iov) ≡ (bytes, file)
      → length bytes ≡ length p.iov
      → s.packet ≡ none
      → length p.iov ≤ s.data_len
      → s.data_len < 2 ^ 32
      → copy_from_file io s p (length p.iov)
        ≡ some (record {
          dev = after_bytes s (write_at s.buf 0 bytes) file (length p.iov);
          packet = record p { iov = bytes; actual_length = length p.iov };
        })
  unfolding copy_from_file
  copy_from_file-whole s p bytes file i z fits b read all n h w =
      rw
        (
          copy_from_file,
          ltb_ge buf_size (length p.iov) fits,
          read,
          ltb_ge (length bytes) (length p.iov) (omega arith),
          copy-in p (write_at s.buf 0 bytes) 0 (length p.iov) i z (omega arith),
          slice,
          write_at-whole p.iov bytes all,
        )
        (copied-after_bytes io s (record p { iov = bytes; actual_length = length p.iov })
          (write_at s.buf 0 bytes) file (length p.iov) n h w)
    where
      slice : take (length p.iov) (write_at s.buf 0 bytes) ≡ bytes
      slice =
          ap (λ k. take k (write_at s.buf 0 bytes)) (sym all)
          ∙ slice-write_at s.buf bytes 0 (omega (arith))

  pub handle_data-in :
      (s : Msd F) (p : Packet)
      → p.pid ≡ token_in
      → p.ep_nr ≡ 1
      → handle_data io s p ≡ handle_in io s p
  unfolding handle_data
  handle_data-in s p i e = ground arith

  pub handle_in-data :
      (s : Msd F) (p : Packet) → s.mode ≡ data_in → handle_in io s p ≡ data_in_packet io s p
  unfolding handle_in
  handle_in-data s p m = ground arith

  copy_data-file :
      (s : Msd F) (p : Packet)
      → s.mode ≡ data_in
      → s.tag ≡ s.file_op_tag
      → p.actual_length ≡ 0
      → length p.iov ≤ buf_size
      → copy_data io s p ≡ copy_from_file io s p (length p.iov)
  unfolding copy_data
  copy_data-file s p m t z fits = ground arith

  -- A fresh IN packet of a READ command, of at most 4096 bytes and no more than are left.
  pub handle_data-read :
      (s : Msd F) (p : Packet) (bytes : List ℕ) (file : F)
      → p.pid ≡ token_in
      → p.ep_nr ≡ 1
      → p.actual_length ≡ 0
      → length p.iov ≤ buf_size
      → length s.buf ≡ buf_size
      → io.fread s.file (length p.iov) ≡ (bytes, file)
      → length bytes ≡ length p.iov
      → s.packet ≡ none
      → s.mode ≡ data_in
      → s.tag ≡ s.file_op_tag
      → length p.iov ≤ s.data_len
      → s.data_len < 2 ^ 32
      → handle_data io s p
        ≡ some (record {
          dev = after_bytes s (write_at s.buf 0 bytes) file (length p.iov);
          packet = record p { iov = bytes; actual_length = length p.iov };
        })
  unfolding data_in_packet
  handle_data-read s p bytes file i e z fits b read all n m t h w =
      handle_data-in s p i e
      ∙ handle_in-data s p m
      ∙ rw
          (
            data_in_packet,
            ltb_ge s.data_len (length p.iov) h,
            copy_data-file s p m t z fits,
            copy_from_file-whole s p bytes file i z fits b read all n h w,
          )
          (after_copy-full io _ (sym all))
