-- ===== src/Msd/DataOut.antt =====
-- The whole data stage of a WRITE command, whatever packets the host sends.
use usbqemu_wheel.Common.{
  length-append, write_at-append, ◌≢◌, ℕ, ◌+◌, ◌-◌, ◌≤◌, ◌≡◌, refl, ap, ◌∙◌, Option, some, List, [],
  ◌∷◌, ◌++◌, arith, length, length-write_at, write_at, ◌==◌, if◌then◌else◌,
}
use usbqemu_wheel.Usb.Packet.{token_out}
use usbqemu_wheel.Usb.Control.{◌>>=◌}
use usbqemu_wheel.Msd.State.{Msd, Files, data_out, csw_mode, buf_size}
use usbqemu_wheel.Msd.Transport.{Answer, handle_data}
use usbqemu_wheel.Msd.Disk.{IsDisk}
use usbqemu_wheel.Msd.Part.{ended, after_bytes}
use usbqemu_wheel.Msd.Transfer.{fresh, IsTransferring, nonzero, moved_along}
use usbqemu_wheel.Msd.Writing.{handle_data-write}

-- The packets that a host sends, together.
unfoldable pub joined : List (List ℕ) → List ℕ
joined [] = []
joined (bs ∷ bss) = bs ++ joined bss

-- Packets that are not empty, and no larger than `buf`.
pub data Blocks : List (List ℕ) → Type 0 where
  no_block : Blocks []
  block :
      {bs : List ℕ} {bss : List (List ℕ)}
      → length bs ≢ 0
      → length bs ≤ buf_size
      → Blocks bss
      → Blocks (bs ∷ bss)

module _ {F : Type 0} (io : Files F) where
  -- A host that writes with OUT packets.
  unfoldable pub write_stage : Msd F → List (List ℕ) → Option (Msd F)
  write_stage s [] = some s
  write_stage s (bs ∷ bss) =
      handle_data io s (fresh token_out 2 bs) >>= λ (a : Answer F). write_stage a.dev bss

module _ {F : Type 0} (io : Files F) (image : F → List ℕ) (position : F → ℕ) where
  -- What a packet leaves.
  record Taken (s : Msd F) (left pos : ℕ) (bs : List ℕ) (a : Answer F) : Type 0 where
    going : IsTransferring image position data_out a.dev (left - length bs) (pos + length bs)
    written : image a.dev.file ≡ write_at (image s.file) pos bs
    request : a.dev.req_tag ≡ s.req_tag

  write_packet :
      IsDisk io image position
      → (s : Msd F) (left pos : ℕ) (bs : List ℕ) → IsTransferring image position data_out s left pos
      → length bs ≢ 0
      → length bs ≤ buf_size
      → length bs ≤ left
      → (a : Answer F) × (handle_data io s (fresh token_out 2 bs) ≡ some a) × Taken s left pos bs a
  unfolding after_bytes ended
  write_packet disk s left pos bs v p fits h =
      let (wrote, same, moved) = disk.writes s.file bs (omega (arith, v.here, v.within)) in
      let mode : s.mode ≡ data_out = v.mode_is ∙ nonzero left data_out (omega arith) in
      let image_is : image (io.fwrite s.file bs).1 ≡ write_at (image s.file) pos bs =
        same ∙ ap (λ k. write_at (image s.file) k bs) v.here in
      (
        record {
          dev = after_bytes s (write_at s.buf 0 bs) (io.fwrite s.file bs).1 (length bs);
          packet = record (fresh token_out 2 bs) { actual_length = length bs };
        },
        handle_data-write io s (fresh token_out 2 bs) (io.fwrite s.file bs).1 refl refl refl p fits
            v.room (ap (λ k. (k, (io.fwrite s.file bs).1)) wrote) v.idle mode v.own
            (omega (arith, v.left_is)) (omega (arith, v.left_is, v.small)),
        record {
          going = record {
            mode_is = rw v.left_is (ap (λ m. if (left - length bs) == 0 then csw_mode else m) mode);
            own = v.own;
            idle = v.idle;
            passed = v.passed;
            left_is = omega (arith, v.left_is);
            small = omega (arith, v.small);
            room = length-write_at bs s.buf 0 ∙ v.room;
            here = omega (arith, moved, v.here);
            within =
                omega (arith, ap length image_is, length-write_at bs (image s.file) pos, v.within);
          };
          written = image_is;
          request = refl;
        },
      )

  -- OUT packets of any sizes are written to the file one behind the other.
  pub write_stage_lem :
      IsDisk io image position
      → (s : Msd F) (left pos : ℕ) (bss : List (List ℕ))
      → IsTransferring image position data_out s left pos
      → Blocks bss
      → length (joined bss) ≤ left
      → (s' : Msd F) × (write_stage io s bss ≡ some s')
        × IsTransferring image position data_out s'
            (left - length (joined bss))
            (pos + length (joined bss))
        × (image s'.file ≡ write_at (image s.file) pos (joined bss))
        × (s'.req_tag ≡ s.req_tag)
  unfolding write_stage joined
  write_stage_lem disk s left pos [] v c h =
      (s, refl, moved_along v (omega arith) (omega arith), refl, refl)
  write_stage_lem disk s left pos (bs ∷ bss) v (block p fits c) h =
      let both : length (bs ++ joined bss) ≡ length bs + length (joined bss) =
        length-append bs (joined bss) in
      let (a, one, g) = write_packet disk s left pos bs v p fits (omega arith) in
      let (s', rest, v', i, r) =
        write_stage_lem disk a.dev (left - length bs) (pos + length bs) bss g.going c
          (omega arith) in
      (
        s',
        rw one rest,
        moved_along v' (omega arith) (omega arith),
        i
            ∙ ap (λ l. write_at l (pos + length bs) (joined bss)) g.written
            ∙ write_at-append (image s.file) bs (joined bss) pos,
        r ∙ g.request,
      )
