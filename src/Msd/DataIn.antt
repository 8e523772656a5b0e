-- ===== src/Msd/DataIn.antt =====
-- The whole data stage of a READ command, whatever packets the host asks with.
use usbqemu_wheel.Common.{
  ℕ, ◌+◌, ◌-◌, ◌≤◌, ◌<◌, ◌≡◌, refl, sym, ap, ◌∙◌, Option, some, List, [], ◌∷◌, ◌++◌, arith, length,
  take, drop, length-take, length-drop, length-write_at, write_at, take-add, drop-drop, ◌==◌,
  if◌then◌else◌, take-length,
}
use usbqemu_wheel.Usb.Control.{◌>>=◌}
use usbqemu_wheel.Usb.Control.Stages.{total, blank, length-blank}
use usbqemu_wheel.Msd.State.{Msd, Files, data_in, csw_mode, buf_size}
use usbqemu_wheel.Msd.Transport.{Answer, handle_data}
use usbqemu_wheel.Msd.Disk.{IsDisk}
use usbqemu_wheel.Msd.Part.{ended, after_bytes}
use usbqemu_wheel.Msd.Transfer.{asked, Chunks, chunk, IsTransferring, nonzero, moved_along}
use usbqemu_wheel.Msd.Reading.{handle_data-read}

module _ {F : Type 0} (io : Files F) where
  -- A host that reads with IN packets of the given sizes: what their buffers hold, and the device.
  pub read_stage : Msd F → List ℕ → Option (List ℕ × Msd F)
  read_stage s [] = some ([], s)
  read_stage s (n ∷ ns) = handle_data io s (asked n) >>= λ (a : Answer F).
      read_stage a.dev ns >>= λ (r : List ℕ × Msd F).
      some (take a.packet.actual_length a.packet.iov ++ r.0, r.1)

module _ {F : Type 0} (io : Files F) (image : F → List ℕ) (position : F → ℕ) where
  -- What a packet leaves.
  record Given (s : Msd F) (left pos n : ℕ) (a : Answer F) : Type 0 where
    shown : take a.packet.actual_length a.packet.iov ≡ take n (drop pos (image s.file))
    going : IsTransferring image position data_in a.dev (left - n) (pos + n)
    kept : image a.dev.file ≡ image s.file
    request : a.dev.req_tag ≡ s.req_tag

  read_packet :
      IsDisk io image position
      → (s : Msd F) (left pos n : ℕ) → IsTransferring image position data_in s left pos
      → 0 < n
      → n ≤ buf_size
      → n ≤ left
      → (a : Answer F) × (handle_data io s (asked n) ≡ some a) × Given s left pos n a
  unfolding after_bytes ended
  read_packet disk s left pos n v p fits h =
      let (got, same, moved) = disk.reads s.file n (omega (arith, v.here, v.within)) in
      let full : length (io.fread s.file n).0 ≡ n = omega (
        arith,
        ap length got,
        v.here,
        v.within,
        length-take n (drop (position s.file) (image s.file)),
        length-drop (position s.file) (image s.file),
      ) in
      let sized : length (blank n) ≡ n = length-blank n in
      (
        record {
          dev =
              after_bytes s (write_at s.buf 0 (io.fread s.file n).0) (io.fread s.file n).1
                (length (blank n));
          packet = record (asked n) {
            iov = (io.fread s.file n).0;
            actual_length = length (blank n);
          };
        },
        handle_data-read io s (asked n) (io.fread s.file n).0 (io.fread s.file n).1 refl refl refl
            (omega arith) v.room (ap (λ k. io.fread s.file k) sized) (omega arith) v.idle
            (v.mode_is ∙ nonzero left data_in (omega arith)) v.own (omega (arith, v.left_is))
            (omega (arith, v.left_is, v.small)),
        record {
          shown =
              ap (λ k. take k (io.fread s.file n).0) (omega arith)
              ∙ take-length (io.fread s.file n).0
              ∙ got
              ∙ ap (λ k. take n (drop k (image s.file))) v.here;
          going = record {
            mode_is =
                rw (v.left_is, sized)
                  (ap (λ m. if (left - n) == 0 then csw_mode else m)
                    (v.mode_is ∙ nonzero left data_in (omega arith)));
            own = v.own;
            idle = v.idle;
            passed = v.passed;
            left_is = omega (arith, v.left_is);
            small = omega (arith, v.small);
            room = length-write_at (io.fread s.file n).0 s.buf 0 ∙ v.room;
            here = omega (arith, moved, v.here);
            within = omega (arith, ap length same, v.within);
          };
          kept = same;
          request = refl;
        },
      )

  -- IN packets of any sizes are given the bytes of the file, in order.
  pub read_stage_lem :
      IsDisk io image position
      → (s : Msd F) (left pos : ℕ) (ns : List ℕ) → IsTransferring image position data_in s left pos
      → Chunks ns
      → total ns ≤ left
      → (s' : Msd F) × (read_stage io s ns ≡ some (take (total ns) (drop pos (image s.file)), s'))
        × IsTransferring image position data_in s' (left - total ns) (pos + total ns)
        × (image s'.file ≡ image s.file)
        × (s'.req_tag ≡ s.req_tag)
  unfolding read_stage total
  read_stage_lem disk s left pos [] v c h =
      (s, refl, moved_along v (omega arith) (omega arith), refl, refl)
  read_stage_lem disk s left pos (n ∷ ns) v (chunk p fits c) h =
      let (a, one, g) = read_packet disk s left pos n v p fits (omega arith) in
      let (s', rest, v', i, r) =
        read_stage_lem disk a.dev (left - n) (pos + n) ns g.going c (omega arith) in
      (
        s',
        rw (one, rest, g.shown, g.kept) (ap (λ l. some (l, s')) joined),
        moved_along v' (omega arith) (omega arith),
        i ∙ g.kept,
        r ∙ g.request,
      )
    where
      joined :
          take n (drop pos (image s.file)) ++ take (total ns) (drop (pos + n) (image s.file))
          ≡ take (n + total ns) (drop pos (image s.file))
      joined =
          ap (λ l. take n (drop pos (image s.file)) ++ take (total ns) l)
            (sym (drop-drop pos n (image s.file)))
          ∙ sym (take-add n (total ns) (drop pos (image s.file)))
