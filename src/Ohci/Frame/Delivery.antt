-- ===== src/Ohci/Frame/Delivery.antt =====
-- The done queue at the end of a frame.
use usbqemu_wheel.Common.{
  ℕ, ◌+◌, ◌%◌, ◌^◌, ◌≤◌, ◌<◌, Bool, true, false, not, ◌&&◌, List, ◌++◌, ◌==◌, bit, bit_or, bit_and,
  take, drop, write_at, le_bytes, length, length-write_at, ◌≡◌, ◌≢◌, refl, ap, ◌∙◌, arith, if_both,
  if_when, if_unless, inl, inr, ltb, slice-write_at, write_at-zero, drop-write_at, slice-take,
  part-write_at, length-drop, ==_ne, leb_gt, ◌⊎◌, bit-bit_or, bit-two_pow, length-take,
}
use usbqemu_wheel.Usb.Device.{Class}
use usbqemu_wheel.Ohci.State.{
  Ohci, intr_wd, intr_sf, intr_mie, min_irq_interval, level, ohci_sof, ohci_set_interrupt,
  ohci_intr_update,
}
use usbqemu_wheel.Ohci.Td.{memory_end, physical_write}
use usbqemu_wheel.Ohci.Dma.{Host}
use usbqemu_wheel.Ohci.Service.Sound.{IsSound}
use usbqemu_wheel.Ohci.Frame.{
  Boundary, passed, is_due, queue_out, count_down, done_head, area, end_frame, hcca_size,
}

-- What an interrupt leaves alone.
record Keeps {D : Type 0} (s t : Ohci D) : Type 0 where
  done_is : t.done ≡ s.done
  count_is : t.done_count ≡ s.done_count
  frame_is : t.frame_number ≡ s.frame_number
  hcca_is : t.hcca ≡ s.hcca
  status_is : t.intr_status ≡ s.intr_status

module _ {D : Type 0} where
  intr_update-Keeps : (s : Ohci D) → Keeps s (ohci_intr_update s)
  unfolding ohci_intr_update level
  intr_update-Keeps s =
      let same : Keeps s s = record {
        done_is = refl;
        count_is = refl;
        frame_is = refl;
        hcca_is = refl;
        status_is = refl;
      } in
      if_both (Keeps s) (bit s.intr intr_mie && not (bit_and s.intr_status s.intr == 0))
        (if_both (Keeps s) (ltb (s.last_cycle + min_irq_interval) s.clock)
          (record {
            done_is = refl;
            count_is = refl;
            frame_is = refl;
            hcca_is = refl;
            status_is = refl;
          })
          same)
        same

  -- What the interrupt of the done queue and the start of the next frame leave.
  sof-Keeps :
      (s : Ohci D)
      → Keeps (record s { intr_status = bit_or s.intr_status (2 ^ intr_sf) }) (ohci_sof s)
  unfolding ohci_sof ohci_set_interrupt
  sof-Keeps s =
      let f = intr_update-Keeps (record s {
        sof_time = s.clock;
        eof_timer = s.usb_frame_time;
        intr_status = bit_or s.intr_status (2 ^ intr_sf);
      }) in
      record {
        done_is = f.done_is;
        count_is = f.count_is;
        frame_is = f.frame_is;
        hcca_is = f.hcca_is;
        status_is = f.status_is;
      }

  handed : Ohci D → Ohci D
  handed s = ohci_set_interrupt (record s { done = 0; done_count = 7 }) (2 ^ intr_wd)

  handed-Keeps :
      (s : Ohci D)
      → Keeps
          (record s { done = 0; done_count = 7; intr_status = bit_or s.intr_status (2 ^ intr_wd) })
          (handed s)
  unfolding handed ohci_set_interrupt
  handed-Keeps s =
      let f =
        intr_update-Keeps (record s {
          done = 0;
          done_count = 7;
          intr_status = bit_or s.intr_status (2 ^ intr_wd);
        }) in
      record {
        done_is = f.done_is;
        count_is = f.count_is;
        frame_is = f.frame_is;
        hcca_is = f.hcca_is;
        status_is = f.status_is;
      }

  queue_out-handed : (s : Ohci D) → is_due s ≡ true → count_down (queue_out s) ≡ handed s
  unfolding queue_out count_down handed
  queue_out-handed s d =
      ap count_down (if_when (λ (t : Ohci D). t ≡ handed s) s d refl)
      ∙ if_unless (λ (t : Ohci D). t ≡ handed s) _
          (ap (λ (c : ℕ). not (c == 7) && not (c == 0)) (handed-Keeps s).count_is) refl

-- The state after a frame in which the done queue was handed over.
pub record IsDelivered {D : Type 0} (s : Ohci D) (h : Host D) : Type 0 where
  pub emptied : h.ohci.done ≡ 0
  pub count : h.ohci.done_count ≡ 7
  pub told : bit h.ohci.intr_status intr_wd ≡ true
  pub next_frame : h.ohci.frame_number ≡ (s.frame_number + 1) % 2 ^ 16
  pub frame_shown : take 2 (drop (s.hcca + 128) h.ram) ≡ le_bytes 2 ((s.frame_number + 1) % 2 ^ 16)
  pub queue_shown : take 4 (drop (s.hcca + 132) h.ram) ≡ le_bytes 4 (done_head s)

-- The bytes of the communications area that are written back.
module _ {D : Type 0} (s : Ohci D) (hcca : List ℕ) (size : length hcca ≡ hcca_size)
    (due : is_due s ≡ true) where
  frame_bytes : List ℕ
  frame_bytes = le_bytes 2 s.frame_number

  area-due :
      drop 128 (area s hcca)
      ≡ write_at (frame_bytes ++ drop 2 (drop 128 hcca)) 4 (le_bytes 4 (done_head s))
  unfolding area frame_bytes
  area-due =
      ap (drop 128) (
        if_when
          (λ (l : List ℕ).
            l ≡ write_at (write_at hcca 128 frame_bytes) 132 (le_bytes 4 (done_head s)))
          _ due refl)
      ∙ drop-write_at 128 4 (write_at hcca 128 frame_bytes) (le_bytes 4 (done_head s))
      ∙ ap (λ l. write_at l 4 (le_bytes 4 (done_head s)))
          (drop-write_at 128 0 hcca frame_bytes
            ∙ write_at-zero (drop 128 hcca) frame_bytes (omega (arith, size, length-drop 128 hcca)))

  -- Both parts, as they are read in the 8 bytes.
  area-frame : take 2 (drop 0 (take 8 (drop 128 (area s hcca)))) ≡ frame_bytes
  unfolding frame_bytes
  area-frame = ap (λ l. take 2 (take 8 l)) area-due ∙ refl

  area-queue : take 4 (drop 4 (take 8 (drop 128 (area s hcca)))) ≡ le_bytes 4 (done_head s)
  unfolding frame_bytes
  area-queue =
      slice-take 4 4 8 (drop 128 (area s hcca)) (omega arith)
      ∙ ap (λ l. take 4 (drop 4 l)) area-due
      ∙ slice-write_at (frame_bytes ++ drop 2 (drop 128 hcca)) (le_bytes 4 (done_head s)) 4
          (omega (arith, size, length-drop 2 (drop 128 hcca), length-drop 128 hcca))

  length-area : length (area s hcca) ≡ hcca_size
  unfolding area
  length-area =
      if_when (λ (l : List ℕ). length l ≡ hcca_size) _ due
        (length-write_at (le_bytes 4 (done_head s)) (write_at hcca 128 (le_bytes 2 s.frame_number))
            132
          ∙ length-write_at (le_bytes 2 s.frame_number) hcca 128
          ∙ size)

module _ {D : Type 0} where
  -- The next frame has begun.
  abbrev advanced : Ohci D → Ohci D
  advanced s = record s { frt = s.fit; frame_number = (s.frame_number + 1) % 2 ^ 16 }

  begun : Ohci D → Ohci D
  begun s = ohci_sof (handed s)

  record Begun (s t : Ohci D) : Type 0 where
    hcca_kept : t.hcca ≡ s.hcca
    frame_kept : t.frame_number ≡ s.frame_number
    done_zero : t.done ≡ 0
    count_seven : t.done_count ≡ 7
    status_marked : t.intr_status ≡ bit_or (bit_or s.intr_status (2 ^ intr_wd)) (2 ^ intr_sf)

  begun-Begun : (s : Ohci D) → Begun s (begun s)
  unfolding begun
  begun-Begun s =
      let f = sof-Keeps (handed s) in
      let g = handed-Keeps s in
      record {
        hcca_kept = f.hcca_is ∙ g.hcca_is;
        frame_kept = f.frame_is ∙ g.frame_is;
        done_zero = f.done_is ∙ g.done_is;
        count_seven = f.count_is ∙ g.count_is;
        status_marked = f.status_is ∙ ap (λ x. bit_or x (2 ^ intr_sf)) g.status_is;
      }

and_false : (b : Bool) → (b && false) ≡ false
and_false true = refl
and_false false = refl

marked : (x : ℕ) → bit (bit_or (bit_or x (2 ^ intr_wd)) (2 ^ intr_sf)) intr_wd ≡ true
marked x =
    rw
      (
        bit-bit_or (bit_or x (2 ^ intr_wd)) (2 ^ intr_sf) intr_wd,
        bit-bit_or x (2 ^ intr_wd) intr_wd,
        bit-two_pow intr_wd intr_wd,
      )
      (ground arith)

module _ {D : Type 0} (k : Class D) where
  write_inside :
      (s : Ohci D) (ram : List ℕ) (addr len : ℕ) (buf : List ℕ) (off : ℕ)
      → addr + len < memory_end
      → physical_write k s ram addr len buf off
        ≡ (false, s, write_at ram addr (take len (drop off buf)))
  unfolding physical_write
  write_inside s ram addr len buf off h =
      if_unless
        (λ (r : Bool × Ohci D × List ℕ).
          r ≡ (false, s, write_at ram addr (take len (drop off buf))))
        _ (leb_gt memory_end (addr + len) h) refl

  never_aborts :
      (s : Ohci D) → (s.done_count ≢ 0) ⊎ (s.done ≢ 0) → (is_due s && s.done == 0) ≡ false
  unfolding is_due
  never_aborts s (inl n) = rw (==_ne s.done_count 0 n) refl
  never_aborts s (inr n) = rw (==_ne s.done 0 n) (and_false (is_due s))

  -- The state and the memory after the frame.
  abbrev closed : Host D → List ℕ → Host D
  closed h hcca = record h {
    ohci = begun (advanced h.ohci);
    ram =
        write_at h.ram ((begun (advanced h.ohci)).hcca + 128)
          (take 8 (drop 128 (area (advanced h.ohci) hcca)));
  }

  end_frame-closed :
      (h : Host D) (hcca : List ℕ)
      → IsSound h.ohci
      → h.ohci.hcca + hcca_size < memory_end
      → is_due (advanced h.ohci) ≡ true
      → end_frame k h hcca ≡ passed (closed h hcca)
  unfolding end_frame begun
  end_frame-closed h hcca v inside due =
      if_unless (λ (b : Boundary D). b ≡ passed (put_area (count_down (queue_out s)))) _
        (never_aborts (advanced h.ohci) v.queued) refl
      ∙ ap (λ u. passed (put_area u)) (queue_out-handed s due)
      ∙ ap (λ (w : Bool × Ohci D × List ℕ). passed (record h { ohci = w.1; ram = w.2 }))
          (write_inside (begun s) h.ram ((begun s).hcca + 128) 8 (area s hcca) 128
            (omega (arith, (begun-Begun s).hcca_kept)))
    where
      s : Ohci D
      s = advanced h.ohci

      put_area : Ohci D → Host D
      put_area u =
          let w : Bool × Ohci D × List ℕ =
            physical_write k (ohci_sof u) h.ram ((ohci_sof u).hcca + 128) 8 (area s hcca) 128 in
          record h { ohci = w.1; ram = w.2 }

  -- At the end of a frame in which the interrupt counter is 0 and no WritebackDoneHead
  -- interrupt is pending, with a done queue that is not empty and the communications area in
  -- memory, the controller does not abort: the memory shows the next frame number and the
  -- head of the done queue, with its lowest bit set if another enabled interrupt is pending,
  -- and the controller has an empty queue, the counter at 7, the interrupt, and the next
  -- frame number.
  pub end_frame-delivers :
      (h : Host D) (hcca : List ℕ)
      → IsSound h.ohci
      → length hcca ≡ hcca_size
      → h.ohci.hcca + hcca_size ≤ length h.ram
      → h.ohci.hcca + hcca_size < memory_end
      → is_due h.ohci ≡ true
      → (h' : Host D) × (end_frame k h hcca ≡ passed h') × IsDelivered h.ohci h'
  unfolding is_due frame_bytes
  end_frame-delivers h hcca v size memory inside due =
      let s : Ohci D = advanced h.ohci in
      let b = begun-Begun s in
      let eight : length (take 8 (drop 128 (area s hcca))) ≡ 8 = omega (
        arith,
        length-take 8 (drop 128 (area s hcca)),
        length-drop 128 (area s hcca),
        length-area s hcca size due,
      ) in
      (
        closed h hcca,
        end_frame-closed h hcca v inside due,
        record {
          emptied = b.done_zero;
          count = b.count_seven;
          told = ap (λ x. bit x intr_wd) b.status_marked ∙ marked h.ohci.intr_status;
          next_frame = b.frame_kept;
          frame_shown =
              ap (λ i. take 2 (drop i (closed h hcca).ram)) {y = (begun s).hcca + 128 + 0}
                (omega (arith, b.hcca_kept))
              ∙ part-write_at h.ram (take 8 (drop 128 (area s hcca))) ((begun s).hcca + 128) 0 2
                  (omega (arith, eight, memory, inside, b.hcca_kept)) (omega (arith, eight))
              ∙ area-frame s hcca size due;
          queue_shown =
              ap (λ i. take 4 (drop i (closed h hcca).ram)) {y = (begun s).hcca + 128 + 4}
                (omega (arith, b.hcca_kept))
              ∙ part-write_at h.ram (take 8 (drop 128 (area s hcca))) ((begun s).hcca + 128) 4 4
                  (omega (arith, eight, memory, inside, b.hcca_kept)) (omega (arith, eight))
              ∙ area-queue s hcca size due;
        },
      )
