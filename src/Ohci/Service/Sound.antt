-- ===== src/Ohci/Service/Sound.antt =====
-- The done queue and the packet that waits, through the work on a descriptor.
use usbqemu_wheel.Common.{
  ℕ, zero, suc, ◌+◌, ◌-◌, Bool, false, not, ◌&&◌, Option, List, [], ◌∷◌, ◌==◌, leb, bit, write_at,
  ◌≡◌, ◌≢◌, ◌⊎◌, inl, refl, ◌∙◌, arith, le_bytes, if_both, ltb, bit_and, bit_or, ◌^◌,
}
use usbqemu_wheel.Usb.Device.{Class}
use usbqemu_wheel.Ohci.State.{
  Ohci, ohci_die, ohci_set_interrupt, ohci_bus_stop, ohci_intr_update, level, intr_ue, intr_mie,
  min_irq_interval,
}
use usbqemu_wheel.Ohci.Reset.{ohci_soft_reset}
use usbqemu_wheel.Ohci.Td.{
  Td, memory_end, physical_read, physical_write, copy_td_to_device, copy_td_from_device, first_part,
  page,
}
use usbqemu_wheel.Ohci.Dma.{Host, Access, get, put, refuse}

-- While descriptors are due there are some in the done queue; and a completed packet has a descriptor.
pub record IsSound {D : Type 0} (s : Ohci D) : Type 0 where
  pub queued : (s.done_count ≢ 0) ⊎ (s.done ≢ 0)
  pub waiting : (s.async_complete ≡ false) ⊎ (s.async_td ≢ 0)

-- A sound state, with the packet of another.
pub record Follows {D : Type 0} (s t : Ohci D) : Type 0 where
  pub sound : IsSound t
  pub same_td : t.async_td ≡ s.async_td
  pub same_complete : t.async_complete ≡ s.async_complete

module _ {D : Type 0} where
  pub unchanged : (s : Ohci D) → IsSound s → Follows s s
  unchanged s v = record { sound = v; same_td = refl; same_complete = refl }

  pub chained : {s t u : Ohci D} → Follows s t → Follows t u → Follows s u
  chained f g = record {
    sound = g.sound;
    same_td = g.same_td ∙ f.same_td;
    same_complete = g.same_complete ∙ f.same_complete;
  }

  intr_update-Follows : (s : Ohci D) → IsSound s → Follows s (ohci_intr_update s)
  unfolding ohci_intr_update level
  intr_update-Follows s v =
      if_both (Follows s) (bit s.intr intr_mie && not (bit_and s.intr_status s.intr == 0))
        (if_both (Follows s) (ltb (s.last_cycle + min_irq_interval) s.clock)
          (record {
            sound = record { queued = v.queued; waiting = v.waiting };
            same_td = refl;
            same_complete = refl;
          })
          (unchanged s v))
        (unchanged s v)

  pub die-Follows : (s : Ohci D) → IsSound s → Follows s (ohci_die s)
  unfolding ohci_die ohci_set_interrupt ohci_bus_stop
  die-Follows s v =
      let f =
        intr_update-Follows (record s { intr_status = bit_or s.intr_status (2 ^ intr_ue) })
          (record { queued = v.queued; waiting = v.waiting }) in
      record {
        sound = record { queued = f.sound.queued; waiting = f.sound.waiting };
        same_td = f.same_td;
        same_complete = f.same_complete;
      }

module _ {D : Type 0} (k : Class D) where
  soft_reset-Follows : (s : Ohci D) → IsSound s → Follows s (ohci_soft_reset k s)
  unfolding ohci_soft_reset ohci_bus_stop
  soft_reset-Follows s v = record {
    sound = record { queued = inl (λ e. absurd (omega (arith, e))); waiting = v.waiting };
    same_td = refl;
    same_complete = refl;
  }

  read-Follows :
      (s : Ohci D) (ram : List ℕ) (addr len : ℕ) (buf : List ℕ) (off : ℕ)
      → IsSound s
      → Follows s (physical_read k s ram addr len buf off).1
  unfolding physical_read
  read-Follows s ram addr len buf off v =
      if_both (λ (r : Bool × Ohci D × List ℕ). Follows s r.1) (leb memory_end (addr + len))
        (soft_reset-Follows s v) (unchanged s v)

  write-Follows :
      (s : Ohci D) (ram : List ℕ) (addr len : ℕ) (buf : List ℕ) (off : ℕ)
      → IsSound s
      → Follows s (physical_write k s ram addr len buf off).1
  unfolding physical_write
  write-Follows s ram addr len buf off v =
      if_both (λ (r : Bool × Ohci D × List ℕ). Follows s r.1) (leb memory_end (addr + len))
        (soft_reset-Follows s v) (unchanged s v)

  pub copy_to-Follows :
      (s : Ohci D) (ram : List ℕ) (td : Td) (buf : List ℕ) (len : ℕ)
      → IsSound s
      → Follows s (copy_td_to_device k s ram td buf len).1
  unfolding copy_td_to_device
  copy_to-Follows s ram td buf len v =
      let n = first_part td len in
      let r = physical_read k s ram td.cbp n buf 0 in
      let f = read-Follows s ram td.cbp n buf 0 v in
      let g = read-Follows r.1 ram (page td.be) (len - n) r.2 n f.sound in
      if_both (λ (t : Bool × Ohci D × List ℕ). Follows s t.1) r.0 f
        (if_both (λ (t : Bool × Ohci D × List ℕ). Follows s t.1) (n == len) f (chained f g))

  pub copy_from-Follows :
      (s : Ohci D) (ram : List ℕ) (td : Td) (buf : List ℕ) (len : ℕ)
      → IsSound s
      → Follows s (copy_td_from_device k s ram td buf len).1
  unfolding copy_td_from_device
  copy_from-Follows s ram td buf len v =
      let n = first_part td len in
      let r = physical_write k s ram td.cbp n buf 0 in
      let f = write-Follows s ram td.cbp n buf 0 v in
      let g = write-Follows r.1 r.2 (page td.be) (len - n) buf n f.sound in
      if_both (λ (t : Bool × Ohci D × List ℕ). Follows s t.1) r.0 f
        (if_both (λ (t : Bool × Ohci D × List ℕ). Follows s t.1) (n == len) f (chained f g))

  pub get-Follows :
      (size : ℕ) (h : Host D) (addr n : ℕ)
      → IsSound h.ohci
      → Follows h.ohci (get k size h addr n).host.ohci
  unfolding get refuse
  get-Follows size h addr zero v = unchanged h.ohci v
  get-Follows size h addr (suc n) v =
      if_both (λ (r : Access D (Option (List ℕ))). Follows h.ohci r.host.ohci)
        (leb memory_end (addr + size)) (soft_reset-Follows h.ohci v)
        (get-Follows size h (addr + size) n v)

  pub put-Follows :
      (size : ℕ) (h : Host D) (addr : ℕ) (xs : List ℕ)
      → IsSound h.ohci
      → Follows h.ohci (put k size h addr xs).host.ohci
  unfolding put refuse
  put-Follows size h addr [] v = unchanged h.ohci v
  put-Follows size h addr (x ∷ xs) v =
      if_both (λ (r : Access D Bool). Follows h.ohci r.host.ohci) (leb memory_end (addr + size))
        (soft_reset-Follows h.ohci v)
        (put-Follows size (record h { ram = write_at h.ram addr (le_bytes size x) }) (addr + size)
          xs v)
