-- ===== src/Ohci/Regs/Interrupts.antt =====
-- The interrupt registers, and when the controller interrupts.
use usbqemu_wheel.Common.{
  some, ℕ, ◌+◌, Bool, true, false, ◌&&◌, ◌||◌, not, if◌then◌else◌, ltb, bit, clear, bit_or, ◌≡◌,
  refl, Bool-cases, inl, inr, bit-clear, bit-bit_or,
}
use usbqemu_wheel.Usb.Device.{Class}
use usbqemu_wheel.Ohci.State.{Ohci, level, ohci_intr_update, min_irq_interval}
use usbqemu_wheel.Ohci.Regs.{write_reg, write_other, read_reg}

-- A projection that neither branch of an update changes.
both_same {ℓ} :
    {A : Type ℓ} {B : Type 0} (f : A → B) (b c : Bool) (x y : A)
    → f x ≡ f y
    → f (if b then (if c then x else y) else y) ≡ f y
both_same f true true x y h = h
both_same f true false x y h = refl
both_same f false c x y h = refl

module _ {D : Type 0} where
  pub update-intr : (s : Ohci D) → (ohci_intr_update s).intr ≡ s.intr
  unfolding ohci_intr_update
  update-intr s =
      both_same (λ (t : Ohci D). t.intr) (level s) (ltb (s.last_cycle + min_irq_interval) s.clock) _
        s refl

  pub update-status : (s : Ohci D) → (ohci_intr_update s).intr_status ≡ s.intr_status
  unfolding ohci_intr_update
  update-status s =
      both_same (λ (t : Ohci D). t.intr_status) (level s)
        (ltb (s.last_cycle + min_irq_interval) s.clock) _ s refl

  pub update-rhport : (s : Ohci D) → (ohci_intr_update s).rhport ≡ s.rhport
  unfolding ohci_intr_update
  update-rhport s =
      both_same (λ (t : Ohci D). t.rhport) (level s) (ltb (s.last_cycle + min_irq_interval) s.clock)
        _ s refl

  pub update-num_ports : (s : Ohci D) → (ohci_intr_update s).num_ports ≡ s.num_ports
  unfolding ohci_intr_update
  update-num_ports s =
      both_same (λ (t : Ohci D). t.num_ports) (level s)
        (ltb (s.last_cycle + min_irq_interval) s.clock) _ s refl

  pub update-mem_base : (s : Ohci D) → (ohci_intr_update s).mem_base ≡ s.mem_base
  unfolding ohci_intr_update
  update-mem_base s =
      both_same (λ (t : Ohci D). t.mem_base) (level s)
        (ltb (s.last_cycle + min_irq_interval) s.clock) _ s refl

  pub update-irqs :
      (s : Ohci D)
      → (ohci_intr_update s).irqs
        ≡ (if level s && ltb (s.last_cycle + min_irq_interval) s.clock then s.irqs + 1 else s.irqs)
  unfolding ohci_intr_update
  update-irqs s = elim (Bool-cases (level s)) [
    | inr f ↦ rw f refl
    | inl t ↦ elim (Bool-cases (ltb (s.last_cycle + min_irq_interval) s.clock)) [
      | inl u ↦ rw (t, u) refl
      | inr g ↦ rw (t, g) refl
    ]
  ]

module _ {D : Type 0} (k : Class D) where
  -- Read back after a write, HcInterruptStatus has lost exactly the bits written as 1,
  -- HcInterruptEnable has gained them, and HcInterruptDisable has lost them from the enable
  -- mask.
  pub interrupt_masks :
      (s : Ohci D) (val j : ℕ)
      → (s3 s4 s5 : Ohci D) × (write_reg k s 3 val ≡ some s3)
        × (write_reg k s 4 val ≡ some s4)
        × (write_reg k s 5 val ≡ some s5)
        × (bit (read_reg s3 3) j ≡ (bit s.intr_status j && not (bit val j)))
        × (bit (read_reg s4 4) j ≡ (bit s.intr j || bit val j))
        × (bit (read_reg s5 5) j ≡ (bit s.intr j && not (bit val j)))
  unfolding write_reg read_reg
  interrupt_masks s val j = (
    write_other k s 3 val,
    write_other k s 4 val,
    write_other k s 5 val,
    refl,
    refl,
    refl,
    rw (update-status (record s { intr_status = clear s.intr_status val }))
        (bit-clear s.intr_status val j),
    rw (update-intr (record s { intr = bit_or s.intr val })) (bit-bit_or s.intr val j),
    rw (update-intr (record s { intr = clear s.intr val })) (bit-clear s.intr val j),
  )
