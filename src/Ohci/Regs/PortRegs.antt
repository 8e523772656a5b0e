-- ===== src/Ohci/Regs/PortRegs.antt =====
-- HcRhPortStatus through its address, and through the loop of a read after a write.
use usbqemu_wheel.Common.{
  some, ℕ, ◌+◌, ◌-◌, ◌*◌, ◌/◌, ◌%◌, ◌^◌, ◌≤◌, ◌<◌, ◌≡◌, ◌≢◌, refl, sym, ◌∙◌, ap, true, arith, ◌==◌,
  Bool-cases, inl, inr, none, length, get_or, get_or-set_self, get_or-set_ne, bit_or,
}
use usbqemu_wheel.Usb.Device.{Class}
use usbqemu_wheel.Ohci.State.{
  Ohci, Port, ohci_set_interrupt, port_at, port_pps, with_bit, intr_rhsc,
}
use usbqemu_wheel.Ohci.Ports.{notice, ohci_port_set_status, port_write}
use usbqemu_wheel.Ohci.Ports.Hotplug.{set_status-port}
use usbqemu_wheel.Ohci.Regs.{ohci_mem_read, ohci_mem_write, offset, is_port}
use usbqemu_wheel.Ohci.Regs.Interrupts.{update-num_ports, update-mem_base}

-- The address of the register of port `i`.
abbrev pub port_addr : {D : Type 0} → Ohci D → ℕ → ℕ
port_addr s i = (s.mem_base + 0x54 + 4 * i) % 2 ^ 32

-- The root hub has at most 15 ports, each with its state.
pub record HasPorts {D : Type 0} (s : Ohci D) : Type 0 where
  pub base_fits : s.mem_base < 2 ^ 32
  pub few : s.num_ports ≤ 15
  pub all_there : length s.rhport ≡ s.num_ports

place-mod : (i : ℕ) → (0x54 + 4 * i) % 4 ≡ 0
place-mod i = omega arith

place-div : (i : ℕ) → (0x54 + 4 * i - 0x54) / 4 ≡ i
place-div i = omega arith

module _ {D : Type 0} where
  offset_lem :
      (s : Ohci D) (i : ℕ) → s.mem_base < 2 ^ 32 → i < 15 → offset s (port_addr s i) ≡ 0x54 + 4 * i
  unfolding offset
  offset_lem s i h g = omega arith

  inside : (s : Ohci D) (i : ℕ) → i < s.num_ports → is_port s (0x54 + 4 * i) ≡ true
  unfolding is_port
  inside s i h = ground arith

  read-port :
      (s : Ohci D) (i : ℕ)
      → s.mem_base < 2 ^ 32
      → s.num_ports ≤ 15
      → i < s.num_ports
      → ohci_mem_read s (port_addr s i) ≡ with_bit (port_at s i).ctrl port_pps
  unfolding ohci_mem_read
  read-port s i h f g =
      rw (offset_lem s i h (omega arith), inside s i g, place-mod i, place-div i) refl

module _ {D : Type 0} (k : Class D) where
  write-port :
      (s : Ohci D) (i val : ℕ)
      → s.mem_base < 2 ^ 32
      → s.num_ports ≤ 15
      → i < s.num_ports
      → ohci_mem_write k s (port_addr s i) val ≡ some (ohci_port_set_status k s i val)
  unfolding ohci_mem_write
  write-port s i val h f g =
      rw (offset_lem s i h (omega arith), inside s i g, place-mod i, place-div i) refl

  notice-num_ports : (s : Ohci D) (a b : ℕ) → (notice k s a b).num_ports ≡ s.num_ports
  unfolding notice ohci_set_interrupt
  notice-num_ports s a b = elim (Bool-cases (a == b)) [
    | inl t ↦ rw t refl
    | inr f ↦
        rw f (update-num_ports (record s { intr_status = bit_or s.intr_status (2 ^ intr_rhsc) }))
  ]

  notice-mem_base : (s : Ohci D) (a b : ℕ) → (notice k s a b).mem_base ≡ s.mem_base
  unfolding notice ohci_set_interrupt
  notice-mem_base s a b = elim (Bool-cases (a == b)) [
    | inl t ↦ rw t refl
    | inr f ↦
        rw f (update-mem_base (record s { intr_status = bit_or s.intr_status (2 ^ intr_rhsc) }))
  ]

  set_status-num_ports :
      (s : Ohci D) (i val : ℕ) → (ohci_port_set_status k s i val).num_ports ≡ s.num_ports
  unfolding ohci_port_set_status
  set_status-num_ports s i val = notice-num_ports _ _ _

  set_status-mem_base :
      (s : Ohci D) (i val : ℕ) → (ohci_port_set_status k s i val).mem_base ≡ s.mem_base
  unfolding ohci_port_set_status
  set_status-mem_base s i val = notice-mem_base _ _ _

  -- The register of port `j` after a write to the one of port `i`.
  read-written :
      (s : Ohci D) (i j val : ℕ)
      → HasPorts s
      → i < s.num_ports
      → j < s.num_ports
      → ohci_mem_read (ohci_port_set_status k s i val) (port_addr s j)
        ≡ with_bit (port_at (ohci_port_set_status k s i val) j).ctrl port_pps
  read-written s i j val v g l =
      let t = ohci_port_set_status k s i val in
      let n : t.num_ports ≡ s.num_ports = set_status-num_ports s i val in
      let m : t.mem_base ≡ s.mem_base = set_status-mem_base s i val in
      ap (λ b. ohci_mem_read t ((b + 0x54 + 4 * j) % 2 ^ 32)) (sym m)
      ∙ read-port t j (omega (arith, m, v.base_fits)) (omega (arith, n, v.few)) (omega (arith, n))

  -- For a root hub of at most 15 ports and a 32-bit base address, a write to the address of
  -- one port's status register followed by a read of it gives what the write makes of that
  -- port's register, with the power bit set, and a read of another port's register gives what
  -- it gave before the write.
  pub port_register :
      (s : Ohci D) (i j val : ℕ)
      → HasPorts s
      → i < s.num_ports
      → j < s.num_ports
      → i ≢ j
      → (s' : Ohci D) × (ohci_mem_write k s (port_addr s i) val ≡ some s')
        × (ohci_mem_read s' (port_addr s i)
            ≡ with_bit (port_write k (port_at s i) val).ctrl port_pps)
        × (ohci_mem_read s' (port_addr s j) ≡ ohci_mem_read s (port_addr s j))
  port_register s i j val v g l d =
      let none_there : Port D = record { dev = none; ctrl = 0 } in
      let w = port_write k (port_at s i) val in
      let e = set_status-port k s i val in
      (
        ohci_port_set_status k s i val,
        write-port s i val v.base_fits v.few g,
        read-written s i i val v g g
            ∙ ap (λ ps. with_bit (get_or ps i none_there).ctrl port_pps) e
            ∙ ap (λ (p : Port D). with_bit p.ctrl port_pps)
                (get_or-set_self s.rhport i w none_there (omega (arith, v.all_there))),
        read-written s i j val v g l
            ∙ ap (λ ps. with_bit (get_or ps j none_there).ctrl port_pps) e
            ∙ ap (λ (p : Port D). with_bit p.ctrl port_pps)
                (get_or-set_ne s.rhport i j w none_there d)
            ∙ sym (read-port s j v.base_fits v.few l),
      )
