-- ===== src/Ohci/Regs/RoundTrip.antt =====
-- Reading back what was written, through the registers' addresses.
use usbqemu_wheel.Common.{
  some, ℕ, ◌+◌, ◌-◌, ◌*◌, ◌/◌, ◌%◌, ◌^◌, ◌≤◌, ◌<◌, false, leb, or-shift, bit_or, ◌≡◌, refl, ◌∙◌, ap,
  arith,
}
use usbqemu_wheel.Usb.Device.{Class}
use usbqemu_wheel.Ohci.State.{Ohci, hcfs, usb_operational}
use usbqemu_wheel.Ohci.Regs.{
  write_reg, write_other, read_reg, ohci_mem_read, ohci_mem_write, offset, is_port,
  ohci_get_frame_remaining, at_31,
}

-- The address of the register `r`.
abbrev pub reg_addr : {D : Type 0} → Ohci D → ℕ → ℕ
reg_addr s r = (s.mem_base + 4 * r) % 2 ^ 32

zero_add : (n : ℕ) → 0 + n ≡ n
zero_add n = omega arith

times_4-mod : (r : ℕ) → 4 * r % 4 ≡ 0
times_4-mod r = omega arith

times_4-div : (r : ℕ) → 4 * r / 4 ≡ r
times_4-div r = omega arith

-- HcFmInterval from its three fields, each as wide as its bit field.
interval_bits :
    (val : ℕ)
    → val < 2 ^ 32
    → bit_or
        (bit_or (at_31 (val / 2 ^ 31 % 2)) (val / 2 ^ 16 % 2 ^ 15 * 2 ^ 16 % 2 ^ 32))
        (val % 2 ^ 16 % 2 ^ 14)
      ≡ val - val / 2 ^ 14 % 4 * 2 ^ 14
interval_bits val h =
    let a = val / 2 ^ 31 % 2 % 2 in
    let b = val / 2 ^ 16 % 2 ^ 15 * 2 ^ 16 % 2 ^ 32 in
    let c = val % 2 ^ 16 % 2 ^ 14 in
    let e : a * 2 ^ 31 + b ≡ val / 2 ^ 16 * 2 ^ 16 = omega arith in
    ap (λ x. bit_or x c) (or-shift 31 a b (omega arith) ∙ e)
    ∙ or-shift 16 (val / 2 ^ 16) c (omega arith)
    ∙ omega arith

-- A word below another one, on 16 bits.
below-wraps :
    (f t : ℕ) → f < t → t ≤ f + 2 ^ 15 → f < 2 ^ 14 → 2 ^ 14 ≤ (f + 2 ^ 16 - t % 2 ^ 16) % 2 ^ 16
below-wraps f t h g l = omega arith

back-up : (f t : ℕ) → f < 2 ^ 14 → ((f + 2 ^ 16 - t % 2 ^ 16) % 2 ^ 16 + t) % 2 ^ 16 ≡ f
back-up f t l = omega arith

module _ {D : Type 0} where
  offset_lem : (s : Ohci D) (r : ℕ) → s.mem_base < 2 ^ 32 → r < 21 → offset s (reg_addr s r) ≡ 4 * r
  unfolding offset
  offset_lem s r h g = omega arith

  no_port : (s : Ohci D) (r : ℕ) → r < 21 → is_port s (4 * r) ≡ false
  unfolding is_port
  no_port s r g = ground arith

  pub read-reg :
      (s : Ohci D) (r : ℕ)
      → s.mem_base < 2 ^ 32
      → r < 21
      → ohci_mem_read s (reg_addr s r) ≡ read_reg s r
  unfolding ohci_mem_read
  read-reg s r h g = rw (offset_lem s r h g, no_port s r g, times_4-mod r, times_4-div r) refl

module _ {D : Type 0} (k : Class D) where
  pub write-reg :
      (s : Ohci D) (r val : ℕ)
      → s.mem_base < 2 ^ 32
      → r < 21
      → ohci_mem_write k s (reg_addr s r) val ≡ write_reg k s r val
  unfolding ohci_mem_write
  write-reg s r val h g = rw (offset_lem s r h g, no_port s r g, times_4-mod r, times_4-div r) refl

  -- For a 32-bit value and a 32-bit base address, a write to HcFmInterval followed by a read
  -- of it gives the value with the bits 14 and 15 cleared.
  pub fm_interval :
      (s : Ohci D) (val : ℕ)
      → s.mem_base < 2 ^ 32
      → val < 2 ^ 32
      → (s' : Ohci D) × (ohci_mem_write k s (reg_addr s 13) val ≡ some s')
        × (ohci_mem_read s' (reg_addr s 13) ≡ val - val / 2 ^ 14 % 4 * 2 ^ 14)
  unfolding write_reg read_reg
  fm_interval s val h v = (
    write_other k s 13 val,
    write-reg s 13 val h (omega arith),
    read-reg (write_other k s 13 val) 13 h (omega arith) ∙ interval_bits val v,
  )

  -- A write of `val` to a register is read back as `x`.
  abbrev pub Reads : Ohci D → ℕ → ℕ → ℕ → Type 0
  Reads s r val x =
      (s' : Ohci D) × (ohci_mem_write k s (reg_addr s r) val ≡ some s')
      × (ohci_mem_read s' (reg_addr s r) ≡ x)

  -- For a 32-bit value and a 32-bit base address, a read after a write gives the value with
  -- its low 8 bits cleared for HcHCCA, with its low 4 bits cleared for HcControlHeadED and
  -- HcBulkHeadED, and its low 16 bits for HcPeriodicStart and HcLSThreshold.
  pub pointers :
      (s : Ohci D) (val : ℕ)
      → s.mem_base < 2 ^ 32
      → val < 2 ^ 32
      → Reads s 6 val (val - val % 256)
        × Reads s 8 val (val - val % 16)
        × Reads s 10 val (val - val % 16)
        × Reads s 16 val (val % 2 ^ 16)
        × Reads s 17 val (val % 2 ^ 16)
  unfolding write_reg read_reg
  pointers s val h v = (
    (
      _,
      write-reg s 6 val h (omega arith),
      read-reg (write_other k s 6 val) 6 h (omega arith) ∙ omega arith,
    ),
    (
      _,
      write-reg s 8 val h (omega arith),
      read-reg (write_other k s 8 val) 8 h (omega arith) ∙ omega arith,
    ),
    (
      _,
      write-reg s 10 val h (omega arith),
      read-reg (write_other k s 10 val) 10 h (omega arith) ∙ omega arith,
    ),
    (_, write-reg s 16 val h (omega arith), read-reg (write_other k s 16 val) 16 h (omega arith)),
    (_, write-reg s 17 val h (omega arith), read-reg (write_other k s 17 val) 17 h (omega arith)),
  )

module _ {D : Type 0} where
  remaining_lem :
      (s : Ohci D)
      → hcfs s.ctl ≡ usb_operational
      → s.frt ≡ 0
      → s.usb_frame_time < 2 ^ 32
      → s.usb_bit_time < 2 ^ 32
      → s.clock - s.sof_time < s.usb_frame_time
      → ohci_get_frame_remaining s
        ≡ (s.fi + 2 ^ 16 - (s.clock - s.sof_time) / s.usb_bit_time % 2 ^ 16) % 2 ^ 16
  unfolding ohci_get_frame_remaining
  remaining_lem s o t ft bt q =
      let cut_tks : (s.clock - s.sof_time) % 2 ^ 32 ≡ s.clock - s.sof_time = omega (arith, ft, q) in
      let cut_bit : s.usb_bit_time % 2 ^ 32 ≡ s.usb_bit_time = omega (arith, bt) in
      let r = (s.fi + 2 ^ 16 - (s.clock - s.sof_time) / s.usb_bit_time % 2 ^ 16) % 2 ^ 16 in
      let late : leb s.usb_frame_time (s.clock - s.sof_time) ≡ false = ground arith in
      rw (o, late, t, cut_tks, cut_bit) (or-shift 16 0 r (omega arith) ∙ zero_add r)

  -- In an operational controller, before the frame time has passed and with the toggle clear,
  -- the frame time and the bit time below 2^32, HcFmRemaining and the bit times since the start of the frame add up to the frame
  -- interval, on 16 bits.
  pub frame_remaining :
      (s : Ohci D)
      → hcfs s.ctl ≡ usb_operational
      → s.frt ≡ 0
      → s.fi < 2 ^ 14
      → s.usb_frame_time < 2 ^ 32
      → s.usb_bit_time < 2 ^ 32
      → s.clock - s.sof_time < s.usb_frame_time
      → (ohci_get_frame_remaining s + (s.clock - s.sof_time) / s.usb_bit_time) % 2 ^ 16 ≡ s.fi
  frame_remaining s o t f ft bt q =
      rw (remaining_lem s o t ft bt q) (back-up s.fi ((s.clock - s.sof_time) / s.usb_bit_time) f)

  -- In an operational controller with the toggle clear, a frame interval below 2^14, and a
  -- frame time and a bit time below 2^32: when more bit times have passed since the start of
  -- the frame than the interval has, though at most 2^15 more, and the frame time has not
  -- passed, HcFmRemaining reads as at least 2^14, more than its field of 14 bits can hold.
  pub frame_remaining-wraps :
      (s : Ohci D)
      → hcfs s.ctl ≡ usb_operational
      → s.frt ≡ 0
      → s.fi < 2 ^ 14
      → s.usb_frame_time < 2 ^ 32
      → s.usb_bit_time < 2 ^ 32
      → s.clock - s.sof_time < s.usb_frame_time
      → s.fi < (s.clock - s.sof_time) / s.usb_bit_time
      → (s.clock - s.sof_time) / s.usb_bit_time ≤ s.fi + 2 ^ 15
      → 2 ^ 14 ≤ ohci_get_frame_remaining s
  frame_remaining-wraps s o t f ft bt q lo hi =
      rw (remaining_lem s o t ft bt q)
        (below-wraps s.fi ((s.clock - s.sof_time) / s.usb_bit_time) lo hi f)
