-- ===== src/Ohci/Regs.antt =====
-- The operational registers: `ohci_mem_read`, `ohci_mem_write` and the setters they call.
pub mod Interrupts
pub mod RoundTrip
pub mod PortRegs
use usbqemu_wheel.Common.{
  Option, none, some, ℕ, zero, suc, ◌+◌, ◌-◌, ◌*◌, ◌/◌, ◌%◌, ◌^◌, Bool, true, false, ◌&&◌, not, ltb,
  leb, ◌==◌, if◌then◌else◌, bit, clear, bit_or, bit_and,
}
use usbqemu_wheel.Usb.Device.{Class}
use usbqemu_wheel.Ohci.State.{
  Port, Ohci, hcfs, usb_reset, usb_resume, usb_operational, usb_suspend, intr_sf, intr_rhsc,
  port_pps, with_bit, without_bit, ohci_intr_update, ohci_set_interrupt, ohci_bus_stop,
  ohci_bus_start, port_at, set_port,
}
use usbqemu_wheel.Ohci.Ports.{port_power, ohci_port_set_status}
use usbqemu_wheel.Ohci.Reset.{ohci_roothub_reset, ohci_soft_reset}

-- OHCI_RHS_*, as bit numbers.
abbrev pub rhs_lps : ℕ
rhs_lps = 0

abbrev pub rhs_drwe : ℕ
rhs_drwe = 15

abbrev pub rhs_lpsc : ℕ
rhs_lpsc = 16

abbrev pub rhs_ocic : ℕ
rhs_ocic = 17

abbrev pub rhs_crwe : ℕ
rhs_crwe = 31

-- OHCI_STATUS_HCR, a bit number, and the mask OHCI_STATUS_SOC.
abbrev pub status_hcr : ℕ
status_hcr = 0

abbrev pub status_soc : ℕ
status_soc = 0xc0

-- `x & OHCI_HCCA_MASK` and `x & OHCI_EDPTR_MASK` of a 32-bit x.
abbrev pub hcca_mask : ℕ → ℕ
hcca_mask x = x / 256 * 256

abbrev pub edptr_mask : ℕ → ℕ
edptr_mask x = x / 16 * 16

-- The result of a read that no register answers.
abbrev pub bad_read : ℕ
bad_read = 2 ^ 32 - 1

-- `muldiv64(1, b, c)`, whose parameters `b` and `c` have 32 bits.
abbrev pub muldiv64_of_1 : ℕ → ℕ → ℕ
muldiv64_of_1 b c = b % 2 ^ 32 / (c % 2 ^ 32)

-- `x << 31` on 32 bits
abbrev pub at_31 : ℕ → ℕ
at_31 x = x % 2 * 2 ^ 31

-- The register HcRhStatus after a write.
unfoldable pub rh_status : ℕ → ℕ → ℕ
rh_status old val =
    let r1 = if bit val rhs_ocic then without_bit old rhs_ocic else old in
    let r2 = if bit val rhs_drwe then with_bit r1 rhs_drwe else r1 in
    if bit val rhs_crwe then without_bit r2 rhs_drwe else r2

module _ {D : Type 0} where
  -- `ohci_port_power` of the first `n` ports.
  unfoldable pub power_ports : ℕ → Bool → Ohci D → Ohci D
  unfolding port_power
  power_ports zero on s = s
  power_ports (suc n) on s =
      let s1 = power_ports n on s in
      let p = port_at s1 n in set_port s1 n (record p { ctrl = port_power p.ctrl on })

  unfoldable pub ohci_set_hub_status : Ohci D → ℕ → Ohci D
  unfolding power_ports rh_status
  ohci_set_hub_status s val =
      let s1 = if bit val rhs_lps then power_ports s.num_ports false s else s in
      let s2 = if bit val rhs_lpsc then power_ports s.num_ports true s1 else s1 in
      let s3 = record s2 { rhstatus = rh_status s.rhstatus val } in
      if s.rhstatus == rh_status s.rhstatus val then s3 else ohci_set_interrupt s3 (2 ^ intr_rhsc)

  -- `ohci_get_frame_remaining`, for a clock that has not gone back since the start of the frame.
  unfoldable pub ohci_get_frame_remaining : Ohci D → ℕ
  ohci_get_frame_remaining s =
      let tks = s.clock - s.sof_time in
      if not (hcfs s.ctl == usb_operational)
      then at_31 s.frt
      else if leb s.usb_frame_time tks
      then at_31 s.frt
      else bit_or (at_31 s.frt)
          ((s.fi + 2 ^ 16 - muldiv64_of_1 tks s.usb_bit_time % 2 ^ 16) % 2 ^ 16)

  -- The `switch` of `ohci_mem_read` on the register's number.
  unfoldable pub read_reg : Ohci D → ℕ → ℕ
  unfolding ohci_get_frame_remaining
  read_reg s r =
      if r == 0
      then 0x10
      else if r == 1
      then s.ctl
      else if r == 2
      then s.status
      else if r == 3
      then s.intr_status
      else if r == 4
      then s.intr
      else if r == 5
      then s.intr
      else if r == 6
      then s.hcca
      else if r == 7
      then s.per_cur
      else if r == 8
      then s.ctrl_head
      else if r == 9
      then s.ctrl_cur
      else if r == 10
      then s.bulk_head
      else if r == 11
      then s.bulk_cur
      else if r == 12
      then s.done
      else if r == 13
      then bit_or (bit_or (at_31 s.fit) (s.fsmps * 2 ^ 16 % 2 ^ 32)) s.fi
      else if r == 14
      then ohci_get_frame_remaining s
      else if r == 15
      then s.frame_number
      else if r == 16
      then s.pstart
      else if r == 17
      then s.lst
      else if r == 18
      then s.rhdesc_a
      else if r == 19
      then s.rhdesc_b
      else if r == 20
      then s.rhstatus
      else bad_read

  -- The offset `addr - mem_base` on 32 bits, and whether a port's register stands there.
  unfoldable pub offset : Ohci D → ℕ → ℕ
  offset s addr = (addr + 2 ^ 32 - s.mem_base) % 2 ^ 32

  unfoldable pub is_port : Ohci D → ℕ → Bool
  is_port s at = leb 0x54 at && ltb at (0x54 + s.num_ports * 4)

  unfoldable pub ohci_mem_read : Ohci D → ℕ → ℕ
  unfolding offset is_port
  ohci_mem_read s addr =
      let at = offset s addr in
      if not (at % 4 == 0)
      then bad_read
      else if is_port s at
      then with_bit (port_at s ((at - 0x54) / 4)).ctrl port_pps
      else read_reg s (at / 4)

module _ {D : Type 0} (k : Class D) where
  -- The `switch` of `ohci_set_ctl` on the new state.
  unfoldable pub enter : Ohci D → Option (Ohci D)
  enter s =
      if hcfs s.ctl == usb_operational
      then some (ohci_bus_start s)
      else if hcfs s.ctl == usb_suspend
      then some (
          ohci_intr_update (record (ohci_bus_stop s) {
            intr_status = without_bit (ohci_bus_stop s).intr_status intr_sf;
          }))
      else if hcfs s.ctl == usb_resume
      then some s
      else ohci_roothub_reset k s

  unfoldable pub ohci_set_ctl : Ohci D → ℕ → Option (Ohci D)
  unfolding enter
  ohci_set_ctl s val =
      let s1 = record s { ctl = val } in if hcfs s.ctl == hcfs val then some s1 else enter s1

  -- A write to HcCommandStatus.
  unfoldable pub command : Ohci D → ℕ → Ohci D
  command s val =
      let s1 = record s { status = bit_or s.status (clear val status_soc) } in
      if bit s1.status status_hcr then ohci_soft_reset k s1 else s1

  -- The cases of `ohci_mem_write` other than HcControl. OHCI_RHA_RW_MASK is 0.
  unfoldable pub write_other : Ohci D → ℕ → ℕ → Ohci D
  unfolding command ohci_set_hub_status
  write_other s r val =
      if r == 2
      then command s val
      else if r == 3
      then ohci_intr_update (record s { intr_status = clear s.intr_status val })
      else if r == 4
      then ohci_intr_update (record s { intr = bit_or s.intr val })
      else if r == 5
      then ohci_intr_update (record s { intr = clear s.intr val })
      else if r == 6
      then record s { hcca = hcca_mask val }
      else if r == 8
      then record s { ctrl_head = edptr_mask val }
      else if r == 9
      then record s { ctrl_cur = edptr_mask val }
      else if r == 10
      then record s { bulk_head = edptr_mask val }
      else if r == 11
      then record s { bulk_cur = edptr_mask val }
      else if r == 13
      then record s {
        fsmps = val / 2 ^ 16 % 2 ^ 15;
        fit = val / 2 ^ 31 % 2;
        fi = val % 2 ^ 16 % 2 ^ 14;
      }
      else if r == 16
      then record s { pstart = val % 2 ^ 16 }
      else if r == 17
      then record s { lst = val % 2 ^ 16 }
      else if r == 18
      then record s { rhdesc_a = bit_or (clear s.rhdesc_a 0) (bit_and val 0) }
      else if r == 20
      then ohci_set_hub_status s val
      else s

  -- The `switch` of `ohci_mem_write` on the register's number.
  unfoldable pub write_reg : Ohci D → ℕ → ℕ → Option (Ohci D)
  unfolding ohci_set_ctl write_other
  write_reg s r val = if r == 1 then ohci_set_ctl s val else some (write_other s r val)

  unfoldable pub ohci_mem_write : Ohci D → ℕ → ℕ → Option (Ohci D)
  unfolding offset is_port
  ohci_mem_write s addr val =
      let at = offset s addr in
      if not (at % 4 == 0)
      then some s
      else if is_port s at
      then some (ohci_port_set_status k s ((at - 0x54) / 4) val)
      else write_reg s (at / 4) val
