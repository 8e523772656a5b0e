-- ===== src/Ohci/Reset.antt =====
-- The resets of qemu-usb/usb-ohci.cpp: root hub, controller, both. `ohci_stop_endpoints` calls a
-- callback that no class of the program sets, so it changes nothing and is left out.
use usbqemu_wheel.Common.{
  ℕ, zero, suc, ◌+◌, ◌^◌, Option, none, some, ◌==◌, if◌then◌else◌, bit_or, bit, not,
}
use usbqemu_wheel.Usb.Device.{Class}
use usbqemu_wheel.Usb.Control.{◌>>=◌}
use usbqemu_wheel.Ohci.State.{Ohci, intr_mie, usb_suspend, ohci_bus_stop, port_at, set_port}
use usbqemu_wheel.Ohci.Ports.{usb_port_reset, cancel_packet}

-- OHCI_RHA_NPS, OHCI_CTL_IR and OHCI_LS_THRESH
abbrev pub rha_nps : ℕ
rha_nps = 2 ^ 9

abbrev pub ctl_ir : ℕ
ctl_ir = 8

abbrev pub ls_thresh : ℕ
ls_thresh = 0x628

module _ {D : Type 0} (k : Class D) where
  -- One round of the loop over the ports.
  unfoldable pub reset_port : Ohci D → ℕ → Option (Ohci D)
  unfolding usb_port_reset
  reset_port s i =
      let s1 = set_port s i (record (port_at s i) { ctrl = 0 }) in
      elim (port_at s i).dev [
        | none ↦ some s1
        | some d ↦ if d.attached then usb_port_reset k s1 i else some s1
      ]

  -- The loop, `n` ports from port `i`.
  unfoldable pub reset_ports : ℕ → ℕ → Ohci D → Option (Ohci D)
  unfolding reset_port
  reset_ports zero i s = some s
  reset_ports (suc n) i s = reset_port s i >>= λ (s1 : Ohci D). reset_ports n (i + 1) s1

  unfoldable pub ohci_roothub_reset : Ohci D → Option (Ohci D)
  unfolding reset_ports ohci_bus_stop cancel_packet
  ohci_roothub_reset s =
      let s1 = record (ohci_bus_stop s) {
        rhdesc_a = bit_or rha_nps s.num_ports;
        rhdesc_b = 0;
        rhstatus = 0;
      } in
      reset_ports s.num_ports 0 s1 >>= λ (s2 : Ohci D).
      let canceled = cancel_packet k s2 >>= λ (s3 : Ohci D). some (record s3 { async_td = 0 }) in
      if not (s2.async_td == 0) then canceled else some s2

  unfoldable pub ohci_soft_reset : Ohci D → Ohci D
  unfolding ohci_bus_stop
  ohci_soft_reset s = record (ohci_bus_stop s) {
    ctl = (if bit s.ctl ctl_ir then 2 ^ ctl_ir else 0) + usb_suspend;
    old_ctl = 0;
    status = 0;
    intr_status = 0;
    intr = 2 ^ intr_mie;
    hcca = 0;
    ctrl_head = 0;
    ctrl_cur = 0;
    bulk_head = 0;
    bulk_cur = 0;
    per_cur = 0;
    done = 0;
    done_count = 7;
    fsmps = 0x2778;
    fi = 0x2edf;
    fit = 0;
    frt = 0;
    frame_number = 0;
    pstart = 0;
    lst = ls_thresh;
  }

  unfoldable pub ohci_hard_reset : Ohci D → Option (Ohci D)
  unfolding ohci_soft_reset ohci_roothub_reset
  ohci_hard_reset s = ohci_roothub_reset (record (ohci_soft_reset s) { ctl = 0 })
