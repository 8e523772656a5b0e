-- ===== src/Ohci/Ports.antt =====
-- The root hub's ports: attach, detach, wakeup and the writes to HcRhPortStatus, with the calls of
-- qemu-usb/core.cpp that go through `ohci_port_ops`. `ohci_attach2` is called by nothing.
pub mod Requests
pub mod Flags
pub mod Status
pub mod Hotplug
pub mod Restart
use usbqemu_wheel.Common.{
  ℕ, zero, suc, ◌+◌, ◌-◌, ◌^◌, Bool, true, false, ◌&&◌, not, Option, none, some, List, ◌==◌,
  if◌then◌else◌, bit, clear, bit_and, bit_or,
}
use usbqemu_wheel.Usb.Device.{
  Device, Class, not_attached, attached_state, is_not_attached, speed_low, usb_pick_speed,
  usb_device_reset,
}
use usbqemu_wheel.Usb.Control.{◌>>=◌}
use usbqemu_wheel.Usb.Packet.{is_inflight, PacketState, in_async, canceled}
use usbqemu_wheel.Ohci.State.{
  Port, Ohci, port_ccs, port_pes, port_pss, port_prs, port_pps, port_lsda, port_csc, port_pesc,
  port_pssc, port_prsc, port_wtc, intr_rd, intr_rhsc, hcfs, usb_resume, usb_suspend, with_bit,
  without_bit, ohci_set_interrupt, port_at, set_port,
}

-- `ohci->rhport[i].port.speedmask`, set by `ohci_create`.
abbrev pub port_speedmask : ℕ
port_speedmask = 3

-- `ohci_port_set_if_connected` on the register: the new value and the result.
unfoldable pub set_if_connected : ℕ → ℕ → ℕ × Bool
set_if_connected ctrl val =
    if val == 0
    then (ctrl, false)
    else if not (bit ctrl port_ccs)
    then (with_bit ctrl port_csc, false)
    else (bit_or ctrl val, bit_and ctrl val == 0)

-- `ohci_port_power` on the register. Powering down clears PPS, CCS, PSS and PRS.
unfoldable pub port_power : ℕ → Bool → ℕ
port_power ctrl on = if on then with_bit ctrl port_pps else clear ctrl 0x115

-- The register before the reset: write-to-clear bits, ClearPortEnable, SetPortEnable, SetPortSuspend.
unfoldable pub port_flags : ℕ → ℕ → ℕ
unfolding set_if_connected
port_flags ctrl val =
    let c1 = if bit_and val port_wtc == 0 then ctrl else clear ctrl (bit_and val port_wtc) in
    let c2 = if bit val port_ccs then without_bit c1 port_pes else c1 in
    let c3 = (set_if_connected c2 (bit_and val (2 ^ port_pes))).0 in
    (set_if_connected c3 (bit_and val (2 ^ port_pss))).0

-- ClearPortPower and SetPortPower, in that order.
unfoldable pub port_powers : ℕ → ℕ → ℕ
unfolding port_power
port_powers ctrl val =
    let c = if bit val port_lsda then port_power ctrl false else ctrl in
    if bit val port_pps then port_power c true else c

-- The register of a port that loses its device: disconnected and disabled, with the changes noted.
unfoldable pub detached_ctrl : ℕ → ℕ
detached_ctrl ctrl =
    let c = if bit ctrl port_ccs then with_bit (without_bit ctrl port_ccs) port_csc else ctrl in
    if bit c port_pes then with_bit (without_bit c port_pes) port_pesc else c

-- The register of a port that gets a device of the given speed.
unfoldable pub attached_ctrl : ℕ → ℕ → ℕ
attached_ctrl ctrl speed =
    let c = with_bit (with_bit ctrl port_ccs) port_csc in
    if speed == speed_low then with_bit c port_lsda else without_bit c port_lsda

module _ {D : Type 0} (k : Class D) where
  -- The `usb_device_reset` of the port's device, if there is one.
  unfoldable pub reset_device : Port D → Port D
  unfolding usb_device_reset
  reset_device p = elim p.dev [ none ↦ p | some d ↦ record p { dev = some (usb_device_reset k d) } ]

  -- The part of `ohci_port_set_status` for a write of 1 to PortResetStatus.
  unfoldable pub port_reset : Port D → ℕ → Port D
  unfolding set_if_connected reset_device
  port_reset p val =
      let (c, started) = set_if_connected p.ctrl (bit_and val (2 ^ port_prs)) in
      if started
      then record (reset_device p) {
        ctrl = with_bit (with_bit (without_bit c port_prs) port_pes) port_prsc;
      }
      else record p { ctrl = c }

  unfoldable pub port_write : Port D → ℕ → Port D
  port_write p val =
      let q = port_reset (record p { ctrl = port_flags p.ctrl val }) val in
      record q { ctrl = port_powers q.ctrl val }

  -- The interrupt of a root hub status change, if the register is not what it was.
  unfoldable pub notice : Ohci D → ℕ → ℕ → Ohci D
  notice s old new = if old == new then s else ohci_set_interrupt s (2 ^ intr_rhsc)

  unfoldable pub ohci_port_set_status : Ohci D → ℕ → ℕ → Ohci D
  unfolding notice
  ohci_port_set_status s i val =
      let p = port_write (port_at s i) val in notice (set_port s i p) (port_at s i).ctrl p.ctrl

  -- `ohci_attach`, for a port with the device `d`.
  unfoldable pub ohci_attach : Ohci D → ℕ → Device D → Ohci D
  ohci_attach s i d =
      let old = (port_at s i).ctrl in
      let c' = attached_ctrl old d.speed in
      let s1 = set_port s i (record { dev = some d; ctrl = c' }) in
      let s2 = if hcfs s.ctl == usb_suspend then ohci_set_interrupt s1 (2 ^ intr_rd) else s1 in
      notice s2 old c'

  -- `usb_cancel_packet` of the controller's packet, behind its assertion: a packet that the device
  -- works on is taken from it. The queue of the endpoint is no part of the controller's state.
  unfoldable pub cancel_inflight : Ohci D → Ohci D
  cancel_inflight s =
      let told : Ohci D = elim (port_at s s.packet_port).dev [
        | none ↦ s
        | some d ↦ set_port s s.packet_port (record (port_at s s.packet_port) {
          dev = some (record d { rest = k.cancel_packet d.rest });
        })
      ] in
      let was : Ohci D = elim s.usb_packet.state [ in_async ↦ told | _ ↦ s ] in
      record was { usb_packet = record (was.usb_packet) { state = canceled } }

  -- `usb_cancel_packet` of the controller's packet.
  unfoldable pub cancel_packet : Ohci D → Option (Ohci D)
  unfolding cancel_inflight is_inflight
  cancel_packet s = if is_inflight s.usb_packet then some (cancel_inflight s) else none

  -- `ohci_async_cancel_device` for the device of port `i`; its test is the one that is asserted.
  unfoldable pub ohci_async_cancel_device : Ohci D → ℕ → Ohci D
  unfolding cancel_inflight is_inflight
  ohci_async_cancel_device s i =
      if not (s.async_td == 0) && is_inflight s.usb_packet && s.packet_port == i
      then record (cancel_inflight s) { async_td = 0 }
      else s

  unfoldable pub ohci_detach : Ohci D → ℕ → Ohci D
  ohci_detach s i =
      let old = (port_at s i).ctrl in
      let s1 : Ohci D = elim (port_at s i).dev [
        | none ↦ s
        | some d ↦ ohci_async_cancel_device s i
      ] in
      let s2 = set_port s1 i (record (port_at s1 i) { ctrl = detached_ctrl old }) in
      notice s2 old (detached_ctrl old)

  unfoldable pub ohci_wakeup : Ohci D → ℕ → Ohci D
  ohci_wakeup s i =
      let p = port_at s i in
      let resumed = bit p.ctrl port_pss in
      let s1 =
        if resumed
        then set_port s i (record p { ctrl = without_bit (with_bit p.ctrl port_pssc) port_pss })
        else s in
      if hcfs s.ctl == usb_suspend
      then ohci_set_interrupt (record s1 { ctl = s.ctl - hcfs s.ctl + usb_resume }) (2 ^ intr_rd)
      else ohci_set_interrupt s1 (if resumed then 2 ^ intr_rhsc else 0)

  unfoldable pub on_device : Ohci D → ℕ → (Device D → Device D) → Ohci D
  on_device s i f = elim (port_at s i).dev [
    | none ↦ s
    | some d ↦ set_port s i (record (port_at s i) { dev = some (f d) })
  ]

  -- `usb_detach` after its assertions.
  unfoldable pub detached_at : Ohci D → ℕ → Ohci D
  detached_at s i =
      on_device (ohci_detach s i) i (λ (d : Device D). record d { state = not_attached })

  -- `usb_detach`: the port has a device that is attached.
  unfoldable pub usb_detach : Ohci D → ℕ → Option (Ohci D)
  unfolding detached_at
  usb_detach s i = elim (port_at s i).dev [
    | none ↦ none
    | some d ↦ if is_not_attached d.state then none else some (detached_at s i)
  ]

  -- `usb_attach` of the device `d` at port `i`, after its assertions.
  unfoldable pub attached_at : Ohci D → ℕ → Device D → Ohci D
  attached_at s i d =
      on_device (ohci_attach s i (usb_pick_speed port_speedmask d)) i
        (λ (e : Device D). record e { state = attached_state; rest = k.handle_attach e.rest })

  -- `usb_attach`: the device is there, and not attached yet.
  unfoldable pub usb_attach : Ohci D → ℕ → Device D → Option (Ohci D)
  unfolding attached_at
  usb_attach s i d =
      if d.attached && is_not_attached d.state then some (attached_at s i d) else none

  -- `usb_attach` of the device that stands on the port.
  unfoldable pub attach_again : Ohci D → ℕ → Option (Ohci D)
  unfolding usb_attach
  attach_again s i = elim (port_at s i).dev [ none ↦ none | some d ↦ usb_attach s i d ]

  -- `usb_port_reset`: the port's device is detached, attached and reset.
  unfoldable pub usb_port_reset : Ohci D → ℕ → Option (Ohci D)
  unfolding usb_detach attach_again
  usb_port_reset s i = usb_detach s i >>= λ (s1 : Ohci D).
      attach_again s1 i >>= λ (s2 : Ohci D). some (on_device s2 i (usb_device_reset k))
