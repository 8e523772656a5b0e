-- ===== src/Ohci/Tests.antt =====
-- Runs of the controller with two ports and one device.
use usbqemu_wheel.Common.{
  ℕ, ◌+◌, ◌-◌, ◌*◌, ◌/◌, ◌%◌, ◌^◌, ◌≤◌, ◌≡◌, true, false, ◌&&◌, ◌||◌, not, refl, none, some, [],
  ◌∷◌, arith, bit,
}
use usbqemu_wheel.Usb.Device.{Device, Class, usb_pick_speed, not_attached, default_state}
use usbqemu_wheel.Usb.Packet.{Packet, token_in, success, undefined}
use usbqemu_wheel.Ohci.Regs.Interrupts.{interrupt_masks}
use usbqemu_wheel.Ohci.Ports.Restart.{port_reset-device}
use usbqemu_wheel.Ohci.State.{Ohci, Port, port_at, with_bit}
use usbqemu_wheel.Ohci.Ports.{
  port_write, attached_ctrl, port_speedmask, detached_ctrl, usb_port_reset,
}
use usbqemu_wheel.Ohci.Ports.Status.{
  port_write-connected, port_write-unconnected, port_write-power_off,
}
use usbqemu_wheel.Ohci.Regs.{
  ohci_mem_read, ohci_mem_write, ohci_get_frame_remaining, read_reg, write_reg,
}
use usbqemu_wheel.Ohci.Regs.PortRegs.{HasPorts, port_addr, port_register}
use usbqemu_wheel.Ohci.Regs.RoundTrip.{fm_interval, frame_remaining-wraps, reg_addr}

abbrev plain : Class ℕ
plain = record { handle_attach = λ n. n + 1; handle_reset = λ n. 0; cancel_packet = λ n. n }

abbrev wheel : Device ℕ
wheel = record {
  speed = 1;
  speedmask = 2;
  addr = 5;
  attached = true;
  state = not_attached;
  remote_wakeup = false;
  rest = 0;
}

abbrev plugged_wheel : Device ℕ
plugged_wheel = record wheel { state = default_state }

abbrev no_packet : Packet
no_packet = record {
  pid = token_in;
  id = 0;
  ep_nr = 0;
  stream = 0;
  iov = [];
  parameter = 0;
  short_not_ok = false;
  int_req = false;
  status = success;
  actual_length = 0;
  state = undefined;
}

abbrev connected : Port ℕ
connected = record { dev = some plugged_wheel; ctrl = 0x103 }

abbrev bare : Port ℕ
bare = record { dev = none; ctrl = 0x100 }

-- A running controller, 36,000 ticks into a frame.
abbrev running : Ohci ℕ
running = record {
  mem_base = 0x1f801600;
  num_ports = 2;
  eof_timer = 864;
  sof_time = 1000;
  ctl = 0x80;
  status = 0;
  intr_status = 0;
  intr = 0x80000000;
  hcca = 0;
  ctrl_head = 0;
  ctrl_cur = 0;
  bulk_head = 0;
  bulk_cur = 0;
  per_cur = 0;
  done = 0;
  done_count = 7;
  fsmps = 0x2778;
  fit = 0;
  fi = 0x2edf;
  frt = 0;
  frame_number = 0;
  pstart = 0;
  lst = 0x628;
  rhdesc_a = 0x202;
  rhdesc_b = 0;
  rhstatus = 0;
  rhport = connected ∷ bare ∷ [];
  old_ctl = 0;
  usb_packet = no_packet;
  packet_port = 0;
  async_td = 0;
  async_complete = false;
  clock = 37800;
  last_cycle = 0;
  irqs = 0;
  usb_frame_time = 36864;
  usb_bit_time = 3;
}

connected_example :
    let w = (port_write plain connected 0x10).ctrl in
    (bit w 0 ≡ true)
    × (bit w 1
        ≡ ((bit 0x10 4 && not (bit 0x103 4)) || (bit 0x10 1 || (bit 0x103 1 && not (bit 0x10 0)))))
    × (bit w 2 ≡ (bit 0x10 2 || bit 0x103 2))
    × (bit w 16 ≡ (bit 0x103 16 && not (bit 0x10 16)))
    × (bit w 20 ≡ ((bit 0x10 4 && not (bit 0x103 4)) || (bit 0x103 20 && not (bit 0x10 20))))
    × (bit w 8 ≡ (bit 0x10 8 || bit 0x103 8))
unfolding bit
connected_example = port_write-connected plain connected 0x10 refl refl

unconnected_example :
    let w = port_write plain bare 2 in
    (w.dev ≡ none)
    × (bit w.ctrl 0 ≡ false)
    × (bit w.ctrl 1 ≡ (bit 0x100 1 && not (bit 2 0)))
    × (bit w.ctrl 2 ≡ bit 0x100 2)
    × (bit w.ctrl 4 ≡ bit 0x100 4)
    × (bit w.ctrl 8 ≡ (bit 2 8 || bit 0x100 8))
    × (bit w.ctrl 16 ≡ ((bit 2 1 || (bit 2 2 || bit 2 4)) || (bit 0x100 16 && not (bit 2 16))))
    × (bit w.ctrl 17 ≡ (bit 0x100 17 && not (bit 2 17)))
    × (bit w.ctrl 18 ≡ (bit 0x100 18 && not (bit 2 18)))
    × (bit w.ctrl 20 ≡ (bit 0x100 20 && not (bit 2 20)))
unfolding bit
unconnected_example = port_write-unconnected plain bare 2 refl refl

power_off_example :
    let w = (port_write plain connected 0x200).ctrl in
    (bit w 0 ≡ false)
    × (bit w 2 ≡ false)
    × (bit w 4 ≡ false)
    × (bit w 8 ≡ false)
    × (bit w 1 ≡ (bit 0x200 1 || (bit 0x103 1 && not (bit 0x200 0))))
unfolding bit
power_off_example = port_write-power_off plain connected 0x200 refl refl refl refl

interval_example :
    (s' : Ohci ℕ) × (ohci_mem_write plain running (reg_addr running 13) 0xa778fedf ≡ some s')
    × (ohci_mem_read s' (reg_addr running 13) ≡ 0xa778fedf - 0xa778fedf / 2 ^ 14 % 4 * 2 ^ 14)
interval_example = fm_interval plain running 0xa778fedf (omega arith) (omega arith)

wraps_example : 2 ^ 14 ≤ ohci_get_frame_remaining running
wraps_example =
    frame_remaining-wraps running refl refl (omega arith) (omega arith) (omega arith) (omega arith)
      (omega arith) (omega arith)

masks_example :
    (s3 s4 s5 : Ohci ℕ) × (write_reg plain running 3 6 ≡ some s3)
    × (write_reg plain running 4 6 ≡ some s4)
    × (write_reg plain running 5 6 ≡ some s5)
    × (bit (read_reg s3 3) 2 ≡ (bit 0 2 && not (bit 6 2)))
    × (bit (read_reg s4 4) 2 ≡ (bit 0x80000000 2 || bit 6 2))
    × (bit (read_reg s5 5) 2 ≡ (bit 0x80000000 2 && not (bit 6 2)))
masks_example = interrupt_masks plain running 6 2

running-HasPorts : HasPorts running
running-HasPorts = record { base_fits = omega arith; few = omega arith; all_there = refl }

register_example :
    (s' : Ohci ℕ) × (ohci_mem_write plain running (port_addr running 0) 0x10 ≡ some s')
    × (ohci_mem_read s' (port_addr running 0) ≡ with_bit (port_write plain connected 0x10).ctrl 8)
    × (ohci_mem_read s' (port_addr running 1) ≡ ohci_mem_read running (port_addr running 1))
register_example =
    port_register plain running 0 1 0x10 running-HasPorts (omega arith) (omega arith)
      (λ e. absurd (omega (arith, e)))

restart_example :
    let e = usb_pick_speed port_speedmask wheel in
    (s' : Ohci ℕ) × (usb_port_reset plain running 0 ≡ some s')
    × (port_at s' 0 ≡ record {
      dev = some (record e { remote_wakeup = false; addr = 0; state = default_state; rest = 0 });
      ctrl = attached_ctrl (detached_ctrl 0x103) e.speed;
    })
restart_example =
    port_reset-device plain running 0 plugged_wheel 0x103 (omega arith) refl refl refl (λ e. cc)
