-- ===== src/Ohci/Td/Tests.antt =====
-- Runs of the descriptor functions.
use usbqemu_wheel.Common.{
  ℕ, ◌+◌, ◌-◌, ◌/◌, ◌≤◌, ◌<◌, min, ◌≡◌, inl, refl, true, false, some, [], arith, bit, field,
  if◌then◌else◌, ◌==◌,
}
use usbqemu_wheel.Usb.Packet.{Packet, token_in, success, undefined, stall}
use usbqemu_wheel.Ohci.State.{Ohci}
use usbqemu_wheel.Ohci.Td.{
  Ed, Td, Serviced, bytes, failed, td_len, first_part, page, td_di, td_done, writeback,
  usb_buf_size,
}
use usbqemu_wheel.Ohci.Td.Length.{parts_cover}
use usbqemu_wheel.Ohci.Td.Writeback.{address, writeback_in, writeback_partial, writeback_error}

abbrev idle_packet : Packet
idle_packet = record {
  pid = token_in;
  id = 0;
  ep_nr = 0;
  stream = 0;
  iov = [];
  parameter = 0;
  short_not_ok = false;
  int_req = false;
  status = success;
  actual_length = 0;
  state = undefined;
}

abbrev controller : Ohci ℕ
controller = record {
  mem_base = 0;
  num_ports = 1;
  eof_timer = 0;
  sof_time = 0;
  ctl = 0x80;
  status = 0;
  intr_status = 0;
  intr = 0;
  hcca = 0;
  ctrl_head = 0;
  ctrl_cur = 0;
  bulk_head = 0;
  bulk_cur = 0;
  per_cur = 0;
  done = 0x500;
  done_count = 7;
  fsmps = 0;
  fit = 0;
  fi = 0;
  frt = 0;
  frame_number = 0;
  pstart = 0;
  lst = 0;
  rhdesc_a = 0;
  rhdesc_b = 0;
  rhstatus = 0;
  rhport = [];
  old_ctl = 0;
  usb_packet = idle_packet;
  packet_port = 0;
  async_td = 0;
  async_complete = false;
  clock = 0;
  last_cycle = 0;
  irqs = 0;
  usb_frame_time = 36864;
  usb_bit_time = 3;
}

-- A buffer of 100 bytes that crosses a page, and an endpoint with its toggle set.
abbrev crossing : Td
crossing = record { flags = 0x3000000; cbp = 0x11fe0; next = 0x620; be = 0x12043 }

abbrev endpoint : Ed
endpoint = record { flags = 0x400080; tail = 0; head = 0x602; next = 0 }

abbrev service : Serviced ℕ
service = record { ohci = controller; ed = endpoint; td = crossing }

crossing_len : td_len crossing ≡ some 100
unfolding td_len
crossing_len = refl

parts_example :
    (100 ≤ usb_buf_size)
    × (0x11fe0 + first_part crossing 100 ≤ page 0x11fe0 + 0x1000)
    × (100 - first_part crossing 100 ≤ 0x1000)
    × ((if first_part crossing 100 == 100
          then 0x11fe0 + 100 - 1
          else page 0x12043 + (100 - first_part crossing 100) - 1)
        ≡ 0x12043)
parts_example = parts_cover crossing 100 crossing_len (omega arith)

in_example :
    (r' : Serviced ℕ) × (writeback service 0x600 2 (bytes 100) 100 100 ≡ some r')
    × (r'.ohci.done ≡ 0x600)
    × (r'.td.next ≡ 0x500)
    × (r'.ohci.done_count ≡ min (td_di (td_done 0x3000000)) 7)
    × (field r'.td.flags 28 4 ≡ 0)
    × (r'.ed.head / 16 ≡ 0x620 / 16)
    × (bit r'.ed.head 0 ≡ bit 0x602 0)
    × (bit r'.ed.head 1 ≡ false)
in_example = writeback_in service 0x600 100 100 100 (inl refl)

partial_example :
    (r' : Serviced ℕ) × (writeback service 0x600 1 (bytes 64) 64 100 ≡ some r')
    × (r'.ohci ≡ controller)
    × (r'.ed ≡ endpoint)
    × (td_len r'.td ≡ some (100 - 64))
    × ((j : ℕ) → 64 + j < 100 → address r'.td j ≡ address crossing (64 + j))
    × (r'.td.be ≡ 0x12043)
    × (r'.td.next ≡ 0x620)
    × (field r'.td.flags 28 4 ≡ 0)
partial_example =
    writeback_partial service 0x600 1 64 64 100 (λ e. absurd (omega (arith, e))) crossing_len
      (omega arith) (omega arith)

error_example :
    (r' : Serviced ℕ) × (writeback service 0x600 2 (failed stall) 100 100 ≡ some r')
    × (r'.ohci.done ≡ 0x600)
    × (r'.td.next ≡ 0x500)
    × (r'.ohci.done_count ≡ 0)
    × (r'.td.cbp ≡ 0x11fe0)
    × (r'.ed.head / 16 ≡ 0x620 / 16)
    × (bit r'.ed.head 0 ≡ true)
    × (bit r'.ed.head 1 ≡ bit 0x602 1)
error_example = writeback_error service 0x600 2 100 100 stall (λ e. cc) (λ e. cc)
