-- ===== src/Ohci/Frame/Tests.antt =====
-- A controller that works on a descriptor, and one that ends its frame.
use usbqemu_wheel.Common.{
  zero, suc, AreBytes, length-replicate, bit, ℕ, ◌≡◌, inl, inr, refl, true, false, Option, some,
  List, [], ◌∷◌, ◌++◌, arith, length, replicate, OnSome,
}
use usbqemu_wheel.Usb.Packet.{is_inflight, Packet, token_in, setup, success, undefined}
use usbqemu_wheel.Usb.Device.{Device, Class, default_state}
use usbqemu_wheel.Ohci.State.{Ohci}
use Prim.{tt}
use usbqemu_wheel.Ohci.Frame.{service_tds}
use usbqemu_wheel.Ohci.Frame.Ending.{iso_endpoint-ends}
use usbqemu_wheel.Ohci.Td.{memory_end, Ed}
use usbqemu_wheel.Ohci.Dma.{Host}
use usbqemu_wheel.Ohci.Service.{Step, Handled, ohci_service_td}
use usbqemu_wheel.Ohci.Service.Sound.{IsSound}
use usbqemu_wheel.Ohci.Service.Invariant.{service_td-IsSound}
use usbqemu_wheel.Ohci.Frame.{is_due, end_frame, passed}
use usbqemu_wheel.Ohci.Frame.Delivery.{IsDelivered, end_frame-delivers}

abbrev silent : Class ℕ
silent = record { handle_attach = λ n. n; handle_reset = λ n. n; cancel_packet = λ n. n }

-- A device that takes every packet whole.
abbrev taker : Device ℕ → Packet → Option (Handled ℕ)
taker d p =
    some
      (record { device = d; packet = record p { status = success; actual_length = length p.iov } })

abbrev mouse : Device ℕ
mouse = record {
  speed = 1;
  speedmask = 2;
  addr = 5;
  attached = true;
  state = default_state;
  remote_wakeup = false;
  rest = 0;
}

abbrev no_packet : Packet
no_packet = record {
  pid = token_in;
  id = 0;
  ep_nr = 0;
  stream = 0;
  iov = [];
  parameter = 0;
  short_not_ok = false;
  int_req = false;
  status = success;
  actual_length = 0;
  state = undefined;
}

-- One descriptor is in the done queue, and due.
abbrev due : Ohci ℕ
due = record {
  mem_base = 0;
  num_ports = 1;
  eof_timer = 0;
  sof_time = 0;
  ctl = 0x80;
  status = 0;
  intr_status = 0;
  intr = 0;
  hcca = 0x100;
  ctrl_head = 0;
  ctrl_cur = 0;
  bulk_head = 0;
  bulk_cur = 0;
  per_cur = 0;
  done = 0x40;
  done_count = 0;
  fsmps = 0;
  fit = 0;
  fi = 0;
  frt = 0;
  frame_number = 7;
  pstart = 0;
  lst = 0;
  rhdesc_a = 0;
  rhdesc_b = 0;
  rhstatus = 0;
  rhport = record { dev = some mouse; ctrl = 0x103 } ∷ [];
  old_ctl = 0;
  usb_packet = no_packet;
  packet_port = 0;
  async_td = 0;
  async_complete = false;
  clock = 0;
  last_cycle = 0;
  irqs = 0;
  usb_frame_time = 36864;
  usb_bit_time = 3;
}

-- Memory with an IN descriptor for 4 bytes at 0x20, whose buffer is at 0x30.
abbrev descriptor : List ℕ
descriptor = 0 ∷ 0 ∷ 0x10 ∷ 0 ∷ 0x30 ∷ 0 ∷ 0 ∷ 0 ∷ 0x30 ∷ 0 ∷ 0 ∷ 0 ∷ 0x33 ∷ 0 ∷ 0 ∷ 0 ∷ []

abbrev host : Host ℕ
host = record {
  ohci = due;
  ram = replicate 32 0 ++ (descriptor ++ replicate 8 0);
  usb_buf = replicate 8 1;
}

-- The same with more memory, which the communications area is in.
abbrev large_host : Host ℕ
large_host = record host { ram = replicate 512 0 }

abbrev endpoint : Ed
endpoint = record { flags = 0x401005; tail = 0x30; head = 0x20; next = 0 }

due-IsSound : IsSound due
due-IsSound = record { queued = inr (λ e. absurd (omega (arith, e))); waiting = inl refl }

service_example :
    OnSome (λ (t : Step ℕ). IsSound t.host.ohci) (ohci_service_td silent taker host endpoint)
service_example = service_td-IsSound silent taker host endpoint due-IsSound

deliver_example :
    (h : Host ℕ) × (end_frame silent large_host (replicate 136 0) ≡ passed h) × IsDelivered due h
unfolding is_due bit
deliver_example =
    end_frame-delivers silent large_host (replicate 136 0) due-IsSound refl (omega arith)
      (omega arith) refl

-- The whole memory, with nothing in it.
abbrev empty : List ℕ
empty = replicate memory_end 0

zeros-AreBytes : (n : ℕ) → AreBytes (replicate n 0)
zeros-AreBytes zero = tt
zeros-AreBytes (suc n) = (omega arith, zeros-AreBytes n)

taken :
    (d : Device ℕ) (p : Packet)
    → d.state ≡ default_state
    → p.state ≡ setup
    → (t : Handled ℕ) × (taker d p ≡ some t)
taken d p st ready = (
  record { device = d; packet = record p { status = success; actual_length = length p.iov } },
  refl,
)

iso_host : Host ℕ
iso_host = record { ohci = due; ram = empty; usb_buf = [] }

ends_example :
    (r : Host ℕ × Ed) × (service_tds silent taker 200000 iso_host
        (record endpoint { flags = 0x8805 })
        false
      ≡ some r)
unfolding iso_host bit is_inflight
ends_example =
    iso_endpoint-ends silent taker taken iso_host (record endpoint { flags = 0x8805 }) false 200000
      refl (inl (λ e. cc)) refl (zeros-AreBytes memory_end) (length-replicate {A = ℕ} memory_end 0)
      (omega arith)
