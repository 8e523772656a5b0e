-- ===== src/Usb/Endpoint/Tests.antt =====
-- Runs of a bulk endpoint whose device works on every packet.
use usbqemu_wheel.Common.{ℕ, ◌+◌, ◌≡◌, refl, false, some, List, [], ◌∷◌, ◌++◌, if◌then◌else◌}
use usbqemu_wheel.Usb.Packet.{Packet, token_in, success, async, stall, setup, in_async}
use usbqemu_wheel.Usb.Control.{Handler, Reply, Turn, idle}
use usbqemu_wheel.Usb.Endpoint.{Endpoint, bulk_type, may_wait, usb_handle_packet}
use usbqemu_wheel.Usb.Endpoint.Queue.{Queued, handle_packet-empty}

abbrev on_control : Handler ℕ
on_control n p r v i l buf = record { device = n; status = success; actual_length = 0; bytes = buf }

abbrev on_data : ℕ → Packet → Reply ℕ
on_data n p = record { device = n + 1; status = async; actual_length = 0; bytes = p.iov }

abbrev fresh : ℕ → Packet
fresh n = record {
  pid = token_in;
  id = n;
  ep_nr = 2;
  stream = 0;
  iov = 0 ∷ 0 ∷ [];
  parameter = 0;
  short_not_ok = false;
  int_req = false;
  status = success;
  actual_length = 0;
  state = setup;
}

abbrev bulk : List Packet → Endpoint
bulk ps = record {
  nr = 2;
  type = bulk_type;
  max_packet_size = 64;
  max_streams = 0;
  pipeline = false;
  halted = false;
  queue = ps;
}

abbrev offer : ℕ → Turn ℕ
offer n = record {
  device = 7;
  control = record {
    setup_buf = [];
    data_buf = [];
    setup_state = idle;
    setup_len = 0;
    setup_index = 0;
  };
  packet = fresh n;
}

empty_example :
    (e' : Endpoint) × (t' : Turn ℕ) × (usb_handle_packet on_control on_data (bulk []) (offer 1)
      ≡ some (e', t'))
    × (e'.halted ≡ false)
    × (t'.device ≡ 8)
    × (t'.packet.actual_length ≡ 0)
    × Queued [] t'.packet e'.queue
unfolding may_wait
empty_example = handle_packet-empty on_control on_data (bulk []) (offer 1) refl refl refl refl

-- A port whose next packet for an endpoint that is not halted is taken in work at once.
abbrev next_one : Endpoint → Packet → Endpoint
next_one e p = record e {
  queue =
      if e.halted
      then e.queue
      else e.queue ++ (record (fresh (p.id + 1)) { state = in_async } ∷ []);
}

abbrev working : Packet
working = record (fresh 1) { state = in_async; status = async }

-- The device has answered its packet by a stall.
abbrev stalled : Turn ℕ
stalled = record (offer 1) { packet = record (fresh 1) { state = in_async; status = stall } }
