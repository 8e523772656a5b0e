-- ===== src/Ohci/Service.antt =====
-- `ohci_service_td`: one general descriptor, from memory to the device and back. What
-- `usb_handle_packet` does with a packet is a parameter.
pub mod Sound
pub mod Invariant
use usbqemu_wheel.Common.{
  ℕ, zero, suc, ◌+◌, ◌-◌, ◌*◌, ◌/◌, Bool, true, false, not, ◌&&◌, Option, none, some, List, ◌==◌,
  if◌then◌else◌, leb, field, bit, take, write_at,
}
use usbqemu_wheel.Usb.Packet.{
  Packet, Token, token_in, token_out, Status, success, async, packet_setup, packet_addbuf,
}
use usbqemu_wheel.Usb.Device.{Device, Class, answers}
use usbqemu_wheel.Usb.Control.{◌>>=◌}
use usbqemu_wheel.Ohci.State.{Ohci, port_pes, ohci_die, port_at, set_port}
use usbqemu_wheel.Ohci.Td.{
  Ed, Td, Outcome, bytes, failed, Serviced, direction, direction_pid, dir_in, td_len, td_pktlen,
  td_di, copy_td_to_device, copy_td_from_device, writeback,
}
use usbqemu_wheel.Ohci.Dma.{Host, Access, ohci_read_td, ohci_put_td}

-- `ptr & OHCI_DPTR_MASK`
abbrev pub dptr : ℕ → ℕ
dptr x = x / 16 * 16

-- What a service function leaves, and whether it ends the work on the endpoint.
pub record Step (D : Type 0) : Type 0 where
  pub host : Host D
  pub ed : Ed
  pub stop : Bool

-- The device, and the packet that it was given.
pub record Handled (D : Type 0) : Type 0 where
  pub device : Device D
  pub packet : Packet

-- `ret`, from the packet.
abbrev pub outcome : Packet → Outcome
outcome p = elim p.status [ success ↦ bytes p.actual_length | _ ↦ failed p.status ]

module _ {D : Type 0} where
  abbrev pub die : Host D → Host D
  die h = record h { ohci = ohci_die h.ohci }

  -- Nothing more for this endpoint.
  abbrev pub stopped : Host D → Ed → Step D
  stopped h ed = record { host = h; ed = ed; stop = true }

  -- `ohci_find_device`, `n` ports from port `i`.
  unfoldable pub find_from : Ohci D → ℕ → ℕ → ℕ → Option (ℕ × Device D)
  find_from s addr i zero = none
  find_from s addr i (suc n) =
      let rest = find_from s addr (i + 1) n in
      if not (bit (port_at s i).ctrl port_pes) then rest else elim (port_at s i).dev [
        | none ↦ rest
        | some d ↦ if answers d addr then some (i, d) else rest
      ]

  unfoldable pub ohci_find_device : Ohci D → ℕ → Option (ℕ × Device D)
  unfolding find_from
  ohci_find_device s addr = find_from s addr 0 s.num_ports

-- Whether `usb_ep_get` has an endpoint of this number for a token: of the data endpoints, only for IN
-- and OUT.
unfoldable pub has_endpoint : Token → ℕ → Bool
has_endpoint token_in nr = leb nr 15
has_endpoint token_out nr = leb nr 15
has_endpoint _ nr = nr == 0

module _ {D : Type 0} (k : Class D) (handle : Device D → Packet → Option (Handled D)) where
  -- The controller's packet for the device of a port, with `n` bytes of `usb_buf`.
  unfoldable pub deliver_packet :
      Host D → ℕ → Device D → Token → ℕ → ℕ → Bool → Bool → ℕ → Option (Host D)
  deliver_packet h i d pid ep_nr id short_not_ok int_req n =
      packet_setup h.ohci.usb_packet pid ep_nr 0 id short_not_ok int_req >>= λ (p : Packet).
      handle d (packet_addbuf p (take n h.usb_buf)) >>= λ (r : Handled D). some (record h {
        ohci = record (set_port h.ohci i (record (port_at h.ohci i) { dev = some r.device })) {
          usb_packet = r.packet;
          packet_port = i;
        };
        usb_buf = write_at h.usb_buf 0 r.packet.iov;
      })

  -- `usb_ep_get` with its assertion, and the packet.
  unfoldable pub send : Host D → ℕ → Device D → Token → ℕ → ℕ → Bool → Bool → ℕ → Option (Host D)
  unfolding deliver_packet
  send h i d pid ep_nr id short_not_ok int_req n =
      if has_endpoint pid ep_nr
      then deliver_packet h i d pid ep_nr id short_not_ok int_req n
      else none

  -- The bytes for the device.
  unfoldable pub gather : Host D → Td → ℕ → ℕ → ℕ → Host D
  gather h td dir len pktlen =
      let r = copy_td_to_device k h.ohci h.ram td h.usb_buf pktlen in
      let h1 : Host D = record h { ohci = r.1; usb_buf = r.2 } in
      if not (len == 0) && not (dir == dir_in) then (if r.0 then die h1 else h1) else h

  -- The bytes from the device.
  unfoldable pub scatter : Host D → Td → ℕ → Outcome → Host D
  scatter h td dir (bytes n) =
      let r = copy_td_from_device k h.ohci h.ram td h.usb_buf n in
      let h1 : Host D = record h { ohci = r.1; ram = r.2 } in
      if dir == dir_in then (if r.0 then die h1 else h1) else h
  scatter h td dir (failed st) = h

  -- From the answer of the device on.
  unfoldable pub conclude : Host D → Ed → Td → ℕ → ℕ → ℕ → ℕ → Step D
  unfolding scatter ohci_put_td
  conclude h ed td addr dir pktlen len =
      let ret = outcome h.ohci.usb_packet in
      let h1 = scatter h td dir ret in
      elim (writeback (record { ohci = h1.ohci; ed = ed; td = td }) addr dir ret pktlen len) [
        | none ↦ stopped h1 ed
        | some r ↦
            let w = ohci_put_td k (record h1 { ohci = r.ohci }) addr r.td in
            if w.result
            then record { host = w.host; ed = r.ed; stop = not (field r.td.flags 28 4 == 0) }
            else stopped (die w.host) r.ed
      ]

  -- The device's answer to the packet; a packet that waits ends the work on the endpoint.
  unfoldable pub respond : Host D → Ed → Td → ℕ → ℕ → ℕ → ℕ → Step D
  unfolding conclude
  respond h ed td addr dir pktlen len = elim h.ohci.usb_packet.status [
    | async ↦ stopped (record h { ohci = record (h.ohci) { async_td = addr } }) ed
    | _ ↦ conclude h ed td addr dir pktlen len
  ]

  -- A descriptor whose bytes for the device are in `usb_buf`.
  unfoldable pub offer : Host D → Ed → Td → ℕ → ℕ → Token → ℕ → ℕ → Option (Step D)
  unfolding ohci_find_device send respond
  offer h ed td addr dir pid pktlen len =
      if not (h.ohci.async_td == 0)
      then some (stopped h ed)
      else elim (ohci_find_device h.ohci (field ed.flags 0 7)) [
        | none ↦ some (stopped h ed)
        | some (i, d) ↦
            send h i d pid (field ed.flags 7 4) addr (not (bit td.flags 18)) (td_di td.flags == 0)
              pktlen
            >>= λ (g : Host D). some (respond g ed td addr dir pktlen len)
      ]

  -- A descriptor that has not been given to a device yet.
  unfoldable pub submit : Host D → Ed → Td → ℕ → ℕ → Token → ℕ → ℕ → Option (Step D)
  unfolding offer gather
  submit h ed td addr dir pid pktlen len =
      offer (gather h td dir len pktlen) ed td addr dir pid pktlen len

  -- A descriptor whose fields have been read.
  unfoldable pub transact : Host D → Ed → Td → ℕ → Bool → ℕ → Token → Option (Step D)
  unfolding submit conclude
  transact h ed td addr completion dir pid = elim (td_len td) [
    | none ↦ some (stopped (die h) ed)
    | some len ↦
        let pktlen = td_pktlen ed.flags dir len in
        let h1 : Host D = record h {
          ohci = record (h.ohci) { async_td = 0; async_complete = false };
        } in
        if completion
        then some (conclude h1 ed td addr dir pktlen len)
        else submit h ed td addr dir pid pktlen len
  ]

  -- The descriptor at `addr`, read from memory.
  unfoldable pub service_at : Host D → Ed → ℕ → Bool → Option (Step D)
  unfolding transact ohci_read_td
  service_at h ed addr completion =
      let r = ohci_read_td k h addr in
      elim r.result [
        | none ↦ some (stopped (die r.host) ed)
        | some td ↦
            let dir = direction ed.flags td.flags in
            elim (direction_pid dir) [
              | none ↦ some (stopped r.host ed)
              | some pid ↦ transact r.host ed td addr completion dir pid
            ]
      ]

  -- `ohci_service_td`
  unfoldable pub ohci_service_td : Host D → Ed → Option (Step D)
  unfolding service_at
  ohci_service_td h ed =
      let addr = dptr ed.head in
      let completion = addr == h.ohci.async_td in
      if completion && not h.ohci.async_complete
      then some (stopped h ed)
      else service_at h ed addr completion
