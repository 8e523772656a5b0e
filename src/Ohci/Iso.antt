-- ===== src/Ohci/Iso.antt =====
-- `ohci_service_iso_td`: one isochronous descriptor. A length of more than `usb_buf` has bytes is cut.
use usbqemu_wheel.Common.{
  ℕ, ◌+◌, ◌-◌, ◌/◌, ◌%◌, ◌^◌, min, Bool, false, not, ◌&&◌, ◌||◌, Option, none, some, ltb, leb, ◌==◌,
  if◌then◌else◌, field, set_field, bit, get_or, set,
}
use usbqemu_wheel.Usb.Packet.{Token, ioerror, nodev, nak, stall, async}
use usbqemu_wheel.Usb.Device.{Device, Class}
use usbqemu_wheel.Usb.Packet.{Packet}
use usbqemu_wheel.Usb.Control.{◌>>=◌}
use usbqemu_wheel.Ohci.Td.{
  Ed, Td, Outcome, bytes, failed, dir_in, dir_out, direction_pid, td_di, set_cc, cc_noerror,
  cc_stall, cc_devicenotresponding, cc_undexpetedpid, cc_dataoverrun, cc_dataunderrun, usb_buf_size,
  page, copy_td_to_device, copy_td_from_device,
}
use usbqemu_wheel.Ohci.Dma.{Host, IsoTd, ohci_read_iso_td, ohci_put_iso_td}
use usbqemu_wheel.Ohci.Service.{Step, Handled, dptr, die, stopped, ohci_find_device, send, outcome}

-- The fields CC and SIZE of an offset.
abbrev pub set_psw_cc : ℕ → ℕ → ℕ
set_psw_cc x v = set_field x 12 4 v

abbrev pub set_psw_size : ℕ → ℕ → ℕ
set_psw_size x v = set_field x 0 12 v

-- `(bp or be & OHCI_PAGE_MASK) | (offset & OHCI_OFFSET_MASK)`, by bit 12 of the offset.
abbrev pub buffer_addr : IsoTd → ℕ → ℕ
buffer_addr td offset = page (if bit offset 12 then td.be else td.bp) + offset % 0x1000

-- "Retire the TD to the Done Queue"
module _ {D : Type 0} where
  unfoldable pub retire_iso : Host D → Ed → IsoTd → ℕ → Host D × Ed × IsoTd
  retire_iso h ed td addr = (
    record h {
      ohci = record (h.ohci) { done = addr; done_count = min (td_di td.flags) h.ohci.done_count };
    },
    record ed { head = ed.head % 16 + dptr td.next },
    record td { next = h.ohci.done },
  )

-- The first and the last address of the buffer for frame `n` of a descriptor with `count` + 1 frames;
-- `none` where the descriptor is left alone.
unfoldable pub iso_range : IsoTd → ℕ → ℕ → Option (ℕ × ℕ)
iso_range td n count =
    let start = get_or td.offset n 0 in
    let last = n == count in
    let next = if last then td.be else get_or td.offset (n + 1) 0 in
    let first_addr = buffer_addr td start in
    let last_addr = if last then next else buffer_addr td ((next + 2 ^ 32 - 1) % 2 ^ 32) in
    let unready = (field start 12 4 / 2 == 0) || (not last && (field next 12 4 / 2 == 0)) in
    let disordered = not last && ltb next start in
    if (td.bp == 0) || (td.be == 0) || unready || disordered || ltb last_addr first_addr
    then none
    else some (first_addr, last_addr)

unfoldable pub iso_len : ℕ → ℕ → ℕ
iso_len first last = min usb_buf_size (
    if first / 0x1000 == last / 0x1000
    then last - first + 1
    else last % 0x1000 + 0x1001 - first % 0x1000)

-- The offset after a frame that was answered.
unfoldable pub iso_psw : ℕ → ℕ → Outcome → ℕ → ℕ
iso_psw x dir (bytes n) len =
    if (dir == dir_in) && leb n len
    then set_psw_size (set_psw_cc x cc_noerror) n
    else if (dir == dir_out) && (n == len)
    then set_psw_size (set_psw_cc x cc_noerror) 0
    else if ltb len n
    then set_psw_size (set_psw_cc x cc_dataoverrun) len
    else set_psw_cc x cc_dataunderrun
iso_psw x dir (failed st) len = elim st [
  | ioerror ↦ set_psw_size (set_psw_cc x cc_devicenotresponding) 0
  | nodev ↦ set_psw_size (set_psw_cc x cc_devicenotresponding) 0
  | nak ↦ set_psw_size (set_psw_cc x cc_stall) 0
  | stall ↦ set_psw_size (set_psw_cc x cc_stall) 0
  | _ ↦ set_psw_cc x cc_undexpetedpid
]

-- The addresses of a buffer, as `ohci_copy_iso_td` takes them: like those of a general descriptor.
abbrev pub as_td : ℕ → ℕ → Td
as_td first last = record { flags = 0; cbp = first; next = 0; be = last }

-- Whether bytes are copied to memory.
abbrev pub iso_received : ℕ → Outcome → ℕ → Option ℕ
iso_received dir (bytes n) len = if (dir == dir_in) && leb n len then some n else none
iso_received dir (failed st) len = none

module _ {D : Type 0} (k : Class D) where
  -- A descriptor whose frames have all passed.
  unfoldable pub expire : Host D → Ed → IsoTd → ℕ → Step D
  unfolding retire_iso ohci_put_iso_td
  expire h ed td addr =
      let (h1, ed1, td1) =
        retire_iso h ed (record td { flags = set_cc td.flags cc_dataoverrun }) addr in
      let w = ohci_put_iso_td k h1 addr td1 in
      if field td.flags 28 4 == cc_dataoverrun
      then stopped h ed
      else if w.result
      then record { host = w.host; ed = ed1; stop = false }
      else stopped (die w.host) ed1

  -- The descriptor is put back, and retired after its last frame.
  unfoldable pub put_back : Host D → Ed → IsoTd → ℕ → Bool → Step D
  unfolding retire_iso ohci_put_iso_td
  put_back h ed td addr last =
      let (h1, ed1, td1) =
        retire_iso h ed (record td { flags = set_cc td.flags cc_noerror }) addr in
      let (h2, ed2, td2) : Host D × Ed × IsoTd = if last then (h1, ed1, td1) else (h, ed, td) in
      let w = ohci_put_iso_td k h2 addr td2 in
      if w.result then stopped w.host ed2 else stopped (die w.host) ed2

  -- From the answer of the device on.
  unfoldable pub conclude_iso : Host D → Ed → IsoTd → ℕ → ℕ → ℕ → ℕ → ℕ → ℕ → Step D
  unfolding put_back iso_psw iso_len
  conclude_iso h ed td addr dir n count first last =
      let len = iso_len first last in
      let ret = outcome h.ohci.usb_packet in
      let td1 = record td {
        offset = set td.offset n (iso_psw (get_or td.offset n 0) dir ret len);
      } in
      elim (iso_received dir ret len) [
        | none ↦ put_back h ed td1 addr (n == count)
        | some m ↦
            let r = copy_td_from_device k h.ohci h.ram (as_td first last) h.usb_buf m in
            let h1 : Host D = record h { ohci = r.1; ram = r.2 } in
            if r.0 then stopped (die h1) ed else put_back h1 ed td1 addr (n == count)
      ]

module _ {D : Type 0} (k : Class D) (handle : Device D → Packet → Option (Handled D)) where
  -- The packet of a frame.
  unfoldable pub submit_iso : Host D → Ed → IsoTd → ℕ → ℕ → Token → ℕ → ℕ → ℕ → ℕ → Option (Step D)
  unfolding conclude_iso iso_len
  submit_iso h ed td addr dir pid n count first last =
      elim (ohci_find_device h.ohci (field ed.flags 0 7)) [
        | none ↦ some (stopped h ed)
        | some (i, d) ↦
            send k handle h i d pid (field ed.flags 7 4) addr false
              ((n == count) && (td_di td.flags == 0)) (iso_len first last)
            >>= λ (h1 : Host D). some (elim h1.ohci.usb_packet.status [
              | async ↦ stopped h1 ed
              | _ ↦ conclude_iso k h1 ed td addr dir n count first last
            ])
      ]

  -- A frame of a descriptor, after the bytes for the device were copied.
  unfoldable pub transact_iso :
      Host D → Ed → IsoTd → ℕ → ℕ → Token → ℕ → ℕ → ℕ → ℕ → Bool → Option (Step D)
  unfolding submit_iso conclude_iso iso_len
  transact_iso h ed td addr dir pid n count first last completion =
      let r = copy_td_to_device k h.ohci h.ram (as_td first last) h.usb_buf (iso_len first last) in
      let h1 : Host D = record h { ohci = r.1; usb_buf = r.2 } in
      let h2 : Host D = if dir == dir_in then h else h1 in
      if not (dir == dir_in) && r.0
      then some (stopped (die h1) ed)
      else if completion
      then some (conclude_iso k h2 ed td addr dir n count first last)
      else submit_iso h2 ed td addr dir pid n count first last

  -- `ohci_service_iso_td`
  unfoldable pub ohci_service_iso_td : Host D → Ed → Bool → Option (Step D)
  unfolding ohci_read_iso_td expire iso_range transact_iso
  ohci_service_iso_td h ed completion =
      let addr = dptr ed.head in
      let r = ohci_read_iso_td k h addr in
      elim r.result [
        | none ↦ some (stopped (die r.host) ed)
        | some td ↦
            let n = (r.host.ohci.frame_number + 2 ^ 16 - td.flags % 2 ^ 16) % 2 ^ 16 in
            let count = field td.flags 24 3 in
            let dir = field ed.flags 11 2 in
            if leb (2 ^ 15) n
            then some (stopped r.host ed)
            else if ltb count n
            then some (expire k r.host ed td addr)
            else elim (direction_pid dir) [
              | none ↦ some (stopped r.host ed)
              | some pid ↦ elim (iso_range td n count) [
                | none ↦ some (stopped r.host ed)
                | some (first, last) ↦
                    transact_iso r.host ed td addr dir pid n count first last completion
              ]
            ]
      ]
