-- ===== src/Ohci/Td.antt =====
-- General transfer descriptors in qemu-usb/usb-ohci.cpp: the length of a descriptor's buffer, the
-- copy between it and the controller's buffer, and `ohci_service_td` from the answer of the device
-- on. The memory of the I/O processor is the list of its bytes.
pub mod Length
pub mod Writeback
mod Tests
use usbqemu_wheel.Common.{
  ℕ, ◌+◌, ◌-◌, ◌*◌, ◌/◌, ◌%◌, ◌^◌, min, Bool, true, false, ◌&&◌, ◌||◌, not, Option, none, some,
  List, ltb, leb, ◌==◌, if◌then◌else◌, bit, bit_or, bit_xor, clear, field, set_field, take, drop,
  write_at,
}
use usbqemu_wheel.Usb.Device.{Class}
use usbqemu_wheel.Usb.Packet.{
  Token, token_setup, token_in, token_out, Status, success, nodev, nak, stall, babble, ioerror,
  async,
}
use usbqemu_wheel.Ohci.State.{Ohci, with_bit, without_bit}
use usbqemu_wheel.Ohci.Reset.{ohci_soft_reset}

-- `struct ohci_ed` and `struct ohci_td`
pub record Ed : Type 0 where
  pub flags : ℕ
  pub tail : ℕ
  pub head : ℕ
  pub next : ℕ

pub record Td : Type 0 where
  pub flags : ℕ
  pub cbp : ℕ
  pub next : ℕ
  pub be : ℕ

-- `ret`: a number of bytes, or a status below 0.
pub data Outcome : Type 0 where
  bytes : ℕ → Outcome
  failed : Status → Outcome

-- OHCI_TD_DIR_IN and OHCI_TD_DIR_OUT
abbrev pub dir_in : ℕ
dir_in = 2

abbrev pub dir_out : ℕ
dir_out = 1

-- OHCI_TD_T0 and OHCI_TD_T1, the same bit, and OHCI_ED_H and OHCI_ED_C, as bit numbers.
abbrev pub td_t0 : ℕ
td_t0 = 24

abbrev pub td_t1 : ℕ
td_t1 = 24

abbrev pub ed_h : ℕ
ed_h = 0

abbrev pub ed_c : ℕ
ed_c = 1

-- OHCI_CC_*
abbrev pub cc_noerror : ℕ
cc_noerror = 0

abbrev pub cc_stall : ℕ
cc_stall = 4

abbrev pub cc_devicenotresponding : ℕ
cc_devicenotresponding = 5

abbrev pub cc_undexpetedpid : ℕ
cc_undexpetedpid = 7

abbrev pub cc_dataoverrun : ℕ
cc_dataoverrun = 8

abbrev pub cc_dataunderrun : ℕ
cc_dataunderrun = 9

-- The fields DI, EC and CC of a descriptor's flags.
abbrev pub td_di : ℕ → ℕ
td_di x = field x 21 3

abbrev pub set_ec : ℕ → ℕ → ℕ
set_ec x v = set_field x 26 2 v

abbrev pub set_cc : ℕ → ℕ → ℕ
set_cc x v = set_field x 28 4 v

-- `sizeof(ohci->usb_buf)`
abbrev pub usb_buf_size : ℕ
usb_buf_size = 8192

-- The direction of a transfer: the endpoint's, or the descriptor's own.
unfoldable pub direction : ℕ → ℕ → ℕ
direction ed_flags td_flags =
    let dir = field ed_flags 11 2 in
    if (dir == dir_out) || (dir == dir_in) then dir else field td_flags 19 2

-- The token for a direction; a reserved one has none.
unfoldable pub direction_pid : ℕ → Option Token
direction_pid dir =
    if dir == dir_in
    then some token_in
    else if dir == dir_out
    then some token_out
    else if dir == 0
    then some token_setup
    else none

-- `len`, or `none` where the controller dies.
unfoldable pub td_len : Td → Option ℕ
td_len td =
    if not (td.cbp == 0) && not (td.be == 0)
    then (if not (td.cbp / 0x1000 == td.be / 0x1000)
        then some (min (td.be % 0x1000 + 0x1001 - td.cbp % 0x1000) usb_buf_size)
        else if ltb td.be td.cbp
        then none
        else some (min (td.be - td.cbp + 1) usb_buf_size))
    else some 0

-- `pktlen` for a descriptor with the length `len`.
unfoldable pub td_pktlen : ℕ → ℕ → ℕ → ℕ
td_pktlen ed_flags dir len = if dir == dir_in then len else min (field ed_flags 16 11) len

-- The first part of a descriptor's buffer, up to the end of its page.
abbrev pub first_part : Td → ℕ → ℕ
first_part td len = min (0x1000 - td.cbp % 0x1000) len

-- `ptr & ~0xfff`
abbrev pub page : ℕ → ℕ
page ptr = ptr / 0x1000 * 0x1000

-- The bytes that `cpu_physical_memory_rw` refuses.
abbrev pub memory_end : ℕ
memory_end = 0x200000

module _ {D : Type 0} (k : Class D) where
  -- `cpu_physical_memory_rw(addr, buf + off, len, 0)`: whether it fails, the controller, the buffer.
  unfoldable pub physical_read : Ohci D → List ℕ → ℕ → ℕ → List ℕ → ℕ → Bool × Ohci D × List ℕ
  physical_read s ram addr len buf off =
      if leb memory_end (addr + len)
      then (true, ohci_soft_reset k s, buf)
      else (false, s, write_at buf off (take len (drop addr ram)))

  -- `cpu_physical_memory_rw(addr, buf + off, len, 1)`: whether it fails, the controller, the memory.
  unfoldable pub physical_write : Ohci D → List ℕ → ℕ → ℕ → List ℕ → ℕ → Bool × Ohci D × List ℕ
  physical_write s ram addr len buf off =
      if leb memory_end (addr + len)
      then (true, ohci_soft_reset k s, ram)
      else (false, s, write_at ram addr (take len (drop off buf)))

  -- `ohci_copy_td` towards the device. Whether the second part fails is not looked at.
  unfoldable pub copy_td_to_device : Ohci D → List ℕ → Td → List ℕ → ℕ → Bool × Ohci D × List ℕ
  copy_td_to_device s ram td buf len =
      let n = first_part td len in
      let (bad, s1, buf1) = physical_read s ram td.cbp n buf 0 in
      let (_, s2, buf2) = physical_read s1 ram (page td.be) (len - n) buf1 n in
      if bad then (true, s1, buf1) else if n == len then (false, s1, buf1) else (false, s2, buf2)

  -- `ohci_copy_td` from the device.
  unfoldable pub copy_td_from_device : Ohci D → List ℕ → Td → List ℕ → ℕ → Bool × Ohci D × List ℕ
  copy_td_from_device s ram td buf len =
      let n = first_part td len in
      let (bad, s1, ram1) = physical_write s ram td.cbp n buf 0 in
      let (_, s2, ram2) = physical_write s1 ram1 (page td.be) (len - n) buf n in
      if bad then (true, s1, ram1) else if n == len then (false, s1, ram1) else (false, s2, ram2)

-- The buffer's start after `ret` bytes.
unfoldable pub move_cbp : Td → ℕ → ℕ → ℕ
move_cbp td ret len =
    if ret == len
    then 0
    else if ltb 0xfff (td.cbp % 0x1000 + ret)
    then page td.be + (td.cbp + ret) % 0x1000
    else td.cbp + ret

-- The flags after a transmission that succeeded.
unfoldable pub td_done : ℕ → ℕ
td_done x = set_ec (set_cc (bit_xor (bit_or x (2 ^ td_t1)) (2 ^ td_t0)) cc_noerror) 0

-- The flags after one that did not; `none` where the descriptor is left for later.
unfoldable pub td_failed : ℕ → Outcome → Option ℕ
td_failed x (bytes n) = some (set_cc x cc_dataunderrun)
td_failed x (failed st) = elim st [
  | ioerror ↦ some (set_cc x cc_devicenotresponding)
  | nodev ↦ some (set_cc x cc_devicenotresponding)
  | nak ↦ none
  | stall ↦ some (set_cc x cc_stall)
  | babble ↦ some (set_cc x cc_dataoverrun)
  | _ ↦ some (set_ec (set_cc x cc_undexpetedpid) 3)
]

-- What `ohci_service_td` leaves before it puts the descriptor back.
pub record Serviced (D : Type 0) : Type 0 where
  pub ohci : Ohci D
  pub ed : Ed
  pub td : Td

unfoldable pub is_failed : Outcome → Bool
is_failed (bytes n) = false
is_failed (failed st) = true

-- `ret == pktlen || (dir == OHCI_TD_DIR_IN && ret >= 0 && flag_r)`, with `ret` as it stands there.
unfoldable pub succeeds : ℕ → Outcome → ℕ → Bool → Option ℕ
succeeds dir (bytes n) pktlen flag_r =
    if (n == pktlen) || ((dir == dir_in) && flag_r) then some n else none
succeeds dir (failed st) pktlen flag_r = none

module _ {D : Type 0} where
  -- "Retire this TD"
  unfoldable pub retire : Serviced D → ℕ → Serviced D
  retire r addr = record {
    ohci = record (r.ohci) { done = addr; done_count = min (td_di r.td.flags) r.ohci.done_count };
    ed = record (r.ed) { head = r.ed.head % 16 + r.td.next / 16 * 16 };
    td = record (r.td) { next = r.ohci.done };
  }

  -- The success branch, with `ret` bytes.
  unfoldable pub succeed : Serviced D → ℕ → ℕ → ℕ → ℕ → Serviced D
  succeed r addr dir ret len =
      let td' = record (r.td) { cbp = move_cbp r.td ret len; flags = td_done r.td.flags } in
      let h = without_bit r.ed.head ed_c in
      let h' = if bit td'.flags td_t0 then with_bit h ed_c else h in
      if not (dir == dir_in) && not (ret == len)
      then record r { td = td' }
      else retire (record r { td = td'; ed = record (r.ed) { head = h' } }) addr

  -- The other branch.
  unfoldable pub fail : Serviced D → ℕ → Outcome → Option (Serviced D)
  fail r addr ret = elim (td_failed r.td.flags ret) [
    | none ↦ none
    | some flags ↦ some (
        retire
          (record r {
            td = record (r.td) { flags = flags };
            ed = record (r.ed) { head = with_bit r.ed.head ed_h };
            ohci = record (r.ohci) { done_count = if is_failed ret then 0 else r.ohci.done_count };
          })
          addr)
  ]

  -- The writeback of `ohci_service_td`: `ret` is the device's answer, which for an OUT transfer that
  -- succeeded stands for `pktlen` bytes. `none` is a descriptor that is not put back.
  unfoldable pub writeback : Serviced D → ℕ → ℕ → Outcome → ℕ → ℕ → Option (Serviced D)
  unfolding succeeds
  writeback r addr dir ret pktlen len =
      let ret' : Outcome = elim ret [
        | bytes n ↦ if dir == dir_in then bytes n else bytes pktlen
        | failed st ↦ failed st
      ] in
      elim (succeeds dir ret' pktlen (bit r.td.flags 18)) [
        | some n ↦ some (succeed r addr dir n len)
        | none ↦ fail r addr ret'
      ]
