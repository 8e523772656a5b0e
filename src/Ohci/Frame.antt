-- ===== src/Ohci/Frame.antt =====
-- The endpoint lists and the end of a frame: `ohci_service_ed_list` to `ohci_frame_boundary`. The loop
-- over the descriptors of one endpoint has no bound in the source, so it runs on fuel: `none` is fuel
-- that is spent, or an assertion that fails in the core. `usb_device_ep_stopped` calls a callback that no
-- class of the program sets.
pub mod Delivery
mod Found
mod Expiry
mod Steps
mod Ending
mod Tests
use usbqemu_wheel.Common.{
  ℕ, zero, suc, ◌+◌, ◌-◌, ◌*◌, ◌%◌, ◌^◌, Bool, true, false, not, ◌&&◌, ◌||◌, Option, none, some,
  List, ◌++◌, leb, ◌==◌, if◌then◌else◌, bit, bit_or, bit_and, take, drop, write_at, le_bytes,
  le_value,
}
use usbqemu_wheel.Usb.Packet.{Packet}
use usbqemu_wheel.Usb.Device.{Device, Class}
use usbqemu_wheel.Usb.Control.{◌>>=◌}
use usbqemu_wheel.Ohci.State.{Ohci, intr_wd, intr_ue, without_bit, ohci_sof, ohci_set_interrupt}
use usbqemu_wheel.Ohci.Ports.{cancel_packet}
use usbqemu_wheel.Ohci.Td.{Ed, physical_read, physical_write}
use usbqemu_wheel.Ohci.Dma.{Host, Access, ohci_read_ed, ohci_put_ed}
use usbqemu_wheel.Ohci.Service.{Step, Handled, dptr, die, ohci_service_td}
use usbqemu_wheel.Ohci.Iso.{ohci_service_iso_td}

-- ED_LINK_LIMIT, and the bits of an endpoint's flags, of HcControl and of HcCommandStatus.
abbrev pub ed_link_limit : ℕ
ed_link_limit = 32

abbrev pub ed_k : ℕ
ed_k = 14

abbrev pub ed_f : ℕ
ed_f = 15

abbrev pub ctl_ple : ℕ
ctl_ple = 2

abbrev pub ctl_cle : ℕ
ctl_cle = 4

abbrev pub ctl_ble : ℕ
ctl_ble = 5

abbrev pub status_clf : ℕ
status_clf = 1

abbrev pub status_blf : ℕ
status_blf = 2

-- HCCA_WRITEBACK_OFFSET and `sizeof(hcca)`
abbrev pub hcca_writeback : ℕ
hcca_writeback = 128

abbrev pub hcca_size : ℕ
hcca_size = 136

-- What a list leaves, and whether it had work.
pub record Listed (D : Type 0) : Type 0 where
  pub host : Host D
  pub active : Bool

-- The end of a frame: the new state, or a call of `abort`.
pub data Boundary (D : Type 0) : Type 0 where
  passed : Host D → Boundary D
  aborted : Boundary D

module _ {D : Type 0} where
  -- The done queue is handed over in this frame.
  unfoldable pub is_due : Ohci D → Bool
  is_due s = s.done_count == 0 && not (bit s.intr_status intr_wd)

  unfoldable pub queue_out : Ohci D → Ohci D
  unfolding is_due
  queue_out s =
      if is_due s
      then ohci_set_interrupt (record s { done = 0; done_count = 7 }) (2 ^ intr_wd)
      else s

  unfoldable pub count_down : Ohci D → Ohci D
  count_down s =
      if not (s.done_count == 7) && not (s.done_count == 0)
      then record s { done_count = s.done_count - 1 }
      else s

  -- The head of the done queue, with its lowest bit for another interrupt.
  abbrev pub done_head : Ohci D → ℕ
  done_head s = if not (bit_and s.intr s.intr_status == 0) then bit_or s.done 1 else s.done

  -- The communications area, with the frame number and the done queue.
  unfoldable pub area : Ohci D → List ℕ → List ℕ
  unfolding is_due
  area s hcca =
      let hcca1 = write_at hcca hcca_writeback (le_bytes 2 s.frame_number) in
      if is_due s then write_at hcca1 (hcca_writeback + 4) (le_bytes 4 (done_head s)) else hcca1

module _ {D : Type 0} (k : Class D) where
  -- A packet of an endpoint that has been paused.
  unfoldable pub cancel_paused : Host D → ℕ → Option (Host D)
  cancel_paused h addr =
      let canceled = cancel_packet k h.ohci >>= λ (s : Ohci D).
      some (record h { ohci = record s { async_td = 0 } }) in
      if not (h.ohci.async_td == 0) && addr == h.ohci.async_td then canceled else some h

  -- The part of `ohci_frame_boundary` behind the lists, with the copy of the communications area.
  unfoldable pub end_frame : Host D → List ℕ → Boundary D
  unfolding is_due count_down queue_out area
  end_frame h hcca =
      let s = record (h.ohci) {
        frt = h.ohci.fit;
        frame_number = (h.ohci.frame_number + 1) % 2 ^ 16;
      } in
      let t = ohci_sof (count_down (queue_out s)) in
      let w = physical_write k t h.ram (t.hcca + hcca_writeback) 8 (area s hcca) hcca_writeback in
      if is_due s && s.done == 0 then aborted else passed (record h { ohci = w.1; ram = w.2 })

module _ {D : Type 0} (k : Class D) (handle : Device D → Packet → Option (Handled D)) where
  unfoldable pub service_one : Host D → Ed → Bool → Option (Step D)
  unfolding ohci_service_td ohci_service_iso_td
  service_one h ed completion =
      if not (bit ed.flags ed_f)
      then ohci_service_td k handle h ed
      else ohci_service_iso_td k handle h ed completion

  -- The descriptors of an endpoint.
  unfoldable pub service_tds : ℕ → Host D → Ed → Bool → Option (Host D × Ed)
  unfolding service_one
  service_tds zero h ed completion = if dptr ed.head == ed.tail then some (h, ed) else none
  service_tds (suc fuel) h ed completion =
      let more = service_one h ed completion >>= λ (t : Step D).
      if t.stop then some (t.host, t.ed) else service_tds fuel t.host t.ed completion in
      if dptr ed.head == ed.tail then some (h, ed) else more

  -- The endpoints of a list from `cur` on; `n` more links are followed.
  unfoldable pub service_eds : ℕ → ℕ → Host D → ℕ → Bool → Bool → Option (Listed D)
  unfolding cancel_paused service_tds ohci_read_ed ohci_put_ed
  service_eds fuel zero h cur completion active = some (record { host = h; active = active })
  service_eds fuel (suc n) h cur completion active =
      let r = ohci_read_ed k h cur in
      let body : Option (Listed D) = elim r.result [
        | none ↦ some (record { host = die r.host; active = false })
        | some ed ↦
            let busy = not (dptr ed.head == ed.tail) in
            let run = service_tds fuel r.host ed completion >>= λ (t : Host D × Ed).
            let w = ohci_put_ed k t.0 cur t.1 in
            if w.result
            then service_eds fuel n w.host (dptr ed.next) completion (active || busy)
            else some (record { host = die w.host; active = false }) in
            let skip = cancel_paused k r.host (dptr ed.head) >>= λ (g : Host D).
            service_eds fuel n g (dptr ed.next) completion active in
            if bit ed.head 0 || bit ed.flags ed_k then skip else run
      ] in
      if cur == 0 then some (record { host = h; active = active }) else body

  -- `ohci_service_ed_list`
  unfoldable pub ohci_service_ed_list : ℕ → Host D → ℕ → Bool → Option (Listed D)
  unfolding service_eds
  ohci_service_ed_list fuel h head completion =
      service_eds fuel ed_link_limit h head completion false

  -- `ohci_process_lists`
  unfoldable pub ohci_process_lists : ℕ → Host D → Bool → Option (Host D)
  unfolding ohci_service_ed_list
  ohci_process_lists fuel h completion =
      let control = ohci_service_ed_list fuel h h.ohci.ctrl_head completion >>= λ (r : Listed D).
      some (
        if r.active then r.host else record (r.host) {
          ohci = record (r.host.ohci) {
            ctrl_cur = 0;
            status = without_bit r.host.ohci.status status_clf;
          };
        }) in
      let after_control : Option (Host D) =
        if bit h.ohci.ctl ctl_cle && bit h.ohci.status status_clf then control else some h in
      after_control >>= λ (g : Host D).
      let bulk = ohci_service_ed_list fuel g g.ohci.bulk_head completion >>= λ (r : Listed D).
      some (
        if r.active then r.host else record (r.host) {
          ohci = record (r.host.ohci) {
            bulk_cur = 0;
            status = without_bit r.host.ohci.status status_blf;
          };
        }) in
      if bit g.ohci.ctl ctl_ble && bit g.ohci.status status_blf then bulk else some g

  -- `ohci_async_complete_packet` of the controller's packet, which the device left as `p`.
  unfoldable pub ohci_async_complete_packet : ℕ → Host D → Packet → Option (Host D)
  unfolding ohci_process_lists
  ohci_async_complete_packet fuel h p =
      ohci_process_lists fuel
        (record h {
          ohci = record (h.ohci) { usb_packet = p; async_complete = true };
          usb_buf = write_at h.usb_buf 0 p.iov;
        })
        true

  -- `ohci_frame_boundary`. `stack` is what the local variable `hcca` holds before it is read.
  unfoldable pub ohci_frame_boundary : ℕ → Host D → List ℕ → Option (Boundary D)
  unfolding ohci_service_ed_list ohci_process_lists end_frame
  ohci_frame_boundary fuel h stack =
      let r = physical_read k h.ohci h.ram h.ohci.hcca hcca_size stack 0 in
      let h1 : Host D = record h { ohci = r.1 } in
      let first = le_value (take 4 (drop (h1.ohci.frame_number % 32 * 4) r.2)) in
      let listed = ohci_service_ed_list fuel h1 first false >>= λ (t : Listed D). some t.host in
      let periodic : Option (Host D) = if bit h1.ohci.ctl ctl_ple then listed else some h1 in
      periodic >>= λ (h2 : Host D).
      let off =
        (bit h2.ohci.old_ctl ctl_ble && not (bit h2.ohci.ctl ctl_ble))
        || (bit h2.ohci.old_ctl ctl_cle && not (bit h2.ohci.ctl ctl_cle)) in
      let canceled = cancel_packet k h2.ohci >>= λ (s : Ohci D).
      some (record h2 { ohci = record s { async_td = 0 } }) in
      let stopped_lists : Option (Host D) =
        if off && not (h2.ohci.async_td == 0) then canceled else some h2 in
      stopped_lists >>= λ (h3 : Host D).
      ohci_process_lists fuel (record h3 { ohci = record (h3.ohci) { old_ctl = h3.ohci.ctl } })
        false
      >>= λ (h4 : Host D).
          some (if bit h4.ohci.intr_status intr_ue then passed h4 else end_frame k h4 r.2)
