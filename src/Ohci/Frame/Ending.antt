-- ===== src/Ohci/Frame/Ending.antt =====
-- The loop of `ohci_service_ed_list` over the descriptors of an isochronous endpoint ends.
use usbqemu_wheel.Common.{
  ℕ, zero, suc, ◌*◌, ◌/◌, ◌<◌, ◌≡◌, ◌≢◌, refl, ap, ◌∙◌, ◌⊎◌, inl, inr, Bool, true, false, not, ◌&&◌,
  Option, some, List, ◌==◌, if◌then◌else◌, field, bit, take, write_at, length, arith, option_both,
  option_any, Bool-cases, if_when, if_unless, if_both, AreBytes,
}
use usbqemu_wheel.Usb.Packet.{Packet, Token, is_inflight, packet_addbuf, setup, async}
use usbqemu_wheel.Usb.Control.{◌>>=◌}
use usbqemu_wheel.Usb.Device.{Device, Class, default_state}
use usbqemu_wheel.Ohci.State.{Ohci, port_at, set_port}
use usbqemu_wheel.Ohci.Td.{Ed, memory_end, dir_in, direction_pid, td_di, copy_td_to_device}
use usbqemu_wheel.Ohci.Dma.{Host, IsoTd, Access, ohci_read_iso_td}
use usbqemu_wheel.Ohci.Dma.Memory.{IsRead, ohci_read_iso_td-IsRead}
use usbqemu_wheel.Ohci.Service.{
  Step, Handled, dptr, die, stopped, send, deliver_packet, has_endpoint, ohci_find_device,
}
use usbqemu_wheel.Usb.Control.Steps.{status_both}
use usbqemu_wheel.Ohci.Iso.{
  expire, conclude_iso, submit_iso, transact_iso, ohci_service_iso_td, iso_len, as_td,
}
use usbqemu_wheel.Ohci.Frame.{service_one, service_tds, ed_f}
use usbqemu_wheel.Ohci.Frame.Found.{
  IsFound, Served, find_device-IsFound, direction_pid-has_endpoint, nibble,
}
use usbqemu_wheel.Ohci.Frame.Expiry.{fresh, fresh_le, slots}
use usbqemu_wheel.Ohci.Frame.Steps.{
  IsReady, StepOk, Goes, kept, same_step, expire-StepOk, conclude_iso-stops, copy_to-quiet,
  packet_setup-some, addbuf-state,
}

module _ {D : Type 0} (k : Class D) (handle : Device D → Packet → Option (Handled D))
    (total : (d : Device D) (p : Packet)
      → d.state ≡ default_state
      → p.state ≡ setup
      → (t : Handled D) × (handle d p ≡ some t)) where
  send-some :
      (h : Host D) (i : ℕ) (d : Device D) (pid : Token) (ep_nr id : ℕ) (s r : Bool) (n : ℕ)
      → is_inflight h.ohci.usb_packet ≡ false
      → d.state ≡ default_state
      → has_endpoint pid ep_nr ≡ true
      → (g : Host D) × (send k handle h i d pid ep_nr id s r n ≡ some g)
  unfolding send deliver_packet
  send-some h i d pid ep_nr id s r n quiet st has =
      let (p, e, q) = packet_setup-some h.ohci.usb_packet pid ep_nr 0 id s r quiet in
      let (t, f) = total d (packet_addbuf p (take n h.usb_buf)) st (addbuf-state p _ ∙ q) in
      (
        record h {
          ohci = record (set_port h.ohci i (record (port_at h.ohci i) { dev = some t.device })) {
            usb_packet = t.packet;
            packet_port = i;
          };
          usb_buf = write_at h.usb_buf 0 t.packet.iov;
        },
        rw (has, e, f) refl,
      )

  submit_iso-Goes :
      (h : Host D) (ed : Ed) (td : IsoTd) (addr dir : ℕ) (pid : Token) (n count first last : ℕ)
      → is_inflight h.ohci.usb_packet ≡ false
      → has_endpoint pid (field ed.flags 7 4) ≡ true
      → Goes h ed (submit_iso k handle h ed td addr dir pid n count first last)
  unfolding submit_iso Goes StepOk
  submit_iso-Goes h ed td addr dir pid n count first last quiet has =
      option_both (Goes h ed) IsFound (ohci_find_device h.ohci (field ed.flags 0 7)) _ _
        (find_device-IsFound h.ohci (field ed.flags 0 7)) (stopped h ed, refl, inl refl)
        (λ x found.
          let (g, e) =
            send-some h x.0 x.1 pid (field ed.flags 7 4) addr false
              ((n == count) && (td_di td.flags == 0)) (iso_len first last) quiet found has in
          (
            _,
            ap
                (λ (o : Option (Host D)). o >>= λ (h1 : Host D).
                  some (elim h1.ohci.usb_packet.status [
                    | async ↦ stopped h1 ed
                    | _ ↦ conclude_iso k h1 ed td addr dir n count first last
                  ]))
                e,
            inl (
                status_both (λ (t : Step D). t.stop ≡ true) g.ohci.usb_packet.status (stopped g ed)
                  (conclude_iso k g ed td addr dir n count first last) refl
                  (conclude_iso-stops k g ed td addr dir n count first last)),
          ))

  transact_iso-Goes :
      (h : Host D) (ed : Ed) (td : IsoTd) (addr dir : ℕ) (pid : Token) (n count first last : ℕ)
      (completion : Bool)
      → is_inflight h.ohci.usb_packet ≡ false
      → has_endpoint pid (field ed.flags 7 4) ≡ true
      → Goes h ed (transact_iso k handle h ed td addr dir pid n count first last completion)
  unfolding transact_iso Goes StepOk
  transact_iso-Goes h ed td addr dir pid n count first last completion quiet has =
      if_both (Goes h ed) (not (dir == dir_in) && r.0) (stopped (die h1) ed, refl, inl refl)
        (if_both (Goes h ed) completion
          (
            conclude_iso k h2 ed td addr dir n count first last,
            refl,
            inl (conclude_iso-stops k h2 ed td addr dir n count first last),
          )
          (submitted (submit_iso-Goes h2 ed td addr dir pid n count first last still has)))
    where
      r : Bool × Ohci D × List ℕ
      r = copy_td_to_device k h.ohci h.ram (as_td first last) h.usb_buf (iso_len first last)

      h1 : Host D
      h1 = record h { ohci = r.1; usb_buf = r.2 }

      h2 : Host D
      h2 = if dir == dir_in then h else h1

      still : is_inflight h2.ohci.usb_packet ≡ false
      still =
          if_both (λ (g : Host D). is_inflight g.ohci.usb_packet ≡ false) (dir == dir_in) quiet
            (ap is_inflight (copy_to-quiet k h.ohci h.ram first last h.usb_buf (iso_len first last))
              ∙ quiet)

      same_ram : h2.ram ≡ h.ram
      same_ram = if_both (λ (g : Host D). g.ram ≡ h.ram) (dir == dir_in) refl refl

      submitted :
          Goes h2 ed (submit_iso k handle h2 ed td addr dir pid n count first last)
          → Goes h ed (submit_iso k handle h2 ed td addr dir pid n count first last)
      submitted (t, e, inl s) = (t, e, inl s)
      submitted (t, e, inr (a, f, g)) = (t, e, inr (a, f ∙ ap (λ l. fresh l slots) same_ram, g))

  -- The work on one descriptor gives a step.
  service_iso_td-Goes :
      (h : Host D) (ed : Ed) (completion : Bool)
      → Served ed.flags
      → IsReady h
      → Goes h ed (ohci_service_iso_td k handle h ed completion)
  unfolding ohci_service_iso_td Goes StepOk
  service_iso_td-Goes h ed completion w0 v =
      option_both (Goes h ed) (λ td. IsRead h (ed.head / 16 * 16) r.host td) r.result
        (some (stopped (die r.host) ed)) _ (ohci_read_iso_td-IsRead k h (ed.head / 16 * 16))
        (stopped (die r.host) ed, refl, inl refl)
        (λ td w.
          if_both (Goes h ed) _ (stopped r.host ed, refl, inl refl)
            (if_both (Goes h ed) _
              (
                expire k r.host ed td (ed.head / 16 * 16),
                refl,
                same_step ed (expire k r.host ed td (ed.head / 16 * 16)) w.same
                    (expire-StepOk k r.host ed (ed.head / 16) td (moved td w) (ready w.same)),
              )
              (option_both (Goes h ed) (λ pid. has_endpoint pid (field ed.flags 7 4) ≡ true)
                (direction_pid (field ed.flags 11 2)) _ _
                (direction_pid-has_endpoint (field ed.flags 11 2) (field ed.flags 7 4) w0
                  (nibble ed.flags))
                (stopped r.host ed, refl, inl refl)
                (λ pid has.
                  option_any (Goes h ed) _ _ _ (stopped r.host ed, refl, inl refl)
                    (λ x. same_goes w.same (
                      transact_iso-Goes r.host ed td (ed.head / 16 * 16) (field ed.flags 11 2) pid _
                        _ x.0 x.1 completion (ready w.same).quiet has))))))
    where
      r : Access D (Option IsoTd)
      r = ohci_read_iso_td k h (ed.head / 16 * 16)

      moved :
          (td : IsoTd)
          → IsRead h (ed.head / 16 * 16) r.host td
          → IsRead r.host (ed.head / 16 * 16) r.host td
      moved td w = rw w.same (record {
        same = refl;
        inside = w.inside;
        eight = w.eight;
        flags_are = w.flags_are;
        second_is = w.second_is;
      })

      ready : r.host ≡ h → IsReady r.host
      ready e = rw e v

      same_goes : {o : Option (Step D)} → r.host ≡ h → Goes r.host ed o → Goes h ed o
      same_goes e (t, f, g) = (t, f, same_step ed t e g)

  service_one-Goes :
      (h : Host D) (ed : Ed) (completion : Bool)
      → bit ed.flags ed_f ≡ true
      → Served ed.flags
      → IsReady h
      → Goes h ed (service_one k handle h ed completion)
  unfolding service_one
  service_one-Goes h ed completion f w v =
      if_unless (Goes h ed) _ (ap not f) (service_iso_td-Goes h ed completion w v)

  -- The loop
  pub service_tds-ends :
      (fuel : ℕ) (h : Host D) (ed : Ed) (completion : Bool)
      → bit ed.flags ed_f ≡ true
      → Served ed.flags
      → IsReady h
      → fresh h.ram slots < fuel
      → (r : Host D × Ed) × (service_tds k handle fuel h ed completion ≡ some r)
  unfolding service_tds Goes StepOk
  service_tds-ends zero h ed completion f served v l = absurd (omega arith)
  service_tds-ends (suc fuel) h ed completion f served v l =
      elim (Bool-cases (dptr ed.head == ed.tail)) [
        | inl e ↦ ((h, ed), if_when (λ (o : Option (Host D × Ed)). o ≡ some (h, ed)) _ e refl)
        | inr e ↦
            let (t, g, ok) = service_one-Goes h ed completion f served v in
            let (r, q) =
              after t ok (λ w m. service_tds-ends fuel t.host t.ed completion w.1 w.2 w.0 m) in
            (
              r,
              if_unless (λ (o : Option (Host D × Ed)). o ≡ some r) _ e
                  (ap
                      (λ (o : Option (Step D)). o >>= λ (u : Step D).
                        if u.stop
                        then some (u.host, u.ed)
                        else service_tds k handle fuel u.host u.ed completion)
                      g
                    ∙ q),
            )
      ]
    where
      Ended : Step D → Type 0
      Ended t =
          (r : Host D × Ed) × ((if t.stop
              then some (t.host, t.ed)
              else service_tds k handle fuel t.host t.ed completion)
            ≡ some r)

      after :
          (t : Step D)
          → StepOk h ed t
          → (IsReady t.host × (bit t.ed.flags ed_f ≡ true) × Served t.ed.flags
              → fresh t.host.ram slots < fuel
              → (r : Host D × Ed) × (service_tds k handle fuel t.host t.ed completion ≡ some r))
          → Ended t
      after t (inl s) more =
          ((t.host, t.ed), if_when (λ (o : Option (Host D × Ed)). o ≡ some (t.host, t.ed)) _ s refl)
      after t (inr (w, less, same)) more =
          let (r, q) =
            more (w, ap (λ x. bit x ed_f) same ∙ f, kept same served) (omega (arith, less)) in
          elim (Bool-cases t.stop) [
            | inl s ↦ (
              (t.host, t.ed),
              if_when (λ (o : Option (Host D × Ed)). o ≡ some (t.host, t.ed)) _ s refl,
            )
            | inr s ↦ (r, if_unless (λ (o : Option (Host D × Ed)). o ≡ some r) _ s q)
          ]

  -- The loop over the descriptors of an isochronous endpoint ends, whatever the descriptors
  -- in memory are and however they are linked: with devices whose usb_handle_packet returns
  -- for a device in the state DEFAULT and a packet in the state SETUP, an endpoint descriptor
  -- that does not have the direction SETUP with an endpoint other than 0, no packet in flight
  -- and a memory of bytes of the full size, fuel for more than 131,072 descriptors is enough
  -- for a result.
  pub iso_endpoint-ends :
      (h : Host D) (ed : Ed) (completion : Bool) (fuel : ℕ)
      → bit ed.flags ed_f ≡ true
      → (field ed.flags 11 2 ≢ 0) ⊎ (field ed.flags 7 4 ≡ 0)
      → is_inflight h.ohci.usb_packet ≡ false
      → AreBytes h.ram
      → length h.ram ≡ memory_end
      → slots < fuel
      → (r : Host D × Ed) × (service_tds k handle fuel h ed completion ≡ some r)
  iso_endpoint-ends h ed completion fuel f served quiet bytes full l =
      service_tds-ends fuel h ed completion f served
        (record { quiet = quiet; bytes = bytes; full = full }) (omega (arith, fresh_le h.ram))
