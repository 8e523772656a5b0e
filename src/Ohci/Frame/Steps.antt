-- ===== src/Ohci/Frame/Steps.antt =====
-- One step of an isochronous endpoint: it ends the work, or marks a descriptor as overrun.
use usbqemu_wheel.Common.{
  ℕ, ◌+◌, ◌-◌, ◌*◌, ◌≡◌, ◌≢◌, refl, sym, ap, ◌∙◌, ◌⊎◌, inl, inr, Bool, true, false, Option, some,
  List, [], ◌∷◌, ◌%◌, ◌==◌, leb, field, write_at, length, length-write_at, arith, option_any,
  Bool-cases, if_when, if_unless, if_both, AreBytes, append-AreBytes, write_at-AreBytes,
}
use usbqemu_wheel.Usb.Packet.{
  Packet, Token, is_inflight, packet_setup, packet_addbuf, success, setup,
}
use usbqemu_wheel.Usb.Device.{Class}
use usbqemu_wheel.Ohci.State.{Ohci, ohci_bus_stop}
use usbqemu_wheel.Ohci.Reset.{ohci_soft_reset}
use usbqemu_wheel.Ohci.Td.{
  Ed, memory_end, set_cc, cc_dataoverrun, first_part, page, physical_read, copy_td_to_device,
}
use usbqemu_wheel.Ohci.Dma.{Host, IsoTd, Access, ohci_put_iso_td}
use usbqemu_wheel.Ohci.Dma.Memory.{flat, flat-AreBytes, iso_bytes, IsRead, put_iso_td-bytes}
use usbqemu_wheel.Ohci.Service.{Step, dptr, outcome}
use usbqemu_wheel.Ohci.Iso.{
  expire, retire_iso, put_back, conclude_iso, iso_received, iso_len, as_td,
}
use usbqemu_wheel.Ohci.Frame.Found.{Served}
use usbqemu_wheel.Ohci.Frame.Expiry.{fresh, slots, put-fresh}

-- No packet is in flight, and the memory is one of bytes.
pub record IsReady {D : Type 0} (h : Host D) : Type 0 where
  pub quiet : is_inflight h.ohci.usb_packet ≡ false
  pub bytes : AreBytes h.ram
  pub full : length h.ram ≡ memory_end

-- A step that ends the work, or marks one more descriptor.
unfoldable pub StepOk : {D : Type 0} → Host D → Ed → Step D → Type 0
StepOk h ed t =
    (t.stop ≡ true)
    ⊎ (IsReady t.host × (fresh t.host.ram slots + 1 ≡ fresh h.ram slots) × (t.ed.flags ≡ ed.flags))

unfoldable pub Goes : {D : Type 0} → Host D → Ed → Option (Step D) → Type 0
Goes h ed o = (t : Step _) × (o ≡ some t) × StepOk h ed t

pub kept : {f g : ℕ} → f ≡ g → Served g → Served f
kept e v = rw e v

distinct : true ≢ false
distinct = λ e. cc

module _ {D : Type 0} where
  pub same_step : {h h' : Host D} (ed : Ed) (t : Step D) → h' ≡ h → StepOk h' ed t → StepOk h ed t
  unfolding StepOk
  same_step ed t e (inl s) = inl s
  same_step ed t e (inr (r, f, g)) = inr (r, f ∙ ap (λ (x : Host D). fresh x.ram slots) e, g)

module _ {D : Type 0} (k : Class D) where
  pub expire-StepOk :
      (h : Host D) (ed : Ed) (a : ℕ) (td : IsoTd)
      → IsRead h (a * 16) h td
      → IsReady h
      → StepOk h ed (expire k h ed td (a * 16))
  unfolding expire retire_iso StepOk
  expire-StepOk h ed a td v r = elim (Bool-cases (field td.flags 28 4 == cc_dataoverrun)) [
    | inl e ↦ if_when (StepOk h ed) _ e (inl refl)
    | inr e ↦ if_unless (StepOk h ed) _ e (elim (Bool-cases w.result) [
      | inr f ↦ if_unless (StepOk h ed) _ f (inl refl)
      | inl f ↦
          if_when (StepOk h ed) _ f (written f (put_iso_td-bytes k h1 (a * 16) td1) (differs e))
    ])
  ]
    where
      td1 : IsoTd
      td1 = record td { flags = set_cc td.flags cc_dataoverrun; next = h.ohci.done }

      h1 : Host D
      h1 = (retire_iso h ed (record td { flags = set_cc td.flags cc_dataoverrun }) (a * 16)).0

      w : Access D Bool
      w = ohci_put_iso_td k h1 (a * 16) td1

      differs :
          (field td.flags 28 4 == cc_dataoverrun) ≡ false → field td.flags 28 4 ≢ cc_dataoverrun
      differs e = ground (arith, e)

      after : Host D
      after = record h1 { ram = write_at h.ram (a * 16) (iso_bytes td1) }

      written :
          w.result ≡ true
          → (w.result ≡ false) ⊎ (w.host ≡ after)
          → field td.flags 28 4 ≢ cc_dataoverrun
          → StepOk h ed (record {
            host = w.host;
            ed = record ed { head = ed.head % 16 + dptr td.next };
            stop = false;
          })
      written f (inl g) n = absurd (distinct (sym f ∙ g))
      written f (inr g) n = inr (
        rw g (record {
          quiet = r.quiet;
          bytes = write_at-AreBytes h.ram (a * 16) (iso_bytes td1) r.bytes (
              append-AreBytes (flat 4 (td1.flags ∷ td1.bp ∷ td1.next ∷ td1.be ∷ []))
                (flat 2 td1.offset) (flat-AreBytes 4 (td1.flags ∷ td1.bp ∷ td1.next ∷ td1.be ∷ []))
                (flat-AreBytes 2 td1.offset));
          full = length-write_at (iso_bytes td1) h.ram (a * 16) ∙ r.full;
        }),
        ap (λ (x : Host D). fresh x.ram slots + 1) g
            ∙ put-fresh h a td td1 v r.bytes r.full refl refl n,
        refl,
      )

  put_back-stops :
      (h : Host D) (ed : Ed) (td : IsoTd) (addr : ℕ) (last : Bool)
      → (put_back k h ed td addr last).stop ≡ true
  unfolding put_back
  put_back-stops h ed td addr last = if_both (λ (t : Step D). t.stop ≡ true) _ refl refl

  pub conclude_iso-stops :
      (h : Host D) (ed : Ed) (td : IsoTd) (addr dir n count first last : ℕ)
      → (conclude_iso k h ed td addr dir n count first last).stop ≡ true
  unfolding conclude_iso
  conclude_iso-stops h ed td addr dir n count first last =
      option_any (λ (t : Step D). t.stop ≡ true)
        (iso_received dir (outcome h.ohci.usb_packet) (iso_len first last)) _ _
        (put_back-stops h ed _ addr (n == count))
        (λ m.
          if_both (λ (t : Step D). t.stop ≡ true) _ refl (put_back-stops _ ed _ addr (n == count)))

  read-quiet :
      (s : Ohci D) (ram : List ℕ) (addr len : ℕ) (buf : List ℕ) (off : ℕ)
      → (physical_read k s ram addr len buf off).1.usb_packet ≡ s.usb_packet
  unfolding physical_read ohci_soft_reset ohci_bus_stop
  read-quiet s ram addr len buf off =
      if_both (λ (r : Bool × Ohci D × List ℕ). r.1.usb_packet ≡ s.usb_packet)
        (leb memory_end (addr + len)) refl refl

  pub copy_to-quiet :
      (s : Ohci D) (ram : List ℕ) (first last : ℕ) (buf : List ℕ) (len : ℕ)
      → (copy_td_to_device k s ram (as_td first last) buf len).1.usb_packet ≡ s.usb_packet
  unfolding copy_td_to_device
  copy_to-quiet s ram first last buf len =
      let n = first_part (as_td first last) len in
      let r = physical_read k s ram first n buf 0 in
      let f = read-quiet s ram first n buf 0 in
      let g = read-quiet r.1 ram (page last) (len - n) r.2 n in
      if_both (λ (t : Bool × Ohci D × List ℕ). t.1.usb_packet ≡ s.usb_packet) r.0 f
        (if_both (λ (t : Bool × Ohci D × List ℕ). t.1.usb_packet ≡ s.usb_packet) (n == len) f
          (g ∙ f))

pub packet_setup-some :
    (p : Packet) (pid : Token) (ep_nr stream id : ℕ) (s r : Bool)
    → is_inflight p ≡ false
    → (q : Packet) × (packet_setup p pid ep_nr stream id s r ≡ some q) × (q.state ≡ setup)
unfolding packet_setup
packet_setup-some p pid ep_nr stream id s r quiet = (
  record {
    pid = pid;
    id = id;
    ep_nr = ep_nr;
    stream = stream;
    iov = [];
    parameter = 0;
    short_not_ok = s;
    int_req = r;
    status = success;
    actual_length = 0;
    state = setup;
  },
  rw (packet_setup, quiet) refl,
  refl,
)

pub addbuf-state : (p : Packet) (l : List ℕ) → (packet_addbuf p l).state ≡ p.state
unfolding packet_addbuf
addbuf-state p l = refl
