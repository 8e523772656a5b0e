-- ===== src/Ohci/Service/Invariant.antt =====
-- `ohci_service_td` keeps the done queue and the waiting packet sound.
use usbqemu_wheel.Common.{
  ℕ, Bool, true, false, not, ◌&&◌, Option, none, some, [], ◌∷◌, ◌==◌, if◌then◌else◌, field, bit,
  take, write_at, ◌≡◌, ◌≢◌, ◌⊎◌, inl, inr, refl, sym, ap, ◌∙◌, arith, Bool-cases, ==_iff, if_both,
  if_when, if_unless, OnSome, option_both, option_any,
}
use Prim.{tt}
use usbqemu_wheel.Usb.Packet.{Packet, Token, packet_setup, packet_addbuf}
use usbqemu_wheel.Usb.Device.{Device, Class}
use usbqemu_wheel.Usb.Control.{◌>>=◌}
use usbqemu_wheel.Usb.Control.Steps.{status_both}
use usbqemu_wheel.Ohci.State.{port_at, set_port}
use usbqemu_wheel.Ohci.Td.{
  Ed, Td, Outcome, bytes, failed, Serviced, succeeds, td_failed, td_len, td_pktlen, td_di,
  direction, direction_pid, retire, succeed, fail, writeback, copy_td_to_device,
  copy_td_from_device, dir_in,
}
use usbqemu_wheel.Ohci.Dma.{Host, put, ohci_read_td, ohci_put_td}
use usbqemu_wheel.Ohci.Service.{
  Step, Handled, dptr, die, stopped, outcome, has_endpoint, deliver_packet, send, gather, scatter,
  conclude, offer, respond, submit, service_at, transact, ohci_service_td, ohci_find_device,
}
use usbqemu_wheel.Ohci.Service.Sound.{
  IsSound, Follows, unchanged, chained, die-Follows, copy_to-Follows, copy_from-Follows,
  get-Follows, put-Follows,
}

-- A chain of two results.
pub chain_both :
    {A B : Type 0} (P : B → Type 0) (R : A → Type 0) (o : Option A) (f : A → Option B)
    → OnSome R o
    → ((a : A) → R a → OnSome P (f a))
    → OnSome P (o >>= f)
chain_both P R none f r q = tt
chain_both P R (some a) f r q = q a r

pub chain_any :
    {A B : Type 0} (P : B → Type 0) (o : Option A) (f : A → Option B)
    → ((a : A) → OnSome P (f a))
    → OnSome P (o >>= f)
chain_any P none f q = tt
chain_any P (some a) f q = q a

module _ {D : Type 0} where
  retire-IsSound :
      (r : Serviced D) (addr : ℕ) → addr ≢ 0 → IsSound r.ohci → IsSound (retire r addr).ohci
  unfolding retire
  retire-IsSound r addr h v = record { queued = inr h; waiting = v.waiting }

  succeed-IsSound :
      (r : Serviced D) (addr dir ret len : ℕ)
      → addr ≢ 0
      → IsSound r.ohci
      → IsSound (succeed r addr dir ret len).ohci
  unfolding succeed
  succeed-IsSound r addr dir ret len h v =
      if_both (λ (t : Serviced D). IsSound t.ohci) (not (dir == dir_in) && not (ret == len)) v
        (retire-IsSound _ addr h v)

  fail-IsSound :
      (r : Serviced D) (addr : ℕ) (ret : Outcome)
      → addr ≢ 0
      → IsSound r.ohci
      → OnSome (λ (t : Serviced D). IsSound t.ohci) (fail r addr ret)
  unfolding fail retire
  fail-IsSound r addr ret h v =
      option_any (OnSome (λ (t : Serviced D). IsSound t.ohci)) (td_failed r.td.flags ret) none _ tt
        (λ flags. record { queued = inr h; waiting = v.waiting })

  writeback-IsSound :
      (r : Serviced D) (addr dir : ℕ) (ret : Outcome) (pktlen len : ℕ)
      → addr ≢ 0
      → IsSound r.ohci
      → OnSome (λ (t : Serviced D). IsSound t.ohci) (writeback r addr dir ret pktlen len)
  unfolding writeback
  writeback-IsSound r addr dir ret pktlen len h v =
      option_any (OnSome (λ (t : Serviced D). IsSound t.ohci))
        (succeeds dir _ pktlen (bit r.td.flags 18)) _ _ (fail-IsSound r addr _ h v)
        (λ n. succeed-IsSound r addr dir n len h v)

module _ {D : Type 0} (k : Class D) where
  scatter-Follows :
      (handle : Device D → Packet → Option (Handled D)) (h : Host D) (td : Td) (dir : ℕ)
      (ret : Outcome)
      → IsSound h.ohci
      → Follows h.ohci (scatter k handle h td dir ret).ohci
  unfolding scatter
  scatter-Follows handle h td dir (bytes n) v =
      let r = copy_td_from_device k h.ohci h.ram td h.usb_buf n in
      let f = copy_from-Follows k h.ohci h.ram td h.usb_buf n v in
      if_both (λ (g : Host D). Follows h.ohci g.ohci) (dir == dir_in)
        (if_both (λ (g : Host D). Follows h.ohci g.ohci) r.0 (chained f (die-Follows r.1 f.sound))
          f)
        (unchanged h.ohci v)
  scatter-Follows handle h td dir (failed st) v = unchanged h.ohci v

  gather-Follows :
      (handle : Device D → Packet → Option (Handled D)) (h : Host D) (td : Td) (dir len pktlen : ℕ)
      → IsSound h.ohci
      → Follows h.ohci (gather k handle h td dir len pktlen).ohci
  unfolding gather
  gather-Follows handle h td dir len pktlen v =
      let r = copy_td_to_device k h.ohci h.ram td h.usb_buf pktlen in
      let f = copy_to-Follows k h.ohci h.ram td h.usb_buf pktlen v in
      if_both (λ (g : Host D). Follows h.ohci g.ohci) (not (len == 0) && not (dir == dir_in))
        (if_both (λ (g : Host D). Follows h.ohci g.ohci) r.0 (chained f (die-Follows r.1 f.sound))
          f)
        (unchanged h.ohci v)

module _ {D : Type 0} (k : Class D) (handle : Device D → Packet → Option (Handled D)) where
  conclude-IsSound :
      (h : Host D) (ed : Ed) (td : Td) (addr dir pktlen len : ℕ)
      → addr ≢ 0
      → IsSound h.ohci
      → IsSound (conclude k handle h ed td addr dir pktlen len).host.ohci
  unfolding conclude ohci_put_td
  conclude-IsSound h ed td addr dir pktlen len n v =
      let ret = outcome h.ohci.usb_packet in
      let f = scatter-Follows k handle h td dir ret v in
      let h1 = scatter k handle h td dir ret in
      option_both (λ (t : Step D). IsSound t.host.ohci) (λ (r : Serviced D). IsSound r.ohci)
        (writeback (record { ohci = h1.ohci; ed = ed; td = td }) addr dir ret pktlen len) _ _
        (writeback-IsSound (record { ohci = h1.ohci; ed = ed; td = td }) addr dir ret pktlen len n
          f.sound)
        f.sound
        (λ r w.
          let g =
            put-Follows k 4 (record h1 { ohci = r.ohci }) addr
              (r.td.flags ∷ r.td.cbp ∷ r.td.next ∷ r.td.be ∷ []) w in
          if_both (λ (t : Step D). IsSound t.host.ohci)
            (put k 4 (record h1 { ohci = r.ohci }) addr
              (r.td.flags ∷ r.td.cbp ∷ r.td.next ∷ r.td.be ∷ [])).result
            g.sound (die-Follows _ g.sound).sound)

  send-Follows :
      (h : Host D) (i : ℕ) (d : Device D) (pid : Token) (ep_nr id : ℕ) (s r : Bool) (n : ℕ)
      → IsSound h.ohci
      → OnSome (λ (g : Host D). Follows h.ohci g.ohci) (send k handle h i d pid ep_nr id s r n)
  unfolding send deliver_packet
  send-Follows h i d pid ep_nr id s r n v =
      if_both (λ (o : Option (Host D)). OnSome (λ (g : Host D). Follows h.ohci g.ohci) o)
        (has_endpoint pid ep_nr)
        (chain_any (λ (g : Host D). Follows h.ohci g.ohci)
          (packet_setup h.ohci.usb_packet pid ep_nr 0 id s r) _
          (λ p.
            chain_any (λ (g : Host D). Follows h.ohci g.ohci)
              (handle d (packet_addbuf p (take n h.usb_buf)))
              (λ (t : Handled D). some (record h {
                ohci =
                    record (set_port h.ohci i (record (port_at h.ohci i) { dev = some t.device })) {
                      usb_packet = t.packet;
                      packet_port = i;
                    };
                usb_buf = write_at h.usb_buf 0 t.packet.iov;
              }))
              (λ t. record {
                sound = record { queued = v.queued; waiting = v.waiting };
                same_td = refl;
                same_complete = refl;
              })))
        tt

  respond-IsSound :
      (h : Host D) (ed : Ed) (td : Td) (addr dir pktlen len : ℕ)
      → addr ≢ 0
      → IsSound h.ohci
      → IsSound (respond k handle h ed td addr dir pktlen len).host.ohci
  unfolding respond
  respond-IsSound h ed td addr dir pktlen len n v =
      status_both (λ (t : Step D). IsSound t.host.ohci) h.ohci.usb_packet.status _
        (conclude k handle h ed td addr dir pktlen len)
        (record { queued = v.queued; waiting = inr n })
        (conclude-IsSound h ed td addr dir pktlen len n v)

  offer-IsSound :
      (h : Host D) (ed : Ed) (td : Td) (addr dir : ℕ) (pid : Token) (pktlen len : ℕ)
      → addr ≢ h.ohci.async_td
      → IsSound h.ohci
      → OnSome
          (λ (t : Step D). IsSound t.host.ohci)
          (offer k handle h ed td addr dir pid pktlen len)
  unfolding offer
  offer-IsSound h ed td addr dir pid pktlen len n v = elim (Bool-cases (h.ohci.async_td == 0)) [
    | inr e ↦ rw e v
    | inl e ↦ rw (offer, e) (sent ((==_iff h.ohci.async_td 0).0 e))
  ]
    where
      sent :
          h.ohci.async_td ≡ 0
          → OnSome
              (λ (t : Step D). IsSound t.host.ohci)
              (elim (ohci_find_device h.ohci (field ed.flags 0 7)) [
                | none ↦ some (stopped h ed)
                | some (i, d) ↦
                    send k handle h i d pid
                      (field ed.flags 7 4)
                      addr
                      (not (bit td.flags 18))
                      (td_di td.flags == 0)
                      pktlen
                    >>= λ (g : Host D). some (respond k handle g ed td addr dir pktlen len)
              ])
      sent z =
          option_any (OnSome (λ (t : Step D). IsSound t.host.ohci))
            (ohci_find_device h.ohci (field ed.flags 0 7)) (some (stopped h ed)) _ v
            (λ x.
              chain_both (λ (t : Step D). IsSound t.host.ohci)
                (λ (g : Host D). Follows h.ohci g.ohci) _ _
                (send-Follows h x.0 x.1 pid (field ed.flags 7 4) addr (not (bit td.flags 18))
                  (td_di td.flags == 0) pktlen v)
                (λ g f. respond-IsSound g ed td addr dir pktlen len (λ e. n (e ∙ sym z)) f.sound))

  submit-IsSound :
      (h : Host D) (ed : Ed) (td : Td) (addr dir : ℕ) (pid : Token) (pktlen len : ℕ)
      → addr ≢ h.ohci.async_td
      → IsSound h.ohci
      → OnSome
          (λ (t : Step D). IsSound t.host.ohci)
          (submit k handle h ed td addr dir pid pktlen len)
  unfolding submit
  submit-IsSound h ed td addr dir pid pktlen len n v =
      let f = gather-Follows k handle h td dir len pktlen v in
      offer-IsSound (gather k handle h td dir len pktlen) ed td addr dir pid pktlen len
        (λ e. n (e ∙ f.same_td)) f.sound

  read_td-Follows :
      (h : Host D) (addr : ℕ) → IsSound h.ohci → Follows h.ohci (ohci_read_td k h addr).host.ohci
  unfolding ohci_read_td
  read_td-Follows h addr v = get-Follows k 4 h addr 4 v

  -- The descriptor at `addr` has been given to its device, or it has not.
  Known : Host D → ℕ → Bool → Type 0
  Known h addr completion =
      ((completion ≡ true) × (addr ≢ 0)) ⊎ ((completion ≡ false) × (addr ≢ h.ohci.async_td))

  transact-IsSound :
      (h : Host D) (ed : Ed) (td : Td) (addr : ℕ) (completion : Bool) (dir : ℕ) (pid : Token)
      → Known h addr completion
      → IsSound h.ohci
      → OnSome
          (λ (t : Step D). IsSound t.host.ohci)
          (transact k handle h ed td addr completion dir pid)
  unfolding transact Known
  transact-IsSound h ed td addr completion dir pid (inl (c, n)) v =
      (option_any (OnSome (λ (t : Step D). IsSound t.host.ohci)) (td_len td) _ _
        (die-Follows h.ohci v).sound
        (λ len. if_when (OnSome (λ (t : Step D). IsSound t.host.ohci)) _ c (
          conclude-IsSound
            (record h { ohci = record (h.ohci) { async_td = 0; async_complete = false } }) ed td
            addr dir (td_pktlen ed.flags dir len) len n
            (record { queued = v.queued; waiting = inl refl }))))
  transact-IsSound h ed td addr completion dir pid (inr (c, n)) v =
      (option_any (OnSome (λ (t : Step D). IsSound t.host.ohci)) (td_len td) _ _
        (die-Follows h.ohci v).sound
        (λ len.
          if_unless (OnSome (λ (t : Step D). IsSound t.host.ohci)) _ c
            (submit-IsSound h ed td addr dir pid (td_pktlen ed.flags dir len) len n v)))

  service_at-IsSound :
      (h : Host D) (ed : Ed) (addr : ℕ) (completion : Bool)
      → Known h addr completion
      → IsSound h.ohci
      → OnSome (λ (t : Step D). IsSound t.host.ohci) (service_at k handle h ed addr completion)
  unfolding service_at Known
  service_at-IsSound h ed addr completion n v =
      let r = ohci_read_td k h addr in
      let f = read_td-Follows h addr v in
      option_any (OnSome (λ (t : Step D). IsSound t.host.ohci)) r.result
        (some (stopped (die r.host) ed)) _ (die-Follows r.host.ohci f.sound).sound
        (λ td.
          option_any (OnSome (λ (t : Step D). IsSound t.host.ohci))
            (direction_pid (direction ed.flags td.flags)) (some (stopped r.host ed)) _ f.sound
            (λ pid.
              transact-IsSound r.host ed td addr completion (direction ed.flags td.flags) pid
                (still n f.same_td) f.sound))
    where
      still :
          Known h addr completion
          → (ohci_read_td k h addr).host.ohci.async_td ≡ h.ohci.async_td
          → Known (ohci_read_td k h addr).host addr completion
      still (inl m) e = inl m
      still (inr (c, m)) e = inr (c, λ q. m (q ∙ e))

  -- Whatever memory, endpoint and devices there are, the work on a general descriptor, where
  -- no assertion of the core fails in it, keeps two facts of the controller: while the
  -- interrupt counter is 0 the done queue is not empty, and while a packet has completed
  -- there is a descriptor that waits for it.
  pub service_td-IsSound :
      (h : Host D) (ed : Ed)
      → IsSound h.ohci
      → OnSome (λ (t : Step D). IsSound t.host.ohci) (ohci_service_td k handle h ed)
  unfolding ohci_service_td Known
  service_td-IsSound h ed v = elim (Bool-cases (dptr ed.head == h.ohci.async_td)) [
    | inr e ↦
        rw (ohci_service_td, e) (service_at-IsSound h ed (dptr ed.head) false (inr (refl, ne e)) v)
    | inl e ↦ rw (ohci_service_td, e) (waiting e (Bool-cases h.ohci.async_complete))
  ]
    where
      ne : (dptr ed.head == h.ohci.async_td) ≡ false → dptr ed.head ≢ h.ohci.async_td
      ne e = ground arith

      nonzero : h.ohci.async_complete ≡ true → h.ohci.async_td ≢ 0
      nonzero c = ground (arith, v.waiting)

      waiting :
          (dptr ed.head == h.ohci.async_td) ≡ true
          → (h.ohci.async_complete ≡ true) ⊎ (h.ohci.async_complete ≡ false)
          → OnSome
              (λ (t : Step D). IsSound t.host.ohci)
              (if not h.ohci.async_complete
                then some (stopped h ed)
                else service_at k handle h ed (dptr ed.head) true)
      waiting e (inr c) = if_when (OnSome (λ (t : Step D). IsSound t.host.ohci)) _ (ap not c) v
      waiting e (inl c) = if_unless (OnSome (λ (t : Step D). IsSound t.host.ohci)) _ (ap not c) (
          service_at-IsSound h ed (dptr ed.head) true
            (inl (refl, λ z. nonzero c (sym ((==_iff (dptr ed.head) h.ohci.async_td).0 e) ∙ z))) v)
