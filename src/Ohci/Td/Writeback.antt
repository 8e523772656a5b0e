-- ===== src/Ohci/Td/Writeback.antt =====
-- What a serviced descriptor and its endpoint look like afterwards.
use usbqemu_wheel.Common.{
  ℕ, ◌+◌, ◌-◌, ◌*◌, ◌/◌, ◌%◌, ◌^◌, ◌≤◌, ◌<◌, min, ◌≡◌, ◌≢◌, ◌⊎◌, inl, inr, refl, ap, ◌∙◌, sym, Bool,
  true, false, ◌&&◌, ◌||◌, some, arith, ◌==◌, ==_iff, ltb, if◌then◌else◌, bit, bit_or, bit_xor,
  field, bit-bit_or, bit-bit_xor, bit-two_pow, bit-clear, xor,
}
use usbqemu_wheel.Usb.Packet.{
  Status, success, nodev, nak, stall, babble, ioerror, async, add_to_queue, remove_from_queue,
}
use usbqemu_wheel.Ohci.State.{with_bit, without_bit}
use usbqemu_wheel.Ohci.Td.{
  Td, page, td_len, move_cbp, writeback, Serviced, bytes, failed, dir_in, td_done, td_failed, ed_c,
  ed_h, td_t0, set_cc, set_ec, succeed, retire, fail, td_di, is_failed,
}
use usbqemu_wheel.Ohci.Td.Length.{rest_len}

halves :
    (x : ℕ)
    → x / 2 / 2 / 2 / 2 / 2 / 2 / 2 / 2 / 2 / 2 / 2 / 2 / 2 / 2 / 2 / 2 / 2 / 2 / 2 / 2 / 2 / 2 / 2
        / 2
      ≡ x / 2 ^ 24
halves x = omega arith

bit-t0 : (x : ℕ) → bit x td_t0 ≡ (x / 2 ^ 24 % 2 == 1)
unfolding bit
bit-t0 x = ap (λ y. y % 2 == 1) (halves x)

cc-parity : (x : ℕ) → set_cc x 0 / 2 ^ 24 % 2 ≡ x / 2 ^ 24 % 2
cc-parity x = omega arith

ec-parity : (x : ℕ) → set_ec x 0 / 2 ^ 24 % 2 ≡ x / 2 ^ 24 % 2
ec-parity x = omega arith

lost : (b : Bool) → xor (b || true) true ≡ false
lost true = refl
lost false = refl

-- The two toggle flags are one bit, which a success always clears.
done-t0 : (x : ℕ) → bit (td_done x) td_t0 ≡ false
unfolding td_done
done-t0 x =
    let y = bit_xor (bit_or x (2 ^ 24)) (2 ^ 24) in
    bit-t0 _
    ∙ ap (λ r. r == 1) (ec-parity (set_cc y 0) ∙ cc-parity y)
    ∙ sym (bit-t0 y)
    ∙ bit-bit_xor (bit_or x (2 ^ 24)) (2 ^ 24) 24
    ∙ rw (bit-bit_or, bit-two_pow 24 24) (lost (bit x 24))

cc-field : (y : ℕ) → field (set_ec (set_cc y 0) 0) 28 4 ≡ 0
cc-field y = omega arith

done-cc : (x : ℕ) → field (td_done x) 28 4 ≡ 0
unfolding td_done
done-cc x = cc-field _

low-bit : (h m : ℕ) → (bit (h % 16 + m * 16) 0 ≡ bit h 0) × (bit (h % 16 + m * 16) 1 ≡ bit h 1)
unfolding bit
low-bit h m = (ap (λ r. r == 1) (omega arith), ap (λ r. r == 1) (omega arith))

high-head : (h n : ℕ) → (h % 16 + n / 16 * 16) / 16 ≡ n / 16
high-head h n = omega arith

and-true : (b : Bool) → (b && true) ≡ b
and-true true = refl
and-true false = refl

and-false : (b : Bool) → (b && false) ≡ false
and-false true = refl
and-false false = refl

or-true : (b : Bool) → (b || true) ≡ true
or-true true = refl
or-true false = refl

or-false : (b : Bool) → (b || false) ≡ b
or-false true = refl
or-false false = refl

answered : (x : ℕ) (st : Status) → st ≢ nak → (flags : ℕ) × (td_failed x (failed st) ≡ some flags)
unfolding td_failed
answered x success h = (_, refl)
answered x nodev h = (_, refl)
answered x nak h = absurd (h refl)
answered x stall h = (_, refl)
answered x babble h = (_, refl)
answered x ioerror h = (_, refl)
answered x async h = (_, refl)
answered x add_to_queue h = (_, refl)
answered x remove_from_queue h = (_, refl)

-- The address of a buffer's `j`-th byte, on its first page or on the page of its end.
abbrev pub address : Td → ℕ → ℕ
address td j =
    if ltb (td.cbp % 0x1000 + j) 0x1000
    then td.cbp + j
    else page td.be + (td.cbp % 0x1000 + j - 0x1000)

moved-address :
    (td : Td) (n ret j : ℕ)
    → td_len td ≡ some n
    → 0x1000 ≤ td.be
    → ret + j < n
    → address (record td { cbp = move_cbp td ret n }) j ≡ address td (ret + j)
unfolding td_len move_cbp
moved-address td n ret j h b p = ground arith

accepted : (n pktlen : ℕ) (b : Bool) → (n ≡ pktlen) ⊎ (b ≡ true) → ((n == pktlen) || b) ≡ true
accepted n pktlen b (inl e) = ground arith
accepted n pktlen b (inr t) = ground arith

module _ {D : Type 0} where
  -- The descriptor and the endpoint just before they are retired.
  abbrev sent : Serviced D → ℕ → ℕ → Serviced D
  sent r n len = record r {
    td = record (r.td) { cbp = move_cbp r.td n len; flags = td_done r.td.flags };
    ed = record (r.ed) { head = without_bit r.ed.head ed_c };
  }

  succeed-in :
      (r : Serviced D) (addr n len : ℕ) → succeed r addr dir_in n len ≡ retire (sent r n len) addr
  unfolding succeed
  succeed-in r addr n len = rw (done-t0 r.td.flags) refl

  -- A descriptor of an IN transfer that got all its bytes, or fewer with rounding allowed,
  -- goes to the head of the done queue without an error code, the endpoint goes on to the
  -- next descriptor with its halt bit kept, and the interrupt counter falls to the
  -- descriptor's delay. The endpoint's toggle carry ends up clear whatever the toggle was.
  pub writeback_in :
      (r : Serviced D) (addr n pktlen len : ℕ)
      → (n ≡ pktlen) ⊎ (bit r.td.flags 18 ≡ true)
      → (r' : Serviced D) × (writeback r addr dir_in (bytes n) pktlen len ≡ some r')
        × (r'.ohci.done ≡ addr)
        × (r'.td.next ≡ r.ohci.done)
        × (r'.ohci.done_count ≡ min (td_di (td_done r.td.flags)) r.ohci.done_count)
        × (field r'.td.flags 28 4 ≡ 0)
        × (r'.ed.head / 16 ≡ r.td.next / 16)
        × (bit r'.ed.head ed_h ≡ bit r.ed.head ed_h)
        × (bit r'.ed.head ed_c ≡ false)
  unfolding writeback retire
  writeback_in r addr n pktlen len h = (
    retire (sent r n len) addr,
    rw (writeback, accepted n pktlen (bit r.td.flags 18) h) (ap some (succeed-in r addr n len)),
    refl,
    refl,
    refl,
    done-cc r.td.flags,
    high-head _ r.td.next,
    (low-bit _ (r.td.next / 16)).0 ∙ bit-clear r.ed.head 2 0 ∙ rw (bit-two_pow 1 0) (and-true _),
    (low-bit _ (r.td.next / 16)).1 ∙ bit-clear r.ed.head 2 1 ∙ rw (bit-two_pow 1 1) (and-false _),
  )

  -- An OUT or SETUP packet that carries fewer bytes than its descriptor has left moves the
  -- descriptor's buffer on by exactly these bytes: as many fewer are left, the j-th of them
  -- stands where before the packet as many bytes further stood, and the buffer's end is kept.
  -- There is no error code, and the descriptor is not retired: its link, the endpoint and the
  -- controller are as they were. The buffer must end behind the first page of memory.
  pub writeback_partial :
      (r : Serviced D) (addr dir n pktlen len : ℕ)
      → dir ≢ dir_in
      → td_len r.td ≡ some len
      → 0x1000 ≤ r.td.be
      → pktlen < len
      → (r' : Serviced D) × (writeback r addr dir (bytes n) pktlen len ≡ some r')
        × (r'.ohci ≡ r.ohci)
        × (r'.ed ≡ r.ed)
        × (td_len r'.td ≡ some (len - pktlen))
        × ((j : ℕ) → pktlen + j < len → address r'.td j ≡ address r.td (pktlen + j))
        × (r'.td.be ≡ r.td.be)
        × (r'.td.next ≡ r.td.next)
        × (field r'.td.flags 28 4 ≡ 0)
  unfolding writeback succeed td_len
  writeback_partial r addr dir n pktlen len d e b p =
      let out : (dir == dir_in) ≡ false = ground arith in
      let same : (pktlen == pktlen) ≡ true = (==_iff pktlen pktlen).1 refl in
      let short : (pktlen == len) ≡ false = ground arith in
      (
        record r {
          td = record (r.td) { cbp = move_cbp r.td pktlen len; flags = td_done r.td.flags };
        },
        rw (writeback, out, same, short, out) refl,
        refl,
        refl,
        rest_len r.td len pktlen e b p,
        λ j q. moved-address r.td len pktlen j e b q,
        refl,
        refl,
        done-cc r.td.flags,
      )

  abbrev halted : Serviced D → ℕ → Serviced D
  halted r flags = record r {
    td = record (r.td) { flags = flags };
    ed = record (r.ed) { head = with_bit r.ed.head ed_h };
    ohci = record (r.ohci) { done_count = 0 };
  }

  -- A descriptor that the device answers by any status but NAK and ASYNC, and not by a number
  -- of bytes, goes to the head of the done queue with its buffer as it was, the endpoint is
  -- halted at the next descriptor with its toggle carry kept, and the interrupt counter is 0.
  pub writeback_error :
      (r : Serviced D) (addr dir pktlen len : ℕ) (st : Status)
      → st ≢ nak
      → st ≢ async
      → (r' : Serviced D) × (writeback r addr dir (failed st) pktlen len ≡ some r')
        × (r'.ohci.done ≡ addr)
        × (r'.td.next ≡ r.ohci.done)
        × (r'.ohci.done_count ≡ 0)
        × (r'.td.cbp ≡ r.td.cbp)
        × (r'.ed.head / 16 ≡ r.td.next / 16)
        × (bit r'.ed.head ed_h ≡ true)
        × (bit r'.ed.head ed_c ≡ bit r.ed.head ed_c)
  unfolding writeback fail retire is_failed
  writeback_error r addr dir pktlen len st h a =
      let (flags, e) = answered r.td.flags st h in
      (
        retire (halted r flags) addr,
        rw (writeback, fail, e) refl,
        refl,
        refl,
        omega arith,
        refl,
        high-head _ r.td.next,
        (low-bit _ (r.td.next / 16)).0
            ∙ bit-bit_or r.ed.head 1 0
            ∙ rw (bit-two_pow 0 0) (or-true _),
        (low-bit _ (r.td.next / 16)).1
            ∙ bit-bit_or r.ed.head 1 1
            ∙ rw (bit-two_pow 0 1) (or-false _),
      )
