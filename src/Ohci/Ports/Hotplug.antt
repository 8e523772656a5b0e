-- ===== src/Ohci/Ports/Hotplug.antt =====
-- What attaching, detaching and resetting a device does to its port.
use usbqemu_wheel.Common.{
  ℕ, ◌^◌, ◌<◌, Bool, true, false, ◌&&◌, ◌||◌, not, none, some, ◌==◌, if◌then◌else◌, length, get_or,
  set, get_or-set_self, length-set, bit, bit_or, ==_iff, ◌≡◌, refl, sym, ◌∙◌, ap, arith, Bool-cases,
  inl, inr, bit-bit_or, bit-clear, bit-two_pow,
}
use usbqemu_wheel.Usb.Device.{
  Class, Device, not_attached, is_not_attached, attached_state, usb_pick_speed, speed_low,
}
use usbqemu_wheel.Ohci.State.{
  Port, Ohci, port_ccs, port_pes, port_pps, port_lsda, port_csc, port_pesc, with_bit, without_bit,
  intr_rhsc, port_at, set_port, ohci_set_interrupt,
}
use usbqemu_wheel.Ohci.Ports.{
  on_device, port_speedmask, port_write, ohci_port_set_status, attached_ctrl, notice, ohci_attach,
  usb_attach, attached_at, detached_ctrl,
}
use usbqemu_wheel.Ohci.Regs.Interrupts.{update-rhport}

and-true : (b : Bool) → b ≡ (b && true)
and-true true = refl
and-true false = refl

or-false : (b : Bool) → b ≡ (b || false)
or-false true = refl
or-false false = refl

or-not : (a b : Bool) → (a || b) ≡ ((a && not b) || b)
or-not true true = refl
or-not true false = refl
or-not false b = refl

not-set : (c a j : ℕ) → bit c a ≡ false → bit c j ≡ (bit c j && not (a == j))
not-set c a j h = elim (Bool-cases (a == j)) [
  | inl t ↦ let e : bit c j ≡ false = ap (bit c) (sym ((==_iff a j).0 t)) ∙ h in rw (t, e) refl
  | inr f ↦ rw f (and-true (bit c j))
]

-- A flag that falls, with its change noted.
lower-bit :
    (c a b j : ℕ)
    → bit (if bit c a then with_bit (without_bit c a) b else c) j
      ≡ ((bit c j && not (a == j)) || (bit c a && (b == j)))
lower-bit c a b j = elim (Bool-cases (bit c a)) [
  | inl t ↦ rw (t, bit-bit_or, bit-clear, bit-two_pow a j, bit-two_pow b j) refl
  | inr f ↦ rw f (not-set c a j f ∙ or-false _)
]

detached-bit :
    (c j : ℕ)
    → bit (detached_ctrl c) j ≡ (
        (((bit c j && not (port_ccs == j)) || (bit c port_ccs && (port_csc == j)))
          && not (port_pes == j))
        || (((bit c port_pes && true) || (bit c port_ccs && false)) && (port_pesc == j)))
unfolding detached_ctrl
detached-bit c j =
    lower-bit _ port_pes port_pesc j
    ∙ rw (lower-bit c port_ccs port_csc j, lower-bit c port_ccs port_csc port_pes) refl

-- The register of a port that loses its device shows no connection and is not enabled, notes
-- CSC if it was connected and PESC if it was enabled, and keeps its power.
pub detached_ctrl-bits :
    (c : ℕ)
    → (bit (detached_ctrl c) port_ccs ≡ false)
      × (bit (detached_ctrl c) port_pes ≡ false)
      × (bit (detached_ctrl c) port_csc ≡ (bit c port_csc || bit c port_ccs))
      × (bit (detached_ctrl c) port_pesc ≡ (bit c port_pesc || bit c port_pes))
      × (bit (detached_ctrl c) port_pps ≡ bit c port_pps)
detached_ctrl-bits c = (
  detached-bit c port_ccs ∙ ground arith,
  detached-bit c port_pes ∙ ground arith,
  detached-bit c port_csc ∙ ground arith,
  detached-bit c port_pesc ∙ ground arith,
  detached-bit c port_pps ∙ ground arith,
)

module _ {D : Type 0} (k : Class D) where
  pub notice-rhport : (s : Ohci D) (a b : ℕ) → (notice k s a b).rhport ≡ s.rhport
  unfolding notice ohci_set_interrupt
  notice-rhport s a b = elim (Bool-cases (a == b)) [
    | inl t ↦ rw t refl
    | inr f ↦ rw f (update-rhport (record s { intr_status = bit_or s.intr_status (2 ^ intr_rhsc) }))
  ]

  -- `ohci_port_set_status` changes port `i` as `port_write` does, and no other port.
  pub set_status-port :
      (s : Ohci D) (i val : ℕ)
      → (ohci_port_set_status k s i val).rhport ≡ set s.rhport i (port_write k (port_at s i) val)
  unfolding ohci_port_set_status
  set_status-port s i val = notice-rhport _ _ _

  resumed-rhport :
      (s : Ohci D) (b : Bool) (m : ℕ) → (if b then ohci_set_interrupt s m else s).rhport ≡ s.rhport
  unfolding ohci_set_interrupt
  resumed-rhport s true m = update-rhport (record s { intr_status = bit_or s.intr_status m })
  resumed-rhport s false m = refl

  pub attach-at :
      (s : Ohci D) (i : ℕ) (e : Device D)
      → i < length s.rhport
      → (port_at (ohci_attach k s i e) i
          ≡ record { dev = some e; ctrl = attached_ctrl (port_at s i).ctrl e.speed })
        × (length (ohci_attach k s i e).rhport ≡ length s.rhport)
  unfolding ohci_attach
  attach-at s i e h =
      let p : Port D = record { dev = some e; ctrl = attached_ctrl (port_at s i).ctrl e.speed } in
      let same : (ohci_attach k s i e).rhport ≡ set s.rhport i p =
        notice-rhport _ _ _ ∙ resumed-rhport (set_port s i p) _ _ in
      (
        ap (λ ps. get_or ps i (record { dev = none; ctrl = 0 })) same
            ∙ get_or-set_self s.rhport i p _ h,
        ap length same ∙ length-set s.rhport i p,
      )

  pub on_device-at :
      (s : Ohci D) (i : ℕ) (f : Device D → Device D) (d : Device D) (c : ℕ)
      → i < length s.rhport
      → port_at s i ≡ record { dev = some d; ctrl = c }
      → port_at (on_device k s i f) i ≡ record { dev = some (f d); ctrl = c }
  unfolding on_device
  on_device-at s i f d c h e =
      rw (on_device, ap (λ (p : Port D). p.dev) e)
        (get_or-set_self s.rhport i _ _ h ∙ ap (λ (p : Port D). record p { dev = some (f d) }) e)

  pub attach-some :
      (s : Ohci D) (i : ℕ) (d : Device D)
      → d.attached ≡ true
      → d.state ≡ not_attached
      → usb_attach k s i d ≡ some (attached_at k s i d)
  unfolding usb_attach is_not_attached
  attach-some s i d a n = rw (a, n) refl

  pub attached_port :
      (s : Ohci D) (i : ℕ) (d : Device D)
      → i < length s.rhport
      → let e = usb_pick_speed port_speedmask d in
        port_at (attached_at k s i d) i ≡ record {
          dev = some (record e { state = attached_state; rest = k.handle_attach e.rest });
          ctrl = attached_ctrl (port_at s i).ctrl e.speed;
        }
  unfolding attached_at
  attached_port s i d h =
      let e = usb_pick_speed port_speedmask d in
      let (there, long) = attach-at s i e h in
      on_device-at (ohci_attach k s i e) i _ e _ (omega arith) there

attached-bit :
    (c speed j : ℕ)
    → bit (attached_ctrl c speed) j ≡ (
        (((bit c j || (port_ccs == j)) || (port_csc == j)) && not (port_lsda == j))
        || ((speed == speed_low) && (port_lsda == j)))
unfolding attached_ctrl
attached-bit c speed j = elim (Bool-cases (speed == speed_low)) [
  | inl t ↦
      rw
        (
          t,
          bit-bit_or,
          bit-bit_or,
          bit-bit_or,
          bit-two_pow port_ccs j,
          bit-two_pow port_csc j,
          bit-two_pow port_lsda j,
        )
        (or-not _ (port_lsda == j))
  | inr f ↦
      rw
        (
          f,
          bit-clear,
          bit-bit_or,
          bit-bit_or,
          bit-two_pow port_ccs j,
          bit-two_pow port_csc j,
          bit-two_pow port_lsda j,
        )
        (or-false _)
]

-- The register of a port that gets a device shows it as connected, notes the change, shows low
-- speed exactly for a low-speed device, and keeps its enable bit.
pub attached_ctrl-bits :
    (c speed : ℕ)
    → (bit (attached_ctrl c speed) port_ccs ≡ true)
      × (bit (attached_ctrl c speed) port_csc ≡ true)
      × (bit (attached_ctrl c speed) port_lsda ≡ (speed == speed_low))
      × (bit (attached_ctrl c speed) port_pes ≡ bit c port_pes)
unfolding attached_ctrl
attached_ctrl-bits c speed = (
  attached-bit c speed port_ccs ∙ ground arith,
  attached-bit c speed port_csc ∙ ground arith,
  attached-bit c speed port_lsda ∙ ground arith,
  attached-bit c speed port_pes ∙ ground arith,
)
