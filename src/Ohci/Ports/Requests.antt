-- ===== src/Ohci/Ports/Requests.antt =====
-- The flags that a write to HcRhPortStatus requests, and the reset that it starts.
use usbqemu_wheel.Common.{
  ℕ, ◌^◌, Bool, true, false, ◌&&◌, ◌||◌, not, ◌==◌, if◌then◌else◌, bit, clear, bit_and, ◌≡◌, refl,
  sym, ==_iff, arith, bit-bit_or, bit-two_pow, bit_and-two_pow, two_pow-pos, clear-zero, Bool-cases,
  inl, inr,
}
use usbqemu_wheel.Usb.Device.{Class}
use usbqemu_wheel.Ohci.State.{
  Port, port_ccs, port_pes, port_prs, port_csc, port_prsc, port_wtc, with_bit, without_bit,
}
use usbqemu_wheel.Ohci.Ports.{set_if_connected, port_reset, reset_device}

two_pow-nonzero : (m : ℕ) → (2 ^ m == 0) ≡ false
two_pow-nonzero m = let h = two_pow-pos m in ground arith

pub or-false : (b : Bool) → (b || false) ≡ b
or-false true = refl
or-false false = refl

-- The test of a mask of one bit against 0.
mask-zero : (x m : ℕ) → (bit_and x (2 ^ m) == 0) ≡ not (bit x m)
mask-zero x m = elim (Bool-cases (bit x m)) [
  | inl t ↦ rw (bit_and-two_pow x m, t) (two_pow-nonzero m)
  | inr f ↦ rw (bit_and-two_pow x m, f) refl
]

-- The flag `m` is requested by the mask of its own bit.
pub requested :
    (c val m : ℕ)
    → set_if_connected c (bit_and val (2 ^ m)) ≡ (
        if bit val m
        then (if bit c port_ccs
            then (with_bit c m, not (bit c m))
            else (with_bit c port_csc, false))
        else (c, false))
unfolding set_if_connected
requested c val m = elim (Bool-cases (bit val m)) [
  | inr f ↦ rw (mask-zero val m, f) refl
  | inl t ↦ elim (Bool-cases (bit c port_ccs)) [
    | inr g ↦ rw (mask-zero val m, t, g) refl
    | inl g ↦ rw (bit_and-two_pow val m, t, two_pow-nonzero m, g, mask-zero c m) refl
  ]
]

-- `port_flags` without its test of the mask, which changes nothing.
pub wtc_lem :
    (c val : ℕ)
    → (if bit_and val port_wtc == 0 then c else clear c (bit_and val port_wtc))
      ≡ clear c (bit_and val port_wtc)
wtc_lem c val = elim (Bool-cases (bit_and val port_wtc == 0)) [
  | inr f ↦ rw f refl
  | inl t ↦ let e : bit_and val port_wtc ≡ 0 = (==_iff _ _).0 t in rw t (rw e (sym (clear-zero c)))
]

pub requested-bit :
    (c val m j : ℕ)
    → bit (set_if_connected c (bit_and val (2 ^ m))).0 j
      ≡ (bit c j || (bit val m && (if bit c port_ccs then m == j else port_csc == j)))
requested-bit c val m j = elim (Bool-cases (bit val m)) [
  | inr f ↦ rw (requested c val m, f) (sym (or-false (bit c j)))
  | inl t ↦ elim (Bool-cases (bit c port_ccs)) [
    | inr g ↦ rw (requested c val m, t, g, bit-bit_or, bit-two_pow port_csc j) refl
    | inl g ↦ rw (requested c val m, t, g, bit-bit_or, bit-two_pow m j) refl
  ]
]

pub requested-started :
    (c val m : ℕ)
    → (set_if_connected c (bit_and val (2 ^ m))).1
      ≡ (bit val m && (bit c port_ccs && not (bit c m)))
requested-started c val m = elim (Bool-cases (bit val m)) [
  | inr f ↦ rw (requested c val m, f) refl
  | inl t ↦ elim (Bool-cases (bit c port_ccs)) [
    | inr g ↦ rw (requested c val m, t, g) refl
    | inl g ↦ rw (requested c val m, t, g) refl
  ]
]

-- Whether a write starts a reset of the port's device.
abbrev pub starts_reset : ℕ → ℕ → Bool
starts_reset c val = bit val port_prs && (bit c port_ccs && not (bit c port_prs))

module _ {D : Type 0} (k : Class D) where
  pub reset-started :
      (p : Port D) (val : ℕ)
      → starts_reset p.ctrl val ≡ true
      → port_reset k p val ≡ record (reset_device k p) {
        ctrl =
            with_bit
              (with_bit
                (without_bit (set_if_connected p.ctrl (bit_and val (2 ^ port_prs))).0 port_prs)
                port_pes)
              port_prsc;
      }
  unfolding port_reset
  reset-started p val h = rw (requested-started p.ctrl val port_prs, h) refl

  pub reset-quiet :
      (p : Port D) (val : ℕ)
      → starts_reset p.ctrl val ≡ false
      → port_reset k p val
        ≡ record p { ctrl = (set_if_connected p.ctrl (bit_and val (2 ^ port_prs))).0 }
  unfolding port_reset
  reset-quiet p val h = rw (requested-started p.ctrl val port_prs, h) refl

pub none-cleared : (a b : Bool) → (a && not ((b && false) || (b && false))) ≡ a
none-cleared true true = refl
none-cleared true false = refl
none-cleared false b = refl

pub none-set : (a b : Bool) → (a || (b && (if a then false else false))) ≡ a
none-set true b = refl
none-set false true = refl
none-set false false = refl

pub and-true : (b : Bool) → (b && true) ≡ b
and-true true = refl
and-true false = refl
