-- ===== src/Ohci/Ports/Flags.antt =====
-- The steps of a write to HcRhPortStatus, bit by bit.
use usbqemu_wheel.Common.{
  ℕ, ◌^◌, Bool, true, false, ◌&&◌, ◌||◌, not, ◌==◌, if◌then◌else◌, bit, clear, bit_and, bit_or, ◌≡◌,
  refl, sym, ◌∙◌, ap, arith, bit-clear, bit-bit_or, bit-bit_and, bit-two_pow, Bool-cases, inl, inr,
}
use usbqemu_wheel.Usb.Device.{Class}
use usbqemu_wheel.Ohci.State.{
  Port, port_ccs, port_pes, port_pss, port_prs, port_pps, port_lsda, port_csc, port_pesc, port_pssc,
  port_prsc, port_wtc, without_bit,
}
use usbqemu_wheel.Ohci.Ports.{set_if_connected, port_power, port_flags, port_powers, port_reset}
use usbqemu_wheel.Ohci.Ports.Requests.{
  or-false, wtc_lem, requested-bit, starts_reset, reset-started, reset-quiet, none-cleared,
  none-set, and-true,
}

bit-or_pow : (a m j : ℕ) → bit (bit_or a (2 ^ m)) j ≡ (bit a j || (m == j))
bit-or_pow a m j = rw (bit-bit_or, bit-two_pow m j) refl

-- The bits of OHCI_PORT_WTC, and those that powering down clears.
abbrev pub is_change : ℕ → Bool
is_change j =
    ((((port_csc == j) || (port_pesc == j)) || (port_pssc == j)) || (19 == j)) || (port_prsc == j)

abbrev pub is_power : ℕ → Bool
is_power j = (((port_ccs == j) || (port_pss == j)) || (port_prs == j)) || (port_pps == j)

bit-wtc : (j : ℕ) → bit port_wtc j ≡ is_change j
bit-wtc j =
    bit-or_pow 0xf0000 20 j
    ∙ ap (λ r. r || (20 == j))
        (bit-or_pow 0x70000 19 j
          ∙ ap (λ r. r || (19 == j))
              (bit-or_pow 0x30000 18 j
                ∙ ap (λ r. r || (18 == j))
                    (bit-or_pow 0x10000 17 j ∙ ap (λ r. r || (17 == j)) (bit-two_pow 16 j))))

bit-power : (j : ℕ) → bit 0x115 j ≡ is_power j
bit-power j =
    bit-or_pow 0x15 8 j
    ∙ ap (λ r. r || (8 == j))
        (bit-or_pow 0x5 4 j
          ∙ ap (λ r. r || (4 == j))
              (bit-or_pow 0x1 2 j ∙ ap (λ r. r || (2 == j)) (bit-two_pow 0 j)))

-- The register after the bits that a write clears.
abbrev pub cleared : ℕ → ℕ → ℕ
cleared c val =
    let c1 = clear c (bit_and val port_wtc) in
    if bit val port_ccs then without_bit c1 port_pes else c1

-- The same, bit by bit.
abbrev pub kept : ℕ → ℕ → ℕ → Bool
kept c val j = bit c j && not ((bit val j && is_change j) || (bit val port_ccs && (port_pes == j)))

kept_lem : (a b c : Bool) → ((a && not b) && not c) ≡ (a && not (b || c))
kept_lem true true c = refl
kept_lem true false c = refl
kept_lem false b c = refl

cleared-bit : (c val j : ℕ) → bit (cleared c val) j ≡ kept c val j
cleared-bit c val j = elim (Bool-cases (bit val port_ccs)) [
  | inl t ↦
      rw (t, bit-clear, bit-clear, bit-bit_and, bit-two_pow port_pes, bit-wtc j)
        (kept_lem (bit c j) (bit val j && is_change j) (port_pes == j))
  | inr f ↦ rw (f, bit-clear, bit-bit_and, bit-wtc j, or-false (bit val j && is_change j)) refl
]

-- The bit that a request of the flag `m` sets.
abbrev pub asked : ℕ → ℕ → ℕ → ℕ → Bool
asked c val m j = bit val m && (if bit c port_ccs then m == j else port_csc == j)

pub kept-ccs : (c val : ℕ) → kept c val port_ccs ≡ bit c port_ccs
kept-ccs c val = none-cleared (bit c port_ccs) (bit val port_ccs)

cleared-ccs : (c val : ℕ) → bit (cleared c val) port_ccs ≡ bit c port_ccs
cleared-ccs c val = cleared-bit c val port_ccs ∙ kept-ccs c val

-- A request leaves CurrentConnectStatus as it is.
requested-ccs :
    (c val m : ℕ)
    → (m == port_ccs) ≡ false
    → bit (set_if_connected c (bit_and val (2 ^ m))).0 port_ccs ≡ bit c port_ccs
requested-ccs c val m h =
    requested-bit c val m port_ccs ∙ rw h (none-set (bit c port_ccs) (bit val m))

flags_lem :
    (c val : ℕ)
    → port_flags c val
      ≡ (set_if_connected
          (set_if_connected (cleared c val) (bit_and val (2 ^ port_pes))).0
          (bit_and val (2 ^ port_pss))).0
unfolding port_flags
flags_lem c val =
    ap
      (λ c1.
        (set_if_connected
          (set_if_connected (if bit val port_ccs then without_bit c1 port_pes else c1)
            (bit_and val (2 ^ port_pes))).0
          (bit_and val (2 ^ port_pss))).0)
      (wtc_lem c val)

pub flags-bit :
    (c val j : ℕ)
    → bit (port_flags c val) j
      ≡ ((kept c val j || asked c val port_pes j) || asked c val port_pss j)
flags-bit c val j =
    let c2 = cleared c val in
    let c3 = (set_if_connected c2 (bit_and val (2 ^ port_pes))).0 in
    let e2 : bit c2 port_ccs ≡ bit c port_ccs = cleared-ccs c val in
    let e3 : bit c3 port_ccs ≡ bit c port_ccs = requested-ccs c2 val port_pes refl ∙ e2 in
    ap (λ r. bit r j) (flags_lem c val)
    ∙ requested-bit c3 val port_pss j
    ∙ rw (e3, requested-bit c2 val port_pes j, e2, cleared-bit c val j) refl

pub flags-ccs : (c val : ℕ) → bit (port_flags c val) port_ccs ≡ bit c port_ccs
flags-ccs c val =
    flags-bit c val port_ccs
    ∙ rw (kept-ccs c val, none-set (bit c port_ccs) (bit val port_pes))
        (none-set (bit c port_ccs) (bit val port_pss))

-- The power bits of a write: what they do to a register.
pub powers-bit :
    (c val j : ℕ)
    → bit (port_powers c val) j ≡ (
        (bit c j && not (bit val port_lsda && is_power j)) || (bit val port_pps && (port_pps == j)))
unfolding port_powers port_power
powers-bit c val j = elim (Bool-cases (bit val port_lsda)) [
  | inl t ↦ elim (Bool-cases (bit val port_pps)) [
    | inl u ↦ rw (t, u, bit-bit_or, bit-clear, bit-power j, bit-two_pow port_pps) refl
    | inr g ↦ rw (t, g, bit-clear, bit-power j) (sym (or-false _))
  ]
  | inr f ↦ elim (Bool-cases (bit val port_pps)) [
    | inl u ↦ rw (f, u, bit-bit_or, bit-two_pow port_pps, and-true (bit c j)) refl
    | inr g ↦ rw (f, g) (sym (or-false _ ∙ and-true (bit c j)))
  ]
]

reset_bits : (a b : Bool) → ((a || b) && not b) ≡ (a && not b)
reset_bits true b = refl
reset_bits false true = refl
reset_bits false false = refl

pub and-fst : (a b : Bool) → (a && b) ≡ true → a ≡ true
and-fst true b h = refl
and-fst false b h = h

and-snd : (a b : Bool) → (a && b) ≡ true → b ≡ true
and-snd true b h = h
and-snd false b h = ground arith

-- What a started or requested reset leaves of bit `j` of the register `c`.
abbrev pub after_reset : ℕ → ℕ → ℕ → Bool
after_reset c val j =
    if starts_reset c val
    then ((bit c j && not (port_prs == j)) || (port_pes == j)) || (port_prsc == j)
    else bit c j || asked c val port_prs j

module _ {D : Type 0} (k : Class D) where
  pub reset-bit :
      (p : Port D) (val j : ℕ) → bit (port_reset k p val).ctrl j ≡ after_reset p.ctrl val j
  reset-bit p val j = elim (Bool-cases (starts_reset p.ctrl val)) [
    | inr f ↦
        ap (λ (q : Port D). bit q.ctrl j) (reset-quiet k p val f)
        ∙ rw f (requested-bit p.ctrl val port_prs j)
    | inl t ↦
        let v : bit val port_prs ≡ true = and-fst _ _ t in
        let g : bit p.ctrl port_ccs ≡ true = and-fst _ _ (and-snd _ _ t) in
        ap (λ (q : Port D). bit q.ctrl j) (reset-started k p val t)
        ∙ rw
            (
              t,
              bit-bit_or,
              bit-bit_or,
              bit-clear,
              requested-bit p.ctrl val port_prs j,
              v,
              g,
              bit-two_pow port_pes,
              bit-two_pow port_prs,
              bit-two_pow port_prsc,
              reset_bits (bit p.ctrl j) (port_prs == j),
            )
            refl
  ]
