-- ===== src/Ohci/Ports/Status.antt =====
-- What a write to HcRhPortStatus does.
use usbqemu_wheel.Common.{ℕ, true, false, ◌&&◌, ◌||◌, not, ◌==◌, bit, ◌≡◌, refl, ◌∙◌, ap, arith}
use usbqemu_wheel.Usb.Device.{Class}
use usbqemu_wheel.Ohci.State.{
  Port, port_ccs, port_pes, port_pss, port_prs, port_pps, port_lsda, port_csc, port_pesc, port_pssc,
  port_prsc,
}
use usbqemu_wheel.Ohci.Ports.{port_flags, port_write}
use usbqemu_wheel.Ohci.Ports.Flags.{
  is_power, kept, after_reset, flags-bit, flags-ccs, powers-bit, reset-bit,
}
use usbqemu_wheel.Ohci.Ports.Requests.{starts_reset, reset-quiet}

module _ {D : Type 0} (k : Class D) where
  write-bit :
      (p : Port D) (val j : ℕ)
      → bit (port_write k p val).ctrl j ≡ (
          (after_reset (port_flags p.ctrl val) val j && not (bit val port_lsda && is_power j))
          || (bit val port_pps && (port_pps == j)))
  unfolding port_write
  write-bit p val j =
      powers-bit _ val j
      ∙ ap
          (λ r.
            (r && not (bit val port_lsda && is_power j)) || (bit val port_pps && (port_pps == j)))
          (reset-bit k (record p { ctrl = port_flags p.ctrl val }) val j)

  write-dev :
      (p : Port D) (val : ℕ)
      → starts_reset (port_flags p.ctrl val) val ≡ false
      → (port_write k p val).dev ≡ p.dev
  unfolding port_write
  write-dev p val h =
      ap (λ (q : Port D). q.dev) (reset-quiet k (record p { ctrl = port_flags p.ctrl val }) val h)

  -- After any write to a port's status register the port is connected exactly if it was and
  -- the write does not power it down.
  pub port_write-ccs :
      (p : Port D) (val : ℕ)
      → bit (port_write k p val).ctrl port_ccs ≡ (bit p.ctrl port_ccs && not (bit val port_lsda))
  port_write-ccs p val = write-bit p val port_ccs ∙ rw (flags-ccs p.ctrl val) (ground arith)

  -- A write to the status register of a connected port that does not power it down leaves it
  -- connected. A requested reset that is not yet under way enables the port and notes PRSC;
  -- otherwise the port is enabled if the write asks for it, or if it was and the write does
  -- not disable it. A suspend request sets PSS, a power request sets PPS, and CSC and PRSC
  -- fall when they are written as 1.
  pub port_write-connected :
      (p : Port D) (val : ℕ)
      → bit p.ctrl port_ccs ≡ true
      → bit val port_lsda ≡ false
      → let w = (port_write k p val).ctrl in
        let started = bit val port_prs && not (bit p.ctrl port_prs) in
        (bit w port_ccs ≡ true)
        × (bit w port_pes
            ≡ (started || (bit val port_pes || (bit p.ctrl port_pes && not (bit val port_ccs)))))
        × (bit w port_pss ≡ (bit val port_pss || bit p.ctrl port_pss))
        × (bit w port_csc ≡ (bit p.ctrl port_csc && not (bit val port_csc)))
        × (bit w port_prsc ≡ (started || (bit p.ctrl port_prsc && not (bit val port_prsc))))
        × (bit w port_pps ≡ (bit val port_pps || bit p.ctrl port_pps))
  port_write-connected p val g l =
      let c = port_flags p.ctrl val in
      let f : bit c port_ccs ≡ true = flags-ccs p.ctrl val ∙ g in
      let bits : (j : ℕ)
          → bit c j ≡ (
              (kept p.ctrl val j || (bit val port_pes && (port_pes == j)))
              || (bit val port_pss && (port_pss == j))) =
        λ j. flags-bit p.ctrl val j ∙ rw g refl in
      (
        write-bit p val port_ccs ∙ rw (f, l) (ground arith),
        write-bit p val port_pes ∙ rw (f, l, bits port_pes, bits port_prs) (ground arith),
        write-bit p val port_pss ∙ rw (f, l, bits port_pss, bits port_prs) (ground arith),
        write-bit p val port_csc ∙ rw (f, l, bits port_csc, bits port_prs) (ground arith),
        write-bit p val port_prsc ∙ rw (f, l, bits port_prsc, bits port_prs) (ground arith),
        write-bit p val port_pps ∙ rw (f, l, bits port_pps, bits port_prs) (ground arith),
      )

  -- A write to the status register of a port without a connected device that does not power
  -- it down leaves the device alone and the port unconnected. A request to enable, suspend or
  -- reset only notes CSC, which otherwise falls when it is written as 1, as PESC, PSSC and
  -- PRSC do in any case. PES stays set unless the write disables the port, PSS and PRS stay
  -- as they are, and PPS is set if it was or the write asks for it.
  pub port_write-unconnected :
      (p : Port D) (val : ℕ)
      → bit p.ctrl port_ccs ≡ false
      → bit val port_lsda ≡ false
      → let w = port_write k p val in
        let asks = bit val port_pes || (bit val port_pss || bit val port_prs) in
        (w.dev ≡ p.dev)
        × (bit w.ctrl port_ccs ≡ false)
        × (bit w.ctrl port_pes ≡ (bit p.ctrl port_pes && not (bit val port_ccs)))
        × (bit w.ctrl port_pss ≡ bit p.ctrl port_pss)
        × (bit w.ctrl port_prs ≡ bit p.ctrl port_prs)
        × (bit w.ctrl port_pps ≡ (bit val port_pps || bit p.ctrl port_pps))
        × (bit w.ctrl port_csc ≡ (asks || (bit p.ctrl port_csc && not (bit val port_csc))))
        × (bit w.ctrl port_pesc ≡ (bit p.ctrl port_pesc && not (bit val port_pesc)))
        × (bit w.ctrl port_pssc ≡ (bit p.ctrl port_pssc && not (bit val port_pssc)))
        × (bit w.ctrl port_prsc ≡ (bit p.ctrl port_prsc && not (bit val port_prsc)))
  port_write-unconnected p val g l =
      let c = port_flags p.ctrl val in
      let f : bit c port_ccs ≡ false = flags-ccs p.ctrl val ∙ g in
      let bits : (j : ℕ)
          → bit c j ≡ (
              (kept p.ctrl val j || (bit val port_pes && (port_csc == j)))
              || (bit val port_pss && (port_csc == j))) =
        λ j. flags-bit p.ctrl val j ∙ rw g refl in
      let quiet : starts_reset c val ≡ false = rw f (ground arith) in
      (
        write-dev p val quiet,
        write-bit p val port_ccs ∙ rw (f, l) (ground arith),
        write-bit p val port_pes ∙ rw (f, l, bits port_pes) (ground arith),
        write-bit p val port_pss ∙ rw (f, l, bits port_pss) (ground arith),
        write-bit p val port_prs ∙ rw (f, l, bits port_prs) (ground arith),
        write-bit p val port_pps ∙ rw (f, l, bits port_pps) (ground arith),
        write-bit p val port_csc ∙ rw (f, l, bits port_csc) (ground arith),
        write-bit p val port_pesc ∙ rw (f, l, bits port_pesc) (ground arith),
        write-bit p val port_pssc ∙ rw (f, l, bits port_pssc) (ground arith),
        write-bit p val port_prsc ∙ rw (f, l, bits port_prsc) (ground arith),
      )

  -- Powering down a connected port by a write that asks for no reset and no power clears CCS,
  -- PSS, PRS and PPS, but the port stays enabled if it was and the write does not disable it,
  -- or if the write asks for it.
  pub port_write-power_off :
      (p : Port D) (val : ℕ)
      → bit val port_lsda ≡ true
      → bit val port_pps ≡ false
      → bit val port_prs ≡ false
      → bit p.ctrl port_ccs ≡ true
      → let w = (port_write k p val).ctrl in
        (bit w port_ccs ≡ false)
        × (bit w port_pss ≡ false)
        × (bit w port_prs ≡ false)
        × (bit w port_pps ≡ false)
        × (bit w port_pes ≡ (bit val port_pes || (bit p.ctrl port_pes && not (bit val port_ccs))))
  port_write-power_off p val l u r g =
      let c = port_flags p.ctrl val in
      let f : bit c port_ccs ≡ true = flags-ccs p.ctrl val ∙ g in
      let bits : bit c port_pes ≡ (
          (kept p.ctrl val port_pes || (bit val port_pes && true)) || (bit val port_pss && false)) =
        flags-bit p.ctrl val port_pes ∙ rw g refl in
      (
        write-bit p val port_ccs ∙ rw (f, l, u, r) (ground arith),
        write-bit p val port_pss ∙ rw (f, l, u, r) (ground arith),
        write-bit p val port_prs ∙ rw (f, l, u, r) (ground arith),
        write-bit p val port_pps ∙ rw (f, l, u, r) (ground arith),
        write-bit p val port_pes ∙ rw (f, l, u, r, bits) (ground arith),
      )
