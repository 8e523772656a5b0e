-- ===== src/Ohci/Frame/Expiry.antt =====
-- The work on an isochronous endpoint comes to an end, whatever the memory holds.
use usbqemu_wheel.Common.{
  ℕ, zero, suc, ◌+◌, ◌*◌, ◌/◌, ◌%◌, ◌≤◌, ◌<◌, ◌≡◌, ◌≢◌, refl, sym, ap, ◌∙◌, inl, inr, true, false,
  List, [], ◌∷◌, ◌==◌, leb, field, take, drop, drop-nil, take-nil, write_at, get_or, le_value,
  length, arith, Bool-cases, ==_iff, AreBytes, get_or-AreBytes, get_or-write_at_in,
  get_or-write_at_out, others, others-one_less, others_le,
}
use usbqemu_wheel.Ohci.Td.{memory_end, set_cc, cc_dataoverrun}
use usbqemu_wheel.Ohci.Dma.{Host, IsoTd}
use usbqemu_wheel.Ohci.Dma.Memory.{flat, iso_bytes, IsRead}

-- The byte with the condition code of the descriptor at `16 * i`, and that code.
abbrev cc_at : List ℕ → ℕ → ℕ
cc_at ram i = get_or ram (16 * i + 3) 0 / 16

-- The descriptors that are not marked as overrun.
pub fresh : List ℕ → ℕ → ℕ
fresh ram n = others cc_dataoverrun (cc_at ram) n

-- A number in memory, its lowest byte first.
value-step :
    (n : ℕ) (ram : List ℕ) (i : ℕ)
    → le_value (take (suc n) (drop i ram))
      ≡ get_or ram i 0 + 256 * le_value (take n (drop (i + 1) ram))
value-step n [] i = rw (drop-nil i, drop-nil (i + 1), take-nil n) refl
value-step n (x ∷ ram) zero = refl
value-step n (x ∷ ram) (suc i) =
    value-step n ram i
    ∙ ap (λ j. get_or ram i 0 + 256 * le_value (take n (drop j (x ∷ ram)))) {x = suc (i + 1)}
        (omega arith)

value-get_or :
    (ram : List ℕ) (i : ℕ)
    → le_value (take 4 (drop i ram))
      ≡ get_or ram i 0
        + 256
          * (get_or ram (i + 1) 0
              + 256 * (get_or ram (i + 1 + 1) 0 + 256 * get_or ram (i + 1 + 1 + 1) 0))
value-get_or ram i = omega (
  arith,
  value-step 3 ram i,
  value-step 2 ram (i + 1),
  value-step 1 ram (i + 1 + 1),
  value-step 0 ram (i + 1 + 1 + 1),
)

word-get_or :
    (ram : List ℕ) (i : ℕ)
    → le_value (take 2 (drop i ram)) ≡ get_or ram i 0 + 256 * get_or ram (i + 1) 0
word-get_or ram i = omega (arith, value-step 1 ram i, value-step 0 ram (i + 1))

-- The high byte of the second word.
second_word : (l : List ℕ) → length l ≡ 8 → get_or (flat 2 l) 3 0 ≡ get_or l 1 0 / 256 % 256
second_word [] h = absurd (omega arith)
second_word (x ∷ []) h = absurd (omega arith)
second_word (x ∷ y ∷ l) h = refl

-- The highest byte of the flags that are marked as overrun.
marked_byte :
    (b0 b1 b2 b3 : ℕ)
    → b0 < 256
    → b1 < 256
    → b2 < 256
    → b3 < 256
    → set_cc (b0 + 256 * (b1 + 256 * (b2 + 256 * b3))) cc_dataoverrun / 256 / 256 / 256 % 256 / 16
      ≡ cc_dataoverrun
marked_byte b0 b1 b2 b3 h0 h1 h2 h3 = omega arith

code_byte :
    (b0 b1 b2 b3 : ℕ)
    → b0 < 256
    → b1 < 256
    → b2 < 256
    → b3 < 256
    → field (b0 + 256 * (b1 + 256 * (b2 + 256 * b3))) 28 4 ≡ b3 / 16
code_byte b0 b1 b2 b3 h0 h1 h2 h3 = omega arith

high_byte : (b0 b1 : ℕ) → b0 < 256 → b1 < 256 → (b0 + 256 * b1) / 256 % 256 ≡ b1
high_byte b0 b1 h0 h1 = omega arith

length-words : (l : List ℕ) → length (flat 2 l) ≡ 2 * length l
length-words [] = refl
length-words (x ∷ l) = omega (arith, length-words l)

-- As many descriptors as the memory has room for.
abbrev pub slots : ℕ
slots = 131072

pub fresh_le : (ram : List ℕ) → fresh ram slots ≤ slots
unfolding fresh
fresh_le ram = others_le cc_dataoverrun (cc_at ram) slots

-- A descriptor that is put back marked.
module _ {D : Type 0} (h : Host D) (a : ℕ) (td td' : IsoTd) {host : Host D}
    (v : IsRead h (a * 16) host td) (b : AreBytes h.ram) (full : length h.ram ≡ memory_end)
    (m : td'.flags ≡ set_cc td.flags cc_dataoverrun) (o : td'.offset ≡ td.offset) where
  small : (i : ℕ) → get_or h.ram i 0 < 256
  small i = get_or-AreBytes h.ram i b

  abbrev pub after_put : List ℕ
  after_put = write_at h.ram (a * 16) (iso_bytes td')

  size_of : length (iso_bytes td') ≡ 32
  size_of = omega (arith, length-words td'.offset, ap length o, v.eight)

  flags_value :
      td.flags
      ≡ get_or h.ram (a * 16) 0
        + 256
          * (get_or h.ram (a * 16 + 1) 0
              + 256 * (get_or h.ram (a * 16 + 1 + 1) 0 + 256 * get_or h.ram (a * 16 + 1 + 1 + 1) 0))
  flags_value = v.flags_are ∙ value-get_or h.ram (a * 16)

  was_code : cc_at h.ram a ≡ field td.flags 28 4
  was_code =
      ap (λ i. get_or h.ram i 0 / 16) (omega arith)
      ∙ sym (
          code_byte _ _ _ (get_or h.ram (a * 16 + 1 + 1 + 1) 0) (small (a * 16))
            (small (a * 16 + 1)) (small (a * 16 + 1 + 1)) (small (a * 16 + 1 + 1 + 1)))
      ∙ ap (λ x. field x 28 4) (sym flags_value)

  is_code : cc_at after_put a ≡ cc_dataoverrun
  is_code =
      ap (λ i. get_or after_put i 0 / 16) {y = a * 16 + 3} (omega arith)
      ∙ ap (λ x. x / 16)
          (get_or-write_at_in h.ram (a * 16) (iso_bytes td') 3 (omega (arith, size_of))
            (omega (arith, size_of, v.inside, full)))
      ∙ ap (λ x. x / 256 / 256 / 256 % 256 / 16) (m ∙ ap (λ x. set_cc x cc_dataoverrun) flags_value)
      ∙ marked_byte _ _ _ _ (small (a * 16)) (small (a * 16 + 1)) (small (a * 16 + 1 + 1))
          (small (a * 16 + 1 + 1 + 1))

  kept : (j : ℕ) → j ≢ a → cc_at after_put j ≡ cc_at h.ram j
  kept j n = elim (Bool-cases (j == a + 1)) [
    | inl e ↦ next_one ((==_iff j (a + 1)).0 e)
    | inr e ↦
        ap (λ x. x / 16)
          (get_or-write_at_out h.ram (a * 16) (iso_bytes td') (16 * j + 3)
            (elim (Bool-cases (leb a j)) [ inl l ↦ inr (beyond e l) | inr l ↦ inl (before l) ]))
  ]
    where
      before : leb a j ≡ false → 16 * j + 3 < a * 16
      before l = ground arith

      beyond : (j == a + 1) ≡ false → leb a j ≡ true → a * 16 + length (iso_bytes td') ≤ 16 * j + 3
      beyond e l = ground (arith, size_of, n)

      next_one : j ≡ a + 1 → cc_at after_put j ≡ cc_at h.ram j
      next_one e =
          ap (λ i. get_or after_put i 0 / 16) {y = a * 16 + 19} (omega (arith, e))
          ∙ ap (λ x. x / 16)
              (get_or-write_at_in h.ram (a * 16) (iso_bytes td') 19 (omega (arith, size_of))
                  (omega (arith, size_of, v.inside, full))
                ∙ second_word td'.offset (ap length o ∙ v.eight)
                ∙ ap (λ l. get_or l 1 0 / 256 % 256) o
                ∙ ap (λ x. x / 256 % 256) (v.second_is ∙ word-get_or h.ram (a * 16 + 18))
                ∙ high_byte _ _ (small (a * 16 + 18)) (small (a * 16 + 18 + 1)))
          ∙ ap (λ i. get_or h.ram i 0 / 16) (omega (arith, e))

  pub put-fresh :
      field td.flags 28 4 ≢ cc_dataoverrun → fresh after_put slots + 1 ≡ fresh h.ram slots
  unfolding fresh
  put-fresh n =
      others-one_less cc_dataoverrun (cc_at h.ram) (cc_at after_put) a slots
        (omega (arith, v.inside)) (λ e. n (sym was_code ∙ e)) is_code kept
