-- ===== src/Pad/Fields.antt =====
-- What the reports hold, read by the layouts of usb-pad.h: `generic_data_t`, `gtforce_data_t`,
-- `dfp_data_t`, `rb1drumkit_t`, and for the rest by the bytes.
use usbqemu_wheel.Common.{
  ℕ, ◌+◌, ◌-◌, ◌*◌, ◌/◌, ◌%◌, ◌^◌, ◌≤◌, ◌<◌, ◌≡◌, refl, ap, ◌∙◌, bit_or, Bool, true, false, ◌||◌,
  List, ◌++◌, length, take, drop, field, le_bytes, le_value, le_value-le_bytes, write_at,
  write_at-zero, drop-drop, drop-append, or-shift, or-step, bits-ext, bit_laws, bit, arith,
}
use usbqemu_wheel.Pad.{
  WheelType, generic, driving_force_pro, driving_force_pro_1102, gt_force, rockband1_drumkit,
  buzz_controller, sega_seamic, keyboardmania_controller, WheelData,
}
use usbqemu_wheel.Pad.Report.{
  words, generic_lo, generic_hi, gt_force_hi, dfp_lo, dfp_hi, dfp_1102_hi, drumkit_lo, buzz_bytes,
  seamic_bytes, keyboardmania_bytes, report_bytes, pad_copy_data,
}

abbrev wheel : ℕ → ℕ → ℕ → ℕ → ℕ → WheelData
wheel s b h t r = record { steering = s; buttons = b; hatswitch = h; throttle = t; brake = r }

same_wheel :
    {s s' b b' h h' t t' r r' : ℕ}
    → s ≡ s'
    → b ≡ b'
    → h ≡ h'
    → t ≡ t'
    → r ≡ r'
    → wheel s b h t r ≡ wheel s' b' h' t' r'
same_wheel e f g i j = rw (e, f, g, i, j) refl

-- The data of a report whose words are `lo` and `hi`: axis_x, the buttons, the hat, axis_z and
-- axis_rz, and 0 for what a type has not.
abbrev pub received : WheelType → ℕ → ℕ → WheelData
received generic lo hi =
    wheel (field lo 0 10) (field lo 10 12) (field hi 0 4) (field hi 8 8) (field hi 16 8)
received gt_force lo hi = wheel (field lo 0 10) (field lo 10 6) 0 (field hi 0 8) (field hi 8 8)
received driving_force_pro lo hi =
    wheel (field lo 0 14) (field lo 14 14) (field lo 28 4) (field hi 8 8) (field hi 16 8)
received driving_force_pro_1102 lo hi =
    wheel (field lo 0 14) (field lo 14 14) (field lo 28 4) (field hi 10 6) (field hi 17 6)
received rockband1_drumkit lo hi = wheel 0 (field lo 0 16) (field lo 16 8) 0 0
received buzz_controller lo hi = wheel 0 (field lo 16 16 + field hi 0 4 * 2 ^ 16) 0 0 0
received sega_seamic lo hi =
    wheel (field lo 0 8) (field lo 28 4 + field hi 0 6 * 2 ^ 4) (field lo 24 4) (field lo 8 8)
      (field lo 16 8)
received keyboardmania_controller lo hi = wheel 0 (field lo 8 24 + field hi 0 8 * 2 ^ 24) 0 0 0

-- The data of the report in a buffer.
abbrev pub read_report : WheelType → List ℕ → WheelData
read_report kind buf = received kind (le_value (take 4 buf)) (le_value (take 4 (drop 4 buf)))

-- What comes of the wheel's data in a report of this type.
abbrev pub carried : WheelType → WheelData → WheelData
carried generic d =
    wheel (d.steering % 2 ^ 10) (d.buttons % 2 ^ 12) (d.hatswitch % 2 ^ 4) d.throttle d.brake
carried gt_force d = wheel (d.steering % 2 ^ 10) (d.buttons % 2 ^ 6) 0 d.throttle d.brake
carried driving_force_pro d =
    wheel (d.steering % 2 ^ 14) (d.buttons % 2 ^ 14) (d.hatswitch % 2 ^ 4) d.throttle d.brake
carried driving_force_pro_1102 d =
    wheel (d.steering % 2 ^ 14) (d.buttons % 2 ^ 14) (d.hatswitch % 2 ^ 4)
      (bit_or 1 (d.throttle * 63 / 255)) (63 - d.brake * 63 / 255)
carried rockband1_drumkit d = wheel 0 (d.buttons % 2 ^ 12) (d.hatswitch % 2 ^ 4) 0 0
carried buzz_controller d = wheel 0 (d.buttons % 2 ^ 20) 0 0 0
carried sega_seamic d =
    wheel (d.steering % 2 ^ 8) (d.buttons % 2 ^ 10) (d.hatswitch % 2 ^ 4) d.throttle d.brake
carried keyboardmania_controller d = wheel 0 (d.buttons % 2 ^ 32) 0 0 0

or_comm : (a b : Bool) → (a || b) ≡ (b || a)
or_comm true true = refl
or_comm true false = refl
or_comm false true = refl
or_comm false false = refl

-- A field above a word that ends below it.
or-above : (n a b : ℕ) → b < 2 ^ n → bit_or b (a * 2 ^ n) ≡ b + a * 2 ^ n
or-above n a b h =
    bits-ext _ _ (λ k. simp bit_laws (or_comm (bit b k) (bit (a * 2 ^ n) k)))
    ∙ or-shift n a b h
    ∙ omega arith

or_one : (x : ℕ) → bit_or 1 x ≡ x / 2 * 2 + 1
or_one x =
    let e : bit_or 0 (x / 2) ≡ x / 2 =
      ap (bit_or 0) {x = x / 2} {y = x / 2 * 2 ^ 0} (omega arith)
      ∙ or-above 0 (x / 2) 0 (omega arith)
      ∙ omega arith in
    or-step 1 x ∙ rw e (omega arith)

or_one-lt : (x : ℕ) → x < 2 ^ 6 → bit_or 1 x < 2 ^ 6
or_one-lt x h = omega (arith, or_one x)

-- The words by sums.
module _ (d : WheelData) where
  generic_lo-sum : generic_lo d ≡ d.steering % 2 ^ 10 + d.buttons % 2 ^ 12 * 2 ^ 10 + 0xff * 2 ^ 24
  unfolding generic_lo
  generic_lo-sum =
      let e : bit_or (d.steering % 2 ^ 10) (d.buttons % 2 ^ 12 * 2 ^ 10)
          ≡ d.steering % 2 ^ 10 + d.buttons % 2 ^ 12 * 2 ^ 10 =
        or-above 10 _ _ (omega arith) in
      rw e (or-above 24 0xff _ (omega arith))

  generic_hi-sum :
      generic_hi d ≡ d.hatswitch % 2 ^ 4 + d.throttle % 2 ^ 8 * 2 ^ 8 + d.brake % 2 ^ 8 * 2 ^ 16
  unfolding generic_hi
  generic_hi-sum =
      let e : bit_or (d.hatswitch % 2 ^ 4) (d.throttle % 2 ^ 8 * 2 ^ 8)
          ≡ d.hatswitch % 2 ^ 4 + d.throttle % 2 ^ 8 * 2 ^ 8 =
        or-above 8 _ _ (omega arith) in
      rw e (or-above 16 (d.brake % 2 ^ 8) _ (omega arith))

  gt_force_hi-sum : gt_force_hi d ≡ d.throttle % 2 ^ 8 + d.brake % 2 ^ 8 * 2 ^ 8
  unfolding gt_force_hi
  gt_force_hi-sum = or-above 8 _ _ (omega arith)

  dfp_lo-sum :
      dfp_lo d ≡ d.steering % 2 ^ 14 + d.buttons % 2 ^ 14 * 2 ^ 14 + d.hatswitch % 2 ^ 4 * 2 ^ 28
  unfolding dfp_lo
  dfp_lo-sum =
      let e : bit_or (d.steering % 2 ^ 14) (d.buttons % 2 ^ 14 * 2 ^ 14)
          ≡ d.steering % 2 ^ 14 + d.buttons % 2 ^ 14 * 2 ^ 14 =
        or-above 14 _ _ (omega arith) in
      rw e (or-above 28 (d.hatswitch % 2 ^ 4) _ (omega arith))

  drumkit_lo-sum : drumkit_lo d ≡ d.buttons % 2 ^ 12 + d.hatswitch % 2 ^ 4 * 2 ^ 16
  unfolding drumkit_lo
  drumkit_lo-sum = or-above 16 _ _ (omega arith)

  module _ (t : d.throttle < 2 ^ 8) (b : d.brake < 2 ^ 8) where
    dfp_hi-sum : dfp_hi d ≡ d.throttle * 2 ^ 8 + d.brake * 2 ^ 16 + 0x11 * 2 ^ 24
    unfolding dfp_hi
    dfp_hi-sum =
        let u : d.throttle * 2 ^ 8 % 2 ^ 32 ≡ d.throttle * 2 ^ 8 = omega arith in
        let v : d.brake * 2 ^ 16 % 2 ^ 32 ≡ d.brake * 2 ^ 16 = omega arith in
        let e : bit_or (d.throttle * 2 ^ 8) (d.brake * 2 ^ 16)
            ≡ d.throttle * 2 ^ 8 + d.brake * 2 ^ 16 =
          or-above 16 d.brake _ (omega arith) in
        rw (u, v, e) (or-above 24 0x11 _ (omega arith))

    dfp_1102_hi-sum :
        dfp_1102_hi d
        ≡ bit_or 1 (d.throttle * 63 / 255) * 2 ^ 10
          + 2 ^ 16
          + (63 - d.brake * 63 / 255) * 2 ^ 17
          + 2 ^ 23
          + 0x11 * 2 ^ 24
    unfolding dfp_1102_hi
    dfp_1102_hi-sum =
        let axis : ℕ = bit_or 1 (d.throttle * 63 / 255) in
        let small : axis < 2 ^ 6 = or_one-lt (d.throttle * 63 / 255) (omega arith) in
        let pedal : (0x3f + 2 ^ 32 - d.brake * 0x3f / 0xff % 2 ^ 32) % 2 ^ 6
            ≡ 63 - d.brake * 63 / 255 =
          omega arith in
        let u : axis * 2 ^ 10 % 2 ^ 32 ≡ axis * 2 ^ 10 = omega arith in
        let e1 : bit_or (axis * 2 ^ 10) (2 ^ 16) ≡ axis * 2 ^ 10 + 2 ^ 16 =
          or-above 16 1 _ (omega arith) in
        let e2 : bit_or (axis * 2 ^ 10 + 2 ^ 16) ((63 - d.brake * 63 / 255) * 2 ^ 17)
            ≡ axis * 2 ^ 10 + 2 ^ 16 + (63 - d.brake * 63 / 255) * 2 ^ 17 =
          or-above 17 _ _ (omega arith) in
        let e3 : bit_or (axis * 2 ^ 10 + 2 ^ 16 + (63 - d.brake * 63 / 255) * 2 ^ 17) (2 ^ 23)
            ≡ axis * 2 ^ 10 + 2 ^ 16 + (63 - d.brake * 63 / 255) * 2 ^ 17 + 2 ^ 23 =
          or-above 23 1 _ (omega arith) in
        rw (u, pedal, e1, e2, e3) (or-above 24 0x11 _ (omega arith))

-- A buffer that starts with two words.
read_words :
    (kind : WheelType) (lo hi : ℕ) (rest : List ℕ)
    → lo < 2 ^ 32
    → hi < 2 ^ 32
    → read_report kind (words lo hi ++ rest) ≡ received kind lo hi
unfolding words
read_words kind lo hi rest g h =
    ap (λ l. received kind l (le_value (le_bytes 4 hi))) (le_value-le_bytes 4 lo g)
    ∙ ap (received kind lo) (le_value-le_bytes 4 hi h)

-- The words of the types, read by their layouts.
module _ (d : WheelData) (t : d.throttle < 2 ^ 8) (b : d.brake < 2 ^ 8) where
  received-generic : received generic (generic_lo d) (generic_hi d) ≡ carried generic d
  received-generic =
      rw (generic_lo-sum d, generic_hi-sum d)
        (same_wheel (omega arith) (omega arith) (omega arith) (omega arith) (omega arith))

  received-gt_force : received gt_force (generic_lo d) (gt_force_hi d) ≡ carried gt_force d
  received-gt_force =
      rw (generic_lo-sum d, gt_force_hi-sum d)
        (same_wheel (omega arith) (omega arith) refl (omega arith) (omega arith))

  received-dfp : received driving_force_pro (dfp_lo d) (dfp_hi d) ≡ carried driving_force_pro d
  received-dfp =
      rw (dfp_lo-sum d, dfp_hi-sum d t b)
        (same_wheel (omega arith) (omega arith) (omega arith) (omega arith) (omega arith))

  received-drumkit : received rockband1_drumkit (drumkit_lo d) 0 ≡ carried rockband1_drumkit d
  received-drumkit = rw (drumkit_lo-sum d) (same_wheel refl (omega arith) (omega arith) refl refl)

  received-dfp_1102 :
      received driving_force_pro_1102 (dfp_lo d) (dfp_1102_hi d) ≡ carried driving_force_pro_1102 d
  received-dfp_1102 =
      let small : bit_or 1 (d.throttle * 63 / 255) < 2 ^ 6 =
        or_one-lt (d.throttle * 63 / 255) (omega arith) in
      rw (dfp_lo-sum d, dfp_1102_hi-sum d t b)
        (same_wheel (omega arith) (omega arith) (omega arith) (omega arith) (omega arith))

  read-report_bytes :
      (kind : WheelType) (rest : List ℕ)
      → read_report kind (report_bytes kind d ++ rest) ≡ carried kind d
  unfolding report_bytes buzz_bytes seamic_bytes keyboardmania_bytes
  read-report_bytes generic rest =
      read_words generic (generic_lo d) (generic_hi d) rest (omega (arith, generic_lo-sum d))
        (omega (arith, generic_hi-sum d))
      ∙ received-generic
  read-report_bytes gt_force rest =
      read_words gt_force (generic_lo d) (gt_force_hi d) rest (omega (arith, generic_lo-sum d))
        (omega (arith, gt_force_hi-sum d))
      ∙ received-gt_force
  read-report_bytes driving_force_pro rest =
      read_words driving_force_pro (dfp_lo d) (dfp_hi d) rest (omega (arith, dfp_lo-sum d))
        (omega (arith, dfp_hi-sum d t b))
      ∙ received-dfp
  read-report_bytes driving_force_pro_1102 rest =
      let small : bit_or 1 (d.throttle * 63 / 255) < 2 ^ 6 =
        or_one-lt (d.throttle * 63 / 255) (omega arith) in
      read_words driving_force_pro_1102 (dfp_lo d) (dfp_1102_hi d) rest
        (omega (arith, dfp_lo-sum d)) (omega (arith, dfp_1102_hi-sum d t b))
      ∙ received-dfp_1102
  read-report_bytes rockband1_drumkit rest =
      read_words rockband1_drumkit (drumkit_lo d) 0 rest (omega (arith, drumkit_lo-sum d))
        (omega arith)
      ∙ received-drumkit
  read-report_bytes buzz_controller rest =
      rw (or-shift 4 0xf (d.buttons / 2 ^ 16 % 2 ^ 4) (omega arith))
        (same_wheel refl (omega arith) refl refl refl)
  read-report_bytes sega_seamic rest =
      let e : bit_or (d.hatswitch % 2 ^ 4) (d.buttons % 2 ^ 4 * 2 ^ 4)
          ≡ d.hatswitch % 2 ^ 4 + d.buttons % 2 ^ 4 * 2 ^ 4 =
        or-above 4 _ _ (omega arith) in
      rw e (same_wheel (omega arith) (omega arith) (omega arith) (omega arith) (omega arith))
  read-report_bytes keyboardmania_controller rest = same_wheel refl (omega arith) refl refl refl

length-report_bytes : (kind : WheelType) (d : WheelData) → length (report_bytes kind d) ≡ 8
unfolding report_bytes words buzz_bytes seamic_bytes keyboardmania_bytes
length-report_bytes generic d = refl
length-report_bytes gt_force d = refl
length-report_bytes driving_force_pro d = refl
length-report_bytes driving_force_pro_1102 d = refl
length-report_bytes rockband1_drumkit d = refl
length-report_bytes buzz_controller d = refl
length-report_bytes sega_seamic d = refl
length-report_bytes keyboardmania_controller d = refl

-- For pedals of 8 bits and a buffer of eight bytes or more: the report that pad_copy_data puts
-- into the buffer for a controller of any type reads, by the layout of the type, as the wheel's
-- data, each part on the bits that the type has for it (for the Driving Force Pro 1102 the
-- throttle on six bits with the lowest one set, and the brake on six bits and reversed). The
-- bytes of the buffer from the ninth on stay.
pub read-pad_copy_data :
    (kind : WheelType) (buf : List ℕ) (d : WheelData)
    → 8 ≤ length buf
    → d.throttle < 2 ^ 8
    → d.brake < 2 ^ 8
    → (read_report kind (pad_copy_data kind buf d) ≡ carried kind d)
      × (drop 8 (pad_copy_data kind buf d) ≡ drop 8 buf)
unfolding pad_copy_data
read-pad_copy_data kind buf d h t b =
    let xs : List ℕ = report_bytes kind d in
    let e : length xs ≡ 8 = length-report_bytes kind d in
    let put : write_at buf 0 xs ≡ xs ++ drop (length xs) buf = write_at-zero buf xs (omega arith) in
    (
      rw put (read-report_bytes d t b kind (drop (length xs) buf)),
      ap (λ l. drop 8 l) put
          ∙ drop-append 8 xs (drop (length xs) buf) (omega arith)
          ∙ drop-drop (length xs) (8 - length xs) buf
          ∙ ap (λ n. drop n buf) {y = 8} (omega arith),
    )
