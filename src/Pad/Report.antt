-- ===== src/Pad/Report.antt =====
-- The reports of usb-pad.cpp: `pad_copy_data` and `convert_wt_btn`.
use usbqemu_wheel.Common.{
  ℕ, ◌+◌, ◌-◌, ◌*◌, ◌/◌, ◌%◌, ◌^◌, bit_or, List, [], ◌∷◌, ◌++◌, le_bytes, write_at,
}
use usbqemu_wheel.Pad.{
  WheelType, generic, driving_force_pro, driving_force_pro_1102, gt_force, rockband1_drumkit,
  buzz_controller, sega_seamic, keyboardmania_controller, WheelData,
}

-- `wheel_data_t` of pad_copy_data: two 32-bit words over the first eight bytes of the buffer.
unfoldable pub words : ℕ → ℕ → List ℕ
words lo hi = le_bytes 4 lo ++ le_bytes 4 hi

-- The words of a report.
unfoldable pub generic_lo : WheelData → ℕ
generic_lo d = bit_or (bit_or (d.steering % 2 ^ 10) (d.buttons % 2 ^ 12 * 2 ^ 10)) (0xff * 2 ^ 24)

unfoldable pub generic_hi : WheelData → ℕ
generic_hi d =
    bit_or (bit_or (d.hatswitch % 2 ^ 4) (d.throttle % 2 ^ 8 * 2 ^ 8)) (d.brake % 2 ^ 8 * 2 ^ 16)

unfoldable pub gt_force_hi : WheelData → ℕ
gt_force_hi d = bit_or (d.throttle % 2 ^ 8) (d.brake % 2 ^ 8 * 2 ^ 8)

unfoldable pub dfp_lo : WheelData → ℕ
dfp_lo d =
    bit_or (bit_or (d.steering % 2 ^ 14) (d.buttons % 2 ^ 14 * 2 ^ 14))
      (d.hatswitch % 2 ^ 4 * 2 ^ 28)

unfoldable pub dfp_hi : WheelData → ℕ
dfp_hi d = bit_or (bit_or (d.throttle * 2 ^ 8 % 2 ^ 32) (d.brake * 2 ^ 16 % 2 ^ 32)) (0x11 * 2 ^ 24)

unfoldable pub dfp_1102_hi : WheelData → ℕ
dfp_1102_hi d =
    let brake = (0x3f + 2 ^ 32 - d.brake * 0x3f / 0xff % 2 ^ 32) % 2 ^ 6 in
    bit_or
      (bit_or
        (bit_or (bit_or (bit_or 1 (d.throttle * 0x3f / 0xff) * 2 ^ 10 % 2 ^ 32) (2 ^ 16))
          (brake * 2 ^ 17))
        (2 ^ 23))
      (0x11 * 2 ^ 24)

unfoldable pub drumkit_lo : WheelData → ℕ
drumkit_lo d = bit_or (d.buttons % 2 ^ 12) (d.hatswitch % 2 ^ 4 * 2 ^ 16)

-- The bytes from the fifth one on are those of `hi`, which is 0 here.
unfoldable pub buzz_bytes : WheelData → List ℕ
buzz_bytes d =
    0x7f
    ∷ 0x7f
    ∷ d.buttons % 2 ^ 8
    ∷ d.buttons / 2 ^ 8 % 2 ^ 8
    ∷ bit_or 0xf0 (d.buttons / 2 ^ 16 % 2 ^ 4)
    ∷ []

unfoldable pub seamic_bytes : WheelData → List ℕ
seamic_bytes d =
    d.steering % 2 ^ 8
    ∷ d.throttle % 2 ^ 8
    ∷ d.brake % 2 ^ 8
    ∷ bit_or (d.hatswitch % 2 ^ 4) (d.buttons % 2 ^ 4 * 2 ^ 4)
    ∷ d.buttons / 2 ^ 4 % 2 ^ 6
    ∷ []

unfoldable pub keyboardmania_bytes : WheelData → List ℕ
keyboardmania_bytes d =
    0x3f
    ∷ d.buttons % 2 ^ 8
    ∷ d.buttons / 2 ^ 8 % 2 ^ 8
    ∷ d.buttons / 2 ^ 16 % 2 ^ 8
    ∷ d.buttons / 2 ^ 24 % 2 ^ 8
    ∷ []

-- What pad_copy_data writes over the first bytes of the buffer, after it has set eight of them to 0.
unfoldable pub report_bytes : WheelType → WheelData → List ℕ
unfolding words generic_lo generic_hi gt_force_hi dfp_lo dfp_hi dfp_1102_hi drumkit_lo buzz_bytes
    seamic_bytes keyboardmania_bytes
report_bytes generic d = words (generic_lo d) (generic_hi d)
report_bytes gt_force d = words (generic_lo d) (gt_force_hi d)
report_bytes driving_force_pro d = words (dfp_lo d) (dfp_hi d)
report_bytes driving_force_pro_1102 d = words (dfp_lo d) (dfp_1102_hi d)
report_bytes rockband1_drumkit d = words (drumkit_lo d) 0
report_bytes buzz_controller d = buzz_bytes d ++ (0 ∷ 0 ∷ 0 ∷ [])
report_bytes sega_seamic d = seamic_bytes d ++ (0 ∷ 0 ∷ 0 ∷ [])
report_bytes keyboardmania_controller d = keyboardmania_bytes d ++ (0 ∷ 0 ∷ 0 ∷ [])

-- `pad_copy_data`, for a buffer of eight bytes or more
unfoldable pub pad_copy_data : WheelType → List ℕ → WheelData → List ℕ
unfolding report_bytes
pad_copy_data kind buf d = write_at buf 0 (report_bytes kind d)

-- The buttons, as the bits of `buttons`.
pub data Button : Type 0 where
  pad_cross : Button
  pad_square : Button
  pad_circle : Button
  pad_triangle : Button
  pad_r1 : Button
  pad_l1 : Button
  pad_r2 : Button
  pad_l2 : Button
  pad_select : Button
  pad_start : Button
  pad_r3 : Button
  pad_l3 : Button
  pad_shift_up : Button
  pad_shift_down : Button
  pad_button_count : Button

-- `convert_wt_btn` for WT_GT_FORCE, where `pad_button_count` stands for no button
unfoldable pub convert_gt_force : Button → Button
convert_gt_force pad_l1 = pad_cross
convert_gt_force pad_r1 = pad_square
convert_gt_force pad_square = pad_circle
convert_gt_force pad_triangle = pad_triangle
convert_gt_force pad_circle = pad_l1
convert_gt_force pad_cross = pad_r1
convert_gt_force b = pad_button_count

-- `convert_wt_btn`
unfoldable pub convert_wt_btn : WheelType → Button → Button
unfolding convert_gt_force
convert_wt_btn gt_force b = convert_gt_force b
convert_wt_btn kind b = b
