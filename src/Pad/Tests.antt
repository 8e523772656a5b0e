-- ===== src/Pad/Tests.antt =====
-- Runs of the controllers: a damper in two slots, and the reports of two wheels.
use usbqemu_wheel.Common.{◌≡◌, refl, true, false, some, [], ◌∷◌, bit, replicate, drop, arith}
use usbqemu_wheel.Pad.{
  FfData, Pad, WheelData, driving_force_pro_1102, driving_force_pro, sega_seamic,
}
use usbqemu_wheel.Pad.Force.{
  pos, negsuc, device_constant_force, ff_lg_u8_to_s16, set_constant_force,
}
use usbqemu_wheel.Pad.Effects.{store_type, play_constant, parse_ff_data, stop_type}
use usbqemu_wheel.Pad.Stops.{stop-undoes, times, IsUndoneBy}
use usbqemu_wheel.Pad.Overreads.{fails, parse_ff_data-fails}
use usbqemu_wheel.Pad.Report.{pad_copy_data}
use usbqemu_wheel.Pad.Fields.{read-pad_copy_data, read_report, carried}

abbrev two_slots : Pad
two_slots = record { has_ffdev = true; slot_type = 1 ∷ 1 ∷ 1 ∷ 1 ∷ []; slot_force = replicate 4 0 }

-- A download of a damper into the slots 0 and 2.
abbrev damper_on : FfData
damper_on = record { cmdslot = 0x50; kind = 2; params = 9 ∷ 0 ∷ 3 ∷ 1 ∷ 0xff ∷ [] }

abbrev damper_off : FfData
damper_off = record damper_on { cmdslot = 0x53 }

abbrev damper_played : FfData
damper_played = record damper_on { cmdslot = 0x51 }

abbrev loaded_slots : Pad
loaded_slots = record two_slots { slot_type = 2 ∷ 1 ∷ 2 ∷ 1 ∷ [] }

level_0 : ff_lg_u8_to_s16 0 ≡ negsuc 32766
unfolding ff_lg_u8_to_s16
level_0 = refl

level_255 : ff_lg_u8_to_s16 255 ≡ pos 32767
unfolding ff_lg_u8_to_s16
level_255 = refl

-- Four forces together, held at the largest one.
four_forces :
    play_constant 0xf (0xff ∷ 0xff ∷ 0x7f ∷ 0x80 ∷ 0 ∷ []) ≡ device_constant_force (pos 32767) ∷ []
unfolding play_constant set_constant_force
four_forces = refl

loads : parse_ff_data two_slots damper_on false ≡ some (loaded_slots, [])
unfolding parse_ff_data store_type bit
loads = refl

stop-undoes_example :
    IsUndoneBy 2 []
    × (parse_ff_data loaded_slots damper_off false ≡ some (loaded_slots, times 2 (stop_type 2)))
unfolding bit
stop-undoes_example =
    stop-undoes two_slots loaded_slots [] damper_on damper_off false false refl refl (omega arith)
      refl loads

parse_ff_data-fails_example : fails (parse_ff_data two_slots damper_played true) ≡ true
parse_ff_data-fails_example = parse_ff_data-fails two_slots damper_played true

abbrev turned : WheelData
turned = record {
  steering = 0x2345;
  buttons = 0x1041;
  hatswitch = 3;
  throttle = 0x80;
  brake = 0x22;
}

read-pad_copy_data_example :
    (read_report driving_force_pro_1102
        (pad_copy_data driving_force_pro_1102 (replicate 9 7) turned)
      ≡ carried driving_force_pro_1102 turned)
    × (drop 8 (pad_copy_data driving_force_pro_1102 (replicate 9 7) turned)
        ≡ drop 8 (replicate 9 7))
read-pad_copy_data_example =
    read-pad_copy_data driving_force_pro_1102 (replicate 9 7) turned (omega arith) (omega arith)
      (omega arith)

dfp_report :
    pad_copy_data driving_force_pro (replicate 8 1) turned
    ≡ 0x45 ∷ 0x63 ∷ 0x10 ∷ 0x34 ∷ 0x00 ∷ 0x80 ∷ 0x22 ∷ 0x11 ∷ []
unfolding pad_copy_data
dfp_report = refl

seamic_report :
    pad_copy_data sega_seamic (replicate 8 1) turned
    ≡ 0x45 ∷ 0x80 ∷ 0x22 ∷ 0x13 ∷ 0x04 ∷ 0 ∷ 0 ∷ 0 ∷ []
unfolding pad_copy_data
seamic_report = refl
