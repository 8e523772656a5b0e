-- ===== src/Pad/Effects.antt =====
-- `Pad::ParseFFData` of usb-pad-ff.cpp: the pad afterwards, with the calls of its `FFDevice` in their
-- order, or `none` where a coefficient is read outside of its table.
use usbqemu_wheel.Common.{
  ℕ, zero, suc, ◌+◌, ◌-◌, ◌/◌, ◌%◌, ◌^◌, min, Bool, not, ◌&&◌, Option, none, some, List, [], ◌∷◌,
  ◌++◌, ltb, ◌==◌, if◌then◌else◌, get_or, bit,
}
use usbqemu_wheel.Pad.{FfData, Pad}
use usbqemu_wheel.Pad.Force.{
  Call, device_auto_center, disable_force, eff_constant, eff_spring, eff_damper, eff_friction,
  set_constant_force, set_spring_force, set_damper_force, set_friction_force, set_auto_center,
}

-- The commands and the kinds of a force.
abbrev pub cmd_download : ℕ
cmd_download = 0x00

abbrev pub cmd_download_and_play : ℕ
cmd_download_and_play = 0x01

abbrev pub cmd_stop : ℕ
cmd_stop = 0x03

abbrev pub cmd_default_spring_off : ℕ
cmd_default_spring_off = 0x05

abbrev pub cmd_extended : ℕ
cmd_extended = 0xf8

abbrev pub ftype_constant : ℕ
ftype_constant = 0x00

abbrev pub ftype_spring : ℕ
ftype_spring = 0x01

abbrev pub ftype_damper : ℕ
ftype_damper = 0x02

abbrev pub ftype_auto_center_spring : ℕ
ftype_auto_center_spring = 0x03

abbrev pub ftype_variable : ℕ
ftype_variable = 0x08

abbrev pub ftype_high_resolution_spring : ℕ
ftype_high_resolution_spring = 0x0b

abbrev pub ftype_high_resolution_damper : ℕ
ftype_high_resolution_damper = 0x0c

abbrev pub ftype_friction : ℕ
ftype_friction = 0x0e

-- The kind of the force goes to each slot of the command; `i` is the slot of the list's head.
unfoldable pub store_type : ℕ → ℕ → ℕ → List ℕ → List ℕ
store_type slots kind i [] = []
store_type slots kind i (t ∷ ts) =
    (if bit slots i then kind else t) ∷ store_type slots kind (suc i) ts

-- The levels of constant forces go to the slots.
unfoldable pub store_force : ℕ → List ℕ → ℕ → List ℕ → List ℕ
store_force slots params i [] = []
store_force slots params i (f ∷ fs) =
    (if bit slots i then get_or params i 0 else f) ∷ store_force slots params (suc i) fs

-- The loop over four constant forces, where `sum` is `128 + force`, for the parameters that are left.
unfoldable pub add_forces : ℕ → ℕ → List ℕ → ℕ → ℕ
add_forces zero i params sum = sum
add_forces (suc n) i params sum =
    let t = get_or params i 0 in
    add_forces n (suc i) params (min (sum + (if ltb t 128 then t + 1 else t) - 128) 255)

-- The level of a force that is alone in its slot, for `n` slots from `i` on.
unfoldable pub lone_force : ℕ → ℕ → ℕ → List ℕ → List Call
lone_force zero i slots params = []
lone_force (suc n) i slots params =
    (if slots == 2 ^ i then set_constant_force (get_or params i 0) ∷ [] else [])
    ++ lone_force n (suc i) slots params

unfoldable pub play_constant : ℕ → List ℕ → List Call
unfolding add_forces lone_force
play_constant slots params =
    if slots == 0xf
    then set_constant_force (add_forces 4 0 params 128) ∷ []
    else lone_force 4 0 slots params

-- A variable force whose level stays, as a constant force: `level`, and its step and step duration.
unfoldable pub play_level : ℕ → ℕ → ℕ → List Call
play_level level step time =
    if not (time == 0) && not (step == 0) then [] else set_constant_force level ∷ []

unfoldable pub play_variable : ℕ → List ℕ → List Call
unfolding play_level
play_variable slots params =
    let one = get_or params 2 0 in
    let two = get_or params 3 0 in
    if bit slots 0
    then play_level (get_or params 0 0) (one % 16) (one / 16)
    else if bit slots 2
    then play_level (get_or params 1 0) (two % 16) (two / 16)
    else []

-- The calls of one force.
abbrev pub alone : Option Call → Option (List Call)
alone none = none
alone (some c) = some (c ∷ [])

-- The kinds of CMD_DOWNLOAD_AND_PLAY.
unfoldable pub play : ℕ → FfData → Bool → Option (List Call)
unfolding play_constant play_variable
play slots d is_dfp =
    if d.kind == ftype_constant
    then some (play_constant slots d.params)
    else if d.kind == ftype_spring
    then alone (set_spring_force d.params (if is_dfp then 0 else 2))
    else if d.kind == ftype_high_resolution_spring
    then alone (set_spring_force d.params 5)
    else if d.kind == ftype_variable
    then some (play_variable slots d.params)
    else if d.kind == ftype_friction
    then some (set_friction_force d.params ∷ [])
    else if d.kind == ftype_damper
    then alone (set_damper_force d.params 0)
    else if d.kind == ftype_high_resolution_damper
    then alone (set_damper_force d.params (if is_dfp then 9 else 1))
    else if d.kind == ftype_auto_center_spring
    then some (set_auto_center d.params ∷ [])
    else some []

-- What CMD_STOP does for a slot of this kind.
unfoldable pub stop_type : ℕ → List Call
stop_type kind =
    if kind == ftype_constant
    then disable_force eff_constant ∷ []
    else if kind == ftype_variable
    then disable_force eff_constant ∷ []
    else if kind == ftype_spring
    then disable_force eff_spring ∷ []
    else if kind == ftype_high_resolution_spring
    then disable_force eff_spring ∷ []
    else if kind == ftype_auto_center_spring
    then device_auto_center 0 ∷ []
    else if kind == ftype_friction
    then disable_force eff_friction ∷ []
    else if kind == ftype_damper
    then disable_force eff_damper ∷ []
    else if kind == ftype_high_resolution_damper
    then disable_force eff_damper ∷ []
    else []

-- The loop of CMD_STOP, where `i` is the slot of the list's head.
unfoldable pub stop_slots : ℕ → ℕ → List ℕ → List Call
stop_slots slots i [] = []
stop_slots slots i (t ∷ ts) =
    (if bit slots i then stop_type t else []) ++ stop_slots slots (suc i) ts

-- The pad after CMD_DOWNLOAD_AND_PLAY.
unfoldable pub load : Pad → ℕ → FfData → Pad
load p slots d = record p {
  slot_type = store_type slots d.kind 0 p.slot_type;
  slot_force =
      if d.kind == ftype_constant then store_force slots d.params 0 p.slot_force else p.slot_force;
}

abbrev pub and_pad : Pad → Option (List Call) → Option (Pad × List Call)
and_pad p none = none
and_pad p (some calls) = some (p, calls)

-- A command other than CMD_EXTENDED_CMD.
unfoldable pub run_command : Pad → FfData → Bool → Option (Pad × List Call)
unfolding load
run_command p d is_dfp =
    let slots = d.cmdslot / 16 % 16 in
    let command = d.cmdslot % 16 in
    if command == cmd_download
    then some (record p { slot_type = store_type slots d.kind 0 p.slot_type }, [])
    else if command == cmd_download_and_play
    then and_pad (load p slots d) (play slots d is_dfp)
    else if command == cmd_stop
    then some (p, stop_slots slots 0 p.slot_type)
    else if command == cmd_default_spring_off && slots == 0xf
    then some (p, set_constant_force 127 ∷ [])
    else some (p, [])

-- `Pad::ParseFFData`
unfoldable pub parse_ff_data : Pad → FfData → Bool → Option (Pad × List Call)
unfolding run_command
parse_ff_data p d is_dfp =
    if not p.has_ffdev
    then some (p, [])
    else if d.cmdslot == cmd_extended
    then some (p, [])
    else run_command p d is_dfp
