-- ===== src/Pad/Force.antt =====
-- The forces of usb-pad-ff.cpp and lg/lg_ff.cpp: the commands' bytes as the values of an `FFDevice`.
-- Its calls are values of `Call`. A coefficient that is read outside of its table is `none`.
use usbqemu_wheel.Common.{
  ℕ, zero, suc, ◌+◌, ◌-◌, ◌*◌, ◌/◌, ◌%◌, ◌^◌, bit_or, Option, none, some, List, [], ◌∷◌, ltb, leb,
  ◌==◌, if◌then◌else◌, get_or, bit,
}

-- `negsuc n` is -(n + 1).
pub data ℤ : Type 0 where
  pos : ℕ → ℤ
  negsuc : ℕ → ℤ

-- a - b
abbrev pub sub_ℕ : ℕ → ℕ → ℤ
sub_ℕ a b = if leb b a then pos (a - b) else negsuc (b - a - 1)

-- An int whose low 16 bits are `x`, as an int16_t.
abbrev pub int16 : ℕ → ℤ
int16 x = if ltb (x % 2 ^ 16) (2 ^ 15) then pos (x % 2 ^ 16) else sub_ℕ (x % 2 ^ 16) (2 ^ 16)

-- The `condition` of `parsed_ff_data`.
pub record Condition : Type 0 where
  pub center : ℤ
  pub deadband : ℤ
  pub left_coeff : ℤ
  pub right_coeff : ℤ
  pub left_saturation : ℕ
  pub right_saturation : ℕ

-- `EffectID`, of which no command uses the rumble.
pub data EffectId : Type 0 where
  eff_constant : EffectId
  eff_spring : EffectId
  eff_damper : EffectId
  eff_friction : EffectId

-- The methods of `FFDevice`.
pub data Call : Type 0 where
  device_constant_force : ℤ → Call
  device_spring_force : Condition → Call
  device_damper_force : Condition → Call
  device_friction_force : Condition → Call
  device_auto_center : ℕ → Call
  disable_force : EffectId → Call

-- `ff_lg_u8_to_s16`
unfoldable pub ff_lg_u8_to_s16 : ℕ → ℤ
ff_lg_u8_to_s16 c =
    if ltb c 128 then sub_ℕ 0 ((127 - c) * 32767 / 127) else pos ((c - 128) * 32767 / 127)

-- `ff_lg_u8_to_u16`
unfoldable pub ff_lg_u8_to_u16 : ℕ → ℕ
ff_lg_u8_to_u16 c = c * 65535 / 255

-- `ff_lg_u16_to_s16`
unfoldable pub ff_lg_u16_to_s16 : ℕ → ℤ
ff_lg_u16_to_s16 s = if ltb s 32768 then sub_ℕ (s + 1) 32768 else pos (s - 32768)

-- The two tables of ff_lg_get_force_coefficient, and their entries.
abbrev pub old_coefs : List (ℕ × ℕ)
old_coefs = (1, 16) ∷ (1, 8) ∷ (3, 16) ∷ (1, 4) ∷ (3, 8) ∷ (3, 4) ∷ (2, 4) ∷ (4, 4) ∷ []

abbrev pub coefs : List (ℕ × ℕ)
coefs = (1, 16) ∷ (1, 8) ∷ (3, 16) ∷ (1, 4) ∷ (3, 8) ∷ (2, 4) ∷ (3, 4) ∷ (4, 4) ∷ []

abbrev pub coef_at : List (ℕ × ℕ) → ℕ → Option (ℕ × ℕ)
coef_at [] k = none
coef_at (c ∷ cs) zero = some c
coef_at (c ∷ cs) (suc k) = coef_at cs k

-- `ff_lg_get_force_coefficient`: the numerator and the denominator.
unfoldable pub ff_lg_get_force_coefficient : ℕ → ℕ → Option (ℕ × ℕ)
ff_lg_get_force_coefficient caps k =
    if bit caps 0 then some (k, 15) else if bit caps 1 then coef_at old_coefs k else coef_at coefs k

-- The slope as an int16_t: the value of the division without its sign, and its sign.
unfoldable pub slope : ℕ → ℕ → ℤ
slope value s = int16 (if s == 0 then value else 2 ^ 32 - value)

-- `ff_lg_get_condition_coef`
unfoldable pub ff_lg_get_condition_coef : ℕ → ℕ → ℕ → Option ℤ
unfolding ff_lg_get_force_coefficient slope
ff_lg_get_condition_coef caps k s = elim (ff_lg_get_force_coefficient caps k) [
  | none ↦ none
  | some (num, den) ↦ some (slope (32767 * num / den) s)
]

-- `ff_lg_get_spring_deadband`
unfoldable pub ff_lg_get_spring_deadband : ℕ → ℕ → ℕ → ℕ
ff_lg_get_spring_deadband caps d low =
    if bit caps 2 then bit_or (d * 2 ^ 3) low * 65535 / 0x7ff % 2 ^ 16 else d * 65535 / 255 % 2 ^ 16

-- `ff_lg_get_damper_clip`
unfoldable pub ff_lg_get_damper_clip : ℕ → ℕ → ℕ
ff_lg_get_damper_clip caps c = if bit caps 3 then c * 65535 / 255 % 2 ^ 16 else 65535

-- `SetConstantForce`: the int becomes a uint8_t.
unfoldable pub set_constant_force : ℕ → Call
unfolding ff_lg_u8_to_s16
set_constant_force force = device_constant_force (ff_lg_u8_to_s16 (force % 2 ^ 8))

-- The center and the dead band of a spring.
unfoldable pub spring_band : ℕ → ℕ → ℕ → ℕ → ℕ → ℤ × ℤ
unfolding ff_lg_get_spring_deadband ff_lg_u16_to_s16 ff_lg_u8_to_s16 ff_lg_u8_to_u16
spring_band caps dead1 dead2 s1 s2 =
    let d2 = ff_lg_get_spring_deadband caps dead2 (s2 / 2 % 8) in
    let d1 = ff_lg_get_spring_deadband caps dead1 (s1 / 2 % 8) in
    if bit caps 2 then (ff_lg_u16_to_s16 ((d1 + d2) / 2), sub_ℕ d2 d1) else (
      ff_lg_u8_to_s16 ((dead1 + dead2) / 2),
      pos (ff_lg_u8_to_u16 ((2 ^ 8 + dead2 - dead1) % 2 ^ 8)),
    )

-- `SetSpringForce`, with the fields of `spring` in the bytes of the command.
unfoldable pub set_spring_force : List ℕ → ℕ → Option Call
unfolding ff_lg_get_condition_coef spring_band ff_lg_u8_to_u16
set_spring_force params caps =
    let ks = get_or params 2 0 in
    let ss = get_or params 3 0 in
    let clip = ff_lg_u8_to_u16 (get_or params 4 0) in
    let band = spring_band caps (get_or params 0 0) (get_or params 1 0) (ss % 16) (ss / 16) in
    elim (ff_lg_get_condition_coef caps (ks % 16) (ss % 16)) [
      | none ↦ none
      | some left ↦ elim (ff_lg_get_condition_coef caps (ks / 16) (ss / 16)) [
        | none ↦ none
        | some right ↦ some (
            device_spring_force (record {
              center = band.0;
              deadband = band.1;
              left_coeff = left;
              right_coeff = right;
              left_saturation = clip;
              right_saturation = clip;
            }))
      ]
    ]

-- `SetDamperForce`, with the fields of `damper` in the bytes of the command.
unfoldable pub set_damper_force : List ℕ → ℕ → Option Call
unfolding ff_lg_get_condition_coef ff_lg_get_damper_clip
set_damper_force params caps =
    let clip = ff_lg_get_damper_clip caps (get_or params 4 0) in
    elim (ff_lg_get_condition_coef caps (get_or params 0 0) (get_or params 1 0)) [
      | none ↦ none
      | some left ↦ elim (ff_lg_get_condition_coef caps (get_or params 2 0) (get_or params 3 0)) [
        | none ↦ none
        | some right ↦ some (
            device_damper_force (record {
              center = pos 0;
              deadband = pos 0;
              left_coeff = left;
              right_coeff = right;
              left_saturation = clip;
              right_saturation = clip;
            }))
      ]
    ]

-- `SetFrictionForce`, with the fields of `friction` in the bytes of the command.
unfoldable pub set_friction_force : List ℕ → Call
set_friction_force params =
    let ss = get_or params 3 0 in
    let left = get_or params 0 0 * 0x7fff / 255 in
    let right = get_or params 1 0 * 0x7fff / 255 in
    let saturation = 0x7fff * get_or params 2 0 / 255 in
    device_friction_force (record {
      center = pos 0;
      deadband = pos 0;
      left_coeff = if bit ss 0 then sub_ℕ 0 left else pos left;
      right_coeff = if bit (ss / 16) 0 then sub_ℕ 0 right else pos right;
      left_saturation = saturation;
      right_saturation = saturation;
    })

-- `SetAutoCenter`, with the fields of `autocenter` in the bytes of the command.
unfoldable pub set_auto_center : List ℕ → Call
set_auto_center params =
    device_auto_center (get_or params 0 0 * get_or params 2 0 / 255 * 100 / 255)
