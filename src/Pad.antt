-- ===== src/Pad.antt =====
-- The wheels and other controllers of usb-pad/: `wheel_data_t`, the types of usb-pad.h, and the button
-- names. The axes of `wheel_data_t` are int32_t that the input backends keep at 0 or above.
pub mod Force
pub mod Effects
pub mod Stops
pub mod Overreads
pub mod Report
pub mod Fields
mod Tests
use usbqemu_wheel.Common.{ℕ, List, Bool}

-- `PS2WheelTypes`
pub data WheelType : Type 0 where
  generic : WheelType
  driving_force_pro : WheelType
  driving_force_pro_1102 : WheelType
  gt_force : WheelType
  rockband1_drumkit : WheelType
  buzz_controller : WheelType
  sega_seamic : WheelType
  keyboardmania_controller : WheelType

-- `wheel_data_t`, without the halves of the hat and the clutch, which no report has.
pub record WheelData : Type 0 where
  pub steering : ℕ
  pub buttons : ℕ
  pub hatswitch : ℕ
  pub throttle : ℕ
  pub brake : ℕ

-- `ff_data`: `params` are the five bytes of the union.
pub record FfData : Type 0 where
  pub cmdslot : ℕ
  pub kind : ℕ
  pub params : List ℕ

-- What ParseFFData uses of a `Pad`: whether `mFFdev` is there, and the slots of `mFFstate`.
pub record Pad : Type 0 where
  pub has_ffdev : Bool
  pub slot_type : List ℕ
  pub slot_force : List ℕ
