-- ===== src/Usb/Device.antt =====
-- `USBDevice` (qemu-usb/qusb.h) as the ports of a host controller see it, and the first part of
-- qemu-usb/core.cpp. What only the device's class uses is in `rest`, and the class's callbacks are
-- parameters. A device is its port's: `dev->port` and `port->dev` always point at one another.
use usbqemu_wheel.Common.{ℕ, Bool, true, false, ◌&&◌, if◌then◌else◌, bit, ◌==◌}

-- The codes USB_STATE_NOTATTACHED, USB_STATE_ATTACHED, USB_STATE_DEFAULT and USB_STATE_SUSPENDED.
pub data DeviceState : Type 0 where
  not_attached attached_state default_state suspended : DeviceState

-- The codes USB_SPEED_LOW and USB_SPEED_FULL, as bit numbers of a speed mask.
abbrev pub speed_low : ℕ
speed_low = 0

abbrev pub speed_full : ℕ
speed_full = 1

pub record Device (D : Type 0) : Type 0 where
  pub speed : ℕ
  pub speedmask : ℕ
  pub addr : ℕ
  pub attached : Bool
  pub state : DeviceState
  pub remote_wakeup : Bool
  pub rest : D

-- The callbacks of `USBDeviceClass` that the core calls here.
pub record Class (D : Type 0) : Type 0 where
  pub handle_attach : D → D
  pub handle_reset : D → D
  pub cancel_packet : D → D

-- `dev->state == USB_STATE_DEFAULT`
unfoldable pub is_default : DeviceState → Bool
is_default default_state = true
is_default _ = false

-- `dev->state == USB_STATE_NOTATTACHED`
unfoldable pub is_not_attached : DeviceState → Bool
is_not_attached not_attached = true
is_not_attached _ = false

module _ {D : Type 0} where
  -- `usb_pick_speed`, for a port with the given `speedmask`: the first speed that both sides know.
  unfoldable pub usb_pick_speed : ℕ → Device D → Device D
  usb_pick_speed mask d =
      if bit d.speedmask speed_full && bit mask speed_full
      then record d { speed = speed_full }
      else if bit d.speedmask speed_low && bit mask speed_low
      then record d { speed = speed_low }
      else d

  -- `usb_device_reset` of a device that is there.
  unfoldable pub usb_device_reset : Class D → Device D → Device D
  usb_device_reset k d =
      if d.attached
      then record d {
        remote_wakeup = false;
        addr = 0;
        state = default_state;
        rest = k.handle_reset d.rest;
      }
      else d

  -- `usb_find_device`: no class of the program has a `find_device`, so it answers for itself alone.
  unfoldable pub answers : Device D → ℕ → Bool
  unfolding is_default
  answers d addr = d.attached && is_default d.state && d.addr == addr
