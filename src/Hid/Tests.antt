-- ===== src/Hid/Tests.antt =====
-- Runs of the keyboard: a key that is pressed, and the report of it.
use usbqemu_wheel.Common.{
  ℕ, ◌≤◌, ◌≡◌, refl, Bool, true, false, Option, some, List, [], ◌∷◌, ◌++◌, replicate, take, length,
  min, drop, arith,
}
use usbqemu_wheel.Hid.{Keyboard, hid_keyboard_event, hid_keyboard_poll, report}
use usbqemu_wheel.Hid.Queue.{IsKeyboard, pending, IsQueued, hid_keyboard_event-IsQueued}
use usbqemu_wheel.Hid.Poll.{hid_keyboard_poll-serves}

-- The press and the release of the key A wait, behind the place where the queue wraps around.
abbrev waiting : Keyboard
waiting = record {
  head = 15;
  n = 2;
  keycodes = 0x9e ∷ (replicate 14 0 ++ (0x1e ∷ []));
  modifiers = 0;
  key = replicate 16 0;
  keys = 0;
  leds = 0;
  protocol = 1;
  idle = 0;
  idle_pending = false;
}

waiting-IsKeyboard : IsKeyboard waiting
waiting-IsKeyboard = record {
  codes_size = refl;
  key_size = refl;
  head_in = omega arith;
  n_in = omega arith;
  keys_in = omega arith;
}

press_report :
    hid_keyboard_poll waiting 8
    ≡ some (
      0 ∷ 0 ∷ 0x04 ∷ 0 ∷ 0 ∷ 0 ∷ 0 ∷ 0 ∷ [],
      record waiting { head = 0; n = 1; key = 0x04 ∷ replicate 15 0; keys = 1 },
    )
unfolding hid_keyboard_poll usbqemu_wheel.Common.bit usbqemu_wheel.Common.clear
press_report = refl

hid_keyboard_event-IsQueued_example :
    IsQueued waiting
      (0x2a ∷ [])
      (hid_keyboard_event waiting (0x2a ∷ [])).0
      (hid_keyboard_event waiting (0x2a ∷ [])).1
hid_keyboard_event-IsQueued_example =
    hid_keyboard_event-IsQueued waiting (0x2a ∷ []) waiting-IsKeyboard

hid_keyboard_poll-serves_example :
    (k' : Keyboard) × (hid_keyboard_poll waiting 8 ≡ some (report k' 8, k'))
    × IsKeyboard k'
    × (pending k' ≡ drop 1 (pending waiting))
    × (length (report k' 8) ≡ min 8 8)
hid_keyboard_poll-serves_example =
    hid_keyboard_poll-serves waiting 8 waiting-IsKeyboard (omega arith)
