-- ===== src/Hid.antt =====
-- The keyboard of qemu-usb/hid.cpp: its queue of scan codes, the keys that are held down, and the
-- reports. `keycode` is a code of the queue, of which bit 7 marks a release. A failed assertion is `none`.
mod Queue
mod Poll
mod Tests
use usbqemu_wheel.Common.{
  ℕ, zero, suc, ◌+◌, ◌-◌, ◌%◌, ◌^◌, min, Bool, true, false, not, ◌&&◌, ◌||◌, Option, none, some,
  List, [], ◌∷◌, ◌++◌, ltb, leb, ◌==◌, if◌then◌else◌, length, get_or, set, replicate, take, bit,
  bit_or, bit_xor, clear,
}

-- QUEUE_LENGTH
abbrev pub queue_length : ℕ
queue_length = 16

-- `HIDState` and `HIDKeyboardState` of a keyboard.
pub record Keyboard : Type 0 where
  pub head : ℕ
  pub n : ℕ
  pub keycodes : List ℕ
  pub modifiers : ℕ
  pub key : List ℕ
  pub keys : ℕ
  pub leds : ℕ
  pub protocol : ℕ
  pub idle : ℕ
  pub idle_pending : Bool

-- `hid_usage_keys`
abbrev pub hid_usage_keys : List ℕ
hid_usage_keys =
    0x00 ∷ 0x29 ∷ 0x1e ∷ 0x1f ∷ 0x20 ∷ 0x21 ∷ 0x22 ∷ 0x23 ∷ 0x24 ∷ 0x25 ∷ 0x26 ∷ 0x27 ∷ 0x2d ∷ 0x2e
    ∷ 0x2a ∷ 0x2b ∷ 0x14 ∷ 0x1a ∷ 0x08 ∷ 0x15 ∷ 0x17 ∷ 0x1c ∷ 0x18 ∷ 0x0c ∷ 0x12 ∷ 0x13 ∷ 0x2f
    ∷ 0x30 ∷ 0x28 ∷ 0xe0 ∷ 0x04 ∷ 0x16 ∷ 0x07 ∷ 0x09 ∷ 0x0a ∷ 0x0b ∷ 0x0d ∷ 0x0e ∷ 0x0f ∷ 0x33
    ∷ 0x34 ∷ 0x35 ∷ 0xe1 ∷ 0x31 ∷ 0x1d ∷ 0x1b ∷ 0x06 ∷ 0x19 ∷ 0x05 ∷ 0x11 ∷ 0x10 ∷ 0x36 ∷ 0x37
    ∷ 0x38 ∷ 0xe5 ∷ 0x55 ∷ 0xe2 ∷ 0x2c ∷ 0x39 ∷ 0x3a ∷ 0x3b ∷ 0x3c ∷ 0x3d ∷ 0x3e ∷ 0x3f ∷ 0x40
    ∷ 0x41 ∷ 0x42 ∷ 0x43 ∷ 0x53 ∷ 0x47 ∷ 0x5f ∷ 0x60 ∷ 0x61 ∷ 0x56 ∷ 0x5c ∷ 0x5d ∷ 0x5e ∷ 0x57
    ∷ 0x59 ∷ 0x5a ∷ 0x5b ∷ 0x62 ∷ 0x63 ∷ 0x46 ∷ 0x00 ∷ 0x64 ∷ 0x44 ∷ 0x45 ∷ 0x68 ∷ 0x69 ∷ 0x6a
    ∷ 0x6b ∷ 0x6c ∷ 0x6d ∷ 0x6e ∷ 0xe8 ∷ 0xe9 ∷ 0x71 ∷ 0x72 ∷ 0x73 ∷ 0x00 ∷ 0x00 ∷ 0x00 ∷ 0x00
    ∷ 0x00 ∷ 0x00 ∷ 0x85 ∷ 0x00 ∷ 0x00 ∷ 0x00 ∷ 0x00 ∷ 0x00 ∷ 0x00 ∷ 0x00 ∷ 0x00 ∷ 0x00 ∷ 0x00
    ∷ 0x00 ∷ 0x00 ∷ 0x00 ∷ 0x00 ∷ 0x00 ∷ 0x00 ∷ 0x00 ∷ 0xe3 ∷ 0xe7 ∷ 0x65 ∷ 0x00 ∷ 0x00 ∷ 0x00
    ∷ 0x00 ∷ 0x00 ∷ 0x00 ∷ 0x00 ∷ 0x00 ∷ 0x00 ∷ 0x00 ∷ 0x00 ∷ 0x00 ∷ 0x00 ∷ 0x00 ∷ 0x00 ∷ 0x00
    ∷ 0x00 ∷ 0x00 ∷ 0x00 ∷ 0x00 ∷ 0x00 ∷ 0x00 ∷ 0x00 ∷ 0x00 ∷ 0x00 ∷ 0x00 ∷ 0x00 ∷ 0x00 ∷ 0x58
    ∷ 0xe4 ∷ 0x00 ∷ 0x00 ∷ 0x7f ∷ 0x00 ∷ 0x00 ∷ 0x00 ∷ 0x00 ∷ 0x00 ∷ 0x00 ∷ 0x00 ∷ 0x00 ∷ 0x00
    ∷ 0x00 ∷ 0x00 ∷ 0x00 ∷ 0x00 ∷ 0x81 ∷ 0x00 ∷ 0x80 ∷ 0x00 ∷ 0x00 ∷ 0x00 ∷ 0x00 ∷ 0x54 ∷ 0x00
    ∷ 0x46 ∷ 0xe6 ∷ 0x00 ∷ 0x00 ∷ 0x00 ∷ 0x00 ∷ 0x00 ∷ 0x00 ∷ 0x00 ∷ 0x00 ∷ 0x00 ∷ 0x00 ∷ 0x00
    ∷ 0x00 ∷ 0x48 ∷ 0x48 ∷ 0x4a ∷ 0x52 ∷ 0x4b ∷ 0x00 ∷ 0x50 ∷ 0x00 ∷ 0x4f ∷ 0x00 ∷ 0x4d ∷ 0x51
    ∷ 0x4e ∷ 0x49 ∷ 0x4c ∷ 0x00 ∷ 0x00 ∷ 0x00 ∷ 0x00 ∷ 0x00 ∷ 0x00 ∷ 0x00 ∷ 0xe3 ∷ 0xe7 ∷ 0x65
    ∷ 0x66 ∷ 0x00 ∷ 0x00 ∷ 0x00 ∷ 0x00 ∷ 0x00 ∷ 0x00 ∷ 0x00 ∷ 0x00 ∷ 0x00 ∷ 0x00 ∷ 0x00 ∷ 0x00
    ∷ 0x00 ∷ 0x00 ∷ 0x00 ∷ 0x00 ∷ 0x00 ∷ 0x00 ∷ 0x00 ∷ 0x00 ∷ 0x00 ∷ 0x00 ∷ 0x00 ∷ 0x00 ∷ 0x00
    ∷ 0x00 ∷ 0x00 ∷ 0x00 ∷ 0x00 ∷ 0x00 ∷ 0x00 ∷ 0x00 ∷ 0x00 ∷ []

-- HID_USAGE_ERROR_ROLLOVER
abbrev pub rollover : ℕ
rollover = 1

-- `hid_has_events`
unfoldable pub hid_has_events : Keyboard → Bool
hid_has_events k = not (k.n == 0) || k.idle_pending

-- The scan codes go to the end of the queue.
unfoldable pub append_scancodes : Keyboard → List ℕ → Keyboard
append_scancodes k [] = k
append_scancodes k (c ∷ cs) =
    append_scancodes
      (record k { keycodes = set k.keycodes ((k.head + k.n) % queue_length) c; n = k.n + 1 }) cs

-- `hid_keyboard_event`, with the scan codes that the key map gives for the event: the keyboard, and
-- whether the device is told of it.
unfoldable pub hid_keyboard_event : Keyboard → List ℕ → Keyboard × Bool
unfolding append_scancodes
hid_keyboard_event k scancodes =
    if ltb queue_length (k.n + length scancodes)
    then (k, false)
    else (append_scancodes k scancodes, true)

-- The first scan code, if there is one.
unfoldable pub dequeue : Keyboard → Option (ℕ × Keyboard)
dequeue k =
    if k.n == 0
    then none
    else some (
      get_or k.keycodes (k.head % queue_length) 0,
      record k { head = (k.head + 1) % queue_length; n = k.n - 1 },
    )

-- The place of a code among the first `n` keys, from the last one down.
unfoldable pub find_key : List ℕ → ℕ → ℕ → Option ℕ
find_key key zero code = none
find_key key (suc i) code =
    let rest = find_key key i code in if get_or key i 0 == code then some i else rest

-- A key that is released: the last one takes its place.
unfoldable pub release : Keyboard → ℕ → Keyboard
unfolding find_key
release k code = elim (find_key k.key k.keys code) [
  | none ↦ k
  | some i ↦ record k {
    key = set (set k.key i (get_or k.key (k.keys - 1) 0)) (k.keys - 1) 0;
    keys = k.keys - 1;
  }
]

-- A key that is pressed.
unfoldable pub press : Keyboard → ℕ → Keyboard
unfolding find_key
press k code = elim (find_key k.key k.keys code) [
  | none ↦ if ltb k.keys 16 then record k { key = set k.key k.keys code; keys = k.keys + 1 } else k
  | some i ↦ k
]

-- A modifier, or one of the two prefixes.
unfoldable pub modify : Keyboard → ℕ → ℕ → Keyboard
modify k hid_code keycode =
    if leb hid_code 0xe7 && bit keycode 7
    then record k { modifiers = clear k.modifiers (2 ^ (hid_code % 16)) }
    else record k { modifiers = bit_or k.modifiers (2 ^ (hid_code % 16)) }

-- A scan code that was taken from the queue.
unfoldable pub apply_code : Keyboard → ℕ → Option Keyboard
unfolding release press modify
apply_code k keycode =
    let low = keycode % 2 ^ 7 in
    let hid_code = get_or hid_usage_keys (if bit k.modifiers 8 then low + 2 ^ 7 else low) 0 in
    let k1 = record k { modifiers = clear k.modifiers (2 ^ 8) } in
    if hid_code == 0
    then some k1
    else if hid_code == 0xe0 && not (low == 0x1d)
    then none
    else if hid_code == 0xe0 && bit k1.modifiers 9
    then some (record k1 { modifiers = bit_xor k1.modifiers (2 ^ 8 + 2 ^ 9) })
    else if leb 0xe0 hid_code && leb hid_code 0xe9
    then some (modify k1 hid_code keycode)
    else some (if bit keycode 7 then release k1 hid_code else press k1 hid_code)

-- `hid_keyboard_process_keycode`
unfoldable pub hid_keyboard_process_keycode : Keyboard → Option Keyboard
unfolding dequeue apply_code
hid_keyboard_process_keycode k = elim (dequeue k) [
  | none ↦ some k
  | some (keycode, k') ↦ apply_code k' keycode
]

-- What is put into the report.
unfoldable pub report : Keyboard → ℕ → List ℕ
report k len =
    let n = min 8 len - 2 in
    (k.modifiers % 256) ∷ 0 ∷ (if ltb 6 k.keys then replicate n rollover else take n k.key)

-- `hid_keyboard_poll`: the report and the keyboard.
unfoldable pub hid_keyboard_poll : Keyboard → ℕ → Option (List ℕ × Keyboard)
unfolding hid_keyboard_process_keycode report
hid_keyboard_poll k len =
    let k1 = record k { idle_pending = false } in
    let served : Option (List ℕ × Keyboard) = elim (hid_keyboard_process_keycode k1) [
      | none ↦ none
      | some k2 ↦ some (report k2 len, k2)
    ] in
    if ltb len 2 then some ([], k1) else served

-- `hid_keyboard_write`: only the lights are stored.
unfoldable pub hid_keyboard_write : Keyboard → List ℕ → Keyboard
hid_keyboard_write k [] = k
hid_keyboard_write k (x ∷ buf) = record k { leds = x }

-- `hid_reset` of a keyboard
unfoldable pub hid_reset : Keyboard → Keyboard
hid_reset k = record k {
  keycodes = replicate queue_length 0;
  key = replicate 16 0;
  keys = 0;
  modifiers = 0;
  head = 0;
  n = 0;
  protocol = 1;
  idle = 0;
  idle_pending = false;
}
