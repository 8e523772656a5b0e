-- ===== src/Desc/Requests.antt =====
-- The standard requests, qemu-usb/desc.cpp: strings, GET_DESCRIPTOR and usb_desc_handle_control.
pub mod Sent
pub mod Interfaces
use usbqemu_wheel.Common.{
  ℕ, zero, suc, ◌+◌, ◌-◌, ◌*◌, ◌/◌, ◌%◌, ◌^◌, min, Bool, true, false, not, ◌&&◌, ◌||◌, Option, none,
  some, List, [], ◌∷◌, ◌++◌, ltb, leb, ◌==◌, if◌then◌else◌, length, get_or, set, take, bit,
}
use usbqemu_wheel.Desc.{
  DescConfig, DescDevice, ◌>>=◌, fit, usb_lo, usb_hi, usb_desc_device, usb_desc_device_qualifier,
  usb_desc_config,
}
use usbqemu_wheel.Desc.Device.{
  DeviceDesc, Configured, nth, usb_desc_set_config, usb_desc_set_interface,
}

-- `usb_desc_cap_usb2_ext`
unfoldable pub usb_desc_cap_usb2_ext : ℕ → Option (List ℕ)
usb_desc_cap_usb2_ext len = fit 0x07 len (0x07 ∷ 0x10 ∷ 0x02 ∷ 2 ∷ 0 ∷ 0 ∷ 0 ∷ [])

abbrev pub is_set : Option DescDevice → Bool
is_set none = false
is_set (some d) = true

-- `usb_desc_cap_super`; `full` is always there.
unfoldable pub usb_desc_cap_super : DeviceDesc → ℕ → Option (List ℕ)
usb_desc_cap_super desc len =
    let speeds : ℕ =
      2 + (if is_set desc.high then 4 else 0) + (if is_set desc.super then 8 else 0) in
    fit 0x0a len (0x0a ∷ 0x10 ∷ 0x03 ∷ 0 ∷ speeds ∷ 0 ∷ 1 ∷ 0x0a ∷ 0x20 ∷ 0 ∷ [])

-- `usb_desc_bos`
unfoldable pub usb_desc_bos : DeviceDesc → ℕ → Option (List ℕ)
unfolding usb_desc_cap_usb2_ext usb_desc_cap_super
usb_desc_bos desc len = do
  first ← fit 0x05 len (0x05 ∷ 0x0f ∷ [])
  ext ← (if is_set desc.high then usb_desc_cap_usb2_ext (len - 0x05) else some [])
  super ← (if is_set desc.super then usb_desc_cap_super desc (len - 0x05 - length ext) else some [])
  let total = 0x05 + length ext + length super
  let caps : ℕ = (if is_set desc.high then 1 else 0) + (if is_set desc.super then 1 else 0)
  some (first ++ ((usb_lo total ∷ usb_hi total ∷ caps ∷ []) ++ (ext ++ super)))

-- The loop of `usb_desc_string`, from `pos` on.
unfoldable pub string_loop : List ℕ → ℕ → ℕ → ℕ → List ℕ
string_loop [] pos b_length len = []
string_loop (c ∷ cs) pos b_length len =
    let rest = string_loop cs (pos + 2) b_length len in
    if ltb (pos + 1) b_length && ltb (pos + 1) len then c ∷ 0 ∷ rest else []

-- `usb_desc_string`: `bLength` has 8 bits, and a missing string gives no bytes. An index behind the array, which the
-- source does not exclude, is a failure here.
unfoldable pub usb_desc_string : DeviceDesc → ℕ → ℕ → Option (List ℕ)
unfolding string_loop nth
usb_desc_string desc index len =
    if ltb len 4
    then none
    else if index == 0
    then some (4 ∷ 0x03 ∷ 0x09 ∷ 0x04 ∷ [])
    else nth desc.str index >>= λ o. elim o as (λ o. Option (List ℕ)) [
      | none ↦ some []
      | some s ↦
          let b_length = (length s * 2 + 2) % 256 in
          some (b_length ∷ 0x03 ∷ string_loop s 2 b_length len)
    ]

-- The switch of `usb_desc_get_descriptor`: what stands in `buf`, and `none` for a negative `ret`. An index behind
-- the configurations that were parsed, which the source does not exclude, counts as one behind their number.
unfoldable pub descriptor_bytes : DeviceDesc → Configured → ℕ → Option (List ℕ)
descriptor_bytes desc dev value =
    let type : ℕ = value / 256 % 256 in
    let index : ℕ = value % 256 in
    let super : Bool = leb 0x0300 dev.device.bcd_usb in
    let config = λ (d : DescDevice).
      if ltb index d.b_num_configurations
      then (nth d.confs index >>= λ c. usb_desc_config super c 1024)
      else none in
    if type == 0x01
    then usb_desc_device desc.id dev.device dev.msos 1024
    else if type == 0x02
    then config dev.device
    else if type == 0x03
    then usb_desc_string desc index 1024
    else if type == 0x06
    then (desc.high >>= λ d. usb_desc_device_qualifier d 1024)
    else if type == 0x07
    then ((desc.high >>= config) >>= λ b. some (set b 1 0x07))
    else if type == 0x0f
    then usb_desc_bos desc 1024
    else none

-- What a request leaves: the device, whether it was accepted, and the bytes at `data` if `actual_length` was set.
pub record Answer : Type 0 where
  pub device : Configured
  pub accepted : Bool
  pub answer : Option (List ℕ)

abbrev pub refused : Configured → Answer
refused dev = record { device = dev; accepted = false; answer = none }

abbrev pub done : Configured → Answer
done dev = record { device = dev; accepted = true; answer = none }

abbrev pub replies : Configured → List ℕ → Answer
replies dev bytes = record { device = dev; accepted = true; answer = some bytes }

-- `usb_desc_get_descriptor`
unfoldable pub usb_desc_get_descriptor : DeviceDesc → Configured → ℕ → ℕ → Answer
usb_desc_get_descriptor desc dev value len =
    elim (descriptor_bytes desc dev value) as (λ o. Answer) [
      | none ↦ refused dev
      | some b ↦ if length b == 0 then done dev else replies dev (take (min len (length b)) b)
    ]

-- GET_STATUS
unfoldable pub get_status : Configured → Option Answer
unfolding nth
get_status dev = do
  c ← elim dev.config as (λ o. Option DescConfig) [
    | none ↦ nth dev.device.confs 0
    | some c ↦ some c
  ]
  some (
      replies dev (
        ((if bit c.bm_attributes 6 then 1 else 0) + (if dev.remote_wakeup then 2 else 0)) ∷ 0 ∷ []))

-- `usb_desc_handle_control`
unfoldable pub usb_desc_handle_control : DeviceDesc → Configured → ℕ → ℕ → ℕ → ℕ → Option Answer
usb_desc_handle_control desc dev request value index len =
    if request == 0x0005
    then some (done (record dev { addr = value % 256 }))
    else if request == 0x8006
    then some (usb_desc_get_descriptor desc dev value len)
    else if request == 0x8008
    then some (
        replies dev
          (elim dev.config as (λ o. ℕ) [ none ↦ 0 | some c ↦ c.b_configuration_value ] ∷ []))
    else if request == 0x0009
    then (usb_desc_set_config dev value >>= λ d. some (done d))
    else if request == 0x8000
    then get_status dev
    else if request == 0x0001
    then some (if value == 1 then done (record dev { remote_wakeup = false }) else refused dev)
    else if request == 0x0003
    then some (if value == 1 then done (record dev { remote_wakeup = true }) else refused dev)
    else if request == 0x810a
    then (if ltb index dev.ninterfaces
        then (nth dev.altsetting index >>= λ a. some (replies dev ((a % 256) ∷ [])))
        else some (refused dev))
    else if request == 0x010b
    then (usb_desc_set_interface dev index value >>= λ r.
        some (if r.0 then done r.1 else refused r.1))
    else some (refused dev)
