-- ===== src/Desc/Requests/Sent.antt =====
-- The answer to GET_DESCRIPTOR for a configuration.
use usbqemu_wheel.Common.{
  ℕ, ◌+◌, ◌/◌, ◌%◌, ◌<◌, ◌≡◌, sym, ap, ◌∙◌, min, inl, inr, Bool, false, Option, none, some, List,
  ltb, leb, ◌==◌, if◌then◌else◌, length, take, arith, Bool-cases, lt→ltb, if_when, if_unless, ==_ne,
  ==_iff,
}
use usbqemu_wheel.Desc.{DescConfig, ◌>>=◌, usb_desc_config}
use usbqemu_wheel.Desc.Fits.{config_bytes, IsWholeConfig, usb_desc_config_lem}
use usbqemu_wheel.Desc.Device.{DeviceDesc, Configured, nth}
use usbqemu_wheel.Desc.Requests.{
  Answer, refused, done, replies, descriptor_bytes, usb_desc_get_descriptor,
  usb_desc_handle_control,
}

config_size : (super : Bool) (c : DescConfig) → (length (config_bytes super c) == 0) ≡ false
unfolding config_bytes
config_size super c = ==_ne (length (config_bytes super c)) 0 (omega arith)

descriptor_bytes-config :
    (desc : DeviceDesc) (dev : Configured) (index : ℕ) (c : DescConfig)
    → index < 256
    → index < dev.device.b_num_configurations
    → nth dev.device.confs index ≡ some c
    → descriptor_bytes desc dev (0x0200 + index)
      ≡ usb_desc_config (leb 0x0300 dev.device.bcd_usb) c 1024
unfolding descriptor_bytes
descriptor_bytes-config desc dev index c h lt e =
    let v : ℕ = 0x0200 + index in
    let super : Bool = leb 0x0300 dev.device.bcd_usb in
    let P : Option (List ℕ) → Type 0 = λ o. o ≡ usb_desc_config super c 1024 in
    let kind : v / 256 % 256 ≡ 2 = omega arith in
    let low : v % 256 ≡ index = omega arith in
    if_unless P _ (==_ne (v / 256 % 256) 1 (omega arith)) (
      if_when P _ ((==_iff (v / 256 % 256) 2).1 kind) (
        if_when P none (lt→ltb (v % 256) dev.device.b_num_configurations (omega arith))
          (ap (λ o. o >>= λ c. usb_desc_config super c 1024) (ap (nth dev.device.confs) low ∙ e))))

-- GET_DESCRIPTOR for a configuration of the device, the parts of which are as long as they say,
-- is answered with the bytes of the configuration, cut to the length that is asked for. A
-- configuration of more than 1024 bytes is refused. The device stays as it is.
pub get_config_lem :
    (desc : DeviceDesc) (dev : Configured) (index i len : ℕ) (c : DescConfig)
    → index < 256
    → index < dev.device.b_num_configurations
    → nth dev.device.confs index ≡ some c
    → IsWholeConfig c
    → let b : List ℕ = config_bytes (leb 0x0300 dev.device.bcd_usb) c in
      usb_desc_handle_control desc dev 0x8006 (0x0200 + index) i len
      ≡ some
          (if ltb 1024 (length b) then refused dev else replies dev (take (min len (length b)) b))
unfolding usb_desc_handle_control usb_desc_get_descriptor
get_config_lem desc dev index i len c h lt e w =
    let b : List ℕ = config_bytes (leb 0x0300 dev.device.bcd_usb) c in
    let reply : Option (List ℕ) → Answer = λ o. elim o as (λ o. Answer) [
      | none ↦ refused dev
      | some l ↦ if length l == 0 then done dev else replies dev (take (min len (length l)) l)
    ] in
    let written =
      descriptor_bytes-config desc dev index c h lt e
      ∙ usb_desc_config_lem (leb 0x0300 dev.device.bcd_usb) c 1024 w in
    let good : Answer = replies dev (take (min len (length b)) b) in
    elim (Bool-cases (ltb 1024 (length b))) [
      | inl long ↦
          ap (λ o. some (reply o)) (written ∙ ap (λ t. if t then none else some b) long)
          ∙ sym (ap (λ t. some (if t then refused dev else good)) long)
      | inr short ↦
          ap (λ o. some (reply o)) (written ∙ ap (λ t. if t then none else some b) short)
          ∙ ap (λ t. some (if t then done dev else good))
              (config_size (leb 0x0300 dev.device.bcd_usb) c)
          ∙ sym (ap (λ t. some (if t then refused dev else good)) short)
    ]
