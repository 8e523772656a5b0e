-- ===== src/Desc.antt =====
-- The descriptors of a device, qemu-usb/desc.h, and the functions of qemu-usb/desc.cpp that write them.
-- A writer returns the bytes that it puts at `dest`, whose number is the result in the source, and `none`
-- for a negative result. `len`, the room at `dest`, is below 2^16 (the callers have 1024 bytes).
pub mod Fits
pub mod Parse
pub mod Device
pub mod Requests
mod Tests
use usbqemu_wheel.Common.{
  ℕ, zero, suc, ◌+◌, ◌-◌, ◌*◌, ◌/◌, ◌%◌, ◌^◌, Bool, true, false, ◌&&◌, Option, none, some, List, [],
  ◌∷◌, ◌++◌, ltb, ◌==◌, if◌then◌else◌, length, get_or, take,
}

-- `USBDescID`
pub record DescId : Type 0 where
  pub id_vendor : ℕ
  pub id_product : ℕ
  pub bcd_device : ℕ
  pub i_manufacturer : ℕ
  pub i_product : ℕ
  pub i_serial_number : ℕ

-- `USBDescEndpoint`
pub record DescEndpoint : Type 0 where
  pub b_endpoint_address : ℕ
  pub bm_attributes : ℕ
  pub w_max_packet_size : ℕ
  pub b_interval : ℕ
  pub b_refresh : ℕ
  pub b_synch_address : ℕ
  pub is_audio : Bool
  pub extra : Option (List ℕ)
  pub b_max_burst : ℕ
  pub bm_attributes_super : ℕ
  pub w_bytes_per_interval : ℕ

-- `USBDescOther`: `data` may go on behind the descriptor.
pub record DescOther : Type 0 where
  pub size : ℕ
  pub bytes : List ℕ

-- `USBDescIface`
pub record DescIface : Type 0 where
  pub b_interface_number : ℕ
  pub b_alternate_setting : ℕ
  pub b_num_endpoints : ℕ
  pub b_interface_class : ℕ
  pub b_interface_sub_class : ℕ
  pub b_interface_protocol : ℕ
  pub i_interface : ℕ
  pub descs : List DescOther
  pub eps : List DescEndpoint

-- `USBDescIfaceAssoc`
pub record DescIfaceAssoc : Type 0 where
  pub b_first_interface : ℕ
  pub b_interface_count : ℕ
  pub b_function_class : ℕ
  pub b_function_sub_class : ℕ
  pub b_function_protocol : ℕ
  pub i_function : ℕ
  pub ifs : List DescIface

-- `USBDescConfig`
pub record DescConfig : Type 0 where
  pub b_num_interfaces : ℕ
  pub b_configuration_value : ℕ
  pub i_configuration : ℕ
  pub bm_attributes : ℕ
  pub b_max_power : ℕ
  pub if_groups : List DescIfaceAssoc
  pub ifs : List DescIface

-- `USBDescDevice`
pub record DescDevice : Type 0 where
  pub bcd_usb : ℕ
  pub b_device_class : ℕ
  pub b_device_sub_class : ℕ
  pub b_device_protocol : ℕ
  pub b_max_packet_size_0 : ℕ
  pub b_num_configurations : ℕ
  pub confs : List DescConfig

-- `usb_lo` and `usb_hi`
abbrev pub usb_lo : ℕ → ℕ
usb_lo val = val % 256

abbrev pub usb_hi : ℕ → ℕ
usb_hi val = val / 256 % 256

-- The result, or nothing: what `do` needs.
infixl 5 ◌>>=◌
abbrev pub ◌>>=◌ : {A B : Type 0} → Option A → (A → Option B) → Option B
none >>= f = none
some a >>= f = f a

-- What a writer puts at `dest` if `need` bytes of room are there.
abbrev pub fit : ℕ → ℕ → List ℕ → Option (List ℕ)
fit need len bytes = if ltb len need then none else some bytes

-- `usb_desc_device`
unfoldable pub usb_desc_device : DescId → DescDevice → Bool → ℕ → Option (List ℕ)
usb_desc_device id dev msos len =
    let bcd : ℕ = if msos && ltb dev.bcd_usb 0x0200 then 0x0200 else dev.bcd_usb in
    fit 0x12 len (
      0x12
      ∷ 0x01
      ∷ usb_lo bcd
      ∷ usb_hi bcd
      ∷ dev.b_device_class
      ∷ dev.b_device_sub_class
      ∷ dev.b_device_protocol
      ∷ dev.b_max_packet_size_0
      ∷ usb_lo id.id_vendor
      ∷ usb_hi id.id_vendor
      ∷ usb_lo id.id_product
      ∷ usb_hi id.id_product
      ∷ usb_lo id.bcd_device
      ∷ usb_hi id.bcd_device
      ∷ id.i_manufacturer
      ∷ id.i_product
      ∷ id.i_serial_number
      ∷ dev.b_num_configurations
      ∷ [])

-- `usb_desc_device_qualifier`
unfoldable pub usb_desc_device_qualifier : DescDevice → ℕ → Option (List ℕ)
usb_desc_device_qualifier dev len = fit 0x0a len (
    0x0a
    ∷ 0x06
    ∷ usb_lo dev.bcd_usb
    ∷ usb_hi dev.bcd_usb
    ∷ dev.b_device_class
    ∷ dev.b_device_sub_class
    ∷ dev.b_device_protocol
    ∷ dev.b_max_packet_size_0
    ∷ dev.b_num_configurations
    ∷ 0
    ∷ [])

-- `usb_desc_other`
unfoldable pub usb_desc_other : DescOther → ℕ → Option (List ℕ)
usb_desc_other desc len =
    let b_length : ℕ = if desc.size == 0 then get_or desc.bytes 0 0 else desc.size in
    fit b_length len (take b_length desc.bytes)

-- `extra[0]`, or nothing.
unfoldable pub extralen : Option (List ℕ) → ℕ
extralen none = 0
extralen (some x) = get_or x 0 0

unfoldable pub extra_bytes : Option (List ℕ) → List ℕ
unfolding extralen
extra_bytes none = []
extra_bytes (some x) = take (extralen (some x)) x

-- The endpoint companion, if `flags` has USB_DESC_FLAG_SUPER.
unfoldable pub companion : Bool → DescEndpoint → List ℕ
companion super ep =
    if super
    then 0x06
      ∷ 0x30
      ∷ ep.b_max_burst
      ∷ ep.bm_attributes_super
      ∷ usb_lo ep.w_bytes_per_interval
      ∷ usb_hi ep.w_bytes_per_interval
      ∷ []
    else []

-- `usb_desc_endpoint`
unfoldable pub usb_desc_endpoint : Bool → DescEndpoint → ℕ → Option (List ℕ)
unfolding extralen extra_bytes companion
usb_desc_endpoint super ep len =
    let b_length : ℕ = if ep.is_audio then 0x09 else 0x07 in
    let superlen : ℕ = if super then 0x06 else 0 in
    fit (b_length + extralen ep.extra + superlen) len (
      (b_length
        ∷ 0x05
        ∷ ep.b_endpoint_address
        ∷ ep.bm_attributes
        ∷ usb_lo ep.w_max_packet_size
        ∷ usb_hi ep.w_max_packet_size
        ∷ ep.b_interval
        ∷ [])
      ++ ((if ep.is_audio then ep.b_refresh ∷ ep.b_synch_address ∷ [] else [])
          ++ (companion super ep ++ extra_bytes ep.extra)))

-- A loop over a vector of parts, each of them written behind the one before.
unfoldable pub each : {A : Type 0} → (A → ℕ → Option (List ℕ)) → List A → ℕ → Option (List ℕ)
each f [] len = some []
each f (x ∷ xs) len = f x len >>= λ b. each f xs (len - length b) >>= λ c. some (b ++ c)

-- `usb_desc_iface`
unfoldable pub usb_desc_iface : Bool → DescIface → ℕ → Option (List ℕ)
unfolding each usb_desc_other usb_desc_endpoint
usb_desc_iface super iface len = do
  head ← fit 0x09 len (
      0x09 ∷ 0x04 ∷ iface.b_interface_number ∷ iface.b_alternate_setting ∷ iface.b_num_endpoints
      ∷ iface.b_interface_class ∷ iface.b_interface_sub_class ∷ iface.b_interface_protocol
      ∷ iface.i_interface ∷ [])
  descs ← each usb_desc_other iface.descs (len - 0x09)
  eps ← each (usb_desc_endpoint super) iface.eps (len - 0x09 - length descs)
  some (head ++ (descs ++ eps))

-- `usb_desc_iface_group`
unfoldable pub usb_desc_iface_group : Bool → DescIfaceAssoc → ℕ → Option (List ℕ)
unfolding each usb_desc_iface
usb_desc_iface_group super iad len = do
  head ← fit 0x08 len (
      0x08 ∷ 0x0b ∷ iad.b_first_interface ∷ iad.b_interface_count ∷ iad.b_function_class
      ∷ iad.b_function_sub_class ∷ iad.b_function_protocol ∷ iad.i_function ∷ [])
  ifs ← each (usb_desc_iface super) iad.ifs (len - 0x08)
  some (head ++ ifs)

-- `usb_desc_config`
unfoldable pub usb_desc_config : Bool → DescConfig → ℕ → Option (List ℕ)
unfolding each usb_desc_iface_group usb_desc_iface
usb_desc_config super conf len = do
  first ← fit 0x09 len (0x09 ∷ 0x02 ∷ [])
  groups ← each (usb_desc_iface_group super) conf.if_groups (len - 0x09)
  ifs ← each (usb_desc_iface super) conf.ifs (len - 0x09 - length groups)
  let total = 0x09 + length groups + length ifs
  some (
      first
      ++ ((usb_lo total
            ∷ usb_hi total
            ∷ conf.b_num_interfaces
            ∷ conf.b_configuration_value
            ∷ conf.i_configuration
            ∷ conf.bm_attributes
            ∷ conf.b_max_power
            ∷ [])
          ++ (groups ++ ifs)))
