-- ===== src/Desc/Device.antt =====
-- The configuration of a device, qemu-usb/desc.cpp from `usb_desc_ep_init` on, and the endpoint tables of
-- qemu-usb/core.cpp. A read out of range and a failed assertion are `none`. Pointers into the descriptors
-- are the descriptors themselves.
pub mod Tables
pub mod Settings
use usbqemu_wheel.Common.{
  ℕ, zero, suc, ◌+◌, ◌-◌, ◌*◌, ◌/◌, ◌%◌, ◌^◌, min, Bool, true, false, not, ◌&&◌, ◌||◌, Option, none,
  some, List, [], ◌∷◌, ◌++◌, ltb, leb, ◌==◌, if◌then◌else◌, length, get_or, set, take, drop,
  replicate, bit,
}
use usbqemu_wheel.Usb.Endpoint.{
  Endpoint, TransferType, control_type, isoc_type, bulk_type, int_type, invalid_type,
  usb_ep_set_max_packet_size, usb_ep_set_max_streams,
}
use usbqemu_wheel.Desc.{
  DescId, DescEndpoint, DescIface, DescIfaceAssoc, DescConfig, DescDevice, ◌>>=◌, fit, usb_lo,
  usb_hi, usb_desc_device, usb_desc_device_qualifier, usb_desc_config,
}

-- `USBDesc`: `high` and `super` are set by no class of the program, and `str` holds the strings.
pub record DeviceDesc : Type 0 where
  pub id : DescId
  pub full : DescDevice
  pub high : Option DescDevice
  pub super : Option DescDevice
  pub str : List (Option (List ℕ))

-- An endpoint in the table, with its `ifnum`.
pub record TableEntry : Type 0 where
  pub endpoint : Endpoint
  pub ifnum : ℕ

-- The part of `USBDevice` that the descriptors govern. USB_DEV_FLAG_MSOS_DESC_IN_USE is `msos`, and `calls` holds
-- the arguments with which `set_interface` of the class has been called.
pub record Configured : Type 0 where
  pub addr : ℕ
  pub msos : Bool
  pub remote_wakeup : Bool
  pub device : DescDevice
  pub configuration : ℕ
  pub ninterfaces : ℕ
  pub config : Option DescConfig
  pub altsetting : List ℕ
  pub ifaces : List (Option DescIface)
  pub calls : List (ℕ × ℕ × ℕ)
  pub ep_ctl : TableEntry
  pub ep_in : List TableEntry
  pub ep_out : List TableEntry

-- USB_MAX_INTERFACES and USB_INTERFACE_INVALID.
abbrev pub max_interfaces : ℕ
max_interfaces = 16

abbrev pub interface_invalid : ℕ
interface_invalid = 255

-- An element of an array, or a fault.
unfoldable pub nth : {A : Type 0} → List A → ℕ → Option A
nth [] i = none
nth (x ∷ xs) zero = some x
nth (x ∷ xs) (suc i) = nth xs i

-- What `usb_ep_reset` and `usb_ep_init` do to an entry and to a table of them.
unfoldable pub reset_entry : ℕ → TransferType → ℕ → ℕ → TableEntry → TableEntry
reset_entry nr type ifnum mps e = record {
  endpoint = record (e.endpoint) {
    nr = nr;
    type = type;
    max_packet_size = mps;
    max_streams = 0;
    pipeline = false;
    queue = [];
  };
  ifnum = ifnum;
}

unfoldable pub reset_table : ℕ → List TableEntry → List TableEntry
unfolding reset_entry
reset_table nr [] = []
reset_table nr (e ∷ es) =
    reset_entry nr invalid_type interface_invalid 0 e ∷ reset_table (nr + 1) es

-- `usb_ep_init`
unfoldable pub usb_ep_init : Configured → Configured
unfolding reset_table reset_entry
usb_ep_init dev = record dev {
  ep_ctl = reset_entry 0 control_type 0 64 dev.ep_ctl;
  ep_in = reset_table 1 dev.ep_in;
  ep_out = reset_table 1 dev.ep_out;
}

-- The change of an entry through `usb_ep_get`, for the IN table or the OUT table and a number up to 15.
unfoldable pub on_ep : Bool → ℕ → (TableEntry → TableEntry) → Configured → Option Configured
unfolding nth
on_ep is_in ep f dev =
    if ep == 0
    then some (record dev { ep_ctl = f dev.ep_ctl })
    else if is_in
    then (nth dev.ep_in (ep - 1) >>= λ e.
        some (record dev { ep_in = set dev.ep_in (ep - 1) (f e) }))
    else nth dev.ep_out (ep - 1) >>= λ e.
        some (record dev { ep_out = set dev.ep_out (ep - 1) (f e) })

-- The type that `bmAttributes & 0x03` stands for.
abbrev pub transfer_type : ℕ → TransferType
transfer_type raw =
    if raw == 0
    then control_type
    else if raw == 1
    then isoc_type
    else if raw == 2
    then bulk_type
    else int_type

-- What an endpoint descriptor of an interface sets in the entry.
unfoldable pub set_entry : ℕ → DescEndpoint → TableEntry → TableEntry
set_entry ifnum d e =
    let typed = record (e.endpoint) { type = transfer_type (d.bm_attributes % 4) } in
    record {
      endpoint =
          usb_ep_set_max_streams (usb_ep_set_max_packet_size typed d.w_max_packet_size)
            d.bm_attributes_super;
      ifnum = ifnum;
    }

-- The inner loop of `usb_desc_ep_init`, for the endpoints of an interface from `e` on.
unfoldable pub init_eps : ℕ → ℕ → DescIface → Configured → Option Configured
unfolding on_ep set_entry nth
init_eps zero e iface dev = some dev
init_eps (suc n) e iface dev = do
  d ← nth iface.eps e
  dev' ←
      on_ep (bit d.b_endpoint_address 7) (d.b_endpoint_address % 16)
        (set_entry iface.b_interface_number d) dev
  init_eps n (e + 1) iface dev'

-- The outer loop, for `n` interfaces from `i` on.
unfoldable pub init_ifaces : ℕ → ℕ → Configured → Option Configured
unfolding init_eps nth
init_ifaces zero i dev = some dev
init_ifaces (suc n) i dev = nth dev.ifaces i >>= λ o. elim o as (λ o. Option Configured) [
  | none ↦ init_ifaces n (i + 1) dev
  | some iface ↦ init_eps iface.b_num_endpoints 0 iface dev >>= λ dev'. init_ifaces n (i + 1) dev'
]

-- `usb_desc_ep_init`
unfoldable pub usb_desc_ep_init : Configured → Option Configured
unfolding usb_ep_init init_ifaces
usb_desc_ep_init dev = init_ifaces dev.ninterfaces 0 (usb_ep_init dev)

-- The first interface of a list with the given number and alternate setting.
unfoldable pub find_in : List DescIface → ℕ → ℕ → Option DescIface
find_in [] nif alt = none
find_in (i ∷ is) nif alt =
    let rest = find_in is nif alt in
    if i.b_interface_number == nif && i.b_alternate_setting == alt then some i else rest

unfoldable pub find_in_groups : List DescIfaceAssoc → ℕ → ℕ → Option DescIface
unfolding find_in
find_in_groups [] nif alt = none
find_in_groups (g ∷ gs) nif alt = elim (find_in g.ifs nif alt) [
  | none ↦ find_in_groups gs nif alt
  | some i ↦ some i
]

-- `usb_desc_find_interface`
unfoldable pub usb_desc_find_interface : Configured → ℕ → ℕ → Option DescIface
unfolding find_in find_in_groups
usb_desc_find_interface dev nif alt = dev.config >>= λ c.
    elim (find_in_groups c.if_groups nif alt) [ none ↦ find_in c.ifs nif alt | some i ↦ some i ]

-- `usb_desc_set_interface`: whether there is such an interface, and the device.
unfoldable pub usb_desc_set_interface : Configured → ℕ → ℕ → Option (Bool × Configured)
unfolding usb_desc_find_interface usb_desc_ep_init nth
usb_desc_set_interface dev index value = elim (usb_desc_find_interface dev index value) [
  | none ↦ some (false, dev)
  | some iface ↦ nth dev.altsetting index >>= λ old.
      usb_desc_ep_init (record dev {
        altsetting = set dev.altsetting index value;
        ifaces = set dev.ifaces index (some iface);
      })
      >>= λ dev'. some (
        true,
        if old == value
            then dev'
            else record dev' { calls = dev'.calls ++ ((index, old, value) ∷ []) },
      )
]

-- The loop of `usb_desc_set_config` over the configurations.
unfoldable pub select : ℕ → List DescConfig → Configured → Option Configured
select value [] dev = some dev
select value (c ∷ cs) dev =
    let taken : Option Configured =
      (if leb c.b_num_interfaces max_interfaces
        then select value cs (record dev {
          configuration = value;
          ninterfaces = c.b_num_interfaces;
          config = some c;
        })
        else none) in
    let passed = select value cs dev in if c.b_configuration_value == value then taken else passed

-- The loop over the interfaces from `i` on, of which the results are ignored.
unfoldable pub set_ifaces : ℕ → ℕ → Configured → Option Configured
unfolding usb_desc_set_interface
set_ifaces zero i dev = some dev
set_ifaces (suc n) i dev = usb_desc_set_interface dev i 0 >>= λ r. set_ifaces n (i + 1) r.1

-- `usb_desc_set_config`
unfoldable pub usb_desc_set_config : Configured → ℕ → Option Configured
unfolding select set_ifaces
usb_desc_set_config dev value = do
  dev1 ←
      (if value == 0
        then some (record dev { configuration = 0; ninterfaces = 0; config = none })
        else select value dev.device.confs dev)
  dev2 ← set_ifaces dev1.ninterfaces 0 dev1
  some (record dev2 {
    altsetting =
        take dev2.ninterfaces dev2.altsetting ++ replicate (max_interfaces - dev2.ninterfaces) 0;
    ifaces =
        take dev2.ninterfaces dev2.ifaces ++ replicate (max_interfaces - dev2.ninterfaces) none;
  })

-- `usb_desc_setdefaults`, of a low or full speed device.
unfoldable pub usb_desc_setdefaults : DeviceDesc → Configured → Option Configured
unfolding usb_desc_set_config
usb_desc_setdefaults desc dev = usb_desc_set_config (record dev { device = desc.full }) 0
