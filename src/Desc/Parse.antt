-- ===== src/Desc/Parse.antt =====
-- The parsers of qemu-usb/desc.cpp, over bytes. `data` is the list of the bytes from the current position on; a
-- read behind its end gives 0, which the source does not exclude. A result of -1 is `none`.
pub mod Rounds
pub mod Others
pub mod Endpoints
pub mod Back
use usbqemu_wheel.Common.{
  ℕ, zero, suc, ◌+◌, ◌-◌, ◌*◌, ◌/◌, ◌%◌, ◌^◌, Bool, true, false, not, ◌&&◌, ◌||◌, Option, none,
  some, List, [], ◌∷◌, ◌++◌, ltb, leb, ◌==◌, if◌then◌else◌, length, get_or, take, drop,
}
use usbqemu_wheel.Desc.{DescId, DescEndpoint, DescOther, DescIface, DescConfig, DescDevice}

-- `lo | (hi << 8)`
abbrev pub word : List ℕ → ℕ → ℕ
word d i = get_or d i 0 + 256 * get_or d (i + 1) 0

-- `usb_desc_parse_dev`: the id and the device, of which the configurations are kept.
unfoldable pub usb_desc_parse_dev : List ℕ → ℕ → DescDevice → Option (DescId × DescDevice)
usb_desc_parse_dev d len dev =
    if not (get_or d 0 0 == len) || not (get_or d 1 0 == 0x01)
    then none
    else some (
      record {
        id_vendor = word d 8;
        id_product = word d 10;
        bcd_device = word d 12;
        i_manufacturer = get_or d 14 0;
        i_product = get_or d 15 0;
        i_serial_number = get_or d 16 0;
      },
      record dev {
        bcd_usb = word d 2;
        b_device_class = get_or d 4 0;
        b_device_sub_class = get_or d 5 0;
        b_device_protocol = get_or d 6 0;
        b_max_packet_size_0 = get_or d 7 0;
        b_num_configurations = get_or d 17 0;
      },
    )

-- The variables of the loop: the configurations of the device, the index of the one that `config` points to, and
-- that of the one of which `iface` is the last interface.
pub record Parsed : Type 0 where
  pub confs : List DescConfig
  pub config : Option ℕ
  pub iface : Option ℕ

-- A change of the element at an index, and of the last element.
unfoldable pub at : {A : Type 0} → ℕ → (A → A) → List A → List A
at i f [] = []
at zero f (x ∷ xs) = f x ∷ xs
at (suc i) f (x ∷ xs) = x ∷ at i f xs

unfoldable pub on_last : {A : Type 0} → (A → A) → List A → List A
on_last f [] = []
on_last f (x ∷ []) = f x ∷ []
on_last f (x ∷ y ∷ xs) = x ∷ on_last f (y ∷ xs)

unfoldable pub on_iface : ℕ → (DescIface → DescIface) → List DescConfig → List DescConfig
unfolding at on_last
on_iface k f confs = at k (λ (c : DescConfig). record c { ifs = on_last f c.ifs }) confs

-- The case USB_DT_CONFIG
unfoldable pub read_config : List ℕ → DescConfig
read_config d = record {
  b_num_interfaces = get_or d 4 0;
  b_configuration_value = get_or d 5 0;
  i_configuration = get_or d 6 0;
  bm_attributes = get_or d 7 0;
  b_max_power = get_or d 8 0;
  if_groups = [];
  ifs = [];
}

-- The case USB_DT_INTERFACE
unfoldable pub read_iface : List ℕ → DescIface
read_iface d = record {
  b_interface_number = get_or d 2 0;
  b_alternate_setting = get_or d 3 0;
  b_num_endpoints = get_or d 4 0;
  b_interface_class = get_or d 5 0;
  b_interface_sub_class = get_or d 6 0;
  b_interface_protocol = get_or d 7 0;
  i_interface = get_or d 8 0;
  descs = [];
  eps = [];
}

-- The case USB_DT_ENDPOINT
unfoldable pub read_endpoint : List ℕ → DescEndpoint
read_endpoint d =
    let audio : Bool = get_or d 0 0 == 0x9 in
    record {
      b_endpoint_address = get_or d 2 0;
      bm_attributes = get_or d 3 0;
      w_max_packet_size = word d 4;
      b_interval = get_or d 6 0;
      b_refresh = if audio then get_or d 7 0 else 0;
      b_synch_address = if audio then get_or d 8 0 else 0;
      is_audio = audio;
      extra = if audio then some (drop 9 d) else none;
      b_max_burst = 0;
      bm_attributes_super = 0;
      w_bytes_per_interval = 0;
    }

-- The switch, with the bytes of `extra` that are passed over.
unfoldable pub read_item : List ℕ → Parsed → Option (Parsed × ℕ)
unfolding on_iface read_config read_iface read_endpoint at
read_item d s =
    let t : ℕ = get_or d 1 0 in
    let skip : ℕ = if get_or d 0 0 == 0x9 then get_or (drop 9 d) 0 0 else 0 in
    if t == 0x02
    then some
        (record s { confs = s.confs ++ (read_config d ∷ []); config = some (length s.confs) }, 0)
    else if t == 0x04
    then elim s.config [
      | none ↦ none
      | some k ↦ some (
        record s {
          confs =
              at k (λ (c : DescConfig). record c { ifs = c.ifs ++ (read_iface d ∷ []) }) s.confs;
          iface = some k;
        },
        0,
      )
    ]
    else if t == 0x05
    then elim s.iface [
      | none ↦ none
      | some k ↦ some (
        record s {
          confs =
              on_iface k (λ (i : DescIface). record i { eps = i.eps ++ (read_endpoint d ∷ []) })
                s.confs;
        },
        skip,
      )
    ]
    else if t == 0x21 || (t == 0x24 || t == 0x25)
    then elim s.iface [
      | none ↦ none
      | some k ↦ some (
        record s {
          confs =
              on_iface k
                (λ (i : DescIface). record i {
                  descs = i.descs ++ (record { size = get_or d 0 0; bytes = d } ∷ []);
                })
                s.confs;
        },
        0,
      )
    ]
    else if t == 0x00 || (t == 0x07 || t == 0x0a)
    then some (s, 0)
    else none

-- The loop, on fuel.
unfoldable pub parse_loop : ℕ → ℕ → List ℕ → Parsed → Option (Parsed × ℕ)
parse_loop zero pos d s = none
parse_loop (suc fuel) pos [] s = some (s, pos)
parse_loop (suc fuel) pos (n ∷ d) s =
    let next : Option (Parsed × ℕ) = elim (read_item (n ∷ d) s) [
      | none ↦ none
      | some (s', skip) ↦ parse_loop fuel (pos + n + skip) (drop (n + skip) (n ∷ d)) s'
    ] in
    if n == 0 then some (s, pos) else next

-- `usb_desc_parse_config` of all of `data`: the device with the configurations, and the position. Every round passes
-- over a byte, so that one round more than there are bytes is enough.
unfoldable pub usb_desc_parse_config : List ℕ → DescDevice → Option (DescDevice × ℕ)
unfolding parse_loop read_item
usb_desc_parse_config d dev =
    elim (parse_loop (suc (length d)) 0 d
      (record { confs = dev.confs; config = none; iface = none })) [
        | none ↦ none
        | some (s, pos) ↦ some (record dev { confs = s.confs }, pos)
      ]
