-- ===== src/Desc/Tests.antt =====
-- Runs of the descriptors: a keyboard with an audio endpoint.
use usbqemu_wheel.Common.{
  ◌+◌, ◌≡◌, refl, min, true, false, none, some, [], ◌∷◌, ◌++◌, ltb, if◌then◌else◌, length, take,
  replicate, arith, ◌%◌,
}
use Prim.{tt}
use usbqemu_wheel.Usb.Endpoint.{invalid_type}
use usbqemu_wheel.Desc.{DescEndpoint, DescIface, DescConfig, DescDevice, usb_desc_config}
use usbqemu_wheel.Desc.Fits.{config_bytes, usb_desc_config_lem}
use usbqemu_wheel.Desc.Parse.{usb_desc_parse_config, usb_desc_parse_dev}
use usbqemu_wheel.Desc.Parse.Back.{usb_desc_parse_config-back}
use usbqemu_wheel.Desc.Device.{
  DeviceDesc, Configured, TableEntry, nth, usb_desc_find_interface, usb_desc_set_config,
}
use usbqemu_wheel.Desc.Device.Tables.{IsTidy}
use usbqemu_wheel.Desc.Device.Settings.{Selected}
use usbqemu_wheel.Desc.Requests.{refused, done, replies, usb_desc_handle_control, usb_desc_string}
use usbqemu_wheel.Desc.Requests.Sent.{get_config_lem}
use usbqemu_wheel.Desc.Requests.Interfaces.{set_interface-get_interface}

abbrev plain_endpoint : DescEndpoint
plain_endpoint = record {
  b_endpoint_address = 0x81;
  bm_attributes = 3;
  w_max_packet_size = 8;
  b_interval = 10;
  b_refresh = 0;
  b_synch_address = 0;
  is_audio = false;
  extra = none;
  b_max_burst = 0;
  bm_attributes_super = 0;
  w_bytes_per_interval = 0;
}

abbrev audio_endpoint : DescEndpoint
audio_endpoint = record plain_endpoint {
  b_endpoint_address = 0x02;
  bm_attributes = 9;
  w_max_packet_size = 0x64;
  is_audio = true;
  extra = some (7 ∷ 0x25 ∷ 1 ∷ 1 ∷ 0 ∷ 0 ∷ 0 ∷ []);
}

abbrev keys : DescIface
keys = record {
  b_interface_number = 0;
  b_alternate_setting = 0;
  b_num_endpoints = 1;
  b_interface_class = 3;
  b_interface_sub_class = 1;
  b_interface_protocol = 1;
  i_interface = 0;
  descs = record { size = 9; bytes = 9 ∷ 0x21 ∷ 0x11 ∷ 1 ∷ 0 ∷ 1 ∷ 0x22 ∷ 0x3f ∷ 0 ∷ [] } ∷ [];
  eps = plain_endpoint ∷ [];
}

abbrev sound : DescIface
sound = record keys {
  b_interface_number = 1;
  b_alternate_setting = 1;
  b_interface_class = 1;
  descs = [];
  eps = audio_endpoint ∷ [];
}

abbrev keyboard : DescConfig
keyboard = record {
  b_num_interfaces = 2;
  b_configuration_value = 1;
  i_configuration = 0;
  bm_attributes = 0xa0;
  b_max_power = 50;
  if_groups = [];
  ifs = keys ∷ sound ∷ [];
}

abbrev keyboard_dev : DescDevice
keyboard_dev = record {
  bcd_usb = 0x110;
  b_device_class = 0;
  b_device_sub_class = 0;
  b_device_protocol = 0;
  b_max_packet_size_0 = 8;
  b_num_configurations = 1;
  confs = keyboard ∷ [];
}

abbrev keyboard_desc : DeviceDesc
keyboard_desc = record {
  id = record {
    id_vendor = 0x627;
    id_product = 1;
    bcd_device = 0;
    i_manufacturer = 1;
    i_product = 2;
    i_serial_number = 0;
  };
  full = keyboard_dev;
  high = none;
  super = none;
  str = none ∷ some (0x41 ∷ 0x42 ∷ []) ∷ [];
}

abbrev empty_entry : TableEntry
empty_entry = record {
  endpoint = record {
    nr = 0;
    type = invalid_type;
    max_packet_size = 0;
    max_streams = 0;
    pipeline = false;
    halted = false;
    queue = [];
  };
  ifnum = 255;
}

abbrev fresh : Configured
fresh = record {
  addr = 0;
  msos = false;
  remote_wakeup = false;
  device = keyboard_dev;
  configuration = 1;
  ninterfaces = 2;
  config = some keyboard;
  altsetting = replicate 16 0;
  ifaces = some keys ∷ replicate 15 none;
  calls = [];
  ep_ctl = empty_entry;
  ep_in = replicate 15 empty_entry;
  ep_out = replicate 15 empty_entry;
}

-- A string is sent in UTF-16.
a_string : usb_desc_string keyboard_desc 1 1024 ≡ some (6 ∷ 3 ∷ 0x41 ∷ 0 ∷ 0x42 ∷ 0 ∷ [])
unfolding usb_desc_string
a_string = refl

-- The device descriptor is parsed back.
parsed_device :
    usb_desc_parse_dev
      (0x12 ∷ 1 ∷ 0x10 ∷ 1 ∷ 0 ∷ 0 ∷ 0 ∷ 8 ∷ 0x27 ∷ 6 ∷ 1 ∷ 0 ∷ 0 ∷ 0 ∷ 1 ∷ 2 ∷ 0 ∷ 1 ∷ [])
      0x12
      keyboard_dev
    ≡ some (keyboard_desc.id, keyboard_dev)
unfolding usb_desc_parse_dev
parsed_device = refl

-- A configuration that the device does not have is accepted all the same, and nothing is selected.
unknown_configuration :
    usb_desc_set_config (record fresh { configuration = 0; ninterfaces = 0; config = none }) 7
    ≡ some (record fresh {
      configuration = 0;
      ninterfaces = 0;
      config = none;
      ifaces = replicate 16 none;
    })
unfolding usb_desc_set_config
unknown_configuration = refl

usb_desc_config_lem_example : usb_desc_config false keyboard 1024 ≡ (
    if ltb 1024 (length (config_bytes false keyboard))
    then none
    else some (config_bytes false keyboard))
usb_desc_config_lem_example = usb_desc_config_lem false keyboard 1024 (omega arith)

get_config_lem_example :
    usb_desc_handle_control keyboard_desc fresh 0x8006 (0x0200 + 0) 0 9
    ≡ some (
        if ltb 1024 (length (config_bytes false keyboard))
        then refused fresh
        else replies fresh
            (take (min 9 (length (config_bytes false keyboard))) (config_bytes false keyboard)))
unfolding nth
get_config_lem_example =
    get_config_lem keyboard_desc fresh 0 0 9 keyboard (omega arith) (omega arith) refl (omega arith)

parse_back_example :
    (c' : DescConfig) × (usb_desc_parse_config (config_bytes false keyboard) keyboard_dev
      ≡ some (
        record keyboard_dev { confs = (keyboard ∷ []) ++ (c' ∷ []) },
        length (config_bytes false keyboard),
      ))
    × (config_bytes false c' ≡ config_bytes false keyboard)
parse_back_example = usb_desc_parse_config-back keyboard keyboard_dev (record {
  no_groups = refl;
  plain = (
    (
      (record { whole = omega arith; own_size = refl; room = omega arith; kind = refl }, tt),
      (tt, tt),
    ),
    ((tt, ((omega arith, omega arith), tt)), tt),
  );
})

fresh-IsTidy : IsTidy fresh
fresh-IsTidy = record {
  alts_size = refl;
  ifaces_size = refl;
  few = omega arith;
  in_size = refl;
  out_size = refl;
  ifaces_whole = omega arith;
  config_whole = omega arith;
}

set_interface-get_interface_example :
    (dev' : Configured) × (usb_desc_handle_control keyboard_desc fresh 0x010b 1 1 0
      ≡ some (done dev'))
    × (usb_desc_handle_control keyboard_desc dev' 0x810a 0 1 1
        ≡ some (replies dev' ((1 % 256) ∷ [])))
    × Selected fresh 1 1 sound dev'
unfolding usb_desc_find_interface
set_interface-get_interface_example =
    set_interface-get_interface keyboard_desc fresh 1 1 0 0 1 sound fresh-IsTidy (omega arith) refl
