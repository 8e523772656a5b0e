-- ===== src/Desc/Requests/Interfaces.antt =====
-- SET_INTERFACE and GET_INTERFACE.
use usbqemu_wheel.Common.{
  ℕ, ◌%◌, ◌<◌, ◌≡◌, ap, ◌∙◌, some, [], ◌∷◌, if◌then◌else◌, arith, lt→ltb, if_when,
}
use usbqemu_wheel.Desc.{DescIface, ◌>>=◌}
use usbqemu_wheel.Desc.Device.{DeviceDesc, Configured, nth, usb_desc_find_interface}
use usbqemu_wheel.Desc.Device.Tables.{IsTidy, nth-set_self}
use usbqemu_wheel.Desc.Device.Settings.{Selected, usb_desc_set_interface_lem}
use usbqemu_wheel.Desc.Requests.{refused, done, replies, usb_desc_handle_control}

-- SET_INTERFACE for an interface below the number of interfaces of the configuration, with an
-- alternate setting that the configuration has, is accepted by a device of which all tables
-- have their sizes and all interfaces their endpoints. GET_INTERFACE then answers with the
-- setting (its low byte). The interface stands in its place, all other settings and interfaces,
-- the configuration and the address are as they were, and the tables and interfaces are again
-- whole.
pub set_interface-get_interface :
    (desc : DeviceDesc) (dev : Configured) (index value v len l : ℕ) (iface : DescIface)
    → IsTidy dev
    → index < dev.ninterfaces
    → usb_desc_find_interface dev index value ≡ some iface
    → (dev' : Configured) × (usb_desc_handle_control desc dev 0x010b value index len
        ≡ some (done dev'))
      × (usb_desc_handle_control desc dev' 0x810a v index l
          ≡ some (replies dev' ((value % 256) ∷ [])))
      × Selected dev index value iface dev'
unfolding usb_desc_handle_control
set_interface-get_interface desc dev index value v len l iface t h e =
    let (dev', r, s) =
      usb_desc_set_interface_lem dev index value iface t (omega (arith, t.few)) e in
    let here : nth dev'.altsetting index ≡ some value =
      ap (λ a. nth a index) s.alts
      ∙ nth-set_self dev.altsetting index value (omega (arith, t.alts_size, t.few)) in
    (
      dev',
      ap (λ o. o >>= λ r. some (if r.0 then done r.1 else refused r.1)) r,
      if_when (λ o. o ≡ some (replies dev' ((value % 256) ∷ []))) (some (refused dev'))
          (lt→ltb index dev'.ninterfaces (omega (arith, s.ninterfaces)))
          (ap (λ o. o >>= λ a. some (replies dev' ((a % 256) ∷ []))) here),
      s,
    )
