-- ===== src/Usb/Endpoint/Only.antt =====
-- `usb_packet_complete` of the only packet of an endpoint, as a host controller with one packet has it.
use usbqemu_wheel.Common.{false, List, [], ◌∷◌, ◌≡◌, ◌⊎◌}
use usbqemu_wheel.Usb.Packet.{Packet, in_async}
use usbqemu_wheel.Usb.Endpoint.{Endpoint}

-- Nothing is queued, or the device works on the first packet of an endpoint that is not halted.
abbrev pub IsSettled : Endpoint → Type 0
IsSettled e =
    (e.queue ≡ [])
    ⊎ ((p : Packet) × (ps : List Packet) × (e.queue ≡ p ∷ ps)
        × (p.state ≡ in_async)
        × (e.halted ≡ false))
