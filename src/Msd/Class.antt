-- ===== src/Msd/Class.antt =====
-- The requests of the class, and a packet that the host takes back.
use usbqemu_wheel.Common.{ℕ, Option, none, some, List, if◌then◌else◌, ◌==◌, set}
use usbqemu_wheel.Usb.Packet.{Packet, stall}
use usbqemu_wheel.Msd.State.{Msd, cbw_mode}

-- MassStorageReset and GetMaxLun, with their request types.
abbrev pub mass_storage_reset : ℕ
mass_storage_reset = 0x21ff

abbrev pub get_max_lun : ℕ
get_max_lun = 0xa1fe

-- What a request does to the device, to its packet and to the data of the request.
pub record Served (F : Type 0) : Type 0 where
  pub dev : Msd F
  pub packet : Packet
  pub bytes : List ℕ

module _ {F : Type 0} where
  -- `usb_msd_handle_control`. `desc` is `usb_desc_handle_control`, with `none` for a negative result.
  unfoldable pub handle_control :
      (Packet → ℕ → ℕ → ℕ → ℕ → List ℕ → Option (Packet × List ℕ))
      → Msd F
      → Packet
      → ℕ
      → ℕ
      → ℕ
      → ℕ
      → List ℕ
      → Served F
  handle_control desc s p request value index len bytes =
      elim (desc p request value index len bytes) [
        | some r ↦ record { dev = s; packet = r.0; bytes = r.1 }
        | none ↦
            if request == mass_storage_reset
            then record { dev = record s { mode = cbw_mode }; packet = p; bytes = bytes }
            else if request == get_max_lun
            then record { dev = s; packet = record p { actual_length = 1 }; bytes = set bytes 0 0 }
            else record { dev = s; packet = record p { status = stall }; bytes = bytes }
      ]

  -- `usb_msd_cancel_io`, with the assertion that the packet is the one that waits.
  unfoldable pub cancel_io : Msd F → Packet → Option (Msd F)
  cancel_io s p = elim s.packet [
    | none ↦ none
    | some q ↦ if q.id == p.id then some (record s { packet = none }) else none
  ]
