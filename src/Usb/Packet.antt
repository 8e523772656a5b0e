-- ===== src/Usb/Packet.antt =====
-- `USBPacket` (qemu-usb/qusb.h) and the operations on it of qemu-usb/core.cpp. The vector `iov` is
-- the list of its bytes, `iov.size` its length; `combined` is NULL in every packet, since nothing in
-- the program combines packets. A failed assertion and `abort` are `none`.
use usbqemu_wheel.Common.{
  ℕ, ◌+◌, Bool, true, false, Option, none, some, List, [], ◌++◌, leb, if◌then◌else◌, length, take,
  drop, replicate, write_at,
}

-- The codes USB_TOKEN_SETUP, USB_TOKEN_IN and USB_TOKEN_OUT, and any other.
pub data Token : Type 0 where
  token_setup token_in token_out : Token
  token_other : ℕ → Token

-- The codes USB_RET_SUCCESS (0) to USB_RET_REMOVE_FROM_QUEUE (-8).
pub data Status : Type 0 where
  success nodev nak stall babble ioerror async add_to_queue remove_from_queue : Status

-- `USBPacketState`.
pub data PacketState : Type 0 where
  undefined setup queued in_async complete canceled : PacketState

pub record Packet : Type 0 where
  pub pid : Token
  pub id : ℕ
  pub ep_nr : ℕ  -- `ep->nr`
  pub stream : ℕ
  pub iov : List ℕ
  pub parameter : ℕ
  pub short_not_ok : Bool
  pub int_req : Bool
  pub status : Status
  pub actual_length : ℕ
  pub state : PacketState

unfoldable pub is_inflight : Packet → Bool
is_inflight p = elim p.state [ queued ↦ true | in_async ↦ true | _ ↦ false ]

-- `usb_packet_setup`, with the assertion that the packet is not in flight.
unfoldable pub packet_setup : Packet → Token → ℕ → ℕ → ℕ → Bool → Bool → Option Packet
unfolding is_inflight
packet_setup p pid ep_nr stream id short_not_ok int_req =
    if is_inflight p
    then none
    else some (record {
      pid = pid;
      id = id;
      ep_nr = ep_nr;
      stream = stream;
      iov = [];
      parameter = 0;
      short_not_ok = short_not_ok;
      int_req = int_req;
      status = success;
      actual_length = 0;
      state = setup;
    })

-- `usb_packet_addbuf`.
unfoldable pub packet_addbuf : Packet → List ℕ → Packet
packet_addbuf p buf = record p { iov = p.iov ++ buf }

-- `usb_packet_copy(p, ptr + off, bytes)`: the packet and the memory at `ptr` afterwards.
unfoldable pub copy : Packet → List ℕ → ℕ → ℕ → Option (Packet × List ℕ)
copy p ptr off bytes =
    if leb (p.actual_length + bytes) (length p.iov)
    then elim p.pid [
      | token_in ↦ some (
        record p {
          iov = write_at p.iov p.actual_length (take bytes (drop off ptr));
          actual_length = p.actual_length + bytes;
        },
        ptr,
      )
      | token_other n ↦ none
      | _ ↦ some (
        record p { actual_length = p.actual_length + bytes },
        write_at ptr off (take bytes (drop p.actual_length p.iov)),
      )
    ]
    else none

-- `usb_packet_skip`.
unfoldable pub skip : Packet → ℕ → Option Packet
skip p bytes =
    if leb (p.actual_length + bytes) (length p.iov)
    then some (record p {
      iov = elim p.pid [
        | token_in ↦ write_at p.iov p.actual_length (replicate bytes 0)
        | _ ↦ p.iov
      ];
      actual_length = p.actual_length + bytes;
    })
    else none
