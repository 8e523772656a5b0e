-- ===== src/Usb/Endpoint.antt =====
-- The endpoints of a device and their queues, qemu-usb/core.cpp from `usb_process_one` on. A packet
-- that stands in a queue is told from the others by its `id`. The device is there, and its state is
-- USB_STATE_DEFAULT, as the source asserts; its `handle_data` is a parameter.
pub mod Queue
pub mod Complete
mod Only
mod Tests
use usbqemu_wheel.Common.{
  ℕ, ◌+◌, ◌*◌, ◌/◌, ◌%◌, ◌^◌, Bool, true, false, ◌&&◌, ◌||◌, not, Option, none, some, List, [], ◌∷◌,
  ◌++◌, ltb, ◌==◌, if◌then◌else◌, length,
}
use usbqemu_wheel.Usb.Packet.{
  Status, success, nak, async, add_to_queue, Packet, PacketState, setup, queued, in_async, complete,
  canceled, is_inflight,
}
use usbqemu_wheel.Usb.Control.{Handler, Reply, Turn, process_control, ◌>>=◌}

-- USB_ENDPOINT_XFER_CONTROL to USB_ENDPOINT_XFER_INT, and USB_ENDPOINT_XFER_INVALID.
pub data TransferType : Type 0 where
  control_type isoc_type bulk_type int_type invalid_type : TransferType

pub record Endpoint : Type 0 where
  pub nr : ℕ
  pub type : TransferType
  pub max_packet_size : ℕ
  pub max_streams : ℕ
  pub pipeline : Bool
  pub halted : Bool
  pub queue : List Packet

-- `usb_ep_set_max_packet_size`: the size times the number of microframes.
unfoldable pub usb_ep_set_max_packet_size : Endpoint → ℕ → Endpoint
usb_ep_set_max_packet_size e raw =
    let microframes : ℕ =
      if raw / 2 ^ 11 % 4 == 1 then 2 else if raw / 2 ^ 11 % 4 == 2 then 3 else 1 in
    record e { max_packet_size = raw % 2 ^ 11 * microframes }

-- `usb_ep_set_max_streams`
unfoldable pub usb_ep_set_max_streams : Endpoint → ℕ → Endpoint
usb_ep_set_max_streams e raw = record e {
  max_streams = if raw % 32 == 0 then 0 else 2 ^ (raw % 32);
}

-- `QTAILQ_REMOVE`, by the packet's `id`.
unfoldable pub remove : List Packet → ℕ → List Packet
remove [] id = []
remove (p ∷ ps) id = let rest = remove ps id in if p.id == id then ps else p ∷ rest

-- `QTAILQ_FIRST(&ep->queue) == p`
unfoldable pub is_first : List Packet → ℕ → Bool
is_first [] id = false
is_first (p ∷ ps) id = p.id == id

abbrev pub is_empty : List Packet → Bool
is_empty [] = true
is_empty (p ∷ ps) = false

unfoldable pub is_setup : PacketState → Bool
is_setup setup = true
is_setup _ = false

-- The type of an endpoint that may answer USB_RET_ASYNC, for a device that is no host device.
unfoldable pub may_wait : TransferType → Bool
may_wait isoc_type = false
may_wait int_type = false
may_wait _ = true

module _ {D : Type 0} (handle_control : Handler D) (handle_data : D → Packet → Reply D) where
  -- `usb_process_one`
  unfoldable pub usb_process_one : Turn D → Option (Turn D)
  usb_process_one t =
      if t.packet.ep_nr == 0
      then process_control handle_control t
      else some (
          let r = handle_data t.device (record (t.packet) { status = success }) in
          record t {
            device = r.device;
            packet = record (t.packet) {
              status = r.status;
              actual_length = r.actual_length;
              iov = r.bytes;
            };
          })

  -- The packet goes into the queue, in the state `st`.
  unfoldable pub enqueue : Endpoint → Turn D → PacketState → Endpoint × Turn D
  enqueue e t st =
      let p = record (t.packet) { state = st; status = async } in
      (record e { queue = e.queue ++ (p ∷ []) }, record t { packet = p })

  -- What `usb_handle_packet` does with a processed packet of the given status.
  unfoldable pub dispatch : Status → Endpoint → Turn D → Option (Endpoint × Turn D)
  dispatch st e t =
      let ended : Bool = not (t.packet.stream == 0) || not e.pipeline || is_empty e.queue in
      elim st [
        | async ↦ if may_wait e.type then some (enqueue e t in_async) else none
        | add_to_queue ↦ some (enqueue e t queued)
        | nak ↦ if ended then some (e, t) else none
        | _ ↦
            if ended
            then some (e, record t { packet = record (t.packet) { state = complete } })
            else none
      ]

  -- `usb_handle_packet`
  unfoldable pub usb_handle_packet : Endpoint → Turn D → Option (Endpoint × Turn D)
  unfolding is_setup
  usb_handle_packet e t =
      let e' = record e { halted = false } in
      let run = usb_process_one t >>= λ (t' : Turn D). dispatch t'.packet.status e' t' in
      if not (is_setup t.packet.state) || (e.halted && not (is_empty e.queue))
      then none
      else if is_empty e.queue || e.pipeline || not (t.packet.stream == 0)
      then run
      else some (enqueue e' t queued)

  -- `usb_packet_complete_one`, up to its call of the port's `complete`.
  unfoldable pub usb_packet_complete_one : Endpoint → Packet → Option (Endpoint × Packet)
  usb_packet_complete_one e p =
      let failed : Bool = elim p.status [ success ↦ false | _ ↦ true ] in
      let short : Bool = p.short_not_ok && ltb p.actual_length (length p.iov) in
      let over : Bool = elim p.status [ async ↦ false | nak ↦ false | _ ↦ true ] in
      if (not (p.stream == 0) || is_first e.queue p.id) && over
      then some (
        record e { halted = e.halted || (failed || short); queue = remove e.queue p.id },
        record p { state = complete },
      )
      else none
