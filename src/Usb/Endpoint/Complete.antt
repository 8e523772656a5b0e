-- ===== src/Usb/Endpoint/Complete.antt =====
-- `usb_packet_complete` of core.cpp, which goes on with the queue of the endpoint. What the port's
-- `complete` does to the endpoint is a parameter; the packets that it is given are kept in a list.
use usbqemu_wheel.Common.{
  ℕ, zero, suc, Bool, true, false, Option, none, some, List, [], ◌∷◌, ◌++◌, if◌then◌else◌,
}
use usbqemu_wheel.Usb.Packet.{async, remove_from_queue, Packet, PacketState, queued, in_async}
use usbqemu_wheel.Usb.Control.{Handler, Reply, Turn, ◌>>=◌}
use usbqemu_wheel.Usb.Endpoint.{Endpoint, usb_packet_complete_one, usb_process_one}

-- What the loop of `usb_packet_complete` finds: nothing, a packet to discard, one in work, one that
-- waits with those behind it, or one in another state.
pub data Next : Type 0 where
  finished : Next
  discarded : Packet → Next
  in_work : Next
  waiting : Packet → List Packet → Next
  faulty : Next

unfoldable pub next_packet : List Packet → Bool → Next
next_packet [] halted = finished
next_packet (p ∷ ps) true = discarded (record p { status = remove_from_queue })
next_packet (p ∷ ps) false = elim p.state [
  | in_async ↦ in_work
  | queued ↦ waiting p ps
  | _ ↦ faulty
]

abbrev pub is_in_async : PacketState → Bool
is_in_async in_async = true
is_in_async _ = false

module _ {D : Type 0} (h : Handler D) (handle_data : D → Packet → Reply D)
    (on_complete : Endpoint → Packet → Endpoint) where
  -- One round of the loop, where `rest` is the rounds after it.
  unfoldable pub complete_next :
      (Endpoint → Turn D → List Packet → Option (Endpoint × Turn D × List Packet))
      → Next
      → Endpoint
      → Turn D
      → List Packet
      → Option (Endpoint × Turn D × List Packet)
  complete_next rest finished e t done = some (e, t, done)
  complete_next rest in_work e t done = some (e, t, done)
  complete_next rest faulty e t done = none
  complete_next rest (discarded p) e t done = rest (on_complete e p) t (done ++ (p ∷ []))
  complete_next rest (waiting p ps) e t done =
      usb_process_one h handle_data (record t { packet = p }) >>= λ (t' : Turn D).
      elim t'.packet.status [
        | async ↦ some (
          record e { queue = record (t'.packet) { state = in_async } ∷ ps },
          record t' { packet = record (t'.packet) { state = in_async } },
          done,
        )
        | _ ↦ usb_packet_complete_one h handle_data e t'.packet >>= λ (r : Endpoint × Packet).
            rest (on_complete r.0 r.1) t' (done ++ (r.1 ∷ []))
      ]

  -- The loop of `usb_packet_complete`: the endpoint, the device, and the packets that the port was
  -- given, those of `done` before.
  unfoldable pub complete_rest :
      ℕ → Endpoint → Turn D → List Packet → Option (Endpoint × Turn D × List Packet)
  complete_rest zero e t done = none
  complete_rest (suc n) e t done =
      complete_next (complete_rest n) (next_packet e.queue e.halted) e t done

  -- `usb_packet_complete`
  unfoldable pub usb_packet_complete :
      ℕ → Endpoint → Turn D → Option (Endpoint × Turn D × List Packet)
  unfolding complete_rest
  usb_packet_complete fuel e t =
      if is_in_async t.packet.state
      then (usb_packet_complete_one h handle_data e t.packet >>= λ (r : Endpoint × Packet).
          complete_rest fuel (on_complete r.0 r.1) (record t { packet = r.1 }) (r.1 ∷ []))
      else none
