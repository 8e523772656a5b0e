-- ===== src/Usb/Endpoint/Queue.antt =====
-- What a packet that is handed to a data endpoint does to the endpoint's queue.
use usbqemu_wheel.Common.{
  Bool, true, false, ◌&&◌, ◌||◌, not, some, List, [], ◌∷◌, ◌++◌, ◌≡◌, ◌≢◌, refl, ◌∙◌, arith, ltb,
  ◌==◌, ==_iff, length, Bool-cases, inl, inr,
}
use usbqemu_wheel.Usb.Packet.{
  Status, success, nodev, nak, stall, babble, ioerror, async, add_to_queue, remove_from_queue,
  Packet, setup, queued, in_async, is_inflight, complete,
}
use usbqemu_wheel.Usb.Control.{Handler, Reply, Turn}
use usbqemu_wheel.Usb.Endpoint.{
  Endpoint, is_setup, may_wait, usb_handle_packet, usb_packet_complete_one, usb_process_one,
  dispatch, enqueue, is_empty, is_first, remove,
}

-- The status of the packet halts its endpoint.
abbrev pub is_halting : Packet → Bool
is_halting p = elim p.status as (λ _. Bool) [ success ↦ false | _ ↦ true ]

-- The packet waits in the queue exactly if its status says so.
pub Queued : List Packet → Packet → List Packet → Type 0
Queued before p after = elim p.status [
  | async ↦ (after ≡ before ++ (p ∷ [])) × (is_inflight p ≡ true)
  | _ ↦ after ≡ before
]

or-true : (b : Bool) → (b || true) ≡ true
or-true true = refl
or-true false = refl

final :
    (st : Status)
    → st ≢ async
    → st ≢ nak
    → (elim st as (λ _. Bool) [ async ↦ false | nak ↦ false | _ ↦ true ]) ≡ true
final success a n = refl
final nodev a n = refl
final nak a n = absurd (n refl)
final stall a n = refl
final babble a n = refl
final ioerror a n = refl
final async a n = absurd (a refl)
final add_to_queue a n = refl
final remove_from_queue a n = refl

module _ {D : Type 0} (h : Handler D) (handle_data : D → Packet → Reply D) where
  abbrev pub answer : Turn D → Reply D
  answer t = handle_data t.device (record (t.packet) { status = success })

  ended :
      (e : Endpoint) (t : Turn D)
      → e.queue ≡ []
      → (not (t.packet.stream == 0) || not e.pipeline || is_empty e.queue) ≡ true
  ended e t q = rw q (ground arith)

  dispatch-empty :
      (e : Endpoint) (t : Turn D) (st : Status)
      → t.packet.status ≡ st
      → e.queue ≡ []
      → may_wait e.type ≡ true
      → (e' : Endpoint) × (t' : Turn D) × (dispatch h handle_data st e t ≡ some (e', t'))
        × (e'.halted ≡ e.halted)
        × (t'.device ≡ t.device)
        × (t'.packet.actual_length ≡ t.packet.actual_length)
        × Queued e.queue t'.packet e'.queue
  unfolding dispatch enqueue Queued is_inflight
  dispatch-empty e t async s q w = (
    (enqueue h handle_data e t in_async).0,
    (enqueue h handle_data e t in_async).1,
    rw w refl,
    refl,
    refl,
    refl,
    (refl, refl),
  )
  dispatch-empty e t add_to_queue s q w = (_, _, refl, refl, refl, refl, (refl, refl))
  dispatch-empty e t nak s q w = (e, t, rw (ended e t q) refl, refl, refl, refl, rw s refl)
  dispatch-empty e t success s q w = (
    e,
    record t { packet = record (t.packet) { state = complete } },
    rw (ended e t q) refl,
    refl,
    refl,
    refl,
    rw s refl,
  )
  dispatch-empty e t nodev s q w = (
    e,
    record t { packet = record (t.packet) { state = complete } },
    rw (ended e t q) refl,
    refl,
    refl,
    refl,
    rw s refl,
  )
  dispatch-empty e t stall s q w = (
    e,
    record t { packet = record (t.packet) { state = complete } },
    rw (ended e t q) refl,
    refl,
    refl,
    refl,
    rw s refl,
  )
  dispatch-empty e t babble s q w = (
    e,
    record t { packet = record (t.packet) { state = complete } },
    rw (ended e t q) refl,
    refl,
    refl,
    refl,
    rw s refl,
  )
  dispatch-empty e t ioerror s q w = (
    e,
    record t { packet = record (t.packet) { state = complete } },
    rw (ended e t q) refl,
    refl,
    refl,
    refl,
    rw s refl,
  )
  dispatch-empty e t remove_from_queue s q w = (
    e,
    record t { packet = record (t.packet) { state = complete } },
    rw (ended e t q) refl,
    refl,
    refl,
    refl,
    rw s refl,
  )

  -- The packet as the device leaves it.
  abbrev processed : Turn D → Turn D
  processed t = record t {
    device = (answer t).device;
    packet = record (t.packet) {
      status = (answer t).status;
      actual_length = (answer t).actual_length;
      iov = (answer t).bytes;
    };
  }

  run-empty :
      (e : Endpoint) (t : Turn D)
      → (t.packet.ep_nr == 0) ≡ false
      → t.packet.state ≡ setup
      → e.queue ≡ []
      → usb_handle_packet h handle_data e t
        ≡ dispatch h handle_data (answer t).status (record e { halted = false }) (processed t)
  unfolding usb_handle_packet usb_process_one is_setup
  run-empty e t n st q = elim (Bool-cases e.halted) [
    | inl y ↦ rw (usb_handle_packet, st, q, y, usb_process_one, n) refl
    | inr y ↦ rw (usb_handle_packet, st, q, y, usb_process_one, n) refl
  ]

  -- A new packet for a data endpoint with an empty queue, of a type that may wait, is
  -- processed by the device and the endpoint is not halted any more. Afterwards the packet
  -- stands at the end of the queue, in flight, if its status is USB_RET_ASYNC, and else the
  -- queue is as it was.
  pub handle_packet-empty :
      (e : Endpoint) (t : Turn D)
      → (t.packet.ep_nr == 0) ≡ false
      → t.packet.state ≡ setup
      → e.queue ≡ []
      → may_wait e.type ≡ true
      → (e' : Endpoint) × (t' : Turn D) × (usb_handle_packet h handle_data e t ≡ some (e', t'))
        × (e'.halted ≡ false)
        × (t'.device ≡ (answer t).device)
        × (t'.packet.actual_length ≡ (answer t).actual_length)
        × Queued e.queue t'.packet e'.queue
  handle_packet-empty e t n st q w =
      let (e', t', done, open_again, device, length, there) =
        dispatch-empty (record e { halted = false }) (processed t) (answer t).status refl q w in
      (e', t', run-empty e t n st q ∙ done, open_again, device, length, there)

  -- A new packet without a stream for an endpoint that is neither halted nor pipelined and
  -- has packets in its queue is not shown to the device: it goes to the end of the queue, in
  -- flight, with the status USB_RET_ASYNC.
  pub handle_packet-busy :
      (e : Endpoint) (t : Turn D) (p : Packet) (ps : List Packet)
      → t.packet.state ≡ setup
      → t.packet.stream ≡ 0
      → e.queue ≡ p ∷ ps
      → e.pipeline ≡ false
      → e.halted ≡ false
      → (e' : Endpoint) × (t' : Turn D) × (usb_handle_packet h handle_data e t ≡ some (e', t'))
        × (t'.device ≡ t.device)
        × (t'.packet.status ≡ async)
        × Queued e.queue t'.packet e'.queue
  unfolding usb_handle_packet enqueue Queued is_inflight is_setup
  handle_packet-busy e t p ps st z q l g =
      let r : Endpoint × Turn D = enqueue h handle_data (record e { halted = false }) t queued in
      (r.0, r.1, rw (usb_handle_packet, st, z, q, l, g) refl, refl, refl, (refl, refl))

  -- The endpoint without its packet.
  abbrev after : Endpoint → Packet → Endpoint
  after e p = record e {
    halted = e.halted || (is_halting p || (p.short_not_ok && ltb p.actual_length (length p.iov)));
    queue = remove e.queue p.id;
  }

  -- Completing the first packet of an endpoint's queue with a status that is neither
  -- USB_RET_ASYNC nor USB_RET_NAK takes exactly that packet from the queue and leaves it
  -- complete.
  pub complete_one-first :
      (e : Endpoint) (p q : Packet) (ps : List Packet)
      → e.queue ≡ q ∷ ps
      → q.id ≡ p.id
      → p.status ≢ async
      → p.status ≢ nak
      → (e' : Endpoint) × (p' : Packet) × (usb_packet_complete_one h handle_data e p
          ≡ some (e', p'))
        × (e'.queue ≡ ps)
        × (e'.halted ≡ (
            e.halted || (is_halting p || (p.short_not_ok && ltb p.actual_length (length p.iov)))))
        × (p' ≡ record p { state = complete })
  unfolding usb_packet_complete_one remove is_first
  complete_one-first e p q ps f i a n =
      let same : (q.id == p.id) ≡ true = (==_iff q.id p.id).1 i in
      (
        after e p,
        record p { state = complete },
        rw (usb_packet_complete_one, f, same, final p.status a n, or-true (not (p.stream == 0)))
            refl,
        rw (f, same) refl,
        refl,
        refl,
      )
