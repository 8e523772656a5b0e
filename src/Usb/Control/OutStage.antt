-- ===== src/Usb/Control/OutStage.antt =====
-- The OUT direction: a stage of data, and the status packet that hands the data to the device.
use usbqemu_wheel.Common.{
  ℕ, ◌+◌, ◌≤◌, ◌<◌, ◌*◌, ◌≡◌, ◌≢◌, get_or, sym, ap, ◌∙◌, refl, ◌⊎◌, inl, inr, false, Option, some,
  List, [], ◌∷◌, ◌++◌, arith, length, take, write_at, length-append, write_at-append, take-length,
  slice-write_at,
}
use usbqemu_wheel.Usb.Packet.{Packet, token_in, token_out, async}
use usbqemu_wheel.Usb.Control.{
  ◌>>=◌, data_stage, ack, idle, Turn, Handler, Reply, is_dir_in, do_token_in, do_token_out, deliver,
}
use usbqemu_wheel.Usb.Control.Bounds.{IsSafe}
use usbqemu_wheel.Usb.Control.Steps.{
  status_both, status_now, status_later, portion, advanced, do_token_out-transfer, transfer-out,
}
use usbqemu_wheel.Usb.Control.Stages.{offered, left}

-- All bytes of a stage's packets.
unfoldable pub joined : List (List ℕ) → List ℕ
joined [] = []
joined (b ∷ bs) = b ++ joined bs

module _ {D : Type 0} (h : Handler D) where
  -- The answer of the device's class to the packet `p`, for the request in the eight bytes of
  -- setup_buf: bmRequestType and bRequest, wValue, wIndex.
  abbrev pub class_answer : D → Packet → List ℕ → ℕ → List ℕ → Reply D
  class_answer d p buf len bytes =
      h d p (get_or buf 0 0 * 256 + get_or buf 1 0) (get_or buf 3 0 * 256 + get_or buf 2 0)
        (get_or buf 5 0 * 256 + get_or buf 4 0) len bytes

  -- The device's answer has come to the turn `t` and given `u`: its data, and the end of the
  -- request unless it waits.
  abbrev pub IsHanded : Reply D → Turn D → Turn D → Type 0
  IsHanded r t u =
      (u.device ≡ r.device)
      × (u.control.data_buf ≡ r.bytes)
      × (u.packet.status ≡ r.status)
      × (r.status ≢ async → (u.control.setup_state ≡ idle) × (u.packet.actual_length ≡ 0))
      × (r.status ≡ async
          → (u.control.setup_state ≡ t.control.setup_state)
            × (u.packet.actual_length ≡ r.actual_length))

  deliver-IsHanded :
      (t : Turn D)
      → IsHanded
          (class_answer t.device t.packet t.control.setup_buf t.control.setup_len
            t.control.data_buf)
          t
          (deliver h t)
  unfolding deliver
  deliver-IsHanded t =
      let r =
        class_answer t.device t.packet t.control.setup_buf t.control.setup_len t.control.data_buf in
      let x : Turn D = record {
        device = r.device;
        control = record (t.control) { data_buf = r.bytes };
        packet = record (t.packet) { status = r.status; actual_length = r.actual_length };
      } in
      let y : Turn D = record x {
        control = record (x.control) { setup_state = idle };
        packet = record (x.packet) { actual_length = 0 };
      } in
      (
        status_both (λ (u : Turn D). u.device ≡ r.device) r.status x y refl refl,
        status_both (λ (u : Turn D). u.control.data_buf ≡ r.bytes) r.status x y refl refl,
        status_both (λ (u : Turn D). u.packet.status ≡ r.status) r.status x y refl refl,
        λ n.
            status_now
              (λ (u : Turn D). (u.control.setup_state ≡ idle) × (u.packet.actual_length ≡ 0))
              r.status x y n (refl, refl),
        λ e.
            status_later
              (λ (u : Turn D).
                (u.control.setup_state ≡ t.control.setup_state)
                × (u.packet.actual_length ≡ r.actual_length))
              r.status x y e (refl, refl),
      )

  handed :
      (t : Turn D) (b : List ℕ) (d : D) (buf : List ℕ) (len : ℕ)
      → t.device ≡ d
      → t.control.setup_buf ≡ buf
      → t.control.setup_len ≡ len
      → IsHanded
          (class_answer d (offered t token_in b).packet buf len t.control.data_buf)
          t
          (deliver h (offered t token_in b))
  handed t b d buf len e f g = rw (sym e, sym f, sym g) (deliver-IsHanded (offered t token_in b))

  -- A host that sends the given packets.
  pub out_stage : Turn D → List (List ℕ) → Option (Turn D)
  out_stage t [] = some t
  out_stage t (b ∷ bs) = do_token_out h (offered t token_out b) >>= λ (t' : Turn D). out_stage t' bs

  -- Bytes are missing, or all have come.
  abbrev OutStage : Turn D → Type 0
  OutStage t =
      ((t.control.setup_state ≡ data_stage) × (t.control.setup_index < t.control.setup_len))
      ⊎ ((t.control.setup_state ≡ ack) × (t.control.setup_len ≤ t.control.setup_index))

  advanced-OutStage :
      (t : Turn D) (p : Packet) (buf : List ℕ) → OutStage t → OutStage (advanced t p buf)
  advanced-OutStage t p buf g = ground arith

  -- What the packets of an OUT stage leave.
  record Took (t : Turn D) (xs : List ℕ) (t' : Turn D) : Type 0 where
    stored : t'.control.data_buf ≡ write_at t.control.data_buf t.control.setup_index xs
    setup_kept : t'.control.setup_buf ≡ t.control.setup_buf
    len_kept : t'.control.setup_len ≡ t.control.setup_len
    moved : t'.control.setup_index ≡ t.control.setup_index + length xs
    device_kept : t'.device ≡ t.device
    going : OutStage t'

  do_token_out-ack :
      (t : Turn D)
      → t.control.setup_state ≡ ack
      → is_dir_in t.control.setup_buf ≡ false
      → do_token_out h t ≡ some t
  unfolding do_token_out
  do_token_out-ack t st dir = ground arith

  out_packet :
      (t : Turn D) (b : List ℕ)
      → OutStage t
      → is_dir_in t.control.setup_buf ≡ false
      → length b ≤ left h t
      → (t' : Turn D) × (do_token_out h (offered t token_out b) ≡ some t') × Took t b t'
  out_packet t b (inl (st, open_stage)) dir fits = (
    advanced u (record (u.packet) { actual_length = portion u })
        (write_at t.control.data_buf t.control.setup_index (take (portion u) b)),
    do_token_out-transfer h u st dir ∙ transfer-out h u refl refl,
    record {
      stored = ap (write_at t.control.data_buf t.control.setup_index) all;
      setup_kept = refl;
      len_kept = refl;
      moved = omega arith;
      device_kept = refl;
      going =
          advanced-OutStage u (record (u.packet) { actual_length = portion u })
            (write_at t.control.data_buf t.control.setup_index (take (portion u) b))
            (inl (st, open_stage));
    },
  )
    where
      u : Turn D
      u = offered t token_out b

      all : take (portion u) b ≡ b
      all = ap (λ k. take k b) {y = length b} (omega arith) ∙ take-length b
  out_packet t [] (inr (st, done)) dir fits = (
    offered t token_out [],
    do_token_out-ack (offered t token_out []) st dir,
    record {
      stored = refl;
      setup_kept = refl;
      len_kept = refl;
      moved = omega arith;
      device_kept = refl;
      going = inr (st, done);
    },
  )
  out_packet t (x ∷ b) (inr (st, done)) dir fits = absurd (omega arith)

  Took-trans :
      {t t' t'' : Turn D} (xs ys : List ℕ) → Took t xs t' → Took t' ys t'' → Took t (xs ++ ys) t''
  Took-trans {t} {t'} xs ys a b = record {
    stored =
        b.stored
        ∙ ap (λ k. write_at t'.control.data_buf k ys) a.moved
        ∙ ap (λ l. write_at l (t.control.setup_index + length xs) ys) a.stored
        ∙ write_at-append t.control.data_buf xs ys t.control.setup_index;
    setup_kept = b.setup_kept ∙ a.setup_kept;
    len_kept = b.len_kept ∙ a.len_kept;
    moved = omega (arith, a.moved, b.moved, length-append xs ys);
    device_kept = b.device_kept ∙ a.device_kept;
    going = b.going;
  }

  -- With all bytes there, an IN packet is the status packet.
  do_token_in-deliver :
      (t : Turn D) (b : List ℕ)
      → OutStage t
      → t.control.setup_len ≤ t.control.setup_index
      → is_dir_in t.control.setup_buf ≡ false
      → do_token_in h (offered t token_in b) ≡ some (deliver h (offered t token_in b))
  unfolding do_token_in
  do_token_in-deliver t b (inl (st, open_stage)) all dir = absurd (omega arith)
  do_token_in-deliver t b (inr (st, done)) all dir = rw (st, dir)

  out_stage-Took :
      (t : Turn D) (bs : List (List ℕ))
      → OutStage t
      → is_dir_in t.control.setup_buf ≡ false
      → length (joined bs) ≤ left h t
      → (t' : Turn D) × (out_stage t bs ≡ some t') × Took t (joined bs) t'
  unfolding out_stage joined
  out_stage-Took t [] g dir fits = (
    t,
    refl,
    record {
      stored = refl;
      setup_kept = refl;
      len_kept = refl;
      moved = omega arith;
      device_kept = refl;
      going = g;
    },
  )
  out_stage-Took t (b ∷ bs) g dir fits =
      let (t', one, a) = out_packet t b g dir (omega (arith, length-append b (joined bs))) in
      let (t'', rest, c) =
        out_stage-Took t' bs a.going (ap is_dir_in a.setup_kept ∙ dir)
          (omega (arith, a.moved, a.len_kept, length-append b (joined bs))) in
      (t'', rw one rest, Took-trans b (joined bs) a c)

  -- From a safe state of the control pipe at the start of its data stage, the data of an OUT
  -- request, sent in packets of any sizes that add up to the announced length, stands at the
  -- front of data_buf when the last byte has come, and the device has not been called. The IN
  -- packet that follows calls its handle_control, with the request, value and index that the
  -- bytes of setup_buf hold, the announced length and data_buf. The device, data_buf and the
  -- packet's status are then as its answer says; the request is over with an empty packet,
  -- unless the answer is USB_RET_ASYNC: then the state machine stays, with the answer's
  -- length.
  pub out_stage_lem :
      (t : Turn D) (bs : List (List ℕ)) (b : List ℕ)
      → IsSafe t.control
      → t.control.setup_state ≡ data_stage
      → is_dir_in t.control.setup_buf ≡ false
      → t.control.setup_index ≡ 0
      → 0 < t.control.setup_len
      → length (joined bs) ≡ t.control.setup_len
      → (t' : Turn D) × (out_stage t bs ≡ some t')
        × ((u : Turn D) × (do_token_in h (offered t' token_in b) ≡ some u)
            × IsHanded
                (class_answer t.device
                  (offered t' token_in b).packet
                  t.control.setup_buf
                  t.control.setup_len
                  t'.control.data_buf)
                t'
                u)
        × (take t.control.setup_len t'.control.data_buf ≡ joined bs)
        × (t'.control.setup_buf ≡ t.control.setup_buf)
        × (t'.control.setup_len ≡ t.control.setup_len)
        × (t'.device ≡ t.device)
  out_stage_lem t bs b v st dir start some_len sent =
      let (t', done, a) = out_stage-Took t bs (inl (st, omega arith)) dir (omega arith) in
      (
        t',
        done,
        (
          deliver h (offered t' token_in b),
          do_token_in-deliver t' b a.going (omega (arith, a.moved, a.len_kept))
              (ap is_dir_in a.setup_kept ∙ dir),
          handed t' b t.device t.control.setup_buf t.control.setup_len a.device_kept a.setup_kept
              a.len_kept,
        ),
        front a.stored,
        a.setup_kept,
        a.len_kept,
        a.device_kept,
      )
    where
      front :
          {buf : List ℕ}
          → buf ≡ write_at t.control.data_buf t.control.setup_index (joined bs)
          → take t.control.setup_len buf ≡ joined bs
      front e =
          ap (take t.control.setup_len)
            (e ∙ ap (λ k. write_at t.control.data_buf k (joined bs)) start)
          ∙ ap (λ k. take k (write_at t.control.data_buf 0 (joined bs))) (sym sent)
          ∙ slice-write_at t.control.data_buf (joined bs) 0 (omega (arith, v.data_size, v.fits))
