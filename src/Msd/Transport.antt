-- ===== src/Msd/Transport.antt =====
-- The bulk-only transport: `usb_msd_handle_data` and what it calls. `none` is a failed assertion, or
-- an access outside of `buf`, which the source does not check.
use usbqemu_wheel.Common.{
  ℕ, ◌+◌, ◌-◌, ◌%◌, ◌^◌, min, Bool, true, false, not, Option, none, some, List, [], ◌∷◌, ltb, ◌==◌,
  ◌&&◌, if◌then◌else◌, length, take, write_at, bit,
}
use usbqemu_wheel.Usb.Packet.{token_in, token_out, success, stall, async, Packet, copy, skip}
use usbqemu_wheel.Usb.Control.{◌>>=◌}
use usbqemu_wheel.Msd.State.{
  Mode, cbw_mode, data_out, data_in, csw_mode, Cbw, Msd, Files, buf_size, cbw_sig, csw_sig,
  csw_size, no_csw, parse_cbw, csw_bytes, write_fault, unrecovered_read_error, reject,
}
use usbqemu_wheel.Msd.Command.{send_command}

-- `a - b` on 32 bits
abbrev pub sub32 : ℕ → ℕ → ℕ
sub32 a b = (a + 2 ^ 32 - b) % 2 ^ 32

-- The size of a CBW, and of a CSW without what the compiler adds.
abbrev pub cbw_size : ℕ
cbw_size = 31

abbrev pub status_size : ℕ
status_size = 13

-- The device, and the packet that it answers.
pub record Answer (F : Type 0) : Type 0 where
  pub dev : Msd F
  pub packet : Packet

module _ {F : Type 0} (io : Files F) where
  -- The label `fail` of `usb_msd_handle_data`.
  unfoldable pub stalled : Msd F → Packet → Answer F
  stalled s p = record { dev = s; packet = record p { status = stall } }

  -- `usb_msd_send_status`
  unfoldable pub send_status : Msd F → Packet → Option (Answer F)
  send_status s p =
      let sent =
        copy p (csw_bytes s.csw) 0 (min csw_size (length p.iov)) >>= λ (r : Packet × List ℕ).
        some (record { dev = record s { csw = no_csw }; packet = r.0 }) in
      if s.csw.sig == csw_sig then sent else none

  -- The waiting packet is done: `usb_msd_packet_complete`.
  unfoldable pub packet_complete : Msd F → Packet → Msd F
  packet_complete s p = record s {
    packet = none;
    completed = record p { status = success } ∷ s.completed;
  }

  -- What `usb_msd_command_complete` does with a waiting packet that is no status packet.
  unfoldable pub drop_rest : Msd F → Packet → Option (Answer F)
  drop_rest s p =
      let len = length p.iov - p.actual_length in
      let skipped = skip p len >>= λ (q : Packet).
      some (record { dev = record s { data_len = sub32 s.data_len len }; packet = q }) in
      let cut : Option (Answer F) =
        if s.data_len == 0 then some (record { dev = s; packet = p }) else skipped in
      cut >>= λ (a : Answer F). some (record a {
        dev = record (a.dev) { mode = if a.dev.data_len == 0 then csw_mode else a.dev.mode };
      })

  abbrev pub is_data_out : Mode → Bool
  is_data_out data_out = true
  is_data_out _ = false

  abbrev pub is_csw : Mode → Bool
  is_csw csw_mode = true
  is_csw _ = false

  -- A waiting packet at the end of a command.
  unfoldable pub answer_waiting : Msd F → Packet → Option (Msd F)
  unfolding send_status packet_complete drop_rest
  answer_waiting s p =
      let status = send_status s p >>= λ (a : Answer F).
      some (packet_complete (record (a.dev) { mode = cbw_mode }) a.packet) in
      let rest = drop_rest s p >>= λ (a : Answer F). some (packet_complete a.dev a.packet) in
      if s.data_len == 0 && is_data_out s.mode
      then status
      else if is_csw s.mode
      then status
      else rest

  -- `usb_msd_command_complete(s, s->f.result)`
  unfoldable pub command_complete : Msd F → Option (Msd F)
  command_complete s =
      let s1 = record s {
        csw = record {
          sig = csw_sig;
          tag = s.req_tag;
          residue = s.data_len;
          status = if s.result == 0 then 0 else 1;
        };
      } in
      let s2 : Option (Msd F) = elim s.packet [
        | none ↦ some (record s1 { mode = if s.data_len == 0 then csw_mode else s.mode })
        | some p ↦ answer_waiting s1 p
      ] in
      s2 >>= λ (t : Msd F). some (record t { req_valid = false })

  -- The label `fail` of `usb_msd_copy_data`, after an error of the file.
  unfoldable pub file_failed : Answer F → Answer F
  file_failed a = record a { packet = record (a.packet) { actual_length = 0; status = stall } }

  -- The end of `usb_msd_copy_data`: `len` bytes were copied.
  unfoldable pub copied : Answer F → ℕ → Option (Answer F)
  copied a len =
      let s = record (a.dev) { off = a.dev.off + len; data_len = sub32 a.dev.data_len len } in
      command_complete s >>= λ (t : Msd F). some (record { dev = t; packet = a.packet })

  -- `usb_msd_copy_data` in the modes of a file command.
  unfoldable pub copy_to_file : Msd F → Packet → ℕ → Option (Answer F)
  unfolding file_failed copied
  copy_to_file s p len = copy p s.buf 0 len >>= λ (r : Packet × List ℕ).
      let s1 : Msd F = record s { buf = r.1 } in
      let w = io.fwrite s.file (take len r.1) in
      let s2 : Msd F = record s1 { file = w.1 } in
      if len == 0
      then copied (record { dev = s1; packet = r.0 }) len
      else if ltb w.0 len
      then some (file_failed (record { dev = reject s2 write_fault; packet = r.0 }))
      else copied (record { dev = s2; packet = r.0 }) len

  unfoldable pub copy_from_file : Msd F → Packet → ℕ → Option (Answer F)
  unfolding file_failed copied
  copy_from_file s p len =
      let r = io.fread s.file (length p.iov) in
      let s1 = record s { buf = write_at s.buf 0 r.0; file = r.1 } in
      let given = copy p s1.buf 0 len >>= λ (c : Packet × List ℕ).
      copied (record { dev = record s1 { buf = c.1 }; packet = c.0 }) len in
      if ltb buf_size (length p.iov)
      then none
      else if ltb (length r.0) (length p.iov)
      then some (file_failed (record { dev = reject s1 unrecovered_read_error; packet = p }))
      else given

  -- `usb_msd_copy_data` of a command that is answered from `buf`.
  unfoldable pub copy_buf : Msd F → Packet → ℕ → Option (Answer F)
  unfolding copied
  copy_buf s p len =
      let moved = copy p s.buf s.off len >>= λ (r : Packet × List ℕ).
      copied (record { dev = record s { buf = r.1 }; packet = r.0 }) len in
      if ltb buf_size (s.off + len) then none else moved

  -- `usb_msd_copy_data`
  unfoldable pub copy_data : Msd F → Packet → Option (Answer F)
  unfolding copy_to_file copy_from_file copy_buf
  copy_data s p =
      let len = min (length p.iov - p.actual_length) buf_size in
      if s.tag == s.file_op_tag
      then elim s.mode [
        | data_out ↦ copy_to_file s p len
        | data_in ↦ copy_from_file s p len
        | _ ↦ some (file_failed (record { dev = s; packet = p }))
      ]
      else copy_buf s p len

  -- After `usb_msd_copy_data`: what the file did not give is skipped, or the packet has to wait.
  unfoldable pub after_copy : Answer F → Option (Answer F)
  after_copy a =
      let p = a.packet in
      let len = length p.iov - p.actual_length in
      let left = sub32 a.dev.data_len len in
      let skipped = skip p len >>= λ (q : Packet). some (record {
        dev = record (a.dev) { data_len = left; mode = if left == 0 then csw_mode else a.dev.mode };
        packet = q;
      }) in
      let cut : Option (Answer F) =
        if not (a.dev.csw.residue == 0) && not (len == 0) then skipped else some a in
      cut >>= λ (b : Answer F). some (
        if ltb b.packet.actual_length (length b.packet.iov)
        then record {
          dev = record (b.dev) { packet = some b.packet };
          packet = record (b.packet) { status = async };
        }
        else b)

  -- A command wrapper.
  unfoldable pub accept : Msd F → Cbw → Msd F
  accept s c =
      send_command io
        (record s {
          tag = c.tag;
          data_len = c.data_len;
          mode = if c.data_len == 0 then csw_mode else if bit c.flags 7 then data_in else data_out;
          req_valid = true;
          req_tag = c.tag;
        })
        c

  unfoldable pub take_command : Msd F → Packet → Option (Answer F)
  unfolding stalled accept
  take_command s p =
      let body = copy p [] 0 cbw_size >>= λ (r : Packet × List ℕ).
      let c = parse_cbw (take cbw_size p.iov) in
      some (
        if c.sig == cbw_sig && c.lun == 0
        then record { dev = accept s c; packet = r.0 }
        else stalled s r.0) in
      if length p.iov == cbw_size then body else some (stalled s p)

  -- The label `send_csw`.
  unfoldable pub send_csw : Msd F → Packet → Option (Answer F)
  unfolding stalled
  send_csw s p =
      let sent = command_complete s >>= λ (t : Msd F). send_status t p >>= λ (a : Answer F).
      some (record a { dev = record (a.dev) { mode = cbw_mode } }) in
      if ltb (length p.iov) status_size then some (stalled s p) else sent

  unfoldable pub data_out_packet : Msd F → Packet → Option (Answer F)
  unfolding stalled send_csw
  data_out_packet s p =
      let moved = copy_data s p >>= after_copy in
      if ltb s.data_len (length p.iov)
      then some (stalled s p)
      else if length p.iov == 0
      then send_csw s p
      else moved

  unfoldable pub data_in_packet : Msd F → Packet → Option (Answer F)
  unfolding stalled
  data_in_packet s p =
      let moved = copy_data s p >>= after_copy in
      if ltb s.data_len (length p.iov)
      then some (stalled (reject s unrecovered_read_error) p)
      else moved

  unfoldable pub wait_status : Msd F → Packet → Answer F
  unfolding stalled
  wait_status s p =
      if not (s.data_len == 0)
      then stalled s p
      else if ltb (length p.iov) status_size
      then stalled s p
      else record { dev = record s { packet = some p }; packet = record p { status = async } }

  unfoldable pub handle_out : Msd F → Packet → Option (Answer F)
  unfolding stalled take_command data_out_packet
  handle_out s p = elim s.mode [
    | cbw_mode ↦ take_command s p
    | data_out ↦ data_out_packet s p
    | _ ↦ some (stalled s p)
  ]

  unfoldable pub handle_in : Msd F → Packet → Option (Answer F)
  unfolding stalled send_csw data_in_packet wait_status
  handle_in s p = elim s.mode [
    | data_out ↦ some (wait_status s p)
    | csw_mode ↦ send_csw s p
    | data_in ↦ data_in_packet s p
    | cbw_mode ↦ some (stalled s p)
  ]

  -- `usb_msd_handle_data`
  unfoldable pub handle_data : Msd F → Packet → Option (Answer F)
  unfolding handle_out handle_in stalled
  handle_data s p = elim p.pid [
    | token_out ↦ if p.ep_nr == 2 then handle_out s p else some (stalled s p)
    | token_in ↦ if p.ep_nr == 1 then handle_in s p else some (stalled s p)
    | _ ↦ some (stalled s p)
  ]
