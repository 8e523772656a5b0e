-- ===== src/Usb/Control/Tests.antt =====
-- Runs of the control pipe of a device that counts its requests.
use usbqemu_wheel.Common.{
  ℕ, ◌+◌, ◌<◌, min, ◌≡◌, inl, inr, false, refl, some, List, [], ◌∷◌, take, drop, length, bit,
  replicate, length-replicate, arith,
}
use usbqemu_wheel.Usb.Packet.{Packet, token_setup, token_in, success, stall, undefined}
use usbqemu_wheel.Usb.Control.{
  Control, Handler, Turn, data_stage, data_buf_size, process_control, do_token_setup, do_token_in,
}
use usbqemu_wheel.Usb.Control.Bounds.{IsSafe, EndsSafe, KeepsSize, process_control-EndsSafe}
use usbqemu_wheel.Usb.Control.Oversize.{oversize_overruns}
use usbqemu_wheel.Usb.Control.Stages.{in_stage, in_stage_lem, total, InStage, offered}
use usbqemu_wheel.Usb.Control.OutStage.{out_stage, out_stage_lem, joined, class_answer, IsHanded}

abbrev counting : Handler ℕ
counting n p r v i l buf = record {
  device = n + 1;
  status = success;
  actual_length = 0;
  bytes = buf;
}

counting-KeepsSize : KeepsSize counting
counting-KeepsSize n p r v i l buf = refl

abbrev memory : List ℕ
memory = replicate 4096 7

memory-length : length memory ≡ data_buf_size
memory-length = length-replicate {A = ℕ} 4096 7

-- GET_DESCRIPTOR of 18 bytes, SET_REPORT of 3 bytes, and an IN request of 5000 bytes.
abbrev get_18 : List ℕ
get_18 = 128 ∷ 6 ∷ 0 ∷ 1 ∷ 0 ∷ 0 ∷ 18 ∷ 0 ∷ []

abbrev set_3 : List ℕ
set_3 = 33 ∷ 9 ∷ 0 ∷ 2 ∷ 0 ∷ 0 ∷ 3 ∷ 0 ∷ []

abbrev get_5000 : List ℕ
get_5000 = 128 ∷ 6 ∷ 0 ∷ 1 ∷ 0 ∷ 0 ∷ 136 ∷ 19 ∷ []

abbrev setup_packet : List ℕ → Packet
setup_packet buf = record {
  pid = token_setup;
  id = 0;
  ep_nr = 0;
  stream = 0;
  iov = buf;
  parameter = 0;
  short_not_ok = false;
  int_req = false;
  status = success;
  actual_length = 0;
  state = undefined;
}

-- A device in the data stage of a request for `n` bytes.
abbrev waiting : List ℕ → ℕ → Control
waiting buf n = record {
  setup_buf = buf;
  data_buf = memory;
  setup_state = data_stage;
  setup_len = n;
  setup_index = 0;
}

abbrev turn : List ℕ → ℕ → List ℕ → Turn ℕ
turn buf n packet = record { device = 0; control = waiting buf n; packet = setup_packet packet }

get-IsSafe : IsSafe (waiting get_18 18)
get-IsSafe = record {
  setup_size = refl;
  data_size = memory-length;
  within = omega arith;
  fits = omega arith;
}

set-IsSafe : IsSafe (waiting set_3 3)
set-IsSafe = record {
  setup_size = refl;
  data_size = memory-length;
  within = omega arith;
  fits = omega arith;
}

safe_example : EndsSafe (process_control counting (turn get_18 18 set_3))
safe_example =
    process_control-EndsSafe counting counting-KeepsSize (turn get_18 18 set_3) get-IsSafe refl refl
      (inr (omega arith))

abbrev sizes : List ℕ
sizes = 8 ∷ 8 ∷ 8 ∷ []

in_stage_example :
    (t' : Turn ℕ) × (in_stage counting (turn get_18 18 get_18) sizes
      ≡ some (take (min (total sizes) 18) (drop 0 memory), t'))
    × InStage counting t'
    × (t'.control.setup_index ≡ 0 + min (total sizes) 18)
unfolding bit
in_stage_example = in_stage_lem counting (turn get_18 18 get_18) sizes get-IsSafe (inl refl) refl

abbrev packets : List (List ℕ)
packets = (1 ∷ 2 ∷ []) ∷ (3 ∷ []) ∷ []

out_stage_example :
    (t' : Turn ℕ) × (out_stage counting (turn set_3 3 set_3) packets ≡ some t')
    × ((u : Turn ℕ) × (do_token_in counting (offered t' token_in []) ≡ some u)
        × IsHanded counting
            (class_answer counting 0 (offered t' token_in []).packet set_3 3 t'.control.data_buf)
            t'
            u)
    × (take 3 t'.control.data_buf ≡ joined packets)
    × (t'.control.setup_buf ≡ set_3)
    × (t'.control.setup_len ≡ 3)
    × (t'.device ≡ 0)
unfolding bit joined
out_stage_example =
    out_stage_lem counting (turn set_3 3 set_3) packets [] set-IsSafe refl refl refl (omega arith)
      refl

-- An IN packet with a buffer of 4500 bytes.
abbrev long_packet : Packet
long_packet = record (setup_packet (replicate 4500 0)) { pid = token_in }

long_packet-length : length long_packet.iov ≡ 4500
long_packet-length = length-replicate {A = ℕ} 4500 0

oversize_example :
    (t' t'' : Turn ℕ) × (do_token_setup counting (turn get_18 18 get_5000) ≡ some t')
    × (t'.packet.status ≡ stall)
    × (do_token_in counting (record t' { packet = long_packet }) ≡ some t'')
    × (t''.packet.actual_length ≡ length long_packet.iov)
    × (length memory < t''.control.setup_index)
unfolding bit
oversize_example =
    oversize_overruns counting (turn get_18 18 get_5000) long_packet get-IsSafe refl refl refl refl
      refl refl refl (omega (arith, long_packet-length)) (omega (arith, long_packet-length))
