-- ===== src/Msd/Tests.antt =====
-- The mass storage device with a small disk, and the theorems at concrete commands.
use usbqemu_wheel.Common.{
  bit, ℕ, ◌+◌, ◌≡◌, refl, inl, inr, false, none, some, List, [], ◌∷◌, ◌++◌, arith, length, take,
  drop, write_at, replicate, length-replicate, length-take, length-drop, leb, if◌then◌else◌, leb_le,
}
use usbqemu_wheel.Usb.Control.{◌>>=◌}
use usbqemu_wheel.Usb.Control.Stages.{total}
use usbqemu_wheel.Usb.Packet.{Packet, stall, token_out}
use usbqemu_wheel.Msd.Transport.{handle_data}
use usbqemu_wheel.Msd.Refusals.{IsUnknown, run_command, csw_bytes_13, unknown_command, bad_command}
use usbqemu_wheel.Msd.State.{
  sense_bytes, invalid_opcode, csw_sig, Msd, Files, cbw_mode, no_csw, parse_cbw,
}
use usbqemu_wheel.Msd.Command.{transfer_len}
use usbqemu_wheel.Msd.Disk.{IsDisk}
use usbqemu_wheel.Msd.Transfer.{fresh, Chunks, done, chunk}
use usbqemu_wheel.Msd.DataOut.{joined, Blocks, no_block, block}
use usbqemu_wheel.Msd.Transaction.{
  IsIdle, IsRequest, good_status, run_read, run_write, read_transaction, write_transaction,
  write_then_read,
}

-- A disk in memory: its bytes, and the position.
abbrev Memory : Type 0
Memory = List ℕ × ℕ

abbrev memory_disk : Files Memory
memory_disk = record {
  fseek = λ f n. if leb n (length f.0) then some (f.0, n) else none;
  fread = λ f n. (take n (drop f.1 f.0), (f.0, f.1 + length (take n (drop f.1 f.0))));
  fwrite = λ f bs.
      if leb (f.1 + length bs) (length f.0)
      then (length bs, (write_at f.0 f.1 bs, f.1 + length bs))
      else (0, f);
  get_file_size = λ f. some (length f.0);
}

abbrev bytes_of : Memory → List ℕ
bytes_of f = f.0

abbrev place_of : Memory → ℕ
place_of f = f.1

memory_disk-IsDisk : IsDisk memory_disk bytes_of place_of
memory_disk-IsDisk = record {
  seeks = λ f n h. ((f.0, n), rw (leb_le n (length f.0) h) refl, refl, refl);
  reads = λ f n h. (refl, refl, omega (arith, length-take n (drop f.1 f.0), length-drop f.1 f.0));
  writes = λ f bs h. rw (leb_le (f.1 + length bs) (length f.0) h) (refl, refl, refl);
}

-- Two blocks, the first of sevens and the second of nines.
abbrev two_blocks : List ℕ
two_blocks = replicate 512 7 ++ replicate 512 9

abbrev idle : Msd Memory
idle = record {
  csw = no_csw;
  mode = cbw_mode;
  data_len = 0;
  tag = 0;
  file_op_tag = 0;
  result = 0;
  off = 0;
  buf = replicate 4096 0;
  sense_buf = [];
  last_cmd = 0;
  req_tag = 0;
  req_valid = false;
  file = (two_blocks, 0);
  packet = none;
  completed = [];
}

idle-IsIdle : IsIdle idle
idle-IsIdle = record { waits = refl; free = refl; room = length-replicate {A = ℕ} 4096 0 }

-- READ_10 and WRITE_10 of the second block, with the tags 5 and 6.
abbrev wrapper : ℕ → ℕ → ℕ → List ℕ
wrapper tag flags op =
    0x55 ∷ 0x53 ∷ 0x42 ∷ 0x43 ∷ tag ∷ 0 ∷ 0 ∷ 0 ∷ 0 ∷ 2 ∷ 0 ∷ 0 ∷ flags ∷ 0 ∷ 10 ∷ op ∷ 0 ∷ 0 ∷ 0
    ∷ 0 ∷ 1 ∷ 0 ∷ 0 ∷ 1 ∷ 0 ∷ 0 ∷ 0 ∷ 0 ∷ 0 ∷ 0 ∷ 0 ∷ []

abbrev read_wrapper : List ℕ
read_wrapper = wrapper 5 0x80 0x28

abbrev write_wrapper : List ℕ
write_wrapper = wrapper 6 0 0x2a

read-IsRequest : IsRequest (parse_cbw read_wrapper) 1 1 (length two_blocks)
unfolding parse_cbw transfer_len
read-IsRequest = record {
  command = record { signed = refl; first_lun = refl };
  transfer = inl (inl refl);
  expects = λ e. absurd (omega (arith, e));
  from = refl;
  blocks = refl;
  some_blocks = λ e. absurd (omega (arith, e));
  small = omega arith;
  within = omega arith;
}

write-IsRequest : IsRequest (parse_cbw write_wrapper) 1 1 (length two_blocks)
unfolding parse_cbw transfer_len
write-IsRequest = record {
  command = record { signed = refl; first_lun = refl };
  transfer = inr (inl refl);
  expects = λ e. absurd (omega (arith, e));
  from = refl;
  blocks = refl;
  some_blocks = λ e. absurd (omega (arith, e));
  small = omega arith;
  within = omega arith;
}

-- Packets of 64 and 448 bytes.
abbrev chunks : Chunks (64 ∷ 448 ∷ [])
chunks = chunk (omega arith) (omega arith) (chunk (omega arith) (omega arith) done)

abbrev news : List (List ℕ)
news = replicate 256 3 ∷ replicate 256 4 ∷ []

news-Blocks : Blocks news
news-Blocks =
    block (λ e. absurd (omega (arith, e))) (omega arith)
      (block (λ e. absurd (omega (arith, e))) (omega arith) no_block)

read_transaction_example :
    (s : Msd Memory) × (run_read memory_disk idle read_wrapper (64 ∷ 448 ∷ [])
      ≡ some (take 512 (drop 512 two_blocks), good_status (parse_cbw read_wrapper).tag, s))
    × IsIdle s
    × (bytes_of s.file ≡ two_blocks)
unfolding parse_cbw bit total
read_transaction_example =
    read_transaction memory_disk bytes_of place_of memory_disk-IsDisk idle idle-IsIdle read_wrapper
      1 1 refl read-IsRequest refl (64 ∷ 448 ∷ []) chunks refl

write_transaction_example :
    (s : Msd Memory) × (run_write memory_disk idle write_wrapper news
      ≡ some (good_status (parse_cbw write_wrapper).tag, s))
    × IsIdle s
    × (bytes_of s.file ≡ write_at two_blocks 512 (joined news))
unfolding parse_cbw joined bit
write_transaction_example =
    write_transaction memory_disk bytes_of place_of memory_disk-IsDisk idle idle-IsIdle
      write_wrapper 1 1 refl write-IsRequest refl news news-Blocks refl

write_then_read_example :
    (s : Msd Memory) × ((run_write memory_disk idle write_wrapper news
        >>= λ (r : List ℕ × Msd Memory). run_read memory_disk r.1 read_wrapper (64 ∷ 448 ∷ []))
      ≡ some (joined news, good_status (parse_cbw read_wrapper).tag, s))
unfolding parse_cbw joined bit total
write_then_read_example =
    write_then_read memory_disk bytes_of place_of memory_disk-IsDisk idle idle-IsIdle write_wrapper
      read_wrapper 1 1 refl refl write-IsRequest read-IsRequest refl refl news news-Blocks refl
      (64 ∷ 448 ∷ []) chunks refl

-- The opcode 0x1a, with 36 bytes expected; and a wrapper cut short.
abbrev mode_sense : List ℕ
mode_sense =
    0x55 ∷ 0x53 ∷ 0x42 ∷ 0x43 ∷ 7 ∷ 0 ∷ 0 ∷ 0 ∷ 36 ∷ 0 ∷ 0 ∷ 0 ∷ 0x80 ∷ 0 ∷ 6 ∷ 0x1a ∷ 0 ∷ 0 ∷ 0 ∷ 0
    ∷ 0 ∷ 0 ∷ 0 ∷ 0 ∷ 0 ∷ 0 ∷ 0 ∷ 0 ∷ 0 ∷ 0 ∷ 0 ∷ []

mode_sense-IsUnknown : IsUnknown (parse_cbw mode_sense)
unfolding parse_cbw
mode_sense-IsUnknown = record {
  no_test = λ e. absurd (omega (arith, e));
  no_sense_request = λ e. absurd (omega (arith, e));
  no_inquiry = λ e. absurd (omega (arith, e));
  no_capacity = λ e. absurd (omega (arith, e));
  no_read = λ e. absurd (omega (arith, e));
  no_long_read = λ e. absurd (omega (arith, e));
  no_write = λ e. absurd (omega (arith, e));
  no_long_write = λ e. absurd (omega (arith, e));
}

unknown_command_example :
    (s : Msd Memory) × (run_command memory_disk idle mode_sense
      ≡ some (
        csw_bytes_13 (record {
          sig = csw_sig;
          tag = (parse_cbw mode_sense).tag;
          residue = (parse_cbw mode_sense).data_len;
          status = 1;
        }),
        s,
      ))
    × IsIdle s
    × (s.file ≡ (two_blocks, 0))
    × (s.sense_buf ≡ sense_bytes invalid_opcode)
unfolding parse_cbw
unknown_command_example =
    unknown_command memory_disk idle idle-IsIdle mode_sense refl
      (record { signed = refl; first_lun = refl }) mode_sense-IsUnknown

bad_command_example :
    (q : Packet) × (handle_data memory_disk idle (fresh token_out 2 (1 ∷ 2 ∷ []))
      ≡ some (record { dev = idle; packet = q }))
    × (q.status ≡ stall)
bad_command_example =
    bad_command memory_disk idle (fresh token_out 2 (1 ∷ 2 ∷ [])) refl refl refl refl
      (inl (λ e. absurd (omega (arith, e))))
