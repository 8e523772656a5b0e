-- ===== src/Msd/Command.antt =====
-- `send_command`, one function per command.
use usbqemu_wheel.Common.{
  ℕ, ◌+◌, ◌-◌, ◌*◌, ◌/◌, ◌%◌, ◌^◌, none, some, List, [], ◌∷◌, ◌++◌, ltb, ◌==◌, if◌then◌else◌,
  get_or, replicate, take, write_at, min, ◌||◌,
}
use usbqemu_wheel.Msd.State.{
  Cbw, Msd, Files, Sense, csw_mode, buf_size, sense_size, block_size, command_passed, be16, be32,
  be32_bytes, no_sense, unknown_error, no_seek_complete, invalid_opcode, out_of_range, set_sense,
  reject,
}

abbrev pub test_unit_ready : ℕ
test_unit_ready = 0x00

abbrev pub request_sense : ℕ
request_sense = 0x03

abbrev pub inquiry : ℕ
inquiry = 0x12

abbrev pub read_capacity_10 : ℕ
read_capacity_10 = 0x25

abbrev pub read_10 : ℕ
read_10 = 0x28

abbrev pub write_10 : ℕ
write_10 = 0x2a

abbrev pub read_12 : ℕ
read_12 = 0xa8

abbrev pub write_12 : ℕ
write_12 = 0xaa

abbrev pub opcode : Cbw → ℕ
opcode c = get_or c.cmd 0 0

abbrev pub zeros : List ℕ
zeros = replicate buf_size 0

-- "QEMU" in 8 bytes, "USB Drive" in 16 and "1.00" in 4.
abbrev pub vendor : List ℕ
vendor = 81 ∷ 69 ∷ 77 ∷ 85 ∷ 0 ∷ 0 ∷ 0 ∷ 0 ∷ []

abbrev pub product : List ℕ
product = 85 ∷ 83 ∷ 66 ∷ 32 ∷ 68 ∷ 114 ∷ 105 ∷ 118 ∷ 101 ∷ 0 ∷ 0 ∷ 0 ∷ 0 ∷ 0 ∷ 0 ∷ 0 ∷ []

abbrev pub revision : List ℕ
revision = 49 ∷ 46 ∷ 48 ∷ 48 ∷ []

-- The largest block number of a 32-bit capacity.
abbrev pub max_lba : ℕ
max_lba = 2 ^ 32 - 1

-- The number of blocks, from two bytes of a 10-byte command or four of a 12-byte one.
unfoldable pub transfer_len : Cbw → ℕ
transfer_len c =
    if (opcode c == read_10) || (opcode c == write_10) then be16 c.cmd 7 else be32 c.cmd 6

abbrev pub lba : Cbw → ℕ
lba c = be32 c.cmd 2

module _ {F : Type 0} (io : Files F) where
  unfoldable pub do_request_sense : Msd F → Cbw → Msd F
  do_request_sense s c = record s {
    buf = write_at s.buf 0 (take (min (get_or c.cmd 4 0) sense_size) s.sense_buf);
  }

  unfoldable pub do_inquiry : Msd F → Msd F
  do_inquiry s = record s {
    buf = write_at zeros 0 (0 ∷ 128 ∷ 0 ∷ 1 ∷ 0 ∷ 0 ∷ 0 ∷ 0 ∷ (vendor ++ (product ++ revision)));
  }

  unfoldable pub do_read_capacity : Msd F → Msd F
  do_read_capacity s = elim (io.get_file_size s.file) [
    | none ↦ reject (record s { buf = zeros }) unknown_error
    | some fsize ↦
        if ltb max_lba (fsize / block_size)
        then record (reject s out_of_range) {
          buf = write_at zeros 0 (be32_bytes max_lba ++ be32_bytes block_size);
        }
        else record s {
          buf = write_at zeros 0 (be32_bytes (fsize / block_size) ++ be32_bytes block_size);
        }
  ]

  -- The error of a seek that failed; a size of -1 is below every block.
  unfoldable pub seek_error : Msd F → ℕ → Sense
  seek_error s last = elim (io.get_file_size s.file) [
    | none ↦ out_of_range
    | some fsize ↦ if ltb fsize (last * block_size) then out_of_range else no_seek_complete
  ]

  -- READ_10, READ_12, WRITE_10 and WRITE_12: the file is moved to the first block.
  unfoldable pub do_transfer : Msd F → Cbw → Msd F
  unfolding transfer_len seek_error
  do_transfer s c =
      let n = transfer_len c in
      let s1 = record s { data_len = n * block_size % 2 ^ 32; file_op_tag = s.tag } in
      if n == 0 then s1 else elim (io.fseek s.file (lba c * block_size)) [
        | none ↦ reject s1 (seek_error s (lba c + n))
        | some file ↦ record s1 { file = file }
      ]

  unfoldable pub send_command : Msd F → Cbw → Msd F
  unfolding do_request_sense do_inquiry do_read_capacity do_transfer
  send_command s c =
      let op = opcode c in
      let s1 = record s { last_cmd = op; result = command_passed; off = 0 } in
      let s2 = set_sense s1 no_sense in
      if op == test_unit_ready
      then s2
      else if op == request_sense
      then do_request_sense s1 c
      else if op == inquiry
      then do_inquiry s2
      else if op == read_capacity_10
      then do_read_capacity s2
      else if (op == read_10) || (op == read_12)
      then do_transfer s2 c
      else if (op == write_10) || (op == write_12)
      then do_transfer s2 c
      else record (reject s2 invalid_opcode) { mode = csw_mode }
