-- ===== src/Msd/State.antt =====
-- `MSDState` without the descriptors of the device, the wrappers of a command and of its status, and
-- the sense data.
use usbqemu_wheel.Common.{
  le_bytes, ℕ, ◌+◌, ◌*◌, ◌/◌, ◌%◌, ◌^◌, Bool, Option, List, [], ◌∷◌, ◌++◌, ◌==◌, if◌then◌else◌,
  get_or, drop,
}
use usbqemu_wheel.Usb.Packet.{Packet}

-- `USBMSDMode`
pub data Mode : Type 0 where
  cbw_mode data_out data_in csw_mode : Mode

-- `usb_msd_cbw`
pub record Cbw : Type 0 where
  pub sig : ℕ
  pub tag : ℕ
  pub data_len : ℕ
  pub flags : ℕ
  pub lun : ℕ
  pub cmd_len : ℕ
  pub cmd : List ℕ

-- `usb_msd_csw`
pub record Csw : Type 0 where
  pub sig : ℕ
  pub tag : ℕ
  pub residue : ℕ
  pub status : ℕ

-- What the device calls of its file: `fseeko64` from the start, `fread` of as many bytes as there
-- are, `fwrite` with the number of bytes written, and `get_file_size`.
pub record Files (F : Type 0) : Type 0 where
  pub fseek : F → ℕ → Option F
  pub fread : F → ℕ → List ℕ × F
  pub fwrite : F → List ℕ → ℕ × F
  pub get_file_size : F → Option ℕ

pub record Msd (F : Type 0) : Type 0 where
  pub csw : Csw
  pub mode : Mode
  pub data_len : ℕ
  pub tag : ℕ
  pub file_op_tag : ℕ
  pub result : ℕ
  pub off : ℕ
  pub buf : List ℕ
  pub sense_buf : List ℕ
  pub last_cmd : ℕ
  pub req_tag : ℕ
  pub req_valid : Bool
  pub file : F
  pub packet : Option Packet
  pub completed : List Packet  -- the packets given to `usb_packet_complete`, the last one first

-- `sizeof(s->f.buf)`, `sizeof(s->f.sense_buf)` and LBA_BLOCK_SIZE
abbrev pub buf_size : ℕ
buf_size = 4096

abbrev pub sense_size : ℕ
sense_size = 18

abbrev pub block_size : ℕ
block_size = 512

-- The signatures of the wrappers, "USBC" and "USBS".
abbrev pub cbw_sig : ℕ
cbw_sig = 0x43425355

abbrev pub csw_sig : ℕ
csw_sig = 0x53425355

-- COMMAND_PASSED and COMMAND_FAILED
abbrev pub command_passed : ℕ
command_passed = 0

abbrev pub command_failed : ℕ
command_failed = 1

abbrev pub le32 : List ℕ → ℕ → ℕ
le32 buf i =
    get_or buf i 0
    + get_or buf (i + 1) 0 * 2 ^ 8
    + get_or buf (i + 2) 0 * 2 ^ 16
    + get_or buf (i + 3) 0 * 2 ^ 24

-- `bswap16` and `bswap32` of what stands at `buf + i`.
abbrev pub be16 : List ℕ → ℕ → ℕ
be16 buf i = get_or buf i 0 * 2 ^ 8 + get_or buf (i + 1) 0

abbrev pub be32 : List ℕ → ℕ → ℕ
be32 buf i = be16 buf i * 2 ^ 16 + be16 buf (i + 2)

-- `*(uint32_t*)p = bswap32(x)`
abbrev pub be32_bytes : ℕ → List ℕ
be32_bytes x = (x / 2 ^ 24 % 256) ∷ (x / 2 ^ 16 % 256) ∷ (x / 2 ^ 8 % 256) ∷ (x % 256) ∷ []

-- A command wrapper as the 31 bytes of a packet give it.
unfoldable pub parse_cbw : List ℕ → Cbw
parse_cbw b = record {
  sig = le32 b 0;
  tag = le32 b 4;
  data_len = le32 b 8;
  flags = get_or b 12 0;
  lun = get_or b 13 0;
  cmd_len = get_or b 14 0;
  cmd = drop 15 b;
}

-- The memory of a `usb_msd_csw`: its 13 bytes, and the 3 that the compiler adds.
unfoldable pub csw_bytes : Csw → List ℕ
csw_bytes c =
    le_bytes 4 c.sig
    ++ (le_bytes 4 c.tag ++ (le_bytes 4 c.residue ++ ((c.status % 256) ∷ 0 ∷ 0 ∷ 0 ∷ [])))

-- `sizeof(s->f.csw)`
abbrev pub csw_size : ℕ
csw_size = 16

abbrev pub no_csw : Csw
no_csw = record { sig = 0; tag = 0; residue = 0; status = 0 }

-- `SCSISense`, and the codes that the device uses.
pub record Sense : Type 0 where
  pub key : ℕ
  pub asc : ℕ
  pub ascq : ℕ

abbrev pub no_sense : Sense
no_sense = record { key = 0; asc = 0; ascq = 0 }

abbrev pub unknown_error : Sense
unknown_error = record { key = 2; asc = 0xff; ascq = 0xff }

abbrev pub no_seek_complete : Sense
no_seek_complete = record { key = 3; asc = 2; ascq = 0 }

abbrev pub write_fault : Sense
write_fault = record { key = 3; asc = 3; ascq = 0 }

abbrev pub unrecovered_read_error : Sense
unrecovered_read_error = record { key = 3; asc = 0x11; ascq = 0 }

abbrev pub invalid_opcode : Sense
invalid_opcode = record { key = 5; asc = 0x20; ascq = 0 }

abbrev pub out_of_range : Sense
out_of_range = record { key = 5; asc = 0x21; ascq = 0 }

unfoldable pub sense_bytes : Sense → List ℕ
sense_bytes e =
    0xf0
    ∷ 0
    ∷ (e.key % 16)
    ∷ 0
    ∷ 0
    ∷ 0
    ∷ 0
    ∷ (if e.asc == 0 then 0 else 0x0a)
    ∷ 0
    ∷ 0
    ∷ 0
    ∷ 0
    ∷ e.asc
    ∷ e.ascq
    ∷ 0
    ∷ 0
    ∷ 0
    ∷ 0
    ∷ []

module _ {F : Type 0} where
  unfoldable pub set_sense : Msd F → Sense → Msd F
  unfolding sense_bytes
  set_sense s e = record s { sense_buf = sense_bytes e }

  -- A command that failed, with the reason.
  unfoldable pub reject : Msd F → Sense → Msd F
  unfolding set_sense
  reject s e = record (set_sense s e) { result = command_failed }

  unfoldable pub handle_reset : Msd F → Msd F
  handle_reset s = record s { mode = cbw_mode }
