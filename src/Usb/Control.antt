-- ===== src/Usb/Control.antt =====
-- The control pipe of a device: the state machine that `do_token_setup`, `do_token_in`,
-- `do_token_out` and `do_parameter` of qemu-usb/core.cpp keep in `USBDevice`.
-- The device's own `handle_control` is a parameter; `setup_len - setup_index` is never negative in
-- the source, and subtraction stops at 0 here.
pub mod Steps
pub mod Bounds
pub mod Oversize
pub mod Stages
pub mod OutStage
mod Tests
use usbqemu_wheel.Common.{
  ℕ, zero, suc, ◌+◌, ◌-◌, ◌*◌, ◌/◌, ◌%◌, ◌^◌, min, Bool, true, false, Option, none, some, List, [],
  ◌∷◌, ltb, leb, ◌==◌, if◌then◌else◌, length, get_or, bit,
}
use usbqemu_wheel.Usb.Packet.{
  Token, token_setup, token_in, token_out, token_other, Status, success, nodev, nak, stall, babble,
  ioerror, async, add_to_queue, remove_from_queue, Packet, copy,
}

infixl 5 ◌>>=◌
abbrev pub ◌>>=◌ {ℓ κ} : {A : Type ℓ} {B : Type κ} → Option A → (A → Option B) → Option B
none >>= f = none
some a >>= f = f a

-- The codes SETUP_STATE_IDLE to SETUP_STATE_PARAM.
pub data SetupState : Type 0 where
  idle setup data_stage ack param : SetupState

-- The fields of `USBDevice` that the control pipe uses.
pub record Control : Type 0 where
  pub setup_buf : List ℕ
  pub data_buf : List ℕ
  pub setup_state : SetupState
  pub setup_len : ℕ
  pub setup_index : ℕ

-- `sizeof(s->data_buf)`
abbrev pub data_buf_size : ℕ
data_buf_size = 4096

-- What `handle_control` may change: the device, the packet's status and length, the data.
pub record Reply (D : Type 0) : Type 0 where
  pub device : D
  pub status : Status
  pub actual_length : ℕ
  pub bytes : List ℕ

-- `handle_control(dev, p, request, value, index, length, data)`
abbrev pub Handler : Type 0 → Type 0
Handler D = D → Packet → ℕ → ℕ → ℕ → ℕ → List ℕ → Reply D

abbrev pub byte : List ℕ → ℕ → ℕ
byte buf i = get_or buf i 0

-- `(hi << 8) | lo`
abbrev pub word : ℕ → ℕ → ℕ
word hi lo = hi * 256 + lo

abbrev pub request : List ℕ → ℕ
request buf = word (byte buf 0) (byte buf 1)

abbrev pub value : List ℕ → ℕ
value buf = word (byte buf 3) (byte buf 2)

abbrev pub index : List ℕ → ℕ
index buf = word (byte buf 5) (byte buf 4)

abbrev pub request_len : List ℕ → ℕ
request_len buf = word (byte buf 7) (byte buf 6)

-- `setup_buf[0] & USB_DIR_IN`
abbrev pub is_dir_in : List ℕ → Bool
is_dir_in buf = bit (byte buf 0) 7

-- `setup_buf[i] = p->parameter >> (i*8)` for the first `n` bytes.
pub parameter_bytes : ℕ → ℕ → List ℕ
parameter_bytes zero x = []
parameter_bytes (suc n) x = (x % 256) ∷ parameter_bytes n (x / 256)

pub record Turn (D : Type 0) : Type 0 where
  pub device : D
  pub control : Control
  pub packet : Packet

module _ {D : Type 0} (handle_control : Handler D) where
  -- The call of `handle_control` with the current request and the device's `data_buf`.
  pub call_control : Turn D → Turn D
  call_control t =
      let s = t.control in
      let buf = s.setup_buf in
      let r =
        handle_control t.device t.packet (request buf) (value buf) (index buf) s.setup_len
          s.data_buf in
      record {
        device = r.device;
        control = record s { data_buf = r.bytes };
        packet = record (t.packet) { status = r.status; actual_length = r.actual_length };
      }

  pub stalled : Turn D → Turn D
  stalled t = record t { packet = record (t.packet) { status = stall } }

  pub in_state : Turn D → SetupState → Turn D
  in_state t st = record t { control = record (t.control) { setup_state = st } }

  pub with_length : Turn D → ℕ → Turn D
  with_length t n = record t { packet = record (t.packet) { actual_length = n } }

  -- `if (p->actual_length < s->setup_len) s->setup_len = p->actual_length;`
  pub shorten : Turn D → Turn D
  shorten t =
      if ltb t.packet.actual_length t.control.setup_len
      then record t { control = record (t.control) { setup_len = t.packet.actual_length } }
      else t

  -- The IN half of `do_token_setup`, after the call of the device.
  pub setup_answered : Turn D → Turn D
  unfolding in_state with_length shorten
  setup_answered t = elim t.packet.status [
    | async ↦ in_state t setup
    | success ↦ with_length (in_state (shorten t) data_stage) 8
    | _ ↦ t
  ]

  pub setup_request : Turn D → Turn D
  unfolding call_control in_state with_length setup_answered
  setup_request t =
      if is_dir_in t.control.setup_buf
      then setup_answered (call_control t)
      else with_length (in_state t (if t.control.setup_len == 0 then ack else data_stage)) 8

  pub do_token_setup : Turn D → Option (Turn D)
  do_token_setup t =
      let s = t.control in
      let body = copy t.packet s.setup_buf 0 (length t.packet.iov) >>= λ (r : Packet × List ℕ).
      let t' : Turn D = record t {
        control = record s { setup_buf = r.1; setup_index = 0; setup_len = request_len r.1 };
        packet = record (r.0) { actual_length = 0 };
      } in
      some (if ltb data_buf_size t'.control.setup_len then stalled t' else setup_request t') in
      if length t.packet.iov == 8 then body else some (stalled t)

  -- The data stage of both directions: a slice of `data_buf` goes out or comes in.
  pub transfer : Turn D → Option (Turn D)
  transfer t =
      let s = t.control in
      let len = min (s.setup_len - s.setup_index) (length t.packet.iov) in
      copy t.packet s.data_buf s.setup_index len >>= λ (r : Packet × List ℕ). some (record t {
        control = record s {
          data_buf = r.1;
          setup_index = s.setup_index + len;
          setup_state = if leb s.setup_len (s.setup_index + len) then ack else s.setup_state;
        };
        packet = r.0;
      })

  -- The status stage of an OUT request: the device is given the data.
  pub deliver : Turn D → Turn D
  unfolding call_control in_state with_length
  deliver t =
      let t' = call_control t in
      elim t'.packet.status [ async ↦ t' | _ ↦ with_length (in_state t' idle) 0 ]

  pub do_token_in : Turn D → Option (Turn D)
  unfolding stalled in_state
  do_token_in t = elim t.control.setup_state [
    | ack ↦ some (if is_dir_in t.control.setup_buf then t else deliver t)
    | data_stage ↦
        if is_dir_in t.control.setup_buf then transfer t else some (stalled (in_state t idle))
    | _ ↦ some (stalled t)
  ]

  pub do_token_out : Turn D → Option (Turn D)
  unfolding stalled in_state
  do_token_out t = elim t.control.setup_state [
    | ack ↦ some (if is_dir_in t.control.setup_buf then in_state t idle else t)
    | data_stage ↦
        if is_dir_in t.control.setup_buf then some (stalled (in_state t idle)) else transfer t
    | _ ↦ some (stalled t)
  ]

  -- The data of an OUT request with a parameter.
  pub fetch : Turn D → Option (Turn D)
  fetch t = elim t.packet.pid [
    | token_out ↦
        copy t.packet t.control.data_buf 0 t.control.setup_len >>= λ (r : Packet × List ℕ).
        some (record t { control = record (t.control) { data_buf = r.1 }; packet = r.0 })
    | _ ↦ some t
  ]

  -- The data of an IN request with a parameter.
  pub give : Turn D → Option (Turn D)
  give t = elim t.packet.pid [
    | token_in ↦
        copy (record (t.packet) { actual_length = 0 }) t.control.data_buf 0 t.control.setup_len
        >>= λ (r : Packet × List ℕ). some (record t { packet = r.0 })
    | _ ↦ some t
  ]

  -- `do_parameter`: the request comes in one 64-bit number instead of a packet's data.
  pub do_parameter : Turn D → Option (Turn D)
  do_parameter t =
      let buf = parameter_bytes 8 t.packet.parameter in
      let t' : Turn D = record t {
        control = record (t.control) {
          setup_buf = buf;
          setup_state = param;
          setup_len = request_len buf;
          setup_index = 0;
        };
      } in
      let answered = fetch t' >>= λ (u : Turn D).
      let v = call_control u in elim v.packet.status [ async ↦ some v | _ ↦ give (shorten v) ] in
      if ltb data_buf_size (request_len buf) then some (stalled t') else answered

  -- The switch of `usb_process_one` on the token of a control packet.
  pub process_token : Token → Turn D → Option (Turn D)
  process_token token_setup t = do_token_setup t
  process_token token_in t = do_token_in t
  process_token token_out t = do_token_out t
  process_token (token_other n) t = some (stalled t)

  -- The control pipe of `usb_process_one`.
  pub process_control : Turn D → Option (Turn D)
  process_control t =
      let t' : Turn D = record t { packet = record (t.packet) { status = success } } in
      if t.packet.parameter == 0 then process_token t.packet.pid t' else do_parameter t'

  -- `usb_generic_async_ctrl_complete` up to its call of `usb_packet_complete`.
  pub async_ctrl_complete : Turn D → Option (Turn D)
  unfolding in_state with_length shorten give
  async_ctrl_complete t =
      let t' : Turn D = elim t.packet.status [ success ↦ t | _ ↦ in_state t idle ] in
      elim t'.control.setup_state [
        | setup ↦ some (with_length (in_state (shorten t') data_stage) 8)
        | ack ↦ some (with_length (in_state t' idle) 0)
        | param ↦ give (shorten t')
        | _ ↦ some t'
      ]
