-- ===== src/Tunnel/Frame.antt =====
-- internal/tunnel/wire.go, the types: frame types, the frame, and the bounds of its fields.
use substrate_poc.Prelude.{ℕ, ◌*◌, Bytes, [], ◌==◌, if◌then◌else◌}

-- The type byte. `unknown` is a byte that names no type, such as the zero value.
pub data FrameType : Type 0 where
  hello open_frame attach attach_ok data_frame ack close ping pong : FrameType
  unknown : ℕ → FrameType

-- `byte(f.Type)`
unfoldable pub type_byte : FrameType → ℕ
type_byte hello = 1
type_byte open_frame = 2
type_byte attach = 3
type_byte attach_ok = 4
type_byte data_frame = 5
type_byte ack = 6
type_byte close = 7
type_byte ping = 8
type_byte pong = 9
type_byte (unknown n) = n

-- `Type(t)`
unfoldable pub byte_type : ℕ → FrameType
byte_type n =
    if n == 1
    then hello
    else if n == 2
    then open_frame
    else if n == 3
    then attach
    else if n == 4
    then attach_ok
    else if n == 5
    then data_frame
    else if n == 6
    then ack
    else if n == 7
    then close
    else if n == 8
    then ping
    else if n == 9
    then pong
    else unknown n

abbrev pub dir_up : ℕ
dir_up = 1

abbrev pub dir_down : ℕ
dir_down = 2

abbrev pub max_payload : ℕ
max_payload = 256 * 1024

abbrev pub max_string : ℕ
max_string = 4096

pub record Frame : Type 0 where
  pub typ : FrameType
  pub actor_id : Bytes
  pub session_id : ℕ
  pub target : Bytes
  pub offset : ℕ
  pub payload : Bytes
  pub dir : ℕ
  pub reason : Bytes
  pub nonce : ℕ

-- Go's zero value, from which every frame literal starts.
abbrev pub zero_frame : Frame
zero_frame = record {
  typ = unknown 0;
  actor_id = [];
  session_id = 0;
  target = [];
  offset = 0;
  payload = [];
  dir = 0;
  reason = [];
  nonce = 0;
}
