-- ===== src/Tunnel/Wire/RoundTrip.antt =====
-- internal/tunnel/wire.go: decoding what was encoded.
use substrate_poc.Prelude.{◌≤◌, Bytes, IsU64, ◌++◌, ◌≡◌, refl, append_assoc, length, none, ok}
use substrate_poc.Tunnel.Frame.{
  FrameType, hello, open_frame, attach, attach_ok, data_frame, ack, close, ping, pong, unknown,
  type_byte, byte_type, max_string, max_payload, Frame, zero_frame,
}
use substrate_poc.Tunnel.Wire.{encode_body, encode_frame, decode_body, decode_frame}
use substrate_poc.Tunnel.Wire.Fields.{
  get_u64-put_u64, put_string_ok, get_string-put, put_payload_ok, get_payload-put, read_byte-cons,
}

-- The fields that the type carries fit their widths and bounds.
abbrev pub Fits : FrameType → Frame → Type 0
Fits hello f = length f.actor_id ≤ max_string
Fits open_frame f = IsU64 f.session_id × (length f.target ≤ max_string)
Fits attach f = IsU64 f.session_id × IsU64 f.offset × (length f.target ≤ max_string)
Fits attach_ok f = IsU64 f.session_id × IsU64 f.offset
Fits data_frame f = IsU64 f.session_id × IsU64 f.offset × (length f.payload ≤ max_payload)
Fits ack f = IsU64 f.session_id × IsU64 f.offset
Fits close f = IsU64 f.session_id × (length f.reason ≤ max_string)
Fits ping f = IsU64 f.nonce
Fits pong f = IsU64 f.nonce
Fits (unknown n) f = ⊥

-- The frame with the fields that its type does not carry at their zero values.
abbrev pub carried : FrameType → Frame → Frame
carried hello f = record zero_frame { typ = hello; actor_id = f.actor_id }
carried open_frame f = record zero_frame {
  typ = open_frame;
  session_id = f.session_id;
  target = f.target;
}
carried attach f = record zero_frame {
  typ = attach;
  session_id = f.session_id;
  offset = f.offset;
  target = f.target;
}
carried attach_ok f = record zero_frame {
  typ = attach_ok;
  session_id = f.session_id;
  offset = f.offset;
}
carried data_frame f = record zero_frame {
  typ = data_frame;
  session_id = f.session_id;
  offset = f.offset;
  payload = f.payload;
}
carried ack f = record zero_frame { typ = ack; session_id = f.session_id; offset = f.offset }
carried close f = record zero_frame {
  typ = close;
  session_id = f.session_id;
  dir = f.dir;
  reason = f.reason;
}
carried ping f = record zero_frame { typ = ping; nonce = f.nonce }
carried pong f = record zero_frame { typ = pong; nonce = f.nonce }
carried (unknown n) f = record zero_frame { typ = unknown n }

byte_type-type_byte : (t : FrameType) (f : Frame) → Fits t f → byte_type (type_byte t) ≡ t
unfolding byte_type type_byte
byte_type-type_byte hello f h = refl
byte_type-type_byte open_frame f h = refl
byte_type-type_byte attach f h = refl
byte_type-type_byte attach_ok f h = refl
byte_type-type_byte data_frame f h = refl
byte_type-type_byte ack f h = refl
byte_type-type_byte close f h = refl
byte_type-type_byte ping f h = refl
byte_type-type_byte pong f h = refl
byte_type-type_byte (unknown n) f h = elim h [ ]

Decodes : FrameType → Frame → Bytes → Type 0
Decodes t f rest =
    ((encode_body t f).1 ≡ none)
    × (decode_body t ((encode_body t f).0 ++ rest) ≡ ok (carried t f, rest))

decode_body-encode_body : (t : FrameType) (f : Frame) (rest : Bytes) → Fits t f → Decodes t f rest
unfolding Decodes encode_body decode_body
decode_body-encode_body hello f rest h =
    rw (put_string_ok f.actor_id h) (refl, simp (append_assoc, get_string-put f.actor_id h))
decode_body-encode_body open_frame f rest h =
    rw (put_string_ok f.target h.1)
      (refl, simp (append_assoc, get_u64-put_u64 f.session_id h.0, get_string-put f.target h.1))
decode_body-encode_body attach f rest h = rw (put_string_ok f.target h.2) (
  refl,
  simp (
    append_assoc,
    get_u64-put_u64 f.session_id h.0,
    get_u64-put_u64 f.offset h.1,
    get_string-put f.target h.2,
  ),
)
decode_body-encode_body attach_ok f rest h =
    (refl, simp (append_assoc, get_u64-put_u64 f.session_id h.0, get_u64-put_u64 f.offset h.1))
decode_body-encode_body data_frame f rest h = rw (put_payload_ok f.payload h.2) (
  refl,
  simp (
    append_assoc,
    get_u64-put_u64 f.session_id h.0,
    get_u64-put_u64 f.offset h.1,
    get_payload-put f.payload h.2,
  ),
)
decode_body-encode_body ack f rest h =
    (refl, simp (append_assoc, get_u64-put_u64 f.session_id h.0, get_u64-put_u64 f.offset h.1))
decode_body-encode_body close f rest h = rw (put_string_ok f.reason h.1) (
  refl,
  simp
      (append_assoc, get_u64-put_u64 f.session_id h.0, read_byte-cons, get_string-put f.reason h.1),
)
decode_body-encode_body ping f rest h = (refl, simp (append_assoc, get_u64-put_u64 f.nonce h))
decode_body-encode_body pong f rest h = (refl, simp (append_assoc, get_u64-put_u64 f.nonce h))
decode_body-encode_body (unknown n) f rest h = elim h [ ]

-- A frame whose fields fit is encoded without an error, and the bytes decode to the frame, less the
-- fields that its type does not carry; what follows them on the connection is left to be read.
pub decode_frame-encode_frame :
    (f : Frame) (rest : Bytes)
    → Fits f.typ f
    → ((encode_frame f).1 ≡ none)
      × (decode_frame ((encode_frame f).0 ++ rest) ≡ ok (carried f.typ f, rest))
unfolding encode_frame decode_frame Decodes
decode_frame-encode_frame f rest h =
    let (none_left, back) = decode_body-encode_body f.typ f rest h in
    (none_left, rw (read_byte-cons, byte_type-type_byte f.typ f h) back)
