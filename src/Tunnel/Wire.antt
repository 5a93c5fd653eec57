-- ===== src/Tunnel/Wire.antt =====
-- internal/tunnel/wire.go, the codec: what `encodeFrame` puts into the buffered writer, and what
-- `decodeFrame` reads from the connection. Input is the bytes that are still to come.
pub mod Integers
pub mod Fields
pub mod RoundTrip
pub mod Decoding
use substrate_poc.Prelude.{
  ◌>>=◌, ℕ, ◌+◌, ◌%◌, ◌^◌, Bytes, [], ◌∷◌, ◌++◌, Option, none, some, ltb, if◌then◌else◌, length,
  take, drop, Error, eof, payload_too_big, string_too_big, bad_type, Result, ok, err,
}
use substrate_poc.Tunnel.Frame.{
  FrameType, hello, open_frame, attach, attach_ok, data_frame, ack, close, ping, pong, unknown,
  type_byte, byte_type, max_payload, max_string, Frame, zero_frame,
}
use Integers.{be, get_be}

-- The bytes written so far, and the error that stopped the writing. Bytes that were written before
-- an error stay written: they are in the writer's buffer.
abbrev pub Put : Type 0
Put = Bytes × Option Error

abbrev pub emit : Bytes → Put → Put
emit bs p = (bs ++ p.0, p.1)

abbrev pub done : Put
done = ([], none)

abbrev pub fail : Error → Put
fail e = ([], some e)

unfoldable pub put_u16 : ℕ → Bytes
put_u16 v = be 2 (v % 2 ^ 16)

unfoldable pub put_u32 : ℕ → Bytes
put_u32 v = be 4 (v % 2 ^ 32)

unfoldable pub put_u64 : ℕ → Bytes
put_u64 v = be 8 v

unfoldable pub put_string : Bytes → Put
put_string s =
    if ltb max_string (length s)
    then fail string_too_big
    else emit (put_u16 (length s)) (emit s done)

unfoldable pub put_payload : Bytes → Put
put_payload p =
    if ltb max_payload (length p)
    then fail payload_too_big
    else emit (put_u32 (length p)) (emit p done)

-- The fields behind the type byte.
unfoldable pub encode_body : FrameType → Frame → Put
encode_body hello f = put_string f.actor_id
encode_body open_frame f = emit (put_u64 f.session_id) (put_string f.target)
encode_body attach f = emit (put_u64 f.session_id) (emit (put_u64 f.offset) (put_string f.target))
encode_body attach_ok f = emit (put_u64 f.session_id) (emit (put_u64 f.offset) done)
encode_body data_frame f =
    emit (put_u64 f.session_id) (emit (put_u64 f.offset) (put_payload f.payload))
encode_body ack f = emit (put_u64 f.session_id) (emit (put_u64 f.offset) done)
encode_body close f = emit (put_u64 f.session_id) (emit (f.dir ∷ []) (put_string f.reason))
encode_body ping f = emit (put_u64 f.nonce) done
encode_body pong f = emit (put_u64 f.nonce) done
encode_body (unknown n) f = fail bad_type

unfoldable pub encode_frame : Frame → Put
encode_frame f = emit (type_byte f.typ ∷ []) (encode_body f.typ f)

-- `io.ReadFull` into a buffer of `n` bytes.
unfoldable pub read_full : ℕ → Bytes → Result (Bytes × Bytes)
read_full n src = if ltb (length src) n then err eof else ok (take n src, drop n src)

unfoldable pub read_byte : Bytes → Result (ℕ × Bytes)
read_byte [] = err eof
read_byte (b ∷ rest) = ok (b, rest)

unfoldable pub get_u32 : Bytes → Result (ℕ × Bytes)
get_u32 src = get_be 4 0 src

unfoldable pub get_u64 : Bytes → Result (ℕ × Bytes)
get_u64 src = get_be 8 0 src

unfoldable pub get_string : Bytes → Result (Bytes × Bytes)
get_string src = do (n, src₁) ← get_be 2 0 src; read_full n src₁

unfoldable pub get_payload : Bytes → Result (Bytes × Bytes)
get_payload src = do
  (n, src₁) ← get_u32 src
  if ltb max_payload n then err payload_too_big else read_full n src₁

-- Every caller of `decodeFrame` drops the frame when there is an error, so an error carries none.
unfoldable pub decode_body : FrameType → Bytes → Result (Frame × Bytes)
decode_body hello src = do
  (actor_id, src) ← get_string src
  ok (record zero_frame { typ = hello; actor_id = actor_id }, src)
decode_body open_frame src = do
  (session_id, src) ← get_u64 src
  (target, src) ← get_string src
  ok (record zero_frame { typ = open_frame; session_id = session_id; target = target }, src)
decode_body attach src = do
  (session_id, src) ← get_u64 src
  (offset, src) ← get_u64 src
  (target, src) ← get_string src
  ok (
    record zero_frame { typ = attach; session_id = session_id; offset = offset; target = target },
    src,
  )
decode_body attach_ok src = do
  (session_id, src) ← get_u64 src
  (offset, src) ← get_u64 src
  ok (record zero_frame { typ = attach_ok; session_id = session_id; offset = offset }, src)
decode_body data_frame src = do
  (session_id, src) ← get_u64 src
  (offset, src) ← get_u64 src
  (payload, src) ← get_payload src
  ok (
    record zero_frame {
      typ = data_frame;
      session_id = session_id;
      offset = offset;
      payload = payload;
    },
    src,
  )
decode_body ack src = do
  (session_id, src) ← get_u64 src
  (offset, src) ← get_u64 src
  ok (record zero_frame { typ = ack; session_id = session_id; offset = offset }, src)
decode_body close src = do
  (session_id, src) ← get_u64 src
  (dir, src) ← read_byte src
  (reason, src) ← get_string src
  ok (record zero_frame { typ = close; session_id = session_id; dir = dir; reason = reason }, src)
decode_body ping src = do
  (nonce, src) ← get_u64 src
  ok (record zero_frame { typ = ping; nonce = nonce }, src)
decode_body pong src = do
  (nonce, src) ← get_u64 src
  ok (record zero_frame { typ = pong; nonce = nonce }, src)
decode_body (unknown n) src = err bad_type

unfoldable pub decode_frame : Bytes → Result (Frame × Bytes)
decode_frame src = do (t, src) ← read_byte src; decode_body (byte_type t) src
