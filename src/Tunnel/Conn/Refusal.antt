-- ===== src/Tunnel/Conn/Refusal.antt =====
-- internal/tunnel/wire.go, `Conn`: a DATA frame that `encodeFrame` refuses leaves its header in the
-- writer's buffer, and the next frame is sent behind it.
use substrate_poc.Prelude.{
  ℕ, ◌≤◌, ◌<◌, ◌≡◌, refl, ◌≢◌, none, some, [], ◌∷◌, ◌++◌, append-nil, append_assoc, arith, lt→ltb,
  length, drop, length-append, drop-length_append, Bytes, IsU64, payload_too_big, ok, err,
}
use substrate_poc.Tunnel.Frame.{
  FrameType, hello, open_frame, attach, attach_ok, data_frame, ack, close, ping, pong, unknown,
  type_byte, byte_type, max_payload, Frame,
}
use substrate_poc.Tunnel.Wire.{
  put_u64, get_payload, get_u32, encode_body, encode_frame, decode_body, decode_frame,
}
use substrate_poc.Tunnel.Wire.Integers.{get_be, length-be}
use substrate_poc.Tunnel.Wire.Fields.{get_u64-put_u64, put_payload_err, read_byte-cons}
use substrate_poc.Tunnel.Conn.{Conn, write_frame}
use substrate_poc.Tunnel.Conn.Delivery.{IsClean}

-- The type byte and the fields of a DATA frame that are written before its payload is looked at.
abbrev pub header : Frame → Bytes
header f = type_byte data_frame ∷ put_u64 f.session_id ++ put_u64 f.offset

encode_frame-refused :
    (f : Frame)
    → f.typ ≡ data_frame
    → max_payload < length f.payload
    → encode_frame f ≡ (header f, some payload_too_big)
unfolding encode_frame encode_body
encode_frame-refused f t big = rw (t, encode_body, put_payload_err f.payload big) (rw append-nil)

length-put_u64 : (v : ℕ) → length (put_u64 v) ≡ 8
unfolding put_u64
length-put_u64 v = length-be 8 v

put_u64_long : (v : ℕ) (ys : Bytes) → 8 ≤ length (put_u64 v ++ ys)
put_u64_long v ys = omega (arith, length-append (put_u64 v) ys, length-put_u64 v)

-- A number whose first byte is not 0 is too big for a payload's length.
get_u32-big :
    (t : ℕ) (bs : Bytes)
    → 1 ≤ t
    → 3 ≤ length bs
    → (n : ℕ) × (rest : Bytes) × (get_u32 (t ∷ bs) ≡ ok (n, rest)) × (max_payload < n)
unfolding get_u32 get_be
get_u32-big t [] h len = absurd (omega arith)
get_u32-big t (a ∷ []) h len = absurd (omega arith)
get_u32-big t (a ∷ b ∷ []) h len = absurd (omega arith)
get_u32-big t (a ∷ b ∷ c ∷ bs) h len = (_, bs, refl, omega arith)

get_payload-big :
    (t : ℕ) (bs : Bytes) → 1 ≤ t → 3 ≤ length bs → get_payload (t ∷ bs) ≡ err payload_too_big
unfolding get_payload
get_payload-big t bs h len =
    let (n, rest, e, big) = get_u32-big t bs h len in rw (e, lt→ltb _ _ big) refl

-- Every frame but HELLO has at least eight bytes behind its type.
length-encode_body :
    (t : FrameType) (f : Frame)
    → t ≢ hello
    → (encode_body t f).1 ≡ none
    → (8 ≤ length (encode_body t f).0) × (1 ≤ type_byte t)
unfolding encode_body type_byte
length-encode_body hello f h e = absurd (h refl)
length-encode_body open_frame f h e = (put_u64_long f.session_id _, omega arith)
length-encode_body attach f h e = (put_u64_long f.session_id _, omega arith)
length-encode_body attach_ok f h e = (put_u64_long f.session_id _, omega arith)
length-encode_body data_frame f h e = (put_u64_long f.session_id _, omega arith)
length-encode_body ack f h e = (put_u64_long f.session_id _, omega arith)
length-encode_body close f h e = (put_u64_long f.session_id _, omega arith)
length-encode_body ping f h e = (put_u64_long f.nonce _, omega arith)
length-encode_body pong f h e = (put_u64_long f.nonce _, omega arith)
length-encode_body (unknown n) f h e = cc

-- What a reader makes of a refused header with another frame behind it.
decode_frame-header :
    (f g : Frame) (rest : Bytes)
    → IsU64 f.session_id
    → IsU64 f.offset
    → g.typ ≢ hello
    → (encode_frame g).1 ≡ none
    → decode_frame (header f ++ ((encode_frame g).0 ++ rest)) ≡ err payload_too_big
unfolding encode_frame decode_frame decode_body type_byte byte_type
decode_frame-header f g rest sid off h e =
    let (long, pos) = length-encode_body g.typ g h e in
    rw (read_byte-cons) (
      simp (append_assoc, get_u64-put_u64 f.session_id sid, get_u64-put_u64 f.offset off)
        (rw (
          get_payload-big (type_byte g.typ) ((encode_body g.typ g).0 ++ rest) pos
            (omega (arith, length-append (encode_body g.typ g).0 rest)))))

pub write_frame-refused :
    (c : Conn) (f : Frame)
    → IsClean c
    → f.typ ≡ data_frame
    → max_payload < length f.payload
    → write_frame c f ≡ (record c { buffered = header f }, some payload_too_big)
unfolding write_frame
write_frame-refused c f clean t big =
    rw (clean.sound, encode_frame-refused f t big) (rw clean.drained)

write_frame-behind :
    (c : Conn) (g : Frame) (left : Bytes)
    → IsClean c
    → (encode_frame g).1 ≡ none
    → write_frame (record c { buffered = left }) g
      ≡ (record c { sent = c.sent ++ (left ++ (encode_frame g).0); buffered = [] }, none)
unfolding write_frame
write_frame-behind c g left clean e = rw (clean.sound, e) (rw clean.alive)

-- A DATA frame that is too long is refused, and the connection stays in use: whatever is sent next is
-- sent behind the header that was left in the buffer, so the peer, reading on from where the
-- connection was clean, fails with `payload_too_big` instead of decoding that next frame. The numbers of
-- the refused frame are 64 bits wide, and the next frame is no HELLO and is encoded without an error.
pub write_frame_desyncs :
    (c : Conn) (f g : Frame) (later : Bytes)
    → IsClean c
    → f.typ ≡ data_frame
    → IsU64 f.session_id
    → IsU64 f.offset
    → max_payload < length f.payload
    → g.typ ≢ hello
    → (encode_frame g).1 ≡ none
    → ((write_frame c f).1 ≡ some payload_too_big)
      × ((write_frame (write_frame c f).0 g).1 ≡ none)
      × (decode_frame (drop (length c.sent) (write_frame (write_frame c f).0 g).0.sent ++ later)
          ≡ err payload_too_big)
write_frame_desyncs c f g later clean t sid off big h e =
    rw (write_frame-refused c f clean t big, write_frame-behind c g (header f) clean e)
      (
        refl,
        refl,
        rw (drop-length_append c.sent, append_assoc) (decode_frame-header f g later sid off h e),
      )
