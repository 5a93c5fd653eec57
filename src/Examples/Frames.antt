-- ===== src/Examples/Frames.antt =====
-- Frames on the wire.
use substrate_poc.Prelude.{
  ◌<◌, ◌≡◌, refl, none, some, [], ◌∷◌, ◌++◌, arith, length, drop, All, Bytes, IsByte,
  payload_too_big, ok, err,
}
use substrate_poc.Tunnel.Frame.{
  type_byte, byte_type, max_payload, Frame, zero_frame, data_frame, ack,
}
use substrate_poc.Tunnel.Wire.{
  put_u64, encode_body, encode_frame, read_full, read_byte, get_u64, decode_body, decode_frame,
}
use substrate_poc.Tunnel.Wire.Integers.{be, get_be}
use substrate_poc.Tunnel.Wire.RoundTrip.{Fits, decode_frame-encode_frame}
use substrate_poc.Tunnel.Wire.Decoding.{encode_frame-decode_frame}
use substrate_poc.Tunnel.Conn.{write_frame, write_frames, read_frames}
use substrate_poc.Tunnel.Conn.Delivery.{read_frames-write_frames}
use substrate_poc.Tunnel.Conn.Refusal.{write_frame_desyncs}
use substrate_poc.Examples.{big, length-big, up_conn, up_conn-IsClean}

abbrev sample : Frame
sample = record zero_frame {
  typ = data_frame;
  session_id = 7;
  offset = 300;
  payload = 11 ∷ 12 ∷ [];
}

abbrev ack_300 : Frame
ack_300 = record zero_frame { typ = ack; session_id = 7; offset = 300 }

sample-Fits : Fits data_frame sample
sample-Fits = (omega arith, omega arith, omega arith)

decode_frame-encode_frame_example :
    ((encode_frame sample).1 ≡ none)
    × (decode_frame ((encode_frame sample).0 ++ 9 ∷ []) ≡ ok (sample, 9 ∷ []))
decode_frame-encode_frame_example = decode_frame-encode_frame sample (9 ∷ []) sample-Fits

abbrev ack_bytes : Bytes
ack_bytes = 6 ∷ 0 ∷ 0 ∷ 0 ∷ 0 ∷ 0 ∷ 0 ∷ 0 ∷ 7 ∷ 0 ∷ 0 ∷ 0 ∷ 0 ∷ 0 ∷ 0 ∷ 1 ∷ 44 ∷ []

-- The bytes of an ACK of offset 300 on session 7, as the code writes them.
ack_run : (encode_frame ack_300).0 ≡ ack_bytes
unfolding encode_frame encode_body type_byte put_u64 be
ack_run = refl

ack_bytes-IsByte : All IsByte (ack_bytes ++ 9 ∷ [])
ack_bytes-IsByte = omega arith

ack_decodes : decode_frame (ack_bytes ++ 9 ∷ []) ≡ ok (ack_300, 9 ∷ [])
unfolding decode_frame decode_body get_u64 read_full read_byte byte_type get_be
ack_decodes = refl

encode_frame-decode_frame_example :
    ((encode_frame ack_300).1 ≡ none) × (ack_bytes ++ 9 ∷ [] ≡ (encode_frame ack_300).0 ++ 9 ∷ [])
encode_frame-decode_frame_example =
    encode_frame-decode_frame (ack_bytes ++ 9 ∷ []) ack_300 (9 ∷ []) ack_bytes-IsByte ack_decodes tt

read_frames-write_frames_example :
    ((write_frames up_conn (sample ∷ ack_300 ∷ [])).1 ≡ none)
    × (read_frames 2 (drop 0 (write_frames up_conn (sample ∷ ack_300 ∷ [])).0.sent)
        ≡ ok (sample ∷ ack_300 ∷ [], []))
read_frames-write_frames_example =
    read_frames-write_frames (sample ∷ ack_300 ∷ []) up_conn-IsClean
      (sample-Fits, ((omega arith, omega arith), tt))

abbrev oversize : Frame
oversize = record zero_frame { typ = data_frame; session_id = 7; offset = 300; payload = big }

too_big : max_payload < length big
too_big = omega (arith, length-big)

ack_encodes : (encode_frame ack_300).1 ≡ none
unfolding encode_frame encode_body
ack_encodes = refl

write_frame_desyncs_example :
    ((write_frame up_conn oversize).1 ≡ some payload_too_big)
    × ((write_frame (write_frame up_conn oversize).0 ack_300).1 ≡ none)
    × (decode_frame (drop 0 (write_frame (write_frame up_conn oversize).0 ack_300).0.sent ++ 9 ∷ [])
        ≡ err payload_too_big)
write_frame_desyncs_example =
    write_frame_desyncs up_conn oversize ack_300 (9 ∷ []) up_conn-IsClean refl (omega arith)
      (omega arith) too_big (λ e. absurd cc) ack_encodes
