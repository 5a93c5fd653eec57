-- ===== src/Tunnel/Conn/Delivery.antt =====
-- internal/tunnel/wire.go, `Conn`: what a live connection delivers.
use substrate_poc.Prelude.{
  ◌≡◌, refl, sym, ◌∙◌, true, false, none, List, [], ◌∷◌, ◌++◌, map, append-nil, append_assoc, arith,
  length, drop, drop-length_append, All, Bytes, ok,
}
use substrate_poc.Tunnel.Frame.{Frame}
use substrate_poc.Tunnel.Wire.{encode_frame}
use substrate_poc.Tunnel.Wire.RoundTrip.{Fits, carried, decode_frame-encode_frame}
use substrate_poc.Tunnel.Conn.{Conn, write_frame, write_frames, read_frames}

-- The peer is connected, and nothing of an earlier frame is left in the writer.
pub record IsClean (c : Conn) : Type 0 where
  pub alive : c.alive ≡ true
  pub sound : c.failed ≡ false
  pub drained : c.buffered ≡ []

abbrev pub FrameFits : Frame → Type 0
FrameFits f = Fits f.typ f

abbrev pub encodings : List Frame → Bytes
encodings [] = []
encodings (f ∷ fs) = (encode_frame f).0 ++ encodings fs

pub write_frame-sent :
    {c : Conn} (f : Frame)
    → IsClean c
    → (encode_frame f).1 ≡ none
    → ((write_frame c f).1 ≡ none)
      × IsClean (write_frame c f).0
      × ((write_frame c f).0.sent ≡ c.sent ++ (encode_frame f).0)
unfolding write_frame
write_frame-sent f clean e = ground arith

write_frames-sent :
    (c : Conn) (fs : List Frame)
    → IsClean c
    → All FrameFits fs
    → ((write_frames c fs).1 ≡ none) × ((write_frames c fs).0.sent ≡ c.sent ++ encodings fs)
unfolding write_frames
write_frames-sent c [] clean h = (refl, sym (append-nil _))
write_frames-sent c (f ∷ fs) clean h =
    let (e, clean', s) = write_frame-sent f clean (decode_frame-encode_frame f [] h.0).0 in
    let (e₂, s₂) = write_frames-sent (write_frame c f).0 fs clean' h.1 in
    rw (e, write_frames) (e₂, s₂ ∙ rw (s, append_assoc))

read_frames-encodings :
    (fs : List Frame) (rest : Bytes)
    → All FrameFits fs
    → read_frames (length fs) (encodings fs ++ rest) ≡ ok (map (λ f. carried f.typ f) fs, rest)
unfolding read_frames
read_frames-encodings [] rest h = refl
read_frames-encodings (f ∷ fs) rest h = rw (
  append_assoc,
  (decode_frame-encode_frame f (encodings fs ++ rest) h.0).1,
  read_frames-encodings fs rest h.1,
)

-- Frames that fit, written in a row on a connection that is clean, meet no error, and the peer, which
-- has read all that was sent before, reads these frames in order and nothing else.
pub read_frames-write_frames :
    {c : Conn} (fs : List Frame)
    → IsClean c
    → All FrameFits fs
    → ((write_frames c fs).1 ≡ none)
      × (read_frames (length fs) (drop (length c.sent) (write_frames c fs).0.sent)
          ≡ ok (map (λ f. carried f.typ f) fs, []))
read_frames-write_frames {c} fs clean h =
    let (e, s) = write_frames-sent c fs clean h in
    (
      e,
      rw (s, drop-length_append c.sent (encodings fs), ← append-nil (encodings fs))
          (read_frames-encodings fs [] h),
    )
