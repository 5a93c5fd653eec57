-- ===== src/Tunnel/Conn.antt =====
-- internal/tunnel/wire.go, `Conn`: frames through a buffered writer onto a socket.
-- A bufio.Writer flushes early when 64 KiB are full; here bytes stay in the buffer until the flush
-- that ends `WriteFrame`. The order of the bytes on the socket is the same.
pub mod Delivery
pub mod Refusal
use substrate_poc.Prelude.{
  ◌>>=◌, ℕ, zero, suc, ◌+◌, Bool, true, false, Option, none, some, List, [], ◌∷◌, ◌++◌,
  if◌then◌else◌, Bytes, Error, write_failed, Result, ok,
}
use substrate_poc.Tunnel.Frame.{Frame}
use substrate_poc.Tunnel.Wire.{encode_frame, decode_frame}

-- `sent` is what the socket took, `buffered` what the writer holds. `alive` is the environment's: a
-- write to a socket that is not alive returns an error. `failed` is the writer's sticky error.
pub record Conn : Type 0 where
  pub sent : Bytes
  pub buffered : Bytes
  pub alive : Bool
  pub failed : Bool

unfoldable pub new_conn : Conn
new_conn = record { sent = []; buffered = []; alive = true; failed = false }

-- The environment breaks the connection, or `Close` does.
unfoldable pub close_conn : Conn → Conn
close_conn c = record c { alive = false }

unfoldable pub flush : Conn → Conn × Option Error
flush c =
    if c.alive
    then (record c { sent = c.sent ++ c.buffered; buffered = [] }, none)
    else (record c { failed = true }, some write_failed)

-- What the writer does behind `encodeFrame`: an error of the encoder returns before the flush.
unfoldable pub after_encode : Conn → Option Error → Conn × Option Error
unfolding flush
after_encode c (some e) = (c, some e)
after_encode c none = flush c

unfoldable pub write_frame : Conn → Frame → Conn × Option Error
unfolding after_encode
write_frame c f =
    if c.failed
    then (c, some write_failed)
    else after_encode (record c { buffered = c.buffered ++ (encode_frame f).0 }) (encode_frame f).1

-- A run of writes by one writer; the first error ends it.
unfoldable pub write_frames : Conn → List Frame → Conn × Option Error
write_frames c [] = (c, none)
write_frames c (f ∷ fs) =
    let rest = write_frames (write_frame c f).0 fs in
    elim (write_frame c f).1 [ some e ↦ ((write_frame c f).0, some e) | none ↦ rest ]

-- The reader's loop, until the input or the count of frames is used up.
unfoldable pub read_frames : ℕ → Bytes → Result (List Frame × Bytes)
read_frames zero src = ok ([], src)
read_frames (suc n) src = do
  (f, src₁) ← decode_frame src
  (fs, src₂) ← read_frames n src₁
  ok (f ∷ fs, src₂)
