-- ===== src/System/Handling.antt =====
-- internal/sidecar/session.go in a run of the whole: a frame from the broker.
use substrate_poc.Prelude.{
  ℕ, ◌+◌, ◌%◌, ◌≤◌, ◌<◌, ◌≡◌, refl, sym, ap, subst, ◌∙◌, true, Option, none, some, [], ◌∷◌, arith,
  ltb, ◌==◌, if◌then◌else◌, length, drop, take, length-drop, Bytes, u64_mod, IsU64, replay_acked,
  replay_beyond, Result, ok, err, if-intro, IsSlice, IsSlice-rest,
}
use substrate_poc.Tunnel.Frame.{
  FrameType, dir_down, max_payload, Frame, hello, open_frame, attach, attach_ok, data_frame, ack,
  close, ping, pong, unknown,
}
use substrate_poc.Tunnel.Buffer
use substrate_poc.Tunnel.Buffer.{
  ReplayBuffer, new_replay_buffer, append, free, len, end, trim_to, from,
}
use substrate_poc.Tunnel.Buffer.Stream.{Holds, from_lem}
use substrate_poc.Tunnel.Wire.RoundTrip.{Fits}
use substrate_poc.Sidecar.Session.{
  Side, data_up, on_upstream_ack, close_all, agent_takes, deliver_accept, ack_up, deliver_written,
  deliver_write, deliver_down, resend, on_attach_ok, half_close_agent, on_close, on_frame,
}
use substrate_poc.System.SidecarEnd.{Holding-same, Holding-send, IsHolding, IsHolding-trimmed}

-- What is sent behind an offset of the replay buffer is a piece of the stream.
IsHolding-resend :
    (u : Bytes) (offset : ℕ) (r : Result Bytes) (v : Side)
    → ((bs : Bytes) → r ≡ ok bs → IsSlice u offset bs × (length bs ≤ max_payload))
    → IsU64 offset
    → IsHolding u v
    → IsHolding u (resend offset r v)
IsHolding-resend u offset (err e) v piece small h = h
IsHolding-resend u offset (ok []) v piece small h = h
IsHolding-resend u offset (ok (x ∷ xs)) v piece small h =
    let (slice, fits) = piece (x ∷ xs) refl in
    Holding-send (data_up v.session.session_id offset (x ∷ xs)) v (h.id_fits, small, fits)
      (λ _. slice) h

from-IsSlice :
    (u : Bytes) (b : ReplayBuffer) (offset : ℕ)
    → Holds b u
    → b.max ≤ max_payload
    → (bs : Bytes) → Buffer.from b offset ≡ ok bs
    → IsSlice u offset bs × (length bs ≤ max_payload)
from-IsSlice u b offset h narrow bs e =
    let whole : (if ltb offset b.base
          then err replay_acked
          else if ltb (length u) offset
          then err replay_beyond
          else ok (drop offset u))
        ≡ ok bs =
      sym (from_lem h offset) ∙ e in
    let same : drop offset u ≡ bs = ground (arith, whole) in
    let within : (b.base ≤ offset) × (offset ≤ length u) = ground (arith, whole) in
    (
      subst (IsSlice u offset) same (IsSlice-rest u offset within.1),
      omega (
        arith,
        ap length same,
        length-drop offset u,
        length-drop b.base u,
        ap length h.tail,
        h.capped,
        within.0,
      ),
    )

pub IsHolding-on_attach_ok :
    (u : Bytes) (offset : ℕ) (v : Side)
    → IsU64 offset
    → IsHolding u v
    → IsHolding u (on_attach_ok offset v)
unfolding on_attach_ok
IsHolding-on_attach_ok u offset v small h =
    let h' = IsHolding-trimmed u offset v h in
    IsHolding-resend u offset (Buffer.from (Buffer.trim_to v.session.up_buf offset) offset) _
      (from-IsSlice u (Buffer.trim_to v.session.up_buf offset) offset h'.held h'.narrow) small h'

IsHolding-close_all : (u : Bytes) (v : Side) → IsHolding u v → IsHolding u (close_all v)
unfolding close_all
IsHolding-close_all u v h =
    if-intro {A = Side} (IsHolding u) v.session.dead (λ _. h)
      (λ _. Holding-same {s = v.session} refl refl refl h.counted h)

IsHolding-deliver_write :
    (u : Bytes) (fault : Option ℕ) (o : Option Bytes) (v : Side)
    → IsHolding u v
    → IsHolding u (deliver_write fault o v)
unfolding deliver_write deliver_written
IsHolding-deliver_write u fault none v h = h
IsHolding-deliver_write u (some n) (some p) v h =
    IsHolding-close_all u (agent_takes (take n p) v)
      (Holding-same {s = v.session} refl refl refl h.counted h)
IsHolding-deliver_write u none (some p) v h =
    let delivered = (v.session.down_delivered + length p) % u64_mod in
    let small : delivered < u64_mod = omega arith in
    Holding-send (ack_up v.session.session_id delivered) _ (h.id_fits, small) (λ e. absurd cc)
      (Holding-same {s = v.session} refl refl refl small h)

IsHolding-half_close_agent :
    (u : Bytes) (v : Side) → IsHolding u v → IsHolding u (half_close_agent v)
IsHolding-half_close_agent u v h =
    if-intro {A = Side} (IsHolding u) v.session.agent.can_half_close
      (λ _. Holding-same {s = v.session} refl refl refl h.counted h)
      (λ _. IsHolding-close_all u v h)

IsHolding-on_close : (u : Bytes) (dir : ℕ) (v : Side) → IsHolding u v → IsHolding u (on_close dir v)
unfolding on_close
IsHolding-on_close u dir v h =
    if-intro {A = Side} (IsHolding u) (dir == dir_down)
      (λ _.
        IsHolding-half_close_agent u
          (record v { session = record v.session { down_closed = true } })
          (Holding-same {s = v.session} refl refl refl h.counted h))
      (λ _. h)

pub IsHolding-on_frame :
    (u : Bytes) (fault : Option ℕ) (t : FrameType) (f : Frame) (v : Side)
    → f.typ ≡ t
    → Fits t f
    → IsHolding u v
    → IsHolding u (on_frame fault f v)
unfolding on_frame deliver_down on_upstream_ack
IsHolding-on_frame u fault attach_ok f v e fits h =
    rw e (IsHolding-on_attach_ok u f.offset v fits.1 h)
IsHolding-on_frame u fault data_frame f v e fits h =
    rw e (IsHolding-deliver_write u fault (deliver_accept f.offset f.payload v) v h)
IsHolding-on_frame u fault ack f v e fits h = rw e (IsHolding-trimmed u f.offset v h)
IsHolding-on_frame u fault close f v e fits h = rw e (IsHolding-on_close u f.dir v h)
IsHolding-on_frame u fault hello f v e fits h = rw e h
IsHolding-on_frame u fault open_frame f v e fits h = rw e h
IsHolding-on_frame u fault attach f v e fits h = rw e h
IsHolding-on_frame u fault ping f v e fits h = rw e h
IsHolding-on_frame u fault pong f v e fits h = rw e h
IsHolding-on_frame u fault (unknown n) f v e fits h = rw e h
