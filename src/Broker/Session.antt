-- ===== src/Broker/Session.antt =====
-- internal/broker/session.go: one agent-side connection, terminated at the broker.
-- A function is one critical section of the session's lock, or a handler that runs its sections one
-- after the other. `now` is the time of the call, and an `Outcome` what the network answers.
pub mod State
pub mod Downlink
pub mod Uplink
pub mod Quiescence
pub mod Lifetime
use substrate_poc.Prelude.{
  ℕ, Bool, true, false, not, ◌&&◌, Option, none, some, List, [], ◌∷◌, Bytes,
}
use substrate_poc.Tunnel.Buffer
use State.{
  Upstream, Outcome, Cause, Session, World, bind, detach, destroy, is_bound, close_upstream,
  watchdog_fires,
}
use Downlink.{
  Produced, produce_downstream, on_downstream_ack, on_sidecar_attach, finished, blocked, died,
  refused, stuck,
}
use Uplink.{Dialed, dial_upstream, on_data, on_sidecar_close}

-- `readUpstreamLoop` behind a run of the producer: it goes on to the error of the same read, or gives
-- the session up, or waits with the bytes that are left.
unfoldable pub after_produce : Option Cause → World × Produced → World
after_produce none (w, finished) = w
after_produce (some cause) (w, finished) = close_upstream cause w
after_produce cause (w, blocked left) = w
after_produce cause (w, died) = destroy w
after_produce cause (w, refused e) = destroy w
after_produce cause (w, stuck) = w

-- One round of `readUpstreamLoop`: a read that brought `p`, perhaps none, and perhaps the stream's end.
-- A producer that waited goes on by a round over what was left.
unfoldable pub read_upstream : Bytes → Option Cause → World → World
unfolding after_produce
read_upstream p cause w = after_produce cause (produce_downstream p w)

-- What can happen to a session.
pub data Act : Type 0 where
  binds : ℕ → Act
  detaches : ℕ → Act
  dials : Dialed → ℕ → Act
  data_comes : ℕ → Outcome → ℕ → Bytes → Act
  acks : ℕ → Act
  attaches : ℕ → Act
  closes : ℕ → Act
  reads : Bytes → Option Cause → Act
  fires : Act

unfoldable pub act : Act → World → World
act (binds tc) w = bind tc w
act (detaches tc) w = detach tc w
act (dials dialed now) w = dial_upstream dialed now w
act (data_comes now outcome offset payload) w = on_data now outcome offset payload w
act (acks offset) w = on_downstream_ack offset w
act (attaches delivered) w = on_sidecar_attach delivered w
act (closes dir) w = on_sidecar_close dir w
act (reads p cause) w = read_upstream p cause w
act fires w = watchdog_fires w

unfoldable pub run : List Act → World → World
unfolding act
run [] w = w
run (a ∷ acts) w = run acts (act a w)

-- internal/broker/broker.go, `SessionInfo`, less the broker's key; `UpBufferBytes` is never set.
pub record SessionInfo : Type 0 where
  pub target : Bytes
  pub attached : Bool
  pub pending : Bool
  pub up_buffer_bytes : ℕ
  pub down_buf_bytes : ℕ
  pub upstream_alive : Bool

abbrev has_upstream : Option Upstream → Bool
has_upstream none = false
has_upstream (some up) = true

unfoldable pub info : Session → SessionInfo
unfolding Buffer.len
info s = record {
  target = s.target;
  attached = is_bound s.tconn;
  pending = s.request_outstanding;
  up_buffer_bytes = 0;
  down_buf_bytes = Buffer.len s.down_buf;
  upstream_alive = has_upstream s.upstream && not s.dead;
}
