-- ===== src/Broker/Session/State.antt =====
-- internal/broker/session.go: the session, what it touches, and the ends of its life.
pub mod Sending
use mathlib.Core.Option
use substrate_poc.Prelude.{
  ℕ, ◌+◌, Bool, true, false, not, ◌&&◌, ◌||◌, Option, none, some, List, [], ◌∷◌, ◌++◌, ltb, ◌==◌,
  if◌then◌else◌, length, Bytes, codes, Error,
}
use substrate_poc.Tunnel.Frame.{close, dir_down, Frame, zero_frame}
use substrate_poc.Tunnel.Buffer
use substrate_poc.Tunnel.Buffer.{ReplayBuffer}
use substrate_poc.Tunnel.Conn.{Conn, write_frame}

-- internal/broker/broker.go, `Config`: the fields that a session reads.
pub record Config : Type 0 where
  pub session_buffer_bytes : ℕ
  pub max_suspend_watchdog : ℕ

-- The connection to the destination, as the broker used it.
pub record Upstream : Type 0 where
  pub written : Bytes
  pub write_closed : Bool
  pub closed : Bool

abbrev pub fresh_upstream : Upstream
fresh_upstream = record { written = []; write_closed = false; closed = false }

-- What a write to the destination answers; a failed write may have written a part.
pub data Outcome : Type 0 where
  wrote : Outcome
  failed : ℕ → Bytes → Outcome

-- Why the destination's stream ended: io.EOF, or an error with its text.
pub data Cause : Type 0 where
  end_of_stream : Cause
  broken : Bytes → Cause

-- `tconn` is the number of a tunnel connection. `watchdog` is when the armed timer fires.
pub record Session : Type 0 where
  pub cfg : Config
  pub actor_id : Bytes
  pub session_id : ℕ
  pub target : Bytes
  pub tconn : Option ℕ
  pub upstream : Option Upstream
  pub connected : Bool
  pub pre_conn : Bytes
  pub down_buf : ReplayBuffer
  pub upstream_written : ℕ
  pub request_outstanding : Bool
  pub up_closed : Bool
  pub down_closed : Bool
  pub dead : Bool
  pub watchdog : Option ℕ

-- What a session asks of its broker: `b.wake` with a reason, and `b.removeSession`.
pub data Event : Type 0 where
  woke : Bytes → Event
  removed : Event

-- A session, the tunnel connections by number, and what was asked of the broker, oldest first.
pub record World : Type 0 where
  pub session : Session
  pub conns : ℕ → Conn
  pub events : List Event

abbrev pub update_conn : (ℕ → Conn) → ℕ → Conn → ℕ → Conn
update_conn conns tc c i = if i == tc then c else conns i

unfoldable pub new_session : Config → Bytes → ℕ → Bytes → Session
unfolding Buffer.new_replay_buffer
new_session cfg actor_id session_id target = record {
  cfg = cfg;
  actor_id = actor_id;
  session_id = session_id;
  target = target;
  tconn = none;
  upstream = none;
  connected = false;
  pre_conn = [];
  down_buf = Buffer.new_replay_buffer cfg.session_buffer_bytes;
  upstream_written = 0;
  request_outstanding = false;
  up_closed = false;
  down_closed = false;
  dead = false;
  watchdog = none;
}

unfoldable pub wake : Bytes → World → World
wake reason w = record w { events = w.events ++ woke reason ∷ [] }

-- The session's part of `bind`; the tunnel connection's is `register`.
unfoldable pub bind : ℕ → World → World
bind tc w = record w { session = record w.session { tconn = some tc } }

abbrev pub bound_to : Option ℕ → ℕ → Bool
bound_to none tc = false
bound_to (some t) tc = t == tc

-- A request is unanswered, and there is something to hand to the sidecar.
abbrev pub undelivered : Session → Bool
undelivered s = s.request_outstanding && (ltb 0 (length s.down_buf.buf) || s.down_closed)

unfoldable pub detach : ℕ → World → World
unfolding wake
detach tc w =
    let s = w.session in
    let w' = record w { session = record s { tconn = none } } in
    if not (bound_to s.tconn tc)
    then w
    else if undelivered s
    then wake (codes "undelivered data on detach") w'
    else w'

-- Writes a frame on tunnel connection `tc`, and tells whether that went without an error.
unfoldable pub write : ℕ → Frame → World → World × Option Error
write tc f w =
    let r = write_frame (w.conns tc) f in (record w { conns = update_conn w.conns tc r.0 }, r.1)

abbrev pub detach_on_error : ℕ → World × Option Error → World
detach_on_error tc (w, none) = w
detach_on_error tc (w, some e) = detach tc w

abbrev pub send_on : Option ℕ → Frame → World → World
send_on none f w = w
send_on (some tc) f w = detach_on_error tc (write tc f w)

unfoldable pub send_to_sidecar : Frame → World → World
unfolding write
send_to_sidecar f w = send_on w.session.tconn f w

abbrev pub close_socket : Upstream → Upstream
close_socket up = record up { closed = true }

unfoldable pub destroy : World → World
destroy w =
    let s = w.session in
    if s.dead then w else record w {
      session = record s {
        dead = true;
        upstream = Option.map close_socket s.upstream;
        watchdog = none;
      };
      events = w.events ++ removed ∷ [];
    }

unfoldable pub maybe_destroy : World → World
unfolding destroy
maybe_destroy w =
    let s = w.session in
    if s.up_closed && s.down_closed && (length s.down_buf.buf == 0) then destroy w else w

abbrev pub close_down : ℕ → Bytes → Frame
close_down session_id reason = record zero_frame {
  typ = close;
  session_id = session_id;
  dir = dir_down;
  reason = reason;
}

abbrev pub cause_reason : Cause → Bytes
cause_reason end_of_stream = codes "upstream EOF"
cause_reason (broken text) = text

abbrev pub is_bound : Option ℕ → Bool
is_bound none = false
is_bound (some tc) = true

-- The CLOSE goes to the sidecar, or wakes the actor that waits for an answer, or is left for the next
-- ATTACH.
unfoldable pub announce_close : Cause → World → World
announce_close cause w =
    let s = w.session in
    if is_bound s.tconn
    then send_to_sidecar (close_down s.session_id (cause_reason cause)) w
    else if s.request_outstanding
    then wake (codes "upstream close on pending session") w
    else w

-- The destination's stream ended.
unfoldable pub close_upstream : Cause → World → World
close_upstream cause w =
    let s = w.session in
    if s.down_closed
    then w
    else maybe_destroy
        (announce_close cause (record w { session = record s { down_closed = true } }))

-- Stops the timer, if one runs, and starts it anew.
unfoldable pub arm_watchdog : ℕ → Session → Session
arm_watchdog now s = record s { watchdog = some (now + s.cfg.max_suspend_watchdog) }

-- The timer fires: once, until it is armed again.
unfoldable pub watchdog_fires : World → World
unfolding wake
watchdog_fires w =
    let s = w.session in
    let w₁ = record w { session = record s { watchdog = none } } in
    if not s.dead && (s.request_outstanding && not (is_bound s.tconn))
    then wake (codes "max-suspend watchdog") w₁
    else w₁
