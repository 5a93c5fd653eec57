-- ===== src/Sidecar/Session.antt =====
-- internal/sidecar/session.go: the sidecar's half of one tunnel session.
-- A function is one critical section of the session's lock, or a handler that runs its sections one
-- after the other.
pub mod Deliver
pub mod WriteUp
pub mod Told
pub mod Teardown
use mathlib.Core.Option
use substrate_poc.Prelude.{
  ◌>>=◌, ℕ, zero, suc, ◌+◌, ◌-◌, ◌%◌, Bool, true, false, Option, none, some, [], ◌∷◌, ◌++◌, map,
  ltb, leb, ◌==◌, if◌then◌else◌, length, take, drop, Bytes, u64_mod, Error, Result, ok, err,
}
use substrate_poc.Tunnel.Frame.{
  dir_up, dir_down, Frame, zero_frame, hello, open_frame, attach, attach_ok, data_frame, ack, close,
  ping, pong, unknown,
}
use substrate_poc.Tunnel.Buffer
use substrate_poc.Tunnel.Buffer.{ReplayBuffer}
use substrate_poc.Tunnel.Conn.{Conn, write_frame}

-- The agent's connection, as the sidecar used it. `can_half_close` tells whether it has `CloseWrite`.
pub record Agent : Type 0 where
  pub received : Bytes
  pub half_closed : Bool
  pub closed : Bool
  pub can_half_close : Bool

pub record ClientSession : Type 0 where
  pub session_id : ℕ
  pub target : Bytes
  pub agent : Agent
  pub up_buf : ReplayBuffer
  pub down_delivered : ℕ
  pub up_closed : Bool
  pub down_closed : Bool
  pub dead : Bool

-- A session, the client's tunnel connection, and whether `removeSession` was called.
pub record Side : Type 0 where
  pub session : ClientSession
  pub conn : Option Conn
  pub removed : Bool

unfoldable pub new_client_session : ℕ → ℕ → Bytes → Agent → ClientSession
unfolding Buffer.new_replay_buffer
new_client_session session_buffer id target agent = record {
  session_id = id;
  target = target;
  agent = agent;
  up_buf = Buffer.new_replay_buffer session_buffer;
  down_delivered = 0;
  up_closed = false;
  down_closed = false;
  dead = false;
}

-- internal/sidecar/client.go, `send`: the frame is dropped while there is no tunnel.
abbrev pub write_through : Frame → Conn → Conn
write_through f tc = (write_frame tc f).0

unfoldable pub send : Frame → Side → Side
send f w = record w { conn = Option.map (write_through f) w.conn }

abbrev pub data_up : ℕ → ℕ → Bytes → Frame
data_up session_id offset payload = record zero_frame {
  typ = data_frame;
  session_id = session_id;
  offset = offset;
  payload = payload;
}

-- How a run of `writeUp` ends. `waiting` waits on the condition with bytes left; `stuck` is no Go value:
-- the fuel ran out.
pub data Written : Type 0 where
  accepted : Written
  waiting : Bytes → Written
  net_closed : Written
  refused : Error → Written
  stuck : Written

-- As much of `p` as the buffer has room for.
abbrev pub chunk_size : Side → Bytes → ℕ
chunk_size w p =
    let room = Buffer.free w.session.up_buf in if ltb room (length p) then room else length p

-- One round of the loop: `chunk` is retained, and sent if the tunnel is up.
unfoldable pub write_chunk : Bytes → Side → Result Side
write_chunk chunk w = do
  buf ← Buffer.append w.session.up_buf chunk
  ok (
      send (data_up w.session.session_id (Buffer.end w.session.up_buf) chunk)
        (record w { session = record w.session { up_buf = buf } }))

-- Each round takes at least a byte.
unfoldable pub write_loop : ℕ → Bytes → Side → Side × Written
write_loop zero p w = (w, stuck)
write_loop (suc fuel) [] w = (w, accepted)
write_loop (suc fuel) (x ∷ xs) w =
    let p = x ∷ xs in
    if w.session.dead
    then (w, net_closed)
    else if Buffer.free w.session.up_buf == 0
    then (w, waiting p)
    else elim (write_chunk (take (chunk_size w p) p) w) [
      | err e ↦ (w, refused e)
      | ok w' ↦ write_loop fuel (drop (chunk_size w p) p) w'
    ]

unfoldable pub write_up : Bytes → Side → Side × Written
write_up p w = write_loop (suc (length p)) p w

unfoldable pub on_upstream_ack : ℕ → Side → Side
on_upstream_ack offset w = record w {
  session = record w.session { up_buf = Buffer.trim_to w.session.up_buf offset };
}

unfoldable pub close_all : Side → Side
close_all w =
    let s = w.session in
    if s.dead then w else record w {
      session = record s { dead = true; agent = record s.agent { closed = true } };
      removed = true;
    }

-- DATA from the broker: what is to be written to the agent, or `none` if it is old or out of order.
unfoldable pub undelivered_part : ℕ → Bytes → ℕ → Option Bytes
undelivered_part offset payload delivered =
    if ltb offset delivered
    then if leb (length payload) (delivered - offset)
      then none
      else some (drop (delivered - offset) payload)
    else if ltb delivered offset
    then none
    else some payload

-- The first section of `deliverDown`.
unfoldable pub deliver_accept : ℕ → Bytes → Side → Option Bytes
unfolding undelivered_part
deliver_accept offset payload w =
    let s = w.session in if s.dead then none else undelivered_part offset payload s.down_delivered

abbrev pub agent_takes : Bytes → Side → Side
agent_takes p w = record w {
  session = record w.session {
    agent = record w.session.agent { received = w.session.agent.received ++ p };
  };
}

abbrev pub ack_up : ℕ → ℕ → Frame
ack_up session_id delivered = record zero_frame {
  typ = ack;
  session_id = session_id;
  offset = delivered;
}

-- The second section, behind a write that went well.
unfoldable pub deliver_written : Bytes → Side → Side
deliver_written p w =
    let delivered = (w.session.down_delivered + length p) % u64_mod in
    send (ack_up w.session.session_id delivered)
      (record w { session = record w.session { down_delivered = delivered } })

-- The write to the agent goes well (`none`), or fails behind `n` bytes (`some n`).
unfoldable pub deliver_write : Option ℕ → Option Bytes → Side → Side
unfolding deliver_written
deliver_write fault none w = w
deliver_write none (some p) w = deliver_written p (agent_takes p w)
deliver_write (some n) (some p) w = close_all (agent_takes (take n p) w)

unfoldable pub deliver_down : Option ℕ → ℕ → Bytes → Side → Side
unfolding deliver_accept deliver_write
deliver_down fault offset payload w = deliver_write fault (deliver_accept offset payload w) w

unfoldable pub session_attach_frame : ClientSession → Frame
session_attach_frame s = record zero_frame {
  typ = attach;
  session_id = s.session_id;
  offset = s.down_delivered;
  target = s.target;
}

abbrev pub resend : ℕ → Result Bytes → Side → Side
resend offset (err e) w = w
resend offset (ok []) w = w
resend offset (ok (x ∷ xs)) w = send (data_up w.session.session_id offset (x ∷ xs)) w

-- ATTACH_OK: `offset` is the broker's `upstreamWritten`; the rest is sent again.
unfoldable pub on_attach_ok : ℕ → Side → Side
on_attach_ok offset w =
    let trimmed = Buffer.trim_to w.session.up_buf offset in
    resend offset (Buffer.from trimmed offset)
      (record w { session = record w.session { up_buf = trimmed } })

abbrev pub half_close_agent : Side → Side
half_close_agent w =
    let s = w.session in
    if s.agent.can_half_close
    then record w { session = record s { agent = record s.agent { half_closed = true } } }
    else close_all w

-- CLOSE from the broker.
unfoldable pub on_close : ℕ → Side → Side
unfolding close_all
on_close dir w =
    if dir == dir_down
    then half_close_agent (record w { session = record w.session { down_closed = true } })
    else w

abbrev pub close_frame : ℕ → Bytes → Frame
close_frame session_id reason = record zero_frame {
  typ = close;
  session_id = session_id;
  dir = dir_up;
  reason = reason;
}

-- The agent has finished sending.
unfoldable pub close_up : Bytes → Side → Side
close_up reason w =
    let s = w.session in
    if s.up_closed
    then w
    else send (close_frame s.session_id reason)
        (record w { session = record s { up_closed = true } })

-- internal/sidecar/client.go, `readLoop`: what it does with a frame for this session.
unfoldable pub on_frame : Option ℕ → Frame → Side → Side
on_frame fault f w = elim f.typ [
  | attach_ok ↦ on_attach_ok f.offset w
  | data_frame ↦ deliver_down fault f.offset f.payload w
  | ack ↦ on_upstream_ack f.offset w
  | close ↦ on_close f.dir w
  | hello ↦ w
  | open_frame ↦ w
  | attach ↦ w
  | ping ↦ w
  | pong ↦ w
  | unknown n ↦ w
]
