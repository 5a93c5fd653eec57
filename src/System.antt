-- ===== src/System.antt =====
-- One session from end to end: the agent, internal/sidecar/session.go, the tunnels that come and go between,
-- internal/broker/session.go, and the destination.
pub mod Air
pub mod BrokerEnd
pub mod Destination
pub mod Source
pub mod SidecarEnd
pub mod Pipe
pub mod Acks
pub mod Handling
pub mod Endings
pub mod Reading
pub mod Refinement
pub mod Promise
use substrate_poc.Prelude.{
  ◌>>=◌, ℕ, zero, suc, ◌+◌, ◌-◌, ◌≤◌, ◌<◌, ◌≡◌, false, Option, none, some, List, [], ◌∷◌, ◌++◌, map,
  true, length, take, Bytes, codes, u64_mod, Result, ok,
}
use substrate_poc.Tunnel.Frame.{
  FrameType, max_string, Frame, hello, open_frame, attach, attach_ok, data_frame, ack, close, ping,
  pong, unknown,
}
use substrate_poc.Tunnel.Conn.{Conn, new_conn, close_conn}
use substrate_poc.Tunnel.Wire.{decode_frame}
use substrate_poc.Broker.Session.State.{
  Config, Cause, World, update_conn, new_session, bind, detach, cause_reason, close_upstream,
  watchdog_fires, wrote, removed,
}
use substrate_poc.Broker.Session.Uplink.{
  dial_connected, dial_flush, dial_upstream, on_data, on_sidecar_close, dial_failed,
}
use substrate_poc.Broker.Session.Downlink.{on_sidecar_attach, on_downstream_ack, produce_downstream}
use substrate_poc.Sidecar.Session.{
  Agent, new_client_session, Side, Written, accepted, waiting, net_closed, refused, stuck, write_up,
  send, session_attach_frame, on_frame, close_up,
}
use mathlib.Core.Option

-- The frame behind `n` others on a byte stream.
unfoldable pub nth_frame : ℕ → Bytes → Result Frame
nth_frame zero src = do (f, src₁) ← decode_frame src; ok f
nth_frame (suc n) src = do (f, src₁) ← decode_frame src; nth_frame n src₁

-- What the broker does with a frame for a session that it has, read on tunnel connection `tc`; the cases of
-- `handleFrame`. A write to the destination goes well, and DATA is written and counted with no other DATA
-- between the two.
unfoldable pub session_frame : ℕ → ℕ → FrameType → Frame → World → World
session_frame now tc open_frame f w = on_sidecar_attach 0 (bind tc w)
session_frame now tc attach f w = on_sidecar_attach f.offset (bind tc w)
session_frame now tc data_frame f w = on_data now wrote f.offset f.payload w
session_frame now tc ack f w = on_downstream_ack f.offset w
session_frame now tc close f w = on_sidecar_close f.dir w
session_frame now tc hello f w = w
session_frame now tc attach_ok f w = w
session_frame now tc ping f w = w
session_frame now tc pong f w = w
session_frame now tc (unknown n) f w = w

-- `past` are the sidecar's former tunnel connections, whose bytes may still be read. `taken` is what
-- `writeUp` has taken of the agent's bytes so far. `flushing` is what `dialUpstream` has taken off the queue,
-- and is about to write to the destination.
pub record System : Type 0 where
  pub side : Side
  pub past : List Conn
  pub world : World
  pub taken : Bytes
  pub flushing : Option Bytes

-- What a run of `writeUp` over `p` took.
abbrev pub accepted_part : Bytes → Written → Bytes
accepted_part p accepted = p
accepted_part p (waiting left) = take (length p - length left) p
accepted_part p net_closed = []
accepted_part p (refused e) = []
accepted_part p stuck = []

abbrev pub conn_at : ℕ → List Conn → Option Conn
conn_at n [] = none
conn_at zero (c ∷ cs) = some c
conn_at (suc n) (c ∷ cs) = conn_at n cs

abbrev pub tunnels : System → List Conn
tunnels y = elim y.side.conn [ none ↦ y.past | some c ↦ c ∷ y.past ]

abbrev pub write_agent : Bytes → System → System
write_agent p y =
    let r = write_up p y.side in record y { side = r.0; taken = y.taken ++ accepted_part p r.1 }

-- What can happen next. Writes to the destination go well. A dial that succeeds has two steps, with the two
-- critical sections of `dialUpstream`, and whatever can happen between them, short of DATA that is written to
-- the destination there: the count of what is written has to be 0 still when the queue is flushed. Whoever
-- reads a connection gets any of the frames on it, so frames are late, come again with a replay, or are lost
-- with their connection.
pub data Step (y : System) : System → Type 0 where
  agent_writes :
      (p : Bytes)
      → length y.taken + length p < u64_mod
      → y.side.session.dead ≡ false
      → Step y (write_agent p y)
  agent_closes :
      (reason : Bytes)
      → length reason ≤ max_string
      → Step y (record y { side = close_up reason y.side })
  sidecar_reads :
      (fault : Option ℕ) (tc n : ℕ) (f : Frame)
      → nth_frame n (y.world.conns tc).sent ≡ ok f
      → Step y (record y { side = on_frame fault f y.side })
  tunnel_breaks :
      Step y (record y { side = record y.side { conn = Option.map close_conn y.side.conn } })
  tunnel_ends : Step y (record y { side = record y.side { conn = none }; past = tunnels y })
  tunnel_comes : Step y (record y {
    side = send (session_attach_frame y.side.session) (record y.side { conn = some new_conn });
    past = tunnels y;
  })
  broker_reads :
      (now tc n i : ℕ) (f : Frame) (c : Conn)
      → conn_at i (tunnels y) ≡ some c
      → nth_frame n c.sent ≡ ok f
      → Step y (record y { world = session_frame now tc f.typ f y.world })
  dial_connects :
      (now : ℕ)
      → y.world.session.connected ≡ false
      → Step y (record y {
        world = (dial_connected now y.world).0;
        flushing = (dial_connected now y.world).1;
      })
  dial_flushes :
      (pre : Bytes)
      → y.flushing ≡ some pre
      → y.world.session.connected ≡ true
      → y.world.session.upstream_written ≡ 0
      → Step y (record y { world = dial_flush pre wrote y.world; flushing = none })
  dial_fails :
      (now : ℕ) (text : Bytes)
      → y.world.session.connected ≡ false
      → length (codes "dial failed: " ++ text) ≤ max_string
      → Step y (record y { world = dial_upstream (dial_failed text) now y.world })
  destination_sends : (p : Bytes) → Step y (record y { world = (produce_downstream p y.world).0 })
  destination_ends :
      (cause : Cause)
      → length (cause_reason cause) ≤ max_string
      → Step y (record y { world = close_upstream cause y.world })
  broker_breaks :
      (tc : ℕ)
      → Step y (record y {
        world = record y.world {
          conns = update_conn y.world.conns tc (close_conn (y.world.conns tc));
        };
      })
  broker_detaches : (tc : ℕ) → Step y (record y { world = detach tc y.world })
  watchdog_ends : Step y (record y { world = watchdog_fires y.world })

pub data Run (first : System) : System → Type 0 where
  start : Run first first
  next : {y z : System} → Run first y → Step y z → Run first z

-- A session that the agent has just opened, and the broker with it, before any dial or frame.
abbrev pub first_system : ℕ → ℕ → Bytes → Agent → Config → Bytes → System
first_system session_buffer id target agent cfg actor_id = record {
  side = record {
    session = new_client_session session_buffer id target agent;
    conn = none;
    removed = false;
  };
  past = [];
  world = record {
    session = new_session cfg actor_id id target;
    conns = λ tc. new_conn;
    events = [];
  };
  taken = [];
  flushing = none;
}
