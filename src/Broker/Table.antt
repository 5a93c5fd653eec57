-- ===== src/Broker/Table.antt =====
-- internal/broker/broker.go and internal/broker/tunnelconn.go: the table of sessions, the tunnel connections
-- and the frames that come on them. A pointer to a session is the number of a cell of the heap.
pub mod Detach
pub mod Entries
pub mod Isolation
pub mod Ledger
pub mod Moves
pub mod Turns
use substrate_poc.Prelude.{
  ℕ, ◌+◌, ◌*◌, Bool, not, ◌&&◌, Option, none, some, List, [], ◌∷◌, ◌++◌, ◌==◌, if◌then◌else◌, Bytes,
  codes, bytes_eq,
}
use substrate_poc.Tunnel.Frame.{
  Frame, zero_frame, hello, open_frame, attach, attach_ok, data_frame, ack, close, ping, pong,
  unknown,
}
use substrate_poc.Tunnel.Conn.{Conn, write_frame}
use substrate_poc.Broker.Session.State.{
  Config, Outcome, Session, Event, World, update_conn, new_session, bind, detach, close_down, woke,
  removed,
}
use substrate_poc.Broker.Session.Downlink.{on_downstream_ack, on_sidecar_attach}
use substrate_poc.Broker.Session.Uplink.{on_data, on_sidecar_close}
use substrate_poc.Broker.Session.{SessionInfo, info}

pub record SessionKey : Type 0 where
  pub actor_id : Bytes
  pub session_id : ℕ

abbrev pub same_key : SessionKey → SessionKey → Bool
same_key k l = bytes_eq k.actor_id l.actor_id && (k.session_id == l.session_id)

-- `heap` has the sessions that were ever made, `made` of them. `registered` is each tunnel connection's map
-- from session numbers to sessions. `woken` are the calls of the resumer, oldest first.
pub record Broker : Type 0 where
  pub cfg : Config
  pub heap : ℕ → Session
  pub made : ℕ
  pub sessions : List (SessionKey × ℕ)
  pub conns : ℕ → Conn
  pub registered : ℕ → List (ℕ × ℕ)
  pub woken : List Bytes

-- Durations are in nanoseconds.
abbrev pub default_or : ℕ → ℕ → ℕ
default_or n default = if n == 0 then default else n

unfoldable pub config_with_defaults : Config → Config
config_with_defaults cfg = record {
  session_buffer_bytes = default_or cfg.session_buffer_bytes (4 * 1024 * 1024);
  max_suspend_watchdog = default_or cfg.max_suspend_watchdog 300000000000;
}

-- `New`. No cell of the heap is made; `conns` are the tunnel connections that are to come.
unfoldable pub new_broker : Config → (ℕ → Conn) → Broker
unfolding config_with_defaults
new_broker cfg conns =
    let cfg = config_with_defaults cfg in
    record {
      cfg = cfg;
      heap = λ r. new_session cfg [] 0 [];
      made = 0;
      sessions = [];
      conns = conns;
      registered = λ tc. [];
      woken = [];
    }

abbrev pub find : SessionKey → List (SessionKey × ℕ) → Option ℕ
find key [] = none
find key ((k, r) ∷ rest) = if same_key k key then some r else find key rest

abbrev pub delete : SessionKey → List (SessionKey × ℕ) → List (SessionKey × ℕ)
delete key [] = []
delete key ((k, r) ∷ rest) =
    let rest' = delete key rest in if same_key k key then rest' else (k, r) ∷ rest'

unfoldable pub lookup : Bytes → ℕ → Broker → Option ℕ
lookup actor_id session_id b =
    find (record { actor_id = actor_id; session_id = session_id }) b.sessions

unfoldable pub remove_session : Bytes → ℕ → Broker → Broker
remove_session actor_id session_id b = record b {
  sessions = delete (record { actor_id = actor_id; session_id = session_id }) b.sessions;
}

abbrev pub set_cell {ℓ} : {A : Type ℓ} → (ℕ → A) → ℕ → A → ℕ → A
set_cell heap r x i = if i == r then x else heap i

-- What a session asked for while it ran.
unfoldable pub serve_events : Session → List Event → Broker → Broker
unfolding remove_session
serve_events s [] b = b
serve_events s (woke reason ∷ es) b =
    serve_events s es (record b { woken = b.woken ++ s.actor_id ∷ [] })
serve_events s (removed ∷ es) b = serve_events s es (remove_session s.actor_id s.session_id b)

abbrev pub world_of : ℕ → Broker → World
world_of r b = record { session = b.heap r; conns = b.conns; events = [] }

-- A method of session `r`.
unfoldable pub on_session : ℕ → (World → World) → Broker → Broker
on_session r method b =
    let w = method (world_of r b) in
    serve_events w.session w.events
      (record b { heap = set_cell b.heap r w.session; conns = w.conns })

abbrev pub register_in : ℕ → ℕ → List (ℕ × ℕ) → List (ℕ × ℕ)
register_in session_id r [] = (session_id, r) ∷ []
register_in session_id r ((i, q) ∷ rest) =
    let rest' = register_in session_id r rest in
    if i == session_id then (i, r) ∷ rest else (i, q) ∷ rest'

unfoldable pub register : ℕ → ℕ → Broker → Broker
register tc r b = record b {
  registered = set_cell b.registered tc (register_in (b.heap r).session_id r (b.registered tc));
}

-- `bind` of the session, with `register` of the tunnel connection.
unfoldable pub bind_session : ℕ → ℕ → Broker → Broker
unfolding register
bind_session tc r b = register tc r (on_session r (bind tc) b)

abbrev pub detach_each : ℕ → List (ℕ × ℕ) → Broker → Broker
detach_each tc [] b = b
detach_each tc ((i, r) ∷ rest) b = detach_each tc rest (on_session r (detach tc) b)

-- The tunnel connection's frame loop has ended.
unfoldable pub detach_all : ℕ → Broker → Broker
detach_all tc b =
    detach_each tc (b.registered tc) (record b { registered = set_cell b.registered tc [] })

-- A frame on a tunnel connection itself; its error is not looked at.
unfoldable pub write_tunnel : ℕ → Frame → Broker → Broker
write_tunnel tc f b = record b { conns = update_conn b.conns tc (write_frame (b.conns tc) f).0 }

-- A session that is on the table, on its way to this tunnel connection.
unfoldable pub attach_found : ℕ → ℕ → ℕ → Broker → Broker
unfolding bind_session
attach_found tc r offset b = on_session r (on_sidecar_attach offset) (bind_session tc r b)

-- A new session on the table. Its dial runs beside this, and comes later.
unfoldable pub make_session : Bytes → ℕ → ℕ → Bytes → Broker → Broker
unfolding bind_session
make_session actor_id tc session_id target b = bind_session tc b.made (record b {
  heap = set_cell b.heap b.made (new_session b.cfg actor_id session_id target);
  made = b.made + 1;
  sessions = (record { actor_id = actor_id; session_id = session_id }, b.made) ∷ b.sessions;
})

-- `allow` is `AllowTarget`. For a session that exists, `attachSession` finds it again.
unfoldable pub open_session : (Bytes → Bool) → Bytes → ℕ → ℕ → Bytes → Broker → Broker
unfolding attach_found make_session lookup write_tunnel
open_session allow actor_id tc session_id target b =
    if not (allow target)
    then write_tunnel tc (close_down session_id (codes "target not allowed")) b
    else elim (lookup actor_id session_id b) [
      | some r ↦ attach_found tc r 0 b
      | none ↦ make_session actor_id tc session_id target b
    ]

abbrev pub attach_if_there : ℕ → Option ℕ → Broker → Broker
attach_if_there offset none b = b
attach_if_there offset (some r) b = on_session r (on_sidecar_attach offset) b

-- `openSession`, then the lookup of what it made.
abbrev pub open_and_attach : (Bytes → Bool) → Bytes → ℕ → ℕ → ℕ → Bytes → Broker → Broker
open_and_attach allow actor_id tc session_id offset target b =
    let b' = open_session allow actor_id tc session_id target b in
    attach_if_there offset (lookup actor_id session_id b') b'

-- ATTACH of a session that is not there: it is made anew, if nothing of it was delivered.
unfoldable pub attach_lost : (Bytes → Bool) → Bytes → ℕ → ℕ → ℕ → Bytes → Broker → Broker
unfolding open_session
attach_lost allow actor_id tc session_id offset target b =
    if (offset == 0) && not (bytes_eq target [])
    then open_and_attach allow actor_id tc session_id offset target b
    else write_tunnel tc (close_down session_id (codes "session lost")) b

unfoldable pub attach_session : (Bytes → Bool) → Bytes → ℕ → ℕ → ℕ → Bytes → Broker → Broker
unfolding attach_lost
attach_session allow actor_id tc session_id offset target b = elim (lookup actor_id session_id b) [
  | some r ↦ attach_found tc r offset b
  | none ↦ attach_lost allow actor_id tc session_id offset target b
]

abbrev pub on_found : Option ℕ → (World → World) → Broker → Broker
on_found none method b = b
on_found (some r) method b = on_session r method b

abbrev pub pong_to : ℕ → Frame
pong_to nonce = record zero_frame { typ = pong; nonce = nonce }

-- `now` and `outcome` are the time, and what the destination answers to a write.
unfoldable pub handle_frame : (Bytes → Bool) → Bytes → ℕ → ℕ → Outcome → Frame → Broker → Broker
unfolding attach_session
handle_frame allow actor_id tc now outcome f b = elim f.typ [
  | ping ↦ write_tunnel tc (pong_to f.nonce) b
  | open_frame ↦ open_session allow actor_id tc f.session_id f.target b
  | attach ↦ attach_session allow actor_id tc f.session_id f.offset f.target b
  | data_frame ↦
      on_found (lookup actor_id f.session_id b) (on_data now outcome f.offset f.payload) b
  | ack ↦ on_found (lookup actor_id f.session_id b) (on_downstream_ack f.offset) b
  | close ↦ on_found (lookup actor_id f.session_id b) (on_sidecar_close f.dir) b
  | hello ↦ b
  | attach_ok ↦ b
  | pong ↦ b
  | unknown n ↦ b
]

-- The first frame must be a HELLO that names an actor.
unfoldable pub greeted : Frame → Option Bytes
greeted f = elim f.typ [
  | hello ↦ if bytes_eq f.actor_id [] then none else some f.actor_id
  | open_frame ↦ none
  | attach ↦ none
  | attach_ok ↦ none
  | data_frame ↦ none
  | ack ↦ none
  | close ↦ none
  | ping ↦ none
  | pong ↦ none
  | unknown n ↦ none
]

-- The frames of a tunnel connection behind its HELLO, with the time and the outcome that each meets; at
-- the end of them the connection is gone.
unfoldable pub serve_frames :
    (Bytes → Bool) → Bytes → ℕ → List (ℕ × Outcome × Frame) → Broker → Broker
unfolding handle_frame detach_all
serve_frames allow actor_id tc [] b = detach_all tc b
serve_frames allow actor_id tc ((now, outcome, f) ∷ fs) b =
    serve_frames allow actor_id tc fs (handle_frame allow actor_id tc now outcome f b)

abbrev pub infos : (ℕ → Session) → List (SessionKey × ℕ) → List (SessionKey × SessionInfo)
infos heap [] = []
infos heap ((k, r) ∷ rest) = (k, info (heap r)) ∷ infos heap rest

unfoldable pub sessions_info : Broker → List (SessionKey × SessionInfo)
sessions_info b = infos b.heap b.sessions
