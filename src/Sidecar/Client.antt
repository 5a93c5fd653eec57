-- ===== src/Sidecar/Client.antt =====
-- internal/sidecar/client.go: one tunnel connection at a time, and the sessions that outlive it.
-- A session is a cell under its number, and the numbers come around after 2^64 sessions; `listed` are the
-- numbers on the table.
pub mod Connect
pub mod Ledger
pub mod Turns
use mathlib.Core.Option
use substrate_poc.Prelude.{
  ℕ, ◌+◌, ◌-◌, ◌*◌, ◌%◌, Bool, false, ◌||◌, Option, none, some, List, [], ◌∷◌, map, ltb, ◌==◌,
  if◌then◌else◌, Bytes, u64_mod, Error,
}
use substrate_poc.Tunnel.Frame.{
  FrameType, Frame, zero_frame, hello, open_frame, attach, attach_ok, data_frame, ack, close, ping,
  pong, unknown,
}
use substrate_poc.Tunnel.Conn.{Conn, close_conn, write_frame}
use substrate_poc.Sidecar.Session.{
  Agent, ClientSession, Side, new_client_session, send, session_attach_frame, on_frame,
}

pub record Client : Type 0 where
  pub session_buffer : ℕ
  pub pong_timeout : ℕ
  pub last_id : ℕ
  pub cells : ℕ → ClientSession
  pub listed : List ℕ
  pub conns : ℕ → Conn
  pub conn : Option ℕ
  pub last_pong : ℕ

-- `ClientConfig`, less what is not modelled.
pub record ClientConfig : Type 0 where
  pub config_buffer : ℕ
  pub ping_interval : ℕ
  pub config_timeout : ℕ
  pub dial_backoff : ℕ

abbrev pub default_to : ℕ → ℕ → ℕ
default_to n default = if n == 0 then default else n

unfoldable pub with_defaults : ClientConfig → ClientConfig
with_defaults cfg = record {
  config_buffer = default_to cfg.config_buffer (4 * 1024 * 1024);
  ping_interval = default_to cfg.ping_interval 1000000000;
  config_timeout = default_to cfg.config_timeout 3000000000;
  dial_backoff = default_to cfg.dial_backoff 500000000;
}

-- `NewClient`. No number was given yet, so no cell is in use; `conns` are the connections that are to come.
unfoldable pub new_client : ClientConfig → Agent → (ℕ → Conn) → Client
unfolding with_defaults new_client_session
new_client cfg nobody conns =
    let cfg = with_defaults cfg in
    record {
      session_buffer = cfg.config_buffer;
      pong_timeout = cfg.config_timeout;
      last_id = 0;
      cells = λ id. new_client_session cfg.config_buffer id [] nobody;
      listed = [];
      conns = conns;
      conn = none;
      last_pong = 0;
    }

abbrev pub put_at {ℓ} : {A : Type ℓ} → (ℕ → A) → ℕ → A → ℕ → A
put_at f n x i = if i == n then x else f i

abbrev pub put_conn : (ℕ → Conn) → Option ℕ → Option Conn → ℕ → Conn
put_conn conns (some tc) (some c) = put_at conns tc c
put_conn conns none c = conns
put_conn conns (some tc) none = conns

-- `delete(c.sessions, id)`
abbrev pub unlist : ℕ → List ℕ → List ℕ
unlist id [] = []
unlist id (i ∷ rest) = let rest' = unlist id rest in if i == id then rest' else i ∷ rest'

abbrev pub is_listed : ℕ → List ℕ → Bool
is_listed id [] = false
is_listed id (i ∷ rest) = (i == id) || is_listed id rest

unfoldable pub side_of : ℕ → Client → Side
side_of id c = record { session = c.cells id; conn = Option.map c.conns c.conn; removed = false }

-- A method of session `id`, with what it sends and whether it takes itself off the table.
unfoldable pub on_side : ℕ → (Side → Side) → Client → Client
on_side id method c =
    let w = method (side_of id c) in
    record c {
      cells = put_at c.cells id w.session;
      conns = put_conn c.conns c.conn w.conn;
      listed = if w.removed then unlist id c.listed else c.listed;
    }

-- A frame on connection `tc`, whether or not it is the current one; its error is not looked at.
unfoldable pub write_on : ℕ → Frame → Client → Client
write_on tc f c = record c { conns = put_at c.conns tc (write_frame (c.conns tc) f).0 }

unfoldable pub close_on : ℕ → Client → Client
close_on tc c = record c { conns = put_at c.conns tc (close_conn (c.conns tc)) }

abbrev pub open_of : ℕ → Bytes → Frame
open_of id target = record zero_frame { typ = open_frame; session_id = id; target = target }

-- `OpenSession`; the number counts modulo 2^64.
unfoldable pub start_session : Agent → Bytes → Client → Client
unfolding on_side
start_session agent target c =
    let id = (c.last_id + 1) % u64_mod in
    on_side id (send (open_of id target)) (record c {
      last_id = id;
      cells = put_at c.cells id (new_client_session c.session_buffer id target agent);
      listed = id ∷ unlist id c.listed;
    })

abbrev pub hello_of : Bytes → Frame
hello_of actor_id = record zero_frame { typ = hello; actor_id = actor_id }

-- The ATTACH of each session, on `tc`.
unfoldable pub attach_each : ℕ → List ℕ → Client → Client
attach_each tc [] c = c
attach_each tc (id ∷ ids) c = attach_each tc ids (write_on tc (session_attach_frame (c.cells id)) c)

abbrev pub greeted_on : ℕ → ℕ → Option Error → Client → Client
greeted_on tc now (some e) c = close_on tc c
greeted_on tc now none c = attach_each tc c.listed (record c { conn = some tc; last_pong = now })

-- `connectOnce` up to its loops, on a connection `tc` that was dialed. The sessions are attached in the
-- order of the table here; Go's is any.
unfoldable pub connect : ℕ → ℕ → Bytes → Client → Client
unfolding write_on attach_each close_on
connect tc now actor_id c =
    greeted_on tc now (write_frame (c.conns tc) (hello_of actor_id)).1
      (write_on tc (hello_of actor_id) c)

abbrev pub is_current : Option ℕ → ℕ → Bool
is_current none tc = false
is_current (some t) tc = t == tc

-- The end of `connectOnce`, behind its read loop.
unfoldable pub disconnect : ℕ → Client → Client
unfolding close_on
disconnect tc c = close_on tc (record c { conn = if is_current c.conn tc then none else c.conn })

abbrev pub on_listed : ℕ → (Side → Side) → Client → Client
on_listed id method c = if is_listed id c.listed then on_side id method c else c

abbrev pub pong_of : ℕ → Frame
pong_of nonce = record zero_frame { typ = pong; nonce = nonce }

abbrev pub ping_of : ℕ → Frame
ping_of nonce = record zero_frame { typ = ping; nonce = nonce }

-- The switch of `readLoop`: `dispatched` is the client behind the session's handler.
unfoldable pub read_as : FrameType → ℕ → ℕ → ℕ → Client → Client → Client
unfolding write_on
read_as pong tc now nonce dispatched c = record c { last_pong = now }
read_as ping tc now nonce dispatched c = write_on tc (pong_of nonce) c
read_as attach_ok tc now nonce dispatched c = dispatched
read_as data_frame tc now nonce dispatched c = dispatched
read_as ack tc now nonce dispatched c = dispatched
read_as close tc now nonce dispatched c = dispatched
read_as hello tc now nonce dispatched c = c
read_as open_frame tc now nonce dispatched c = c
read_as attach tc now nonce dispatched c = c
read_as (unknown n) tc now nonce dispatched c = c

-- One round of `readLoop`. `fault` is the outcome of a write to the agent.
unfoldable pub read_frame : ℕ → ℕ → Option ℕ → Frame → Client → Client
unfolding read_as on_side
read_frame tc now fault f c =
    read_as f.typ tc now f.nonce (on_listed f.session_id (on_frame fault f) c) c

abbrev pub pinged : ℕ → Option Error → Client → Client
pinged tc (some e) c = close_on tc c
pinged tc none c = c

-- One tick of `pingLoop`: an overdue PONG closes the connection, which ends the read loop.
unfoldable pub ping_tick : ℕ → ℕ → ℕ → Client → Client
unfolding write_on close_on
ping_tick tc now nonce c =
    if ltb c.pong_timeout (now - c.last_pong)
    then close_on tc c
    else pinged tc (write_frame (c.conns tc) (ping_of nonce)).1 (write_on tc (ping_of nonce) c)
