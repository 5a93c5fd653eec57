-- ===== src/Sidecar/Client/Turns.antt =====
-- internal/sidecar/client.go: the client's table over whatever happens to the client.
use substrate_poc.Prelude.{
  ℕ, ◌+◌, ◌-◌, ◌%◌, ◌≤◌, ◌<◌, refl, ◌≢◌, inl, inr, Option, none, some, List, [], ◌∷◌, arith, ltb,
  ltb→lt, Bool-cases, Bytes, u64_mod, Error, if-intro,
}
use substrate_poc.Tunnel.Frame.{
  FrameType, Frame, hello, open_frame, attach, attach_ok, data_frame, ack, close, ping, pong,
  unknown,
}
use substrate_poc.Tunnel.Conn.{write_frame}
use substrate_poc.Sidecar.Session.{
  Agent, Side, new_client_session, send, write_up, close_up, session_attach_frame, on_frame,
}
use substrate_poc.Sidecar.Session.Told.{
  send-IsTold, on_frame-IsTold, write_up-IsTold, close_up-IsTold,
}
use substrate_poc.Tunnel.Conn.{Conn}
use substrate_poc.Sidecar.Client.{
  new_client, ClientConfig, Client, put_at, unlist, is_listed, on_side, write_on, close_on, open_of,
  start_session, hello_of, attach_each, greeted_on, connect, disconnect, on_listed, ping_of,
  read_as, read_frame, pinged, ping_tick,
}
use substrate_poc.Sidecar.Client.Ledger.{ListsAlive-started, IsTabled, on_side-IsTabled}

-- What can happen to the client: a connect, the end of a connection, a frame with the outcome of a write to
-- the agent, a tick of the ping loop, a new session, and an agent that writes or closes.
pub data ClientTurn : Type 0 where
  connects : ℕ → ℕ → Bytes → ClientTurn
  disconnects : ℕ → ClientTurn
  reads_frame : ℕ → ℕ → Option ℕ → Frame → ClientTurn
  ticks : ℕ → ℕ → ℕ → ClientTurn
  starts : Agent → Bytes → ClientTurn
  writes_up : ℕ → Bytes → ClientTurn
  closes_up : ℕ → Bytes → ClientTurn

abbrev pub written_by : Bytes → Side → Side
written_by p w = (write_up p w).0

unfoldable pub client_turn : ClientTurn → Client → Client
unfolding connect disconnect read_frame ping_tick start_session on_side
client_turn (connects tc now actor_id) c = connect tc now actor_id c
client_turn (disconnects tc) c = disconnect tc c
client_turn (reads_frame tc now fault f) c = read_frame tc now fault f c
client_turn (ticks tc now nonce) c = ping_tick tc now nonce c
client_turn (starts agent target) c = start_session agent target c
client_turn (writes_up id p) c = on_side id (written_by p) c
client_turn (closes_up id reason) c = on_side id (close_up reason) c

unfoldable pub client_turns : List ClientTurn → Client → Client
unfolding client_turn
client_turns [] c = c
client_turns (t ∷ ts) c = client_turns ts (client_turn t c)

attach_each-IsTabled :
    (tc : ℕ) (ids : List ℕ) (c : Client) → IsTabled c → IsTabled (attach_each tc ids c)
unfolding attach_each write_on
attach_each-IsTabled tc [] c h = h
attach_each-IsTabled tc (id ∷ ids) c h =
    attach_each-IsTabled tc ids
      (record c {
        conns = put_at c.conns tc (write_frame (c.conns tc) (session_attach_frame (c.cells id))).0;
      })
      h

greeted_on-IsTabled :
    (tc now : ℕ) (e : Option Error) (c : Client) → IsTabled c → IsTabled (greeted_on tc now e c)
unfolding close_on
greeted_on-IsTabled tc now (some e) c h = h
greeted_on-IsTabled tc now none c h =
    attach_each-IsTabled tc c.listed (record c { conn = some tc; last_pong = now }) h

connect-IsTabled :
    (tc now : ℕ) (actor_id : Bytes) (c : Client) → IsTabled c → IsTabled (connect tc now actor_id c)
unfolding connect write_on
connect-IsTabled tc now actor_id c h =
    greeted_on-IsTabled tc now (write_frame (c.conns tc) (hello_of actor_id)).1
      (record c { conns = put_at c.conns tc (write_frame (c.conns tc) (hello_of actor_id)).0 }) h

read_as-IsTabled :
    (t : FrameType) (tc now nonce : ℕ) (dispatched c : Client)
    → IsTabled dispatched
    → IsTabled c
    → IsTabled (read_as t tc now nonce dispatched c)
unfolding read_as write_on
read_as-IsTabled pong tc now nonce d c g h = h
read_as-IsTabled ping tc now nonce d c g h = h
read_as-IsTabled attach_ok tc now nonce d c g h = g
read_as-IsTabled data_frame tc now nonce d c g h = g
read_as-IsTabled ack tc now nonce d c g h = g
read_as-IsTabled close tc now nonce d c g h = g
read_as-IsTabled hello tc now nonce d c g h = h
read_as-IsTabled open_frame tc now nonce d c g h = h
read_as-IsTabled attach tc now nonce d c g h = h
read_as-IsTabled (unknown n) tc now nonce d c g h = h

read_frame-IsTabled :
    (tc now : ℕ) (fault : Option ℕ) (f : Frame) (c : Client)
    → IsTabled c
    → IsTabled (read_frame tc now fault f c)
unfolding read_frame
read_frame-IsTabled tc now fault f c h =
    read_as-IsTabled f.typ tc now f.nonce (on_listed f.session_id (on_frame fault f) c) c
      (if-intro {A = Client} IsTabled (is_listed f.session_id c.listed)
        (λ _.
          on_side-IsTabled f.session_id (on_frame fault f) c
            (λ id was w t. on_frame-IsTold fault f w t) h)
        (λ _. h))
      h

pinged-IsTabled : (tc : ℕ) (e : Option Error) (c : Client) → IsTabled c → IsTabled (pinged tc e c)
unfolding close_on
pinged-IsTabled tc (some e) c h = h
pinged-IsTabled tc none c h = h

ping_tick-IsTabled :
    (tc now nonce : ℕ) (c : Client) → IsTabled c → IsTabled (ping_tick tc now nonce c)
unfolding ping_tick write_on close_on
ping_tick-IsTabled tc now nonce c h =
    if-intro {A = Client} IsTabled (ltb c.pong_timeout (now - c.last_pong)) (λ _. h)
      (λ _.
        pinged-IsTabled tc (write_frame (c.conns tc) (ping_of nonce)).1
          (record c { conns = put_at c.conns tc (write_frame (c.conns tc) (ping_of nonce)).0 }) h)

-- A new session gets a number above those that were given, or the count wraps around.
next_covered :
    (q last_id : ℕ)
    → 0 < q
    → q ≤ (last_id + 1) % u64_mod
    → q ≢ (last_id + 1) % u64_mod
    → q ≤ last_id
next_covered q last_id pos hi other = elim (Bool-cases (ltb (last_id + 1) u64_mod)) [
  | inl small ↦ omega (arith, ltb→lt (last_id + 1) u64_mod small)
  | inr big ↦ omega arith
]

start_session-IsTabled :
    (agent : Agent) (target : Bytes) (c : Client)
    → IsTabled c
    → IsTabled (start_session agent target c)
unfolding start_session new_client_session
start_session-IsTabled agent target c h =
    let id = (c.last_id + 1) % u64_mod in
    let s = new_client_session c.session_buffer id target agent in
    on_side-IsTabled id (send (open_of id target))
      (record c { last_id = id; cells = put_at c.cells id s; listed = id ∷ unlist id c.listed })
      (λ i was w t. send-IsTold (open_of id target) w t)
      (ListsAlive-started c.last_id id c.cells c.listed s h refl refl
        (λ q lo hi other. next_covered q c.last_id lo hi other))

client_turn-IsTabled : (t : ClientTurn) (c : Client) → IsTabled c → IsTabled (client_turn t c)
unfolding client_turn disconnect close_on
client_turn-IsTabled (connects tc now actor_id) c h = connect-IsTabled tc now actor_id c h
client_turn-IsTabled (disconnects tc) c h = h
client_turn-IsTabled (reads_frame tc now fault f) c h = read_frame-IsTabled tc now fault f c h
client_turn-IsTabled (ticks tc now nonce) c h = ping_tick-IsTabled tc now nonce c h
client_turn-IsTabled (starts agent target) c h = start_session-IsTabled agent target c h
client_turn-IsTabled (writes_up id p) c h =
    on_side-IsTabled id (written_by p) c (λ i was w t. write_up-IsTold p w t) h
client_turn-IsTabled (closes_up id reason) c h =
    on_side-IsTabled id (close_up reason) c (λ i was w t. close_up-IsTold reason w t) h

pub client_turns-IsTabled :
    (ts : List ClientTurn) (c : Client) → IsTabled c → IsTabled (client_turns ts c)
unfolding client_turns
client_turns-IsTabled [] c h = h
client_turns-IsTabled (t ∷ ts) c h =
    client_turns-IsTabled ts (client_turn t c) (client_turn-IsTabled t c h)

-- From a new client on, over any run of connects, ends of connections, frames, pings, new sessions, and agents
-- that write and close, the client's table has the live sessions: whatever is on it is alive and has its own
-- number, so that a reconnect attaches live sessions only; and whatever is alive, of the numbers from 1 to the
-- last one given, is on it.
pub client_turns-new_client :
    (ts : List ClientTurn) (cfg : ClientConfig) (nobody : Agent) (conns : ℕ → Conn)
    → IsTabled (client_turns ts (new_client cfg nobody conns))
unfolding new_client
client_turns-new_client ts cfg nobody conns =
    client_turns-IsTabled ts (new_client cfg nobody conns)
      (record { on_table = λ q e. absurd cc; covered = λ q lo hi. absurd (omega (arith, lo, hi)) })
