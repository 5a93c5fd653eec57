-- ===== src/Examples.antt =====
-- The theorems at concrete inputs, and runs of the code.
mod Uplink
mod Downlink
mod Lives
mod Frames
mod Sidecars
mod Proxies
mod Polls
mod Tables
mod Systems
mod Demos
use substrate_poc.Prelude.{
  ℕ, zero, suc, ◌-◌, ◌/◌, ◌≡◌, refl, ap, true, false, none, some, [], ◌∷◌, arith, length, Bytes,
  codes,
}
use substrate_poc.Tunnel.Buffer.{ReplayBuffer}
use substrate_poc.Tunnel.Buffer.Stream.{Holds}
use substrate_poc.Tunnel.Conn.{Conn}
use substrate_poc.Tunnel.Conn.Delivery.{IsClean}
use substrate_poc.Broker.Session.State.{Config, Session, World}
use substrate_poc.Sidecar.Session.{Agent, ClientSession, Side}

abbrev pub stream : Bytes
stream = 11 ∷ 12 ∷ 13 ∷ 14 ∷ []

abbrev pub cfg : Config
cfg = record { session_buffer_bytes = 8; max_suspend_watchdog = 300 }

-- The first byte of the stream is acknowledged.
abbrev pub held_buf : ReplayBuffer
held_buf = record { base = 1; buf = 12 ∷ 13 ∷ 14 ∷ []; max = 8 }

pub held_buf-Holds : Holds held_buf stream
held_buf-Holds = record {
  tail = refl;
  base_within = omega arith;
  small = omega arith;
  capped = omega arith;
}

abbrev pub up_conn : Conn
up_conn = record { sent = []; buffered = []; alive = true; failed = false }

pub up_conn-IsClean : IsClean up_conn
up_conn-IsClean = record { alive = refl; sound = refl; drained = refl }

-- Connected, with two bytes written to the destination, and attached to tunnel connection 5.
abbrev pub connected_session : Session
connected_session = record {
  cfg = cfg;
  actor_id = codes "ns/agent";
  session_id = 7;
  target = codes "host:80";
  tconn = some 5;
  upstream = some (record { written = 11 ∷ 12 ∷ []; write_closed = false; closed = false });
  connected = true;
  pre_conn = [];
  down_buf = held_buf;
  upstream_written = 2;
  request_outstanding = true;
  up_closed = false;
  down_closed = false;
  dead = false;
  watchdog = none;
}

abbrev pub all_up : ℕ → Conn
all_up tc = up_conn

abbrev pub connected : World
connected = record { session = connected_session; conns = all_up; events = [] }

-- The dial is under way, with two bytes in the queue.
abbrev pub dialing : World
dialing = record connected {
  session = record connected_session {
    upstream = none;
    connected = false;
    pre_conn = 11 ∷ 12 ∷ [];
    upstream_written = 0;
  };
}

abbrev pub detached : World
detached = record connected { session = record connected_session { tconn = none } }

-- The sidecar has delivered two bytes of the destination's stream.
abbrev pub agent : Agent
agent = record {
  received = 11 ∷ 12 ∷ [];
  half_closed = false;
  closed = false;
  can_half_close = true;
}

abbrev pub client_session : ClientSession
client_session = record {
  session_id = 7;
  target = codes "host:80";
  agent = agent;
  up_buf = held_buf;
  down_delivered = 2;
  up_closed = false;
  down_closed = false;
  dead = false;
}

abbrev pub side : Side
side = record { session = client_session; conn = some up_conn; removed = false }

-- More bytes than one DATA frame holds.
zeros : ℕ → Bytes
zeros zero = []
zeros (suc n) = 0 ∷ zeros n

length-zeros : (n : ℕ) → length (zeros n) ≡ n
unfolding zeros
length-zeros zero = refl
length-zeros (suc n) = ap suc (length-zeros n)

pub big : Bytes
big = zeros 1048577

pub length-big : length big ≡ 1048577
unfolding big
length-big = length-zeros 1048577
