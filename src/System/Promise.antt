-- ===== src/System/Promise.antt =====
-- What a session promises from the first frame to the last, whatever becomes of the tunnels.
use substrate_poc.Prelude.{ℕ, ◌+◌, ◌≤◌, ◌≡◌, List, length, All, Bytes, IsU64}
use substrate_poc.Tunnel.Frame.{max_payload, max_string, Frame}
use substrate_poc.Tunnel.Buffer
use substrate_poc.Tunnel.Buffer.{ReplayBuffer}
use substrate_poc.Broker.Session.State.{Config, Session}
use substrate_poc.Broker.Session.Uplink.Completion.{HasAll}
use substrate_poc.Sidecar.Session.{on_attach_ok}
use substrate_poc.Resume.{data_frames, send_each, trimmed, IsSendable}
use substrate_poc.System.{System}
use substrate_poc.System.Pipe.{at_destination}

-- The settings under which a frame always fits: neither replay buffer is larger than a DATA frame may be.
pub record IsNarrow (session_buffer id : ℕ) (target : Bytes) (cfg : Config) : Type 0 where
  pub side_narrow : session_buffer ≤ max_payload
  pub broker_narrow : cfg.session_buffer_bytes ≤ max_payload
  pub id_fits : IsU64 id
  pub target_fits : length target ≤ max_string

-- No more is with the destination than was taken of the agent, and what it has not is no more than the
-- sidecar's replay buffer may hold; both replay buffers are within their caps.
pub record IsBounded (y : System) : Type 0 where
  pub behind : length (at_destination y.world.session.upstream) ≤ length y.taken
  pub lag :
      length y.taken ≤ length (at_destination y.world.session.upstream) + y.side.session.up_buf.max
  pub side_capped : length y.side.session.up_buf.buf ≤ y.side.session.up_buf.max
  pub broker_capped : length y.world.session.down_buf.buf ≤ y.world.session.down_buf.max

-- The sidecar's answer to the broker's ATTACH_OK, and the destination behind that.
abbrev pub Recovers : ℕ → System → Type 0
Recovers now y =
    let written = y.world.session.upstream_written in
    (fs : List Frame) × (on_attach_ok written y.side ≡ send_each fs (trimmed written y.side))
    × All IsSendable fs
    × HasAll y.taken (data_frames now fs y.world)
