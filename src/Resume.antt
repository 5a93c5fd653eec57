-- ===== src/Resume.antt =====
-- What happens when a tunnel comes back: internal/broker/session.go and internal/sidecar/session.go together.
pub mod Upward
pub mod Downward
use substrate_poc.Prelude.{ℕ, ◌≤◌, none, List, [], ◌∷◌, length}
use substrate_poc.Tunnel.Frame.{max_payload, Frame}
use substrate_poc.Tunnel.Buffer
use substrate_poc.Broker.Session.State.{World, wrote}
use substrate_poc.Broker.Session.Uplink.{on_data}
use substrate_poc.Sidecar.Session.{Side, send, on_frame}

-- The broker handles DATA frames one after the other.
abbrev pub data_frames : ℕ → List Frame → World → World
data_frames now [] w = w
data_frames now (f ∷ fs) w = data_frames now fs (on_data now wrote f.offset f.payload w)

abbrev pub send_each : List Frame → Side → Side
send_each [] v = v
send_each (f ∷ fs) v = send_each fs (send f v)

-- The sidecar handles frames one after the other, and the agent takes what it is given.
abbrev pub frames_come : List Frame → Side → Side
frames_come [] v = v
frames_come (f ∷ fs) v = frames_come fs (on_frame none f v)

abbrev pub trimmed : ℕ → Side → Side
trimmed offset v = record v {
  session = record v.session { up_buf = Buffer.trim_to v.session.up_buf offset };
}

-- The payload is no longer than the encoder lets pass.
abbrev pub IsSendable : Frame → Type 0
IsSendable f = length f.payload ≤ max_payload
