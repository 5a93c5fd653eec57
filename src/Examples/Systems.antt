-- ===== src/Examples/Systems.antt =====
-- A session from end to end.
use substrate_poc.Prelude.{◌≡◌, refl, true, false, Option, none, some, [], ◌∷◌, codes}
use substrate_poc.Tunnel.Frame.{Frame, data_frame}
use substrate_poc.Tunnel.Buffer
use substrate_poc.Tunnel.Conn.{Conn, new_conn}
use substrate_poc.Broker.Session.State.{new_session, send_to_sidecar, arm_watchdog, wrote}
use substrate_poc.Broker.Session.Uplink.{
  dial_connected, dial_flush, dial_flushed, on_data_accept, queue_pre_conn, on_data_write, on_data,
}
use substrate_poc.Sidecar.Session.{
  Agent, new_client_session, send, data_up, write_chunk, write_loop, write_up, session_attach_frame,
}
use substrate_poc.System.{session_frame, System, tunnels, write_agent, first_system}
use substrate_poc.System.Pipe.{at_destination}
use substrate_poc.Examples.{cfg}

abbrev agent : Agent
agent = record { received = []; half_closed = false; closed = false; can_half_close = true }

abbrev opened : System
opened = first_system 8 7 (codes "host:80") agent cfg (codes "ns/agent")

abbrev attached_system : System
attached_system = record opened {
  side =
      send (session_attach_frame opened.side.session) (record opened.side { conn = some new_conn });
  past = tunnels opened;
}

abbrev written : System
written = write_agent (11 ∷ 12 ∷ []) attached_system

abbrev up_frame : Frame
up_frame = data_up 7 0 (11 ∷ 12 ∷ [])

-- The agent's bytes come before the dial is done, and are queued.
abbrev in_queue : System
in_queue = record written { world = session_frame 1 5 data_frame up_frame written.world }

-- The dial connects, and the tunnel ends before the queue is flushed.
abbrev connected_late : System
connected_late = record in_queue {
  world = (dial_connected 2 in_queue.world).0;
  flushing = (dial_connected 2 in_queue.world).1;
}

abbrev lost : System
lost = record connected_late {
  side = record connected_late.side { conn = none };
  past = tunnels connected_late;
}

abbrev flushed_late : System
flushed_late = record lost { world = dial_flush (11 ∷ 12 ∷ []) wrote lost.world; flushing = none }

-- The connection that the DATA frame is on.
abbrev tunnel_conn : Option Conn → Conn
tunnel_conn none = new_conn
tunnel_conn (some c) = c

-- The destination has the two bytes that the agent wrote.
flushed_got : at_destination flushed_late.world.session.upstream ≡ 11 ∷ 12 ∷ []
unfolding new_session dial_connected dial_flush dial_flushed session_frame on_data on_data_accept
    queue_pre_conn on_data_write send_to_sidecar arm_watchdog
flushed_got = refl

-- The dial is done before any DATA comes.
abbrev dialed : System
dialed = record written { world = dial_flush [] wrote (dial_connected 1 written.world).0 }

-- The tunnel ends with the agent's bytes unread on it, and another comes.
abbrev unread : System
unread = record dialed { side = record dialed.side { conn = none }; past = tunnels dialed }

abbrev back : System
back = record unread {
  side =
      send (session_attach_frame unread.side.session) (record unread.side { conn = some new_conn });
  past = tunnels unread;
}

-- The destination has none of the two bytes yet, and the sidecar is connected.
back_misses : (at_destination back.world.session.upstream ≡ []) × (back.taken ≡ 11 ∷ 12 ∷ [])
unfolding new_session dial_connected dial_flush arm_watchdog write_up write_loop write_chunk
    new_client_session Buffer.new_replay_buffer Buffer.append Buffer.free Buffer.end send
    session_attach_frame
back_misses = (refl, refl)
