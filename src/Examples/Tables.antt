-- ===== src/Examples/Tables.antt =====
-- The broker's table, its resumer, the sidecar's client, and the demo's frames.
use substrate_poc.Prelude.{
  ℕ, zero, suc, ◌≤◌, ◌≡◌, refl, ap, ◌≢◌, Bool, true, false, none, some, List, [], ◌∷◌, arith,
  length, All, Bytes, codes,
}
use substrate_poc.Tunnel.Frame.{dir_up, Frame, zero_frame, open_frame, attach, close}
use substrate_poc.Tunnel.Conn.Delivery.{FrameFits}
use substrate_poc.Broker.Session.State.{Session, maybe_destroy, wrote}
use substrate_poc.Broker.Session.Uplink.{on_sidecar_close}
use substrate_poc.Commands.{no_content, lifecycle_handler, lifecycle_handler-ref_string}
use substrate_poc.Broker.Table.Ledger.{IsLedger}
use substrate_poc.Broker.Table.Turns.{
  Turn, turns, turns-new_broker, frame_comes, tunnel_ends, session_acts,
}
use substrate_poc.Broker.Session.{dials}
use substrate_poc.Broker.Session.Uplink.{dial_failed}
use substrate_poc.Broker.Table.{new_broker, Broker, lookup, serve_events, on_session, handle_frame}
use substrate_poc.Broker.Table.Isolation.{handle_frame-isolates}
use substrate_poc.Broker.Resumer.{
  Ref, ref_string, index_byte, slash, Resumer, Answer, resume_actor, aborted, unanswered,
}
use substrate_poc.Broker.Resumer.Retries.{
  resume_actor-ends, in_flight, WakeAct, wake_run, wake_run-single, wakes_up, finishes,
}
use substrate_poc.Sidecar.Session.{ClientSession, session_attach_frame}
use substrate_poc.Sidecar.Client.Ledger.{IsTabled}
use substrate_poc.Sidecar.Client.Turns.{
  ClientTurn, client_turns, client_turns-new_client, connects, starts, reads_frame, disconnects,
}
use substrate_poc.Sidecar.Client.{ClientConfig, new_client, Client, connect}
use substrate_poc.Sidecar.Client.Connect.{greeting, attaches_of, Carried, connect-Carried}
use substrate_poc.Examples.{agent, cfg, up_conn-IsClean, connected_session, all_up, client_session}

abbrev heap : ℕ → Session
heap r = connected_session

abbrev registered_5 : ℕ → List (ℕ × ℕ)
registered_5 tc = (7, 0) ∷ []

abbrev broker : Broker
broker = record {
  cfg = cfg;
  heap = heap;
  made = 1;
  sessions = (record { actor_id = codes "ns/agent"; session_id = 7 }, 0) ∷ [];
  conns = all_up;
  registered = registered_5;
  woken = [];
}

abbrev all_targets : Bytes → Bool
all_targets target = true

abbrev reset : Frame
reset = record zero_frame { typ = close; session_id = 7; dir = dir_up }

not_theirs : lookup (codes "ns/other") 7 broker ≢ some 0
unfolding lookup
not_theirs e = absurd cc

handle_frame-isolates_example :
    (handle_frame all_targets (codes "ns/other") 6 9 wrote reset broker).heap 0 ≡ connected_session
handle_frame-isolates_example =
    handle_frame-isolates 0 all_targets (codes "ns/other") 6 9 wrote reset broker (omega arith)
      not_theirs

-- A session is opened, its tunnel ends, it is attached again, and its dial fails.
abbrev some_turns : List Turn
some_turns =
    frame_comes all_targets (codes "ns/agent") 5 9 wrote
      (record zero_frame { typ = open_frame; session_id = 7; target = codes "host:80" })
    ∷ tunnel_ends 5
    ∷ frame_comes all_targets (codes "ns/agent") 6 9 wrote
        (record zero_frame { typ = attach; session_id = 7 })
    ∷ session_acts 0 (dials (dial_failed (codes "refused")) 9)
    ∷ []

turns-new_broker_example : IsLedger (turns some_turns (new_broker cfg all_up))
turns-new_broker_example = turns-new_broker some_turns cfg all_up

-- The owner's CLOSE does reach the session.
close_run :
    (handle_frame all_targets (codes "ns/agent") 5 9 wrote reset broker).heap 0
    ≡ record connected_session {
      up_closed = true;
      upstream = some (record { written = 11 ∷ 12 ∷ []; write_closed = true; closed = false });
    }
unfolding handle_frame lookup on_session serve_events on_sidecar_close maybe_destroy
close_run = refl

abbrev refusals : ℕ → List (ℕ × Answer)
refusals zero = []
refusals (suc n) = (7, aborted) ∷ refusals n

length-refusals : (n : ℕ) → length (refusals n) ≡ n
length-refusals zero = refl
length-refusals (suc n) = ap suc (length-refusals n)

resume_actor-ends_example : resume_actor 1000 (refusals 151) ≢ unanswered
resume_actor-ends_example =
    resume_actor-ends 1000 (refusals 151) (omega (arith, length-refusals 151))

abbrev idle_resumer : Resumer
idle_resumer = record { inflight = []; calls = 0 }

abbrev wake_acts : List WakeAct
wake_acts =
    wakes_up (codes "ns/agent") ∷ wakes_up (codes "ns/agent") ∷ finishes (codes "ns/agent") ∷ []

wake_run-single_example :
    in_flight (codes "ns/agent") (wake_run wake_acts idle_resumer).inflight ≤ 1
wake_run-single_example = wake_run-single (codes "ns/agent") wake_acts idle_resumer (omega arith)

abbrev cells : ℕ → ClientSession
cells id = client_session

abbrev client : Client
client = record {
  session_buffer = 8;
  pong_timeout = 3000000000;
  last_id = 7;
  cells = cells;
  listed = 7 ∷ [];
  conns = all_up;
  conn = none;
  last_pong = 0;
}

hello_fits : FrameFits (greeting (codes "ns/agent"))
hello_fits = omega arith

attach_fits : All FrameFits (attaches_of client.cells client.listed)
unfolding session_attach_frame
attach_fits = ((omega arith, omega arith, omega arith), tt)

connect-Carried_example :
    Carried 5
      (greeting (codes "ns/agent") ∷ attaches_of client.cells client.listed)
      client
      (connect 5 9 (codes "ns/agent") client)
connect-Carried_example =
    connect-Carried 5 9 (codes "ns/agent") client up_conn-IsClean hello_fits attach_fits

abbrev default_config : ClientConfig
default_config = record {
  config_buffer = 0;
  ping_interval = 0;
  config_timeout = 0;
  dial_backoff = 0;
}

-- A session is started before there is a tunnel, and a frame for it is read.
abbrev client_acts : List ClientTurn
client_acts =
    starts agent (codes "host:80")
    ∷ connects 5 9 (codes "ns/agent")
    ∷ reads_frame 5 10 none (record zero_frame { typ = close; session_id = 1; dir = dir_up })
    ∷ disconnects 5
    ∷ []

client_turns-new_client_example :
    IsTabled (client_turns client_acts (new_client default_config agent all_up))
client_turns-new_client_example = client_turns-new_client client_acts default_config agent all_up

abbrev an_actor : Ref
an_actor = record { atespace = codes "ns"; name = codes "agent" }

no_slash : index_byte slash (codes "ns") ≡ none
unfolding index_byte
no_slash = refl

lifecycle_handler-ref_string_example :
    lifecycle_handler (codes "resume") (λ r. none) true (codes "/debug/resume/ns/agent")
    ≡ (no_content, some an_actor)
unfolding ref_string
lifecycle_handler-ref_string_example =
    lifecycle_handler-ref_string (codes "resume") (λ r. none) true an_actor no_slash
