-- ===== src/Examples/Downlink.antt =====
-- The destination's bytes on their way to the agent.
use substrate_poc.Prelude.{All, ◌+◌, ◌≤◌, ◌<◌, ◌≡◌, refl, ◌||◌, [], ◌∷◌, arith, length, Bytes}
use substrate_poc.Tunnel.Frame.{max_payload}
use substrate_poc.Tunnel.Buffer
use substrate_poc.Tunnel.Buffer.{ReplayBuffer}
use substrate_poc.Tunnel.Buffer.Stream.{Holds}
use substrate_poc.Broker.Session.State.{World, detach}
use substrate_poc.Broker.Session.Downlink.{
  forward, wake_if_pending, produce_chunk, produce_loop, produce_downstream, attach_answer,
  on_sidecar_attach, blocked,
}
use substrate_poc.Broker.Session.Downlink.Produce.{Ends, produce_downstream-Ends}
use substrate_poc.Broker.Session.Downlink.Wakes.{HasWoke, produce_downstream-detach_wakes}
use substrate_poc.Sidecar.Session.{session_attach_frame}
use substrate_poc.Resume.{frames_come, IsSendable}
use substrate_poc.Resume.Downward.{Resumed, attach_answer-resumes}
use substrate_poc.Broker.Session.Downlink.Oversize.{Stranded, on_sidecar_attach_oversize}
use substrate_poc.Examples.{
  big, length-big, stream, held_buf, held_buf-Holds, up_conn-IsClean, connected_session, connected,
  detached, side,
}

-- Seven bytes, of which the buffer has room for five.
more : Bytes
more = 21 ∷ 22 ∷ 23 ∷ 24 ∷ 25 ∷ 26 ∷ 27 ∷ []

room : 0 < Buffer.free held_buf
unfolding Buffer.free
room = omega arith

produce_downstream-Ends_example :
    Ends stream (21 ∷ 22 ∷ []) (produce_downstream (21 ∷ 22 ∷ []) connected)
produce_downstream-Ends_example =
    produce_downstream-Ends (21 ∷ 22 ∷ []) stream connected refl held_buf-Holds (omega arith)

produce_downstream-detach_wakes_example :
    HasWoke (produce_downstream (21 ∷ 22 ∷ []) (detach 5 connected)).0.events
    × HasWoke (detach 5 (produce_downstream (21 ∷ 22 ∷ []) connected).0).events
produce_downstream-detach_wakes_example =
    produce_downstream-detach_wakes 5 21 (22 ∷ []) stream connected refl refl refl held_buf-Holds
      room

small_enough : length stream ≤ 2 + max_payload
small_enough = omega arith

attach_answer-resumes_example :
    All IsSendable (attach_answer 2 connected_session)
    × Resumed stream (connected_session.down_closed || side.session.agent.half_closed) (
        frames_come
          (attach_answer (session_attach_frame side.session).offset connected_session)
          side)
attach_answer-resumes_example =
    attach_answer-resumes stream connected_session side held_buf-Holds (omega arith) refl refl
      (record { small = omega arith; within = omega arith; front = refl }) (omega arith)

-- A response of more than one frame's bytes that the sidecar has not acknowledged.
big_buf : ReplayBuffer
big_buf = record { base = 0; buf = big; max = 4194304 }

big_buf-Holds : Holds big_buf big
unfolding big_buf
big_buf-Holds = record {
  tail = refl;
  base_within = omega arith;
  small = omega (arith, length-big);
  capped = omega (arith, length-big);
}

abbrev loaded : World
loaded = record connected { session = record connected_session { down_buf = big_buf } }

too_big : 0 + max_payload < length big
too_big = omega (arith, length-big)

big_base : big_buf.base ≤ 0
unfolding big_buf
big_base = omega arith

on_sidecar_attach_oversize_example : Stranded 5 0 big loaded (on_sidecar_attach 0 loaded)
on_sidecar_attach_oversize_example =
    on_sidecar_attach_oversize 5 0 big loaded refl up_conn-IsClean big_buf-Holds big_base too_big

-- Two bytes more than there is room for: the producer waits with them.
full_run : (produce_downstream more detached).1 ≡ blocked (26 ∷ 27 ∷ [])
unfolding produce_downstream more Buffer.free produce_loop produce_chunk Buffer.append
    wake_if_pending forward
full_run = refl
