-- ===== src/Examples/Demos.antt =====
-- The demos: the loopback experiment, and the relay of requests.
use substrate_poc.Prelude.{
  ℕ, ◌+◌, ◌%◌, ◌^◌, ◌≤◌, ◌≡◌, refl, ◌↔◌, true, false, none, some, List, [], ◌∷◌, arith, ◌==◌,
  if◌then◌else◌, length, Bytes, codes,
}
use substrate_poc.Loopback.{Datum, AckFrame}
use substrate_poc.Loopback.Server.{take_frame, take_ack, put_ack}
use substrate_poc.Loopback.Client.{fill_payload, new_stream, send_frame, take_ack_frame}
use substrate_poc.Loopback.Client.Report.{build_report}
use substrate_poc.Loopback.Client.Instruments.{Reading, Probe, echoed, read_fails}
use substrate_poc.Loopback.Client.Events.{ProbeAct, IsAccounted, dials, probes}
use substrate_poc.Loopback.Loop.{Loop, sender_of, after_send, carry_acks, first_loop}
use substrate_poc.Loopback.Loop.Sound.{is_sound, judge, build_report-judge}
use substrate_poc.Loopback.Orders.{all_breaks}
use substrate_poc.Sidecar.Ingress.{Ingress}
use substrate_poc.Sidecar.Ingress.Requests.{process, responds}
use substrate_poc.IngressBroker.RoundTrip.{take_post, process-receive}
use substrate_poc.IngressBroker.{
  set_at, new_relay, register_request, unregister_request, park, finish, receive, reply_msg,
  handle_reply, replied,
}
use substrate_poc.IngressBroker.Parked.{
  Watched, RelayRun, IsExact, RelayRun-IsExact, comes, receives, posted, opened, then_step,
}
use substrate_poc.IngressBroker.Answers.{IsOwn, RelayRun-IsOwn}
use substrate_poc.IngressBroker.Forward.{
  ForwardAttempt, forward_from, forward_to_actor, IsAcceptedAt, forward_to_actor-accepted,
  status_is, accepted,
}

-- A checksum that is 32 bits wide.
abbrev length_sum : ℕ → Bytes → ℕ
length_sum crc p = (crc + length p) % 2 ^ 32

abbrev sent_one : Loop
sent_one = after_send (send_frame length_sum 2 (sender_of (first_loop 5))) (first_loop 5)

abbrev first_datum : Datum
first_datum = record { seq = 1; payload = fill_payload 2 1; intact = true }

abbrev read_one : Loop
read_one = record sent_one {
  serving = take_frame length_sum 300 9 first_datum sent_one.serving;
  to_server = [];
}

abbrev took_one : Loop
took_one = record read_one { serving = take_ack read_one.serving }

abbrev put_one : Loop
put_one = carry_acks (record took_one { serving = put_ack 400 took_one.serving })

abbrev first_ack : AckFrame
first_ack = record { ack_seq = 1; total_bytes = 2; running_crc = 2 }

abbrev acked_one : Loop
acked_one = record put_one { stream = take_ack_frame first_ack put_one.stream; to_client = [] }

build_report-judge_example :
    (build_report new_stream 1 0 0).verdict ≡ some (judge (is_sound new_stream 0 0) 1)
build_report-judge_example = build_report-judge new_stream 1 0 0

one_break : all_breaks ((7, []) ∷ (8, []) ∷ (10, []) ∷ []) ≡ 1
one_break = refl

abbrev clock_at : ℕ → ℕ → Reading
clock_at wall mono = record { wall = wall; mono = mono }

abbrev new_probe : Probe
new_probe = record {
  probes_sent = 0;
  echoes_ok = 0;
  reconnects = 0;
  events = [];
  last_ok = none;
  probe = 0;
}

new_probe-IsAccounted : IsAccounted new_probe
new_probe-IsAccounted = record { kept = omega arith; ended = refl; numbered = refl }

abbrev probe_acts : List ProbeAct
probe_acts = dials 1 ∷ probes 2 echoed ∷ probes 9 (read_fails (codes "timeout")) ∷ []

abbrev opened_relay : Watched
opened_relay = record {
  relay = new_relay (record {
    atenet_addr = codes "atenet:80";
    atespace = codes "demo";
    reply_addr = codes "10.1.2.3:9090";
    request_timeout = 0;
  });
  posts = [];
}

opened_relay-IsExact : IsExact opened_relay.relay
unfolding new_relay
opened_relay-IsExact = record {
  named = λ id n e. absurd cc;
  listed = λ n parked. absurd (omega (arith, parked.0));
}

opened_relay-IsOwn : IsOwn opened_relay
unfolding new_relay
opened_relay-IsOwn = record { waiting = λ n msg e. absurd cc; answered = λ n msg e. absurd cc }

abbrev parked_one : Watched
parked_one = record opened_relay { relay = park (codes "r1") opened_relay.relay }

abbrev posted_one : Watched
posted_one = record {
  relay = handle_reply (codes "r1") 0 (codes "text/plain") (codes "42") parked_one.relay;
  posts = (codes "r1", reply_msg 0 (codes "text/plain") (codes "42")) ∷ [];
}

abbrev served_one : Watched
served_one = record posted_one { relay = receive 0 posted_one.relay }

one_served : RelayRun opened_relay served_one
unfolding new_relay park register_request handle_reply
one_served =
    then_step
      (then_step (then_step opened (comes (codes "r1") (λ n lt. absurd (omega (arith, lt)))))
        (posted (codes "r1") 0 (codes "text/plain") (codes "42")))
      (receives 0 (omega arith, refl))

RelayRun-IsExact_example : IsExact served_one.relay
RelayRun-IsExact_example = RelayRun-IsExact opened_relay-IsExact one_served

RelayRun-IsOwn_example : IsOwn served_one
RelayRun-IsOwn_example = RelayRun-IsOwn opened_relay-IsExact opened_relay-IsOwn one_served

-- The client got the answer, with the status that a reply without one has.
served :
    served_one.relay.answers 0 ≡ some (replied (reply_msg 200 (codes "text/plain") (codes "42")))
unfolding new_relay park register_request handle_reply receive finish unregister_request
served = refl

abbrev second_try : ℕ → ForwardAttempt
second_try k = if k == 1 then status_is 503 else status_is 202

forward_to_actor-accepted_example :
    (forward_to_actor second_try (λ k. false) ≡ accepted)
    ↔ ((k : ℕ) × (k ≤ 5) × IsAcceptedAt second_try (λ k. false) 1 k)
forward_to_actor-accepted_example = forward_to_actor-accepted second_try (λ k. false)

forwarded : forward_to_actor second_try (λ k. false) ≡ accepted
unfolding forward_to_actor forward_from
forwarded = refl

parked_one-IsExact : IsExact parked_one.relay
unfolding new_relay park register_request
parked_one-IsExact =
    RelayRun-IsExact {w = opened_relay} {x = parked_one} opened_relay-IsExact
      (then_step opened (comes (codes "r1") (λ n lt. absurd (omega (arith, lt)))))

abbrev busy_ingress : Ingress
busy_ingress = record { in_flight = 1; idle_since = none }

-- The agent's answer to the parked request gets through at the second attempt.
process-receive_example :
    (let out =
        process 40
          (codes "broker:9090")
          (codes "r1")
          (responds 200 (codes "text/plain") (codes "42"))
          (λ k. k == 2)
          busy_ingress in
      (receive 0 (take_post out.1 parked_one.relay)).answers
      ≡ set_at parked_one.relay.answers 0 (
          some (
            replied
              (record { status = 200; content_type = codes "text/plain"; body = codes "42" }))))
unfolding new_relay park register_request
process-receive_example =
    process-receive 40 0 200 (codes "broker:9090") (codes "text/plain") (codes "42") (λ k. k == 2)
      busy_ingress parked_one.relay parked_one-IsExact (omega arith, refl) refl (omega arith)
      (2, omega arith, omega arith, refl)
