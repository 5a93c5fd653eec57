-- ===== src/Examples/Lives.antt =====
-- Sessions of the broker over runs of what can happen.
use substrate_poc.Prelude.{◌≡◌, refl, true, false, some, List, [], ◌∷◌}
use substrate_poc.Broker.Session.State.{World, maybe_destroy, wrote, end_of_stream}
use substrate_poc.Broker.Session.Uplink.{dial_ok}
use substrate_poc.Broker.Session.Downlink.{on_downstream_ack}
use substrate_poc.Broker.Session.{
  Act, run, binds, detaches, dials, data_comes, acks, attaches, closes, reads, fires,
}
use substrate_poc.Broker.Session.Quiescence.{wakes, Quiet, run-Quiet, run-on_downstream_ack}
use substrate_poc.Broker.Session.Lifetime.{IsTidy}
use substrate_poc.Broker.Session.Lifetime.Acts.{run-IsTidy}
use substrate_poc.Broker.Session.Lifetime.Leak.{on_downstream_ack-leaks}
use substrate_poc.Examples.{stream, held_buf-Holds, connected_session, connected}

abbrev idle_acts : List Act
idle_acts = detaches 5 ∷ reads (21 ∷ 22 ∷ []) (some end_of_stream) ∷ fires ∷ []

abbrev quiet : World
quiet = record connected { session = record connected_session { request_outstanding = false } }

run-Quiet_example : Quiet 0 (run idle_acts quiet)
run-Quiet_example = run-Quiet idle_acts quiet (tt, (tt, (tt, tt))) (refl, refl)

run-on_downstream_ack_example : wakes (run idle_acts (on_downstream_ack 4 connected)).events ≡ 0
run-on_downstream_ack_example =
    run-on_downstream_ack idle_acts stream connected (tt, (tt, (tt, tt))) held_buf-Holds

connected-IsTidy : IsTidy connected
connected-IsTidy = record { counted = refl; shut = λ dead. absurd cc }

abbrev busy_acts : List Act
busy_acts =
    dials (dial_ok wrote) 9
    ∷ data_comes 10 wrote 2 (13 ∷ 14 ∷ [])
    ∷ acks 4
    ∷ closes 0
    ∷ reads [] (some end_of_stream)
    ∷ attaches 4
    ∷ []

run-IsTidy_example : IsTidy (run busy_acts connected)
run-IsTidy_example = run-IsTidy busy_acts connected connected-IsTidy

abbrev closed_both : World
closed_both = record connected {
  session = record connected_session { up_closed = true; down_closed = true };
}

on_downstream_ack-leaks_example :
    ((maybe_destroy (on_downstream_ack 4 closed_both)).session.dead ≡ true)
    × ((run (detaches 5 ∷ binds 6 ∷ attaches 4 ∷ []) (on_downstream_ack 4 closed_both)).session.dead
        ≡ false)
on_downstream_ack-leaks_example =
    on_downstream_ack-leaks (detaches 5 ∷ binds 6 ∷ attaches 4 ∷ []) stream closed_both
      (tt, (tt, (tt, tt))) held_buf-Holds refl refl refl
