-- ===== src/Examples/Sidecars.antt =====
-- Sessions of the sidecar.
use substrate_poc.Prelude.{refl, none, List, [], ◌∷◌, arith, codes, IsSlice}
use substrate_poc.Sidecar.Session.{Side, deliver_down, close_up}
use substrate_poc.Sidecar.Session.Deliver.{HasDelivered, HasDelivered-deliver_down}
use substrate_poc.Sidecar.Session.Teardown.{
  SideAct, side_run, IsKept, side_run-IsKept, IsForgotten, close_up-IsForgotten, frame_comes,
  agent_closes, tunnel_is,
}
use substrate_poc.Broker.Session.State.{close_down}
use substrate_poc.Examples.{stream, client_session, side}

client_session-HasDelivered : HasDelivered client_session stream
client_session-HasDelivered = record { small = omega arith; within = omega arith; front = refl }

tail-IsSlice : IsSlice stream 1 (12 ∷ 13 ∷ 14 ∷ [])
tail-IsSlice = (omega arith, refl)

HasDelivered-deliver_down_example :
    HasDelivered (deliver_down none 1 (12 ∷ 13 ∷ 14 ∷ []) side).session stream
HasDelivered-deliver_down_example =
    HasDelivered-deliver_down 1 (12 ∷ 13 ∷ 14 ∷ []) stream side client_session-HasDelivered
      tail-IsSlice

abbrev closing : List SideAct
closing =
    agent_closes (codes "eof")
    ∷ frame_comes none (close_down 7 (codes "upstream EOF"))
    ∷ tunnel_is none
    ∷ []

side_run-IsKept_example : IsKept (side_run closing side)
side_run-IsKept_example =
    side_run-IsKept closing side (tt, (refl, (tt, tt)))
      (record { alive = refl; listed = refl; halves = refl })

abbrev down : Side
down = record side { conn = none }

close_up-IsForgotten_example : IsForgotten down (close_up (codes "eof") down)
close_up-IsForgotten_example = close_up-IsForgotten (codes "eof") down refl refl
