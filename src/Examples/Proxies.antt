-- ===== src/Examples/Proxies.antt =====
-- Connections of the agent at the sidecar's proxy.
use substrate_poc.Prelude.{
  drop, ◌≡◌, refl, ◌⊎◌, true, false, none, some, [], ◌∷◌, arith, Bytes, codes,
}
use substrate_poc.Tunnel.Buffer.Stream.{Holds-new_replay_buffer}
use substrate_poc.Sidecar.Session.{Side, new_client_session}
use substrate_poc.Sidecar.Proxy.{
  split_ok, join_host_port, host_port, Pumped, PlainRequest, Arrival, handle, at_eof, another,
  connects, requests,
}
use substrate_poc.Sidecar.Proxy.Pump.{IsLive, Pumps}
use substrate_poc.Sidecar.Proxy.Hosts.{host_port-bracketed}
use substrate_poc.Sidecar.Proxy.Carried.{target_of, bytes_of, IsTurnedAway, handle-Pumps}
use substrate_poc.Examples.{agent, up_conn}

abbrev opened_for : Bytes → Side
opened_for target = record {
  session = new_client_session 8 1 target agent;
  conn = some up_conn;
  removed = false;
}

opened_for-IsLive : (target : Bytes) → IsLive [] (opened_for target)
unfolding new_client_session
opened_for-IsLive target = record { held = Holds-new_replay_buffer 8; alive = refl }

-- Two requests for one host, and a third for another.
abbrev to_host : Bytes → Bytes → PlainRequest
to_host host text = record { host = host; pieces = text ∷ []; failure = none }

abbrev three_requests : Arrival
three_requests = requests (to_host (codes "a") (codes "GET")) (
    another (to_host (codes "a:80") (codes "PUT"))
    ∷ another (to_host (codes "b") (codes "DEL"))
    ∷ [])

abbrev with_ended : Arrival
with_ended = connects (record {
  connect_host = codes "a";
  buffered = codes "x";
  reads =
      record { bytes = codes "hello"; failure = none }
      ∷ record { bytes = codes "!"; failure = some at_eof }
      ∷ [];
})

handle-Pumps_example :
    ((handle true with_ended opened_for ≡ none) × IsTurnedAway true with_ended)
    ⊎ ((r : Side × Pumped) × (handle true with_ended opened_for ≡ some r)
        × Pumps [] (drop 1 (codes "xhello!")) r
        × (¬ IsTurnedAway true with_ended))
handle-Pumps_example =
    handle-Pumps true with_ended opened_for (opened_for-IsLive (target_of with_ended)) (omega arith)

-- Only the requests for the first host are forwarded.
host_changes : bytes_of three_requests ≡ codes "GETPUT"
unfolding host_port split_ok join_host_port
host_changes = refl

host_port-bracketed_example : host_port (codes "[::1]") (codes "80") ≡ codes "[[::1]]:80"
host_port-bracketed_example = host_port-bracketed (codes "::1") (codes "80") refl refl
