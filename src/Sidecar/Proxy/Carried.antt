-- ===== src/Sidecar/Proxy/Carried.antt =====
-- internal/sidecar/proxy.go, `handle`: a connection of the agent from its first request on.
use substrate_poc.Prelude.{
  ℕ, ◌++◌, sym, subst, drop, drop-length_append, length-append, ◌<◌, ◌≡◌, refl, ◌⊎◌, inl, inr, Bool,
  true, false, none, some, [], arith, length, Bytes, u64_mod, codes,
}
use substrate_poc.Sidecar.Session.{Side}
use substrate_poc.Sidecar.Proxy.{
  host_port, Pumped, connect_pump, handle_connect, http_loop, handle_http, Arrival, handle,
  unreadable, connects, requests,
}
use substrate_poc.Sidecar.Proxy.Pump.{all_bytes, IsLive, Pumps, connect_pump-Pumps}
use substrate_poc.Sidecar.Proxy.Plain.{http_loop-Pumps, run_bytes}

-- The target that a first request has its session opened for.
abbrev pub target_of : Arrival → Bytes
target_of unreadable = []
target_of (connects start) = host_port start.connect_host (codes "443")
target_of (requests first rest) = host_port first.host (codes "80")

-- The bytes that are for the destination: all that the agent sent behind a CONNECT, and those of plain requests
-- for the first one's target.
abbrev pub bytes_of : Arrival → Bytes
bytes_of unreadable = []
bytes_of (connects start) = start.buffered ++ all_bytes start.reads
bytes_of (requests first rest) = run_bytes (host_port first.host (codes "80")) first rest

-- How many of them the reader of the first request holds already when the CONNECT is handled.
abbrev pub held_back : Arrival → ℕ
held_back unreadable = 0
held_back (connects start) = length start.buffered
held_back (requests first rest) = 0

-- The agent's connection is closed at once: nothing could be read, or the answer to a CONNECT not be written.
abbrev pub IsTurnedAway : Bool → Arrival → Type 0
IsTurnedAway wrote unreadable = Unit {0}
IsTurnedAway wrote (connects start) = wrote ≡ false
IsTurnedAway wrote (requests first rest) = ⊥

-- A connection of the agent is closed without a session exactly if its first request cannot be read, or is a
-- CONNECT whose answer cannot be written. Otherwise a session is opened for the target of the first request,
-- and its replay buffer takes a front, in order, of the bytes for the destination less those that are held
-- back: bytes behind a CONNECT that came in with it are lost, and with none of them nothing is. The bytes for
-- the destination are those behind a CONNECT up to an error, or the requests up to one that names another
-- target or cannot be read. It takes all of the rest unless it waits for room; the proxy never gives up, and
-- where it is through, the agent's half is closed. The session that is opened is alive, and took nothing yet.
pub handle-Pumps :
    (wrote : Bool) (first : Arrival) (opened : Bytes → Side)
    → IsLive [] (opened (target_of first))
    → length (bytes_of first) < u64_mod
    → ((handle wrote first opened ≡ none) × IsTurnedAway wrote first)
      ⊎ ((r : Side × Pumped) × (handle wrote first opened ≡ some r)
          × Pumps [] (drop (held_back first) (bytes_of first)) r
          × (¬ IsTurnedAway wrote first))
unfolding handle handle_connect handle_http
handle-Pumps wrote unreadable opened h small = inl (refl, tt)
handle-Pumps false (connects start) opened h small = inl (refl, refl)
handle-Pumps true (connects start) opened h small = inr (
  connect_pump start.reads (opened (host_port start.connect_host (codes "443"))),
  refl,
  (let opened_session = opened (host_port start.connect_host (codes "443")) in
      subst (λ bytes. Pumps [] bytes (connect_pump start.reads opened_session))
        (sym (drop-length_append start.buffered (all_bytes start.reads)))
        (connect_pump-Pumps start.reads [] opened_session h
          (omega (arith, small, length-append start.buffered (all_bytes start.reads))))),
  λ same. absurd cc,
)
handle-Pumps wrote (requests first rest) opened h small =
    let target = host_port first.host (codes "80") in
    inr (
      http_loop target first rest (opened target),
      refl,
      http_loop-Pumps target first rest [] (opened target) h (omega (arith, small)),
      λ no. no,
    )
