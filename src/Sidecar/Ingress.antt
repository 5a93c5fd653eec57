-- ===== src/Sidecar/Ingress.antt =====
-- internal/sidecar/ingress.go: the count of requests in flight, and the delivery of an answer.
-- Times are nanoseconds; `none` is the zero `time.Time`.
pub mod Idle
pub mod Requests
use substrate_poc.Prelude.{
  ℕ, zero, suc, ◌+◌, ◌-◌, Bool, Option, none, some, List, [], ◌∷◌, ltb, ◌==◌, if◌then◌else◌,
}

pub record Ingress : Type 0 where
  pub in_flight : ℕ
  pub idle_since : Option ℕ

unfoldable pub new_ingress : ℕ → Ingress
new_ingress now = record { in_flight = 0; idle_since = some now }

abbrev pub time_since : ℕ → Option ℕ → ℕ
time_since now none = 0
time_since now (some since) = now - since

unfoldable pub idle_duration : ℕ → Ingress → ℕ
idle_duration now i = if ltb 0 i.in_flight then 0 else time_since now i.idle_since

unfoldable pub enter_request : Ingress → Ingress
enter_request i = record { in_flight = i.in_flight + 1; idle_since = none }

unfoldable pub exit_request : ℕ → Ingress → Ingress
exit_request now i =
    let left = if ltb 0 i.in_flight then i.in_flight - 1 else i.in_flight in
    record { in_flight = left; idle_since = if left == 0 then some now else i.idle_since }

-- A request comes, or the answer to one has been handed on.
pub data Request : Type 0 where
  enters : Request
  exits : ℕ → Request

unfoldable pub ingress_run : List Request → Ingress → Ingress
unfolding enter_request exit_request
ingress_run [] i = i
ingress_run (enters ∷ rs) i = ingress_run rs (enter_request i)
ingress_run (exits now ∷ rs) i = ingress_run rs (exit_request now i)

-- How `deliver` ends: with the attempt that the ingress-broker took, or behind all attempts.
-- `posted` tells of each post whether it went without an error.
unfoldable pub deliver_from : ℕ → ℕ → (ℕ → Bool) → Option ℕ
deliver_from zero attempt posted = none
deliver_from (suc left) attempt posted =
    let rest = deliver_from left (attempt + 1) posted in
    if posted attempt then some attempt else rest

unfoldable pub deliver : (ℕ → Bool) → Option ℕ
unfolding deliver_from
deliver posted = deliver_from 5 1 posted
