-- ===== src/IngressBroker/Forward.antt =====
-- demos/adk-calc/internal/ingressbroker/broker.go, `forwardToActor`: the retries of a request on its way.
use substrate_poc.Prelude.{
  if-intro, ℕ, zero, suc, ◌+◌, ◌≤◌, ◌<◌, ◌≡◌, refl, sym, ap, subst, ◌↔◌, ◌⊎◌, inl, inr, Bool, true,
  false, Option, none, some, [], arith, ltb, ◌==◌, if◌then◌else◌, ==_iff, Bool-cases, Bytes,
}

-- How an attempt goes: no request can be built; the call fails; or a status comes back.
pub data ForwardAttempt : Type 0 where
  unbuilt call_fails : Bytes → ForwardAttempt
  status_is : ℕ → ForwardAttempt

-- How the forwarding ends. `gave_up` has the last error: of the call, or of the status.
pub data Forwarded : Type 0 where
  accepted : Forwarded
  not_built : Bytes → Forwarded
  hard_error : ℕ → Forwarded
  gave_up : ForwardAttempt → Forwarded
  context_done : Forwarded

-- Whether the loop returns behind an attempt.
abbrev pub settle : ForwardAttempt → Option Forwarded
settle (unbuilt text) = some (not_built text)
settle (call_fails text) = none
settle (status_is n) =
    if ltb n 300 then some accepted else if ltb n 500 then some (hard_error n) else none

-- `done k` tells whether the context ends in the wait behind attempt `k`.
abbrev pub wait_then : Bool → Forwarded → Forwarded
wait_then true rest = context_done
wait_then false rest = rest

abbrev pub settled_or : Option Forwarded → Forwarded → Forwarded
settled_or none rest = rest
settled_or (some end) rest = end

-- `left` attempts are left, the next of them is `attempt`; `last` is the last error.
unfoldable pub forward_from : ℕ → ℕ → (ℕ → ForwardAttempt) → (ℕ → Bool) → ForwardAttempt → Forwarded
forward_from zero attempt try done last = gave_up last
forward_from (suc left) attempt try done last =
    let rest = forward_from left (attempt + 1) try done (try attempt) in
    settled_or (settle (try attempt)) (wait_then (done attempt) rest)

unfoldable pub forward_to_actor : (ℕ → ForwardAttempt) → (ℕ → Bool) → Forwarded
unfolding forward_from
forward_to_actor try done = forward_from 5 1 try done (call_fails [])

-- An attempt that was answered by a status below 300.
abbrev pub IsTaken : ForwardAttempt → Type 0
IsTaken (unbuilt text) = ⊥
IsTaken (call_fails text) = ⊥
IsTaken (status_is n) = n < 300

-- An attempt that has to be made again: the call failed, or the status was 500 or more.
abbrev pub IsPassing : ForwardAttempt → Type 0
IsPassing (unbuilt text) = ⊥
IsPassing (call_fails text) = Unit {0}
IsPassing (status_is n) = 500 ≤ n

-- An attempt that has to be made again, and the context lasts.
abbrev pub IsRetried : (ℕ → ForwardAttempt) → (ℕ → Bool) → ℕ → Type 0
IsRetried try done k = IsPassing (try k) × (done k ≡ false)

-- The attempt `k` is accepted, and each one from `first` on before it has to be made again.
abbrev pub IsAcceptedAt : (ℕ → ForwardAttempt) → (ℕ → Bool) → ℕ → ℕ → Type 0
IsAcceptedAt try done first k =
    (first ≤ k) × IsTaken (try k) × ((j : ℕ) → first ≤ j → j < k → IsRetried try done j)

IsTaken-settle : (a : ForwardAttempt) → (settle a ≡ some accepted) ↔ IsTaken a
IsTaken-settle (unbuilt text) = ((λ e. absurd cc), (λ no. absurd no))
IsTaken-settle (call_fails text) = ((λ e. absurd cc), (λ no. absurd no))
IsTaken-settle (status_is n) = (
  if-intro {A = Option Forwarded} (λ o. o ≡ some accepted → n < 300) (ltb n 300)
      (λ low _. ground arith)
      (λ high.
        if-intro {A = Option Forwarded} (λ o. o ≡ some accepted → n < 300) (ltb n 500)
          (λ _ e. absurd cc) (λ _ e. absurd cc)),
  (λ lt. let low : ltb n 300 ≡ true = ground arith in rw low refl),
)

IsPassing-settle : (a : ForwardAttempt) → (settle a ≡ none) ↔ IsPassing a
IsPassing-settle (unbuilt text) = ((λ e. absurd cc), (λ no. absurd no))
IsPassing-settle (call_fails text) = ((λ _. tt), (λ _. refl))
IsPassing-settle (status_is n) = (
  if-intro {A = Option Forwarded} (λ o. o ≡ none → 500 ≤ n) (ltb n 300) (λ _ e. absurd cc)
      (λ _.
        if-intro {A = Option Forwarded} (λ o. o ≡ none → 500 ≤ n) (ltb n 500) (λ _ e. absurd cc)
          (λ high _. ground arith)),
  (λ le.
      let high : ltb n 300 ≡ false = ground arith in
      let higher : ltb n 500 ≡ false = ground arith in rw (high, higher) refl),
)

settled-accepted :
    (o : Option Forwarded) (b : Bool) (rest : Forwarded)
    → settled_or o (wait_then b rest) ≡ accepted
    → (o ≡ some accepted) ⊎ ((o ≡ none) × (b ≡ false) × (rest ≡ accepted))
settled-accepted (some end) b rest e = inl (ap some e)
settled-accepted none true rest e = absurd cc
settled-accepted none false rest e = inr (refl, refl, e)

accepted_later :
    (try : ℕ → ForwardAttempt) (done : ℕ → Bool) (first k : ℕ)
    → IsRetried try done first
    → IsAcceptedAt try done (first + 1) k
    → IsAcceptedAt try done first k
accepted_later try done first k again (le, there, before) = (
  omega arith,
  there,
  λ j lo hi. elim (Bool-cases (j == first)) [
    | inl same ↦ subst (IsRetried try done) (sym ((==_iff j first).0 same)) again
    | inr other ↦ before j (ground arith) hi
  ],
)

forward_from-accepted :
    (left first : ℕ) (try : ℕ → ForwardAttempt) (done : ℕ → Bool) (last : ForwardAttempt)
    → forward_from left first try done last ≡ accepted
    → (k : ℕ) × (k < first + left) × IsAcceptedAt try done first k
unfolding forward_from
forward_from-accepted zero first try done last e = absurd cc
forward_from-accepted (suc left) first try done last e =
    elim (settled-accepted (settle (try first)) (done first)
      (forward_from left (first + 1) try done (try first)) e) [
        | inl now ↦ (
          first,
          omega arith,
          (omega arith, (IsTaken-settle (try first)).0 now, λ j lo hi. absurd (omega arith)),
        )
        | inr (again, lasts, later) ↦
            let (k, lt, at) = forward_from-accepted left (first + 1) try done (try first) later in
            (
              k,
              omega arith,
              accepted_later try done first k ((IsPassing-settle (try first)).0 again, lasts) at,
            )
      ]

forward_from-settles :
    (left first k : ℕ) (try : ℕ → ForwardAttempt) (done : ℕ → Bool) (last : ForwardAttempt)
    → k < first + left
    → IsAcceptedAt try done first k
    → forward_from left first try done last ≡ accepted
unfolding forward_from
forward_from-settles zero first k try done last lt at = absurd (omega (arith, at.0))
forward_from-settles (suc left) first k try done last lt (le, there, before) =
    elim (Bool-cases (k == first)) [
      | inl same ↦
          let now : settle (try first) ≡ some accepted =
            subst (λ j. settle (try j) ≡ some accepted) ((==_iff k first).0 same)
              ((IsTaken-settle (try k)).1 there) in
          rw now refl
      | inr other ↦
          let (passing, lasts) = before first (omega arith) (ground arith) in
          let again : settle (try first) ≡ none = (IsPassing-settle (try first)).1 passing in
          rw (again, lasts)
            (forward_from-settles left (first + 1) k try done (try first) (omega arith)
              (ground arith, there, λ j lo hi. before j (omega arith) hi))
    ]

-- A request is forwarded exactly if one of the five attempts is answered by a status below 300, and every
-- attempt before that one failed, or was answered by a status of 500 or more, with the context not done in
-- the wait behind it.
pub forward_to_actor-accepted :
    (try : ℕ → ForwardAttempt) (done : ℕ → Bool)
    → (forward_to_actor try done ≡ accepted) ↔ ((k : ℕ) × (k ≤ 5) × IsAcceptedAt try done 1 k)
unfolding forward_to_actor
forward_to_actor-accepted try done = (
  (λ e.
      let (k, lt, at) = forward_from-accepted 5 1 try done (call_fails []) e in
      (k, omega arith, at)),
  (λ found.
      let (k, le, at) = found in
      forward_from-settles 5 1 k try done (call_fails []) (omega arith) at),
)
