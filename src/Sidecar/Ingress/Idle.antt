-- ===== src/Sidecar/Ingress/Idle.antt =====
-- internal/sidecar/ingress.go and internal/sidecar/suspender.go: no idle-suspend with a request in flight.
use substrate_poc.Prelude.{
  ℕ, zero, suc, ◌≡◌, refl, sym, ap, ◌∙◌, ◌≢◌, inl, inr, some, List, [], ◌∷◌, arith, Option-cases,
}
use substrate_poc.Sidecar.Suspender.{
  Poller, Tick, Attempt, note_resume, blocked_reason, decide, tick, idle_between_turns,
}
use substrate_poc.Sidecar.Suspender.Gate.{
  fires, tick-Ticked, passes, attempts, tick-Ticked, attempted, passes, attempts,
}
use substrate_poc.Sidecar.Suspender.Grace.{NotIdle, blocked_reason-not_idle}
use substrate_poc.Sidecar.Ingress.{
  Ingress, new_ingress, idle_duration, enter_request, exit_request, Request, ingress_run, enters,
  exits,
}

decide-busy :
    (k : Tick) (p : Poller) → k.ingress_idle ≡ some 0 → decide k p ≢ some idle_between_turns
unfolding decide
decide-busy k p zero_idle e = elim (Option-cases (blocked_reason p.suspender k.status)) [
  | inr (r, blocked) ↦
      blocked_reason-not_idle p.suspender k.status
        (blocked ∙ (let same : some r ≡ some idle_between_turns = ground arith in same))
  | inl free ↦ absurd (ground (arith, zero_idle))
]

tick-busy :
    (k : Tick) (p : Poller) (a : Attempt)
    → k.ingress_idle ≡ some 0
    → (tick k p).1 ≡ some a
    → NotIdle a
unfolding fires
tick-busy k p a zero_idle made = elim (tick-Ticked k p) [
  | passes e ↦ λ _. absurd (cc (ap (λ r. r.1) (sym e) ∙ made))
  | attempts r d new cold e ↦ λ idle.
      let same : attempted r k ≡ a = cc (ap (λ r. r.1) (sym e) ∙ made) in
      decide-busy k (note_resume k p) zero_idle (d ∙ ap some (ap (λ x. x.reason) same ∙ idle))
]

-- How many requests are in flight behind a run, if each exit has its enter before it.
abbrev pub Balanced : ℕ → List Request → ℕ → Type 0
Balanced n [] m = n ≡ m
Balanced n (enters ∷ rs) m = Balanced (suc n) rs m
Balanced zero (exits now ∷ rs) m = ⊥
Balanced (suc n) (exits now ∷ rs) m = Balanced n rs m

ingress_run-in_flight :
    (rs : List Request) (m : ℕ) (i : Ingress)
    → Balanced i.in_flight rs m
    → (ingress_run rs i).in_flight ≡ m
unfolding ingress_run enter_request exit_request
ingress_run-in_flight rs m i h = counted rs i.in_flight m i refl h
  where
    counted :
        (rs : List Request) (n m : ℕ) (i : Ingress)
        → i.in_flight ≡ n
        → Balanced n rs m
        → (ingress_run rs i).in_flight ≡ m
    counted [] n m i e h = e ∙ h
    counted (enters ∷ rs) n m i e h = counted rs (suc n) m (enter_request i) (omega (arith, e)) h
    counted (exits now ∷ rs) zero m i e h = elim h [ ]
    counted (exits now ∷ rs) (suc n) m i e h =
        counted rs n m (exit_request now i) (ground (arith, e)) h

-- As long as more requests have come than were answered, whatever came and went before, a tick of the poller
-- that reads the ingress does not suspend the actor for idleness.
pub tick-ingress_run :
    (rs : List Request) (start now m : ℕ) (k : Tick) (p : Poller) (a : Attempt)
    → Balanced 0 rs (suc m)
    → k.ingress_idle ≡ some (idle_duration now (ingress_run rs (new_ingress start)))
    → (tick k p).1 ≡ some a
    → NotIdle a
unfolding idle_duration new_ingress
tick-ingress_run rs start now m k p a more reads made =
    let i = ingress_run rs (new_ingress start) in
    let busy : i.in_flight ≡ suc m = ingress_run-in_flight rs (suc m) (new_ingress start) more in
    let still : idle_duration now i ≡ 0 = ground (arith, busy) in
    tick-busy k p a (reads ∙ ap some still) made
