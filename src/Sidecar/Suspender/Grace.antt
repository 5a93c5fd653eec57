-- ===== src/Sidecar/Suspender/Grace.antt =====
-- internal/sidecar/suspender.go, `Run`: no idle-suspend right behind a resume.
use substrate_poc.Prelude.{
  ℕ, ◌+◌, ◌-◌, ◌≤◌, ◌<◌, ◌≡◌, refl, ap, subst, ◌∙◌, ◌≢◌, inl, inr, false, Option, none, some, List,
  ◌∷◌, arith, ltb, lt→ltb, Bool-cases, Option-cases, All,
}
use substrate_poc.Activity.{Status}
use substrate_poc.Sidecar.Suspender.{
  Suspender, Reason, decide_blocked, Poller, Tick, Attempt, note_resume, blocked_reason, decide,
  noted, attempt, tick, cons_some, run_ticks, tool_blocked, model_blocked, idle_between_turns,
}
use substrate_poc.Sidecar.Suspender.Gate.{after_fire, run_ticks-ind}

-- Within the grace that a resume at `resumed` gives.
abbrev pub InGrace : ℕ → ℕ → Tick → Type 0
InGrace resumed idle k = (resumed ≤ k.now) × (k.now ≤ resumed + idle)

abbrev pub NotIdle : Attempt → Type 0
NotIdle a = a.reason ≢ idle_between_turns

-- The poller holds idle-suspends off until `resumed + idle` at least.
record HoldsOff (resumed idle : ℕ) (p : Poller) : Type 0 where
  same_idle : p.suspender.idle ≡ idle
  until : ℕ
  grace : p.idle_grace_until ≡ some until
  far : resumed + idle ≤ until

HoldsOff-note_resume :
    (resumed idle : ℕ) (k : Tick) (p : Poller)
    → InGrace resumed idle k
    → HoldsOff resumed idle p
    → HoldsOff resumed idle (note_resume k p)
unfolding note_resume
HoldsOff-note_resume resumed idle k p inside h =
    elim (Bool-cases (ltb p.suspender.resume_gap (k.now - p.prev_tick))) [
      | inl gap ↦ record {
        same_idle = h.same_idle;
        until = k.now + p.suspender.idle;
        grace = rw gap refl;
        far = omega (arith, h.same_idle, inside.0);
      }
      | inr near ↦ record {
        same_idle = h.same_idle;
        until = h.until;
        grace = rw near h.grace;
        far = h.far;
      }
    ]

noted-idle : (r : Reason) (st : Option Status) (s : Suspender) → (noted r st s).idle ≡ s.idle
noted-idle tool_blocked st s = refl
noted-idle model_blocked st s = refl
noted-idle idle_between_turns st s = refl

HoldsOff-fire :
    (resumed idle : ℕ) (r : Reason) (k : Tick) (p : Poller)
    → InGrace resumed idle k
    → HoldsOff resumed idle p
    → HoldsOff resumed idle (after_fire r k p)
unfolding note_resume
HoldsOff-fire resumed idle r k p inside h =
    let noticed = HoldsOff-note_resume resumed idle k p inside h in
    record {
      same_idle = noted-idle r k.status p.suspender ∙ h.same_idle;
      until = noticed.until;
      grace = noticed.grace;
      far = noticed.far;
    }

decide_blocked-not_idle :
    (s : Suspender) (st : Status) → decide_blocked s st ≢ some idle_between_turns
unfolding decide_blocked
decide_blocked-not_idle s st e = ground arith

pub blocked_reason-not_idle :
    (s : Suspender) (st : Option Status) → blocked_reason s st ≢ some idle_between_turns
blocked_reason-not_idle s none e = absurd cc
blocked_reason-not_idle s (some st) e = decide_blocked-not_idle s st e

decide-in_grace :
    (resumed idle : ℕ) (k : Tick) (p : Poller)
    → k.now ≤ resumed + idle
    → HoldsOff resumed idle p
    → decide k p ≢ some idle_between_turns
unfolding decide
decide-in_grace resumed idle k p inside h e =
    elim (Option-cases (blocked_reason p.suspender k.status)) [
      | inr (r, blocked) ↦
          blocked_reason-not_idle p.suspender k.status
            (blocked ∙ (let same : some r ≡ some idle_between_turns = ground arith in same))
      | inl free ↦
          let late : h.until < k.now = ground (arith, h.grace) in absurd (omega (arith, h.far))
    ]

Awake : ℕ → ℕ → Poller → List Attempt → Type 0
Awake resumed idle p made = HoldsOff resumed idle p → All NotIdle made

run_ticks-HoldsOff :
    (resumed idle : ℕ) (ks : List Tick) (p : Poller)
    → All (InGrace resumed idle) ks
    → HoldsOff resumed idle p
    → All NotIdle (run_ticks ks p)
unfolding Awake
run_ticks-HoldsOff resumed idle ks p inside h =
    run_ticks-ind (InGrace resumed idle) (Awake resumed idle) (λ _ _. tt)
      (λ k p made within ih h. ih (HoldsOff-note_resume resumed idle k p within h))
      (λ r k p made within d _ _ ih h. (
        λ e.
            decide-in_grace resumed idle k (note_resume k p) within.1
              (HoldsOff-note_resume resumed idle k p within h) (d ∙ ap some e),
        ih (HoldsOff-fire resumed idle r k p within h),
      ))
      ks p inside h

note_resume-twice : (k : Tick) (p : Poller) → note_resume k (note_resume k p) ≡ note_resume k p
unfolding note_resume
note_resume-twice k p =
    let none_now : ltb p.suspender.resume_gap (k.now - k.now) ≡ false = ground arith in
    rw none_now refl

noticed :
    (k : Tick) (p : Poller)
    → p.suspender.resume_gap < k.now - p.prev_tick
    → HoldsOff k.now p.suspender.idle (note_resume k p)
unfolding note_resume
noticed k p gap = record {
  same_idle = refl;
  until = k.now + p.suspender.idle;
  grace = rw (lt→ltb p.suspender.resume_gap (k.now - p.prev_tick) gap) refl;
  far = omega arith;
}

-- A tick far behind the one before it tells of a resume. From that tick on, and for as long as the idle
-- threshold lasts behind it, no attempt to suspend is for idleness, whatever the ingress reports: the
-- request that woke the actor has that long to arrive.
pub run_ticks-grace :
    (k : Tick) (ks : List Tick) (p : Poller)
    → p.suspender.resume_gap < k.now - p.prev_tick
    → All (InGrace k.now p.suspender.idle) ks
    → All NotIdle (run_ticks (k ∷ ks) p)
unfolding run_ticks tick
run_ticks-grace k ks p gap inside =
    let q = note_resume k p in
    subst (λ x. All NotIdle (let r = attempt k (decide k x) x in cons_some r.1 (run_ticks ks r.0)))
      (note_resume-twice k p)
      (run_ticks-HoldsOff k.now p.suspender.idle (k ∷ ks) q ((omega arith, omega arith), inside)
        (noticed k p gap))
