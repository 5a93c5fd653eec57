-- ===== src/Sidecar/Suspender/Gate.antt =====
-- internal/sidecar/suspender.go, `Run`: what holds of all attempts to suspend, over any run of ticks.
use substrate_poc.Prelude.{
  ℕ, ◌+◌, ◌≤◌, ◌<◌, ◌≡◌, refl, sym, ap, subst, ◌∙◌, inl, inr, true, Option, none, some, List, [],
  ◌∷◌, arith, Bool-cases, Option-cases, All,
}
use substrate_poc.Activity.{Status}
use substrate_poc.Sidecar.Suspender.{
  Suspender, Reason, Poller, Tick, Attempt, note_resume, decide, tool_gen, model_gen, is_new,
  cooled, noted, attempt, tick, cons_some, run_ticks, tool_blocked, model_blocked,
  idle_between_turns,
}

-- What a tick that attempts a suspend answers.
unfoldable pub fires : Reason → Tick → Poller → Poller × Option Attempt
unfolding note_resume
fires r k p = (
  record (note_resume k p) {
    suspender = noted r k.status p.suspender;
    last_suspend = some k.fired;
  },
  some (record { reason = r; status = k.status; checked = k.checked; fired = k.fired }),
)

-- A tick attempts nothing, or it has a reason that passes the gate and the cooldown.
pub data Ticked (k : Tick) (p : Poller) : Type 0 where
  passes : tick k p ≡ (note_resume k p, none) → Ticked k p
  attempts :
      (r : Reason)
      → decide k (note_resume k p) ≡ some r
      → is_new r k.status p.suspender ≡ true
      → cooled k.checked p.last_suspend p.suspender.cooldown ≡ true
      → tick k p ≡ fires r k p
      → Ticked k p

pub tick-Ticked : (k : Tick) (p : Poller) → Ticked k p
unfolding tick attempt fires note_resume
tick-Ticked k p =
    let q = note_resume k p in
    elim (Option-cases (decide k q)) [
      | inl e ↦ passes (ap (λ d. attempt k d q) e)
      | inr (r, e) ↦ elim (Bool-cases (is_new r k.status p.suspender)) [
        | inr old ↦ passes (ap (λ d. attempt k d q) e ∙ rw old refl)
        | inl new ↦ elim (Bool-cases (cooled k.checked p.last_suspend p.suspender.cooldown)) [
          | inr hot ↦ passes (ap (λ d. attempt k d q) e ∙ rw (new, hot) refl)
          | inl cold ↦ attempts r e new cold (ap (λ d. attempt k d q) e ∙ rw (new, cold) refl)
        ]
      ]
    ]

abbrev pub attempted : Reason → Tick → Attempt
attempted r k = record { reason = r; status = k.status; checked = k.checked; fired = k.fired }

abbrev pub after_fire : Reason → Tick → Poller → Poller
after_fire r k p = record (note_resume k p) {
  suspender = noted r k.status p.suspender;
  last_suspend = some k.fired;
}

-- What holds of no attempt, and is kept by each tick that `R` allows, holds of all attempts.
module _ (R : Tick → Type 0) (Q : Poller → List Attempt → Type 0) (done : (p : Poller) → Q p [])
    (pass : (k : Tick) (p : Poller) (made : List Attempt)
      → R k
      → Q (note_resume k p) made
      → Q p made)
    (fire : (r : Reason) (k : Tick) (p : Poller) (made : List Attempt)
      → R k
      → decide k (note_resume k p) ≡ some r
      → is_new r k.status p.suspender ≡ true
      → cooled k.checked p.last_suspend p.suspender.cooldown ≡ true
      → Q (after_fire r k p) made
      → Q p (attempted r k ∷ made)) where
  pub run_ticks-ind : (ks : List Tick) (p : Poller) → All R ks → Q p (run_ticks ks p)
  unfolding run_ticks fires
  run_ticks-ind [] p h = done p
  run_ticks-ind (k ∷ ks) p h = elim (tick-Ticked k p) [
    | passes e ↦
        subst (λ r. Q p (cons_some r.1 (run_ticks ks r.0))) (sym e)
          (pass k p (run_ticks ks (note_resume k p)) h.0 (run_ticks-ind ks (note_resume k p) h.1))
    | attempts r d new cold e ↦
        subst (λ r. Q p (cons_some r.1 (run_ticks ks r.0))) (sym e)
          (fire r k p (run_ticks ks (after_fire r k p)) h.0 d new cold
            (run_ticks-ind ks (after_fire r k p) h.1))
  ]

abbrev AnyTick : Tick → Type 0
AnyTick k = Unit {0}

All-AnyTick : (ks : List Tick) → All AnyTick ks
All-AnyTick [] = tt
All-AnyTick (k ∷ ks) = (tt, All-AnyTick ks)

-- The counts of started tool calls, and of model calls, at the attempts that they caused.
abbrev pub tool_gens : List Attempt → List ℕ
tool_gens [] = []
tool_gens (a ∷ made) =
    let rest = tool_gens made in
    elim a.reason [
      | tool_blocked ↦ tool_gen a.status ∷ rest
      | model_blocked ↦ rest
      | idle_between_turns ↦ rest
    ]

abbrev pub model_gens : List Attempt → List ℕ
model_gens [] = []
model_gens (a ∷ made) =
    let rest = model_gens made in
    elim a.reason [
      | tool_blocked ↦ rest
      | model_blocked ↦ model_gen a.status ∷ rest
      | idle_between_turns ↦ rest
    ]

-- Each number is above the one before it, and the first above `n`.
abbrev pub Rising : ℕ → List ℕ → Type 0
Rising n [] = Unit {0}
Rising n (m ∷ ms) = (n < m) × Rising m ms

OncePerCall : Poller → List Attempt → Type 0
OncePerCall p made =
    Rising p.suspender.last_tool_gen (tool_gens made)
    × Rising p.suspender.last_model_gen (model_gens made)

OncePerCall-fire :
    (r : Reason) (k : Tick) (p : Poller) (made : List Attempt)
    → is_new r k.status p.suspender ≡ true
    → OncePerCall (after_fire r k p) made
    → OncePerCall p (attempted r k ∷ made)
unfolding OncePerCall note_resume
OncePerCall-fire tool_blocked k p made new h = ((ground arith, h.0), h.1)
OncePerCall-fire model_blocked k p made new h = (h.0, (ground arith, h.1))
OncePerCall-fire idle_between_turns k p made new h = h

-- Whatever the agent reports and the clocks say, a call is suspended for once: the counts of started tool
-- calls at which the actor was suspended for a blocked tool call rise strictly, and so do those of model
-- calls.
pub run_ticks-Rising :
    (ks : List Tick) (p : Poller)
    → Rising p.suspender.last_tool_gen (tool_gens (run_ticks ks p))
      × Rising p.suspender.last_model_gen (model_gens (run_ticks ks p))
unfolding OncePerCall note_resume
run_ticks-Rising ks p =
    run_ticks-ind AnyTick OncePerCall (λ _. (tt, tt)) (λ k p made _ h. h)
      (λ r k p made _ _ new _ h. OncePerCall-fire r k p made new h) ks p (All-AnyTick ks)

-- Each attempt comes a cooldown after the one before it, and the first after `last`.
abbrev pub Spaced : ℕ → Option ℕ → List Attempt → Type 0
Spaced cooldown last [] = Unit {0}
Spaced cooldown none (a ∷ made) = Spaced cooldown (some a.fired) made
Spaced cooldown (some t) (a ∷ made) =
    (t + cooldown ≤ a.checked) × Spaced cooldown (some a.fired) made

Cooled : Poller → List Attempt → Type 0
Cooled p made = 0 < p.suspender.cooldown → Spaced p.suspender.cooldown p.last_suspend made

Spaced-cons :
    (cooldown : ℕ) (last : Option ℕ) (a : Attempt) (made : List Attempt)
    → 0 < cooldown
    → cooled a.checked last cooldown ≡ true
    → Spaced cooldown (some a.fired) made
    → Spaced cooldown last (a ∷ made)
Spaced-cons cooldown none a made pos cold h = h
Spaced-cons cooldown (some t) a made pos cold h = (ground arith, h)

noted-cooldown :
    (r : Reason) (st : Option Status) (s : Suspender) → (noted r st s).cooldown ≡ s.cooldown
noted-cooldown tool_blocked st s = refl
noted-cooldown model_blocked st s = refl
noted-cooldown idle_between_turns st s = refl

Cooled-fire :
    (r : Reason) (k : Tick) (p : Poller) (made : List Attempt)
    → cooled k.checked p.last_suspend p.suspender.cooldown ≡ true
    → Cooled (after_fire r k p) made
    → Cooled p (attempted r k ∷ made)
unfolding Cooled note_resume
Cooled-fire r k p made cold h pos =
    let same = noted-cooldown r k.status p.suspender in
    Spaced-cons p.suspender.cooldown p.last_suspend (attempted r k) made pos cold
      (subst (λ c. Spaced c (some k.fired) made) same (h (subst (λ c. 0 < c) (sym same) pos)))

-- With a cooldown that is not 0, two attempts to suspend are at least that far apart, for whichever reasons.
pub run_ticks-Spaced :
    (ks : List Tick) (p : Poller)
    → 0 < p.suspender.cooldown
    → Spaced p.suspender.cooldown p.last_suspend (run_ticks ks p)
unfolding Cooled note_resume
run_ticks-Spaced ks p pos =
    run_ticks-ind AnyTick Cooled (λ _ _. tt) (λ k p made _ h. h)
      (λ r k p made _ _ _ cold h. Cooled-fire r k p made cold h) ks p (All-AnyTick ks) pos
