-- ===== src/Sidecar/Suspender.antt =====
-- internal/sidecar/suspender.go: when the sidecar suspends its actor.
-- Times are nanoseconds; durations are taken to be at least 0. `none` is the zero `time.Time`, or, for
-- `ingress_idle`, a signal that is not there.
pub mod Gate
pub mod Grace
use substrate_poc.Prelude.{
  ℕ, ◌+◌, ◌-◌, ◌*◌, ◌/◌, Bool, true, false, not, ◌&&◌, Option, none, some, List, [], ◌∷◌, ltb, leb,
  ◌==◌, if◌then◌else◌,
}
use substrate_poc.Activity.{Status}

pub record Suspender : Type 0 where
  pub poll : ℕ
  pub blocked : ℕ
  pub include_model : Bool
  pub idle : ℕ
  pub cooldown : ℕ
  pub resume_gap : ℕ
  pub last_tool_gen : ℕ
  pub last_model_gen : ℕ

-- `SuspenderConfig`, as far as the decisions read it.
pub record SuspenderConfig : Type 0 where
  pub poll_interval : ℕ
  pub blocked_after : ℕ
  pub include_model_calls : Bool
  pub idle_after : ℕ
  pub suspend_cooldown : ℕ

abbrev pub seconds : ℕ → ℕ
seconds n = n * 1000000000

abbrev or_default : ℕ → ℕ → ℕ
or_default n default = if n == 0 then default else n

unfoldable pub new_suspender : SuspenderConfig → Suspender
new_suspender cfg =
    let poll = or_default cfg.poll_interval 500000000 in
    record {
      poll = poll;
      blocked = or_default cfg.blocked_after (seconds 1);
      include_model = cfg.include_model_calls;
      idle = cfg.idle_after;
      cooldown = or_default cfg.suspend_cooldown (seconds 2);
      resume_gap = if ltb (seconds 2) (poll * 3) then poll * 3 else seconds 2;
      last_tool_gen = 0;
      last_model_gen = 0;
    }

pub data Reason : Type 0 where
  tool_blocked model_blocked idle_between_turns : Reason

unfoldable pub decide_blocked : Suspender → Status → Option Reason
decide_blocked s st =
    if ltb 0 st.tool_calls_in_flight && leb (s.blocked / 1000000) st.tool_blocked_millis
    then some tool_blocked
    else if s.include_model
        && (ltb 0 st.model_calls_in_flight && leb (s.blocked / 1000000) st.model_blocked_millis)
    then some model_blocked
    else none

-- The poller: its fields, and the variables of `Run`.
pub record Poller : Type 0 where
  pub suspender : Suspender
  pub last_suspend : Option ℕ
  pub prev_tick : ℕ
  pub idle_grace_until : Option ℕ

-- What one tick meets: the time, the answer to the poll (`none` is an error), what the ingress reports, and
-- the times at which the cooldown is read and the suspend is noted.
pub record Tick : Type 0 where
  pub now : ℕ
  pub status : Option Status
  pub ingress_idle : Option ℕ
  pub checked : ℕ
  pub fired : ℕ

-- An attempt to suspend: the reason, what the poll said, and the two times.
pub record Attempt : Type 0 where
  pub reason : Reason
  pub status : Option Status
  pub checked : ℕ
  pub fired : ℕ

abbrev pub after : ℕ → Option ℕ → Bool
after now none = true
after now (some t) = ltb t now

-- A gap on the wall clock that is much longer than the poll's interval is a suspend that ended.
unfoldable pub note_resume : Tick → Poller → Poller
note_resume k p = record p {
  idle_grace_until =
      if ltb p.suspender.resume_gap (k.now - p.prev_tick)
      then some (k.now + p.suspender.idle)
      else p.idle_grace_until;
  prev_tick = k.now;
}

abbrev pub long_idle : Option ℕ → ℕ → Bool
long_idle none idle = false
long_idle (some t) idle = leb idle t

abbrev pub blocked_reason : Suspender → Option Status → Option Reason
blocked_reason s none = none
blocked_reason s (some st) = decide_blocked s st

-- The reason to suspend, if there is one.
unfoldable pub decide : Tick → Poller → Option Reason
decide k p = elim (blocked_reason p.suspender k.status) [
  | some r ↦ some r
  | none ↦
      if long_idle k.ingress_idle p.suspender.idle
        && (ltb 0 p.suspender.idle && after k.now p.idle_grace_until)
      then some idle_between_turns
      else none
]

abbrev pub tool_gen : Option Status → ℕ
tool_gen none = 0
tool_gen (some st) = st.tool_calls_started

abbrev pub model_gen : Option Status → ℕ
model_gen none = 0
model_gen (some st) = st.model_calls_started

-- Whether the gate lets the reason through: a call is suspended for once.
abbrev pub is_new : Reason → Option Status → Suspender → Bool
is_new tool_blocked st s = not (leb (tool_gen st) s.last_tool_gen)
is_new model_blocked st s = not (leb (model_gen st) s.last_model_gen)
is_new idle_between_turns st s = true

abbrev pub cooled : ℕ → Option ℕ → ℕ → Bool
cooled now none cooldown = true
cooled now (some t) cooldown = not (ltb (now - t) cooldown)

abbrev pub noted : Reason → Option Status → Suspender → Suspender
noted tool_blocked st s = record s { last_tool_gen = tool_gen st }
noted model_blocked st s = record s { last_model_gen = model_gen st }
noted idle_between_turns st s = s

-- The tick from the reason on.
unfoldable pub attempt : Tick → Option Reason → Poller → Poller × Option Attempt
attempt k none p = (p, none)
attempt k (some r) p =
    if not (is_new r k.status p.suspender)
    then (p, none)
    else if not (cooled k.checked p.last_suspend p.suspender.cooldown)
    then (p, none)
    else (
      record p { suspender = noted r k.status p.suspender; last_suspend = some k.fired },
      some (record { reason = r; status = k.status; checked = k.checked; fired = k.fired }),
    )

unfoldable pub tick : Tick → Poller → Poller × Option Attempt
unfolding note_resume decide
tick k p = let p' = note_resume k p in attempt k (decide k p') p'

abbrev pub cons_some {ℓ} : {A : Type ℓ} → Option A → List A → List A
cons_some none xs = xs
cons_some (some x) xs = x ∷ xs

-- The loop: the attempts that a run of ticks makes, in order.
unfoldable pub run_ticks : List Tick → Poller → List Attempt
run_ticks [] p = []
run_ticks (k ∷ ks) p = let r = tick k p in cons_some r.1 (run_ticks ks r.0)
