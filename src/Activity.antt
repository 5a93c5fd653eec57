-- ===== src/Activity.antt =====
-- internal/activitystatus/status.go and internal/activityz/activityz.go: what the agent is doing, and how it
-- reports it. Times are nanoseconds on one clock; `none` is the zero `time.Time`. The counts of calls that
-- ever started are uint64.
pub mod Tracking
use substrate_poc.Prelude.{
  ℕ, ◌+◌, ◌-◌, ◌/◌, ◌%◌, ◌&&◌, Option, none, some, List, [], ◌∷◌, ltb, ◌==◌, if◌then◌else◌, u64_mod,
}

pub record Status : Type 0 where
  pub invocations_in_flight : ℕ
  pub tool_calls_in_flight : ℕ
  pub tool_calls_started : ℕ
  pub model_calls_in_flight : ℕ
  pub model_calls_started : ℕ
  pub tool_blocked_millis : ℕ
  pub model_blocked_millis : ℕ
  pub idle_millis : ℕ

pub record Tracker : Type 0 where
  pub invocations : ℕ
  pub tool_calls : ℕ
  pub tool_calls_total : ℕ
  pub model_calls : ℕ
  pub model_calls_total : ℕ
  pub tool_busy_since : Option ℕ
  pub model_busy : Option ℕ
  pub last_activity : ℕ

unfoldable pub new_tracker : ℕ → Tracker
new_tracker now = record {
  invocations = 0;
  tool_calls = 0;
  tool_calls_total = 0;
  model_calls = 0;
  model_calls_total = 0;
  tool_busy_since = none;
  model_busy = none;
  last_activity = now;
}

unfoldable pub before_run : ℕ → Tracker → Tracker
before_run now t = record t { invocations = t.invocations + 1; last_activity = now }

-- On ℕ, `0 - 1` is `0`, as behind the guard `invocations > 0`.
unfoldable pub after_run : ℕ → Tracker → Tracker
after_run now t = record t {
  invocations = if ltb 0 t.invocations then t.invocations - 1 else t.invocations;
  last_activity = now;
}

unfoldable pub before_tool : ℕ → Tracker → Tracker
before_tool now t = record t {
  tool_busy_since = if t.tool_calls == 0 then some now else t.tool_busy_since;
  tool_calls = t.tool_calls + 1;
  tool_calls_total = (t.tool_calls_total + 1) % u64_mod;
  last_activity = now;
}

unfoldable pub after_tool : ℕ → Tracker → Tracker
after_tool now t =
    let calls = if ltb 0 t.tool_calls then t.tool_calls - 1 else t.tool_calls in
    record t {
      tool_calls = calls;
      tool_busy_since = if calls == 0 then none else t.tool_busy_since;
      last_activity = now;
    }

unfoldable pub before_model : ℕ → Tracker → Tracker
before_model now t = record t {
  model_busy = if t.model_calls == 0 then some now else t.model_busy;
  model_calls = t.model_calls + 1;
  model_calls_total = (t.model_calls_total + 1) % u64_mod;
  last_activity = now;
}

unfoldable pub after_model : ℕ → Tracker → Tracker
after_model now t =
    let calls = if ltb 0 t.model_calls then t.model_calls - 1 else t.model_calls in
    record t {
      model_calls = calls;
      model_busy = if calls == 0 then none else t.model_busy;
      last_activity = now;
    }

-- `time.Since(then).Milliseconds()`
abbrev pub millis_since : ℕ → ℕ → ℕ
millis_since now since = (now - since) / 1000000

abbrev pub age : ℕ → Option ℕ → ℕ
age now none = 0
age now (some since) = millis_since now since

unfoldable pub snapshot : ℕ → Tracker → Status
snapshot now t = record {
  invocations_in_flight = t.invocations;
  tool_calls_in_flight = t.tool_calls;
  tool_calls_started = t.tool_calls_total;
  model_calls_in_flight = t.model_calls;
  model_calls_started = t.model_calls_total;
  tool_blocked_millis = age now t.tool_busy_since;
  model_blocked_millis = age now t.model_busy;
  idle_millis =
      if (t.invocations == 0) && (t.tool_calls + t.model_calls == 0)
      then millis_since now t.last_activity
      else 0;
}

-- The plugin's callbacks.
pub data Callback : Type 0 where
  run_begins run_ends tool_begins tool_ends model_begins model_ends : Callback

unfoldable pub track : ℕ → Callback → Tracker → Tracker
track now run_begins t = before_run now t
track now run_ends t = after_run now t
track now tool_begins t = before_tool now t
track now tool_ends t = after_tool now t
track now model_begins t = before_model now t
track now model_ends t = after_model now t

-- Callbacks with their times.
unfoldable pub track_all : List (ℕ × Callback) → Tracker → Tracker
unfolding track
track_all [] t = t
track_all ((now, c) ∷ cs) t = track_all cs (track now c t)
