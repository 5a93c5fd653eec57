-- ===== src/Examples/Polls.antt =====
-- The agent's activity, and the suspend poller.
use substrate_poc.Prelude.{ℕ, ◌≡◌, refl, false, none, some, List, [], ◌∷◌, arith, length, All}
use substrate_poc.Activity.{
  Status, Tracker, before_run, before_tool, after_tool, before_model, Callback, track_all,
  run_begins, tool_begins, tool_ends, model_begins,
}
use substrate_poc.Activity.Tracking.{IsTimed, track_all-IsTimed}
use substrate_poc.Sidecar.Ingress.{new_ingress, idle_duration, Request, ingress_run, enters, exits}
use substrate_poc.Sidecar.Ingress.Idle.{tick-ingress_run}
use substrate_poc.Sidecar.Suspender.{
  decide_blocked, Poller, Tick, Attempt, attempt, tick, run_ticks, tool_blocked,
}
use substrate_poc.Sidecar.Suspender.Gate.{tool_gens, model_gens, Rising, run_ticks-Rising}
use substrate_poc.Sidecar.Suspender.Grace.{NotIdle, run_ticks-grace}

abbrev fresh : Tracker
fresh = record {
  invocations = 0;
  tool_calls = 0;
  tool_calls_total = 0;
  model_calls = 0;
  model_calls_total = 0;
  tool_busy_since = none;
  model_busy = none;
  last_activity = 1;
}

abbrev calls : List (ℕ × Callback)
calls =
    (2, run_begins) ∷ (3, tool_begins) ∷ (4, tool_begins) ∷ (5, tool_ends) ∷ (6, model_begins) ∷ []

track_all-IsTimed_example : IsTimed (track_all calls fresh)
track_all-IsTimed_example = track_all-IsTimed calls fresh (record { tools = refl; models = refl })

-- Two calls overlap and the older one ends: the age of the call in flight is counted from the older one's
-- start.
overlap_run : (track_all calls fresh).tool_busy_since ≡ some 3
unfolding track_all before_run before_tool after_tool before_model
overlap_run = refl

abbrev blocked_status : Status
blocked_status = record {
  invocations_in_flight = 1;
  tool_calls_in_flight = 1;
  tool_calls_started = 4;
  model_calls_in_flight = 0;
  model_calls_started = 2;
  tool_blocked_millis = 1500;
  model_blocked_millis = 0;
  idle_millis = 0;
}

abbrev poller : Poller
poller = record {
  suspender = record {
    poll = 500000000;
    blocked = 1000000000;
    include_model = false;
    idle = 5000000000;
    cooldown = 2000000000;
    resume_gap = 2000000000;
    last_tool_gen = 3;
    last_model_gen = 0;
  };
  last_suspend = none;
  prev_tick = 1000000000;
  idle_grace_until = none;
}

abbrev blocked_at : ℕ → Tick
blocked_at now = record {
  now = now;
  status = some blocked_status;
  ingress_idle = none;
  checked = now;
  fired = now;
}

abbrev idle_at : ℕ → Tick
idle_at now = record {
  now = now;
  status = none;
  ingress_idle = some 6000000000;
  checked = now;
  fired = now;
}

abbrev ticks : List Tick
ticks = blocked_at 1500000000 ∷ blocked_at 6000000000 ∷ []

run_ticks-Rising_example :
    Rising 3 (tool_gens (run_ticks ticks poller)) × Rising 0 (model_gens (run_ticks ticks poller))
run_ticks-Rising_example = run_ticks-Rising ticks poller

run_ticks-grace_example :
    All NotIdle (run_ticks (idle_at 9000000000 ∷ idle_at 10000000000 ∷ []) poller)
run_ticks-grace_example =
    run_ticks-grace (idle_at 9000000000) (idle_at 10000000000 ∷ []) poller (omega arith)
      ((omega arith, omega arith), tt)

-- The call is suspended for once, also when the cooldown is long over.
once_run : length (run_ticks ticks poller) ≡ 1
unfolding run_ticks tick attempt decide_blocked
once_run = refl

-- Outside a grace, idleness suspends.
idle_run : length (run_ticks (idle_at 1500000000 ∷ []) poller) ≡ 1
unfolding run_ticks tick attempt
idle_run = refl

abbrev requests : List Request
requests = enters ∷ enters ∷ exits 5 ∷ []

abbrev busy_tick : Tick
busy_tick = record (blocked_at 1500000000) { ingress_idle = some 0 }

busy_reads : busy_tick.ingress_idle ≡ some (idle_duration 9 (ingress_run requests (new_ingress 1)))
unfolding idle_duration ingress_run new_ingress
busy_reads = refl

abbrev tool_attempt : Attempt
tool_attempt = record {
  reason = tool_blocked;
  status = some blocked_status;
  checked = 1500000000;
  fired = 1500000000;
}

busy_attempt : (tick busy_tick poller).1 ≡ some tool_attempt
unfolding tick attempt decide_blocked
busy_attempt = refl

tick-ingress_run_example : NotIdle tool_attempt
tick-ingress_run_example =
    tick-ingress_run requests 1 9 0 busy_tick poller tool_attempt refl busy_reads busy_attempt
