-- ===== src/Activity/Tracking.antt =====
-- internal/activityz/activityz.go: what the reported numbers mean, over any run of callbacks.
use substrate_poc.Prelude.{
  ℕ, suc, ◌+◌, ◌-◌, ◌%◌, ◌≡◌, ◌∙◌, Bool, true, false, Option, none, some, List, [], ◌∷◌, arith, ltb,
  ◌==◌, if◌then◌else◌, u64_mod, IsU64,
}
use substrate_poc.Activity.{
  Tracker, before_run, after_run, before_tool, after_tool, before_model, after_model, snapshot,
  Callback, track, track_all, run_begins, run_ends, tool_begins, tool_ends, model_begins,
  model_ends,
}

abbrev is_busy : Option ℕ → Bool
is_busy none = false
is_busy (some t) = true

-- A time stands with each kind of call exactly while such a call runs.
pub record IsTimed (t : Tracker) : Type 0 where
  pub tools : is_busy t.tool_busy_since ≡ ltb 0 t.tool_calls
  pub models : is_busy t.model_busy ≡ ltb 0 t.model_calls

begun :
    (n now : ℕ) (since : Option ℕ)
    → is_busy since ≡ ltb 0 n
    → is_busy (if n == 0 then some now else since) ≡ ltb 0 (n + 1)
begun n now since h = ground arith

ended :
    (n : ℕ) (since : Option ℕ)
    → is_busy since ≡ ltb 0 n
    → (let m = if ltb 0 n then n - 1 else n in is_busy (if m == 0 then none else since) ≡ ltb 0 m)
ended n since h = ground arith

IsTimed-track : (now : ℕ) (c : Callback) (t : Tracker) → IsTimed t → IsTimed (track now c t)
unfolding track before_run after_run before_tool after_tool before_model after_model
IsTimed-track now run_begins t h = record { tools = h.tools; models = h.models }
IsTimed-track now run_ends t h = record { tools = h.tools; models = h.models }
IsTimed-track now tool_begins t h = record {
  tools = begun t.tool_calls now t.tool_busy_since h.tools;
  models = h.models;
}
IsTimed-track now tool_ends t h = record {
  tools = ended t.tool_calls t.tool_busy_since h.tools;
  models = h.models;
}
IsTimed-track now model_begins t h = record {
  tools = h.tools;
  models = begun t.model_calls now t.model_busy h.models;
}
IsTimed-track now model_ends t h = record {
  tools = h.tools;
  models = ended t.model_calls t.model_busy h.models;
}

-- Over any run of callbacks, also of more ends than begins, the tracker has a time for tool calls exactly
-- while one is in flight, and for model calls likewise, if it was so at the start.
pub track_all-IsTimed :
    (cs : List (ℕ × Callback)) (t : Tracker) → IsTimed t → IsTimed (track_all cs t)
unfolding track_all
track_all-IsTimed [] t h = h
track_all-IsTimed ((now, c) ∷ cs) t h =
    track_all-IsTimed cs (track now c t) (IsTimed-track now c t h)

-- How many tool calls began.
abbrev starts : List (ℕ × Callback) → ℕ
starts [] = 0
starts ((now, c) ∷ cs) =
    let rest = starts cs in
    elim c [
      | run_begins ↦ rest
      | run_ends ↦ rest
      | tool_begins ↦ suc rest
      | tool_ends ↦ rest
      | model_begins ↦ rest
      | model_ends ↦ rest
    ]

-- The count of started tool calls that is reported is the number of tool calls that began, modulo 2^64,
-- whatever else happens in between and whether or not the calls have ended.
pub track_all-starts :
    (now : ℕ) (cs : List (ℕ × Callback)) (t : Tracker)
    → IsU64 t.tool_calls_total
    → (snapshot now (track_all cs t)).tool_calls_started
      ≡ (t.tool_calls_total + starts cs) % u64_mod
unfolding snapshot track_all track before_run after_run before_tool after_tool before_model
    after_model
track_all-starts now [] t h = omega (arith, h)
track_all-starts now ((_, run_begins) ∷ cs) t h = track_all-starts now cs _ h
track_all-starts now ((_, run_ends) ∷ cs) t h = track_all-starts now cs _ h
track_all-starts now ((_, tool_begins) ∷ cs) t h =
    track_all-starts now cs _ (omega arith) ∙ omega arith
track_all-starts now ((_, tool_ends) ∷ cs) t h = track_all-starts now cs _ h
track_all-starts now ((_, model_begins) ∷ cs) t h = track_all-starts now cs _ h
track_all-starts now ((_, model_ends) ∷ cs) t h = track_all-starts now cs _ h
