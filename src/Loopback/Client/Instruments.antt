-- ===== src/Loopback/Client/Instruments.antt =====
-- demos/loopback-survival/client/main.go: the clock monitor and the external probe.
use substrate_poc.Prelude.{
  ℕ, ◌+◌, ◌-◌, ◌%◌, Bool, ◌||◌, Option, none, some, List, [], ◌∷◌, ◌++◌, ltb, if◌then◌else◌, length,
  Bytes, u64_mod,
}

abbrev pub max_events : ℕ
max_events = 200

-- A reading of `time.Now()`: the wall clock and the monotonic clock, in nanoseconds.
pub record Reading : Type 0 where
  pub wall : ℕ
  pub mono : ℕ

-- `WallGap` and `MonoGap` are the differences of the two readings.
pub record ClockGap : Type 0 where
  pub before : Reading
  pub detected_at : Reading

-- `wallGap-monoGap > gapMin || monoGap > gapMin+sampleInt`, with the differences, which may be negative, moved
-- to the other side.
abbrev pub is_gap : ℕ → ℕ → Reading → Reading → Bool
is_gap gap_min sample_int prev now =
    ltb (gap_min + now.mono + prev.wall) (now.wall + prev.mono)
    || ltb (gap_min + sample_int + prev.mono) now.mono

abbrev pub add_bounded {ℓ} : {A : Type ℓ} → A → List A → List A
add_bounded x xs = if ltb (length xs) max_events then xs ++ x ∷ [] else xs

-- One tick of `monitorClocks`: the last reading and the gaps so far.
pub record Monitor : Type 0 where
  pub prev : Reading
  pub gaps : List ClockGap

unfoldable pub clock_tick : ℕ → ℕ → Reading → Monitor → Monitor
clock_tick gap_min sample_int now m = record {
  prev = now;
  gaps =
      if is_gap gap_min sample_int m.prev now
      then add_bounded (record { before = m.prev; detected_at = now }) m.gaps
      else m.gaps;
}

pub data EventKind : Type 0 where
  connected write_error read_error corrupt_echo : EventKind

pub record ExtEvent : Type 0 where
  pub at : ℕ
  pub kind : EventKind
  pub probe : ℕ
  pub error : Bytes
  pub since_last_ok : ℕ

-- The probe's counts, its local count `probe`, and the time of the last echo.
pub record Probe : Type 0 where
  pub probes_sent : ℕ
  pub echoes_ok : ℕ
  pub reconnects : ℕ
  pub events : List ExtEvent
  pub last_ok : Option ℕ
  pub probe : ℕ

unfoldable pub record_ext_event : ExtEvent → Probe → Probe
record_ext_event ev p = record p { events = add_bounded ev p.events }

abbrev pub since : ℕ → Option ℕ → ℕ
since now none = 0
since now (some last) = now - last

unfoldable pub record_ext_failure : ℕ → EventKind → Bytes → Probe → Probe
unfolding record_ext_event
record_ext_failure now kind text p =
    record_ext_event
      (record {
        at = now;
        kind = kind;
        probe = p.probe;
        error = text;
        since_last_ok = since now p.last_ok;
      })
      p

-- How a probe went: the echo is what was sent, or it is not, or there is an error with its text.
pub data Probed : Type 0 where
  echoed : Probed
  echo_differs write_fails read_fails : Bytes → Probed

-- A dial that succeeded.
unfoldable pub probe_connected : ℕ → Probe → Probe
unfolding record_ext_event
probe_connected now p =
    record_ext_event
      (record { at = now; kind = connected; probe = 0; error = []; since_last_ok = 0 }) p

abbrev pub sent_probe : Probe → Probe
sent_probe p = record p {
  probe = (p.probe + 1) % u64_mod;
  probes_sent = (p.probes_sent + 1) % u64_mod;
}

-- Behind a failure the connection is closed.
abbrev pub reconnects_now : Probe → Probe
reconnects_now p = record p { reconnects = p.reconnects + 1 }

-- One round of the inner loop, with what follows it if it ends.
unfoldable pub probe_round : ℕ → Probed → Probe → Probe
unfolding record_ext_failure
probe_round now echoed p =
    let p₁ = sent_probe p in
    record p₁ { echoes_ok = (p₁.echoes_ok + 1) % u64_mod; last_ok = some now }
probe_round now (write_fails text) p =
    reconnects_now (record_ext_failure now write_error text (sent_probe p))
probe_round now (read_fails text) p =
    reconnects_now (record_ext_failure now read_error text (sent_probe p))
probe_round now (echo_differs text) p =
    reconnects_now (record_ext_failure now corrupt_echo text (sent_probe p))
