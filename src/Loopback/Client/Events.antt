-- ===== src/Loopback/Client/Events.antt =====
-- demos/loopback-survival/client/main.go: which clock gaps and which probe events are kept.
use substrate_poc.Prelude.{
  ℕ, ◌+◌, ◌%◌, ◌≤◌, ◌≡◌, refl, sym, ap, subst, ◌∙◌, inl, inr, List, [], ◌∷◌, ◌++◌, append-nil,
  append_assoc, arith, ltb, if◌then◌else◌, ltb→lt, Bool-cases, length, take, length-append,
  take-all, take-append, Bytes, u64_mod, if-intro,
}
use substrate_poc.Loopback.Client.Instruments.{
  max_events, Reading, ClockGap, is_gap, add_bounded, Monitor, clock_tick, EventKind, Probe,
  record_ext_event, record_ext_failure, Probed, probe_connected, sent_probe, reconnects_now,
  probe_round, write_error, read_error, corrupt_echo, echoed, echo_differs, write_fails, read_fails,
}

-- The ticks of the clock monitor, one after the other.
unfoldable pub clock_run : ℕ → ℕ → List Reading → Monitor → Monitor
clock_run gap_min sample_int [] m = m
clock_run gap_min sample_int (now ∷ rest) m =
    clock_run gap_min sample_int rest (clock_tick gap_min sample_int now m)

-- Every gap between one reading and the next.
abbrev pub all_gaps : ℕ → ℕ → Reading → List Reading → List ClockGap
all_gaps gap_min sample_int prev [] = []
all_gaps gap_min sample_int prev (now ∷ rest) =
    let later = all_gaps gap_min sample_int now rest in
    if is_gap gap_min sample_int prev now
    then record { before = prev; detected_at = now } ∷ later
    else later

module _ {ℓ} {A : Type ℓ} where
  take-add_bounded :
      (x : A) (xs more : List A)
      → length xs ≤ max_events
      → take max_events (add_bounded x xs ++ more) ≡ take max_events (xs ++ x ∷ more)
  take-add_bounded x xs more h =
      if-intro {A = List A} (λ ys. take max_events (ys ++ more) ≡ take max_events (xs ++ x ∷ more))
        (ltb (length xs) max_events) (λ _. ap (take max_events) (append_assoc xs (x ∷ []) more))
        (λ full.
          let enough : max_events ≤ length xs = ground (arith, full) in
          take-append max_events xs more enough ∙ sym (take-append max_events xs (x ∷ more) enough))

  add_bounded-capped :
      (x : A) (xs : List A) → length xs ≤ max_events → length (add_bounded x xs) ≤ max_events
  add_bounded-capped x xs h =
      if-intro {A = List A} (λ ys. length ys ≤ max_events) (ltb (length xs) max_events)
        (λ room. omega (arith, length-append xs (x ∷ []), ltb→lt (length xs) max_events room))
        (λ _. h)

-- The clock monitor keeps the first 200 of all the gaps between two readings in a row, and no others, over
-- any run of ticks.
pub clock_run-all_gaps :
    (gap_min sample_int : ℕ) (readings : List Reading) (m : Monitor)
    → length m.gaps ≤ max_events
    → (clock_run gap_min sample_int readings m).gaps
      ≡ take max_events (m.gaps ++ all_gaps gap_min sample_int m.prev readings)
unfolding clock_run clock_tick
clock_run-all_gaps gap_min sample_int [] m h =
    sym (take-all max_events m.gaps h) ∙ ap (take max_events) (sym (append-nil m.gaps))
clock_run-all_gaps gap_min sample_int (now ∷ rest) m h =
    let m' = clock_tick gap_min sample_int now m in
    let gap : ClockGap = record { before = m.prev; detected_at = now } in
    let later = all_gaps gap_min sample_int now rest in
    elim (Bool-cases (is_gap gap_min sample_int m.prev now)) [
      | inl jumped ↦
          let gaps : m'.gaps ≡ add_bounded gap m.gaps = rw jumped refl in
          clock_run-all_gaps gap_min sample_int rest m' (
            subst (λ (gs : List ClockGap). length gs ≤ max_events) (sym gaps)
              (add_bounded-capped gap m.gaps h))
          ∙ ap (λ gs. take max_events (gs ++ later)) gaps
          ∙ take-add_bounded gap m.gaps later h
          ∙ ap (λ b. take max_events (m.gaps ++ (if b then gap ∷ later else later))) (sym jumped)
      | inr steady ↦
          let gaps : m'.gaps ≡ m.gaps = rw steady refl in
          clock_run-all_gaps gap_min sample_int rest m'
            (subst (λ (gs : List ClockGap). length gs ≤ max_events) (sym gaps) h)
          ∙ ap (λ gs. take max_events (gs ++ later)) gaps
          ∙ ap (λ b. take max_events (m.gaps ++ (if b then gap ∷ later else later))) (sym steady)
    ]

-- The probe's rounds, each with a dial before it if the last one failed.
pub data ProbeAct : Type 0 where
  dials : ℕ → ProbeAct
  probes : ℕ → Probed → ProbeAct

abbrev pub probe_act : ProbeAct → Probe → Probe
probe_act (dials now) p = probe_connected now p
probe_act (probes now outcome) p = probe_round now outcome p

unfoldable pub probe_run : List ProbeAct → Probe → Probe
probe_run [] p = p
probe_run (a ∷ acts) p = probe_run acts (probe_act a p)

-- Each probe that was sent came back right or ended its connection, and no more events are kept than the
-- bound.
pub record IsAccounted (p : Probe) : Type 0 where
  pub kept : length p.events ≤ max_events
  pub ended : (p.echoes_ok + p.reconnects) % u64_mod ≡ p.probes_sent
  pub numbered : p.probe ≡ p.probes_sent

IsAccounted-failed :
    (now : ℕ) (kind : EventKind) (text : Bytes) (p : Probe)
    → IsAccounted p
    → IsAccounted (reconnects_now (record_ext_failure now kind text (sent_probe p)))
unfolding record_ext_failure record_ext_event
IsAccounted-failed now kind text p h = record {
  kept = add_bounded-capped _ p.events h.kept;
  ended = omega (arith, h.ended);
  numbered = omega (arith, h.numbered);
}

IsAccounted-probe_round :
    (now : ℕ) (outcome : Probed) (p : Probe)
    → IsAccounted p
    → IsAccounted (probe_round now outcome p)
unfolding probe_round
IsAccounted-probe_round now echoed p h = record {
  kept = h.kept;
  ended = omega (arith, h.ended);
  numbered = omega (arith, h.numbered);
}
IsAccounted-probe_round now (echo_differs text) p h = IsAccounted-failed now corrupt_echo text p h
IsAccounted-probe_round now (write_fails text) p h = IsAccounted-failed now write_error text p h
IsAccounted-probe_round now (read_fails text) p h = IsAccounted-failed now read_error text p h

-- Over any run of dials and probes, every probe that was sent is counted as an echo that came back right or
-- as a reconnect, modulo 2^64, the probe's number is the count of probes, and no more than 200 events are
-- kept.
pub probe_run-IsAccounted :
    (acts : List ProbeAct) (p : Probe) → IsAccounted p → IsAccounted (probe_run acts p)
unfolding probe_run probe_connected record_ext_event
probe_run-IsAccounted [] p h = h
probe_run-IsAccounted (dials now ∷ acts) p h =
    probe_run-IsAccounted acts (probe_connected now p) (record {
      kept = add_bounded-capped _ p.events h.kept;
      ended = h.ended;
      numbered = h.numbered;
    })
probe_run-IsAccounted (probes now outcome ∷ acts) p h =
    probe_run-IsAccounted acts (probe_round now outcome p) (IsAccounted-probe_round now outcome p h)
