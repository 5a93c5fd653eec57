-- ===== src/Loopback/Loop/Sound.antt =====
-- demos/loopback-survival: the experiment's verdict, on a connection that loses nothing.
use substrate_poc.Prelude.{
  ℕ, zero, suc, ◌+◌, ◌≡◌, refl, ap, ◌∙◌, inl, inr, Bool, true, false, not, ◌&&◌, Option, none, some,
  [], arith, ltb, ◌==◌, if◌then◌else◌, Bool-cases, if-intro, option-intro,
}
use substrate_poc.Loopback.Client.{Stream}
use substrate_poc.Loopback.Client.Report.{
  Verdict, Detail, VerdictReport, add_failure, is_established, check_connection, violations,
  check_client, check_server, conclude, build_report, fails, passes, no_suspend_observed,
  broke_later, client_violations, server_violations,
}
use substrate_poc.Loopback.Loop.{Loop}

-- Everything that the report looks at is in order: there was a connection, it did not break, and none of the
-- five counts of violations is above 0.
abbrev pub is_sound : Stream → ℕ → ℕ → Bool
is_sound st srv_seq srv_crc = elim st.established [
  | none ↦ false
  | some at ↦
      not st.loopback_broken
      && (st.order_violations == 0)
      && (st.crc_mismatches == 0)
      && (st.bytes_mismatches == 0)
      && (srv_seq == 0)
      && (srv_crc == 0)
]

-- The verdict of a report, from what was counted.
abbrev pub judge : Bool → ℕ → Verdict
judge false restores = fails
judge true zero = no_suspend_observed
judge true (suc n) = passes

verdict-if :
    (bad : Bool) (d : Detail) (rep : VerdictReport)
    → (if bad then add_failure d rep else rep).verdict ≡ (if bad then some fails else rep.verdict)
verdict-if true d rep = refl
verdict-if false d rep = refl

abbrev concluded : ℕ → Option Verdict → Option Verdict
concluded restores (some v) = some v
concluded zero none = some no_suspend_observed
concluded (suc n) none = some passes

verdict-conclude :
    (restores : ℕ) (v : Option Verdict) (rep : VerdictReport)
    → rep.verdict ≡ v
    → (conclude restores rep).verdict ≡ concluded restores v
verdict-conclude restores (some v) rep e = rw e refl
verdict-conclude zero none rep e = rw e refl
verdict-conclude (suc n) none rep e = rw e (
    if-intro {A = VerdictReport} (λ x. x.verdict ≡ some passes) (suc n == 0)
      (λ bad. absurd (ground arith)) (λ _. refl))

-- The verdict behind the checks, as each of them leaves it.
verdict-check_connection :
    (st : Stream) (rep : VerdictReport)
    → (check_connection st rep).verdict ≡ (
        if not (is_established st.established)
        then some fails
        else if st.loopback_broken
        then some fails
        else rep.verdict)
verdict-check_connection st rep = elim (Bool-cases (is_established st.established)) [
  | inl on ↦ rw on (verdict-if st.loopback_broken broke_later rep)
  | inr off ↦ rw off refl
]

concluded-ifs :
    (restores : ℕ) (on broken : Bool) (client server : ℕ)
    → concluded restores (
        if ltb 0 server
        then some fails
        else if ltb 0 client
        then some fails
        else if not on
        then some fails
        else if broken
        then some fails
        else none)
      ≡ some (judge (on && not broken && (client == 0) && (server == 0)) restores)
concluded-ifs zero on broken client server = ground arith
concluded-ifs (suc n) on broken client server = ground arith

-- The code's test is that of the table.
is_sound_lem :
    (st : Stream) (srv_seq srv_crc : ℕ)
    → (is_established st.established
        && not st.loopback_broken
        && (violations st == 0)
        && (srv_seq + srv_crc == 0))
      ≡ is_sound st srv_seq srv_crc
is_sound_lem st srv_seq srv_crc =
    option-intro {A = ℕ}
      (λ o.
        (is_established o
          && not st.loopback_broken
          && (violations st == 0)
          && (srv_seq + srv_crc == 0))
        ≡ (elim o [
          | none ↦ false
          | some at ↦
              not st.loopback_broken
              && (st.order_violations == 0)
              && (st.crc_mismatches == 0)
              && (st.bytes_mismatches == 0)
              && (srv_seq == 0)
              && (srv_crc == 0)
        ]))
      st.established (λ _. refl) (λ at _. ground arith)

-- The report's verdict is `fails` if the connection was never established, or broke, or any violation was
-- counted at either end; else it says whether a suspension was seen.
pub build_report-judge :
    (st : Stream) (restores srv_seq srv_crc : ℕ)
    → (build_report st restores srv_seq srv_crc).verdict
      ≡ some (judge (is_sound st srv_seq srv_crc) restores)
unfolding build_report
build_report-judge st restores srv_seq srv_crc =
    let rep₁ = check_connection st (record { verdict = none; details = [] }) in
    let rep₂ = check_client st rep₁ in
    verdict-conclude restores _ (check_server srv_seq srv_crc rep₂) (
      verdict-if (ltb 0 (srv_seq + srv_crc)) (server_violations srv_seq srv_crc) rep₂
      ∙ ap (λ v. if ltb 0 (srv_seq + srv_crc) then some fails else v)
          (verdict-if (ltb 0 (violations st)) (client_violations (violations st)) rep₁
            ∙ ap (λ v. if ltb 0 (violations st) then some fails else v)
                (verdict-check_connection st (record { verdict = none; details = [] }))))
    ∙ concluded-ifs restores (is_established st.established) st.loopback_broken (violations st)
        (srv_seq + srv_crc)
    ∙ ap (λ b. some (judge b restores)) (is_sound_lem st srv_seq srv_crc)

-- A connection that failed was given up by the server.
abbrev GivenUp : Loop → Type 0
GivenUp l = l.stream.loopback_broken ≡ true → l.serving.reading ≡ false
