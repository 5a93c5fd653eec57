-- ===== src/Loopback/Client/Report.antt =====
-- demos/loopback-survival/client/main.go, `buildReport`: the verdict. The texts of the details are not modelled.
use substrate_poc.Prelude.{
  ℕ, ◌+◌, Bool, true, false, not, Option, none, some, List, [], ◌∷◌, ◌++◌, ltb, ◌==◌, if◌then◌else◌,
}
use substrate_poc.Loopback.Client.{Stream}

pub data Verdict : Type 0 where
  fails passes no_suspend_observed : Verdict

pub data Detail : Type 0 where
  never_established broke_later : Detail
  client_violations : ℕ → Detail
  server_violations : ℕ → ℕ → Detail
  nothing_detected : Detail
  intact_across : ℕ → Detail

pub record VerdictReport : Type 0 where
  pub verdict : Option Verdict
  pub details : List Detail

abbrev pub add_failure : Detail → VerdictReport → VerdictReport
add_failure d rep = record { verdict = some fails; details = rep.details ++ d ∷ [] }

abbrev pub is_established : Option ℕ → Bool
is_established none = false
is_established (some at) = true

abbrev pub check_connection : Stream → VerdictReport → VerdictReport
check_connection st rep =
    if not (is_established st.established)
    then add_failure never_established rep
    else if st.loopback_broken
    then add_failure broke_later rep
    else rep

abbrev pub violations : Stream → ℕ
violations st = st.order_violations + st.crc_mismatches + st.bytes_mismatches

abbrev pub check_client : Stream → VerdictReport → VerdictReport
check_client st rep =
    if ltb 0 (violations st) then add_failure (client_violations (violations st)) rep else rep

-- The server's counts are 0 if its answer could not be had.
abbrev pub check_server : ℕ → ℕ → VerdictReport → VerdictReport
check_server seq crc rep =
    if ltb 0 (seq + crc) then add_failure (server_violations seq crc) rep else rep

abbrev pub conclude : ℕ → VerdictReport → VerdictReport
conclude restores rep = elim rep.verdict [
  | some v ↦ rep
  | none ↦
      if restores == 0
      then record {
        verdict = some no_suspend_observed;
        details = rep.details ++ nothing_detected ∷ [];
      }
      else record { verdict = some passes; details = rep.details ++ intact_across restores ∷ [] }
]

-- `restores` is the number of clock gaps.
unfoldable pub build_report : Stream → ℕ → ℕ → ℕ → VerdictReport
build_report st restores srv_seq srv_crc = conclude restores (
    check_server srv_seq srv_crc
      (check_client st (check_connection st (record { verdict = none; details = [] }))))
