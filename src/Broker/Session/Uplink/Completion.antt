-- ===== src/Broker/Session/Uplink/Completion.antt =====
-- internal/broker/session.go, agent to destination: when the destination has all of the agent's bytes.
use substrate_poc.Prelude.{
  ℕ, ◌+◌, ◌≤◌, ◌≡◌, ◌∙◌, true, false, not, none, some, ◌++◌, arith, length, take-all, Bytes,
  IsSlice, if-intro, option-intro,
}
use substrate_poc.Broker.Session.State.{Upstream, World, wrote}
use substrate_poc.Broker.Session.State.Sending.{send_to_sidecar-upstream}
use substrate_poc.Broker.Session.Uplink.{
  on_data, on_data_write, on_data_written, fresh_part, write_upstream,
}
use substrate_poc.Broker.Session.Uplink.ExactlyOnce.{Uplinked, fresh_part-IsSlice, longer}

-- The destination has the whole of the agent's stream `u`.
abbrev pub HasAll : Bytes → World → Type 0
HasAll u w = (up : Upstream) × (w.session.upstream ≡ some up) × (up.written ≡ u)

written_after :
    (now : ℕ) (w : World) (u p : Bytes)
    → w.session.connected ≡ true
    → Uplinked w.session u
    → IsSlice u w.session.upstream_written p
    → w.session.upstream_written + length p ≡ length u
    → HasAll u (on_data_written now p (write_upstream wrote p w))
unfolding on_data_written
written_after now w u p on h slice whole =
    let (up, have, le, front) = h.after on in
    (
      record up { written = up.written ++ p },
      send_to_sidecar-upstream _ _ ∙ rw have,
      longer u up.written p w.session.upstream_written le front slice
          ∙ take-all _ u (omega (arith, whole)),
    )

pub fresh_part-none :
    (offset : ℕ) (payload : Bytes) (written : ℕ)
    → offset ≤ written
    → fresh_part offset payload written ≡ none
    → offset + length payload ≤ written
unfolding fresh_part
fresh_part-none offset payload written le e = ground arith

pub HasAll-old :
    (w : World) (u : Bytes)
    → w.session.connected ≡ true
    → Uplinked w.session u
    → length u ≤ w.session.upstream_written
    → HasAll u w
HasAll-old w u on h all =
    let (up, have, le, front) = h.after on in (up, have, front ∙ take-all _ u all)

-- Once the dial is done, DATA that starts at or before what is written and reaches the end of the
-- agent's stream brings a live session's destination the whole stream, if the write to it goes well.
pub on_data_completes :
    (now offset : ℕ) (payload : Bytes) (w : World) (u : Bytes)
    → w.session.dead ≡ false
    → w.session.connected ≡ true
    → Uplinked w.session u
    → IsSlice u offset payload
    → offset ≤ w.session.upstream_written
    → offset + length payload ≡ length u
    → HasAll u (on_data now wrote offset payload w)
unfolding on_data
on_data_completes now offset payload w u alive on h slice le whole =
    if-intro (λ r. HasAll u (on_data_write now wrote r)) w.session.dead (λ dead. cc)
      (λ _.
        if-intro (λ r. HasAll u (on_data_write now wrote r)) (not w.session.connected)
          (λ off. absurd (ground arith))
          (λ _.
            option-intro (λ o. HasAll u (on_data_write now wrote (w, o)))
              (fresh_part offset payload w.session.upstream_written)
              (λ old.
                HasAll-old w u on h
                  (omega (arith, fresh_part-none offset payload w.session.upstream_written le old)))
              (λ p new.
                let (there, sum) =
                  fresh_part-IsSlice u offset w.session.upstream_written payload p slice new in
                written_after now w u p on h there (omega (arith, sum)))))
