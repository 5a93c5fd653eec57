-- ===== src/Sidecar/Session/Deliver.antt =====
-- internal/sidecar/session.go, `deliverDown`: the agent gets the destination's bytes in order, each once,
-- however the broker replays them.
use substrate_poc.Prelude.{
  ℕ, ◌+◌, ◌%◌, ◌≤◌, ◌<◌, ◌≡◌, refl, sym, ◌∙◌, false, Option, none, arith, length, take, take-all,
  Bytes, u64_mod, IsSlice, if-intro, option-intro,
}
use substrate_poc.Broker.Session.Uplink.{fresh_part}
use substrate_poc.Broker.Session.Uplink.ExactlyOnce.{fresh_part-IsSlice, longer}
use substrate_poc.Broker.Session.Uplink.Completion.{fresh_part-none}
use substrate_poc.Sidecar.Session.{
  ClientSession, Side, send, undelivered_part, deliver_accept, agent_takes, deliver_written,
  deliver_write, deliver_down,
}

-- `d` is the destination's stream. Its first `down_delivered` bytes, and no others, are with the agent.
pub record HasDelivered (s : ClientSession) (d : Bytes) : Type 0 where
  pub small : length d < u64_mod
  pub within : s.down_delivered ≤ length d
  pub front : s.agent.received ≡ take s.down_delivered d

-- Both ends of the tunnel cut what they have off a replayed DATA frame in the same way.
undelivered_part-fresh_part :
    (offset : ℕ) (payload : Bytes) (delivered : ℕ)
    → undelivered_part offset payload delivered ≡ fresh_part offset payload delivered
unfolding undelivered_part fresh_part
undelivered_part-fresh_part offset payload delivered = refl

pub HasDelivered-written :
    (p d : Bytes) (w : Side)
    → HasDelivered w.session d
    → IsSlice d w.session.down_delivered p
    → HasDelivered (deliver_written p (agent_takes p w)).session d
unfolding deliver_written send
HasDelivered-written p d w h slice =
    let sum : (w.session.down_delivered + length p) % u64_mod
        ≡ w.session.down_delivered + length p =
      omega (arith, h.small, slice.0) in
    record {
      small = h.small;
      within = omega (arith, sum, slice.0);
      front =
          rw sum
            (longer d w.session.agent.received p w.session.down_delivered h.within h.front slice);
    }

-- DATA that the broker cut from the destination's stream, at whatever offset and however often, leaves the
-- agent with a front of that stream, in order, no byte missing and none twice, and `downDelivered` counts
-- them. The write to the agent goes well.
pub HasDelivered-deliver_down :
    (offset : ℕ) (payload d : Bytes) (w : Side)
    → HasDelivered w.session d
    → IsSlice d offset payload
    → HasDelivered (deliver_down none offset payload w).session d
unfolding deliver_down deliver_accept
HasDelivered-deliver_down offset payload d w h slice =
    if-intro {A = Option Bytes} (λ o. HasDelivered (deliver_write none o w).session d)
      w.session.dead (λ _. h)
      (λ _.
        option-intro (λ o. HasDelivered (deliver_write none o w).session d)
          (undelivered_part offset payload w.session.down_delivered) (λ _. h)
          (λ p new.
            HasDelivered-written p d w h
              (fresh_part-IsSlice d offset w.session.down_delivered payload p slice (
                sym (undelivered_part-fresh_part offset payload w.session.down_delivered)
                ∙ new)).0))

-- DATA from no later than what was delivered, that reaches the stream's end, brings a live session's agent
-- the whole stream, if the write to it goes well.
pub deliver_down-completes :
    (offset : ℕ) (payload d : Bytes) (w : Side)
    → w.session.dead ≡ false
    → HasDelivered w.session d
    → IsSlice d offset payload
    → offset ≤ w.session.down_delivered
    → offset + length payload ≡ length d
    → (deliver_down none offset payload w).session.agent.received ≡ d
unfolding deliver_down deliver_accept deliver_written send
deliver_down-completes offset payload d w alive h slice le whole =
    let P = λ (o : Option Bytes). (deliver_write none o w).session.agent.received ≡ d in
    if-intro {A = Option Bytes} P w.session.dead (λ dead. absurd cc)
      (λ _.
        option-intro P (undelivered_part offset payload w.session.down_delivered)
          (λ old.
            h.front
            ∙ take-all _ d (
                omega (
                  arith,
                  fresh_part-none offset payload w.session.down_delivered le (
                      sym (undelivered_part-fresh_part offset payload w.session.down_delivered)
                      ∙ old),
                )))
          (λ p new.
            let (there, sum) =
              fresh_part-IsSlice d offset w.session.down_delivered payload p slice
                (sym (undelivered_part-fresh_part offset payload w.session.down_delivered) ∙ new) in
            longer d w.session.agent.received p w.session.down_delivered h.within h.front there
            ∙ take-all _ d (omega (arith, sum))))
