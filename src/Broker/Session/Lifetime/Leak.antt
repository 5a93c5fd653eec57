-- ===== src/Broker/Session/Lifetime/Leak.antt =====
-- internal/broker/session.go, `onDownstreamAck`: the end that a session does not come to.
use substrate_poc.Prelude.{
  ◌≡◌, refl, ap, ◌∙◌, true, false, not, ◌&&◌, List, [], ◌∷◌, arith, ◌==◌, length, All, Bytes,
  if-intro,
}
use substrate_poc.Tunnel.Frame.{Frame}
use substrate_poc.Tunnel.Buffer.Stream.{Holds}
use substrate_poc.Broker.Session.State.{
  Session, World, wake, bind, send_to_sidecar, destroy, maybe_destroy, is_bound, watchdog_fires,
}
use substrate_poc.Broker.Session.State.Sending.{
  SameButTconn, detach-session, send_to_sidecar-session,
}
use substrate_poc.Broker.Session.Downlink.{
  on_downstream_ack, attach_answer, send_all, on_sidecar_attach,
}
use substrate_poc.Broker.Session.{
  Act, act, run, binds, detaches, dials, data_comes, acks, attaches, closes, reads, fires,
}
use substrate_poc.Broker.Session.Quiescence.{ack-empties}

-- What the tunnel does, and the timer: no bytes and no close of either side.
abbrev pub IsTunnelAct : Act → Type 0
IsTunnelAct (binds tc) = Unit {0}
IsTunnelAct (detaches tc) = Unit {0}
IsTunnelAct (acks offset) = Unit {0}
IsTunnelAct (attaches delivered) = Unit {0}
IsTunnelAct fires = Unit {0}
IsTunnelAct a = ⊥

send_all-session : (fs : List Frame) (w : World) → SameButTconn w.session (send_all fs w).session
unfolding send_all
send_all-session [] w = (w.session.tconn, refl)
send_all-session (f ∷ fs) w =
    let (t, e) = send_to_sidecar-session f w in
    let (t', e') = send_all-session fs (send_to_sidecar f w) in
    (t', e' ∙ ap {A = Session} (λ s. record s { tconn = t' }) e)

act-dead : (a : Act) (w : World) → IsTunnelAct a → (act a w).session.dead ≡ w.session.dead
unfolding act bind on_downstream_ack on_sidecar_attach watchdog_fires wake
act-dead (binds tc) w p = refl
act-dead (detaches tc) w p = let (t, e) = detach-session tc w in ap (λ s. s.dead) e
act-dead (dials dialed now) w p = elim p [ ]
act-dead (data_comes now outcome offset payload) w p = elim p [ ]
act-dead (acks offset) w p = refl
act-dead (attaches delivered) w p =
    let (t, e) = send_all-session (attach_answer delivered w.session) w in ap (λ s. s.dead) e
act-dead (closes dir) w p = elim p [ ]
act-dead (reads q cause) w p = elim p [ ]
act-dead fires w p =
    if-intro {A = World} (λ x. x.session.dead ≡ w.session.dead)
      (not w.session.dead && (w.session.request_outstanding && not (is_bound w.session.tconn)))
      (λ _. refl) (λ _. refl)

run-dead :
    (acts : List Act) (w : World)
    → All IsTunnelAct acts
    → (run acts w).session.dead ≡ w.session.dead
unfolding run
run-dead [] w p = refl
run-dead (a ∷ acts) w p = run-dead acts (act a w) p.1 ∙ act-dead a w p.0

destroy-dead : (w : World) → (destroy w).session.dead ≡ true
unfolding destroy
destroy-dead w =
    if-intro {A = World} (λ x. x.session.dead ≡ true) w.session.dead (λ dead. dead) (λ _. refl)

maybe_destroy-dead :
    (w : World)
    → w.session.up_closed ≡ true
    → w.session.down_closed ≡ true
    → length w.session.down_buf.buf ≡ 0
    → (maybe_destroy w).session.dead ≡ true
unfolding maybe_destroy
maybe_destroy-dead w up down empty =
    if-intro {A = World} (λ x. x.session.dead ≡ true)
      (w.session.up_closed && w.session.down_closed && (length w.session.down_buf.buf == 0))
      (λ _. destroy-dead w) (λ no. absurd (ground arith))

-- A live session, both sides of which are closed, is left with bytes that the sidecar has not acked. When
-- the last of them is acked the session meets the condition of `maybeDestroy`, which would end it. But
-- no ack looks at that condition, nor does anything else that the tunnel or the timer does after it: in
-- any order and number of these the session stays alive.
pub on_downstream_ack-leaks :
    (acts : List Act) (d : Bytes) (w : World)
    → All IsTunnelAct acts
    → Holds w.session.down_buf d
    → w.session.up_closed ≡ true
    → w.session.down_closed ≡ true
    → w.session.dead ≡ false
    → ((maybe_destroy (on_downstream_ack (length d) w)).session.dead ≡ true)
      × ((run acts (on_downstream_ack (length d) w)).session.dead ≡ false)
unfolding on_downstream_ack
on_downstream_ack-leaks acts d w p h up down alive = (
  maybe_destroy-dead (on_downstream_ack (length d) w) up down (ack-empties d w h),
  run-dead acts (on_downstream_ack (length d) w) p ∙ alive,
)
