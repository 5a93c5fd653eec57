-- ===== src/Broker/Table/Turns.antt =====
-- internal/broker/broker.go: the table over whatever happens to the broker.
use substrate_poc.Prelude.{
  inl, arith, ℕ, ◌<◌, ◌≡◌, refl, sym, subst, Bool, not, ◌&&◌, none, some, List, [], ◌∷◌, ltb, ◌==◌,
  if◌then◌else◌, ltb→lt, Bytes, bytes_eq, if-intro, option-intro,
}
use substrate_poc.Tunnel.Frame.{
  FrameType, Frame, hello, open_frame, attach, attach_ok, data_frame, ack, close, ping, pong,
  unknown,
}
use substrate_poc.Tunnel.Conn.{Conn}
use substrate_poc.Broker.Session.State.{Config, Outcome, World, detach}
use substrate_poc.Broker.Session.{Act, act, detaches, data_comes, acks, closes}
use substrate_poc.Broker.Session.Downlink.{on_downstream_ack}
use substrate_poc.Broker.Session.Uplink.{on_data, on_sidecar_close}
use substrate_poc.Broker.Session.Lifetime.Acts.{IsTidy-act}
use substrate_poc.Broker.Table.{
  new_broker, Broker, lookup, set_cell, on_session, detach_each, detach_all, write_tunnel,
  attach_found, make_session, open_session, attach_if_there, attach_lost, attach_session, on_found,
  handle_frame,
}
use substrate_poc.Broker.Table.Moves.{
  TidyMethod, on_session-IsLedger, set_cell-All, on_session-made, act_method, attach_on_session,
  attach_found-IsLedger, make_session-IsLedger,
}
use substrate_poc.Broker.Table.Ledger.{AllMade, IsLedger}

lookup-made :
    (actor_id : Bytes) (session_id r : ℕ) (b : Broker)
    → IsLedger b
    → lookup actor_id session_id b ≡ some r
    → r < b.made
unfolding lookup
lookup-made actor_id session_id r b h there =
    (h.named (record { actor_id = actor_id; session_id = session_id }) r there).0

open_session-IsLedger :
    (allow : Bytes → Bool) (actor_id : Bytes) (tc session_id : ℕ) (target : Bytes) (b : Broker)
    → IsLedger b
    → IsLedger (open_session allow actor_id tc session_id target b)
unfolding open_session write_tunnel
open_session-IsLedger allow actor_id tc session_id target b h =
    if-intro {A = Broker} IsLedger (not (allow target)) (λ _. h)
      (λ _.
        option-intro {A = ℕ}
          (λ o. IsLedger (elim o [
            | some r ↦ attach_found tc r 0 b
            | none ↦ make_session actor_id tc session_id target b
          ]))
          (lookup actor_id session_id b)
          (λ free. make_session-IsLedger actor_id tc session_id target b free h)
          (λ r there.
            attach_found-IsLedger tc r 0 b (lookup-made actor_id session_id r b h there) h))

attach_if_there-IsLedger :
    (actor_id : Bytes) (session_id offset : ℕ) (b : Broker)
    → IsLedger b
    → IsLedger (attach_if_there offset (lookup actor_id session_id b) b)
attach_if_there-IsLedger actor_id session_id offset b h =
    option-intro {A = ℕ} (λ o. IsLedger (attach_if_there offset o b)) (lookup actor_id session_id b)
      (λ _. h)
      (λ r there. attach_on_session r offset b (lookup-made actor_id session_id r b h there) h)

attach_lost-IsLedger :
    (allow : Bytes → Bool) (actor_id : Bytes) (tc session_id offset : ℕ) (target : Bytes)
    (b : Broker)
    → IsLedger b
    → IsLedger (attach_lost allow actor_id tc session_id offset target b)
unfolding attach_lost write_tunnel
attach_lost-IsLedger allow actor_id tc session_id offset target b h =
    if-intro {A = Broker} IsLedger ((offset == 0) && not (bytes_eq target []))
      (λ _.
        attach_if_there-IsLedger actor_id session_id offset
          (open_session allow actor_id tc session_id target b)
          (open_session-IsLedger allow actor_id tc session_id target b h))
      (λ _. h)

attach_session-IsLedger :
    (allow : Bytes → Bool) (actor_id : Bytes) (tc session_id offset : ℕ) (target : Bytes)
    (b : Broker)
    → IsLedger b
    → IsLedger (attach_session allow actor_id tc session_id offset target b)
unfolding attach_session
attach_session-IsLedger allow actor_id tc session_id offset target b h =
    option-intro {A = ℕ}
      (λ o. IsLedger (elim o [
        | some r ↦ attach_found tc r offset b
        | none ↦ attach_lost allow actor_id tc session_id offset target b
      ]))
      (lookup actor_id session_id b)
      (λ _. attach_lost-IsLedger allow actor_id tc session_id offset target b h)
      (λ r there.
        attach_found-IsLedger tc r offset b (lookup-made actor_id session_id r b h there) h)

on_found-IsLedger :
    (actor_id : Bytes) (session_id : ℕ) (method : World → World) (b : Broker)
    → TidyMethod method
    → IsLedger b
    → IsLedger (on_found (lookup actor_id session_id b) method b)
on_found-IsLedger actor_id session_id method b tidy h =
    option-intro {A = ℕ} (λ o. IsLedger (on_found o method b)) (lookup actor_id session_id b)
      (λ _. h)
      (λ r there.
        on_session-IsLedger r method b tidy (lookup-made actor_id session_id r b h there) h)

frame-IsLedger :
    (t : FrameType) (allow : Bytes → Bool) (actor_id : Bytes) (tc now : ℕ) (outcome : Outcome)
    (f : Frame) (b : Broker)
    → f.typ ≡ t
    → IsLedger b
    → IsLedger (handle_frame allow actor_id tc now outcome f b)
unfolding handle_frame write_tunnel act
frame-IsLedger hello allow actor_id tc now outcome f b e h = rw e h
frame-IsLedger open_frame allow actor_id tc now outcome f b e h =
    rw e (open_session-IsLedger allow actor_id tc f.session_id f.target b h)
frame-IsLedger attach allow actor_id tc now outcome f b e h =
    rw e (attach_session-IsLedger allow actor_id tc f.session_id f.offset f.target b h)
frame-IsLedger attach_ok allow actor_id tc now outcome f b e h = rw e h
frame-IsLedger data_frame allow actor_id tc now outcome f b e h = rw e (
    on_found-IsLedger actor_id f.session_id (on_data now outcome f.offset f.payload) b
      (λ o w off t. IsTidy-act (data_comes now outcome f.offset f.payload) w (inl off) t) h)
frame-IsLedger ack allow actor_id tc now outcome f b e h = rw e (
    on_found-IsLedger actor_id f.session_id (on_downstream_ack f.offset) b
      (λ o w off t. IsTidy-act (acks f.offset) w (inl off) t) h)
frame-IsLedger close allow actor_id tc now outcome f b e h = rw e (
    on_found-IsLedger actor_id f.session_id (on_sidecar_close f.dir) b
      (λ o w off t. IsTidy-act (closes f.dir) w (inl off) t) h)
frame-IsLedger ping allow actor_id tc now outcome f b e h = rw e h
frame-IsLedger pong allow actor_id tc now outcome f b e h = rw e h
frame-IsLedger (unknown n) allow actor_id tc now outcome f b e h = rw e h

detach_each-IsLedger :
    (tc : ℕ) (rest : List (ℕ × ℕ)) (b : Broker)
    → AllMade b.made rest
    → IsLedger b
    → IsLedger (detach_each tc rest b)
unfolding act
detach_each-IsLedger tc [] b all h = h
detach_each-IsLedger tc ((i, r) ∷ rest) b all h =
    detach_each-IsLedger tc rest (on_session r (detach tc) b)
      (subst (λ n. AllMade n rest) (sym (on_session-made r (detach tc) b)) all.1)
      (on_session-IsLedger r (detach tc) b (λ o w off t. IsTidy-act (detaches tc) w (inl off) t)
        all.0 h)

detach_all-IsLedger : (tc : ℕ) (b : Broker) → IsLedger b → IsLedger (detach_all tc b)
unfolding detach_all
detach_all-IsLedger tc b h =
    detach_each-IsLedger tc (b.registered tc)
      (record b { registered = set_cell b.registered tc [] }) (h.known tc)
      (record {
        named = h.named;
        listed = h.listed;
        dead_closed = h.dead_closed;
        known = set_cell-All b.made b.registered tc [] h.known tt;
      })

-- What can happen to the broker: a frame on a tunnel connection of an actor, the end of a tunnel connection,
-- or an act of a session that was made (the dial, its bytes, the watchdog).
pub data Turn : Type 0 where
  frame_comes : (Bytes → Bool) → Bytes → ℕ → ℕ → Outcome → Frame → Turn
  tunnel_ends : ℕ → Turn
  session_acts : ℕ → Act → Turn

unfoldable pub turn : Turn → Broker → Broker
unfolding handle_frame detach_all
turn (frame_comes allow actor_id tc now outcome f) b =
    handle_frame allow actor_id tc now outcome f b
turn (tunnel_ends tc) b = detach_all tc b
turn (session_acts r a) b = if ltb r b.made then on_session r (act a) b else b

unfoldable pub turns : List Turn → Broker → Broker
unfolding turn
turns [] b = b
turns (t ∷ ts) b = turns ts (turn t b)

turn-IsLedger : (t : Turn) (b : Broker) → IsLedger b → IsLedger (turn t b)
unfolding turn
turn-IsLedger (frame_comes allow actor_id tc now outcome f) b h =
    frame-IsLedger f.typ allow actor_id tc now outcome f b refl h
turn-IsLedger (tunnel_ends tc) b h = detach_all-IsLedger tc b h
turn-IsLedger (session_acts r a) b h =
    if-intro {A = Broker} IsLedger (ltb r b.made)
      (λ lt. on_session-IsLedger r (act a) b (act_method a) (ltb→lt r b.made lt) h) (λ _. h)

pub turns-IsLedger : (ts : List Turn) (b : Broker) → IsLedger b → IsLedger (turns ts b)
unfolding turns
turns-IsLedger [] b h = h
turns-IsLedger (t ∷ ts) b h = turns-IsLedger ts (turn t b) (turn-IsLedger t b h)

-- From a new broker on, over any run of frames of any actors, of tunnel connections that end, and of acts of
-- the sessions, the broker's table has exactly the live sessions, each under its own actor and number:
-- whatever is found is alive and its own, and whatever is alive is found. The connection of a dead session is
-- closed, and the tunnel connections know of no session that was not made.
pub turns-new_broker :
    (ts : List Turn) (cfg : Config) (conns : ℕ → Conn) → IsLedger (turns ts (new_broker cfg conns))
unfolding new_broker
turns-new_broker ts cfg conns = turns-IsLedger ts (new_broker cfg conns) (record {
  named = λ key q e. absurd cc;
  listed = λ q lt. absurd (omega (arith, lt));
  dead_closed = λ q lt. absurd (omega (arith, lt));
  known = λ tc. tt;
})
