-- ===== src/Broker/Table/Isolation.antt =====
-- internal/broker/broker.go: a frame reaches the session of its own actor and number, and no other.
use substrate_poc.Prelude.{
  ℕ, ◌+◌, ◌<◌, ◌≡◌, refl, sym, ap, subst, ◌∙◌, ◌≢◌, Bool, not, ◌&&◌, Option, none, some, [], ◌∷◌,
  arith, ◌==◌, ==_iff, Bytes, bytes_eq, bytes_eq_refl, if-intro, option-intro,
}
use substrate_poc.Tunnel.Frame.{
  FrameType, Frame, hello, open_frame, attach, attach_ok, data_frame, ack, close, ping, pong,
  unknown,
}
use substrate_poc.Broker.Session.State.{Outcome, Session, World, new_session, bind}
use substrate_poc.Broker.Session.Uplink.{on_data, on_sidecar_close}
use substrate_poc.Broker.Session.Downlink.{on_downstream_ack, on_sidecar_attach}
use substrate_poc.Broker.Table.{
  Broker, lookup, set_cell, serve_events, world_of, on_session, register, bind_session,
  write_tunnel, attach_found, make_session, open_session, attach_if_there, attach_lost,
  attach_session, on_found, handle_frame,
}
use substrate_poc.Broker.Table.Detach.{on_session-heap, set_cell-other}

-- Session `q` is as it was.
Keeps : ℕ → Broker → Broker → Type 0
Keeps q b b' = b'.heap q ≡ b.heap q

on_session-Keeps :
    (q r : ℕ) (method : World → World) (b : Broker) → q ≢ r → Keeps q b (on_session r method b)
unfolding Keeps
on_session-Keeps q r method b other =
    ap {A = ℕ → Session} (λ f. f q) (on_session-heap r method b)
    ∙ set_cell-other b.heap q r (method (world_of r b)).session (ground arith)

bind_session-Keeps : (q tc r : ℕ) (b : Broker) → q ≢ r → Keeps q b (bind_session tc r b)
unfolding bind_session register Keeps
bind_session-Keeps q tc r b other = on_session-Keeps q r (bind tc) b other

attach_found-Keeps :
    (q tc r offset : ℕ) (b : Broker) → q ≢ r → Keeps q b (attach_found tc r offset b)
unfolding attach_found Keeps
attach_found-Keeps q tc r offset b other =
    on_session-Keeps q r (on_sidecar_attach offset) (bind_session tc r b) other
    ∙ bind_session-Keeps q tc r b other

make_session-Keeps :
    (q : ℕ) (actor_id : Bytes) (tc session_id : ℕ) (target : Bytes) (b : Broker)
    → q < b.made
    → Keeps q b (make_session actor_id tc session_id target b)
unfolding make_session Keeps
make_session-Keeps q actor_id tc session_id target b old =
    let s = new_session b.cfg actor_id session_id target in
    bind_session-Keeps q tc b.made
      (record b {
        heap = set_cell b.heap b.made s;
        made = b.made + 1;
        sessions = (record { actor_id = actor_id; session_id = session_id }, b.made) ∷ b.sessions;
      })
      (λ e. absurd (omega (arith, e)))
    ∙ set_cell-other b.heap q b.made s (ground arith)

-- The session that was made is on the table.
make_session-lookup :
    (actor_id : Bytes) (tc session_id : ℕ) (target : Bytes) (b : Broker)
    → lookup actor_id session_id (make_session actor_id tc session_id target b) ≡ some b.made
unfolding make_session bind_session register on_session bind serve_events lookup
make_session-lookup actor_id tc session_id target b =
    rw (bytes_eq_refl actor_id, (==_iff session_id session_id).1 refl) refl

open_session-Keeps :
    (q : ℕ) (allow : Bytes → Bool) (actor_id : Bytes) (tc session_id : ℕ) (target : Bytes)
    (b : Broker)
    → q < b.made
    → lookup actor_id session_id b ≢ some q
    → Keeps q b (open_session allow actor_id tc session_id target b)
unfolding open_session write_tunnel Keeps
open_session-Keeps q allow actor_id tc session_id target b old other =
    if-intro {A = Broker} (Keeps q b) (not (allow target)) (λ _. refl)
      (λ _.
        option-intro {A = ℕ}
          (λ o. Keeps q b (elim o [
            | some r ↦ attach_found tc r 0 b
            | none ↦ make_session actor_id tc session_id target b
          ]))
          (lookup actor_id session_id b)
          (λ _. make_session-Keeps q actor_id tc session_id target b old)
          (λ r found. attach_found-Keeps q tc r 0 b (λ same. other (found ∙ ap some (sym same)))))

-- After the OPEN, the table does not name an older session that it did not name before.
open_session-lookup :
    (q : ℕ) (allow : Bytes → Bool) (actor_id : Bytes) (tc session_id : ℕ) (target : Bytes)
    (b : Broker)
    → q < b.made
    → lookup actor_id session_id b ≡ none
    → lookup actor_id session_id (open_session allow actor_id tc session_id target b) ≢ some q
unfolding open_session write_tunnel lookup
open_session-lookup q allow actor_id tc session_id target b old none_there =
    if-intro {A = Broker} (λ x. lookup actor_id session_id x ≢ some q) (not (allow target))
      (λ _ e. absurd (cc none_there))
      (λ _.
        subst
          (λ o.
            lookup actor_id session_id (elim o [
              | some r ↦ attach_found tc r 0 b
              | none ↦ make_session actor_id tc session_id target b
            ])
            ≢ some q)
          (sym none_there)
          (λ e. absurd (
            let m : b.made ≡ q = cc (make_session-lookup actor_id tc session_id target b) in
            omega (arith, m))))

attach_if_there-Keeps :
    (q offset : ℕ) (o : Option ℕ) (b : Broker) → o ≢ some q → Keeps q b (attach_if_there offset o b)
unfolding Keeps
attach_if_there-Keeps q offset none b other = refl
attach_if_there-Keeps q offset (some r) b other =
    on_session-Keeps q r (on_sidecar_attach offset) b (λ same. other (ap some (sym same)))

attach_lost-Keeps :
    (q : ℕ) (allow : Bytes → Bool) (actor_id : Bytes) (tc session_id offset : ℕ) (target : Bytes)
    (b : Broker)
    → q < b.made
    → lookup actor_id session_id b ≡ none
    → Keeps q b (attach_lost allow actor_id tc session_id offset target b)
unfolding attach_lost write_tunnel Keeps
attach_lost-Keeps q allow actor_id tc session_id offset target b old none_there =
    let b' = open_session allow actor_id tc session_id target b in
    if-intro {A = Broker} (Keeps q b) ((offset == 0) && not (bytes_eq target []))
      (λ _.
        attach_if_there-Keeps q offset (lookup actor_id session_id b') b'
          (open_session-lookup q allow actor_id tc session_id target b old none_there)
        ∙ open_session-Keeps q allow actor_id tc session_id target b old
            (λ e. absurd (cc none_there)))
      (λ _. refl)

attach_session-Keeps :
    (q : ℕ) (allow : Bytes → Bool) (actor_id : Bytes) (tc session_id offset : ℕ) (target : Bytes)
    (b : Broker)
    → q < b.made
    → lookup actor_id session_id b ≢ some q
    → Keeps q b (attach_session allow actor_id tc session_id offset target b)
unfolding attach_session
attach_session-Keeps q allow actor_id tc session_id offset target b old other =
    option-intro {A = ℕ}
      (λ o. Keeps q b (elim o [
        | some r ↦ attach_found tc r offset b
        | none ↦ attach_lost allow actor_id tc session_id offset target b
      ]))
      (lookup actor_id session_id b)
      (λ gone. attach_lost-Keeps q allow actor_id tc session_id offset target b old gone)
      (λ r found. attach_found-Keeps q tc r offset b (λ same. other (found ∙ ap some (sym same))))

on_found-Keeps :
    (q : ℕ) (o : Option ℕ) (method : World → World) (b : Broker)
    → o ≢ some q
    → Keeps q b (on_found o method b)
unfolding Keeps
on_found-Keeps q none method b other = refl
on_found-Keeps q (some r) method b other =
    on_session-Keeps q r method b (λ same. other (ap some (sym same)))

frame-Keeps :
    (t : FrameType) (q : ℕ) (allow : Bytes → Bool) (actor_id : Bytes) (tc now : ℕ)
    (outcome : Outcome) (f : Frame) (b : Broker)
    → f.typ ≡ t
    → q < b.made
    → lookup actor_id f.session_id b ≢ some q
    → Keeps q b (handle_frame allow actor_id tc now outcome f b)
unfolding handle_frame write_tunnel Keeps
frame-Keeps hello q allow actor_id tc now outcome f b e old other = rw e refl
frame-Keeps open_frame q allow actor_id tc now outcome f b e old other =
    rw e (open_session-Keeps q allow actor_id tc f.session_id f.target b old other)
frame-Keeps attach q allow actor_id tc now outcome f b e old other =
    rw e (attach_session-Keeps q allow actor_id tc f.session_id f.offset f.target b old other)
frame-Keeps attach_ok q allow actor_id tc now outcome f b e old other = rw e refl
frame-Keeps data_frame q allow actor_id tc now outcome f b e old other = rw e (
    on_found-Keeps q (lookup actor_id f.session_id b) (on_data now outcome f.offset f.payload) b
      other)
frame-Keeps ack q allow actor_id tc now outcome f b e old other =
    rw e (on_found-Keeps q (lookup actor_id f.session_id b) (on_downstream_ack f.offset) b other)
frame-Keeps close q allow actor_id tc now outcome f b e old other =
    rw e (on_found-Keeps q (lookup actor_id f.session_id b) (on_sidecar_close f.dir) b other)
frame-Keeps ping q allow actor_id tc now outcome f b e old other = rw e refl
frame-Keeps pong q allow actor_id tc now outcome f b e old other = rw e refl
frame-Keeps (unknown n) q allow actor_id tc now outcome f b e old other = rw e refl

-- A frame of any type leaves each session alone that was made before, unless the table has it under the
-- frame's session number and the actor that the tunnel's HELLO named.
pub handle_frame-isolates :
    (q : ℕ) (allow : Bytes → Bool) (actor_id : Bytes) (tc now : ℕ) (outcome : Outcome) (f : Frame)
    (b : Broker)
    → q < b.made
    → lookup actor_id f.session_id b ≢ some q
    → (handle_frame allow actor_id tc now outcome f b).heap q ≡ b.heap q
unfolding Keeps
handle_frame-isolates q allow actor_id tc now outcome f b old other =
    frame-Keeps f.typ q allow actor_id tc now outcome f b refl old other
