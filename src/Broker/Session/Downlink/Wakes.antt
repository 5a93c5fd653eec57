-- ===== src/Broker/Session/Downlink/Wakes.antt =====
-- internal/broker/session.go: when bytes from the destination wake the actor.
use substrate_poc.Prelude.{
  ℕ, zero, suc, ◌+◌, ◌<◌, ◌≡◌, refl, sym, ap, subst, ◌∙◌, ◌≢◌, ◌⊎◌, inl, inr, Bool, true, false,
  not, ◌&&◌, Option, none, some, List, [], ◌∷◌, ◌++◌, arith, ◌==◌, length, take, drop,
  length-append, length-take, Bytes, codes, Error, ok, >>=-eq-ok, ok-injective, if-intro,
  result-intro,
}
use substrate_poc.Tunnel.Frame.{Frame}
use substrate_poc.Tunnel.Buffer
use substrate_poc.Tunnel.Buffer.{ReplayBuffer}
use substrate_poc.Broker.Session.State.Sending.{detach-session, detach-unbinds}
use substrate_poc.Broker.Session.Downlink.Produce.{
  forward_on-session, produce_chunk_lem, chunk_fits, after_chunk,
}
use substrate_poc.Broker.Session.State.{
  Event, World, wake, bound_to, undelivered, detach, write, is_bound, woke, removed,
}
use substrate_poc.Tunnel.Buffer.Stream.{Holds}
use substrate_poc.Broker.Session.Downlink.{
  data_at, Produced, take_size, unbind_on_error, forward_on, forward, wake_if_pending,
  produce_chunk, produce_loop, produce_downstream,
}

-- The broker was asked to wake the actor.
abbrev pub HasWoke : List Event → Type 0
HasWoke [] = ⊥
HasWoke (woke reason ∷ es) = Unit {0}
HasWoke (removed ∷ es) = HasWoke es

HasWoke-wake : (reason : Bytes) (es : List Event) → HasWoke (es ++ woke reason ∷ [])
HasWoke-wake reason [] = tt
HasWoke-wake reason (woke r ∷ es) = tt
HasWoke-wake reason (removed ∷ es) = HasWoke-wake reason es

HasWoke-append : (es fs : List Event) → HasWoke es → HasWoke (es ++ fs)
HasWoke-append [] fs h = elim h [ ]
HasWoke-append (woke r ∷ es) fs h = tt
HasWoke-append (removed ∷ es) fs h = HasWoke-append es fs h

-- A request is unanswered, and either its bytes wait in the buffer of a session bound to `tc`, or the
-- actor was woken.
abbrev Roused : ℕ → World → Type 0
Roused tc w = ((w.session.tconn ≡ some tc) × (0 < length w.session.down_buf.buf)) ⊎ HasWoke w.events

abbrev Armed : ℕ → World → Type 0
Armed tc w = (w.session.request_outstanding ≡ true) × Roused tc w

asleep-bound : (t : Option ℕ) (p : Bool) → p ≡ true → (not (is_bound t) && p) ≡ false → t ≢ none
asleep-bound none p pending asleep = λ _. cc
asleep-bound (some tc) p pending asleep = λ e. cc

-- A binding as `forward` leaves it.
abbrev Bound : ℕ → World → Type 0
Bound tc w = ((w.session.tconn ≡ some tc) ⊎ (w.session.tconn ≡ none)) ⊎ HasWoke w.events

wake_if_pending-Armed :
    (tc : ℕ) (w : World)
    → w.session.request_outstanding ≡ true
    → 0 < length w.session.down_buf.buf
    → Bound tc w
    → Armed tc (wake_if_pending w)
unfolding wake_if_pending wake
wake_if_pending-Armed tc w pending full bound =
    if-intro {A = World} (Armed tc)
      (not (is_bound w.session.tconn) && w.session.request_outstanding)
      (λ _. (pending, inr (HasWoke-wake (codes "downstream data on pending session") w.events)))
      (λ asleep. (pending, stays asleep bound))
  where
    stays :
        (not (is_bound w.session.tconn) && w.session.request_outstanding) ≡ false
        → Bound tc w
        → Roused tc w
    stays asleep (inl (inl b)) = inl (b, full)
    stays asleep (inl (inr free)) = absurd (asleep-bound w.session.tconn _ pending asleep free)
    stays asleep (inr roused) = inr roused

forward_on-Bound :
    (tc : ℕ) (t : Option ℕ) (f : Frame) (w : World)
    → (t ≡ none) ⊎ (t ≡ some tc)
    → w.session.tconn ≡ t
    → Bound tc (forward_on t f w)
unfolding write
forward_on-Bound tc none f w which bound = inl (inr bound)
forward_on-Bound tc (some t) f w which bound = sent (write t f w) (bound ∙ named which)
  where
    named : (some t ≡ none) ⊎ (some t ≡ some tc) → some t ≡ some tc
    named (inl e) = cc
    named (inr e) = e

    sent : (r : World × Option Error) → r.0.session.tconn ≡ some tc → Bound tc (unbind_on_error r)
    sent (v, none) b = inl (inl b)
    sent (v, some e) b = inl (inr refl)

unbind-events : (r : World × Option Error) → (unbind_on_error r).events ≡ r.0.events
unbind-events (w, none) = refl
unbind-events (w, some e) = refl

forward_on-events : (t : Option ℕ) (f : Frame) (w : World) → (forward_on t f w).events ≡ w.events
unfolding write
forward_on-events none f w = refl
forward_on-events (some tc) f w = unbind-events (write tc f w)

detach-Armed : (tc : ℕ) (w : World) → Armed tc w → HasWoke (detach tc w).events
unfolding detach wake
detach-Armed tc w (pending, inl (bound, full)) =
    if-intro {A = World} (λ x. HasWoke x.events) (not (bound_to w.session.tconn tc))
      (λ other. absurd (ground arith))
      (λ _.
        if-intro {A = World} (λ x. HasWoke x.events) (undelivered w.session)
          (λ _. HasWoke-wake (codes "undelivered data on detach") w.events)
          (λ nothing. absurd (ground arith)))
detach-Armed tc w (pending, inr roused) =
    if-intro {A = World} (λ x. HasWoke x.events) (not (bound_to w.session.tconn tc)) (λ _. roused)
      (λ _.
        if-intro {A = World} (λ x. HasWoke x.events) (undelivered w.session)
          (λ _. HasWoke-append w.events _ roused) (λ _. roused))

append-longer :
    (b b' : ReplayBuffer) (p : Bytes)
    → Buffer.append b p ≡ ok b'
    → length b'.buf ≡ length b.buf + length p
unfolding Buffer.append
append-longer b b' p e = ground (arith, length-append b.buf p)

forward-Bound :
    (tc offset : ℕ) (chunk : Bytes) (w : World) → Bound tc w → Bound tc (forward offset chunk w)
unfolding forward
forward-Bound tc offset chunk w (inl (inl b)) = forward_on-Bound tc w.session.tconn _ w (inr b) refl
forward-Bound tc offset chunk w (inl (inr free)) =
    forward_on-Bound tc w.session.tconn _ w (inl free) refl
forward-Bound tc offset chunk w (inr roused) =
    inr (subst HasWoke (sym (forward_on-events w.session.tconn _ w)) roused)

-- One round: whatever becomes of the write, the session is armed behind it.
round-Armed :
    (tc offset : ℕ) (chunk : Bytes) (buf : ReplayBuffer) (w : World)
    → w.session.request_outstanding ≡ true
    → 0 < length buf.buf
    → Bound tc w
    → Armed tc (
        wake_if_pending
          (forward offset chunk (record w { session = record w.session { down_buf = buf } })))
unfolding forward
round-Armed tc offset chunk buf w pending full bound =
    let w' = record w { session = record w.session { down_buf = buf } } in
    let (t, e) =
      forward_on-session w.session.tconn (data_at w.session.session_id offset chunk) w' in
    wake_if_pending-Armed tc (forward offset chunk w') (ap (λ s. s.request_outstanding) e ∙ pending)
      (rw (ap (λ s. s.down_buf) e) full) (forward-Bound tc offset chunk w' bound)

Armed-Bound : (tc : ℕ) (w : World) → Armed tc w → Bound tc w
Armed-Bound tc w (pending, inl (b, full)) = inl (inl b)
Armed-Bound tc w (pending, inr roused) = inr roused

produce_chunk-Armed :
    (tc : ℕ) (chunk : Bytes) (w : World) {w' : World}
    → w.session.request_outstanding ≡ true
    → 0 < length w.session.down_buf.buf + length chunk
    → Bound tc w
    → produce_chunk chunk w ≡ ok w'
    → Armed tc w'
unfolding produce_chunk
produce_chunk-Armed tc chunk w pending full bound e =
    let (buf, e₁, e₂) = >>=-eq-ok (Buffer.append w.session.down_buf chunk) _ e in
    subst (Armed tc) (ok-injective e₂) (
      round-Armed tc _ chunk buf w pending
        (omega (arith, append-longer w.session.down_buf buf chunk e₁)) bound)

take_size-pos :
    (w : World) (x : ℕ) (xs : Bytes)
    → 0 < Buffer.free w.session.down_buf
    → 0 < length (take (take_size w (x ∷ xs)) (x ∷ xs))
take_size-pos w x xs room = ground (arith, length-take (take_size w (x ∷ xs)) (x ∷ xs))

produce_loop-Armed :
    (fuel tc : ℕ) (p : Bytes) (w : World) → Armed tc w → Armed tc (produce_loop fuel p w).0
unfolding produce_loop
produce_loop-Armed zero tc p w a = a
produce_loop-Armed (suc fuel) tc [] w a = a
produce_loop-Armed (suc fuel) tc (x ∷ xs) w a =
    if-intro {A = World × Produced} (λ r. Armed tc r.0) w.session.dead (λ _. a)
      (λ _.
        if-intro {A = World × Produced} (λ r. Armed tc r.0) (Buffer.free w.session.down_buf == 0)
          (λ _. a)
          (λ room.
            let chunk = take (take_size w (x ∷ xs)) (x ∷ xs) in
            result-intro (λ c. Armed tc (after_chunk fuel (x ∷ xs) w c).0) (produce_chunk chunk w)
              (λ w' e. produce_loop-Armed fuel tc (drop (take_size w (x ∷ xs)) (x ∷ xs)) w' (
                produce_chunk-Armed tc chunk w a.0
                  (omega (arith, take_size-pos w x xs (ground arith))) (Armed-Bound tc w a) e))
              (λ _ _. a)))

produce_downstream-Armed :
    (tc x : ℕ) (xs d : Bytes) (w : World)
    → w.session.dead ≡ false
    → w.session.request_outstanding ≡ true
    → Bound tc w
    → Holds w.session.down_buf d
    → 0 < Buffer.free w.session.down_buf
    → Armed tc (produce_downstream (x ∷ xs) w).0
unfolding produce_downstream produce_loop
produce_downstream-Armed tc x xs d w alive pending bound h room =
    if-intro {A = World × Produced} (λ r. Armed tc r.0) w.session.dead
      (λ dead. absurd (ground arith))
      (λ _.
        if-intro {A = World × Produced} (λ r. Armed tc r.0) (Buffer.free w.session.down_buf == 0)
          (λ full. absurd (ground arith))
          (λ _.
            let chunk = take (take_size w (x ∷ xs)) (x ∷ xs) in
            result-intro (λ c. Armed tc (after_chunk (length (x ∷ xs)) (x ∷ xs) w c).0)
              (produce_chunk chunk w)
              (λ w' e.
                produce_loop-Armed (length (x ∷ xs)) tc (drop (take_size w (x ∷ xs)) (x ∷ xs)) w' (
                  produce_chunk-Armed tc chunk w pending (omega (arith, take_size-pos w x xs room))
                    bound e))
              (λ e refusal.
                let bad = sym (produce_chunk_lem chunk d w h (chunk_fits w x xs)) ∙ refusal in cc)))

-- Bytes that come to a detached session with an unanswered request wake the actor.
pub produce_downstream_wakes :
    (x : ℕ) (xs d : Bytes) (w : World)
    → w.session.dead ≡ false
    → w.session.request_outstanding ≡ true
    → w.session.tconn ≡ none
    → Holds w.session.down_buf d
    → 0 < Buffer.free w.session.down_buf
    → HasWoke (produce_downstream (x ∷ xs) w).0.events
produce_downstream_wakes x xs d w alive pending free h room =
    one_of (produce_downstream-Armed 0 x xs d w alive pending (inl (inr free)) h room).1
      (produce_downstream-Armed 1 x xs d w alive pending (inl (inr free)) h room).1
  where
    one_of :
        Roused 0 (produce_downstream (x ∷ xs) w).0
        → Roused 1 (produce_downstream (x ∷ xs) w).0
        → HasWoke (produce_downstream (x ∷ xs) w).0.events
    one_of (inl (b, _)) (inl (c, _)) = absurd (ground arith)
    one_of (inl _) (inr roused) = roused
    one_of (inr roused) other = roused

-- A response to an unanswered request and the loss of its tunnel connection wake the actor in either
-- order: the connection goes first and the bytes come to a detached session, or the bytes are sent on
-- the dying connection, whatever its writes answer, and the detach finds them unacknowledged. The
-- session is alive and bound to the connection, and its buffer has room for a byte.
pub produce_downstream-detach_wakes :
    (tc x : ℕ) (xs d : Bytes) (w : World)
    → w.session.dead ≡ false
    → w.session.request_outstanding ≡ true
    → w.session.tconn ≡ some tc
    → Holds w.session.down_buf d
    → 0 < Buffer.free w.session.down_buf
    → HasWoke (produce_downstream (x ∷ xs) (detach tc w)).0.events
      × HasWoke (detach tc (produce_downstream (x ∷ xs) w).0).events
produce_downstream-detach_wakes tc x xs d w alive pending bound h room =
    let (t, e) = detach-session tc w in
    (
      produce_downstream_wakes x xs d (detach tc w) (ap (λ s. s.dead) e ∙ alive)
          (ap (λ s. s.request_outstanding) e ∙ pending) (detach-unbinds tc w bound)
          (subst (λ b. Holds b d) (ap (λ s. s.down_buf) (sym e)) h)
          (subst (λ b. 0 < Buffer.free b) (ap (λ s. s.down_buf) (sym e)) room),
      detach-Armed tc (produce_downstream (x ∷ xs) w).0
          (produce_downstream-Armed tc x xs d w alive pending (inl (inl bound)) h room),
    )
