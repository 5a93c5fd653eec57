-- ===== src/Broker/Session/Quiescence.antt =====
-- internal/broker/session.go: a session with no request in flight does not wake the actor.
use substrate_poc.Prelude.{
  ℕ, zero, suc, ◌≡◌, refl, ap, subst, ◌∙◌, true, false, not, ◌&&◌, Option, none, some, List, [],
  ◌∷◌, ◌++◌, arith, ◌==◌, length, take, drop, length-drop, All, Bytes, Error, ok, >>=-eq-ok,
  ok-injective, if-intro, result-intro,
}
use substrate_poc.Tunnel.Frame.{Frame, dir_up}
use substrate_poc.Tunnel.Buffer
use substrate_poc.Tunnel.Buffer.{ReplayBuffer}
use substrate_poc.Tunnel.Buffer.Stream.{Holds, trim_to-base, Holds-trim_to}
use substrate_poc.Broker.Session.State.{
  Cause, Session, Event, World, wake, bind, bound_to, undelivered, detach, write, detach_on_error,
  send_on, send_to_sidecar, destroy, maybe_destroy, close_down, cause_reason, is_bound,
  announce_close, close_upstream, watchdog_fires, woke, removed,
}
use substrate_poc.Broker.Session.Downlink.{
  data_at, Produced, take_size, unbind_on_error, forward_on, forward, wake_if_pending,
  produce_chunk, produce_loop, produce_downstream, on_downstream_ack, attach_answer, send_all,
  on_sidecar_attach, finished, blocked, died, refused, stuck,
}
use substrate_poc.Broker.Session.Downlink.Produce.{after_chunk}
use substrate_poc.Broker.Session.Uplink.{half_close, on_sidecar_close}
use substrate_poc.Broker.Session.{
  after_produce, read_upstream, Act, act, run, binds, detaches, dials, data_comes, acks, attaches,
  closes, reads, fires,
}

-- How often the broker was asked to wake the actor.
abbrev pub wakes : List Event → ℕ
wakes [] = 0
wakes (woke reason ∷ es) = suc (wakes es)
wakes (removed ∷ es) = wakes es

wakes-removed : (es : List Event) → wakes (es ++ removed ∷ []) ≡ wakes es
wakes-removed [] = refl
wakes-removed (woke r ∷ es) = ap suc (wakes-removed es)
wakes-removed (removed ∷ es) = wakes-removed es

-- No request is in flight, and the actor was woken `n` times.
abbrev pub Quiet : ℕ → World → Type 0
Quiet n w = (w.session.request_outstanding ≡ false) × (wakes w.events ≡ n)

-- Everything but the agent's bytes, which start a request.
abbrev pub IsPassive : Act → Type 0
IsPassive (dials dialed now) = ⊥
IsPassive (data_comes now outcome offset payload) = ⊥
IsPassive a = Unit {0}

undelivered-quiet : (s : Session) → s.request_outstanding ≡ false → undelivered s ≡ false
undelivered-quiet s quiet = ground arith

Quiet-detach : {n : ℕ} (tc : ℕ) (w : World) → Quiet n w → Quiet n (detach tc w)
unfolding detach wake
Quiet-detach {n} tc w (quiet, count) =
    if-intro {A = World} (Quiet n) (not (bound_to w.session.tconn tc)) (λ _. (quiet, count))
      (λ _.
        if-intro {A = World} (Quiet n) (undelivered w.session) (λ full. absurd (ground arith))
          (λ _. (quiet, count)))

Quiet-error :
    {n : ℕ} (tc : ℕ) (r : World × Option Error) → Quiet n r.0 → Quiet n (detach_on_error tc r)
Quiet-error tc (w, none) q = q
Quiet-error tc (w, some e) q = Quiet-detach tc w q

Quiet-send_on : {n : ℕ} (t : Option ℕ) (f : Frame) (w : World) → Quiet n w → Quiet n (send_on t f w)
unfolding write
Quiet-send_on none f w q = q
Quiet-send_on (some tc) f w q = Quiet-error tc (write tc f w) q

Quiet-send : {n : ℕ} (f : Frame) (w : World) → Quiet n w → Quiet n (send_to_sidecar f w)
unfolding send_to_sidecar
Quiet-send f w q = Quiet-send_on w.session.tconn f w q

Quiet-send_all : {n : ℕ} (fs : List Frame) (w : World) → Quiet n w → Quiet n (send_all fs w)
unfolding send_all
Quiet-send_all [] w q = q
Quiet-send_all (f ∷ fs) w q = Quiet-send_all fs (send_to_sidecar f w) (Quiet-send f w q)

Quiet-destroy : {n : ℕ} (w : World) → Quiet n w → Quiet n (destroy w)
unfolding destroy
Quiet-destroy {n} w (quiet, count) =
    if-intro {A = World} (Quiet n) w.session.dead (λ _. (quiet, count))
      (λ _. (quiet, wakes-removed w.events ∙ count))

Quiet-maybe_destroy : {n : ℕ} (w : World) → Quiet n w → Quiet n (maybe_destroy w)
unfolding maybe_destroy
Quiet-maybe_destroy {n} w q =
    if-intro {A = World} (Quiet n)
      (w.session.up_closed && w.session.down_closed && (length w.session.down_buf.buf == 0))
      (λ _. Quiet-destroy w q) (λ _. q)

Quiet-announce : {n : ℕ} (cause : Cause) (w : World) → Quiet n w → Quiet n (announce_close cause w)
unfolding announce_close wake
Quiet-announce {n} cause w (quiet, count) =
    if-intro {A = World} (Quiet n) (is_bound w.session.tconn)
      (λ _. Quiet-send (close_down w.session.session_id (cause_reason cause)) w (quiet, count))
      (λ _.
        if-intro {A = World} (Quiet n) w.session.request_outstanding (λ on. absurd (ground arith))
          (λ _. (quiet, count)))

Quiet-close_upstream :
    {n : ℕ} (cause : Cause) (w : World) → Quiet n w → Quiet n (close_upstream cause w)
unfolding close_upstream
Quiet-close_upstream {n} cause w (quiet, count) =
    let closed = record w { session = record w.session { down_closed = true } } in
    if-intro {A = World} (Quiet n) w.session.down_closed (λ _. (quiet, count))
      (λ _.
        Quiet-maybe_destroy (announce_close cause closed)
          (Quiet-announce cause closed (quiet, count)))

Quiet-same :
    {n : ℕ} (w w' : World)
    → w'.session.request_outstanding ≡ w.session.request_outstanding
    → w'.events ≡ w.events
    → Quiet n w
    → Quiet n w'
Quiet-same w w' e f (quiet, count) = (e ∙ quiet, ap wakes f ∙ count)

Quiet-wake_if_pending : {n : ℕ} (w : World) → Quiet n w → Quiet n (wake_if_pending w)
unfolding wake_if_pending wake
Quiet-wake_if_pending {n} w (quiet, count) =
    if-intro {A = World} (Quiet n) (not (is_bound w.session.tconn) && w.session.request_outstanding)
      (λ on. absurd (ground arith)) (λ _. (quiet, count))

Quiet-unbind : {n : ℕ} (r : World × Option Error) → Quiet n r.0 → Quiet n (unbind_on_error r)
Quiet-unbind (w, none) q = q
Quiet-unbind (w, some e) q = q

Quiet-forward_on :
    {n : ℕ} (t : Option ℕ) (f : Frame) (w : World) → Quiet n w → Quiet n (forward_on t f w)
unfolding write
Quiet-forward_on none f w q = q
Quiet-forward_on (some tc) f w q = Quiet-unbind (write tc f w) q

Quiet-produce_chunk :
    {n : ℕ} (chunk : Bytes) (w : World) {w' : World}
    → Quiet n w
    → produce_chunk chunk w ≡ ok w'
    → Quiet n w'
unfolding produce_chunk forward
Quiet-produce_chunk {n} chunk w q e =
    let (buf, e₁, e₂) = >>=-eq-ok (Buffer.append w.session.down_buf chunk) _ e in
    let taken = record w { session = record w.session { down_buf = buf } } in
    let f = data_at w.session.session_id (Buffer.end w.session.down_buf) chunk in
    subst (Quiet n) (ok-injective e₂) (
      Quiet-wake_if_pending (forward_on w.session.tconn f taken)
        (Quiet-forward_on w.session.tconn f taken q))

Quiet-produce_loop :
    {n : ℕ} (fuel : ℕ) (p : Bytes) (w : World) → Quiet n w → Quiet n (produce_loop fuel p w).0
unfolding produce_loop
Quiet-produce_loop zero p w q = q
Quiet-produce_loop (suc fuel) [] w q = q
Quiet-produce_loop {n} (suc fuel) (x ∷ xs) w q =
    if-intro {A = World × Produced} (λ r. Quiet n r.0) w.session.dead (λ _. q)
      (λ _.
        if-intro {A = World × Produced} (λ r. Quiet n r.0) (Buffer.free w.session.down_buf == 0)
          (λ _. q)
          (λ _.
            let chunk = take (take_size w (x ∷ xs)) (x ∷ xs) in
            result-intro (λ c. Quiet n (after_chunk fuel (x ∷ xs) w c).0) (produce_chunk chunk w)
              (λ w' e.
                Quiet-produce_loop fuel (drop (take_size w (x ∷ xs)) (x ∷ xs)) w'
                  (Quiet-produce_chunk chunk w q e))
              (λ _ _. q)))

Quiet-after_produce :
    {n : ℕ} (cause : Option Cause) (r : World × Produced)
    → Quiet n r.0
    → Quiet n (after_produce cause r)
unfolding after_produce
Quiet-after_produce none (w, finished) q = q
Quiet-after_produce (some cause) (w, finished) q = Quiet-close_upstream cause w q
Quiet-after_produce cause (w, blocked left) q = q
Quiet-after_produce cause (w, died) q = Quiet-destroy w q
Quiet-after_produce cause (w, refused e) q = Quiet-destroy w q
Quiet-after_produce cause (w, stuck) q = q

Quiet-act : {n : ℕ} (a : Act) (w : World) → IsPassive a → Quiet n w → Quiet n (act a w)
unfolding act bind on_downstream_ack on_sidecar_attach on_sidecar_close read_upstream
    produce_downstream watchdog_fires wake
Quiet-act (binds tc) w p q = q
Quiet-act (detaches tc) w p q = Quiet-detach tc w q
Quiet-act (dials dialed now) w p q = elim p [ ]
Quiet-act (data_comes now outcome offset payload) w p q = elim p [ ]
Quiet-act (acks offset) w p (quiet, count) = (ground arith, count)
Quiet-act (attaches delivered) w p q = Quiet-send_all (attach_answer delivered w.session) w q
Quiet-act {n} (closes dir) w p (quiet, count) =
    if-intro {A = World} (Quiet n) (dir == dir_up)
      (λ _. Quiet-maybe_destroy (half_close w) (quiet, count)) (λ _. (quiet, count))
Quiet-act (reads p cause) w _ q =
    Quiet-after_produce cause (produce_downstream p w) (Quiet-produce_loop (suc (length p)) p w q)
Quiet-act {n} fires w p (quiet, count) =
    if-intro {A = World} (Quiet n)
      (not w.session.dead && (w.session.request_outstanding && not (is_bound w.session.tconn)))
      (λ on. absurd (ground arith)) (λ _. (quiet, count))

-- Whatever the destination, the tunnel and the sidecar do, in any order, each handler as a whole, and for
-- as long as the agent sends no bytes and no dial ends, a session with no request in flight never asks
-- for its actor to be woken.
pub run-Quiet :
    {n : ℕ} (acts : List Act) (w : World) → All IsPassive acts → Quiet n w → Quiet n (run acts w)
unfolding run
run-Quiet [] w p q = q
run-Quiet (a ∷ acts) w p q = run-Quiet acts (act a w) p.1 (Quiet-act a w p.0 q)

pub ack-empties :
    (d : Bytes) (w : World)
    → Holds w.session.down_buf d
    → length (Buffer.trim_to w.session.down_buf (length d)).buf ≡ 0
ack-empties d w h =
    let trimmed = Holds-trim_to h (length d) in
    omega (
      arith,
      ap length trimmed.tail,
      length-drop (Buffer.trim_to w.session.down_buf (length d)).base d,
      trim_to-base h (length d),
    )

ack-Quiet :
    (d : Bytes) (w : World)
    → Holds w.session.down_buf d
    → Quiet (wakes w.events) (on_downstream_ack (length d) w)
unfolding on_downstream_ack
ack-Quiet d w h = (rw (ack-empties d w h) refl, refl)

-- After an ack of all that the destination has sent so far, and until the agent sends bytes or a dial
-- ends, the actor is not woken, whether or not the request in flight has had its whole answer: not by the rest of the
-- answer, not by the destination's close, and not by the watchdog.
pub run-on_downstream_ack :
    (acts : List Act) (d : Bytes) (w : World)
    → All IsPassive acts
    → Holds w.session.down_buf d
    → wakes (run acts (on_downstream_ack (length d) w)).events ≡ wakes w.events
run-on_downstream_ack acts d w p h =
    (run-Quiet acts (on_downstream_ack (length d) w) p (ack-Quiet d w h)).1
