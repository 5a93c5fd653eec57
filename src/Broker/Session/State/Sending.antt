-- ===== src/Broker/Session/State/Sending.antt =====
-- internal/broker/session.go: what sending and tearing down leave alone.
use substrate_poc.Prelude.{
  ℕ, ◌≡◌, refl, ap, false, not, ◌&&◌, Option, none, some, arith, ◌==◌, length, Error, if-intro,
}
use substrate_poc.Tunnel.Frame.{Frame}
use substrate_poc.Broker.Session.State.{
  Session, World, wake, bound_to, undelivered, detach, write, detach_on_error, send_on,
  send_to_sidecar, maybe_destroy,
}

-- The two sessions differ in their tunnel connection at most.
abbrev pub SameButTconn : Session → Session → Type 0
SameButTconn s s' = (t : Option ℕ) × (s' ≡ record s { tconn = t })

pub detach-session : (tc : ℕ) (w : World) → SameButTconn w.session (detach tc w).session
unfolding detach
detach-session tc w =
    if-intro {A = World} (λ x. SameButTconn w.session x.session) (not (bound_to w.session.tconn tc))
      (λ _. (w.session.tconn, refl))
      (λ _.
        if-intro {A = World} (λ x. SameButTconn w.session x.session) (undelivered w.session)
          (λ _. (none, refl)) (λ _. (none, refl)))

detach_on_error-session :
    (tc : ℕ) (r : World × Option Error) → SameButTconn r.0.session (detach_on_error tc r).session
detach_on_error-session tc (w, none) = (w.session.tconn, refl)
detach_on_error-session tc (w, some e) = detach-session tc w

send_on-session :
    (t : Option ℕ) (f : Frame) (w : World) → SameButTconn w.session (send_on t f w).session
unfolding write
send_on-session none f w = (w.session.tconn, refl)
send_on-session (some tc) f w = detach_on_error-session tc (write tc f w)

-- Sending changes the session in its tunnel connection at most.
pub send_to_sidecar-session :
    (f : Frame) (w : World) → SameButTconn w.session (send_to_sidecar f w).session
unfolding send_to_sidecar
send_to_sidecar-session f w = send_on-session w.session.tconn f w

pub send_to_sidecar-upstream :
    (f : Frame) (w : World) → (send_to_sidecar f w).session.upstream ≡ w.session.upstream
send_to_sidecar-upstream f w = let (t, e) = send_to_sidecar-session f w in ap (λ s. s.upstream) e

-- While the destination may still send, nothing is torn down.
pub maybe_destroy-open : (w : World) → w.session.down_closed ≡ false → maybe_destroy w ≡ w
unfolding maybe_destroy
maybe_destroy-open w open_down =
    if-intro {A = World} (λ x. x ≡ w)
      (w.session.up_closed && w.session.down_closed && (length w.session.down_buf.buf == 0))
      (λ both. absurd (ground arith)) (λ _. refl)

pub detach-conns : (tc : ℕ) (w : World) → (detach tc w).conns ≡ w.conns
unfolding detach wake
detach-conns tc w =
    if-intro {A = World} (λ x. x.conns ≡ w.conns) (not (bound_to w.session.tconn tc)) (λ _. refl)
      (λ _.
        if-intro {A = World} (λ x. x.conns ≡ w.conns) (undelivered w.session) (λ _. refl)
          (λ _. refl))

pub detach-unbinds :
    (tc : ℕ) (w : World) → w.session.tconn ≡ some tc → (detach tc w).session.tconn ≡ none
unfolding detach wake
detach-unbinds tc w bound =
    if-intro {A = World} (λ x. x.session.tconn ≡ none) (not (bound_to w.session.tconn tc))
      (λ other. absurd (ground arith))
      (λ _.
        if-intro {A = World} (λ x. x.session.tconn ≡ none) (undelivered w.session) (λ _. refl)
          (λ _. refl))
