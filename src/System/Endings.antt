-- ===== src/System/Endings.antt =====
-- internal/broker/session.go in a run of the whole: the ends of a session and of its connections.
use substrate_poc.Prelude.{
  ℕ, ◌≤◌, refl, sym, ap, subst, true, not, ◌&&◌, none, arith, ◌==◌, ◌++◌, length, Bytes, codes,
  if-intro,
}
use substrate_poc.Tunnel.Frame.{dir_up, max_string}
use substrate_poc.Tunnel.Conn.{close_conn}
use substrate_poc.Broker.Session.State.{
  Cause, World, update_conn, wake, detach, close_socket, destroy, maybe_destroy, close_down,
  cause_reason, send_to_sidecar, is_bound, announce_close, close_upstream, watchdog_fires,
}
use substrate_poc.Broker.Session.State.Sending.{detach-session, detach-conns}
use substrate_poc.Broker.Session.Uplink.{
  close_write, half_close, on_sidecar_close, dial_upstream, dial_failed,
}
use substrate_poc.System.Air.{Carries-close_conn}
use substrate_poc.System.BrokerEnd.{
  Tells, Writing, IsWriting, Writing-tconn, update_conn-Carries, Goes, Goes-send, Goes-still,
}
use substrate_poc.System.Destination.{Writing-front, Uplinked-flags, Goes-fields, Goes-trans}

destroy-Goes : (u : Bytes) (w : World) → IsWriting u w → Goes u w (destroy w)
unfolding destroy
destroy-Goes u w h =
    if-intro {A = World} (Goes u w) w.session.dead (λ _. Goes-still u w h)
      (λ _. (
        Writing-front {s = w.session}
            (Uplinked-flags close_socket (λ up. refl) {s = w.session} refl refl refl refl h.front)
            (omega arith) refl refl h,
        omega arith,
      ))

maybe_destroy-Goes : (u : Bytes) (w : World) → IsWriting u w → Goes u w (maybe_destroy w)
unfolding maybe_destroy
maybe_destroy-Goes u w h =
    if-intro {A = World} (Goes u w)
      (w.session.up_closed && w.session.down_closed && (length w.session.down_buf.buf == 0))
      (λ _. destroy-Goes u w h) (λ _. Goes-still u w h)

half_close-Goes : (u : Bytes) (w : World) → IsWriting u w → Goes u w (half_close w)
half_close-Goes u w h = (
  Writing-front {s = w.session}
      (Uplinked-flags close_write (λ up. refl) {s = w.session} refl refl refl refl h.front)
      (omega arith) refl refl h,
  omega arith,
)

pub on_sidecar_close-Goes :
    (u : Bytes) (dir : ℕ) (w : World) → IsWriting u w → Goes u w (on_sidecar_close dir w)
unfolding on_sidecar_close
on_sidecar_close-Goes u dir w h =
    if-intro {A = World} (Goes u w) (dir == dir_up)
      (λ _.
        Goes-trans u w (half_close w) (maybe_destroy (half_close w)) (half_close-Goes u w h).1
          (maybe_destroy-Goes u (half_close w) (half_close-Goes u w h).0))
      (λ _. Goes-still u w h)

announce_close-Goes :
    (u : Bytes) (cause : Cause) (w : World)
    → length (cause_reason cause) ≤ max_string
    → IsWriting u w
    → Goes u w (announce_close cause w)
unfolding announce_close wake
announce_close-Goes u cause w short h =
    if-intro {A = World} (Goes u w) (is_bound w.session.tconn)
      (λ _.
        Goes-send u (close_down w.session.session_id (cause_reason cause)) w w (h.id_fits, short)
          ((λ e. absurd cc), (λ e. absurd cc)) (Goes-still u w h))
      (λ _.
        if-intro {A = World} (Goes u w) w.session.request_outstanding (λ _. Goes-still u w h)
          (λ _. Goes-still u w h))

pub close_upstream-Goes :
    (u : Bytes) (cause : Cause) (w : World)
    → length (cause_reason cause) ≤ max_string
    → IsWriting u w
    → Goes u w (close_upstream cause w)
unfolding close_upstream
close_upstream-Goes u cause w short h =
    let w₁ = record w { session = record w.session { down_closed = true } } in
    let h₁ = Goes-fields u w w₁ refl refl refl refl refl refl refl h in
    let h₂ = announce_close-Goes u cause w₁ short h₁.0 in
    if-intro {A = World} (Goes u w) w.session.down_closed (λ _. Goes-still u w h)
      (λ _.
        Goes-trans u w (announce_close cause w₁) (maybe_destroy (announce_close cause w₁)) h₂.1
          (maybe_destroy-Goes u (announce_close cause w₁) h₂.0))

-- A dial that fails: the agent's side is told, and the session ends.
pub dial_failed-Goes :
    (now : ℕ) (u text : Bytes) (w : World)
    → length (codes "dial failed: " ++ text) ≤ max_string
    → IsWriting u w
    → Goes u w (dial_upstream (dial_failed text) now w)
unfolding dial_upstream
dial_failed-Goes now u text w short h =
    let told = close_down w.session.session_id (codes "dial failed: " ++ text) in
    let h₁ =
      Goes-send u told w w (h.id_fits, short) ((λ e. absurd cc), (λ e. absurd cc))
        (Goes-still u w h) in
    Goes-trans u w (send_to_sidecar told w) (destroy (send_to_sidecar told w)) h₁.1
      (destroy-Goes u (send_to_sidecar told w) h₁.0)

pub detach-Goes : (u : Bytes) (tc : ℕ) (w : World) → IsWriting u w → Goes u w (detach tc w)
detach-Goes u tc w h =
    let (t, e) = detach-session tc w in
    (
      subst (Writing u (detach tc w).session) (sym (detach-conns tc w))
          (subst (λ s. Writing u s w.conns) (sym e) (Writing-tconn {s = w.session} t h)),
      omega (arith, ap (λ s. s.upstream_written) e),
    )

pub watchdog_fires-Goes : (u : Bytes) (w : World) → IsWriting u w → Goes u w (watchdog_fires w)
unfolding watchdog_fires wake
watchdog_fires-Goes u w h =
    let w₁ = record w { session = record w.session { watchdog = none } } in
    let h₁ = Goes-fields u w w₁ refl refl refl refl refl refl refl h in
    if-intro {A = World} (Goes u w)
      (not w.session.dead && (w.session.request_outstanding && not (is_bound w.session.tconn)))
      (λ _. h₁) (λ _. h₁)

pub broken-Goes :
    (u : Bytes) (tc : ℕ) (w : World)
    → IsWriting u w
    → Goes u w (record w { conns = update_conn w.conns tc (close_conn (w.conns tc)) })
broken-Goes u tc w h = (
  record {
    front = h.front;
    on_air =
        update_conn-Carries (Tells w.session.upstream_written) w.conns tc (close_conn (w.conns tc))
          h.on_air (Carries-close_conn (w.conns tc) (h.on_air tc));
    id_fits = h.id_fits;
    narrow = h.narrow;
    capped = h.capped;
  },
  omega arith,
)
