-- ===== src/Broker/Session/Uplink/DialWindow.antt =====
-- internal/broker/session.go: what reaches a session around the end of its dial.
-- `dialUpstream` sets `connected` in one critical section, writes the queue with no lock held, and
-- counts it in a second one; frames are handled in between.
use mathlib.Core.Option
use substrate_poc.Prelude.{
  ℕ, ◌<◌, ◌≡◌, refl, ap, ◌∙◌, ◌≢◌, true, false, Option, none, some, [], ◌∷◌, arith, length, Bytes,
  if-intro,
}
use substrate_poc.Tunnel.Frame.{dir_up}
use substrate_poc.Broker.Session.State.{Upstream, World, wrote, fresh_upstream, arm_watchdog}
use substrate_poc.Broker.Session.State.Sending.{maybe_destroy-open, send_to_sidecar-upstream}
use substrate_poc.Broker.Session.Uplink.{
  on_data, on_data_write, fresh_part, dial_upstream, dial_ok, dial_connected, dial_flush,
  flush_if_alive, on_sidecar_close, close_write,
}

fresh_part-gap :
    (offset written : ℕ) (payload : Bytes)
    → written < offset
    → fresh_part offset payload written ≡ none
unfolding fresh_part
fresh_part-gap offset written payload h = ground arith

length-pos : (xs : Bytes) → xs ≢ [] → 0 < length xs
length-pos [] h = absurd (h refl)
length-pos (x ∷ xs) h = omega arith

-- The agent's next bytes, right behind the queue, are dropped if their DATA is handled between the two
-- sections: nothing is written, queued or acknowledged, and the session does not change. The session is
-- alive, nothing was written before, and the queue is not empty.
pub on_data-dial_connected :
    (now now' : ℕ) (payload : Bytes) (w : World)
    → w.session.dead ≡ false
    → w.session.upstream_written ≡ 0
    → w.session.pre_conn ≢ []
    → on_data now' wrote (length w.session.pre_conn) payload (dial_connected now w).0
      ≡ (dial_connected now w).0
unfolding dial_connected on_data
on_data-dial_connected now now' payload w alive zero_yet queue =
    if-intro {A = World × Option Bytes}
      (λ r. on_data now' wrote (length w.session.pre_conn) payload r.0 ≡ r.0) w.session.dead
      (λ dead. cc)
      (λ _.
        if-intro (λ r. on_data_write now' wrote r ≡ connected_now) w.session.dead (λ dead. cc)
          (λ _.
            ap (λ o. on_data_write now' wrote (connected_now, o))
              (fresh_part-gap (length w.session.pre_conn) w.session.upstream_written payload
                (omega (arith, length-pos w.session.pre_conn queue)))))
  where
    connected_now : World
    connected_now = record w {
      session =
          arm_watchdog now
            (record w.session { upstream = some fresh_upstream; connected = true; pre_conn = [] });
    }

OpenUp : Option Upstream → Type 0
OpenUp u = (up : Upstream) × (u ≡ some up) × (up.write_closed ≡ false)

OpenUp-flush :
    (pre : Bytes) (w : World)
    → w.session.upstream ≡ some fresh_upstream
    → OpenUp (dial_flush pre wrote w).session.upstream
unfolding dial_flush OpenUp
OpenUp-flush [] w new = (fresh_upstream, new, refl)
OpenUp-flush (x ∷ pre) w new =
    (record fresh_upstream { written = x ∷ pre }, send_to_sidecar-upstream _ _ ∙ rw new, refl)

on_sidecar_close-waiting :
    (w : World)
    → w.session.down_closed ≡ false
    → on_sidecar_close dir_up w ≡ record w {
      session = record w.session {
        up_closed = true;
        upstream = Option.map close_write w.session.upstream;
      };
    }
unfolding on_sidecar_close
on_sidecar_close-waiting w open_down = maybe_destroy-open _ open_down

-- A CLOSE from the agent that is handled before the dial completes is recorded, and the dial does not carry it
-- out: behind it the destination's stream was not shut down. The session is alive and its destination has not
-- closed, and the dial and its write go well.
pub dial_upstream-forgets_close :
    (now : ℕ) (w : World)
    → w.session.dead ≡ false
    → w.session.upstream ≡ none
    → w.session.down_closed ≡ false
    → ((on_sidecar_close dir_up w).session.up_closed ≡ true)
      × ((up : Upstream) × ((dial_upstream
              (dial_ok wrote)
              now
              (on_sidecar_close dir_up w)).session.upstream
            ≡ some up)
          × (up.write_closed ≡ false))
unfolding dial_upstream OpenUp
dial_upstream-forgets_close now w alive none_yet open_down =
    rw (on_sidecar_close-waiting w open_down) (
      refl,
      if-intro (λ r. OpenUp (flush_if_alive wrote r).session.upstream) w.session.dead (λ dead. cc)
          (λ _. OpenUp-flush w.session.pre_conn _ refl),
    )
