-- ===== src/Broker/Session/Lifetime/Acts.antt =====
-- internal/broker/session.go: the end of a session, over whatever happens to it.
use substrate_poc.Prelude.{
  ◌⊎◌, inl, inr, false, All, ℕ, zero, suc, ◌+◌, ◌-◌, ◌%◌, ◌≡◌, refl, arith, subst, true, not, ◌&&◌,
  Option, none, some, List, [], ◌∷◌, ◌++◌, ltb, leb, ◌==◌, length, take, drop, Bytes, u64_mod,
  codes, Error, ok, >>=-eq-ok, ok-injective, if-intro, result-intro,
}
use substrate_poc.Tunnel.Frame.{Frame, dir_up}
use substrate_poc.Tunnel.Buffer
use substrate_poc.Broker.Session.State.{
  Outcome, Cause, Session, World, bind, write, send_to_sidecar, close_down, is_bound, arm_watchdog,
  watchdog_fires, wrote, failed, broken,
}
use substrate_poc.Broker.Session.Downlink.{
  data_at, Produced, take_size, unbind_on_error, forward_on, forward, wake_if_pending,
  produce_chunk, produce_loop, produce_downstream, on_downstream_ack, attach_answer,
  on_sidecar_attach, finished, blocked, died, refused, stuck,
}
use substrate_poc.Broker.Session.Downlink.Produce.{after_chunk}
use substrate_poc.Broker.Session.Uplink.{
  ack_at, write_upstream, dial_connected, dial_flushed, dial_flush, Dialed, flush_if_alive,
  dial_upstream, queue_pre_conn, on_data_accept, on_data_written, on_data_write, on_data,
  half_close, on_sidecar_close, dial_failed, dial_ok,
}
use substrate_poc.Broker.Session.{
  after_produce, read_upstream, Act, act, run, binds, detaches, dials, data_comes, acks, attaches,
  closes, reads, fires,
}
use substrate_poc.Broker.Session.Lifetime.{
  IsTidy, IsTidyAs, WriteOpen-write, Origin, IsTidy-same, AllClosed-write, AllClosed-half,
  IsTidy-wake, IsTidy-detach, IsTidy-send, IsTidy-send_all, IsTidy-destroy, IsTidy-maybe_destroy,
  IsTidy-close_upstream,
}

-- The sidecar sends no CLOSE.
abbrev pub IsNoClose : Act → Type 0
IsNoClose (binds tc) = Unit {0}
IsNoClose (detaches tc) = Unit {0}
IsNoClose (dials dialed now) = Unit {0}
IsNoClose (data_comes now outcome offset payload) = Unit {0}
IsNoClose (acks offset) = Unit {0}
IsNoClose (attaches delivered) = Unit {0}
IsNoClose (closes dir) = ⊥
IsNoClose (reads p cause) = Unit {0}
IsNoClose fires = Unit {0}

module _ {o : Origin} where
  IsTidy-wake_if_pending : (w : World) → IsTidyAs o w → IsTidyAs o (wake_if_pending w)
  unfolding wake_if_pending
  IsTidy-wake_if_pending w h =
      if-intro {A = World} (IsTidyAs o)
        (not (is_bound w.session.tconn) && w.session.request_outstanding)
        (λ _. IsTidy-wake (codes "downstream data on pending session") w h) (λ _. h)

  IsTidy-unbind : (r : World × Option Error) → IsTidyAs o r.0 → IsTidyAs o (unbind_on_error r)
  IsTidy-unbind (w, none) h = h
  IsTidy-unbind (w, some e) h =
      IsTidy-same h (record w { session = record w.session { tconn = none } }) refl refl refl refl
        refl refl

  IsTidy-forward_on :
      (t : Option ℕ) (f : Frame) (w : World) → IsTidyAs o w → IsTidyAs o (forward_on t f w)
  unfolding write
  IsTidy-forward_on none f w h = h
  IsTidy-forward_on (some tc) f w h =
      IsTidy-unbind (write tc f w) (IsTidy-same h (write tc f w).0 refl refl refl refl refl refl)

  IsTidy-produce_chunk :
      (chunk : Bytes) (w : World) {w' : World}
      → IsTidyAs o w
      → produce_chunk chunk w ≡ ok w'
      → IsTidyAs o w'
  unfolding produce_chunk forward
  IsTidy-produce_chunk chunk w h e =
      let (buf, e₁, e₂) = >>=-eq-ok (Buffer.append w.session.down_buf chunk) _ e in
      let taken = record w { session = record w.session { down_buf = buf } } in
      let f = data_at w.session.session_id (Buffer.end w.session.down_buf) chunk in
      subst (IsTidyAs o) (ok-injective e₂) (
        IsTidy-wake_if_pending (forward_on w.session.tconn f taken) (
          IsTidy-forward_on w.session.tconn f taken
            (IsTidy-same h taken refl refl refl refl refl refl)))

  IsTidy-produce_loop :
      (fuel : ℕ) (p : Bytes) (w : World) → IsTidyAs o w → IsTidyAs o (produce_loop fuel p w).0
  unfolding produce_loop
  IsTidy-produce_loop zero p w h = h
  IsTidy-produce_loop (suc fuel) [] w h = h
  IsTidy-produce_loop (suc fuel) (x ∷ xs) w h =
      if-intro {A = World × Produced} (λ r. IsTidyAs o r.0) w.session.dead (λ _. h)
        (λ _.
          if-intro {A = World × Produced} (λ r. IsTidyAs o r.0)
            (Buffer.free w.session.down_buf == 0) (λ _. h)
            (λ _.
              let chunk = take (take_size w (x ∷ xs)) (x ∷ xs) in
              result-intro (λ c. IsTidyAs o (after_chunk fuel (x ∷ xs) w c).0)
                (produce_chunk chunk w)
                (λ w' e.
                  IsTidy-produce_loop fuel (drop (take_size w (x ∷ xs)) (x ∷ xs)) w'
                    (IsTidy-produce_chunk chunk w h e))
                (λ _ _. h)))

  IsTidy-after_produce :
      (cause : Option Cause) (r : World × Produced)
      → IsTidyAs o r.0
      → IsTidyAs o (after_produce cause r)
  unfolding after_produce
  IsTidy-after_produce none (w, finished) h = h
  IsTidy-after_produce (some cause) (w, finished) h = IsTidy-close_upstream cause w h
  IsTidy-after_produce cause (w, blocked left) h = h
  IsTidy-after_produce cause (w, died) h = IsTidy-destroy w h
  IsTidy-after_produce cause (w, refused e) h = IsTidy-destroy w h
  IsTidy-after_produce cause (w, stuck) h = h

  IsTidy-write_upstream :
      (outcome : Outcome) (p : Bytes) (w : World)
      → IsTidyAs o w
      → IsTidyAs o (write_upstream outcome p w)
  IsTidy-write_upstream outcome p w h = record {
    counted = h.counted;
    shut = λ dead. AllClosed-write outcome p w.session.upstream (h.shut dead);
    owned = h.owned;
    numbered = h.numbered;
    untold = λ on. ((h.untold on).0, WriteOpen-write outcome p w.session.upstream (h.untold on).1);
  }

  IsTidy-dial_connected : (now : ℕ) (w : World) → IsTidyAs o w → IsTidyAs o (dial_connected now w).0
  unfolding dial_connected arm_watchdog
  IsTidy-dial_connected now w h =
      if-intro {A = World × Option Bytes} (λ r. IsTidyAs o r.0) w.session.dead (λ _. h)
        (λ alive. record {
          counted = h.counted;
          shut = λ dead. absurd cc;
          owned = h.owned;
          numbered = h.numbered;
          untold = λ on. ((h.untold on).0, refl);
        })

  IsTidy-dial_flush :
      (pre : Bytes) (outcome : Outcome) (w : World)
      → IsTidyAs o w
      → IsTidyAs o (dial_flush pre outcome w)
  unfolding dial_flush dial_flushed
  IsTidy-dial_flush [] outcome w h = h
  IsTidy-dial_flush (x ∷ pre) wrote w h =
      let w₁ = write_upstream wrote (x ∷ pre) w in
      let n = (w₁.session.upstream_written + length (x ∷ pre)) % u64_mod in
      let w₂ = record w₁ {
        session = record w₁.session { upstream_written = n; request_outstanding = true };
      } in
      IsTidy-send (ack_at w₁.session.session_id n) w₂
        (IsTidy-same (IsTidy-write_upstream wrote (x ∷ pre) w h) w₂ refl refl refl refl refl refl)
  IsTidy-dial_flush (x ∷ pre) (failed n text) w h =
      IsTidy-close_upstream (broken text) (write_upstream (failed n text) (x ∷ pre) w)
        (IsTidy-write_upstream (failed n text) (x ∷ pre) w h)

  IsTidy-flush_if_alive :
      (outcome : Outcome) (r : World × Option Bytes)
      → IsTidyAs o r.0
      → IsTidyAs o (flush_if_alive outcome r)
  IsTidy-flush_if_alive outcome (w, none) h = h
  IsTidy-flush_if_alive outcome (w, some pre) h = IsTidy-dial_flush pre outcome w h

  IsTidy-dial_upstream :
      (dialed : Dialed) (now : ℕ) (w : World)
      → IsTidyAs o w
      → IsTidyAs o (dial_upstream dialed now w)
  unfolding dial_upstream
  IsTidy-dial_upstream (dial_failed text) now w h =
      let f = close_down w.session.session_id (codes "dial failed: " ++ text) in
      IsTidy-destroy (send_to_sidecar f w) (IsTidy-send f w h)
  IsTidy-dial_upstream (dial_ok outcome) now w h =
      IsTidy-flush_if_alive outcome (dial_connected now w) (IsTidy-dial_connected now w h)

  IsTidy-on_data_accept :
      (offset : ℕ) (payload : Bytes) (w : World)
      → IsTidyAs o w
      → IsTidyAs o (on_data_accept offset payload w).0
  unfolding on_data_accept queue_pre_conn
  IsTidy-on_data_accept offset payload w h =
      let s = w.session in
      let accepted = (s.upstream_written + length s.pre_conn) % u64_mod in
      let P = λ (s' : Session). IsTidyAs o (record w { session = s' }) in
      if-intro {A = World × Option Bytes} (λ r. IsTidyAs o r.0) s.dead (λ _. h)
        (λ _.
          if-intro {A = World × Option Bytes} (λ r. IsTidyAs o r.0) (not s.connected)
            (λ _.
              if-intro {A = Session} P (ltb offset accepted)
                (λ _.
                  if-intro {A = Session} P (leb (length payload) (accepted - offset)) (λ _. h)
                    (λ _.
                      IsTidy-same h
                        (record w {
                          session = record s {
                            pre_conn = s.pre_conn ++ drop (accepted - offset) payload;
                          };
                        })
                        refl refl refl refl refl refl))
                (λ _.
                  if-intro {A = Session} P (ltb accepted offset) (λ _. h)
                    (λ _.
                      IsTidy-same h
                        (record w { session = record s { pre_conn = s.pre_conn ++ payload } }) refl
                        refl refl refl refl refl)))
            (λ _. h))

  IsTidy-on_data_write :
      (now : ℕ) (outcome : Outcome) (r : World × Option Bytes)
      → IsTidyAs o r.0
      → IsTidyAs o (on_data_write now outcome r)
  unfolding on_data_write on_data_written arm_watchdog
  IsTidy-on_data_write now outcome (w, none) h = h
  IsTidy-on_data_write now wrote (w, some p) h =
      let w₁ = write_upstream wrote p w in
      let n = (w₁.session.upstream_written + length p) % u64_mod in
      let w₂ = record w₁ {
        session =
            arm_watchdog now
              (record w₁.session { upstream_written = n; request_outstanding = true });
      } in
      IsTidy-send (ack_at w₁.session.session_id n) w₂
        (IsTidy-same (IsTidy-write_upstream wrote p w h) w₂ refl refl refl refl refl refl)
  IsTidy-on_data_write now (failed n text) (w, some p) h =
      IsTidy-close_upstream (broken text) (write_upstream (failed n text) p w)
        (IsTidy-write_upstream (failed n text) p w h)

  IsTidy-half_close : (w : World) → o.stays ≡ false → IsTidyAs o w → IsTidyAs o (half_close w)
  IsTidy-half_close w off h = record {
    counted = h.counted;
    shut = λ dead. AllClosed-half w.session.upstream (h.shut dead);
    owned = h.owned;
    numbered = h.numbered;
    untold = λ on. absurd (cc (on, off));
  }

  pub IsTidy-act :
      (a : Act) (w : World) → (o.stays ≡ false) ⊎ IsNoClose a → IsTidyAs o w → IsTidyAs o (act a w)
  unfolding act bind on_downstream_ack on_sidecar_attach on_sidecar_close read_upstream
      produce_downstream watchdog_fires on_data
  IsTidy-act (binds tc) w may h = IsTidy-same h (bind tc w) refl refl refl refl refl refl
  IsTidy-act (detaches tc) w may h = IsTidy-detach tc w h
  IsTidy-act (dials dialed now) w may h = IsTidy-dial_upstream dialed now w h
  IsTidy-act (data_comes now outcome offset payload) w may h =
      IsTidy-on_data_write now outcome (on_data_accept offset payload w)
        (IsTidy-on_data_accept offset payload w h)
  IsTidy-act (acks offset) w may h =
      IsTidy-same h (on_downstream_ack offset w) refl refl refl refl refl refl
  IsTidy-act (attaches delivered) w may h = IsTidy-send_all (attach_answer delivered w.session) w h
  IsTidy-act (closes dir) w (inr never) h = absurd never
  IsTidy-act (closes dir) w (inl off) h =
      if-intro {A = World} (IsTidyAs o) (dir == dir_up)
        (λ _. IsTidy-maybe_destroy (half_close w) (IsTidy-half_close w off h)) (λ _. h)
  IsTidy-act (reads p cause) w may h =
      IsTidy-after_produce cause (produce_downstream p w)
        (IsTidy-produce_loop (suc (length p)) p w h)
  IsTidy-act fires w may h =
      let off = record w { session = record w.session { watchdog = none } } in
      let tidy = IsTidy-same h off refl refl refl refl refl refl in
      if-intro {A = World} (IsTidyAs o)
        (not w.session.dead && (w.session.request_outstanding && not (is_bound w.session.tconn)))
        (λ _. IsTidy-wake (codes "max-suspend watchdog") off tidy) (λ _. tidy)

abbrev pub origin_of : World → Origin
origin_of w = record {
  gone = 0;
  owner = w.session.actor_id;
  number = w.session.session_id;
  stays = false;
}

run-IsTidyAs :
    {o : Origin} (acts : List Act) (w : World)
    → o.stays ≡ false
    → IsTidyAs o w
    → IsTidyAs o (run acts w)
unfolding run
run-IsTidyAs [] w off h = h
run-IsTidyAs (a ∷ acts) w off h = run-IsTidyAs acts (act a w) off (IsTidy-act a w (inl off) h)

pub run-untold :
    {o : Origin} (acts : List Act) (w : World)
    → All IsNoClose acts
    → IsTidyAs o w
    → IsTidyAs o (run acts w)
unfolding run
run-untold [] w kept h = h
run-untold (a ∷ acts) w kept h = run-untold acts (act a w) kept.1 (IsTidy-act a w (inr kept.0) h)

-- Whatever happens to a session, in any order, each handler as a whole: it is taken off the broker's
-- table exactly when it dies, once, and the connection to the destination of a dead session is closed, if
-- both were so at the start.
pub run-IsTidy : (acts : List Act) (w : World) → IsTidy w → IsTidy (run acts w)
run-IsTidy acts w h =
    let start : IsTidyAs (origin_of w) w = record {
      counted = omega (arith, h.counted);
      shut = h.shut;
      owned = refl;
      numbered = refl;
      untold = λ on. absurd cc;
    } in
    let end = run-IsTidyAs acts w refl start in
    record { counted = omega (arith, end.counted); shut = end.shut }
