-- ===== src/System/Source.antt =====
-- internal/broker/session.go in a run of the whole: what comes from the destination.
use substrate_poc.Prelude.{
  ℕ, zero, suc, ◌+◌, ◌≤◌, ◌≡◌, refl, sym, subst, inl, inr, not, ◌&&◌, Option, none, some, [], ◌∷◌,
  ◌++◌, arith, ltb, ◌==◌, Bool-cases, length, take, drop, length-append, Bytes, IsU64, Error,
  Result, ok, err, >>=-eq-ok, if-intro, result-intro, ok-injective,
}
use substrate_poc.Tunnel.Frame.{max_payload, Frame}
use substrate_poc.Tunnel.Buffer
use substrate_poc.Tunnel.Buffer.{ReplayBuffer}
use substrate_poc.Tunnel.Conn.Delivery.{FrameFits}
use substrate_poc.Broker.Session.State.{World, wake, write, is_bound}
use substrate_poc.Broker.Session.Downlink.{
  data_at, Produced, take_size, unbind_on_error, forward_on, forward, wake_if_pending,
  produce_chunk, produce_loop, produce_downstream, refused,
}
use substrate_poc.System.BrokerEnd.{
  Tells, IsWriting, Writing-tconn, write-Carries, Goes, Goes-still,
}
use substrate_poc.System.Destination.{Uplinked-fields, Goes-trans}

unbind_on_error-Goes :
    (u : Bytes) (w : World) (r : World × Option Error) → Goes u w r.0 → Goes u w (unbind_on_error r)
unbind_on_error-Goes u w (w', none) h = h
unbind_on_error-Goes u w (w', some e) h = (Writing-tconn {s = w'.session} none h.0, h.1)

forward_on-Goes :
    (u : Bytes) (t : Option ℕ) (f : Frame) (w : World)
    → (length f.payload ≤ max_payload → FrameFits f × Tells w.session.upstream_written f)
    → length f.payload ≤ max_payload
    → IsWriting u w
    → Goes u w (forward_on t f w)
unfolding write
forward_on-Goes u none f w says short h = Goes-still u w h
forward_on-Goes u (some tc) f w says short h = unbind_on_error-Goes u w (write tc f w) (
  record {
    front = h.front;
    on_air =
        write-Carries (Tells w.session.upstream_written) tc f w (says short).0 (says short).1
          h.on_air;
    id_fits = h.id_fits;
    narrow = h.narrow;
    capped = h.capped;
  },
  omega arith,
)

end-IsU64 : (b : ReplayBuffer) → IsU64 (Buffer.end b)
unfolding Buffer.end
end-IsU64 b = omega arith

forward-Goes :
    (u : Bytes) (offset : ℕ) (chunk : Bytes) (w : World)
    → IsU64 offset
    → length chunk ≤ max_payload
    → IsWriting u w
    → Goes u w (forward offset chunk w)
unfolding forward
forward-Goes u offset chunk w small short h =
    forward_on-Goes u w.session.tconn (data_at w.session.session_id offset chunk) w
      (λ short. ((h.id_fits, small, short), ((λ e. absurd cc), (λ e. absurd cc)))) short h

wake_if_pending-Goes : (u : Bytes) (w w' : World) → Goes u w w' → Goes u w (wake_if_pending w')
unfolding wake_if_pending wake
wake_if_pending-Goes u w w' h =
    if-intro {A = World} (Goes u w)
      (not (is_bound w'.session.tconn) && w'.session.request_outstanding) (λ _. h) (λ _. h)

-- A chunk that is appended fits the buffer.
append-capped :
    (b : ReplayBuffer) (chunk : Bytes) {b' : ReplayBuffer}
    → Buffer.append b chunk ≡ ok b'
    → (b' ≡ record b { buf = b.buf ++ chunk }) × (length b.buf + length chunk ≤ b.max)
unfolding Buffer.append
append-capped b chunk {b'} e = elim (Bool-cases (ltb b.max (length b.buf + length chunk))) [
  | inl over ↦ absurd cc
  | inr fits ↦ (ground (arith, fits), ground (arith, fits))
]

IsWriting-appended :
    (u chunk : Bytes) (w : World)
    → length w.session.down_buf.buf + length chunk ≤ w.session.down_buf.max
    → IsWriting u w
    → IsWriting u (record w {
      session = record w.session {
        down_buf = record w.session.down_buf { buf = w.session.down_buf.buf ++ chunk };
      };
    })
IsWriting-appended u chunk w fits h = record {
  front = Uplinked-fields {s = w.session} refl refl refl refl h.front;
  on_air = h.on_air;
  id_fits = h.id_fits;
  narrow = h.narrow;
  capped = omega (arith, length-append w.session.down_buf.buf chunk);
}

produce_chunk-Goes :
    (u chunk : Bytes) (w : World) {w' : World}
    → IsWriting u w
    → produce_chunk chunk w ≡ ok w'
    → Goes u w w'
unfolding produce_chunk
produce_chunk-Goes u chunk w {w'} h e =
    let (buf, e₁, e₂) = >>=-eq-ok (Buffer.append w.session.down_buf chunk) _ e in
    let (same, fits) = append-capped w.session.down_buf chunk e₁ in
    let w₁ = record w { session = record w.session { down_buf = buf } } in
    let h₁ : IsWriting u w₁ =
      subst
        (λ (b : ReplayBuffer).
          IsWriting u (record w { session = record w.session { down_buf = b } }))
        (sym same) (IsWriting-appended u chunk w fits h) in
    subst (Goes u w) (ok-injective e₂) (
      wake_if_pending-Goes u w (forward (Buffer.end w.session.down_buf) chunk w₁) (
        forward-Goes u (Buffer.end w.session.down_buf) chunk w₁ (end-IsU64 w.session.down_buf)
          (omega (arith, h.narrow)) h₁))

-- The loop behind a chunk, as `produce_loop` goes on.
abbrev goes_on : ℕ → Bytes → World → Result World → World × Produced
goes_on fuel p w c = elim c [
  | err e ↦ (w, refused e)
  | ok w' ↦ produce_loop fuel (drop (take_size w p) p) w'
]

produce_loop-Goes :
    (u : Bytes) (fuel : ℕ) (p : Bytes) (w : World)
    → IsWriting u w
    → Goes u w (produce_loop fuel p w).0
unfolding produce_loop
produce_loop-Goes u zero p w h = Goes-still u w h
produce_loop-Goes u (suc fuel) [] w h = Goes-still u w h
produce_loop-Goes u (suc fuel) (x ∷ xs) w h =
    let p = x ∷ xs in
    let n = take_size w p in
    if-intro {A = World × Produced} (λ r. Goes u w r.0) w.session.dead (λ _. Goes-still u w h)
      (λ _.
        if-intro {A = World × Produced} (λ r. Goes u w r.0) (Buffer.free w.session.down_buf == 0)
          (λ _. Goes-still u w h)
          (λ _.
            result-intro (λ (c : Result World). Goes u w (goes_on fuel p w c).0)
              (produce_chunk (take n p) w)
              (λ w' e.
                let h' = produce_chunk-Goes u (take n p) w h e in
                Goes-trans u w w' (produce_loop fuel (drop n p) w').0 h'.1
                  (produce_loop-Goes u fuel (drop n p) w' h'.0))
              (λ e _. Goes-still u w h)))

pub produce_downstream-Goes :
    (u p : Bytes) (w : World) → IsWriting u w → Goes u w (produce_downstream p w).0
unfolding produce_downstream
produce_downstream-Goes u p w h = produce_loop-Goes u (suc (length p)) p w h
