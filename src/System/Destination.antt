-- ===== src/System/Destination.antt =====
-- internal/broker/session.go in a run of the whole: the destination's socket.
use mathlib.Core.Option
use substrate_poc.Prelude.{
  ℕ, ◌+◌, ◌-◌, ◌%◌, ◌≤◌, ◌<◌, ◌≡◌, refl, sym, ap, subst, ◌∙◌, true, false, not, Option, some, [],
  ◌∷◌, ◌++◌, arith, ltb, leb, length, take, drop, Bytes, u64_mod, IsU64, if-intro, option-intro,
  IsSlice,
}
use substrate_poc.Tunnel.Frame.{max_payload}
use substrate_poc.Tunnel.Buffer.{ReplayBuffer}
use substrate_poc.Tunnel.Conn.{Conn}
use substrate_poc.Broker.Session.State.{
  Upstream, fresh_upstream, Session, World, arm_watchdog, wrote,
}
use substrate_poc.Broker.Session.Uplink.{
  ack_at, write_upstream, dial_connected, dial_flushed, dial_flush, queue_pre_conn, fresh_part,
  on_data_accept, on_data_written, on_data_write, on_data,
}
use substrate_poc.Broker.Session.Uplink.ExactlyOnce.{
  Uplinked, fresh_part-IsSlice, Uplinked-queue, counted, written_sum, Uplinked-counted,
}
use substrate_poc.System.Air.{Carries-weaken}
use substrate_poc.System.BrokerEnd.{Writing, IsWriting, Goes, Goes-send, Goes-still}

-- The same session with another front, which is no shorter.
pub Writing-front :
    {u : Bytes} {s s' : Session} {conns : ℕ → Conn}
    → Uplinked s' u
    → s.upstream_written ≤ s'.upstream_written
    → s'.session_id ≡ s.session_id
    → s'.down_buf ≡ s.down_buf
    → Writing u s conns
    → Writing u s' conns
Writing-front front more id buf h = record {
  front = front;
  on_air = λ tc.
      Carries-weaken
        (λ f says. ((λ e. omega (arith, more, says.0 e)), (λ e. omega (arith, more, says.1 e))))
        (h.on_air tc);
  id_fits = subst IsU64 (sym id) h.id_fits;
  narrow = subst (λ (b : ReplayBuffer). b.max ≤ max_payload) (sym buf) h.narrow;
  capped = subst (λ (b : ReplayBuffer). length b.buf ≤ b.max) (sym buf) h.capped;
}

-- The front with the connection's flags changed.
pub Uplinked-flags :
    (g : Upstream → Upstream) (keeps : (up : Upstream) → (g up).written ≡ up.written) {u : Bytes}
    {s s' : Session}
    → s'.connected ≡ s.connected
    → s'.upstream_written ≡ s.upstream_written
    → s'.pre_conn ≡ s.pre_conn
    → s'.upstream ≡ Option.map g s.upstream
    → Uplinked s u
    → Uplinked s' u
Uplinked-flags g keeps {u} {s} {s'} conn written queue dest h = record {
  small = h.small;
  before = λ off.
      let (none_yet, zero_yet, le, front) = h.before (sym conn ∙ off) in
      (
        dest ∙ ap (Option.map g) none_yet,
        written ∙ zero_yet,
        subst (λ (q : Bytes). length q ≤ length u) (sym queue) le,
        subst (λ (q : Bytes). q ≡ take (length q) u) (sym queue) front,
      );
  after = λ on.
      let (up, have, le, front) = h.after (sym conn ∙ on) in
      (
        g up,
        dest ∙ ap (Option.map g) have,
        omega (arith, written, le),
        keeps up ∙ front ∙ ap (λ n. take n u) (sym written),
      );
}

pub Uplinked-fields :
    {u : Bytes} {s s' : Session}
    → s'.connected ≡ s.connected
    → s'.upstream_written ≡ s.upstream_written
    → s'.pre_conn ≡ s.pre_conn
    → s'.upstream ≡ s.upstream
    → Uplinked s u
    → Uplinked s' u
Uplinked-fields {u} {s} {s'} conn written queue dest h = record {
  small = h.small;
  before = λ off.
      let (none_yet, zero_yet, le, front) = h.before (sym conn ∙ off) in
      (
        dest ∙ none_yet,
        written ∙ zero_yet,
        subst (λ (q : Bytes). length q ≤ length u) (sym queue) le,
        subst (λ (q : Bytes). q ≡ take (length q) u) (sym queue) front,
      );
  after = λ on.
      let (up, have, le, front) = h.after (sym conn ∙ on) in
      (up, dest ∙ have, omega (arith, written, le), front ∙ ap (λ n. take n u) (sym written));
}

-- The session changed in what neither the front nor the frames depend on.
pub Goes-fields :
    (u : Bytes) (w w' : World)
    → w'.session.connected ≡ w.session.connected
    → w'.session.upstream_written ≡ w.session.upstream_written
    → w'.session.pre_conn ≡ w.session.pre_conn
    → w'.session.upstream ≡ w.session.upstream
    → w'.session.session_id ≡ w.session.session_id
    → w'.session.down_buf ≡ w.session.down_buf
    → w'.conns ≡ w.conns
    → IsWriting u w
    → Goes u w w'
Goes-fields u w w' conn written queue dest id buf conns h = (
  subst (Writing u w'.session) (sym conns) (
      Writing-front {s = w.session} (Uplinked-fields conn written queue dest h.front)
        (omega (arith, written)) id buf h),
  omega (arith, written),
)

pub Goes-trans :
    (u : Bytes) (w₁ w₂ w₃ : World)
    → w₁.session.upstream_written ≤ w₂.session.upstream_written
    → Goes u w₂ w₃
    → Goes u w₁ w₃
Goes-trans u w₁ w₂ w₃ le h = (h.0, omega (arith, le, h.1))

on_data_written-Goes :
    (now : ℕ) (w : World) (u p : Bytes)
    → w.session.connected ≡ true
    → IsWriting u w
    → IsSlice u w.session.upstream_written p
    → Goes u w (on_data_written now p (write_upstream wrote p w))
unfolding on_data_written arm_watchdog
on_data_written-Goes now w u p on h slice =
    let sum = written_sum w u p h.front slice in
    let w' = record w { session = counted now p w } in
    let more : w.session.upstream_written ≤ w'.session.upstream_written = omega (arith, sum) in
    Goes-send u (ack_at w.session.session_id w'.session.upstream_written) w w'
      (h.id_fits, omega arith) ((λ e. omega arith), (λ e. omega arith))
      (
        Writing-front {s = w.session} (Uplinked-counted now w u p on h.front slice) more refl refl
            h,
        more,
      )

queue_pre_conn-pre_conn :
    (offset : ℕ) (payload : Bytes) (s : Session)
    → (q : Bytes) × (queue_pre_conn offset payload s ≡ record s { pre_conn = q })
unfolding queue_pre_conn
queue_pre_conn-pre_conn offset payload s =
    let P = λ (s' : Session). (q : Bytes) × (s' ≡ record s { pre_conn = q }) in
    let accepted = (s.upstream_written + length s.pre_conn) % u64_mod in
    if-intro {A = Session} P (ltb offset accepted)
      (λ _.
        if-intro {A = Session} P (leb (length payload) (accepted - offset))
          (λ _. (s.pre_conn, refl)) (λ _. (s.pre_conn ++ drop (accepted - offset) payload, refl)))
      (λ _.
        if-intro {A = Session} P (ltb accepted offset) (λ _. (s.pre_conn, refl))
          (λ _. (s.pre_conn ++ payload, refl)))

queue_pre_conn-Goes :
    (offset : ℕ) (payload : Bytes) (w : World) (u : Bytes)
    → Uplinked (queue_pre_conn offset payload w.session) u
    → IsWriting u w
    → Goes u w (record w { session = queue_pre_conn offset payload w.session })
queue_pre_conn-Goes offset payload w u front h =
    let (q, e) = queue_pre_conn-pre_conn offset payload w.session in
    let more = ap (λ (s : Session). s.upstream_written) e in
    (
      Writing-front {s = w.session} front (omega (arith, more)) (ap (λ s. s.session_id) e)
          (ap (λ s. s.down_buf) e) h,
      omega (arith, more),
    )

pub on_data-Goes :
    (now offset : ℕ) (payload : Bytes) (w : World) (u : Bytes)
    → IsSlice u offset payload
    → IsWriting u w
    → Goes u w (on_data now wrote offset payload w)
unfolding on_data on_data_accept on_data_write
on_data-Goes now offset payload w u slice h =
    if-intro (λ r. Goes u w (on_data_write now wrote r)) w.session.dead (λ _. Goes-still u w h)
      (λ _.
        if-intro (λ r. Goes u w (on_data_write now wrote r)) (not w.session.connected)
          (λ off.
            queue_pre_conn-Goes offset payload w u
              (Uplinked-queue offset payload w.session u (ground arith) h.front slice) h)
          (λ on.
            option-intro (λ o. Goes u w (on_data_write now wrote (w, o)))
              (fresh_part offset payload w.session.upstream_written) (λ _. Goes-still u w h)
              (λ p new.
                on_data_written-Goes now w u p (ground arith) h
                  (fresh_part-IsSlice u offset w.session.upstream_written payload p slice new).0)))

-- The session behind a flush of `pre`.
flush_counted : Bytes → World → Session
flush_counted pre w = record (write_upstream wrote pre w).session {
  upstream_written = (w.session.upstream_written + length pre) % u64_mod;
  request_outstanding = true;
}

counted-flush :
    (pre : Bytes) (w : World) (u : Bytes)
    → w.session.connected ≡ true
    → w.session.upstream_written ≡ 0
    → IsSlice u 0 pre
    → Uplinked w.session u
    → Uplinked (flush_counted pre w) u
unfolding flush_counted arm_watchdog
counted-flush pre w u on zero_yet slice h =
    Uplinked-fields {s = counted 0 pre w} refl refl refl refl
      (Uplinked-counted 0 w u pre on h (subst (λ n. IsSlice u n pre) (sym zero_yet) slice))

-- The queue is flushed: nothing was written before, and the destination has a front of the stream then.
pub dial_flush-Goes :
    (pre : Bytes) (w : World) (u : Bytes)
    → w.session.connected ≡ true
    → w.session.upstream_written ≡ 0
    → IsSlice u 0 pre
    → IsWriting u w
    → Goes u w (dial_flush pre wrote w)
unfolding dial_flush dial_flushed flush_counted
dial_flush-Goes [] w u on zero_yet slice h = Goes-still u w h
dial_flush-Goes (x ∷ pre) w u on zero_yet slice h =
    let s = flush_counted (x ∷ pre) w in
    let n = s.upstream_written in
    Goes-send u (ack_at w.session.session_id n) w (record w { session = s })
      (h.id_fits, omega arith) ((λ e. omega arith), (λ e. omega arith))
      (
        Writing-front {s = w.session} {s' = s}
            (counted-flush (x ∷ pre) w u on zero_yet slice h.front) (omega (arith, zero_yet)) refl
            refl h,
        omega (arith, zero_yet),
      )

-- The session behind a dial that succeeded.
dialed : ℕ → Session → Session
dialed now s =
    arm_watchdog now (record s { upstream = some fresh_upstream; connected = true; pre_conn = [] })

Uplinked-dialed :
    (now : ℕ) (s : Session) (u : Bytes)
    → s.upstream_written ≡ 0
    → length u < u64_mod
    → Uplinked (dialed now s) u
unfolding dialed arm_watchdog
Uplinked-dialed now s u zero_yet small = record {
  small = small;
  before = λ off. cc;
  after = λ _. (fresh_upstream, refl, omega (arith, zero_yet), rw zero_yet);
}

-- The first section of a dial takes the queue, a front of the stream, off the session, if it is alive.
pub dial_connected-Goes :
    (now : ℕ) (w : World) (u : Bytes)
    → w.session.connected ≡ false
    → IsWriting u w
    → Goes u w (dial_connected now w).0
      × ((pre : Bytes) → (dial_connected now w).1 ≡ some pre → IsSlice u 0 pre)
unfolding dial_connected dialed arm_watchdog
dial_connected-Goes now w u off h =
    let (none_yet, zero_yet, le, front) = h.front.before off in
    if-intro {A = World × Option Bytes}
      (λ r. Goes u w r.0 × ((pre : Bytes) → r.1 ≡ some pre → IsSlice u 0 pre)) w.session.dead
      (λ _. (Goes-still u w h, λ pre e. absurd cc))
      (λ _. (
        (
          Writing-front {s = w.session} {s' = dialed now w.session}
              (Uplinked-dialed now w.session u zero_yet h.front.small) (omega arith) refl refl h,
          omega arith,
        ),
        λ pre e.
            let same : w.session.pre_conn ≡ pre = cc in
            subst (λ p. IsSlice u 0 p) same (omega (arith, le), sym front),
      ))
