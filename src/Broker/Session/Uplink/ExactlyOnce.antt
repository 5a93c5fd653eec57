-- ===== src/Broker/Session/Uplink/ExactlyOnce.antt =====
-- internal/broker/session.go, agent to destination: the destination gets the agent's bytes in order,
-- each once, however the sidecar replays them.
use mathlib.Core.Option
use substrate_poc.Prelude.{
  ℕ, ◌+◌, ◌-◌, ◌%◌, ◌≤◌, ◌<◌, ◌≡◌, refl, sym, ap, subst, ◌∙◌, inl, inr, true, false, not, Option,
  none, some, [], ◌∷◌, ◌++◌, arith, ltb, ltb→lt, Bool-cases, Option-cases, length, take, drop,
  length-append, length-drop, Bytes, u64_mod, IsSlice, take-slice, IsSlice-drop, if-intro,
  option-intro,
}
use substrate_poc.Broker.Session.State.{
  Upstream, Session, World, wrote, send_to_sidecar, fresh_upstream, arm_watchdog,
}
use substrate_poc.Tunnel.Frame.{Frame}
use substrate_poc.Broker.Session.State.Sending.{send_to_sidecar-session}
use substrate_poc.Broker.Session.Uplink.{
  on_data, on_data_write, on_data_written, queue_pre_conn, fresh_part, dial_upstream, dial_ok,
  dial_flush, write_upstream, socket_write, flush_if_alive,
}

-- `u` is the stream that the agent has written so far. Before the dial completes its front is in the
-- queue; after that its first `upstream_written` bytes, and no others, are with the destination.
pub record Uplinked (s : Session) (u : Bytes) : Type 0 where
  pub small : length u < u64_mod
  pub before :
      s.connected ≡ false
      → (s.upstream ≡ none)
        × (s.upstream_written ≡ 0)
        × (length s.pre_conn ≤ length u)
        × (s.pre_conn ≡ take (length s.pre_conn) u)
  pub after :
      s.connected ≡ true
      → (up : Upstream) × (s.upstream ≡ some up)
        × (s.upstream_written ≤ length u)
        × (up.written ≡ take s.upstream_written u)

-- The part of a replayed slice that is new, and where it goes.
pub fresh_part-IsSlice :
    (u : Bytes) (offset written : ℕ) (payload p : Bytes)
    → IsSlice u offset payload
    → fresh_part offset payload written ≡ some p
    → IsSlice u written p × (written + length p ≡ offset + length payload)
unfolding fresh_part
fresh_part-IsSlice u offset written payload p h e = elim (Bool-cases (ltb offset written)) [
  | inl old ↦
      let skip : written - offset < length payload = ground arith in
      let cut : drop (written - offset) payload ≡ p = ground arith in
      let there : offset + (written - offset) ≡ written =
        omega (arith, ltb→lt offset written old) in
      (
        subst (λ o. IsSlice u o p) there
            (subst (IsSlice u (offset + (written - offset))) cut
              (IsSlice-drop u offset payload (written - offset) h (omega arith))),
        omega (
          arith,
          ltb→lt offset written old,
          ap length cut,
          length-drop (written - offset) payload,
        ),
      )
  | inr new ↦
      let same : payload ≡ p = ground arith in
      let there : offset ≡ written = ground arith in
      (
        subst (λ o. IsSlice u o p) there (subst (IsSlice u offset) same h),
        omega (arith, ap length same),
      )
]

Uplinked-tconn :
    {s : Session} {u : Bytes} (t : Option ℕ) → Uplinked s u → Uplinked (record s { tconn = t }) u
Uplinked-tconn t h = record { small = h.small; before = h.before; after = h.after }

Uplinked-send :
    (f : Frame) (w : World) (u : Bytes)
    → Uplinked w.session u
    → Uplinked (send_to_sidecar f w).session u
Uplinked-send f w u h = let (t, e) = send_to_sidecar-session f w in rw e (Uplinked-tconn t h)

abbrev pub queued : Option Bytes → Session → Session
queued none s = s
queued (some p) s = record s { pre_conn = s.pre_conn ++ p }

pub queue_pre_conn-fresh_part :
    (offset : ℕ) (payload : Bytes) (s : Session)
    → queue_pre_conn offset payload s
      ≡ queued (fresh_part offset payload ((s.upstream_written + length s.pre_conn) % u64_mod)) s
unfolding queue_pre_conn fresh_part
queue_pre_conn-fresh_part offset payload s = ground arith

-- A new part behind what is queued or written makes a longer front of the stream.
pub longer :
    (u have p : Bytes) (n : ℕ)
    → n ≤ length u
    → have ≡ take n u
    → IsSlice u n p
    → have ++ p ≡ take (n + length p) u
longer u have p n le e h = ap (λ t. t ++ p) e ∙ sym (take-slice u n p h)

Uplinked-queued :
    (s : Session) (u p : Bytes)
    → s.connected ≡ false
    → Uplinked s u
    → IsSlice u (length s.pre_conn) p
    → Uplinked (record s { pre_conn = s.pre_conn ++ p }) u
Uplinked-queued s u p off h slice =
    let (none_yet, zero_yet, le, front) = h.before off in
    let len = length-append s.pre_conn p in
    record {
      small = h.small;
      before = λ _. (
        none_yet,
        zero_yet,
        omega (arith, len, slice.0),
        longer u s.pre_conn p (length s.pre_conn) le front slice ∙ ap (λ k. take k u) (sym len),
      );
      after = λ on. cc;
    }

pub Uplinked-queue :
    (offset : ℕ) (payload : Bytes) (s : Session) (u : Bytes)
    → s.connected ≡ false
    → Uplinked s u
    → IsSlice u offset payload
    → Uplinked (queue_pre_conn offset payload s) u
Uplinked-queue offset payload s u off h slice =
    let (none_yet, zero_yet, le, front) = h.before off in
    let accepted : (s.upstream_written + length s.pre_conn) % u64_mod ≡ length s.pre_conn =
      omega (arith, h.small) in
    rw (queue_pre_conn-fresh_part offset payload s, accepted)
      (elim (Option-cases (fresh_part offset payload (length s.pre_conn))) [
        | inl old ↦ rw old h
        | inr (p, new) ↦ rw new (
            Uplinked-queued s u p off h
              (fresh_part-IsSlice u offset (length s.pre_conn) payload p slice new).0)
      ])

-- The session behind a write of `p`.
abbrev pub counted : ℕ → Bytes → World → Session
counted now p w =
    let s = (write_upstream wrote p w).session in
    arm_watchdog now (record s {
      upstream_written = (s.upstream_written + length p) % u64_mod;
      request_outstanding = true;
    })

pub written_sum :
    (w : World) (u p : Bytes)
    → Uplinked w.session u
    → IsSlice u w.session.upstream_written p
    → (w.session.upstream_written + length p) % u64_mod ≡ w.session.upstream_written + length p
written_sum w u p h slice = omega (arith, h.small, slice.0)

pub Uplinked-counted :
    (now : ℕ) (w : World) (u p : Bytes)
    → w.session.connected ≡ true
    → Uplinked w.session u
    → IsSlice u w.session.upstream_written p
    → Uplinked (counted now p w) u
unfolding arm_watchdog
Uplinked-counted now w u p on h slice =
    let (up, have, le, front) = h.after on in
    let written = written_sum w u p h slice in
    record {
      small = h.small;
      before = λ off. cc;
      after = λ _. (
        record up { written = up.written ++ p },
        rw have,
        omega (arith, written, slice.0),
        rw written (longer u up.written p w.session.upstream_written le front slice),
      );
    }

Uplinked-written :
    (now : ℕ) (w : World) (u p : Bytes)
    → w.session.connected ≡ true
    → Uplinked w.session u
    → IsSlice u w.session.upstream_written p
    → Uplinked (on_data_written now p (write_upstream wrote p w)).session u
unfolding on_data_written
Uplinked-written now w u p on h slice = Uplinked-send _ _ u (Uplinked-counted now w u p on h slice)

-- DATA that the sidecar cut from the agent's stream, at whatever offset and however often, leaves the
-- destination with a front of that stream, in order, no byte missing and none twice. The write to the
-- destination goes well.
pub Uplinked-on_data :
    (now offset : ℕ) (payload : Bytes) (w : World) (u : Bytes)
    → Uplinked w.session u
    → IsSlice u offset payload
    → Uplinked (on_data now wrote offset payload w).session u
unfolding on_data
Uplinked-on_data now offset payload w u h slice =
    if-intro (λ r. Uplinked (on_data_write now wrote r).session u) w.session.dead (λ _. h)
      (λ _.
        if-intro (λ r. Uplinked (on_data_write now wrote r).session u) (not w.session.connected)
          (λ off. Uplinked-queue offset payload w.session u (ground arith) h slice)
          (λ on.
            option-intro (λ o. Uplinked (on_data_write now wrote (w, o)).session u)
              (fresh_part offset payload w.session.upstream_written) (λ _. h)
              (λ p new.
                Uplinked-written now w u p (ground arith) h
                  (fresh_part-IsSlice u offset w.session.upstream_written payload p slice new).0)))

-- The session behind a flush of `pre`.
abbrev pub flushed : Bytes → World → Session
flushed pre w = record w.session {
  upstream = some (record fresh_upstream { written = pre });
  upstream_written = (w.session.upstream_written + length pre) % u64_mod;
  request_outstanding = true;
}

pub Uplinked-flushed :
    (pre : Bytes) (w : World) (u : Bytes)
    → w.session.connected ≡ true
    → w.session.upstream_written ≡ 0
    → length u < u64_mod
    → length pre ≤ length u
    → pre ≡ take (length pre) u
    → Uplinked (flushed pre w) u
Uplinked-flushed pre w u on zero_yet small le front =
    let sum : (w.session.upstream_written + length pre) % u64_mod ≡ length pre =
      omega (arith, zero_yet) in
    record {
      small = small;
      before = λ off. cc;
      after =
          λ _. (record fresh_upstream { written = pre }, refl, omega (arith, sum), rw sum front);
    }

Uplinked-flush :
    (pre : Bytes) (w : World) (u : Bytes)
    → w.session.upstream ≡ some fresh_upstream
    → w.session.connected ≡ true
    → w.session.upstream_written ≡ 0
    → length u < u64_mod
    → length pre ≤ length u
    → pre ≡ take (length pre) u
    → Uplinked (dial_flush pre wrote w).session u
unfolding dial_flush
Uplinked-flush [] w u new on zero_yet small le front = record {
  small = small;
  before = λ off. cc;
  after = λ _. (fresh_upstream, new, rw zero_yet (omega arith), rw zero_yet);
}
Uplinked-flush (x ∷ pre) w u new on zero_yet small le front = Uplinked-send _ _ u (
    subst (λ (o : Option Upstream). Uplinked (record (flushed (x ∷ pre) w) { upstream = o }) u)
      (sym (ap (Option.map (socket_write wrote (x ∷ pre))) new))
      (Uplinked-flushed (x ∷ pre) w u on zero_yet small le front))

-- A dial that succeeds hands the queue to the destination, which then has a front of the agent's stream,
-- if the queue was one. The session was not connected before, and the write goes well.
pub Uplinked-dial_upstream :
    (now : ℕ) (w : World) (u : Bytes)
    → w.session.connected ≡ false
    → Uplinked w.session u
    → Uplinked (dial_upstream (dial_ok wrote) now w).session u
unfolding dial_upstream
Uplinked-dial_upstream now w u off h =
    if-intro (λ r. Uplinked (flush_if_alive wrote r).session u) w.session.dead (λ _. h)
      (λ _.
        let (none_yet, zero_yet, le, front) = h.before off in
        Uplinked-flush w.session.pre_conn _ u refl refl zero_yet h.small le front)
