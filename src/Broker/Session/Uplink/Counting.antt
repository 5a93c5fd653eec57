-- ===== src/Broker/Session/Uplink/Counting.antt =====
-- internal/broker/session.go, `onData`: what is new of the agent's bytes is written, and counted.
use Prim.Native.Nat.{max}
use substrate_poc.Prelude.{
  ℕ, ◌+◌, ◌%◌, ◌≤◌, ◌≡◌, refl, ap, ◌∙◌, true, false, not, Option, none, some, arith, ltb,
  if◌then◌else◌, length, length-append, Bytes, u64_mod, if-intro, option-intro, IsSlice,
}
use substrate_poc.Broker.Session.State.{Session, World, wrote, arm_watchdog}
use substrate_poc.Broker.Session.State.Sending.{send_to_sidecar-session}
use substrate_poc.Broker.Session.Uplink.{
  on_data, on_data_write, on_data_written, fresh_part, queue_pre_conn, write_upstream,
}
use substrate_poc.Broker.Session.Uplink.ExactlyOnce.{
  Uplinked, fresh_part-IsSlice, queued, queue_pre_conn-fresh_part, written_sum, Uplinked-on_data,
}
use substrate_poc.Broker.Session.Uplink.Completion.{fresh_part-none}

-- How far the stream reaches behind `n` bytes at `offset`, if it reached `have`: nothing is put behind a gap.
abbrev pub reached : ℕ → ℕ → ℕ → ℕ
reached have offset n = if ltb have offset then have else max have (offset + n)

-- DATA of the agent's stream `u`, between `s` and `s'`: the destination has a front of the stream, and it has
-- as much of it as the DATA allows for, or the queue has before the dial is done.
pub record Advances (u : Bytes) (offset n : ℕ) (s s' : Session) : Type 0 where
  pub uplinked : Uplinked s' u
  pub written :
      s.dead ≡ false
      → s.connected ≡ true
      → s'.upstream_written ≡ reached s.upstream_written offset n
  pub in_queue :
      s.dead ≡ false
      → s.connected ≡ false
      → length s'.pre_conn ≡ reached (length s.pre_conn) offset n
  pub unchanged : s.dead ≡ true → s' ≡ s

fresh_part-near :
    (offset : ℕ) (payload p : Bytes) (have : ℕ)
    → fresh_part offset payload have ≡ some p
    → ¬ (ltb have offset ≡ true)
unfolding fresh_part
fresh_part-near offset payload p have e gap = ground arith

-- What `fresh_part` finds is what the stream grows by.
grows :
    (u : Bytes) (offset have : ℕ) (payload : Bytes)
    → IsSlice u offset payload
    → (o : Option Bytes) → fresh_part offset payload have ≡ o
    → (elim o as (λ _. ℕ) [ none ↦ have | some p ↦ have + length p ])
      ≡ reached have offset (length payload)
grows u offset have payload slice none e =
    if-intro {A = ℕ} (λ n. have ≡ n) (ltb have offset) (λ _. refl)
      (λ near.
        let old : offset + length payload ≤ have =
          fresh_part-none offset payload have (ground arith) e in
        omega (arith, old))
grows u offset have payload slice (some p) e =
    let (there, sum) = fresh_part-IsSlice u offset have payload p slice e in
    if-intro {A = ℕ} (λ n. have + length p ≡ n) (ltb have offset)
      (λ gap. absurd (fresh_part-near offset payload p have e gap)) (λ near. omega (arith, sum))

written_counts :
    (now : ℕ) (p : Bytes) (w : World)
    → (on_data_written now p (write_upstream wrote p w)).session.upstream_written
      ≡ (w.session.upstream_written + length p) % u64_mod
unfolding on_data_written arm_watchdog
written_counts now p w = let (t, e) = send_to_sidecar-session _ _ in ap (λ s. s.upstream_written) e

module _ (now offset : ℕ) (payload : Bytes) (w : World) (u : Bytes) (h : Uplinked w.session u)
    (slice : IsSlice u offset payload) where
  on_data-written :
      w.session.dead ≡ false
      → w.session.connected ≡ true
      → (on_data now wrote offset payload w).session.upstream_written
        ≡ reached w.session.upstream_written offset (length payload)
  unfolding on_data
  on_data-written alive on =
      let far = reached w.session.upstream_written offset (length payload) in
      if-intro {A = World × Option Bytes}
        (λ r. (on_data_write now wrote r).session.upstream_written ≡ far) w.session.dead
        (λ dead. absurd cc)
        (λ _.
          if-intro {A = World × Option Bytes}
            (λ r. (on_data_write now wrote r).session.upstream_written ≡ far)
            (not w.session.connected) (λ off. absurd (ground arith))
            (λ _.
              option-intro {A = Bytes}
                (λ o. (on_data_write now wrote (w, o)).session.upstream_written ≡ far)
                (fresh_part offset payload w.session.upstream_written)
                (λ old. grows u offset w.session.upstream_written payload slice none old)
                (λ p new.
                  let there =
                    (fresh_part-IsSlice u offset w.session.upstream_written payload p slice
                      new).0 in
                  written_counts now p w
                  ∙ written_sum w u p h there
                  ∙ grows u offset w.session.upstream_written payload slice (some p) new)))

  queue-length :
      w.session.connected ≡ false
      → length (queue_pre_conn offset payload w.session).pre_conn
        ≡ reached (length w.session.pre_conn) offset (length payload)
  queue-length off =
      let s = w.session in
      let (none_yet, zero_yet, le, front) = h.before off in
      let accepted : (s.upstream_written + length s.pre_conn) % u64_mod ≡ length s.pre_conn =
        omega (arith, h.small) in
      rw (queue_pre_conn-fresh_part offset payload s, accepted)
        (option-intro {A = Bytes}
          (λ o. length (queued o s).pre_conn ≡ reached (length s.pre_conn) offset (length payload))
          (fresh_part offset payload (length s.pre_conn))
          (λ old. grows u offset (length s.pre_conn) payload slice none old)
          (λ p new.
            length-append s.pre_conn p
            ∙ grows u offset (length s.pre_conn) payload slice (some p) new))

  on_data-queued :
      w.session.dead ≡ false
      → w.session.connected ≡ false
      → length (on_data now wrote offset payload w).session.pre_conn
        ≡ reached (length w.session.pre_conn) offset (length payload)
  unfolding on_data
  on_data-queued alive off =
      let far = reached (length w.session.pre_conn) offset (length payload) in
      if-intro {A = World × Option Bytes}
        (λ r. length (on_data_write now wrote r).session.pre_conn ≡ far) w.session.dead
        (λ dead. absurd cc)
        (λ _.
          if-intro {A = World × Option Bytes}
            (λ r. length (on_data_write now wrote r).session.pre_conn ≡ far)
            (not w.session.connected) (λ _. queue-length off) (λ on. absurd (ground arith)))

  on_data-dead : w.session.dead ≡ true → (on_data now wrote offset payload w).session ≡ w.session
  unfolding on_data
  on_data-dead dead =
      if-intro {A = World × Option Bytes} (λ r. (on_data_write now wrote r).session ≡ w.session)
        w.session.dead (λ _. refl) (λ alive. absurd cc)

  -- DATA that the sidecar cut from the agent's stream, at whatever offset and however often, leaves the
  -- destination with a front of that stream, in order, no byte missing and none twice: on a live session the
  -- count of what is written, or the length of the queue before the dial is done, moves up to the end of the
  -- DATA if it starts at or before what is there, and stays otherwise; a dead session stays as it is. The
  -- write to the destination goes well.
  pub on_data-Advances :
      Advances u offset (length payload) w.session (on_data now wrote offset payload w).session
  on_data-Advances = record {
    uplinked = Uplinked-on_data now offset payload w u h slice;
    written = on_data-written;
    in_queue = on_data-queued;
    unchanged = on_data-dead;
  }
