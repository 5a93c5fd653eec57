-- ===== src/System/Refinement.antt =====
-- A session, with all that can happen to it, refines a pipe of bytes.
use mathlib.Core.Option
use substrate_poc.Prelude.{
  ℕ, ◌+◌, ◌-◌, ◌≤◌, ◌<◌, ◌≡◌, refl, sym, ap, subst, ◌∙◌, inl, inr, false, none, some, List, [], ◌∷◌,
  ◌++◌, append-nil, arith, length, take, length-append, take-append, take-length_append, All, Bytes,
  u64_mod, if-intro, IsSlice-append,
}
use substrate_poc.Tunnel.Frame.{Frame}
use substrate_poc.Tunnel.Buffer.{ReplayBuffer}
use substrate_poc.Tunnel.Conn.{Conn, new_conn, close_conn}
use substrate_poc.Broker.Session.State.{World}
use substrate_poc.Broker.Session.Uplink.{dial_connected}
use substrate_poc.Sidecar.Session.{Side, send, Written, write_up, session_attach_frame, close_up}
use substrate_poc.Sidecar.Session.WriteUp.{chunk_taken, EndsAs, write_up-EndsAs}
use substrate_poc.System.{
  System, accepted_part, tunnels, write_agent, Step, agent_writes, agent_closes, sidecar_reads,
  tunnel_breaks, tunnel_ends, tunnel_comes, broker_reads, dial_connects, dial_flushes, dial_fails,
  destination_sends, destination_ends, broker_breaks, broker_detaches, watchdog_ends,
}
use substrate_poc.System.Air.{Carries}
use substrate_poc.System.SidecarEnd.{
  IsCut, Carries-IsCut-append, IsHolding, IsHolding-close_up, IsHolding-chunk_taken,
  IsHolding-greeted, IsHolding-broken, IsHolding-cut,
}
use substrate_poc.System.BrokerEnd.{IsWriting}
use substrate_poc.System.Destination.{dial_connected-Goes, dial_flush-Goes}
use substrate_poc.System.Pipe.{InOrder, Refines, Refines-dial, Refines-world, Refines-side, fills}
use substrate_poc.System.Source.{produce_downstream-Goes}
use substrate_poc.System.Endings.{
  dial_failed-Goes, close_upstream-Goes, detach-Goes, watchdog_fires-Goes, broken-Goes,
}
use substrate_poc.System.Reading.{
  All-conn_at, tunnels-carry, broker_reads-Refines, sidecar_reads-Refines,
}

-- What the sidecar holds, within what is acknowledged.
abbrev Within : ℕ → Bytes → Side → Type 0
Within n u v = IsHolding u v × (v.session.up_buf.base ≤ n)

write_up-Within :
    (n : ℕ) (p u : Bytes) (v : Side)
    → v.session.dead ≡ false
    → Within n u v
    → length u + length p < u64_mod
    → EndsAs (Within n) u p (write_up p v)
unfolding chunk_taken send
write_up-Within n p u v alive h small =
    write_up-EndsAs (Within n)
      (
        (λ u v h. h.0.held),
        (λ chunk u v h fits small. (IsHolding-chunk_taken chunk u v h.0 fits small, h.1)),
      )
      p u v alive h small

accepted_part_lem :
    (Q : Bytes → Side → Type 0) (u p : Bytes) (r : Side × Written) (e : EndsAs Q u p r)
    → accepted_part p r.1 ≡ e.taken
accepted_part_lem Q u p r e = elim e.verdict [
  | inl (all, nothing) ↦
      ap (accepted_part p) all ∙ e.split ∙ ap (λ t. e.taken ++ t) nothing ∙ append-nil e.taken
  | inr (some_left, full) ↦
      ap (accepted_part p) some_left
      ∙ ap (λ t. take (length t - length e.left) t) e.split
      ∙ ap (λ n. take n (e.taken ++ e.left)) (omega (arith, length-append e.taken e.left))
      ∙ take-length_append e.taken e.left
]

past_grows :
    (u more : Bytes) (cs : List Conn)
    → All (Carries (IsCut u)) cs
    → All (Carries (IsCut (u ++ more))) cs
past_grows u more [] h = tt
past_grows u more (c ∷ cs) h = (Carries-IsCut-append u more c h.0, past_grows u more cs h.1)

IsWriting-more :
    (u more : Bytes) (w : World)
    → length u + length more < u64_mod
    → IsWriting u w
    → IsWriting (u ++ more) w
IsWriting-more u more w small h = record {
  front = record {
    small = omega (arith, length-append u more);
    before = λ off.
        let (none_yet, zero_yet, le, front) = h.front.before off in
        (
          none_yet,
          zero_yet,
          omega (arith, le, length-append u more),
          front ∙ sym (take-append (length w.session.pre_conn) u more le),
        );
    after = λ on.
        let (up, have, le, front) = h.front.after on in
        (
          up,
          have,
          omega (arith, le, length-append u more),
          front ∙ sym (take-append w.session.upstream_written u more le),
        );
  };
  on_air = h.on_air;
  id_fits = h.id_fits;
  narrow = h.narrow;
  capped = h.capped;
}

agent_writes-Refines :
    (y : System) (p : Bytes)
    → InOrder y
    → length y.taken + length p < u64_mod
    → y.side.session.dead ≡ false
    → Refines y (write_agent p y)
agent_writes-Refines y p h small alive =
    let r = write_up p y.side in
    let written = y.world.session.upstream_written in
    let e = write_up-Within written p y.taken y.side alive (h.holding, h.kept) small in
    let part = accepted_part_lem (Within written) y.taken p r e in
    let short : length y.taken + length e.taken < u64_mod =
      omega (arith, small, ap length e.split, length-append e.taken e.left) in
    subst (λ t. Refines y (record y { side = r.0; taken = y.taken ++ t })) (sym part)
      (
        record {
          holding = e.held.0;
          writing = IsWriting-more y.taken e.taken y.world short h.writing;
          past = past_grows y.taken e.taken y.past h.past;
          kept = e.held.1;
          queue = λ pre held. IsSlice-append y.taken 0 pre e.taken (h.queue pre held);
        },
        fills e.taken,
      )

send-up_buf : (f : Frame) (v : Side) → (send f v).session.up_buf ≡ v.session.up_buf
unfolding send
send-up_buf f v = refl

close_up-base :
    (reason : Bytes) (v : Side) → (close_up reason v).session.up_buf.base ≡ v.session.up_buf.base
unfolding close_up send
close_up-base reason v =
    if-intro {A = Side} (λ v'. v'.session.up_buf.base ≡ v.session.up_buf.base) v.session.up_closed
      (λ _. refl) (λ _. refl)

-- One step of the whole, of either end, the tunnels or the environment, keeps both ends in order, and is
-- seen by the agent and the destination as bytes that go into a pipe or the next ones that come out.
pub Step-Refines : {y z : System} → InOrder y → Step y z → Refines y z
Step-Refines {y} h (agent_writes p small alive) = agent_writes-Refines y p h small alive
Step-Refines {y} h (agent_closes reason short) =
    Refines-side y (close_up reason y.side) y.past h
      (IsHolding-close_up y.taken reason y.side short h.holding)
      (omega (arith, h.kept, close_up-base reason y.side)) h.past
Step-Refines {y} h (sidecar_reads fault tc n f e) = sidecar_reads-Refines y fault tc n f h e
Step-Refines {y} h tunnel_breaks =
    Refines-side y (record y.side { conn = Option.map close_conn y.side.conn }) y.past h
      (IsHolding-broken y.taken y.side h.holding) h.kept h.past
Step-Refines {y} h tunnel_ends =
    Refines-side y (record y.side { conn = none }) (tunnels y) h
      (IsHolding-cut y.taken y.side h.holding) h.kept
      (tunnels-carry y.taken y.side.conn y.past h.holding.on_air h.past)
Step-Refines {y} h tunnel_comes =
    Refines-side y
      (send (session_attach_frame y.side.session) (record y.side { conn = some new_conn }))
      (tunnels y) h (IsHolding-greeted y.taken y.side h.holding)
      (omega (
        arith,
        h.kept,
        ap (λ (b : ReplayBuffer). b.base)
            (send-up_buf (session_attach_frame y.side.session)
              (record y.side { conn = some new_conn })),
      ))
      (tunnels-carry y.taken y.side.conn y.past h.holding.on_air h.past)
Step-Refines {y} h (broker_reads now tc n i f c there e) =
    broker_reads-Refines y now tc n f c h
      (All-conn_at (Carries (IsCut y.taken)) i (tunnels y) c
        (tunnels-carry y.taken y.side.conn y.past h.holding.on_air h.past) there)
      e
Step-Refines {y} h (dial_connects now off) =
    let (goes, queue) = dial_connected-Goes now y.world y.taken off h.writing in
    Refines-dial y _ (dial_connected now y.world).1 h queue goes
Step-Refines {y} h (dial_flushes pre held on zero_yet) =
    Refines-dial y _ none h (λ p e. absurd cc)
      (dial_flush-Goes pre y.world y.taken on zero_yet (h.queue pre held) h.writing)
Step-Refines {y} h (dial_fails now text off short) =
    Refines-world y _ h (dial_failed-Goes now y.taken text y.world short h.writing)
Step-Refines {y} h (destination_sends p) =
    Refines-world y _ h (produce_downstream-Goes y.taken p y.world h.writing)
Step-Refines {y} h (destination_ends cause short) =
    Refines-world y _ h (close_upstream-Goes y.taken cause y.world short h.writing)
Step-Refines {y} h (broker_breaks tc) =
    Refines-world y _ h (broken-Goes y.taken tc y.world h.writing)
Step-Refines {y} h (broker_detaches tc) =
    Refines-world y _ h (detach-Goes y.taken tc y.world h.writing)
Step-Refines {y} h watchdog_ends =
    Refines-world y _ h (watchdog_fires-Goes y.taken y.world h.writing)
