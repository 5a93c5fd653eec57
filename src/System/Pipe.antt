-- ===== src/System/Pipe.antt =====
-- A session against what it promises the agent: a pipe of bytes to the destination.
use substrate_poc.Prelude.{
  ℕ, ◌+◌, ◌-◌, ◌≤◌, ◌≡◌, sym, ap, subst, ◌∙◌, inl, inr, Option, none, some, List, [], ◌++◌,
  append-nil, arith, Bool-cases, take, drop, take-append-drop, All, Bytes, take-add, IsSlice,
}
use substrate_poc.Tunnel.Conn.{Conn}
use substrate_poc.Broker.Session.State.{Upstream, Session, World}
use substrate_poc.Broker.Session.Uplink.ExactlyOnce.{Uplinked}
use substrate_poc.Sidecar.Session.{Side}
use substrate_poc.System.{System}
use substrate_poc.System.Air.{Carries}
use substrate_poc.System.SidecarEnd.{IsCut, IsHolding}
use substrate_poc.System.BrokerEnd.{IsWriting, Goes}

-- All that went in at one end, and what came out at the other.
pub record Pipe : Type 0 where
  pub put : Bytes
  pub got : Bytes

-- Bytes go in, or the next bytes that went in come out.
pub data Flow (q : Pipe) : Pipe → Type 0 where
  fills : (p : Bytes) → Flow q (record q { put = q.put ++ p })
  drains : (p rest : Bytes) → q.put ≡ q.got ++ (p ++ rest) → Flow q (record q { got = q.got ++ p })

pub data Flows (first : Pipe) : Pipe → Type 0 where
  still : Flows first first
  flow : {q r : Pipe} → Flows first q → Flow q r → Flows first r

abbrev pub at_destination : Option Upstream → Bytes
at_destination none = []
at_destination (some up) = up.written

-- What a session is as a pipe.
abbrev pub pipe_of : System → Pipe
pipe_of y = record { put = y.taken; got = at_destination y.world.session.upstream }

-- Both ends are in order, the sidecar still has what the destination has not, and what a dial is about to
-- write is a front of what was taken.
pub record InOrder (y : System) : Type 0 where
  pub holding : IsHolding y.taken y.side
  pub writing : IsWriting y.taken y.world
  pub past : All (Carries (IsCut y.taken)) y.past
  pub kept : y.side.session.up_buf.base ≤ y.world.session.upstream_written
  pub queue : (pre : Bytes) → y.flushing ≡ some pre → IsSlice y.taken 0 pre

-- The destination has the first `upstream_written` bytes.
pub at_destination_lem :
    (u : Bytes) (s : Session) → Uplinked s u → at_destination s.upstream ≡ take s.upstream_written u
at_destination_lem u s h = elim (Bool-cases s.connected) [
  | inl on ↦ let (up, have, le, front) = h.after on in ap at_destination have ∙ front
  | inr off ↦
      let (none_yet, zero_yet, le, front) = h.before off in
      ap at_destination none_yet ∙ sym (ap (λ n. take n u) zero_yet)
]

-- From one front of the stream to one that is no shorter.
longer_front :
    (u : Bytes) (m n : ℕ)
    → m ≤ n
    → Flow (record { put = u; got = take m u }) (record { put = u; got = take n u })
longer_front u m n le =
    let split : take n u ≡ take m u ++ take (n - m) (drop m u) =
      ap (λ k. take k u) (let e : n ≡ m + (n - m) = omega arith in e) ∙ take-add m (n - m) u in
    subst (λ t. Flow (record { put = u; got = take m u }) (record { put = u; got = t })) (sym split)
      (drains (take (n - m) (drop m u)) (drop (n - m) (drop m u)) (
        sym (ap (λ t. take m u ++ t) (take-append-drop (n - m) (drop m u)) ∙ take-append-drop m u)))

-- What a step has to show: the ends stay in order, and the pipe flows.
abbrev pub Refines : System → System → Type 0
Refines y z = InOrder z × Flow (pipe_of y) (pipe_of z)

pub Refines-dial :
    (y : System) (w : World) (flushing : Option Bytes)
    → InOrder y
    → ((pre : Bytes) → flushing ≡ some pre → IsSlice y.taken 0 pre)
    → Goes y.taken y.world w
    → Refines y (record y { world = w; flushing = flushing })
Refines-dial y w flushing h queue goes = (
  record {
    holding = h.holding;
    writing = goes.0;
    past = h.past;
    kept = omega (arith, h.kept, goes.1);
    queue = queue;
  },
  subst (λ t. Flow (record { put = y.taken; got = t }) (pipe_of (record y { world = w })))
      (sym (at_destination_lem y.taken y.world.session h.writing.front))
      (subst
        (λ t.
          Flow (record { put = y.taken; got = take y.world.session.upstream_written y.taken })
            (record { put = y.taken; got = t }))
        (sym (at_destination_lem y.taken w.session goes.0.front))
        (longer_front y.taken y.world.session.upstream_written w.session.upstream_written goes.1)),
)

pub Refines-world :
    (y : System) (w : World)
    → InOrder y
    → Goes y.taken y.world w
    → Refines y (record y { world = w })
Refines-world y w h goes = Refines-dial y w y.flushing h h.queue goes

nothing_flows : (q : Pipe) → Flow q q
nothing_flows q =
    subst (λ t. Flow q (record { put = t; got = q.got })) (append-nil q.put) (fills [])

pub Refines-side :
    (y : System) (v : Side) (past : List Conn)
    → InOrder y
    → IsHolding y.taken v
    → v.session.up_buf.base ≤ y.world.session.upstream_written
    → All (Carries (IsCut y.taken)) past
    → Refines y (record y { side = v; past = past })
Refines-side y v past h holding kept old = (
  record { holding = holding; writing = h.writing; past = old; kept = kept; queue = h.queue },
  nothing_flows (pipe_of y),
)
