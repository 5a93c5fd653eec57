-- ===== src/System/Reading.antt =====
-- A frame that is read, at either end, in a run of the whole.
use substrate_poc.Prelude.{
  Option, ℕ, zero, suc, ◌≡◌, refl, sym, subst, ◌⊎◌, inl, inr, Option, none, some, List, [], ◌∷◌,
  arith, All, Bytes, ok, IsSlice,
}
use substrate_poc.Tunnel.Frame.{
  FrameType, Frame, hello, open_frame, attach, attach_ok, data_frame, ack, close, ping, pong,
  unknown,
}
use substrate_poc.Tunnel.Conn.{Conn}
use substrate_poc.Tunnel.Wire.RoundTrip.{Fits, carried}
use substrate_poc.Broker.Session.State.{World}
use substrate_poc.Sidecar.Session.{on_frame}
use substrate_poc.System.{nth_frame, session_frame, System, conn_at}
use substrate_poc.System.Air.{Carries, nth_frame-Carries}
use substrate_poc.System.SidecarEnd.{IsCut, OnTunnel}
use substrate_poc.System.BrokerEnd.{
  IsWriting, Goes, Goes-still, attached-Goes, on_downstream_ack-Goes,
}
use substrate_poc.System.Destination.{on_data-Goes}
use substrate_poc.System.Pipe.{InOrder, Refines, Refines-world, Refines-side}
use substrate_poc.System.Acks.{on_frame-within}
use substrate_poc.System.Handling.{IsHolding-on_frame}
use substrate_poc.System.Endings.{on_sidecar_close-Goes}

pub All-conn_at :
    (P : Conn → Type 0) (i : ℕ) (cs : List Conn) (c : Conn) → All P cs → conn_at i cs ≡ some c → P c
All-conn_at P i [] c h e = absurd cc
All-conn_at P zero (d ∷ cs) c h e = subst (λ o. OnTunnel P o) e h.0
All-conn_at P (suc i) (d ∷ cs) c h e = All-conn_at P i cs c h.1 e

pub tunnels-carry :
    (u : Bytes) (conn : Option Conn) (past : List Conn)
    → OnTunnel (Carries (IsCut u)) conn
    → All (Carries (IsCut u)) past
    → All (Carries (IsCut u)) (elim conn [ none ↦ past | some c ↦ c ∷ past ])
tunnels-carry u none past h old = old
tunnels-carry u (some c) past h old = (h, old)

-- What is read fits, and says what was written.
carried-typ : (t : FrameType) (g : Frame) → (carried t g).typ ≡ t
carried-typ hello g = refl
carried-typ open_frame g = refl
carried-typ attach g = refl
carried-typ attach_ok g = refl
carried-typ data_frame g = refl
carried-typ ack g = refl
carried-typ close g = refl
carried-typ ping g = refl
carried-typ pong g = refl
carried-typ (unknown n) g = refl

Fits-carried : (t : FrameType) (g : Frame) → Fits t g → Fits t (carried t g)
Fits-carried hello g h = h
Fits-carried open_frame g h = h
Fits-carried attach g h = h
Fits-carried attach_ok g h = h
Fits-carried data_frame g h = h
Fits-carried ack g h = h
Fits-carried close g h = h
Fits-carried ping g h = h
Fits-carried pong g h = h
Fits-carried (unknown n) g h = h

session_frame-Goes :
    (u : Bytes) (now tc : ℕ) (t : FrameType) (g : Frame) (w : World)
    → Fits t g
    → (t ≡ data_frame → IsSlice u g.offset g.payload)
    → IsWriting u w
    → Goes u w (session_frame now tc (carried t g).typ (carried t g) w)
unfolding session_frame
session_frame-Goes u now tc hello g w fits cut h = Goes-still u w h
session_frame-Goes u now tc open_frame g w fits cut h = attached-Goes u tc 0 w (omega arith) h
session_frame-Goes u now tc attach g w fits cut h = attached-Goes u tc g.offset w fits.1 h
session_frame-Goes u now tc attach_ok g w fits cut h = Goes-still u w h
session_frame-Goes u now tc data_frame g w fits cut h =
    on_data-Goes now g.offset g.payload w u (cut refl) h
session_frame-Goes u now tc ack g w fits cut h = on_downstream_ack-Goes u g.offset w h
session_frame-Goes u now tc close g w fits cut h = on_sidecar_close-Goes u g.dir w h
session_frame-Goes u now tc ping g w fits cut h = Goes-still u w h
session_frame-Goes u now tc pong g w fits cut h = Goes-still u w h
session_frame-Goes u now tc (unknown n) g w fits cut h = Goes-still u w h

pub broker_reads-Refines :
    (y : System) (now tc n : ℕ) (f : Frame) (c : Conn)
    → InOrder y
    → Carries (IsCut y.taken) c
    → nth_frame n c.sent ≡ ok f
    → Refines y (record y { world = session_frame now tc f.typ f y.world })
broker_reads-Refines y now tc n f c h carries e =
    let (g, same, fits, cut) = nth_frame-Carries n c f carries e in
    Refines-world y (session_frame now tc f.typ f y.world) h (
      subst (λ (f : Frame). Goes y.taken y.world (session_frame now tc f.typ f y.world)) (sym same)
        (session_frame-Goes y.taken now tc g.typ g y.world fits cut h.writing))

carried-offset :
    (t : FrameType) (g : Frame) → (t ≡ ack) ⊎ (t ≡ attach_ok) → (carried t g).offset ≡ g.offset
carried-offset attach_ok g h = refl
carried-offset ack g h = refl
carried-offset data_frame g h = refl
carried-offset attach g h = refl
carried-offset hello g h = elim h [ inl e ↦ absurd cc | inr e ↦ absurd cc ]
carried-offset open_frame g h = elim h [ inl e ↦ absurd cc | inr e ↦ absurd cc ]
carried-offset close g h = elim h [ inl e ↦ absurd cc | inr e ↦ absurd cc ]
carried-offset ping g h = elim h [ inl e ↦ absurd cc | inr e ↦ absurd cc ]
carried-offset pong g h = elim h [ inl e ↦ absurd cc | inr e ↦ absurd cc ]
carried-offset (unknown n) g h = elim h [ inl e ↦ absurd cc | inr e ↦ absurd cc ]

pub sidecar_reads-Refines :
    (y : System) (fault : Option ℕ) (tc n : ℕ) (f : Frame)
    → InOrder y
    → nth_frame n (y.world.conns tc).sent ≡ ok f
    → Refines y (record y { side = on_frame fault f y.side })
sidecar_reads-Refines y fault tc n f h e =
    let written = y.world.session.upstream_written in
    let (g, same, fits, says) = nth_frame-Carries n (y.world.conns tc) f (h.writing.on_air tc) e in
    let back = carried g.typ g in
    subst (λ f. Refines y (record y { side = on_frame fault f y.side })) (sym same)
      (Refines-side y (on_frame fault back y.side) y.past h
        (IsHolding-on_frame y.taken fault g.typ back y.side (carried-typ g.typ g)
          (Fits-carried g.typ g fits) h.holding)
        (on_frame-within fault g.typ back y.side written h.holding.held (carried-typ g.typ g)
          (λ is. omega (arith, carried-offset g.typ g (inl is), says.0 is))
          (λ is. omega (arith, carried-offset g.typ g (inr is), says.1 is)) h.kept)
        h.past)
