-- ===== src/System/SidecarEnd.antt =====
-- internal/sidecar/session.go in a run of the whole: what its frames say.
use mathlib.Core.Option
use substrate_poc.Prelude.{
  ℕ, ◌+◌, ◌≤◌, ◌<◌, ◌≡◌, refl, sym, ap, subst, ◌∙◌, Option, none, some, ◌++◌, arith, length, take,
  length-append, take-all, drop-length_append, Bytes, u64_mod, IsU64, if-intro, option-intro,
  IsSlice, IsSlice-append,
}
use substrate_poc.Tunnel.Frame.{max_payload, max_string, Frame, data_frame}
use substrate_poc.Tunnel.Buffer
use substrate_poc.Tunnel.Buffer.{ReplayBuffer}
use substrate_poc.Tunnel.Buffer.Stream.{Holds, end-length, Holds-append, Holds-trim_to}
use substrate_poc.Tunnel.Conn.{Conn, new_conn, close_conn}
use substrate_poc.Tunnel.Conn.Delivery.{FrameFits}
use substrate_poc.Sidecar.Session.{
  ClientSession, Side, write_through, send, data_up, session_attach_frame, close_frame, close_up,
}
use substrate_poc.Sidecar.Session.WriteUp.{chunk_taken}
use substrate_poc.System.Air.{
  Carries, Carries-weaken, Carries-new_conn, Carries-close_conn, Carries-write_frame,
}

-- A DATA frame was cut from the stream `u`.
abbrev pub IsCut : Bytes → Frame → Type 0
IsCut u f = f.typ ≡ data_frame → IsSlice u f.offset f.payload

abbrev pub OnTunnel : (Conn → Type 0) → Option Conn → Type 0
OnTunnel P none = Unit
OnTunnel P (some c) = P c

-- The sidecar's session holds the tail of what it took from the agent, `u`, and all that its tunnel carries
-- was cut from that. The replay buffer is no larger than a DATA frame may be.
pub record Holding (u : Bytes) (s : ClientSession) (conn : Option Conn) : Type 0 where
  pub held : Holds s.up_buf u
  pub on_air : OnTunnel (Carries (IsCut u)) conn
  pub narrow : s.up_buf.max ≤ max_payload
  pub id_fits : IsU64 s.session_id
  pub target_fits : length s.target ≤ max_string
  pub counted : IsU64 s.down_delivered

-- The parts of a session that `Holding` reads.
abbrev SameUp : ClientSession → ClientSession → Type 0
SameUp s s' = (s'.up_buf ≡ s.up_buf) × (s'.session_id ≡ s.session_id) × (s'.target ≡ s.target)

pub Holding-same :
    {u : Bytes} {s s' : ClientSession} {conn : Option Conn}
    → s'.up_buf ≡ s.up_buf
    → s'.session_id ≡ s.session_id
    → s'.target ≡ s.target
    → IsU64 s'.down_delivered
    → Holding u s conn
    → Holding u s' conn
Holding-same {u} buf id target small h = record {
  held = subst (λ b. Holds b u) (sym buf) h.held;
  on_air = h.on_air;
  narrow = subst (λ (b : ReplayBuffer). b.max ≤ max_payload) (sym buf) h.narrow;
  id_fits = subst IsU64 (sym id) h.id_fits;
  target_fits = subst (λ t. length t ≤ max_string) (sym target) h.target_fits;
  counted = small;
}

pub Carries-IsCut-append :
    (u more : Bytes) (c : Conn) → Carries (IsCut u) c → Carries (IsCut (u ++ more)) c
Carries-IsCut-append u more c h =
    Carries-weaken (λ f cut is_data. IsSlice-append u f.offset f.payload more (cut is_data)) h

OnTunnel-write :
    (u : Bytes) (f : Frame) (conn : Option Conn)
    → FrameFits f
    → IsCut u f
    → OnTunnel (Carries (IsCut u)) conn
    → OnTunnel (Carries (IsCut u)) (Option.map (write_through f) conn)
OnTunnel-write u f none fits says h = tt
OnTunnel-write u f (some c) fits says h = Carries-write_frame c f fits says h

pub Holding-send :
    {u : Bytes} (f : Frame) (v : Side)
    → FrameFits f
    → IsCut u f
    → Holding u v.session v.conn
    → Holding u (send f v).session (send f v).conn
unfolding send
Holding-send {u} f v fits cut h = record {
  held = h.held;
  on_air = OnTunnel-write u f v.conn fits cut h.on_air;
  narrow = h.narrow;
  id_fits = h.id_fits;
  target_fits = h.target_fits;
  counted = h.counted;
}

abbrev pub IsHolding : Bytes → Side → Type 0
IsHolding u v = Holding u v.session v.conn

pub IsHolding-trimmed :
    (u : Bytes) (offset : ℕ) (v : Side)
    → IsHolding u v
    → IsHolding u (record v {
      session = record v.session { up_buf = Buffer.trim_to v.session.up_buf offset };
    })
unfolding Buffer.trim_to
IsHolding-trimmed u offset v h = record {
  held = Holds-trim_to h.held offset;
  on_air = h.on_air;
  narrow = ground (arith, h.narrow);
  id_fits = h.id_fits;
  target_fits = h.target_fits;
  counted = h.counted;
}

pub IsHolding-close_up :
    (u reason : Bytes) (v : Side)
    → length reason ≤ max_string
    → IsHolding u v
    → IsHolding u (close_up reason v)
unfolding close_up
IsHolding-close_up u reason v short h =
    if-intro {A = Side} (IsHolding u) v.session.up_closed (λ _. h)
      (λ _.
        Holding-send (close_frame v.session.session_id reason) _ (h.id_fits, short) (λ e. absurd cc)
          (Holding-same {s = v.session} refl refl refl h.counted h))

OnTunnel-append :
    (u more : Bytes) (conn : Option Conn)
    → OnTunnel (Carries (IsCut u)) conn
    → OnTunnel (Carries (IsCut (u ++ more))) conn
OnTunnel-append u more none h = tt
OnTunnel-append u more (some c) h = Carries-IsCut-append u more c h

pub IsHolding-chunk_taken :
    (chunk u : Bytes) (v : Side)
    → IsHolding u v
    → length chunk ≤ Buffer.free v.session.up_buf
    → length u + length chunk < u64_mod
    → IsHolding (u ++ chunk) (chunk_taken chunk v)
unfolding chunk_taken Buffer.free
IsHolding-chunk_taken chunk u v h fits small =
    let at_end = end-length h.held in
    Holding-send (data_up v.session.session_id (Buffer.end v.session.up_buf) chunk) _
      (h.id_fits, omega (arith, at_end), omega (arith, h.narrow))
      (λ _.
        subst (λ o. IsSlice (u ++ chunk) o chunk) (sym at_end)
          (
            omega (arith, length-append u chunk),
            ap (take (length chunk)) (drop-length_append u chunk)
                ∙ take-all (length chunk) chunk (omega arith),
          ))
      (record {
        held = Holds-append h.held chunk fits small;
        on_air = OnTunnel-append u chunk v.conn h.on_air;
        narrow = h.narrow;
        id_fits = h.id_fits;
        target_fits = h.target_fits;
        counted = h.counted;
      })

-- A new tunnel begins with the session's ATTACH.
pub IsHolding-greeted :
    (u : Bytes) (v : Side)
    → IsHolding u v
    → IsHolding u (send (session_attach_frame v.session) (record v { conn = some new_conn }))
unfolding session_attach_frame
IsHolding-greeted u v h =
    Holding-send (session_attach_frame v.session) (record v { conn = some new_conn })
      (h.id_fits, h.counted, h.target_fits) (λ e. absurd cc)
      (record {
        held = h.held;
        on_air = Carries-new_conn;
        narrow = h.narrow;
        id_fits = h.id_fits;
        target_fits = h.target_fits;
        counted = h.counted;
      })

pub IsHolding-broken :
    (u : Bytes) (v : Side)
    → IsHolding u v
    → IsHolding u (record v { conn = Option.map close_conn v.conn })
IsHolding-broken u v h = record {
  held = h.held;
  on_air =
      option-intro {A = Conn} (λ conn. OnTunnel (Carries (IsCut u)) (Option.map close_conn conn))
        v.conn (λ _. tt)
        (λ c e. Carries-close_conn c (subst (OnTunnel (Carries (IsCut u))) e h.on_air));
  narrow = h.narrow;
  id_fits = h.id_fits;
  target_fits = h.target_fits;
  counted = h.counted;
}

pub IsHolding-cut : (u : Bytes) (v : Side) → IsHolding u v → IsHolding u (record v { conn = none })
IsHolding-cut u v h = record {
  held = h.held;
  on_air = tt;
  narrow = h.narrow;
  id_fits = h.id_fits;
  target_fits = h.target_fits;
  counted = h.counted;
}
