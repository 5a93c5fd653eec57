-- ===== src/System/BrokerEnd.antt =====
-- internal/broker/session.go in a run of the whole: what its frames say, and what it counts.
use substrate_poc.Prelude.{
  ℕ, ◌+◌, ◌-◌, ◌%◌, ◌≤◌, ◌≡◌, refl, sym, ap, subst, inl, inr, ◌&&◌, Option, none, some, List, [],
  ◌∷◌, arith, ltb, ◌==◌, if◌then◌else◌, Bool-cases, length, length-drop, All, All-append, Bytes,
  u64_mod, IsU64, codes, Error, Result, if-intro,
}
use substrate_poc.Tunnel.Frame.{max_payload, Frame, attach_ok, ack}
use substrate_poc.Tunnel.Buffer
use substrate_poc.Tunnel.Buffer.{ReplayBuffer}
use substrate_poc.Tunnel.Conn.{Conn, write_frame}
use substrate_poc.Tunnel.Conn.Delivery.{FrameFits}
use substrate_poc.Broker.Session.State.{
  Session, World, update_conn, bind, write, detach_on_error, send_on, send_to_sidecar, close_down,
}
use substrate_poc.Broker.Session.State.Sending.{send_to_sidecar-session, detach-conns}
use substrate_poc.Broker.Session.Uplink.ExactlyOnce.{Uplinked}
use substrate_poc.Broker.Session.Downlink.{
  data_at, on_downstream_ack, replayed, attach_answer, send_all, on_sidecar_attach,
}
use substrate_poc.System.Air.{Carries, Carries-write_frame}

-- What acknowledges the agent's bytes acknowledges no more than the `written` first.
abbrev pub Tells : ℕ → Frame → Type 0
Tells written f = (f.typ ≡ ack → f.offset ≤ written) × (f.typ ≡ attach_ok → f.offset ≤ written)

-- The broker's session has a front of the agent's stream `u` with the destination, and no connection carries
-- more than that is acknowledged. The replay buffer is within its cap, which is no larger than a DATA frame
-- may be.
pub record Writing (u : Bytes) (s : Session) (conns : ℕ → Conn) : Type 0 where
  pub front : Uplinked s u
  pub on_air : (tc : ℕ) → Carries (Tells s.upstream_written) (conns tc)
  pub id_fits : IsU64 s.session_id
  pub narrow : s.down_buf.max ≤ max_payload
  pub capped : length s.down_buf.buf ≤ s.down_buf.max

abbrev pub IsWriting : Bytes → World → Type 0
IsWriting u w = Writing u w.session w.conns

pub Writing-tconn :
    {u : Bytes} {s : Session} {conns : ℕ → Conn} (t : Option ℕ)
    → Writing u s conns
    → Writing u (record s { tconn = t }) conns
Writing-tconn t h = record {
  front = record { small = h.front.small; before = h.front.before; after = h.front.after };
  on_air = h.on_air;
  id_fits = h.id_fits;
  narrow = h.narrow;
  capped = h.capped;
}

pub update_conn-Carries :
    (P : Frame → Type 0) (conns : ℕ → Conn) (tc : ℕ) (c : Conn)
    → ((i : ℕ) → Carries P (conns i))
    → Carries P c
    → (i : ℕ) → Carries P (update_conn conns tc c i)
update_conn-Carries P conns tc c h hc i =
    if-intro {A = Conn} (Carries P) (i == tc) (λ _. hc) (λ _. h i)

pub write-Carries :
    (P : Frame → Type 0) (tc : ℕ) (f : Frame) (w : World)
    → FrameFits f
    → P f
    → ((i : ℕ) → Carries P (w.conns i))
    → (i : ℕ) → Carries P ((write tc f w).0.conns i)
unfolding write
write-Carries P tc f w fits says h =
    update_conn-Carries P w.conns tc (write_frame (w.conns tc) f).0 h
      (Carries-write_frame (w.conns tc) f fits says (h tc))

detach_on_error-conns :
    (tc : ℕ) (r : World × Option Error) → (detach_on_error tc r).conns ≡ r.0.conns
detach_on_error-conns tc (w, none) = refl
detach_on_error-conns tc (w, some e) = detach-conns tc w

send_on-Carries :
    (P : Frame → Type 0) (t : Option ℕ) (f : Frame) (w : World)
    → FrameFits f
    → P f
    → ((i : ℕ) → Carries P (w.conns i))
    → (i : ℕ) → Carries P ((send_on t f w).conns i)
send_on-Carries P none f w fits says h = h
send_on-Carries P (some tc) f w fits says h =
    subst (λ (conns : ℕ → Conn). (i : ℕ) → Carries P (conns i))
      (sym (detach_on_error-conns tc (write tc f w))) (write-Carries P tc f w fits says h)

pub IsWriting-send :
    (u : Bytes) (f : Frame) (w : World)
    → FrameFits f
    → Tells w.session.upstream_written f
    → IsWriting u w
    → IsWriting u (send_to_sidecar f w)
unfolding send_to_sidecar
IsWriting-send u f w fits says h =
    let (t, e) = send_to_sidecar-session f w in
    subst (λ s. Writing u s (send_to_sidecar f w).conns) (sym e)
      (Writing-tconn t (record {
        front = h.front;
        on_air =
            send_on-Carries (Tells w.session.upstream_written) w.session.tconn f w fits says
              h.on_air;
        id_fits = h.id_fits;
        narrow = h.narrow;
        capped = h.capped;
      }))

send_to_sidecar-written :
    (f : Frame) (w : World)
    → (send_to_sidecar f w).session.upstream_written ≡ w.session.upstream_written
send_to_sidecar-written f w =
    let (t, e) = send_to_sidecar-session f w in ap (λ s. s.upstream_written) e

-- The session goes on, with no fewer bytes written.
abbrev pub Goes : Bytes → World → World → Type 0
Goes u w w' = IsWriting u w' × (w.session.upstream_written ≤ w'.session.upstream_written)

pub Goes-send :
    (u : Bytes) (f : Frame) (w w' : World)
    → FrameFits f
    → Tells w'.session.upstream_written f
    → Goes u w w'
    → Goes u w (send_to_sidecar f w')
Goes-send u f w w' fits says h =
    (IsWriting-send u f w' fits says h.0, omega (arith, send_to_sidecar-written f w', h.1))

pub Goes-still : (u : Bytes) (w : World) → IsWriting u w → Goes u w w
Goes-still u w h = (h, omega arith)

send_all-Goes :
    (u : Bytes) (fs : List Frame) (w w' : World)
    → All (λ f. FrameFits f × Tells w'.session.upstream_written f) fs
    → Goes u w w'
    → Goes u w (send_all fs w')
unfolding send_all
send_all-Goes u [] w w' says h = h
send_all-Goes u (f ∷ fs) w w' says h =
    send_all-Goes u fs w (send_to_sidecar f w')
      (subst (λ n. All (λ f. FrameFits f × Tells n f) fs) (sym (send_to_sidecar-written f w'))
        says.1)
      (Goes-send u f w w' says.0.0 says.0.1 h)

replay-short :
    (delivered : ℕ) (s : Session)
    → length s.down_buf.buf ≤ s.down_buf.max
    → s.down_buf.max ≤ max_payload
    → length (replayed (Buffer.from s.down_buf delivered)) ≤ max_payload
unfolding Buffer.from
replay-short delivered s capped narrow =
    if-intro {A = Result Bytes} (λ r. length (replayed r) ≤ max_payload)
      (ltb delivered s.down_buf.base) (λ _. omega arith)
      (λ _.
        if-intro {A = Result Bytes} (λ r. length (replayed r) ≤ max_payload)
          (ltb (Buffer.end s.down_buf) delivered) (λ _. omega arith)
          (λ _. omega (arith, length-drop (delivered - s.down_buf.base) s.down_buf.buf)))

attach_answer-Answers :
    (delivered : ℕ) (s : Session)
    → IsU64 delivered
    → IsU64 s.session_id
    → IsU64 s.upstream_written
    → length s.down_buf.buf ≤ s.down_buf.max
    → s.down_buf.max ≤ max_payload
    → All (λ f. FrameFits f × Tells s.upstream_written f) (attach_answer delivered s)
unfolding attach_answer
attach_answer-Answers delivered s small id written capped narrow =
    let replay = replayed (Buffer.from s.down_buf delivered) in
    (
      ((id, written), ((λ e. absurd cc), (λ _. omega arith))),
      All-append (λ f. FrameFits f × Tells s.upstream_written f)
          (if ltb 0 (length replay) then data_at s.session_id delivered replay ∷ [] else [])
          (if s.down_closed && (Buffer.end s.down_buf == (delivered + length replay) % u64_mod)
            then close_down s.session_id (codes "upstream EOF") ∷ []
            else [])
          (if-intro {A = List Frame} (All (λ f. FrameFits f × Tells s.upstream_written f))
            (ltb 0 (length replay))
            (λ _. (
              (
                (id, small, replay-short delivered s capped narrow),
                ((λ e. absurd cc), (λ e. absurd cc)),
              ),
              tt,
            ))
            (λ _. tt))
          (if-intro {A = List Frame} (All (λ f. FrameFits f × Tells s.upstream_written f))
            (s.down_closed && (Buffer.end s.down_buf == (delivered + length replay) % u64_mod))
            (λ _. (((id, omega arith), ((λ e. absurd cc), (λ e. absurd cc))), tt)) (λ _. tt)),
    )

pub written-within : (u : Bytes) (s : Session) → Uplinked s u → s.upstream_written ≤ length u
written-within u s h = elim (Bool-cases s.connected) [
  | inl on ↦ let (up, have, le, front) = h.after on in le
  | inr off ↦ let (none_yet, zero_yet, le, front) = h.before off in omega (arith, zero_yet)
]

written-IsU64 : (u : Bytes) (s : Session) → Uplinked s u → IsU64 s.upstream_written
written-IsU64 u s h = omega (arith, h.small, written-within u s h)

on_sidecar_attach-Goes :
    (u : Bytes) (delivered : ℕ) (w : World)
    → IsU64 delivered
    → IsWriting u w
    → Goes u w (on_sidecar_attach delivered w)
unfolding on_sidecar_attach
on_sidecar_attach-Goes u delivered w small h =
    send_all-Goes u (attach_answer delivered w.session) w w
      (attach_answer-Answers delivered w.session small h.id_fits (written-IsU64 u w.session h.front)
        h.capped h.narrow)
      (Goes-still u w h)

bind-Goes : (u : Bytes) (tc : ℕ) (w : World) → IsWriting u w → Goes u w (bind tc w)
unfolding bind
bind-Goes u tc w h = (Writing-tconn {s = w.session} (some tc) h, omega arith)

pub attached-Goes :
    (u : Bytes) (tc delivered : ℕ) (w : World)
    → IsU64 delivered
    → IsWriting u w
    → Goes u w (on_sidecar_attach delivered (bind tc w))
unfolding bind
attached-Goes u tc delivered w small h =
    on_sidecar_attach-Goes u delivered (bind tc w) small (bind-Goes u tc w h).0

pub on_downstream_ack-Goes :
    (u : Bytes) (offset : ℕ) (w : World) → IsWriting u w → Goes u w (on_downstream_ack offset w)
unfolding on_downstream_ack Buffer.trim_to
on_downstream_ack-Goes u offset w h = (
  record {
    front = record { small = h.front.small; before = h.front.before; after = h.front.after };
    on_air = h.on_air;
    id_fits = h.id_fits;
    narrow = ground (arith, h.narrow);
    capped =
        ground
          (arith, h.capped, length-drop (offset - w.session.down_buf.base) w.session.down_buf.buf);
  },
  omega arith,
)
