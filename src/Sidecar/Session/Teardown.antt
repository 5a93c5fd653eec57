-- ===== src/Sidecar/Session/Teardown.antt =====
-- internal/sidecar/session.go: the end of a session at the sidecar, and what becomes of the agent's close.
use mathlib.Core.Option
use substrate_poc.Prelude.{
  ℕ, zero, suc, ◌≡◌, refl, ap, subst, ◌∙◌, Bool, true, false, Option, none, some, List, [], ◌∷◌,
  ◌==◌, length, take, drop, All, Bytes, Result, ok, err, >>=-eq-ok, ok-injective, if-intro,
  result-intro,
}
use substrate_poc.Tunnel.Frame.{
  FrameType, dir_down, Frame, hello, open_frame, attach, attach_ok, data_frame, ack, close, ping,
  pong, unknown,
}
use substrate_poc.Tunnel.Buffer
use substrate_poc.Tunnel.Buffer.{ReplayBuffer}
use substrate_poc.Tunnel.Conn.{Conn}
use substrate_poc.Sidecar.Session.{
  ClientSession, Side, write_through, send, data_up, Written, chunk_size, write_chunk, write_loop,
  write_up, on_upstream_ack, deliver_accept, deliver_written, deliver_write, deliver_down,
  session_attach_frame, resend, on_attach_ok, on_close, close_frame, close_up, on_frame, refused,
}

-- What can happen to a session at the sidecar: a frame from the broker, with the outcome of a write to the
-- agent; bytes from the agent; the agent's close; a tunnel that comes or goes.
pub data SideAct : Type 0 where
  frame_comes : Option ℕ → Frame → SideAct
  agent_writes : Bytes → SideAct
  agent_closes : Bytes → SideAct
  tunnel_is : Option Conn → SideAct

unfoldable pub side_act : SideAct → Side → Side
side_act (frame_comes fault f) w = on_frame fault f w
side_act (agent_writes p) w = (write_up p w).0
side_act (agent_closes reason) w = close_up reason w
side_act (tunnel_is conn) w = record w { conn = conn }

unfoldable pub side_run : List SideAct → Side → Side
unfolding side_act
side_run [] w = w
side_run (a ∷ acts) w = side_run acts (side_act a w)

-- Every write to the agent goes well.
abbrev pub AgentTakes : SideAct → Type 0
AgentTakes (frame_comes fault f) = fault ≡ none
AgentTakes a = Unit {0}

-- The session is on the client's table, and the agent's connection can be half closed.
pub record IsKept (w : Side) : Type 0 where
  pub alive : w.session.dead ≡ false
  pub listed : w.removed ≡ false
  pub halves : w.session.agent.can_half_close ≡ true

IsKept-send : (f : Frame) (w : Side) → IsKept w → IsKept (send f w)
unfolding send
IsKept-send f w h = record { alive = h.alive; listed = h.listed; halves = h.halves }

IsKept-with :
    (s : ClientSession) (w : Side)
    → s.dead ≡ w.session.dead
    → s.agent.can_half_close ≡ w.session.agent.can_half_close
    → IsKept w
    → IsKept (record w { session = s })
IsKept-with s w e f h = record { alive = e ∙ h.alive; listed = h.listed; halves = f ∙ h.halves }

IsKept-deliver_write : (o : Option Bytes) (w : Side) → IsKept w → IsKept (deliver_write none o w)
unfolding deliver_write deliver_written
IsKept-deliver_write none w h = h
IsKept-deliver_write (some p) w h =
    IsKept-send _ _ (record { alive = h.alive; listed = h.listed; halves = h.halves })

IsKept-resend : (offset : ℕ) (r : Result Bytes) (w : Side) → IsKept w → IsKept (resend offset r w)
IsKept-resend offset (err e) w h = h
IsKept-resend offset (ok []) w h = h
IsKept-resend offset (ok (x ∷ xs)) w h = IsKept-send _ w h

IsKept-on_close : (dir : ℕ) (w : Side) → IsKept w → IsKept (on_close dir w)
unfolding on_close
IsKept-on_close dir w h =
    if-intro {A = Side} IsKept (dir == dir_down)
      (λ _.
        if-intro {A = Side} IsKept w.session.agent.can_half_close
          (λ _. record { alive = h.alive; listed = h.listed; halves = h.halves })
          (λ no. absurd (cc h.halves)))
      (λ _. h)

IsKept-frame :
    (t : FrameType) (f : Frame) (w : Side) → f.typ ≡ t → IsKept w → IsKept (on_frame none f w)
unfolding on_frame on_attach_ok deliver_down on_upstream_ack
IsKept-frame attach_ok f w e h = rw e (
    let trimmed = Buffer.trim_to w.session.up_buf f.offset in
    IsKept-resend f.offset (Buffer.from trimmed f.offset)
      (record w { session = record w.session { up_buf = trimmed } })
      (record { alive = h.alive; listed = h.listed; halves = h.halves }))
IsKept-frame data_frame f w e h =
    rw e (IsKept-deliver_write (deliver_accept f.offset f.payload w) w h)
IsKept-frame ack f w e h = rw e (record { alive = h.alive; listed = h.listed; halves = h.halves })
IsKept-frame close f w e h = rw e (IsKept-on_close f.dir w h)
IsKept-frame hello f w e h = rw e h
IsKept-frame open_frame f w e h = rw e h
IsKept-frame attach f w e h = rw e h
IsKept-frame ping f w e h = rw e h
IsKept-frame pong f w e h = rw e h
IsKept-frame (unknown n) f w e h = rw e h

IsKept-write_chunk :
    (chunk : Bytes) (w : Side) {w' : Side} → IsKept w → write_chunk chunk w ≡ ok w' → IsKept w'
unfolding write_chunk
IsKept-write_chunk chunk w h e =
    let (buf, e₁, e₂) = >>=-eq-ok (Buffer.append w.session.up_buf chunk) _ e in
    subst IsKept (ok-injective e₂) (
      IsKept-send (data_up w.session.session_id (Buffer.end w.session.up_buf) chunk)
        (record w { session = record w.session { up_buf = buf } })
        (record { alive = h.alive; listed = h.listed; halves = h.halves }))

abbrev after_chunk : ℕ → Bytes → Side → Result Side → Side × Written
after_chunk fuel p w c = elim c [
  | err e ↦ (w, refused e)
  | ok w' ↦ write_loop fuel (drop (chunk_size w p) p) w'
]

IsKept-write_loop : (fuel : ℕ) (p : Bytes) (w : Side) → IsKept w → IsKept (write_loop fuel p w).0
unfolding write_loop
IsKept-write_loop zero p w h = h
IsKept-write_loop (suc fuel) [] w h = h
IsKept-write_loop (suc fuel) (x ∷ xs) w h =
    let p = x ∷ xs in
    if-intro {A = Side × Written} (λ r. IsKept r.0) w.session.dead (λ _. h)
      (λ _.
        if-intro {A = Side × Written} (λ r. IsKept r.0) (Buffer.free w.session.up_buf == 0) (λ _. h)
          (λ _.
            result-intro (λ c. IsKept (after_chunk fuel p w c).0)
              (write_chunk (take (chunk_size w p) p) w)
              (λ w' e.
                IsKept-write_loop fuel (drop (chunk_size w p) p) w'
                  (IsKept-write_chunk (take (chunk_size w p) p) w h e))
              (λ _ _. h)))

IsKept-act : (a : SideAct) (w : Side) → AgentTakes a → IsKept w → IsKept (side_act a w)
unfolding side_act write_up close_up
IsKept-act (frame_comes fault f) w p h = rw p (IsKept-frame f.typ f w refl h)
IsKept-act (agent_writes q) w p h = IsKept-write_loop (suc (length q)) q w h
IsKept-act (agent_closes reason) w p h =
    if-intro {A = Side} IsKept w.session.up_closed (λ _. h)
      (λ _. IsKept-send _ _ (record { alive = h.alive; listed = h.listed; halves = h.halves }))
IsKept-act (tunnel_is conn) w p h = record { alive = h.alive; listed = h.listed; halves = h.halves }

-- While every write to the agent goes well, no run of frames, agent's bytes and closes of either side,
-- however long, ends a session at the sidecar: it stays on the client's table, also when both halves
-- are closed. The session was on the table and alive, and the agent's connection can be half closed.
pub side_run-IsKept :
    (acts : List SideAct) (w : Side) → All AgentTakes acts → IsKept w → IsKept (side_run acts w)
unfolding side_run
side_run-IsKept [] w p h = h
side_run-IsKept (a ∷ acts) w p h = side_run-IsKept acts (side_act a w) p.1 (IsKept-act a w p.0 h)

resend-up_closed :
    (offset : ℕ) (r : Result Bytes) (w : Side) (closed : Bool)
    → (resend offset r (record w { session = record w.session { up_closed = closed } })).conn
      ≡ (resend offset r w).conn
unfolding send
resend-up_closed offset (err e) w closed = refl
resend-up_closed offset (ok []) w closed = refl
resend-up_closed offset (ok (x ∷ xs)) w closed = refl

-- From `w` to `w'` no frame was sent, and the tunnel `tc` that comes next tells nothing of `w'` from `w`: not
-- by the ATTACH, not by the answer to its reply, and not by a close.
pub record IsForgotten (w w' : Side) : Type 0 where
  pub dropped : w'.conn ≡ none
  pub attaches : session_attach_frame w'.session ≡ session_attach_frame w.session
  pub answers :
      (tc : Conn) (offset : ℕ)
      → (on_attach_ok offset (record w' { conn = some tc })).conn
        ≡ (on_attach_ok offset (record w { conn = some tc })).conn
  pub closes :
      (tc : Conn) (again : Bytes)
      → close_up again (record w' { conn = some tc }) ≡ record w' { conn = some tc }

-- The agent finishes while the tunnel is down, and the sidecar's CLOSE is dropped. Nothing makes up for
-- it: on the next tunnel the ATTACH is the one of a session that is still open, the answer to its reply
-- sends the same, and another call of `CloseUp` does nothing.
pub close_up-IsForgotten :
    (reason : Bytes) (w : Side)
    → w.conn ≡ none
    → w.session.up_closed ≡ false
    → IsForgotten w (close_up reason w)
unfolding close_up send session_attach_frame on_attach_ok
close_up-IsForgotten reason w down open_up =
    if-intro {A = Side} (IsForgotten w) w.session.up_closed (λ closed. absurd cc)
      (λ _. record {
        dropped = ap (Option.map (write_through (close_frame w.session.session_id reason))) down;
        attaches = refl;
        answers = λ tc offset.
            resend-up_closed offset (Buffer.from (Buffer.trim_to w.session.up_buf offset) offset)
              (record w {
                conn = some tc;
                session = record w.session { up_buf = Buffer.trim_to w.session.up_buf offset };
              })
              true;
        closes = λ tc again. refl;
      })
