-- ===== src/Resume/Downward.antt =====
-- After a reconnect: the destination's bytes that the agent does not have yet.
use substrate_poc.Prelude.{
  ℕ, ◌+◌, ◌≤◌, ◌≡◌, refl, sym, ap, subst, ◌∙◌, Bool, true, false, ◌||◌, none, List, [], ◌∷◌, ◌++◌,
  arith, ltb, if◌then◌else◌, length, take, drop, length-drop, take-all, All, All-append, Bytes,
  codes, Result, ok, err, IsSlice-rest, if-intro, option-intro,
}
use substrate_poc.Tunnel.Frame.{max_payload, Frame}
use substrate_poc.Tunnel.Buffer
use substrate_poc.Tunnel.Buffer.Stream.{Holds}
use substrate_poc.Broker.Session.State.{Session, close_down}
use substrate_poc.Broker.Session.Downlink.{attach_answer, data_at}
use substrate_poc.Broker.Session.Downlink.Attach.{owed, attach_answer_lem}
use substrate_poc.Sidecar.Session.{
  Side, send, deliver_accept, deliver_written, deliver_write, deliver_down, session_attach_frame,
  resend, on_attach_ok, on_close, on_frame,
}
use substrate_poc.Sidecar.Session.Deliver.{HasDelivered, deliver_down-completes}
use substrate_poc.Resume.{frames_come, trimmed, IsSendable}

-- Nothing that `deliverDown` reads changed.
abbrev SameDown : Side → Side → Type 0
SameDown v v' =
    (v'.session.dead ≡ v.session.dead)
    × (v'.session.down_delivered ≡ v.session.down_delivered)
    × (v'.session.agent ≡ v.session.agent)

resend-SameDown : (offset : ℕ) (r : Result Bytes) (v : Side) → SameDown v (resend offset r v)
unfolding send
resend-SameDown offset (err e) v = (refl, refl, refl)
resend-SameDown offset (ok []) v = (refl, refl, refl)
resend-SameDown offset (ok (x ∷ xs)) v = (refl, refl, refl)

on_attach_ok-SameDown : (offset : ℕ) (v : Side) → SameDown v (on_attach_ok offset v)
unfolding on_attach_ok
on_attach_ok-SameDown offset v =
    resend-SameDown offset (Buffer.from (Buffer.trim_to v.session.up_buf offset) offset)
      (trimmed offset v)

-- The agent has all of `d`; its connection can be half closed, and is so or not.
abbrev Caught : Bytes → Bool → Side → Type 0
Caught d halved v =
    (v.session.agent.received ≡ d)
    × (v.session.agent.can_half_close ≡ true)
    × (v.session.agent.half_closed ≡ halved)

HasDelivered-same :
    (d : Bytes) (v v' : Side) → SameDown v v' → HasDelivered v.session d → HasDelivered v'.session d
HasDelivered-same d v v' (_, same, agent) h = record {
  small = h.small;
  within = omega (arith, same, h.within);
  front = ap (λ a. a.received) agent ∙ h.front ∙ ap (λ n. take n d) (sym same);
}

deliver_down-halves :
    (offset : ℕ) (payload : Bytes) (v : Side)
    → (let agent = (deliver_down none offset payload v).session.agent in
        (agent.can_half_close ≡ v.session.agent.can_half_close)
        × (agent.half_closed ≡ v.session.agent.half_closed))
unfolding deliver_down deliver_write deliver_written send
deliver_down-halves offset payload v =
    option-intro
      (λ o.
        (let agent = (deliver_write none o v).session.agent in
          (agent.can_half_close ≡ v.session.agent.can_half_close)
          × (agent.half_closed ≡ v.session.agent.half_closed)))
      (deliver_accept offset payload v) (λ _. (refl, refl)) (λ p _. (refl, refl))

frames_come-append :
    (fs gs : List Frame) (v : Side) → frames_come (fs ++ gs) v ≡ frames_come gs (frames_come fs v)
frames_come-append [] gs v = refl
frames_come-append (f ∷ fs) gs v = frames_come-append fs gs (on_frame none f v)

data_comes-Caught :
    (session_id delivered : ℕ) (d : Bytes) (v : Side)
    → v.session.dead ≡ false
    → v.session.agent.can_half_close ≡ true
    → HasDelivered v.session d
    → delivered ≡ v.session.down_delivered
    → Caught d v.session.agent.half_closed (
        frames_come
          (if ltb delivered (length d)
            then data_at session_id delivered (drop delivered d) ∷ []
            else [])
          v)
unfolding on_frame
data_comes-Caught session_id delivered d v alive half h e =
    if-intro {A = List Frame} (λ fs. Caught d v.session.agent.half_closed (frames_come fs v))
      (ltb delivered (length d))
      (λ some_left.
        let halves = deliver_down-halves delivered (drop delivered d) v in
        (
          deliver_down-completes delivered (drop delivered d) d v alive h
              (IsSlice-rest d delivered (omega (arith, h.within))) (omega arith)
              (omega (arith, h.within, length-drop delivered d)),
          halves.0 ∙ half,
          halves.1,
        ))
      (λ all. (h.front ∙ take-all _ d (ground (arith, h.within)), half, refl))

-- The agent has all of `d`, and its connection is half closed, or is not.
abbrev pub Resumed : Bytes → Bool → Side → Type 0
Resumed d halved v = (v.session.agent.received ≡ d) × (v.session.agent.half_closed ≡ halved)

close_comes-Resumed :
    (session_id : ℕ) (reason : Bytes) (closed halved : Bool) (d : Bytes) (v : Side)
    → Caught d halved v
    → Resumed d
        (closed || halved)
        (frames_come (if closed then close_down session_id reason ∷ [] else []) v)
unfolding on_frame on_close
close_comes-Resumed session_id reason false halved d v h = (h.0, h.2)
close_comes-Resumed session_id reason true halved d v h =
    if-intro {A = Side} (Resumed d true) v.session.agent.can_half_close (λ _. (h.0, refl))
      (λ never. absurd (cc h.1))

attach_answer-Resumed :
    (d : Bytes) (s : Session) (v : Side)
    → Holds s.down_buf d
    → s.down_buf.base ≤ v.session.down_delivered
    → v.session.dead ≡ false
    → v.session.agent.can_half_close ≡ true
    → HasDelivered v.session d
    → Resumed d
        (s.down_closed || v.session.agent.half_closed)
        (frames_come (attach_answer (session_attach_frame v.session).offset s) v)
unfolding session_attach_frame on_frame
attach_answer-Resumed d s v held lo alive half h =
    let n = v.session.down_delivered in
    let v₁ = on_attach_ok s.upstream_written v in
    let same = on_attach_ok-SameDown s.upstream_written v in
    let v₂ =
      frames_come (if ltb n (length d) then data_at s.session_id n (drop n d) ∷ [] else []) v₁ in
    let v₃ =
      frames_come
        (if s.down_closed then close_down s.session_id (codes "upstream EOF") ∷ [] else []) v₂ in
    let done = Resumed d (s.down_closed || v.session.agent.half_closed) in
    subst (λ fs. done (frames_come fs v)) (sym (attach_answer_lem n d s held lo h.within))
      (subst done
        (sym (
          frames_come-append
            (if ltb n (length d) then data_at s.session_id n (drop n d) ∷ [] else [])
            (if s.down_closed then close_down s.session_id (codes "upstream EOF") ∷ [] else []) v₁))
        (subst (λ b. Resumed d (s.down_closed || b) v₃) (ap (λ a. a.half_closed) same.2)
          (close_comes-Resumed s.session_id (codes "upstream EOF") s.down_closed
            v₁.session.agent.half_closed d v₂
            (data_comes-Caught s.session_id n d v₁ (same.0 ∙ alive)
              (ap (λ a. a.can_half_close) same.2 ∙ half) (HasDelivered-same d v v₁ same h)
              (sym same.1)))))

owed-IsSendable :
    (delivered : ℕ) (d : Bytes) (s : Session)
    → length d ≤ delivered + max_payload
    → All IsSendable (owed delivered d s)
owed-IsSendable delivered d s fits = (
  omega arith,
  All-append IsSendable
      (if ltb delivered (length d)
        then data_at s.session_id delivered (drop delivered d) ∷ []
        else [])
      (if s.down_closed then close_down s.session_id (codes "upstream EOF") ∷ [] else [])
      (if-intro {A = List Frame} (All IsSendable) (ltb delivered (length d))
        (λ _. (omega (arith, length-drop delivered d), tt)) (λ _. tt))
      (if-intro {A = List Frame} (All IsSendable) s.down_closed (λ _. (omega arith, tt)) (λ _. tt)),
)

-- The destination has sent `d`, of which the sidecar has delivered a front, and the broker has trimmed
-- no more than that. When the tunnel is back and the sidecar's ATTACH reaches the broker, the frames
-- that answer it, none of them too long to send, bring the agent the whole of `d` if they are handled in
-- order, and the close, if the destination has closed: the agent's connection is half closed then, or
-- was before. No more of `d` is due than one DATA frame holds. The sidecar's session is alive, its
-- writes to the agent go well, and the agent's connection can be half closed.
pub attach_answer-resumes :
    (d : Bytes) (s : Session) (v : Side)
    → Holds s.down_buf d
    → s.down_buf.base ≤ v.session.down_delivered
    → v.session.dead ≡ false
    → v.session.agent.can_half_close ≡ true
    → HasDelivered v.session d
    → length d ≤ v.session.down_delivered + max_payload
    → All IsSendable (attach_answer v.session.down_delivered s)
      × Resumed d
          (s.down_closed || v.session.agent.half_closed)
          (frames_come (attach_answer (session_attach_frame v.session).offset s) v)
attach_answer-resumes d s v held lo alive half h fits =
    let n = v.session.down_delivered in
    (
      subst (All IsSendable) (sym (attach_answer_lem n d s held lo h.within))
          (owed-IsSendable n d s fits),
      attach_answer-Resumed d s v held lo alive half h,
    )
