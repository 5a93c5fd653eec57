-- ===== src/Broker/Session/Downlink/Attach.antt =====
-- internal/broker/session.go, `onSidecarAttach`: what a re-attached sidecar is sent.
use substrate_poc.Prelude.{
  ℕ, ◌+◌, ◌%◌, ◌≤◌, ◌<◌, ◌≡◌, refl, sym, ap, subst, ◌∙◌, Bool, true, false, ◌&&◌, Option, none,
  some, List, [], ◌∷◌, ◌++◌, append-nil, append_assoc, arith, ltb, ◌==◌, if◌then◌else◌, ==_iff,
  length, drop, length-drop, All, All-append, Bytes, u64_mod, codes, ok, if-intro,
}
use substrate_poc.Tunnel.Frame.{max_payload, Frame}
use substrate_poc.Tunnel.Buffer
use substrate_poc.Tunnel.Buffer.{ReplayBuffer}
use substrate_poc.Tunnel.Buffer.Stream.{Holds, end-length, from_lem}
use substrate_poc.Tunnel.Wire.{encode_body, encode_frame}
use substrate_poc.Tunnel.Wire.Fields.{put_string_ok, put_payload_ok}
use substrate_poc.Tunnel.Conn.{Conn, write_frame}
use substrate_poc.Tunnel.Conn.Delivery.{IsClean, encodings, write_frame-sent}
use substrate_poc.Broker.Session.State.{
  Session, World, update_conn, write, detach_on_error, send_on, send_to_sidecar, close_down,
}
use substrate_poc.Broker.Session.Downlink.{
  data_at, attach_ok_at, attach_answer, send_all, on_sidecar_attach,
}

-- The frames that a sidecar which has delivered `delivered` bytes of `d` is owed.
abbrev pub owed : ℕ → Bytes → Session → List Frame
owed delivered d s =
    attach_ok_at s.session_id s.upstream_written
    ∷ ((if ltb delivered (length d)
          then data_at s.session_id delivered (drop delivered d) ∷ []
          else [])
        ++ (if s.down_closed then close_down s.session_id (codes "upstream EOF") ∷ [] else []))

from-within :
    {b : ReplayBuffer} {d : Bytes} (delivered : ℕ)
    → Holds b d
    → b.base ≤ delivered
    → delivered ≤ length d
    → Buffer.from b delivered ≡ ok (drop delivered d)
from-within {b} {d} delivered h lo hi = from_lem h delivered ∙ ground arith

still_owed :
    (delivered : ℕ) (d : Bytes) → ltb 0 (length (drop delivered d)) ≡ ltb delivered (length d)
still_owed delivered d = ground (arith, length-drop delivered d)

at_end :
    (delivered : ℕ) (d : Bytes)
    → delivered ≤ length d
    → length d < u64_mod
    → (length d == (delivered + length (drop delivered d)) % u64_mod) ≡ true
at_end delivered d hi small = (==_iff _ _).1 (omega (arith, length-drop delivered d))

and-true : (b : Bool) → (b && true) ≡ b
and-true true = refl
and-true false = refl

-- The answer to an ATTACH at an offset that the buffer still reaches: ATTACH_OK with the count of bytes
-- written to the destination, then all of the destination's stream that was not delivered, in one DATA
-- frame at that offset, if there is any, and last the CLOSE, if the destination has ended.
pub attach_answer_lem :
    (delivered : ℕ) (d : Bytes) (s : Session)
    → Holds s.down_buf d
    → s.down_buf.base ≤ delivered
    → delivered ≤ length d
    → attach_answer delivered s ≡ owed delivered d s
unfolding attach_answer
attach_answer_lem delivered d s h lo hi = rw (
  from-within delivered h lo hi,
  end-length h,
  still_owed delivered d,
  at_end delivered d hi h.small,
  and-true,
)

-- From `w` to `w'` the bytes `bs` went out on `tc`, and nothing else happened.
pub record Sent (tc : ℕ) (bs : Bytes) (w w' : World) : Type 0 where
  pub session : w'.session ≡ w.session
  pub events : w'.events ≡ w.events
  pub clean : IsClean (w'.conns tc)
  pub sent : (w'.conns tc).sent ≡ (w.conns tc).sent ++ bs

pub update_conn_self : (conns : ℕ → Conn) (tc : ℕ) (c : Conn) → update_conn conns tc c tc ≡ c
update_conn_self conns tc c = ground arith

send_on-Sent :
    (tc : ℕ) (f : Frame) (w : World)
    → IsClean (w.conns tc)
    → (encode_frame f).1 ≡ none
    → Sent tc (encode_frame f).0 w (send_on (some tc) f w)
unfolding write
send_on-Sent tc f w clean e =
    let (no_error, clean', s) = write_frame-sent f clean e in
    subst
      (λ x. Sent tc (encode_frame f).0 w (
        detach_on_error tc
          ((record w { conns = update_conn w.conns tc (write_frame (w.conns tc) f).0 }), x)))
      (sym no_error)
      (record {
        session = refl;
        events = refl;
        clean = subst IsClean (sym (update_conn_self w.conns tc _)) clean';
        sent = ap (λ c. c.sent) (update_conn_self w.conns tc _) ∙ s;
      })

pub send_to_sidecar-Sent :
    (tc : ℕ) (f : Frame) (w : World)
    → w.session.tconn ≡ some tc
    → IsClean (w.conns tc)
    → (encode_frame f).1 ≡ none
    → Sent tc (encode_frame f).0 w (send_to_sidecar f w)
unfolding send_to_sidecar
send_to_sidecar-Sent tc f w bound clean e =
    subst (λ t. Sent tc (encode_frame f).0 w (send_on t f w)) (sym bound)
      (send_on-Sent tc f w clean e)

abbrev pub Encodable : Frame → Type 0
Encodable f = (encode_frame f).1 ≡ none

send_all-Sent :
    (tc : ℕ) (fs : List Frame) (w : World)
    → w.session.tconn ≡ some tc
    → IsClean (w.conns tc)
    → All Encodable fs
    → Sent tc (encodings fs) w (send_all fs w)
unfolding send_all
send_all-Sent tc [] w bound clean h = record {
  session = refl;
  events = refl;
  clean = clean;
  sent = sym (append-nil _);
}
send_all-Sent tc (f ∷ fs) w bound clean h =
    let one = send_to_sidecar-Sent tc f w bound clean h.0 in
    let rest =
      send_all-Sent tc fs (send_to_sidecar f w) (ap (λ s. s.tconn) one.session ∙ bound) one.clean
        h.1 in
    record {
      session = rest.session ∙ one.session;
      events = rest.events ∙ one.events;
      clean = rest.clean;
      sent = rest.sent ∙ rw (one.sent, append_assoc);
    }

owed-Encodable :
    (delivered : ℕ) (d : Bytes) (s : Session)
    → length d ≤ delivered + max_payload
    → All Encodable (owed delivered d s)
unfolding encode_frame encode_body
owed-Encodable delivered d s small = (
  refl,
  All-append Encodable _ _
      (if-intro {A = List Frame} (All Encodable) (ltb delivered (length d))
        (λ _. (
          ap (λ p. p.1)
              (put_payload_ok (drop delivered d) (omega (arith, length-drop delivered d))),
          tt,
        ))
        (λ _. tt))
      (if-intro {A = List Frame} (All Encodable) s.down_closed
        (λ _. (ap (λ p. p.1) (put_string_ok (codes "upstream EOF") (omega arith)), tt)) (λ _. tt)),
)

-- On a connection that is up and clean, an ATTACH at an offset that the buffer reaches, with no more
-- bytes due than one DATA frame holds, is answered by all that is owed, in order; the session and its
-- buffer stay as they are until the sidecar acknowledges.
pub on_sidecar_attach_lem :
    (tc delivered : ℕ) (d : Bytes) (w : World)
    → w.session.tconn ≡ some tc
    → IsClean (w.conns tc)
    → Holds w.session.down_buf d
    → w.session.down_buf.base ≤ delivered
    → delivered ≤ length d
    → length d ≤ delivered + max_payload
    → Sent tc (encodings (owed delivered d w.session)) w (on_sidecar_attach delivered w)
unfolding on_sidecar_attach
on_sidecar_attach_lem tc delivered d w bound clean h lo hi small =
    rw (attach_answer_lem delivered d w.session h lo hi) (
      send_all-Sent tc (owed delivered d w.session) w bound clean
        (owed-Encodable delivered d w.session small))

detached_send : (t : Option ℕ) (f : Frame) (w : World) → t ≡ none → send_on t f w ≡ w
detached_send none f w e = refl
detached_send (some tc) f w e = cc

pub send_all-detached : (fs : List Frame) (w : World) → w.session.tconn ≡ none → send_all fs w ≡ w
unfolding send_all send_to_sidecar
send_all-detached [] w e = refl
send_all-detached (f ∷ fs) w e =
    ap (send_all fs) (detached_send w.session.tconn f w e) ∙ send_all-detached fs w e
