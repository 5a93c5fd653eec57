-- ===== src/Broker/Session/Downlink/Oversize.antt =====
-- internal/broker/session.go, `onSidecarAttach`: a replay that is longer than a DATA frame.
use substrate_poc.Prelude.{
  ℕ, ◌+◌, ◌≤◌, ◌<◌, ◌≡◌, refl, sym, ap, subst, ◌∙◌, none, some, [], ◌∷◌, ◌++◌, arith, if◌then◌else◌,
  lt→ltb, length, drop, length-drop, Bytes, codes,
}
use substrate_poc.Tunnel.Frame.{max_payload, Frame, data_frame}
use substrate_poc.Tunnel.Buffer.Stream.{Holds}
use substrate_poc.Tunnel.Wire.{encode_body, encode_frame}
use substrate_poc.Tunnel.Conn.{Conn}
use substrate_poc.Tunnel.Conn.Delivery.{IsClean}
use substrate_poc.Tunnel.Conn.Refusal.{header, write_frame-refused}
use substrate_poc.Broker.Session.State.{
  Session, World, update_conn, detach, write, detach_on_error, send_on, send_to_sidecar, close_down,
}
use substrate_poc.Broker.Session.State.Sending.{detach-session, detach-conns, detach-unbinds}
use substrate_poc.Broker.Session.Downlink.{data_at, attach_ok_at, send_all, on_sidecar_attach}
use substrate_poc.Broker.Session.Downlink.Attach.{
  update_conn_self, send_all-detached, attach_answer_lem, send_to_sidecar-Sent, Encodable,
}

-- A replay that `encodeFrame` refuses: the session is detached, and the frame's header is left in the
-- connection's writer.
pub record Stranded (tc delivered : ℕ) (d : Bytes) (w w' : World) : Type 0 where
  pub unbound : w'.session.tconn ≡ none
  pub kept : w'.session.down_buf ≡ w.session.down_buf
  pub sent :
      (w'.conns tc).sent
      ≡ (w.conns tc).sent
        ++ (encode_frame (attach_ok_at w.session.session_id w.session.upstream_written)).0
  pub left :
      (w'.conns tc).buffered ≡ header (data_at w.session.session_id delivered (drop delivered d))

-- The same for the one refused frame.
record Refused (tc : ℕ) (f : Frame) (w w' : World) : Type 0 where
  pub unbound : w'.session.tconn ≡ none
  pub kept : w'.session.down_buf ≡ w.session.down_buf
  pub sent : (w'.conns tc).sent ≡ (w.conns tc).sent
  pub left : (w'.conns tc).buffered ≡ header f

detach-Refused :
    (tc : ℕ) (f : Frame) (w : World)
    → w.session.tconn ≡ some tc
    → Refused tc f w (
        detach tc (record w {
          conns = update_conn w.conns tc (record (w.conns tc) { buffered = header f });
        }))
detach-Refused tc f w bound =
    let w' = record w {
      conns = update_conn w.conns tc (record (w.conns tc) { buffered = header f });
    } in
    let (t, e) = detach-session tc w' in
    let same =
      ap (λ (conns : ℕ → Conn). conns tc) (detach-conns tc w') ∙ update_conn_self w.conns tc _ in
    record {
      unbound = detach-unbinds tc w' bound;
      kept = ap (λ s. s.down_buf) e;
      sent = ap (λ (c : Conn). c.sent) same;
      left = ap (λ (c : Conn). c.buffered) same;
    }

send_to_sidecar-Refused :
    (tc : ℕ) (f : Frame) (w : World)
    → w.session.tconn ≡ some tc
    → IsClean (w.conns tc)
    → f.typ ≡ data_frame
    → max_payload < length f.payload
    → Refused tc f w (send_to_sidecar f w)
unfolding send_to_sidecar write
send_to_sidecar-Refused tc f w bound clean t big =
    subst (λ x. Refused tc f w (send_on x f w)) (sym bound)
      (subst
        (λ r.
          Refused tc f w
            (detach_on_error tc (record w { conns = update_conn w.conns tc r.0 }, r.1)))
        (sym (write_frame-refused (w.conns tc) f clean t big)) (detach-Refused tc f w bound))

first-Encodable : (s : Session) → Encodable (attach_ok_at s.session_id s.upstream_written)
unfolding encode_frame encode_body
first-Encodable s = refl

-- With more bytes due than one DATA frame holds, an ATTACH is answered by ATTACH_OK alone: the replay
-- is refused by the encoder, which detaches the session from the connection that it has just come
-- back on, with the refused header left in the connection's writer and the buffer as it was.
pub on_sidecar_attach_oversize :
    (tc delivered : ℕ) (d : Bytes) (w : World)
    → w.session.tconn ≡ some tc
    → IsClean (w.conns tc)
    → Holds w.session.down_buf d
    → w.session.down_buf.base ≤ delivered
    → delivered + max_payload < length d
    → Stranded tc delivered d w (on_sidecar_attach delivered w)
unfolding on_sidecar_attach send_all
on_sidecar_attach_oversize tc delivered d w bound clean h lo big =
    let s = w.session in
    let first = attach_ok_at s.session_id s.upstream_written in
    let replay = data_at s.session_id delivered (drop delivered d) in
    let ends = if s.down_closed then close_down s.session_id (codes "upstream EOF") ∷ [] else [] in
    let one = send_to_sidecar-Sent tc first w bound clean (first-Encodable s) in
    let two =
      send_to_sidecar-Refused tc replay (send_to_sidecar first w)
        (ap (λ x. x.tconn) one.session ∙ bound) one.clean refl
        (omega (arith, length-drop delivered d)) in
    let none_left =
      send_all-detached ends (send_to_sidecar replay (send_to_sidecar first w)) two.unbound in
    rw
      (
        attach_answer_lem delivered d w.session h lo (omega arith),
        lt→ltb delivered (length d) (omega arith),
      )
      (subst (Stranded tc delivered d w) (sym none_left) (record {
        unbound = two.unbound;
        kept = two.kept ∙ ap (λ x. x.down_buf) one.session;
        sent = two.sent ∙ one.sent;
        left = two.left;
      }))
