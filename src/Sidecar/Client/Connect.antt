-- ===== src/Sidecar/Client/Connect.antt =====
-- internal/sidecar/client.go: what a fresh tunnel carries first, and that frames reach their session only.
use substrate_poc.Prelude.{
  ℕ, ◌≡◌, refl, sym, ap, subst, ◌∙◌, ◌≢◌, false, Option, some, List, [], ◌∷◌, ◌++◌, append-nil,
  append_assoc, arith, ◌==◌, ==_iff, All, Bytes, if-intro,
}
use substrate_poc.Tunnel.Frame.{
  FrameType, Frame, zero_frame, hello, open_frame, attach, attach_ok, data_frame, ack, close, ping,
  pong, unknown,
}
use substrate_poc.Tunnel.Conn.{Conn, write_frame}
use substrate_poc.Tunnel.Conn.Delivery.{IsClean, FrameFits, encodings, write_frame-sent}
use substrate_poc.Tunnel.Wire.{encode_frame}
use substrate_poc.Tunnel.Wire.RoundTrip.{decode_frame-encode_frame}
use substrate_poc.Sidecar.Session.{ClientSession, Side, session_attach_frame, on_frame}
use substrate_poc.Sidecar.Client.{
  read_as, Client, put_at, is_listed, on_side, write_on, hello_of, attach_each, greeted_on, connect,
  on_listed, read_frame,
}

-- The ATTACH of a session: its number, the count of bytes that its agent has got, and its target.
abbrev pub attach_of : ClientSession → Frame
attach_of s = record zero_frame {
  typ = attach;
  session_id = s.session_id;
  offset = s.down_delivered;
  target = s.target;
}

session_attach_frame_lem : (s : ClientSession) → session_attach_frame s ≡ attach_of s
unfolding session_attach_frame
session_attach_frame_lem s = refl

-- The HELLO of an actor.
abbrev pub greeting : Bytes → Frame
greeting actor_id = record zero_frame { typ = hello; actor_id = actor_id }

-- The ATTACH frames of sessions.
abbrev pub attaches_of : (ℕ → ClientSession) → List ℕ → List Frame
attaches_of cells [] = []
attaches_of cells (id ∷ ids) = attach_of (cells id) ∷ attaches_of cells ids

put_at-hit : (conns : ℕ → Conn) (tc : ℕ) (c : Conn) → put_at conns tc c tc ≡ c
put_at-hit conns tc c = rw ((==_iff tc tc).1 refl) refl

-- From `c` to `c'` the frames went out on `tc`, and the sessions are as they were.
pub record Carried (tc : ℕ) (fs : List Frame) (c c' : Client) : Type 0 where
  pub clean : IsClean (c'.conns tc)
  pub sent : (c'.conns tc).sent ≡ (c.conns tc).sent ++ encodings fs
  pub cells : c'.cells ≡ c.cells

write_on-Carried :
    (tc : ℕ) (f : Frame) (c : Client)
    → IsClean (c.conns tc)
    → FrameFits f
    → Carried tc (f ∷ []) c (write_on tc f c)
unfolding write_on
write_on-Carried tc f c clean fits =
    let (_, clean', sent) = write_frame-sent f clean (decode_frame-encode_frame f [] fits).0 in
    let hit = put_at-hit c.conns tc (write_frame (c.conns tc) f).0 in
    record {
      clean = subst IsClean (sym hit) clean';
      sent =
          ap (λ (x : Conn). x.sent) hit
          ∙ sent
          ∙ ap (λ t. (c.conns tc).sent ++ t) (sym (append-nil _));
      cells = refl;
    }

Carried-then :
    (tc : ℕ) (f : Frame) (fs : List Frame) (c c' c'' : Client)
    → Carried tc (f ∷ []) c c'
    → Carried tc fs c' c''
    → Carried tc (f ∷ fs) c c''
Carried-then tc f fs c c' c'' h k = record {
  clean = k.clean;
  sent =
      k.sent
      ∙ ap (λ t. t ++ encodings fs) (h.sent ∙ ap (λ t. (c.conns tc).sent ++ t) (append-nil _))
      ∙ append_assoc (c.conns tc).sent (encode_frame f).0 (encodings fs);
  cells = k.cells ∙ h.cells;
}

attach_each-Carried :
    (tc : ℕ) (ids : List ℕ) (c : Client)
    → IsClean (c.conns tc)
    → All FrameFits (attaches_of c.cells ids)
    → Carried tc (attaches_of c.cells ids) c (attach_each tc ids c)
unfolding attach_each
attach_each-Carried tc [] c clean fits = record {
  clean = clean;
  sent = sym (append-nil _);
  cells = refl;
}
attach_each-Carried tc (id ∷ ids) c clean fits =
    let f = attach_of (c.cells id) in
    let c' = write_on tc f c in
    let h = write_on-Carried tc f c clean fits.0 in
    subst (λ g. Carried tc (f ∷ attaches_of c.cells ids) c (attach_each tc ids (write_on tc g c)))
      (sym (session_attach_frame_lem (c.cells id)))
      (Carried-then tc f (attaches_of c.cells ids) c c' (attach_each tc ids c') h (
        subst (λ cells. Carried tc (attaches_of cells ids) c' (attach_each tc ids c')) h.cells
          (attach_each-Carried tc ids c' h.clean
            (subst (λ cells. All FrameFits (attaches_of cells ids)) (sym h.cells) fits.1))))

-- A client that connects, on a connection that is up, sends HELLO with the actor's name and then the ATTACH
-- of every session on the table, each with the offset that the session has delivered, and nothing else; the
-- sessions are as they were. The frames' fields fit their bounds.
pub connect-Carried :
    (tc now : ℕ) (actor_id : Bytes) (c : Client)
    → IsClean (c.conns tc)
    → FrameFits (greeting actor_id)
    → All FrameFits (attaches_of c.cells c.listed)
    → Carried tc (greeting actor_id ∷ attaches_of c.cells c.listed) c (connect tc now actor_id c)
unfolding connect write_on
connect-Carried tc now actor_id c clean fits all_fit =
    let f = hello_of actor_id in
    let c' = write_on tc f c in
    let h = write_on-Carried tc f c clean fits in
    let (well, _, _) = write_frame-sent f clean (decode_frame-encode_frame f [] fits).0 in
    let up = record c' { conn = some tc; last_pong = now } in
    let k = attach_each-Carried tc c.listed up h.clean all_fit in
    subst (λ e. Carried tc (f ∷ attaches_of c.cells c.listed) c (greeted_on tc now e c')) (sym well)
      (Carried-then tc f (attaches_of c.cells c.listed) c c' (attach_each tc c.listed up) h
        (record { clean = k.clean; sent = k.sent; cells = k.cells }))

on_side-other :
    (id n : ℕ) (method : Side → Side) (c : Client)
    → id ≢ n
    → (on_side n method c).cells id ≡ c.cells id
unfolding on_side
on_side-other id n method c other = let differ : (id == n) ≡ false = ground arith in rw differ refl

read_as-cells :
    (t : FrameType) (id tc now nonce : ℕ) (dispatched c : Client)
    → dispatched.cells id ≡ c.cells id
    → (read_as t tc now nonce dispatched c).cells id ≡ c.cells id
unfolding read_as write_on
read_as-cells pong id tc now nonce dispatched c h = refl
read_as-cells ping id tc now nonce dispatched c h = refl
read_as-cells attach_ok id tc now nonce dispatched c h = h
read_as-cells data_frame id tc now nonce dispatched c h = h
read_as-cells ack id tc now nonce dispatched c h = h
read_as-cells close id tc now nonce dispatched c h = h
read_as-cells hello id tc now nonce dispatched c h = refl
read_as-cells open_frame id tc now nonce dispatched c h = refl
read_as-cells attach id tc now nonce dispatched c h = refl
read_as-cells (unknown n) id tc now nonce dispatched c h = refl

-- A frame on the tunnel leaves every session alone but the one that it names.
pub read_frame-isolates :
    (id tc now : ℕ) (fault : Option ℕ) (f : Frame) (c : Client)
    → f.session_id ≢ id
    → (read_frame tc now fault f c).cells id ≡ c.cells id
unfolding read_frame
read_frame-isolates id tc now fault f c other =
    read_as-cells f.typ id tc now f.nonce (on_listed f.session_id (on_frame fault f) c) c (
      if-intro {A = Client} (λ x. x.cells id ≡ c.cells id) (is_listed f.session_id c.listed)
        (λ _. on_side-other id f.session_id (on_frame fault f) c (λ e. other (sym e))) (λ _. refl))
