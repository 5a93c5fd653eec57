-- ===== src/Broker/Session/Downlink.antt =====
-- internal/broker/session.go: bytes from the destination to the agent.
pub mod Produce
pub mod Wakes
pub mod Attach
pub mod Oversize
use substrate_poc.Prelude.{
  ◌>>=◌, ℕ, zero, suc, ◌+◌, ◌%◌, false, not, ◌&&◌, Option, none, some, List, [], ◌∷◌, ◌++◌, ltb,
  ◌==◌, if◌then◌else◌, length, take, drop, Bytes, u64_mod, codes, Error, Result, ok, err,
}
use substrate_poc.Tunnel.Frame.{attach_ok, data_frame, Frame, zero_frame}
use substrate_poc.Tunnel.Buffer
use substrate_poc.Broker.Session.State.{
  Session, World, wake, write, send_to_sidecar, close_down, is_bound,
}

abbrev pub data_at : ℕ → ℕ → Bytes → Frame
data_at session_id offset payload = record zero_frame {
  typ = data_frame;
  session_id = session_id;
  offset = offset;
  payload = payload;
}

-- How a run of `produceDownstream` ends. `blocked` waits on the condition with bytes left;
-- `stuck` is no Go value: the fuel ran out.
pub data Produced : Type 0 where
  finished : Produced
  blocked : Bytes → Produced
  died : Produced
  refused : Error → Produced
  stuck : Produced

-- As much of `p` as the buffer has room for.
abbrev pub take_size : World → Bytes → ℕ
take_size w p =
    let room = Buffer.free w.session.down_buf in if ltb room (length p) then room else length p

abbrev pub unbind_on_error : World × Option Error → World
unbind_on_error (w, none) = w
unbind_on_error (w, some e) = record w { session = record w.session { tconn = none } }

abbrev pub forward_on : Option ℕ → Frame → World → World
forward_on none f w = w
forward_on (some tc) f w = unbind_on_error (write tc f w)

-- Sends the chunk if the session is attached; a failed write unbinds.
unfoldable pub forward : ℕ → Bytes → World → World
unfolding write
forward offset chunk w = forward_on w.session.tconn (data_at w.session.session_id offset chunk) w

unfoldable pub wake_if_pending : World → World
unfolding wake
wake_if_pending w =
    if not (is_bound w.session.tconn) && w.session.request_outstanding
    then wake (codes "downstream data on pending session") w
    else w

-- One round of the loop: `chunk` is appended, sent or kept, and the actor may be woken.
unfoldable pub produce_chunk : Bytes → World → Result World
produce_chunk chunk w = do
  buf ← Buffer.append w.session.down_buf chunk
  ok (
      wake_if_pending (
        forward (Buffer.end w.session.down_buf) chunk
          (record w { session = record w.session { down_buf = buf } })))

-- The loop, which holds the lock from one wait to the next. Each round takes at least a byte.
unfoldable pub produce_loop : ℕ → Bytes → World → World × Produced
produce_loop zero p w = (w, stuck)
produce_loop (suc fuel) [] w = (w, finished)
produce_loop (suc fuel) (x ∷ xs) w =
    let p = x ∷ xs in
    if w.session.dead
    then (w, died)
    else if Buffer.free w.session.down_buf == 0
    then (w, blocked p)
    else elim (produce_chunk (take (take_size w p) p) w) [
      | err e ↦ (w, refused e)
      | ok w' ↦ produce_loop fuel (drop (take_size w p) p) w'
    ]

unfoldable pub produce_downstream : Bytes → World → World × Produced
produce_downstream p w = produce_loop (suc (length p)) p w

-- An ack from the sidecar: it has delivered everything below `offset`.
unfoldable pub on_downstream_ack : ℕ → World → World
on_downstream_ack offset w =
    let s = w.session in
    let buf = Buffer.trim_to s.down_buf offset in
    record w {
      session = record s {
        down_buf = buf;
        request_outstanding = if length buf.buf == 0 then false else s.request_outstanding;
      };
    }

abbrev pub attach_ok_at : ℕ → ℕ → Frame
attach_ok_at session_id written = record zero_frame {
  typ = attach_ok;
  session_id = session_id;
  offset = written;
}

abbrev pub replayed : Result Bytes → Bytes
replayed (ok bs) = bs
replayed (err e) = []

-- The frames that answer an ATTACH; the first section of `onSidecarAttach` decides them.
unfoldable pub attach_answer : ℕ → Session → List Frame
attach_answer delivered s =
    let replay = replayed (Buffer.from s.down_buf delivered) in
    let down_closed =
      s.down_closed && (Buffer.end s.down_buf == (delivered + length replay) % u64_mod) in
    attach_ok_at s.session_id s.upstream_written
    ∷ ((if ltb 0 (length replay) then data_at s.session_id delivered replay ∷ [] else [])
        ++ (if down_closed then close_down s.session_id (codes "upstream EOF") ∷ [] else []))

unfoldable pub send_all : List Frame → World → World
send_all [] w = w
send_all (f ∷ fs) w = send_all fs (send_to_sidecar f w)

unfoldable pub on_sidecar_attach : ℕ → World → World
on_sidecar_attach delivered w = send_all (attach_answer delivered w.session) w
