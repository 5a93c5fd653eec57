-- ===== src/Broker/Session/Uplink.antt =====
-- internal/broker/session.go: bytes from the agent to the destination.
pub mod ExactlyOnce
pub mod Completion
pub mod Counting
pub mod DialWindow
use mathlib.Core.Option
use substrate_poc.Prelude.{
  ℕ, ◌+◌, ◌-◌, ◌%◌, true, not, Option, none, some, [], ◌∷◌, ◌++◌, ltb, leb, ◌==◌, if◌then◌else◌,
  length, take, drop, Bytes, u64_mod, codes,
}
use substrate_poc.Tunnel.Frame.{ack, dir_up, Frame, zero_frame}
use substrate_poc.Broker.Session.State.{
  Upstream, fresh_upstream, Outcome, wrote, failed, broken, Session, World, arm_watchdog,
  send_to_sidecar, close_upstream, close_down, destroy, maybe_destroy,
}

abbrev pub ack_at : ℕ → ℕ → Frame
ack_at session_id offset = record zero_frame { typ = ack; session_id = session_id; offset = offset }

-- `conn.Write(p)`
abbrev pub socket_write : Outcome → Bytes → Upstream → Upstream
socket_write wrote p up = record up { written = up.written ++ p }
socket_write (failed n text) p up = record up { written = up.written ++ take n p }

abbrev pub write_upstream : Outcome → Bytes → World → World
write_upstream outcome p w = record w {
  session = record w.session { upstream = Option.map (socket_write outcome p) w.session.upstream };
}

-- The first section of a dial that succeeded: the bytes to flush, or `none` if the session died.
unfoldable pub dial_connected : ℕ → World → World × Option Bytes
unfolding arm_watchdog
dial_connected now w =
    let s = w.session in
    if s.dead then (w, none) else (
      record w {
        session =
            arm_watchdog now
              (record s { upstream = some fresh_upstream; connected = true; pre_conn = [] });
      },
      some s.pre_conn,
    )

-- The second section, behind a write that went well.
unfoldable pub dial_flushed : Bytes → World → World
dial_flushed pre w =
    let s = w.session in
    let written = (s.upstream_written + length pre) % u64_mod in
    send_to_sidecar (ack_at s.session_id written)
      (record w { session = record s { upstream_written = written; request_outstanding = true } })

unfoldable pub dial_flush : Bytes → Outcome → World → World
unfolding dial_flushed
dial_flush [] outcome w = w
dial_flush (x ∷ pre) wrote w = dial_flushed (x ∷ pre) (write_upstream wrote (x ∷ pre) w)
dial_flush (x ∷ pre) (failed n text) w =
    close_upstream (broken text) (write_upstream (failed n text) (x ∷ pre) w)

-- The dial fails with a text, or succeeds; then the flush has its own outcome.
pub data Dialed : Type 0 where
  dial_failed : Bytes → Dialed
  dial_ok : Outcome → Dialed

abbrev pub flush_if_alive : Outcome → World × Option Bytes → World
flush_if_alive outcome (w, none) = w
flush_if_alive outcome (w, some pre) = dial_flush pre outcome w

unfoldable pub dial_upstream : Dialed → ℕ → World → World
unfolding dial_connected dial_flush
dial_upstream (dial_failed text) now w =
    destroy (send_to_sidecar (close_down w.session.session_id (codes "dial failed: " ++ text)) w)
dial_upstream (dial_ok outcome) now w = flush_if_alive outcome (dial_connected now w)

-- DATA before the dial completes: it is queued, less what was queued already.
unfoldable pub queue_pre_conn : ℕ → Bytes → Session → Session
queue_pre_conn offset payload s =
    let accepted = (s.upstream_written + length s.pre_conn) % u64_mod in
    if ltb offset accepted
    then if leb (length payload) (accepted - offset)
      then s
      else record s { pre_conn = s.pre_conn ++ drop (accepted - offset) payload }
    else if ltb accepted offset
    then s
    else record s { pre_conn = s.pre_conn ++ payload }

-- DATA after that: what is to be written, or `none` if it is old or out of order.
unfoldable pub fresh_part : ℕ → Bytes → ℕ → Option Bytes
fresh_part offset payload written =
    if ltb offset written
    then if leb (length payload) (written - offset)
      then none
      else some (drop (written - offset) payload)
    else if ltb written offset
    then none
    else some payload

-- The first section of `onData`.
unfoldable pub on_data_accept : ℕ → Bytes → World → World × Option Bytes
unfolding queue_pre_conn fresh_part
on_data_accept offset payload w =
    let s = w.session in
    if s.dead
    then (w, none)
    else if not s.connected
    then (record w { session = queue_pre_conn offset payload s }, none)
    else (w, fresh_part offset payload s.upstream_written)

-- The second section, behind a write that went well.
unfoldable pub on_data_written : ℕ → Bytes → World → World
unfolding arm_watchdog
on_data_written now payload w =
    let s = w.session in
    let written = (s.upstream_written + length payload) % u64_mod in
    send_to_sidecar (ack_at s.session_id written) (record w {
      session =
          arm_watchdog now (record s { upstream_written = written; request_outstanding = true });
    })

unfoldable pub on_data_write : ℕ → Outcome → World × Option Bytes → World
unfolding on_data_written
on_data_write now outcome (w, none) = w
on_data_write now wrote (w, some payload) =
    on_data_written now payload (write_upstream wrote payload w)
on_data_write now (failed n text) (w, some payload) =
    close_upstream (broken text) (write_upstream (failed n text) payload w)

unfoldable pub on_data : ℕ → Outcome → ℕ → Bytes → World → World
unfolding on_data_accept on_data_write
on_data now outcome offset payload w = on_data_write now outcome (on_data_accept offset payload w)

abbrev pub close_write : Upstream → Upstream
close_write up = record up { write_closed = true }

-- The agent's half is closed, and the destination told so, if there is a connection to it.
abbrev pub half_close : World → World
half_close w = record w {
  session = record w.session {
    up_closed = true;
    upstream = Option.map close_write w.session.upstream;
  };
}

-- CLOSE from the sidecar: the agent sends no more.
unfoldable pub on_sidecar_close : ℕ → World → World
on_sidecar_close dir w = if dir == dir_up then maybe_destroy (half_close w) else w
