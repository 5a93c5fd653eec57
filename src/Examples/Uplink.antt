-- ===== src/Examples/Uplink.antt =====
-- The agent's bytes on their way to the destination.
use substrate_poc.Prelude.{◌≡◌, refl, false, none, some, List, [], ◌∷◌, arith, IsSlice}
use substrate_poc.Tunnel.Conn.{write_frame}
use substrate_poc.Tunnel.Wire.{encode_frame, encode_body}
use substrate_poc.Tunnel.Frame.{dir_up}
use substrate_poc.Broker.Session.State.{arm_watchdog, send_to_sidecar, wrote}
use substrate_poc.Broker.Session.Uplink.{
  dial_connected, dial_flush, dial_upstream, on_data, on_data_accept, on_data_written,
  on_data_write, fresh_part, on_sidecar_close, dial_ok,
}
use substrate_poc.Broker.Session.Uplink.ExactlyOnce.{Uplinked}
use substrate_poc.Broker.Session.Uplink.Counting.{Advances, on_data-Advances}
use substrate_poc.Broker.Session.Uplink.DialWindow.{on_data-dial_connected}
use substrate_poc.Broker.Session.Lifetime.Forgotten.{IsUntold, run-forgets_close}
use substrate_poc.Broker.Session.{Act, run, data_comes, reads, acks, fires}
use substrate_poc.Examples.{stream, connected_session, connected, dialing}

connected-Uplinked : Uplinked connected_session stream
connected-Uplinked = record {
  small = omega arith;
  before = λ off. cc;
  after = λ _. (
    record { written = 11 ∷ 12 ∷ []; write_closed = false; closed = false },
    refl,
    omega arith,
    refl,
  );
}

dialing-Uplinked : Uplinked dialing.session stream
dialing-Uplinked = record {
  small = omega arith;
  before = λ _. (refl, refl, omega arith, refl);
  after = λ on. cc;
}

tail-IsSlice : IsSlice stream 1 (12 ∷ 13 ∷ 14 ∷ [])
tail-IsSlice = (omega arith, refl)

on_data-Advances_example :
    Advances stream 1 3 connected_session (on_data 9 wrote 1 (12 ∷ 13 ∷ 14 ∷ []) connected).session
on_data-Advances_example =
    on_data-Advances 9 1 (12 ∷ 13 ∷ 14 ∷ []) connected stream connected-Uplinked tail-IsSlice

on_data-dial_connected_example :
    on_data 10 wrote 2 (13 ∷ 14 ∷ []) (dial_connected 9 dialing).0 ≡ (dial_connected 9 dialing).0
on_data-dial_connected_example =
    on_data-dial_connected 9 10 (13 ∷ 14 ∷ []) dialing refl refl (λ e. cc)

-- Behind the CLOSE and the dial: DATA, bytes of the destination, an ack, and the watchdog.
abbrev later_acts : List Act
later_acts = data_comes 10 wrote 2 (13 ∷ 14 ∷ []) ∷ reads (21 ∷ []) none ∷ acks 1 ∷ fires ∷ []

run-forgets_close_example :
    IsUntold (run later_acts (dial_upstream (dial_ok wrote) 9 (on_sidecar_close dir_up dialing)))
run-forgets_close_example =
    run-forgets_close 9 later_acts dialing refl refl refl refl (tt, (tt, (tt, (tt, tt))))

-- A replay that is handled between the two sections of the dial: the queue is written twice.
written_twice :
    (dial_flush
      (11 ∷ 12 ∷ [])
      wrote
      (on_data 10 wrote 0 (11 ∷ 12 ∷ []) (dial_connected 9 dialing).0)).session.upstream
    ≡ some (record { written = 11 ∷ 12 ∷ 11 ∷ 12 ∷ []; write_closed = false; closed = false })
unfolding dial_flush on_data dial_connected send_to_sidecar write_frame encode_frame encode_body
    arm_watchdog fresh_part on_data_accept on_data_write on_data_written
written_twice = refl

-- DATA that is accepted on two tunnel connections before either write is counted: it is written twice.
accepted_twice :
    (on_data_write 10 wrote (
      on_data_write 9 wrote (on_data_accept 0 stream connected),
      (on_data_accept 0 stream connected).1,
    )).session.upstream
    ≡ some (record {
      written = 11 ∷ 12 ∷ 13 ∷ 14 ∷ 13 ∷ 14 ∷ [];
      write_closed = false;
      closed = false;
    })
unfolding on_data_accept on_data_write on_data_written send_to_sidecar write_frame encode_frame
    encode_body fresh_part arm_watchdog
accepted_twice = refl

-- A replay from the start of the stream: the destination gets the two bytes that are new.
replay_run :
    (on_data 9 wrote 0 stream connected).session.upstream
    ≡ some (record { written = stream; write_closed = false; closed = false })
unfolding on_data send_to_sidecar write_frame encode_frame encode_body
replay_run = refl
