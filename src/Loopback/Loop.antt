-- ===== src/Loopback/Loop.antt =====
-- demos/loopback-survival: the client and the server on their one connection.
pub mod History
pub mod Intact
pub mod Steps
pub mod Sound
use substrate_poc.Prelude.{ℕ, ◌+◌, ◌<◌, ◌≡◌, true, false, none, [], ◌++◌, Bytes, u64_mod, codes, ok}
use substrate_poc.Loopback.{Datum, read_data, AckFrame, read_ack}
use substrate_poc.Loopback.Server.{Serving, no_stats, accept_conn, take_frame, take_ack, put_ack}
use substrate_poc.Loopback.Client.{
  Stream, new_stream, establish, Sender, send_frame, take_ack_frame, fail_loopback,
}

-- `to_server` and `to_client` are the bytes of the connection that are written and not yet read.
pub record Loop : Type 0 where
  pub stream : Stream
  pub seq : ℕ
  pub to_server : Bytes
  pub serving : Serving
  pub to_client : Bytes

abbrev pub sender_of : Loop → Sender
sender_of l = record { stream = l.stream; seq = l.seq; sent = l.to_server }

abbrev pub after_send : Sender → Loop → Loop
after_send c l = record l { stream = c.stream; seq = c.seq; to_server = c.sent }

-- What the writer put on the connection is on its way to the client.
abbrev pub carry_acks : Loop → Loop
carry_acks l = record l {
  serving = record l.serving { written = [] };
  to_client = l.to_client ++ l.serving.written;
}

-- The reader has ended, the queue is drained and the writer is through: the server's end of the connection is
-- closed.
pub record IsHungUp (s : Serving) : Type 0 where
  pub reader_ended : s.reading ≡ false
  pub queue_drained : s.acks ≡ []
  pub hand_free : s.in_hand ≡ none

abbrev pub fails_with : Bytes → Bytes → Loop → Loop
fails_with phase text l = record l { stream = fail_loopback phase text l.stream }

module _ (update : ℕ → Bytes → ℕ) (size delay : ℕ) where
  -- One turn of a goroutine. A suspension lies between two steps, so a step's time may be any later one. Once
  -- the server has hung up, the client's reads and writes may fail; bytes of a write that fails are not read.
  pub data LoopStep (l : Loop) : Loop → Type 0 where
    client_sends :
        l.seq + 1 < u64_mod → LoopStep l (after_send (send_frame update size (sender_of l)) l)
    server_reads :
        (now : ℕ) (d : Datum) (rest : Bytes)
        → l.serving.reading ≡ true
        → read_data (update 0) l.to_server ≡ ok (d, rest)
        → LoopStep l
            (record l { serving = take_frame update delay now d l.serving; to_server = rest })
    writer_takes : LoopStep l (record l { serving = take_ack l.serving })
    writer_puts : (now : ℕ) → LoopStep l (carry_acks (record l { serving = put_ack now l.serving }))
    client_reads :
        (a : AckFrame) (rest : Bytes)
        → read_ack l.to_client ≡ ok (a, rest)
        → LoopStep l (record l { stream = take_ack_frame a l.stream; to_client = rest })
    client_read_fails :
        (text : Bytes) → IsHungUp l.serving → LoopStep l (fails_with (codes "read-ack") text l)
    client_write_fails :
        (phase text : Bytes)
        → IsHungUp l.serving
        → l.seq + 1 < u64_mod
        → LoopStep l (fails_with phase text (after_send (send_frame update size (sender_of l)) l))

  pub data LoopRun (first : Loop) : Loop → Type 0 where
    begin : LoopRun first first
    go_on : {l m : Loop} → LoopRun first l → LoopStep l m → LoopRun first m

-- The connection is established, and nothing sent.
abbrev pub first_loop : ℕ → Loop
first_loop now = record {
  stream = establish now new_stream;
  seq = 0;
  to_server = [];
  serving = accept_conn no_stats;
  to_client = [];
}
