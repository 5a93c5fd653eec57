-- ===== src/Loopback/Server.antt =====
-- demos/loopback-survival/server/main.go: what the server counts of the client's frames, and its delayed acks.
-- `update` is `crc32.Update` with the IEEE table. Times are nanoseconds.
use substrate_poc.Prelude.{
  ℕ, ◌+◌, ◌%◌, Bool, true, false, not, ◌&&◌, Option, none, some, List, [], ◌∷◌, ◌++◌, ltb, ◌==◌,
  if◌then◌else◌, length, Bytes, u64_mod,
}
use substrate_poc.Loopback.{Datum, AckFrame, write_ack}

abbrev pub update_crc : (ℕ → Bytes → ℕ) → ℕ → Bytes → ℕ
update_crc update crc payload = update crc payload

pub record ServerStats : Type 0 where
  pub connections_accepted : ℕ
  pub frames_received : ℕ
  pub bytes_received : ℕ
  pub last_seq_received : ℕ
  pub running_crc : ℕ
  pub seq_violations : ℕ
  pub crc_violations : ℕ
  pub last_conn_error : Bytes

pub record PendingAck : Type 0 where
  pub ack : AckFrame
  pub not_before : ℕ

abbrev pub ack_queue : ℕ
ack_queue = 1024

-- `acks` is the channel; `in_hand` is the ack that the writer has taken off it and holds back; `written` is
-- what it has put on the connection. `reading` ends with the reader.
pub record Serving : Type 0 where
  pub stats : ServerStats
  pub acks : List PendingAck
  pub in_hand : Option PendingAck
  pub reading : Bool
  pub written : Bytes

abbrev pub no_stats : ServerStats
no_stats = record {
  connections_accepted = 0;
  frames_received = 0;
  bytes_received = 0;
  last_seq_received = 0;
  running_crc = 0;
  seq_violations = 0;
  crc_violations = 0;
  last_conn_error = [];
}

-- A connection is accepted.
unfoldable pub accept_conn : ServerStats → Serving
accept_conn st = record {
  stats = record st { connections_accepted = st.connections_accepted + 1 };
  acks = [];
  in_hand = none;
  reading = true;
  written = [];
}

-- The counts behind a frame whose checksum is right.
unfoldable pub count_frame : (ℕ → Bytes → ℕ) → ℕ → Bytes → ServerStats → ServerStats
count_frame update seq payload st = record st {
  seq_violations =
      if ltb 0 st.frames_received && not (seq == (st.last_seq_received + 1) % u64_mod)
      then st.seq_violations + 1
      else st.seq_violations;
  last_seq_received = seq;
  frames_received = (st.frames_received + 1) % u64_mod;
  bytes_received = (st.bytes_received + length payload) % u64_mod;
  running_crc = update_crc update st.running_crc payload;
}

abbrev pub ack_of : ℕ → ServerStats → AckFrame
ack_of seq st = record {
  ack_seq = seq;
  total_bytes = st.bytes_received;
  running_crc = st.running_crc;
}

-- A full queue ends the reader.
unfoldable pub enqueue_ack : PendingAck → Serving → Serving
enqueue_ack a s =
    if ltb (length s.acks) ack_queue
    then record s { acks = s.acks ++ a ∷ [] }
    else record s { reading = false }

abbrev pub pending_ack : ℕ → ℕ → ServerStats → PendingAck
pending_ack seq not_before st = record { ack = ack_of seq st; not_before = not_before }

-- One round of the reader's loop, with a frame.
unfoldable pub take_frame : (ℕ → Bytes → ℕ) → ℕ → ℕ → Datum → Serving → Serving
unfolding count_frame enqueue_ack
take_frame update delay now d s =
    let st = count_frame update d.seq d.payload s.stats in
    if d.intact
    then enqueue_ack (pending_ack d.seq (now + delay) st) (record s { stats = st })
    else record s { stats = record s.stats { crc_violations = s.stats.crc_violations + 1 } }

-- One round, with an error: the end of the stream (`none`), or another with its text.
unfoldable pub end_conn : Option Bytes → Serving → Serving
end_conn none s = record s { reading = false }
end_conn (some text) s = record s {
  stats = record s.stats { last_conn_error = text };
  reading = false;
}

abbrev pub take_next : Option PendingAck → List PendingAck → Serving → Serving
take_next (some held) acks s = s
take_next none [] s = s
take_next none (a ∷ rest) s = record s { acks = rest; in_hand = some a }

-- The writer takes the next ack off the queue, if its hand is free.
unfoldable pub take_ack : Serving → Serving
take_ack s = take_next s.in_hand s.acks s

abbrev pub put_held : ℕ → Option PendingAck → Serving → Serving
put_held now none s = s
put_held now (some a) s =
    if ltb now a.not_before
    then s
    else record s { in_hand = none; written = s.written ++ write_ack a.ack }

-- It has slept until the ack may go.
unfoldable pub put_ack : ℕ → Serving → Serving
put_ack now s = put_held now s.in_hand s
