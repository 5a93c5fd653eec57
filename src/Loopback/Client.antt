-- ===== src/Loopback/Client.antt =====
-- demos/loopback-survival/client/main.go: the client's stream with its checks, its two other instruments, and
-- its report. `update` is `crc32.Update` with the IEEE table.
pub mod Instruments
pub mod Report
pub mod Events
use Prim.Native.Nat.{bit_xor}
use substrate_poc.Prelude.{
  ℕ, zero, suc, ◌+◌, ◌*◌, ◌/◌, ◌%◌, ◌^◌, Bool, true, false, not, ◌&&◌, Option, none, some, List, [],
  ◌∷◌, ◌++◌, ◌==◌, if◌then◌else◌, length, Bytes, u64_mod, codes,
}
use substrate_poc.Loopback.{AckFrame, write_data}

-- internal/wire/wire.go, `FillPayload`: one turn of the generator.
abbrev pub shifted : ℕ → ℕ
shifted x =
    let x₁ = bit_xor x (x * 2 ^ 13 % u64_mod) in
    let x₂ = bit_xor x₁ (x₁ / 2 ^ 7) in bit_xor x₂ (x₂ * 2 ^ 17 % u64_mod)

unfoldable pub fill_from : ℕ → ℕ → Bytes
fill_from zero x = []
fill_from (suc n) x = let x' = shifted x in x' % 256 ∷ fill_from n x'

unfoldable pub fill_payload : ℕ → ℕ → Bytes
unfolding fill_from
fill_payload size seq = fill_from size ((seq * 0x9E3779B97F4A7C15 + 1) % u64_mod)

-- What the ack of a frame has to report.
pub record Expected : Type 0 where
  pub crc : ℕ
  pub bytes : ℕ

-- The loopback part of `stats`. `established` is when; `none` is the zero time.
pub record Stream : Type 0 where
  pub established : Option ℕ
  pub frames_sent : ℕ
  pub bytes_sent : ℕ
  pub last_seq_sent : ℕ
  pub acks_received : ℕ
  pub last_seq_acked : ℕ
  pub send_running_crc : ℕ
  pub order_violations : ℕ
  pub crc_mismatches : ℕ
  pub bytes_mismatches : ℕ
  pub loopback_broken : Bool
  pub loopback_error : Bytes
  pub pending_crc : List (ℕ × Expected)

unfoldable pub new_stream : Stream
new_stream = record {
  established = none;
  frames_sent = 0;
  bytes_sent = 0;
  last_seq_sent = 0;
  acks_received = 0;
  last_seq_acked = 0;
  send_running_crc = 0;
  order_violations = 0;
  crc_mismatches = 0;
  bytes_mismatches = 0;
  loopback_broken = false;
  loopback_error = [];
  pending_crc = [];
}

-- `m[seq]`, `m[seq] = want`, `delete(m, seq)`
abbrev pub pending_at : ℕ → List (ℕ × Expected) → Option Expected
pending_at seq [] = none
pending_at seq ((k, want) ∷ rest) = if k == seq then some want else pending_at seq rest

abbrev pub set_pending : ℕ → Expected → List (ℕ × Expected) → List (ℕ × Expected)
set_pending seq want [] = (seq, want) ∷ []
set_pending seq want ((k, old) ∷ rest) =
    let rest' = set_pending seq want rest in
    if k == seq then (seq, want) ∷ rest else (k, old) ∷ rest'

abbrev pub delete_pending : ℕ → List (ℕ × Expected) → List (ℕ × Expected)
delete_pending seq [] = []
delete_pending seq ((k, want) ∷ rest) =
    let rest' = delete_pending seq rest in if k == seq then rest' else (k, want) ∷ rest'

-- The dial succeeded.
unfoldable pub establish : ℕ → Stream → Stream
establish now st = record st { established = some now }

-- What one tick of the sender counts.
unfoldable pub count_sent : (ℕ → Bytes → ℕ) → ℕ → Bytes → Stream → Stream
count_sent update seq payload st =
    let crc = update st.send_running_crc payload in
    let bytes = (st.bytes_sent + length payload) % u64_mod in
    record st {
      send_running_crc = crc;
      bytes_sent = bytes;
      pending_crc = set_pending seq (record { crc = crc; bytes = bytes }) st.pending_crc;
      frames_sent = (st.frames_sent + 1) % u64_mod;
      last_seq_sent = seq;
    }

-- The sender: its counts, its `seq`, and what it put on the connection.
pub record Sender : Type 0 where
  pub stream : Stream
  pub seq : ℕ
  pub sent : Bytes

-- One tick whose write and flush go well.
unfoldable pub send_frame : (ℕ → Bytes → ℕ) → ℕ → Sender → Sender
unfolding count_sent
send_frame update size c =
    let seq = (c.seq + 1) % u64_mod in
    let payload = fill_payload size seq in
    record {
      stream = count_sent update seq payload c.stream;
      seq = seq;
      sent = c.sent ++ write_data (update 0) seq payload;
    }

abbrev pub check_order : ℕ → Stream → Stream
check_order seq st =
    if not (st.last_seq_acked == 0) && not (seq == (st.last_seq_acked + 1) % u64_mod)
    then record st { order_violations = st.order_violations + 1 }
    else st

abbrev pub check_crc : ℕ → ℕ → Stream → Stream
check_crc want got st =
    if want % 2 ^ 32 == got then st else record st { crc_mismatches = st.crc_mismatches + 1 }

abbrev pub check_bytes : ℕ → ℕ → Stream → Stream
check_bytes want got st =
    if want == got then st else record st { bytes_mismatches = st.bytes_mismatches + 1 }

abbrev pub forget_pending : ℕ → Stream → Stream
forget_pending seq st = record st { pending_crc = delete_pending seq st.pending_crc }

abbrev pub check_pending : AckFrame → Option Expected → Stream → Stream
check_pending a none st = st
check_pending a (some want) st =
    forget_pending a.ack_seq
      (check_bytes want.bytes a.total_bytes (check_crc want.crc a.running_crc st))

-- One round of `readAcks`, with an ack.
unfoldable pub take_ack_frame : AckFrame → Stream → Stream
take_ack_frame a st =
    let st₁ =
      check_order a.ack_seq (record st { acks_received = (st.acks_received + 1) % u64_mod }) in
    check_pending a (pending_at a.ack_seq st.pending_crc)
      (record st₁ { last_seq_acked = a.ack_seq })

-- The stream fails, once and for all, with the first error.
unfoldable pub fail_loopback : Bytes → Bytes → Stream → Stream
fail_loopback phase text st =
    if st.loopback_broken
    then st
    else record st { loopback_broken = true; loopback_error = phase ++ (codes ": " ++ text) }
