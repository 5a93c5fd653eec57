-- ===== src/Loopback.antt =====
-- demos/loopback-survival/internal/wire/wire.go: the demo's frames, with a checksum each. `crc` is
-- `crc32.ChecksumIEEE`. Bytes behind a frame are handed back with it.
pub mod Checks
pub mod Server
pub mod Client
pub mod Orders
pub mod Loop
use substrate_poc.Prelude.{
  ◌>>=◌, ℕ, ◌+◌, ◌%◌, ◌^◌, Bool, ◌++◌, ltb, ◌==◌, if◌then◌else◌, length, Bytes, payload_too_big,
  Result, ok, err,
}
use substrate_poc.Tunnel.Wire.{read_full}
use substrate_poc.Tunnel.Wire.Integers.{be, get_be}

abbrev pub data_limit : ℕ
data_limit = 2 ^ 20

-- The bytes of a frame whose tail is the checksum `sum`.
unfoldable pub data_bytes : ℕ → ℕ → Bytes → Bytes
data_bytes sum seq payload = be 4 (length payload % 2 ^ 32) ++ (be 8 seq ++ (payload ++ be 4 sum))

unfoldable pub write_data : (Bytes → ℕ) → ℕ → Bytes → Bytes
unfolding data_bytes
write_data crc seq payload = data_bytes (crc payload) seq payload

-- The sequence number, the payload, and whether the checksum is the payload's; `ErrCorrupt` if not.
pub record Datum : Type 0 where
  pub seq : ℕ
  pub payload : Bytes
  pub intact : Bool

unfoldable pub read_data_body : (Bytes → ℕ) → ℕ → ℕ → Bytes → Result (Datum × Bytes)
read_data_body crc n seq src = do
  (payload, src₁) ← read_full n src
  (sum, src₂) ← get_be 4 0 src₁
  ok (record { seq = seq; payload = payload; intact = sum == crc payload }, src₂)

-- `io.ReadFull` reads the 12 bytes of the header before its length is looked at.
unfoldable pub read_data : (Bytes → ℕ) → Bytes → Result (Datum × Bytes)
unfolding read_data_body
read_data crc src = do
  (n, src₁) ← get_be 4 0 src
  (seq, src₂) ← get_be 8 0 src₁
  if ltb data_limit n then err payload_too_big else read_data_body crc n seq src₂

pub record AckFrame : Type 0 where
  pub ack_seq : ℕ
  pub total_bytes : ℕ
  pub running_crc : ℕ

unfoldable pub write_ack : AckFrame → Bytes
write_ack a = be 8 a.ack_seq ++ (be 8 a.total_bytes ++ be 4 a.running_crc)

unfoldable pub read_ack : Bytes → Result (AckFrame × Bytes)
read_ack src = do
  (seq, src₁) ← get_be 8 0 src
  (total, src₂) ← get_be 8 0 src₁
  (crc, src₃) ← get_be 4 0 src₂
  ok (record { ack_seq = seq; total_bytes = total; running_crc = crc }, src₃)
