-- ===== src/Loopback/Checks.antt =====
-- demos/loopback-survival/internal/wire/wire.go: what is read of what was written, and of what was altered.
use substrate_poc.Prelude.{
  ℕ, ◌%◌, ◌^◌, ◌≤◌, ◌<◌, ◌≡◌, refl, ap, ◌∙◌, ◌≢◌, true, false, ◌++◌, append_assoc, arith, ◌==◌,
  le→ltb, ==_iff, length, Bytes, IsU64, ok,
}
use substrate_poc.Tunnel.Wire.Fields.{read_full-append}
use substrate_poc.Tunnel.Wire.Integers.{be, get_be-be}
use substrate_poc.Loopback.{
  data_limit, data_bytes, write_data, read_data_body, read_data, AckFrame, write_ack, read_ack,
}

len_u32 : (p : Bytes) → length p ≤ data_limit → length p % 2 ^ 32 ≡ length p
len_u32 p h = omega arith

read_data-data_bytes :
    (crc : Bytes → ℕ) (sum seq : ℕ) (q rest : Bytes)
    → sum < 2 ^ 32
    → IsU64 seq
    → length q ≤ data_limit
    → read_data crc (data_bytes sum seq q ++ rest)
      ≡ ok (record { seq = seq; payload = q; intact = sum == crc q }, rest)
unfolding read_data data_bytes read_data_body
read_data-data_bytes crc sum seq q rest small u64 fits =
    rw
      (
        append_assoc (be 4 (length q % 2 ^ 32)) (be 8 seq ++ (q ++ be 4 sum)) rest,
        append_assoc (be 8 seq) (q ++ be 4 sum) rest,
        append_assoc q (be 4 sum) rest,
        len_u32 q fits,
        get_be-be 4 (length q) (be 8 seq ++ (q ++ (be 4 sum ++ rest))) (omega arith),
        get_be-be 8 seq (q ++ (be 4 sum ++ rest)) u64,
        le→ltb data_limit (length q) fits,
        read_full-append q (be 4 sum ++ rest),
        get_be-be 4 sum rest small,
      )
      refl

-- A frame with a payload that is not too long is read back as it was written, and found intact; what
-- follows it is left to be read. The checksum is 32 bits wide.
pub read_data-write_data :
    (crc : Bytes → ℕ) (seq : ℕ) (payload rest : Bytes)
    → crc payload < 2 ^ 32
    → IsU64 seq
    → length payload ≤ data_limit
    → read_data crc (write_data crc seq payload ++ rest)
      ≡ ok (record { seq = seq; payload = payload; intact = true }, rest)
unfolding write_data
read_data-write_data crc seq payload rest small u64 fits =
    read_data-data_bytes crc (crc payload) seq payload rest small u64 fits
    ∙ ap (λ b. ok (record { seq = seq; payload = payload; intact = b }, rest)) ((==_iff _ _).1 refl)

-- A frame that carries the checksum of one payload and in its place another, which is not too long and has
-- another checksum, is read as corrupt, and what follows it is left to be read. The checksum is 32 bits
-- wide.
pub read_data-altered :
    (crc : Bytes → ℕ) (seq : ℕ) (payload altered rest : Bytes)
    → crc payload < 2 ^ 32
    → IsU64 seq
    → length altered ≤ data_limit
    → crc payload ≢ crc altered
    → read_data crc (data_bytes (crc payload) seq altered ++ rest)
      ≡ ok (record { seq = seq; payload = altered; intact = false }, rest)
read_data-altered crc seq payload altered rest small u64 fits other =
    let differ : (crc payload == crc altered) ≡ false = ground arith in
    read_data-data_bytes crc (crc payload) seq altered rest small u64 fits
    ∙ ap (λ b. ok (record { seq = seq; payload = altered; intact = b }, rest)) differ

-- An ack whose fields fit their widths is read back as it was written.
pub read_ack-write_ack :
    (a : AckFrame) (rest : Bytes)
    → IsU64 a.ack_seq
    → IsU64 a.total_bytes
    → a.running_crc < 2 ^ 32
    → read_ack (write_ack a ++ rest) ≡ ok (a, rest)
unfolding read_ack write_ack
read_ack-write_ack a rest hs ht hc =
    rw
      (
        append_assoc (be 8 a.ack_seq) (be 8 a.total_bytes ++ be 4 a.running_crc) rest,
        append_assoc (be 8 a.total_bytes) (be 4 a.running_crc) rest,
        get_be-be 8 a.ack_seq (be 8 a.total_bytes ++ (be 4 a.running_crc ++ rest)) hs,
        get_be-be 8 a.total_bytes (be 4 a.running_crc ++ rest) ht,
        get_be-be 4 a.running_crc rest hc,
      )
      refl
