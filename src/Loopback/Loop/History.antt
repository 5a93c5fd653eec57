-- ===== src/Loopback/Loop/History.antt =====
-- demos/loopback-survival: what each frame and each ack has to say, by its number alone.
use substrate_poc.Prelude.{
  ℕ, zero, suc, ◌+◌, ◌*◌, ◌%◌, ◌^◌, ◌≤◌, ◌<◌, ◌≡◌, refl, sym, ap, ◌∙◌, ◌≢◌, true, some, List, [],
  ◌∷◌, ◌++◌, append-nil, append_assoc, arith, length, Bytes, u64_mod, IsU64, ok,
}
use substrate_poc.Loopback.{data_limit, write_data, read_data, AckFrame, write_ack, read_ack}
use substrate_poc.Loopback.Checks.{read_data-write_data, read_ack-write_ack}
use substrate_poc.Loopback.Client.{
  shifted, fill_from, fill_payload, Expected, pending_at, set_pending, delete_pending,
}

-- The `count` numbers behind `a`.
abbrev pub seqs : ℕ → ℕ → List ℕ
seqs a zero = []
seqs a (suc count) = suc a ∷ seqs (suc a) count

pub seqs-snoc : (a count : ℕ) → seqs a (suc count) ≡ seqs a count ++ suc (a + count) ∷ []
seqs-snoc a zero = ap (λ n. suc n ∷ []) (omega arith)
seqs-snoc a (suc count) =
    ap (◌∷◌ (suc a))
      (seqs-snoc (suc a) count ∙ ap (λ n. seqs (suc a) count ++ suc n ∷ []) (omega arith))

abbrev pub concat_map : (ℕ → Bytes) → List ℕ → Bytes
concat_map f [] = []
concat_map f (n ∷ ns) = f n ++ concat_map f ns

pub concat_map-snoc :
    (f : ℕ → Bytes) (ns : List ℕ) (n : ℕ) → concat_map f (ns ++ n ∷ []) ≡ concat_map f ns ++ f n
concat_map-snoc f [] n = append-nil (f n)
concat_map-snoc f (m ∷ ns) n =
    ap (λ t. f m ++ t) (concat_map-snoc f ns n) ∙ sym (append_assoc (f m) (concat_map f ns) (f n))

length-fill_from : (n x : ℕ) → length (fill_from n x) ≡ n
unfolding fill_from
length-fill_from zero x = refl
length-fill_from (suc n) x = ap suc (length-fill_from n (shifted x))

-- A payload has the size that is asked for.
pub length-fill_payload : (size seq : ℕ) → length (fill_payload size seq) ≡ size
unfolding fill_payload
length-fill_payload size seq = length-fill_from size ((seq * 0x9E3779B97F4A7C15 + 1) % u64_mod)

-- The map that the sender keeps.
pub pending_at-set_pending :
    (seq : ℕ) (want : Expected) (m : List (ℕ × Expected))
    → pending_at seq (set_pending seq want m) ≡ some want
pending_at-set_pending seq want [] = ground arith
pending_at-set_pending seq want ((k, old) ∷ rest) =
    ground (arith, pending_at-set_pending seq want rest)

pub pending_at-set_pending_other :
    (k seq : ℕ) (want : Expected) (m : List (ℕ × Expected))
    → k ≢ seq
    → pending_at k (set_pending seq want m) ≡ pending_at k m
pending_at-set_pending_other k seq want [] other = ground arith
pending_at-set_pending_other k seq want ((j, old) ∷ rest) other =
    ground (arith, pending_at-set_pending_other k seq want rest other)

pub pending_at-delete_pending :
    (k seq : ℕ) (m : List (ℕ × Expected))
    → k ≢ seq
    → pending_at k (delete_pending seq m) ≡ pending_at k m
pending_at-delete_pending k seq [] other = refl
pending_at-delete_pending k seq ((j, old) ∷ rest) other =
    ground (arith, pending_at-delete_pending k seq rest other)

module _ (update : ℕ → Bytes → ℕ) (size : ℕ) where
  abbrev pub payload : ℕ → Bytes
  payload k = fill_payload size k

  -- The running checksum and the byte count behind the first `k` frames.
  abbrev pub crc_to : ℕ → ℕ
  crc_to zero = 0
  crc_to (suc k) = update (crc_to k) (payload (suc k))

  abbrev pub bytes_to : ℕ → ℕ
  bytes_to zero = 0
  bytes_to (suc k) = (bytes_to k + length (payload (suc k))) % u64_mod

  abbrev pub ack_for : ℕ → AckFrame
  ack_for k = record { ack_seq = k; total_bytes = bytes_to k; running_crc = crc_to k }

  abbrev pub expected : ℕ → Expected
  expected k = record { crc = crc_to k; bytes = bytes_to k }

  abbrev pub frame_for : ℕ → Bytes
  frame_for k = write_data (update 0) k (payload k)

  abbrev pub ack_bytes : ℕ → Bytes
  ack_bytes k = write_ack (ack_for k)

  -- The checksum is 32 bits wide, and the payloads are within the reader's limit.
  pub record IsCrc : Type 0 where
    pub narrow : (crc : ℕ) (p : Bytes) → update crc p < 2 ^ 32
    pub within : size ≤ data_limit

  module _ (h : IsCrc) where
    pub crc_to-narrow : (k : ℕ) → crc_to k < 2 ^ 32
    crc_to-narrow zero = omega arith
    crc_to-narrow (suc k) = h.narrow (crc_to k) (payload (suc k))

    pub bytes_to-IsU64 : (k : ℕ) → IsU64 (bytes_to k)
    bytes_to-IsU64 zero = omega arith
    bytes_to-IsU64 (suc k) = omega arith

    pub read_frame_for :
        (k : ℕ) (rest : Bytes)
        → IsU64 k
        → read_data (update 0) (frame_for k ++ rest)
          ≡ ok (record { seq = k; payload = payload k; intact = true }, rest)
    read_frame_for k rest small =
        read_data-write_data (update 0) k (payload k) rest (h.narrow 0 (payload k)) small
          (omega (arith, length-fill_payload size k, h.within))

    pub read_ack_bytes :
        (k : ℕ) (rest : Bytes) → IsU64 k → read_ack (ack_bytes k ++ rest) ≡ ok (ack_for k, rest)
    read_ack_bytes k rest small =
        read_ack-write_ack (ack_for k) rest small (bytes_to-IsU64 k) (crc_to-narrow k)
