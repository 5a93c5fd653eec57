-- ===== src/Tunnel/Buffer/Stream.antt =====
-- internal/tunnel/buffer.go against its contract: the buffer holds the tail of the byte stream that
-- was ever appended, from `base` on.
use substrate_poc.Prelude.{
  ℕ, ◌+◌, ◌-◌, ◌≤◌, ◌<◌, min, ◌≡◌, refl, sym, ap, ◌∙◌, inl, inr, [], ◌++◌, arith, ltb, leb,
  if◌then◌else◌, Bool-cases, length, drop, length-append, length-drop, drop-all, drop-append,
  drop-drop, Bytes, u64_mod, replay_acked, replay_beyond, buffer_full, ok, err,
}
use Prim.Native.Nat.{max}
use native.Mathlib.Nat.{add-sub_of_le}
use substrate_poc.Tunnel.Buffer.{
  ReplayBuffer, new_replay_buffer, append, free, len, end, trim_to, from,
}

-- `s` is every byte that was ever appended. Its length stays below 2^64, and the buffer in its cap.
pub record Holds (b : ReplayBuffer) (s : Bytes) : Type 0 where
  pub tail : b.buf ≡ drop b.base s
  pub base_within : b.base ≤ length s
  pub small : length s < u64_mod
  pub capped : length b.buf ≤ b.max

pub Holds-new_replay_buffer : (max : ℕ) → Holds (new_replay_buffer max) []
unfolding new_replay_buffer
Holds-new_replay_buffer max = record {
  tail = refl;
  base_within = omega arith;
  small = omega arith;
  capped = omega arith;
}

module _ {b : ReplayBuffer} {s : Bytes} (h : Holds b s) where
  pub length-buf : b.base + length b.buf ≡ length s
  length-buf = omega (arith, ap length h.tail, length-drop b.base s, h.base_within)

  -- `End` is the number of bytes ever appended, and `Base` and `Len` lie within it.
  pub end-length : end b ≡ length s
  unfolding end
  end-length = omega (arith, length-buf, h.small)

  pub base-le-length : b.base ≤ length s
  base-le-length = h.base_within

  pub len-free : len b + free b ≡ b.max
  unfolding len free
  len-free = omega (arith, h.capped)

  pub append_fits :
      (p : Bytes) → length p ≤ free b → append b p ≡ ok (record b { buf = b.buf ++ p })
  unfolding append free
  append_fits p fits = ground (arith, h.capped)

  pub append_full : (p : Bytes) → free b < length p → append b p ≡ err buffer_full
  unfolding append free
  append_full p full = ground (arith, h.capped)

  pub Holds-append :
      (p : Bytes)
      → length p ≤ free b
      → length s + length p < u64_mod
      → Holds (record b { buf = b.buf ++ p }) (s ++ p)
  unfolding free
  Holds-append p fits small = record {
    tail = ap (λ t. t ++ p) h.tail ∙ sym (drop-append b.base s p h.base_within);
    base_within = omega (arith, length-append s p, h.base_within);
    small = omega (arith, length-append s p);
    capped = omega (arith, length-append b.buf p, h.capped);
  }

  -- `TrimTo` forgets bytes and keeps the stream: the base moves up to the offset, but not past the
  -- end, and never down.
  pub trim_to-base : (offset : ℕ) → (trim_to b offset).base ≡ max b.base (min offset (length s))
  unfolding trim_to
  trim_to-base offset = ground (arith, end-length, h.base_within)

  Holds-emptied : Holds (record b { base = end b; buf = [] }) s
  Holds-emptied = record {
    tail = sym (drop-all (end b) s (omega (arith, end-length)));
    base_within = omega (arith, end-length);
    small = h.small;
    capped = omega arith;
  }

  Holds-moved :
      (offset : ℕ)
      → b.base ≤ offset
      → offset ≤ length s
      → Holds (record b { base = offset; buf = drop (offset - b.base) b.buf }) s
  Holds-moved offset lo hi = record {
    tail = rw (h.tail, drop-drop (offset - b.base) b.base s, add-sub_of_le lo);
    base_within = hi;
    small = h.small;
    capped = omega (arith, length-drop (offset - b.base) b.buf, h.capped);
  }

  -- A buffer that holds the tail of a stream holds the tail of the same stream when it was trimmed, at
  -- whatever offset.
  pub Holds-trim_to : (offset : ℕ) → Holds (trim_to b offset) s
  unfolding trim_to
  Holds-trim_to offset = elim (Bool-cases (leb offset b.base)) [
    | inl below ↦ rw below h
    | inr above ↦ rw above (elim (Bool-cases (leb (end b) offset)) [
      | inl past ↦ rw past Holds-emptied
      | inr inside ↦ rw inside (Holds-moved offset (ground arith) (ground (arith, end-length)))
    ])
  ]

  -- `From` of a buffer that holds the tail of a stream hands out the stream from the offset on, or says
  -- on which side of the buffer the offset lies.
  pub from_lem :
      (offset : ℕ)
      → from b offset ≡ (
          if ltb offset b.base
          then err replay_acked
          else if ltb (length s) offset
          then err replay_beyond
          else ok (drop offset s))
  unfolding from
  from_lem offset = elim (Bool-cases (ltb offset b.base)) [
    | inl below ↦ rw below
    | inr above ↦ rw (
      above,
      end-length,
      h.tail,
      drop-drop (offset - b.base) b.base s,
      add-sub_of_le {n = offset} {m = b.base} (ground arith),
    )
  ]
