-- ===== src/Tunnel/Buffer.antt =====
-- internal/tunnel/buffer.go: the replay buffer, one direction of a session's unacknowledged bytes.
pub mod Stream
use substrate_poc.Prelude.{
  ℕ, ◌+◌, ◌-◌, ◌%◌, [], ◌++◌, ltb, leb, if◌then◌else◌, length, drop, Bytes, u64_mod, replay_acked,
  replay_beyond, buffer_full, Result, ok, err,
}

-- `base` is the stream offset of the first byte of `buf`. `max` is a Go `int`, taken to be at least 0.
pub record ReplayBuffer : Type 0 where
  pub base : ℕ
  pub buf : Bytes
  pub max : ℕ

unfoldable pub new_replay_buffer : ℕ → ReplayBuffer
new_replay_buffer max = record { base = 0; buf = []; max = max }

unfoldable pub append : ReplayBuffer → Bytes → Result ReplayBuffer
append b p =
    if ltb b.max (length b.buf + length p)
    then err buffer_full
    else ok (record b { buf = b.buf ++ p })

-- `b.max - len(b.buf)`; the difference is not negative while the buffer is within its cap.
unfoldable pub free : ReplayBuffer → ℕ
free b = b.max - length b.buf

unfoldable pub len : ReplayBuffer → ℕ
len b = length b.buf

-- Stream offsets are uint64.
unfoldable pub end : ReplayBuffer → ℕ
end b = (b.base + length b.buf) % u64_mod

unfoldable pub trim_to : ReplayBuffer → ℕ → ReplayBuffer
unfolding end
trim_to b offset =
    if leb offset b.base
    then b
    else if leb (end b) offset
    then record b { base = end b; buf = [] }
    else record b { base = offset; buf = drop (offset - b.base) b.buf }

unfoldable pub from : ReplayBuffer → ℕ → Result Bytes
unfolding end
from b offset =
    if ltb offset b.base
    then err replay_acked
    else if ltb (end b) offset
    then err replay_beyond
    else ok (drop (offset - b.base) b.buf)
