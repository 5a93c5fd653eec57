-- ===== src/Loopback/Orders.antt =====
-- demos/loopback-survival/server/main.go: what counts as a violation of the order.
use substrate_poc.Prelude.{
  ℕ, suc, ◌+◌, ◌%◌, ◌<◌, ◌≡◌, refl, ◌∙◌, List, [], ◌∷◌, arith, ◌==◌, if◌then◌else◌, length, Bytes,
  u64_mod,
}
use substrate_poc.Loopback.Server.{ServerStats, no_stats, count_frame}

-- The frames of a run, with the right checksums.
unfoldable pub count_frames : (ℕ → Bytes → ℕ) → List (ℕ × Bytes) → ServerStats → ServerStats
count_frames update [] st = st
count_frames update ((seq, payload) ∷ rest) st =
    count_frames update rest (count_frame update seq payload st)

-- The places where a number does not follow the one before it.
abbrev pub breaks : ℕ → List (ℕ × Bytes) → ℕ
breaks last [] = 0
breaks last ((seq, payload) ∷ rest) =
    let later = breaks seq rest in if seq == (last + 1) % u64_mod then later else suc later

abbrev pub all_breaks : List (ℕ × Bytes) → ℕ
all_breaks [] = 0
all_breaks ((seq, payload) ∷ rest) = breaks seq rest

count_frames-breaks :
    (update : ℕ → Bytes → ℕ) (frames : List (ℕ × Bytes)) (st : ServerStats)
    → 0 < st.frames_received
    → st.frames_received + length frames < u64_mod
    → (count_frames update frames st).seq_violations
      ≡ st.seq_violations + breaks st.last_seq_received frames
unfolding count_frames count_frame
count_frames-breaks update [] st some_read small = omega arith
count_frames-breaks update ((seq, payload) ∷ rest) st some_read small =
    count_frames-breaks update rest (count_frame update seq payload st) (ground arith)
      (ground arith)
    ∙ ground arith

-- From a fresh start, the server counts as violations the places where a frame's number is not the one behind
-- the number before it, and no others: the first frame may have any number. The count of frames does not
-- overflow.
pub count_frames-all_breaks :
    (update : ℕ → Bytes → ℕ) (frames : List (ℕ × Bytes))
    → length frames < u64_mod
    → (count_frames update frames no_stats).seq_violations ≡ all_breaks frames
unfolding count_frames count_frame
count_frames-all_breaks update [] small = refl
count_frames-all_breaks update ((seq, payload) ∷ rest) small =
    count_frames-breaks update rest (count_frame update seq payload no_stats) (omega arith)
      (omega arith)
    ∙ (let e : 0 + breaks seq rest ≡ breaks seq rest = omega arith in e)
