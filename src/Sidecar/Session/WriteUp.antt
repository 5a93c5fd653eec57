-- ===== src/Sidecar/Session/WriteUp.antt =====
-- internal/sidecar/session.go, `writeUp`: nothing that the agent sent is lost, and the loop ends.
use substrate_poc.Prelude.{
  ℕ, zero, suc, ◌+◌, ◌≤◌, ◌<◌, ◌≡◌, refl, sym, ap, subst, ◌∙◌, ◌⊎◌, inl, inr, false, [], ◌∷◌, ◌++◌,
  append-nil, append_assoc, arith, ◌==◌, length, take, drop, length-append, take-append-drop,
  length-take, length-drop, Bytes, u64_mod, Result, ok, err, ◌>>=◌, if-intro,
}
use substrate_poc.Tunnel.Buffer
use substrate_poc.Tunnel.Buffer.{ReplayBuffer}
use substrate_poc.Tunnel.Buffer.Stream.{Holds, append_fits, Holds-append}
use substrate_poc.Sidecar.Session.{
  Side, send, data_up, Written, chunk_size, write_chunk, write_loop, write_up, accepted, waiting,
  refused,
}

unfoldable pub chunk_taken : Bytes → Side → Side
chunk_taken chunk w =
    send (data_up w.session.session_id (Buffer.end w.session.up_buf) chunk) (record w {
      session = record w.session {
        up_buf = record w.session.up_buf { buf = w.session.up_buf.buf ++ chunk };
      };
    })

write_chunk_lem :
    (chunk u : Bytes) (w : Side)
    → Holds w.session.up_buf u
    → length chunk ≤ Buffer.free w.session.up_buf
    → write_chunk chunk w ≡ ok (chunk_taken chunk w)
unfolding write_chunk chunk_taken
write_chunk_lem chunk u w h fits =
    ap
      (λ r. r >>= λ buf. ok (
        send (data_up w.session.session_id (Buffer.end w.session.up_buf) chunk)
          (record w { session = record w.session { up_buf = buf } })))
      (append_fits h chunk fits)

-- How a run of the loop over `p` ends, with `u` sent by the agent before: part of `p` was taken, which makes
-- `Q` hold of it all, and either nothing is left, or the buffer is full.
pub record EndsAs (Q : Bytes → Side → Type 0) (u p : Bytes) (r : Side × Written) : Type 0 where
  pub taken : Bytes
  pub left : Bytes
  pub split : p ≡ taken ++ left
  pub held : Q (u ++ taken) r.0
  pub verdict :
      ((r.1 ≡ accepted) × (left ≡ []))
      ⊎ ((r.1 ≡ waiting left) × (Buffer.free r.0.session.up_buf ≡ 0))

-- What was taken has joined what the buffer holds.
abbrev pub Ends : Bytes → Bytes → Side × Written → Type 0
Ends = EndsAs (λ u w. Holds w.session.up_buf u)

EndsAs-step :
    (Q : Bytes → Side → Type 0) (u p : Bytes) (n : ℕ) {r : Side × Written}
    → EndsAs Q (u ++ take n p) (drop n p) r
    → EndsAs Q u p r
EndsAs-step Q u p n {r} e = record {
  taken = take n p ++ e.taken;
  left = e.left;
  split =
      sym (take-append-drop n p)
      ∙ ap (λ t. take n p ++ t) e.split
      ∙ sym (append_assoc (take n p) e.taken e.left);
  held = subst (λ t. Q t r.0) (append_assoc u (take n p) e.taken) e.held;
  verdict = e.verdict;
}

chunk_fits :
    (w : Side) (x : ℕ) (xs : Bytes)
    → length (take (chunk_size w (x ∷ xs)) (x ∷ xs)) ≤ Buffer.free w.session.up_buf
chunk_fits w x xs = ground (arith, length-take (chunk_size w (x ∷ xs)) (x ∷ xs))

chunk_progress :
    (w : Side) (x : ℕ) (xs : Bytes) (fuel : ℕ)
    → 0 < Buffer.free w.session.up_buf
    → length (x ∷ xs) < suc fuel
    → length (drop (chunk_size w (x ∷ xs)) (x ∷ xs)) < fuel
chunk_progress w x xs fuel room lt = ground (arith, length-drop (chunk_size w (x ∷ xs)) (x ∷ xs))

parts_small :
    (u p : Bytes) (n : ℕ)
    → length u + length p < u64_mod
    → (length (u ++ take n p) + length (drop n p) < u64_mod)
      × (length u + length (take n p) < u64_mod)
parts_small u p n h = (
  omega (arith, length-append u (take n p), length-take n p, length-drop n p),
  omega (arith, length-take n p),
)

pub Holds-chunk_taken :
    (chunk u : Bytes) (w : Side)
    → Holds w.session.up_buf u
    → length chunk ≤ Buffer.free w.session.up_buf
    → length u + length chunk < u64_mod
    → Holds (chunk_taken chunk w).session.up_buf (u ++ chunk)
unfolding chunk_taken send
Holds-chunk_taken chunk u w h fits small = Holds-append h chunk fits small

pub chunk_taken-dead :
    (chunk : Bytes) (w : Side) → (chunk_taken chunk w).session.dead ≡ w.session.dead
unfolding chunk_taken send
chunk_taken-dead chunk w = refl

-- The loop behind a chunk, as `write_loop` goes on.
abbrev after_chunk : ℕ → Bytes → Side → Result Side → Side × Written
after_chunk fuel p w c = elim c [
  | err e ↦ (w, refused e)
  | ok w' ↦ write_loop fuel (drop (chunk_size w p) p) w'
]

-- `Q` holds while chunks that fit are taken, and has the buffer hold the stream.
abbrev pub IsKeptUp : (Bytes → Side → Type 0) → Type 0
IsKeptUp Q =
    ((u : Bytes) (w : Side) → Q u w → Holds w.session.up_buf u)
    × ((chunk u : Bytes) (w : Side)
        → Q u w
        → length chunk ≤ Buffer.free w.session.up_buf
        → length u + length chunk < u64_mod
        → Q (u ++ chunk) (chunk_taken chunk w))

write_loop-EndsAs :
    (Q : Bytes → Side → Type 0) (kept : IsKeptUp Q) (fuel : ℕ) (p u : Bytes) (w : Side)
    → length p < fuel
    → w.session.dead ≡ false
    → Q u w
    → length u + length p < u64_mod
    → EndsAs Q u p (write_loop fuel p w)
unfolding write_loop
write_loop-EndsAs Q kept zero p u w lt alive h small = absurd (omega arith)
write_loop-EndsAs Q kept (suc fuel) [] u w lt alive h small = record {
  taken = [];
  left = [];
  split = refl;
  held = rw append-nil h;
  verdict = inl (refl, refl);
}
write_loop-EndsAs Q kept (suc fuel) (x ∷ xs) u w lt alive h small =
    let p = x ∷ xs in
    let n = chunk_size w p in
    if-intro {A = Side × Written} (EndsAs Q u p) w.session.dead (λ dead. absurd (ground arith))
      (λ _.
        if-intro {A = Side × Written} (EndsAs Q u p) (Buffer.free w.session.up_buf == 0)
          (λ full. record {
            taken = [];
            left = p;
            split = refl;
            held = rw append-nil h;
            verdict = inr (refl, ground arith);
          })
          (λ room.
            subst (λ c. EndsAs Q u p (after_chunk fuel p w c))
              (sym (write_chunk_lem (take n p) u w (kept.0 u w h) (chunk_fits w x xs)))
              (EndsAs-step Q u p n (
                write_loop-EndsAs Q kept fuel (drop n p) (u ++ take n p) (chunk_taken (take n p) w)
                  (chunk_progress w x xs fuel (ground arith) lt)
                  (chunk_taken-dead (take n p) w ∙ alive)
                  (kept.1 (take n p) u w h (chunk_fits w x xs) (parts_small u p n small).1)
                  (parts_small u p n small).0))))

-- A run of the loop keeps what each chunk keeps.
pub write_up-EndsAs :
    (Q : Bytes → Side → Type 0) (kept : IsKeptUp Q) (p u : Bytes) (w : Side)
    → w.session.dead ≡ false
    → Q u w
    → length u + length p < u64_mod
    → EndsAs Q u p (write_up p w)
unfolding write_up
write_up-EndsAs Q kept p u w alive h small =
    write_loop-EndsAs Q kept (suc (length p)) p u w (omega arith) alive h small

-- The proxy's writer, on a session that is alive, takes the agent's bytes in order into the replay buffer,
-- behind all that the agent sent before, and ends in one of two ways: all are taken, or the buffer is full
-- and it waits with the bytes that are left. That the tunnel is down makes no difference.
pub write_up-Ends :
    (p u : Bytes) (w : Side)
    → w.session.dead ≡ false
    → Holds w.session.up_buf u
    → length u + length p < u64_mod
    → Ends u p (write_up p w)
write_up-Ends p u w alive h small =
    write_up-EndsAs (λ u w. Holds w.session.up_buf u)
      ((λ u w h. h), (λ chunk u w h fits small. Holds-chunk_taken chunk u w h fits small)) p u w
      alive h small
