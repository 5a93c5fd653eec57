-- ===== src/Broker/Session/Downlink/Produce.antt =====
-- internal/broker/session.go, `produceDownstream`: nothing that was read from the destination is lost,
-- and the loop ends.
use substrate_poc.Prelude.{
  ℕ, zero, suc, ◌+◌, ◌≤◌, ◌<◌, ◌≡◌, refl, sym, ap, subst, ◌∙◌, ◌⊎◌, inl, inr, false, not, ◌&&◌,
  Option, none, some, [], ◌∷◌, ◌++◌, append-nil, append_assoc, arith, ◌==◌, length, take, drop,
  length-append, take-append-drop, length-take, length-drop, Bytes, u64_mod, Error, Result, ok, err,
  ◌>>=◌, if-intro,
}
use substrate_poc.Tunnel.Frame.{Frame}
use substrate_poc.Tunnel.Buffer
use substrate_poc.Tunnel.Buffer.{ReplayBuffer}
use substrate_poc.Tunnel.Buffer.Stream.{Holds, append_fits, Holds-append}
use substrate_poc.Broker.Session.State.{World, write, is_bound}
use substrate_poc.Broker.Session.State.Sending.{SameButTconn}
use substrate_poc.Broker.Session.Downlink.{
  Produced, finished, blocked, refused, take_size, forward, forward_on, unbind_on_error,
  wake_if_pending, produce_chunk, produce_loop, produce_downstream,
}

unbind_on_error-session :
    (r : World × Option Error) → SameButTconn r.0.session (unbind_on_error r).session
unbind_on_error-session (w, none) = (w.session.tconn, refl)
unbind_on_error-session (w, some e) = (none, refl)

pub forward_on-session :
    (t : Option ℕ) (f : Frame) (w : World) → SameButTconn w.session (forward_on t f w).session
unfolding write
forward_on-session none f w = (w.session.tconn, refl)
forward_on-session (some tc) f w = unbind_on_error-session (write tc f w)

pub wake_if_pending-session : (w : World) → (wake_if_pending w).session ≡ w.session
unfolding wake_if_pending
wake_if_pending-session w =
    if-intro {A = World} (λ x. x.session ≡ w.session)
      (not (is_bound w.session.tconn) && w.session.request_outstanding) (λ _. refl) (λ _. refl)

abbrev pub with_chunk : Bytes → World → World
with_chunk chunk w = record w {
  session = record w.session {
    down_buf = record w.session.down_buf { buf = w.session.down_buf.buf ++ chunk };
  };
}

-- What a round makes of a chunk that fits.
abbrev pub chunk_taken : Bytes → World → World
chunk_taken chunk w =
    wake_if_pending (forward (Buffer.end w.session.down_buf) chunk (with_chunk chunk w))

pub produce_chunk_lem :
    (chunk d : Bytes) (w : World)
    → Holds w.session.down_buf d
    → length chunk ≤ Buffer.free w.session.down_buf
    → produce_chunk chunk w ≡ ok (chunk_taken chunk w)
unfolding produce_chunk
produce_chunk_lem chunk d w h fits =
    ap
      (λ r. r >>= λ buf. ok (
        wake_if_pending (
          forward (Buffer.end w.session.down_buf) chunk
            (record w { session = record w.session { down_buf = buf } }))))
      (append_fits h chunk fits)

-- A round changes the session in its buffer and its binding at most.
pub chunk_taken-session :
    (chunk : Bytes) (w : World)
    → SameButTconn (with_chunk chunk w).session (chunk_taken chunk w).session
unfolding forward
chunk_taken-session chunk w =
    let (t, e) = forward_on-session w.session.tconn _ (with_chunk chunk w) in
    (t, wake_if_pending-session _ ∙ e)

-- How a run of the loop over `p` ends, with `d` read from the destination before: part of `p` has
-- joined what the buffer holds, and either nothing is left, or the buffer is full.
pub record Ends (d p : Bytes) (r : World × Produced) : Type 0 where
  pub taken : Bytes
  pub left : Bytes
  pub split : p ≡ taken ++ left
  pub held : Holds r.0.session.down_buf (d ++ taken)
  pub verdict :
      ((r.1 ≡ finished) × (left ≡ []))
      ⊎ ((r.1 ≡ blocked left) × (Buffer.free r.0.session.down_buf ≡ 0))

Ends-step :
    (d p : Bytes) (n : ℕ) {r : World × Produced} → Ends (d ++ take n p) (drop n p) r → Ends d p r
Ends-step d p n {r} e = record {
  taken = take n p ++ e.taken;
  left = e.left;
  split =
      sym (take-append-drop n p)
      ∙ ap (λ t. take n p ++ t) e.split
      ∙ sym (append_assoc (take n p) e.taken e.left);
  held = subst (Holds r.0.session.down_buf) (append_assoc d (take n p) e.taken) e.held;
  verdict = e.verdict;
}

pub chunk_fits :
    (w : World) (x : ℕ) (xs : Bytes)
    → length (take (take_size w (x ∷ xs)) (x ∷ xs)) ≤ Buffer.free w.session.down_buf
chunk_fits w x xs = ground (arith, length-take (take_size w (x ∷ xs)) (x ∷ xs))

chunk_progress :
    (w : World) (x : ℕ) (xs : Bytes) (fuel : ℕ)
    → 0 < Buffer.free w.session.down_buf
    → length (x ∷ xs) < suc fuel
    → length (drop (take_size w (x ∷ xs)) (x ∷ xs)) < fuel
chunk_progress w x xs fuel room lt = ground (arith, length-drop (take_size w (x ∷ xs)) (x ∷ xs))

chunk_taken-dead : (chunk : Bytes) (w : World) → (chunk_taken chunk w).session.dead ≡ w.session.dead
chunk_taken-dead chunk w = let (t, e) = chunk_taken-session chunk w in ap (λ s. s.dead) e

pub Holds-chunk_taken :
    (chunk d : Bytes) (w : World)
    → Holds w.session.down_buf d
    → length chunk ≤ Buffer.free w.session.down_buf
    → length d + length chunk < u64_mod
    → Holds (chunk_taken chunk w).session.down_buf (d ++ chunk)
Holds-chunk_taken chunk d w h fits small =
    let (t, e) = chunk_taken-session chunk w in
    subst (λ b. Holds b (d ++ chunk)) (ap (λ s. s.down_buf) (sym e))
      (Holds-append h chunk fits small)

-- The loop behind a chunk, as `produce_loop` goes on.
abbrev pub after_chunk : ℕ → Bytes → World → Result World → World × Produced
after_chunk fuel p w c = elim c [
  | err e ↦ (w, refused e)
  | ok w' ↦ produce_loop fuel (drop (take_size w p) p) w'
]

parts_small :
    (d p : Bytes) (n : ℕ)
    → length d + length p < u64_mod
    → length (d ++ take n p) + length (drop n p) < u64_mod
parts_small d p n h = omega (arith, length-append d (take n p), length-take n p, length-drop n p)

front_small :
    (d p : Bytes) (n : ℕ) → length d + length p < u64_mod → length d + length (take n p) < u64_mod
front_small d p n h = omega (arith, length-take n p)

produce_loop-Ends :
    (fuel : ℕ) (p d : Bytes) (w : World)
    → length p < fuel
    → w.session.dead ≡ false
    → Holds w.session.down_buf d
    → length d + length p < u64_mod
    → Ends d p (produce_loop fuel p w)
unfolding produce_loop
produce_loop-Ends zero p d w lt alive h small = absurd (omega arith)
produce_loop-Ends (suc fuel) [] d w lt alive h small = record {
  taken = [];
  left = [];
  split = refl;
  held = rw append-nil h;
  verdict = inl (refl, refl);
}
produce_loop-Ends (suc fuel) (x ∷ xs) d w lt alive h small =
    if-intro {A = World × Produced} (Ends d (x ∷ xs)) w.session.dead (λ dead. absurd (ground arith))
      (λ _.
        if-intro {A = World × Produced} (Ends d (x ∷ xs)) (Buffer.free w.session.down_buf == 0)
          (λ full. record {
            taken = [];
            left = x ∷ xs;
            split = refl;
            held = rw append-nil h;
            verdict = inr (refl, ground arith);
          })
          (λ room.
            subst (λ c. Ends d (x ∷ xs) (after_chunk fuel (x ∷ xs) w c))
              (sym (
                produce_chunk_lem (take (take_size w (x ∷ xs)) (x ∷ xs)) d w h (chunk_fits w x xs)))
              (Ends-step d (x ∷ xs) (take_size w (x ∷ xs)) (
                produce_loop-Ends fuel (drop (take_size w (x ∷ xs)) (x ∷ xs))
                  (d ++ take (take_size w (x ∷ xs)) (x ∷ xs))
                  (chunk_taken (take (take_size w (x ∷ xs)) (x ∷ xs)) w)
                  (chunk_progress w x xs fuel (ground arith) lt) (chunk_taken-dead _ w ∙ alive)
                  (Holds-chunk_taken _ d w h (chunk_fits w x xs)
                    (front_small d (x ∷ xs) (take_size w (x ∷ xs)) small))
                  (parts_small d (x ∷ xs) (take_size w (x ∷ xs)) small)))))

-- The producer, on a session that is alive, takes the bytes in order into the replay buffer, behind all
-- that was read before, and ends in one of two ways: all are taken, or the buffer is full, and it waits
-- with the bytes that are left. No byte is dropped, and no other end is possible.
pub produce_downstream-Ends :
    (p d : Bytes) (w : World)
    → w.session.dead ≡ false
    → Holds w.session.down_buf d
    → length d + length p < u64_mod
    → Ends d p (produce_downstream p w)
unfolding produce_downstream
produce_downstream-Ends p d w alive h small =
    produce_loop-Ends (suc (length p)) p d w (omega arith) alive h small
