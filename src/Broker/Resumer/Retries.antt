-- ===== src/Broker/Resumer/Retries.antt =====
-- internal/broker/resumer.go: one call per actor at a time, an end to the retries, and the actor's name.
use mathlib.Core.Option
use substrate_poc.Prelude.{
  ℕ, suc, ◌+◌, ◌*◌, ◌≤◌, ◌<◌, ◌≡◌, refl, sym, ap, subst, ◌∙◌, ◌≢◌, inl, inr, false, Option, none,
  some, List, [], ◌∷◌, ◌++◌, arith, ltb, ◌==◌, if◌then◌else◌, ==_iff, Bool-cases, length, take,
  drop, drop-length_append, take-length_append, drop-drop, Bytes, bytes_eq, bytes_eq_sound,
  if-intro, option-intro,
}
use substrate_poc.Broker.Resumer.{
  Ref, slash, ref_string, index_byte, parse_ref, Resumer, is_busy, drop_actor, resume, resume_done,
  Answer, Ended, first_backoff, next_backoff, retry, resume_actor, resumed, aborted, failed,
  unanswered,
}

none-map-suc : (o : Option ℕ) → Option.map suc o ≡ none → o ≡ none
none-map-suc none h = refl
none-map-suc (some i) h = absurd cc

pub index_byte-append :
    (c : ℕ) (xs ys : Bytes)
    → index_byte c xs ≡ none
    → index_byte c (xs ++ c ∷ ys) ≡ some (length xs)
unfolding index_byte
index_byte-append c [] ys h = rw ((==_iff c c).1 refl) refl
index_byte-append c (x ∷ xs) ys h = elim (Bool-cases (x == c)) [
  | inl same ↦ absurd (cc (rw same at h))
  | inr other ↦ rw other (
      ap (Option.map suc)
        (index_byte-append c xs ys (none-map-suc (index_byte c xs) (rw other at h))))
]

abbrev split_at : Bytes → Option ℕ → Ref
split_at actor_id (some i) = record { atespace = take i actor_id; name = drop (i + 1) actor_id }
split_at actor_id none = record { atespace = []; name = actor_id }

parse_ref-split_at :
    (actor_id : Bytes) → parse_ref actor_id ≡ split_at actor_id (index_byte slash actor_id)
unfolding parse_ref
parse_ref-split_at actor_id =
    option-intro {A = ℕ}
      (λ o.
        elim o [
          | some i ↦ record { atespace = take i actor_id; name = drop (i + 1) actor_id }
          | none ↦ record { atespace = []; name = actor_id }
        ]
        ≡ split_at actor_id o)
      (index_byte slash actor_id) (λ _. refl) (λ i _. refl)

split_at-slash :
    (a n : Bytes) → split_at (a ++ slash ∷ n) (some (length a)) ≡ record { atespace = a; name = n }
split_at-slash a n =
    rw (take-length_append a, sym (drop-drop 1 (length a) (a ++ slash ∷ n)), drop-length_append a)
      refl

-- A reference whose atespace has no slash survives being printed and parsed.
pub parse_ref-ref_string :
    (r : Ref) → index_byte slash r.atespace ≡ none → parse_ref (ref_string r) ≡ r
unfolding ref_string
parse_ref-ref_string r h =
    parse_ref-split_at (r.atespace ++ slash ∷ r.name)
    ∙ ap (split_at (r.atespace ++ slash ∷ r.name)) (index_byte-append slash r.atespace r.name h)
    ∙ split_at-slash r.atespace r.name

-- The loop of `retry` behind an answer.
retry-ends :
    (deadline now backoff attempt : ℕ) (answers : List (ℕ × Answer))
    → first_backoff ≤ backoff
    → now ≤ deadline
    → deadline < now + length answers * first_backoff
    → retry deadline now backoff attempt answers ≢ unanswered
unfolding retry
retry-ends deadline now backoff attempt [] pos le lt = absurd (omega arith)
retry-ends deadline now backoff attempt ((took, resumed) ∷ answers) pos le lt = λ e. absurd cc
retry-ends deadline now backoff attempt ((took, failed) ∷ answers) pos le lt = λ e. absurd cc
retry-ends deadline now backoff attempt ((took, aborted) ∷ answers) pos le lt =
    if-intro {A = Ended} (λ r. r ≢ unanswered) (ltb deadline (now + took + backoff))
      (λ _ e. absurd cc)
      (λ late.
        retry-ends deadline (now + took + backoff) (next_backoff backoff) (attempt + 1) answers
          (ground arith) (ground arith) (omega arith))

-- Whatever `ResumeActor` answers, and however long each call takes, the loop has ended when it has had 151
-- answers.
pub resume_actor-ends :
    (now : ℕ) (answers : List (ℕ × Answer))
    → 151 ≤ length answers
    → resume_actor now answers ≢ unanswered
unfolding resume_actor
resume_actor-ends now answers many =
    retry-ends (now + 30000000000) now first_backoff 1 answers (omega arith) (omega arith)
      (omega arith)

-- How often an actor is in flight.
abbrev pub in_flight : Bytes → List Bytes → ℕ
in_flight actor_id [] = 0
in_flight actor_id (a ∷ rest) =
    let n = in_flight actor_id rest in if bytes_eq a actor_id then suc n else n

-- A wake, or the end of the call for an actor.
pub data WakeAct : Type 0 where
  wakes_up finishes : Bytes → WakeAct

unfoldable pub wake_run : List WakeAct → Resumer → Resumer
wake_run [] r = r
wake_run (wakes_up a ∷ acts) r = wake_run acts (resume a r)
wake_run (finishes a ∷ acts) r = wake_run acts (resume_done a r)

in_flight-idle : (a : Bytes) (l : List Bytes) → is_busy a l ≡ false → in_flight a l ≡ 0
in_flight-idle a [] h = refl
in_flight-idle a (x ∷ l) h = elim (Bool-cases (bytes_eq x a)) [
  | inl same ↦ absurd (ground arith)
  | inr other ↦ rw other (in_flight-idle a l (ground arith))
]

in_flight-drop : (a b : Bytes) (l : List Bytes) → in_flight a (drop_actor b l) ≤ in_flight a l
in_flight-drop a b [] = omega arith
in_flight-drop a b (x ∷ l) = let ih = in_flight-drop a b l in ground arith

in_flight-resume :
    (a b : Bytes) (r : Resumer) → in_flight a r.inflight ≤ 1 → in_flight a (resume b r).inflight ≤ 1
unfolding resume
in_flight-resume a b r h =
    if-intro {A = Resumer} (λ x. in_flight a x.inflight ≤ 1) (is_busy b r.inflight) (λ _. h)
      (λ idle. elim (Bool-cases (bytes_eq b a)) [
        | inr other ↦ rw other h
        | inl same ↦
            let eq : b ≡ a = bytes_eq_sound b a same in
            rw same (
              omega (
                arith,
                in_flight-idle a r.inflight (subst (λ x. is_busy x r.inflight ≡ false) eq idle),
              ))
      ])

-- Over any run of wakes and of calls that end, there is at most one call in flight for an actor, if there
-- was at most one at the start.
pub wake_run-single :
    (a : Bytes) (acts : List WakeAct) (r : Resumer)
    → in_flight a r.inflight ≤ 1
    → in_flight a (wake_run acts r).inflight ≤ 1
unfolding wake_run resume_done
wake_run-single a [] r h = h
wake_run-single a (wakes_up b ∷ acts) r h =
    wake_run-single a acts (resume b r) (in_flight-resume a b r h)
wake_run-single a (finishes b ∷ acts) r h =
    wake_run-single a acts (resume_done b r) (omega (arith, in_flight-drop a b r.inflight))
