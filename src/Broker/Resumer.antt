-- ===== src/Broker/Resumer.antt =====
-- internal/broker/resumer.go, and `Ref` of internal/ateapi/ateapi.go: how the broker wakes an actor.
-- Times are nanoseconds.
pub mod Retries
use mathlib.Core.Option
use substrate_poc.Prelude.{
  ℕ, suc, ◌+◌, ◌*◌, ◌/◌, Bool, false, ◌||◌, Option, none, some, List, [], ◌∷◌, ◌++◌, map, ltb, ◌==◌,
  if◌then◌else◌, take, drop, Bytes, bytes_eq,
}

pub record Ref : Type 0 where
  pub atespace : Bytes
  pub name : Bytes

abbrev pub slash : ℕ
slash = 47

unfoldable pub ref_string : Ref → Bytes
ref_string r = r.atespace ++ slash ∷ r.name

-- `strings.IndexByte`
unfoldable pub index_byte : ℕ → Bytes → Option ℕ
index_byte c [] = none
index_byte c (x ∷ xs) = let rest = index_byte c xs in if x == c then some 0 else Option.map suc rest

unfoldable pub parse_ref : Bytes → Ref
unfolding index_byte
parse_ref actor_id = elim (index_byte slash actor_id) [
  | some i ↦ record { atespace = take i actor_id; name = drop (i + 1) actor_id }
  | none ↦ record { atespace = []; name = actor_id }
]

-- The actors with a call in flight. `calls` counts the calls of `ResumeActor` that were begun.
pub record Resumer : Type 0 where
  pub inflight : List Bytes
  pub calls : ℕ

abbrev pub is_busy : Bytes → List Bytes → Bool
is_busy actor_id [] = false
is_busy actor_id (a ∷ rest) = bytes_eq a actor_id || is_busy actor_id rest

abbrev pub drop_actor : Bytes → List Bytes → List Bytes
drop_actor actor_id [] = []
drop_actor actor_id (a ∷ rest) =
    let rest' = drop_actor actor_id rest in if bytes_eq a actor_id then rest' else a ∷ rest'

-- The first section of `resume`; the goroutine that it starts ends with `resume_done`.
unfoldable pub resume : Bytes → Resumer → Resumer
resume actor_id r =
    if is_busy actor_id r.inflight
    then r
    else record { inflight = actor_id ∷ r.inflight; calls = r.calls + 1 }

unfoldable pub resume_done : Bytes → Resumer → Resumer
resume_done actor_id r = record r { inflight = drop_actor actor_id r.inflight }

-- What `ResumeActor` answers: no error, `codes.Aborted`, or another error.
pub data Answer : Type 0 where
  resumed aborted failed : Answer

-- How the loop ends, and at which attempt. `unanswered` is no Go value: the answers ran out.
pub data Ended : Type 0 where
  went_well : ℕ → Ended
  went_wrong : ℕ → Ended
  gave_up : ℕ → Ended
  unanswered : Ended

abbrev pub first_backoff : ℕ
first_backoff = 200000000

abbrev pub next_backoff : ℕ → ℕ
next_backoff backoff = if ltb backoff 2000000000 then backoff * 3 / 2 else backoff

-- `deadline` is the context's. Each answer comes with the time that its call took.
unfoldable pub retry : ℕ → ℕ → ℕ → ℕ → List (ℕ × Answer) → Ended
retry deadline now backoff attempt [] = unanswered
retry deadline now backoff attempt ((took, answer) ∷ answers) =
    let rest = retry deadline (now + took + backoff) (next_backoff backoff) (attempt + 1) answers in
    elim answer [
      | resumed ↦ went_well attempt
      | failed ↦ went_wrong attempt
      | aborted ↦ if ltb deadline (now + took + backoff) then gave_up attempt else rest
    ]

-- The goroutine, which starts at `now` and gives itself 30 seconds.
unfoldable pub resume_actor : ℕ → List (ℕ × Answer) → Ended
unfolding retry
resume_actor now answers = retry (now + 30000000000) now first_backoff 1 answers
