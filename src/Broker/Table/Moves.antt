-- ===== src/Broker/Table/Moves.antt =====
-- internal/broker/broker.go: what a session's methods and the table's own steps do to the table.
use substrate_poc.Prelude.{
  false, ℕ, ◌+◌, ◌<◌, ◌≡◌, refl, sym, subst, ◌∙◌, inl, inr, none, List, [], ◌∷◌, ◌++◌, arith, ◌==◌,
  if◌then◌else◌, Bool-cases, Bytes, if-intro,
}
use substrate_poc.Broker.Session.State.{Session, Event, World, new_session, bind, woke, removed}
use substrate_poc.Broker.Session.{Act, act, binds, attaches}
use substrate_poc.Broker.Session.Downlink.{on_sidecar_attach}
use substrate_poc.Broker.Session.Lifetime.{removals, Origin, IsTidyAs}
use substrate_poc.Broker.Session.Lifetime.Acts.{IsTidy-act}
use substrate_poc.Broker.Table.{
  Broker, lookup, remove_session, set_cell, serve_events, world_of, on_session, register_in,
  register, bind_session, attach_found, make_session,
}
use substrate_poc.Broker.Table.Entries.{key_of, key_ext, serve_events-same, serve_events-removed}
use substrate_poc.Broker.Table.Ledger.{
  AllMade, IsLedger, ListsLive-kept, ListsLive-died, ListsLive-made,
}

-- A method with which a session is taken off the table exactly when it dies, and stays the actor's.
abbrev pub TidyMethod : (World → World) → Type 0
TidyMethod method =
    (o : Origin) (w : World) → o.stays ≡ false → IsTidyAs o w → IsTidyAs o (method w)

abbrev origin_at : ℕ → Broker → Origin
origin_at r b = record {
  gone = if (b.heap r).dead then 1 else 0;
  owner = (b.heap r).actor_id;
  number = (b.heap r).session_id;
  stays = false;
}

world_of-IsTidyAs :
    (r : ℕ) (b : Broker) → IsLedger b → r < b.made → IsTidyAs (origin_at r b) (world_of r b)
world_of-IsTidyAs r b h lt = record {
  counted = omega arith;
  shut = h.dead_closed r lt;
  owned = refl;
  numbered = refl;
  untold = λ on. absurd cc;
}

served-IsLedger :
    (r : ℕ) (b : Broker) (w : World)
    → IsLedger b
    → r < b.made
    → IsTidyAs (origin_at r b) w
    → IsLedger (
        serve_events w.session w.events
          (record b { heap = set_cell b.heap r w.session; conns = w.conns }))
served-IsLedger r b w h lt t =
    let moved = record b { heap = set_cell b.heap r w.session; conns = w.conns } in
    let same_key' : key_of w.session ≡ key_of (b.heap r) = key_ext t.owned t.numbered in
    let stays : w.session.dead ≡ (b.heap r).dead
        → removals w.events ≡ 0
        → IsLedger (serve_events w.session w.events moved) =
      λ same none_gone.
        let (calls, e) = serve_events-same w.session w.events moved none_gone in
        subst IsLedger (sym e) (ListsLive-kept h r w.session same_key' t.shut same) in
    elim (Bool-cases (b.heap r).dead) [
      | inl was_dead ↦ elim (Bool-cases w.session.dead) [
        | inl dead ↦ stays (dead ∙ sym was_dead) (ground (arith, t.counted, was_dead, dead))
        | inr alive ↦ absurd (ground (arith, t.counted, was_dead, alive))
      ]
      | inr was_alive ↦ elim (Bool-cases w.session.dead) [
        | inl dead ↦
            let (calls, e) =
              serve_events-removed w.session w.events moved
                (ground (arith, t.counted, was_alive, dead)) in
            subst IsLedger (sym e) (ListsLive-died h r w.session same_key' t.shut lt was_alive dead)
        | inr alive ↦ stays (alive ∙ sym was_alive) (ground (arith, t.counted, was_alive, alive))
      ]
    ]

pub on_session-IsLedger :
    (r : ℕ) (method : World → World) (b : Broker)
    → TidyMethod method
    → r < b.made
    → IsLedger b
    → IsLedger (on_session r method b)
unfolding on_session
on_session-IsLedger r method b tidy lt h =
    served-IsLedger r b (method (world_of r b)) h lt
      (tidy (origin_at r b) (world_of r b) refl (world_of-IsTidyAs r b h lt))

register_in-AllMade :
    (made session_id r : ℕ) (l : List (ℕ × ℕ))
    → r < made
    → AllMade made l
    → AllMade made (register_in session_id r l)
register_in-AllMade made session_id r [] lt a = (lt, tt)
register_in-AllMade made session_id r ((i, q) ∷ rest) lt a =
    if-intro {A = List (ℕ × ℕ)} (AllMade made) (i == session_id) (λ _. (lt, a.1))
      (λ _. (a.0, register_in-AllMade made session_id r rest lt a.1))

pub set_cell-All :
    (made : ℕ) (registered : ℕ → List (ℕ × ℕ)) (tc : ℕ) (l : List (ℕ × ℕ))
    → ((t : ℕ) → AllMade made (registered t))
    → AllMade made l
    → (t : ℕ) → AllMade made (set_cell registered tc l t)
set_cell-All made registered tc l all one t =
    if-intro {A = List (ℕ × ℕ)} (AllMade made) (t == tc) (λ _. one) (λ _. all t)

register-IsLedger : (tc r : ℕ) (b : Broker) → r < b.made → IsLedger b → IsLedger (register tc r b)
unfolding register
register-IsLedger tc r b lt h = record {
  named = h.named;
  listed = h.listed;
  dead_closed = h.dead_closed;
  known =
      set_cell-All b.made b.registered tc (register_in (b.heap r).session_id r (b.registered tc))
        h.known
        (register_in-AllMade b.made (b.heap r).session_id r (b.registered tc) lt (h.known tc));
}

serve_events-made :
    (s : Session) (es : List Event) (b : Broker) → (serve_events s es b).made ≡ b.made
unfolding serve_events remove_session
serve_events-made s [] b = refl
serve_events-made s (woke reason ∷ es) b =
    serve_events-made s es (record b { woken = b.woken ++ s.actor_id ∷ [] })
serve_events-made s (removed ∷ es) b =
    serve_events-made s es (remove_session s.actor_id s.session_id b)

pub on_session-made :
    (r : ℕ) (method : World → World) (b : Broker) → (on_session r method b).made ≡ b.made
unfolding on_session
on_session-made r method b = serve_events-made _ _ _

-- The handlers that the table calls.
pub act_method : (a : Act) → TidyMethod (act a)
act_method a o w off h = IsTidy-act a w (inl off) h

bind_session-IsLedger :
    (tc r : ℕ) (b : Broker) → r < b.made → IsLedger b → IsLedger (bind_session tc r b)
unfolding bind_session act
bind_session-IsLedger tc r b lt h =
    register-IsLedger tc r (on_session r (bind tc) b)
      (subst (λ n. r < n) (sym (on_session-made r (bind tc) b)) lt)
      (on_session-IsLedger r (bind tc) b (λ o w off t. IsTidy-act (binds tc) w (inl off) t) lt h)

bind_session-made : (tc r : ℕ) (b : Broker) → (bind_session tc r b).made ≡ b.made
unfolding bind_session register
bind_session-made tc r b = on_session-made r (bind tc) b

pub attach_on_session :
    (r offset : ℕ) (b : Broker)
    → r < b.made
    → IsLedger b
    → IsLedger (on_session r (on_sidecar_attach offset) b)
unfolding act
attach_on_session r offset b lt h =
    on_session-IsLedger r (on_sidecar_attach offset) b
      (λ o w off t. IsTidy-act (attaches offset) w (inl off) t) lt h

pub attach_found-IsLedger :
    (tc r offset : ℕ) (b : Broker) → r < b.made → IsLedger b → IsLedger (attach_found tc r offset b)
unfolding attach_found
attach_found-IsLedger tc r offset b lt h =
    attach_on_session r offset (bind_session tc r b)
      (subst (λ n. r < n) (sym (bind_session-made tc r b)) lt) (bind_session-IsLedger tc r b lt h)

pub make_session-IsLedger :
    (actor_id : Bytes) (tc session_id : ℕ) (target : Bytes) (b : Broker)
    → lookup actor_id session_id b ≡ none
    → IsLedger b
    → IsLedger (make_session actor_id tc session_id target b)
unfolding make_session lookup new_session
make_session-IsLedger actor_id tc session_id target b free h =
    let s = new_session b.cfg actor_id session_id target in
    bind_session-IsLedger tc b.made
      (record b {
        heap = set_cell b.heap b.made s;
        made = b.made + 1;
        sessions = (record { actor_id = actor_id; session_id = session_id }, b.made) ∷ b.sessions;
      })
      (omega arith) (ListsLive-made s h free refl)
