-- ===== src/Broker/Table/Detach.antt =====
-- internal/broker/tunnelconn.go, `detachAll`: no session stays bound to a tunnel that is gone.
use substrate_poc.Prelude.{
  ℕ, ◌≡◌, refl, sym, ap, ◌∙◌, ◌≢◌, ◌⊎◌, inl, inr, true, false, not, some, List, [], ◌∷◌, arith,
  ◌==◌, Bool-cases, if-intro,
}
use substrate_poc.Broker.Session.State.{
  Session, Event, World, wake, bound_to, undelivered, detach, woke, removed,
}
use substrate_poc.Broker.Table.{
  Broker, set_cell, serve_events, world_of, on_session, detach_each, detach_all,
}

pub serve_events-heap :
    (s : Session) (es : List Event) (b : Broker) → (serve_events s es b).heap ≡ b.heap
unfolding serve_events
serve_events-heap s [] b = refl
serve_events-heap s (woke reason ∷ es) b = serve_events-heap s es _
serve_events-heap s (removed ∷ es) b = serve_events-heap s es _

-- A method of a session changes that session and no other.
pub on_session-heap :
    (r : ℕ) (method : World → World) (b : Broker)
    → (on_session r method b).heap ≡ set_cell b.heap r (method (world_of r b)).session
unfolding on_session
on_session-heap r method b = serve_events-heap _ _ _

abbrev pub IsFree : ℕ → ℕ → Broker → Type 0
IsFree tc r b = (b.heap r).tconn ≢ some tc

detach-free : (tc : ℕ) (w : World) → (detach tc w).session.tconn ≢ some tc
unfolding detach wake
detach-free tc w =
    if-intro {A = World} (λ x. x.session.tconn ≢ some tc) (not (bound_to w.session.tconn tc))
      (λ other e. absurd (ground (arith, e)))
      (λ _.
        if-intro {A = World} (λ x. x.session.tconn ≢ some tc) (undelivered w.session)
          (λ _ e. absurd cc) (λ _ e. absurd cc))

set_cell-same :
    (heap : ℕ → Session) (r q : ℕ) (s : Session) → (r == q) ≡ true → set_cell heap q s r ≡ s
set_cell-same heap r q s same = rw same refl

pub set_cell-other :
    (heap : ℕ → Session) (r q : ℕ) (s : Session) → (r == q) ≡ false → set_cell heap q s r ≡ heap r
set_cell-other heap r q s other = rw other refl

detach-IsFree :
    (tc r q : ℕ) (b : Broker) → (r ≡ q) ⊎ IsFree tc r b → IsFree tc r (on_session q (detach tc) b)
detach-IsFree tc r q b h e =
    let s = (detach tc (world_of q b)).session in
    let cell = ap {A = ℕ → Session} (λ f. f r) (on_session-heap q (detach tc) b) in
    elim (Bool-cases (r == q)) [
      | inl same ↦
          detach-free tc (world_of q b)
            (ap (λ s. s.tconn) (sym (cell ∙ set_cell-same b.heap r q s same)) ∙ e)
      | inr other ↦ elim h [
        | inl eq ↦ absurd (ground arith)
        | inr free ↦ free (ap (λ s. s.tconn) (sym (cell ∙ set_cell-other b.heap r q s other)) ∙ e)
      ]
    ]

abbrev pub Registered : ℕ → List (ℕ × ℕ) → Type 0
Registered r [] = ⊥
Registered r ((i, q) ∷ rest) = (r ≡ q) ⊎ Registered r rest

detach_each-IsFree :
    (tc r : ℕ) (rest : List (ℕ × ℕ)) (b : Broker)
    → Registered r rest ⊎ IsFree tc r b
    → IsFree tc r (detach_each tc rest b)
detach_each-IsFree tc r [] b (inl never) = elim never [ ]
detach_each-IsFree tc r [] b (inr free) = free
detach_each-IsFree tc r ((i, q) ∷ rest) b (inl (inl eq)) =
    detach_each-IsFree tc r rest (on_session q (detach tc) b)
      (inr (detach-IsFree tc r q b (inl eq)))
detach_each-IsFree tc r ((i, q) ∷ rest) b (inl (inr later)) =
    detach_each-IsFree tc r rest (on_session q (detach tc) b) (inl later)
detach_each-IsFree tc r ((i, q) ∷ rest) b (inr free) =
    detach_each-IsFree tc r rest (on_session q (detach tc) b)
      (inr (detach-IsFree tc r q b (inr free)))

-- When a tunnel connection's frame loop has ended, no session that was registered with it is bound to
-- it, whatever the sessions ask of the broker on the way.
pub detach_all-IsFree :
    (tc r : ℕ) (b : Broker) → Registered r (b.registered tc) → IsFree tc r (detach_all tc b)
unfolding detach_all
detach_all-IsFree tc r b h =
    detach_each-IsFree tc r (b.registered tc)
      (record b { registered = set_cell b.registered tc [] }) (inl h)
