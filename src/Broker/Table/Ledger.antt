-- ===== src/Broker/Table/Ledger.antt =====
-- internal/broker/broker.go: the table has the live sessions.
use substrate_poc.Prelude.{
  ℕ, ◌+◌, ◌<◌, ◌≡◌, refl, sym, ap, ◌∙◌, ◌≢◌, true, false, Option, none, some, List, [], ◌∷◌, arith,
  ◌==◌, All, if-intro,
}
use substrate_poc.Broker.Session.State.{Session}
use substrate_poc.Broker.Session.Lifetime.{AllClosed}
use substrate_poc.Broker.Table.{SessionKey, Broker, same_key, find, delete, set_cell}
use substrate_poc.Broker.Table.Entries.{
  key_of, same_key_sound, same_key_complete, find_past, find_first, find-delete, find-kept,
}

abbrev pub AllMade : ℕ → List (ℕ × ℕ) → Type 0
AllMade made l = All (λ p. p.1 < made) l

-- The table has each live session under its own key, and no other; the connection of a dead session is
-- closed; and the tunnel connections know of no session that was not made.
pub record ListsLive (heap : ℕ → Session) (made : ℕ) (sessions : List (SessionKey × ℕ))
    (registered : ℕ → List (ℕ × ℕ)) : Type 0 where
  pub named :
      (key : SessionKey) (q : ℕ)
      → find key sessions ≡ some q
      → (q < made) × (key_of (heap q) ≡ key) × ((heap q).dead ≡ false)
  pub listed : (q : ℕ) → q < made → (heap q).dead ≡ false → find (key_of (heap q)) sessions ≡ some q
  pub dead_closed : (q : ℕ) → q < made → (heap q).dead ≡ true → AllClosed (heap q).upstream
  pub known : (tc : ℕ) → AllMade made (registered tc)

abbrev pub IsLedger : Broker → Type 0
IsLedger b = ListsLive b.heap b.made b.sessions b.registered

pub cell-intro :
    (P : Session → Type 0) (heap : ℕ → Session) (r : ℕ) (s : Session) (q : ℕ)
    → (q ≡ r → P s)
    → (q ≢ r → P (heap q))
    → P (set_cell heap r s q)
cell-intro P heap r s q same other =
    if-intro {A = Session} P (q == r) (λ e. same (ground arith))
      (λ e. other (λ f. absurd (ground arith)))

module _ {heap : ℕ → Session} {made : ℕ} {sessions : List (SessionKey × ℕ)}
    {registered : ℕ → List (ℕ × ℕ)} (h : ListsLive heap made sessions registered) (r : ℕ)
    (s : Session) (same_key' : key_of s ≡ key_of (heap r))
    (shut : s.dead ≡ true → AllClosed s.upstream) where
  -- A session changes, and neither its key nor its life.
  pub ListsLive-kept :
      s.dead ≡ (heap r).dead → ListsLive (set_cell heap r s) made sessions registered
  ListsLive-kept same_dead = record {
    named = λ key q e.
        let (lt, its_key, alive) = h.named key q e in
        cell-intro (λ s. (q < made) × (key_of s ≡ key) × (s.dead ≡ false)) heap r s q
          (λ here. (
            lt,
            same_key' ∙ ap (λ i. key_of (heap i)) (sym here) ∙ its_key,
            same_dead ∙ ap (λ i. (heap i).dead) (sym here) ∙ alive,
          ))
          (λ other. (lt, its_key, alive));
    listed = λ q lt.
        cell-intro (λ s. s.dead ≡ false → find (key_of s) sessions ≡ some q) heap r s q
          (λ here alive.
            ap (λ k. find k sessions) (same_key' ∙ ap (λ i. key_of (heap i)) (sym here))
            ∙ h.listed q lt (ap (λ i. (heap i).dead) here ∙ sym same_dead ∙ alive))
          (λ other alive. h.listed q lt alive);
    dead_closed = λ q lt.
        cell-intro (λ s. s.dead ≡ true → AllClosed s.upstream) heap r s q (λ here. shut)
          (λ other. h.dead_closed q lt);
    known = h.known;
  }

  -- A session dies, and is taken off the table.
  pub ListsLive-died :
      r < made
      → (heap r).dead ≡ false
      → s.dead ≡ true
      → ListsLive (set_cell heap r s) made (delete (key_of s) sessions) registered
  ListsLive-died made_r alive_r dead_s =
      let at_r : find (key_of s) sessions ≡ some r =
        ap (λ k. find k sessions) same_key' ∙ h.listed r made_r alive_r in
      record {
        named = λ key q e.
            let (ne, there) = find-delete key (key_of s) sessions q e in
            let (lt, its_key, alive) = h.named key q there in
            cell-intro (λ s. (q < made) × (key_of s ≡ key) × (s.dead ≡ false)) heap r s q
              (λ here. absurd (ne (sym its_key ∙ ap (λ i. key_of (heap i)) here ∙ sym same_key')))
              (λ other. (lt, its_key, alive));
        listed = λ q lt.
            cell-intro
              (λ s'. s'.dead ≡ false → find (key_of s') (delete (key_of s) sessions) ≡ some q) heap
              r s q (λ here alive. absurd (cc (dead_s, alive)))
              (λ other alive.
                find-kept (key_of (heap q)) (key_of s) sessions q
                  (λ same.
                    let both : some q ≡ some r =
                      sym (h.listed q lt alive) ∙ ap (λ k. find k sessions) same ∙ at_r in
                    absurd (other (cc both)))
                  (h.listed q lt alive));
        dead_closed = λ q lt.
            cell-intro (λ s. s.dead ≡ true → AllClosed s.upstream) heap r s q (λ here. shut)
              (λ other. h.dead_closed q lt);
        known = h.known;
      }

All-later : (made : ℕ) (l : List (ℕ × ℕ)) → AllMade made l → AllMade (made + 1) l
All-later made [] a = tt
All-later made ((i, r) ∷ l) a = (omega (arith, a.0), All-later made l a.1)

-- A session is made, under a key that the table does not have.
pub ListsLive-made :
    {heap : ℕ → Session} {made : ℕ} {sessions : List (SessionKey × ℕ)}
    {registered : ℕ → List (ℕ × ℕ)} (s : Session)
    → ListsLive heap made sessions registered
    → find (key_of s) sessions ≡ none
    → s.dead ≡ false
    → ListsLive (set_cell heap made s) (made + 1) ((key_of s, made) ∷ sessions) registered
ListsLive-made {heap} {made} {sessions} {registered} s h free alive = record {
  named = λ key q.
      if-intro {A = Option ℕ}
        (λ o.
          o ≡ some q
          → (q < made + 1)
            × (key_of (set_cell heap made s q) ≡ key)
            × ((set_cell heap made s q).dead ≡ false))
        (same_key (key_of s) key)
        (λ hit e.
          let here : q ≡ made = sym (cc e) in
          cell-intro (λ s. (q < made + 1) × (key_of s ≡ key) × (s.dead ≡ false)) heap made s q
            (λ _. (omega (arith, here), same_key_sound (key_of s) key hit, alive))
            (λ other. absurd (other here)))
        (λ miss e.
          let (lt, its_key, lives) = h.named key q e in
          cell-intro (λ s. (q < made + 1) × (key_of s ≡ key) × (s.dead ≡ false)) heap made s q
            (λ here. absurd (omega (arith, lt, here)))
            (λ other. (omega (arith, lt), its_key, lives)));
  listed = λ q lt.
      cell-intro (λ s'. s'.dead ≡ false → find (key_of s') ((key_of s, made) ∷ sessions) ≡ some q)
        heap made s q
        (λ here _.
          find_first (key_of s) (key_of s) made sessions
            (same_key_complete (key_of s) (key_of s) refl)
          ∙ ap some (sym here))
        (λ other lives.
          let old : q < made = ground (arith, lt, other) in
          let there = h.listed q old lives in
          find_past (key_of (heap q)) (key_of s) made sessions
            (λ same. absurd (cc (free, ap (λ k. find k sessions) same, there)))
          ∙ there);
  dead_closed = λ q lt.
      cell-intro (λ s. s.dead ≡ true → AllClosed s.upstream) heap made s q
        (λ here dead. absurd (cc (dead, alive)))
        (λ other. h.dead_closed q (ground (arith, lt, other)));
  known = λ tc. All-later made (registered tc) (h.known tc);
}
