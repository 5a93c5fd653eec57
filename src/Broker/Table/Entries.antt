-- ===== src/Broker/Table/Entries.antt =====
-- internal/broker/broker.go: the entries of the table, and what a session asks of it.
use substrate_poc.Prelude.{
  ℕ, ◌≡◌, refl, sym, ap, subst, ◌∙◌, ◌≢◌, inl, inr, true, false, Option, some, List, [], ◌∷◌, ◌++◌,
  arith, if◌then◌else◌, ==_iff, Bool-cases, Bytes, bytes_eq_sound, bytes_eq_refl, if-intro,
}
use substrate_poc.Broker.Session.State.{Session, Event, woke, removed}
use substrate_poc.Broker.Session.Lifetime.{removals}
use substrate_poc.Broker.Table.{
  SessionKey, Broker, same_key, find, delete, remove_session, serve_events,
}

abbrev pub key_of : Session → SessionKey
key_of s = record { actor_id = s.actor_id; session_id = s.session_id }

pub key_ext : {k l : SessionKey} → k.actor_id ≡ l.actor_id → k.session_id ≡ l.session_id → k ≡ l
key_ext {k} {l} e f =
    ap (λ a. record { actor_id = a; session_id = k.session_id }) e
    ∙ ap (λ i. record { actor_id = l.actor_id; session_id = i }) f

pub same_key_sound : (k l : SessionKey) → same_key k l ≡ true → k ≡ l
same_key_sound k l e = key_ext (bytes_eq_sound k.actor_id l.actor_id (ground arith)) (ground arith)

pub same_key_complete : (k l : SessionKey) → k ≡ l → same_key k l ≡ true
same_key_complete k l e =
    subst (λ x. same_key k x ≡ true) e
      (rw (bytes_eq_refl k.actor_id, (==_iff k.session_id k.session_id).1 refl) refl)

pub same_key_differ : (k l : SessionKey) → same_key k l ≡ false → k ≢ l
same_key_differ k l e same = absurd (cc (same_key_complete k l same))

-- The first entry is passed over, or is the one.
pub find_past :
    (k k₀ : SessionKey) (r₀ : ℕ) (rest : List (SessionKey × ℕ))
    → k₀ ≢ k
    → find k ((k₀, r₀) ∷ rest) ≡ find k rest
find_past k k₀ r₀ rest ne =
    if-intro {A = Option ℕ} (λ o. o ≡ find k rest) (same_key k₀ k)
      (λ hit. absurd (ne (same_key_sound k₀ k hit))) (λ _. refl)

pub find_first :
    (k k₀ : SessionKey) (r₀ : ℕ) (rest : List (SessionKey × ℕ))
    → same_key k₀ k ≡ true
    → find k ((k₀, r₀) ∷ rest) ≡ some r₀
find_first k k₀ r₀ rest hit = rw hit refl

-- What is found behind a delete was there, under another key.
pub find-delete :
    (k key : SessionKey) (l : List (SessionKey × ℕ)) (q : ℕ)
    → find k (delete key l) ≡ some q
    → (k ≢ key) × (find k l ≡ some q)
find-delete k key [] q = λ e. absurd cc
find-delete k key ((k₀, r₀) ∷ rest) q =
    if-intro {A = List (SessionKey × ℕ)}
      (λ l. find k l ≡ some q → (k ≢ key) × (find k ((k₀, r₀) ∷ rest) ≡ some q)) (same_key k₀ key)
      (λ hit e.
        let (ne, there) = find-delete k key rest q e in
        (ne, find_past k k₀ r₀ rest (λ same. ne (sym same ∙ same_key_sound k₀ key hit)) ∙ there))
      (λ miss.
        if-intro {A = Option ℕ}
          (λ o.
            (if same_key k₀ k then some r₀ else find k (delete key rest)) ≡ some q
            → (k ≢ key) × (o ≡ some q))
          (same_key k₀ k)
          (λ hit e. (
            (λ same. same_key_differ k₀ key miss (same_key_sound k₀ k hit ∙ same)),
            sym (rw hit refl) ∙ e,
          ))
          (λ past e. find-delete k key rest q (sym (rw past refl) ∙ e)))

pub find-kept :
    (k key : SessionKey) (l : List (SessionKey × ℕ)) (q : ℕ)
    → k ≢ key
    → find k l ≡ some q
    → find k (delete key l) ≡ some q
find-kept k key [] q ne e = absurd cc
find-kept k key ((k₀, r₀) ∷ rest) q ne e =
    if-intro {A = List (SessionKey × ℕ)} (λ l. find k l ≡ some q) (same_key k₀ key)
      (λ hit.
        find-kept k key rest q ne
          (sym (find_past k k₀ r₀ rest (λ same. ne (sym same ∙ same_key_sound k₀ key hit))) ∙ e))
      (λ miss. elim (Bool-cases (same_key k₀ k)) [
        | inl hit ↦ find_first k k₀ r₀ (delete key rest) hit ∙ sym (find_first k k₀ r₀ rest hit) ∙ e
        | inr past ↦
            find_past k k₀ r₀ (delete key rest) (same_key_differ k₀ k past)
            ∙ find-kept k key rest q ne
                (sym (find_past k k₀ r₀ rest (same_key_differ k₀ k past)) ∙ e)
      ])

pub serve_events-same :
    (s : Session) (es : List Event) (b : Broker)
    → removals es ≡ 0
    → (calls : List Bytes) × (serve_events s es b ≡ record b { woken = calls })
unfolding serve_events
serve_events-same s [] b h = (b.woken, refl)
serve_events-same s (woke reason ∷ es) b h =
    serve_events-same s es (record b { woken = b.woken ++ s.actor_id ∷ [] }) h
serve_events-same s (removed ∷ es) b h = absurd (omega (arith, h))

pub serve_events-removed :
    (s : Session) (es : List Event) (b : Broker)
    → removals es ≡ 1
    → (calls : List Bytes) × (serve_events s es b
        ≡ record b { sessions = delete (key_of s) b.sessions; woken = calls })
unfolding serve_events remove_session
serve_events-removed s [] b h = absurd (omega (arith, h))
serve_events-removed s (woke reason ∷ es) b h =
    serve_events-removed s es (record b { woken = b.woken ++ s.actor_id ∷ [] }) h
serve_events-removed s (removed ∷ es) b h =
    serve_events-same s es (remove_session s.actor_id s.session_id b) (omega (arith, h))
