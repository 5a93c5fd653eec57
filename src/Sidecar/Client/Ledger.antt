-- ===== src/Sidecar/Client/Ledger.antt =====
-- internal/sidecar/client.go: the client's table has the live sessions.
use substrate_poc.Prelude.{
  ℕ, ◌≤◌, ◌<◌, ◌≡◌, refl, sym, ap, subst, ◌∙◌, ◌≢◌, Bool, true, false, not, ◌&&◌, ◌||◌, List, [],
  ◌∷◌, arith, ◌==◌, if◌then◌else◌, if-intro,
}
use substrate_poc.Sidecar.Session.{ClientSession, Side}
use substrate_poc.Sidecar.Session.Told.{IsTold}
use substrate_poc.Sidecar.Client.{Client, put_at, unlist, is_listed, side_of, on_side}

pub listed-unlist :
    (q id : ℕ) (l : List ℕ) → is_listed q (unlist id l) ≡ (is_listed q l && not (q == id))
listed-unlist q id [] = refl
listed-unlist q id (i ∷ l) =
    if-intro {A = List ℕ} (λ l'. is_listed q l' ≡ (((i == q) || is_listed q l) && not (q == id)))
      (i == id) (λ hit. ground (arith, listed-unlist q id l, hit))
      (λ miss. ground (arith, listed-unlist q id l, miss))

-- Whatever is on the table is alive, and has its own number; whatever is alive, of those numbered from 1 to
-- the last number that was given, is on the table.
pub record ListsAlive (last_id : ℕ) (cells : ℕ → ClientSession) (listed : List ℕ) : Type 0 where
  pub on_table :
      (q : ℕ) → is_listed q listed ≡ true → ((cells q).session_id ≡ q) × ((cells q).dead ≡ false)
  pub covered : (q : ℕ) → 0 < q → q ≤ last_id → (cells q).dead ≡ false → is_listed q listed ≡ true

abbrev pub IsTabled : Client → Type 0
IsTabled c = ListsAlive c.last_id c.cells c.listed

pub cell_intro :
    (P : ClientSession → Type 0) (cells : ℕ → ClientSession) (id : ℕ) (s : ClientSession) (q : ℕ)
    → (q ≡ id → P s)
    → (q ≢ id → P (cells q))
    → P (put_at cells id s q)
cell_intro P cells id s q same other =
    if-intro {A = ClientSession} P (q == id) (λ e. same (ground arith))
      (λ e. other (λ f. absurd (ground arith)))

-- A session's method has run.
ListsAlive-told :
    (last_id id : ℕ) (cells : ℕ → ClientSession) (listed : List ℕ) (w : Side)
    → ListsAlive last_id cells listed
    → IsTold (cells id).session_id (cells id).dead w
    → ListsAlive last_id
        (put_at cells id w.session)
        (if w.removed then unlist id listed else listed)
ListsAlive-told last_id id cells listed w h t =
    if-intro {A = List ℕ} (ListsAlive last_id (put_at cells id w.session)) w.removed
      (λ gone. record {
        on_table = λ q l.
            let split : (is_listed q listed ≡ true) × (q ≢ id) =
              ground (arith, listed-unlist q id listed, l) in
            cell_intro (λ s. (s.session_id ≡ q) × (s.dead ≡ false)) cells id w.session q
              (λ here. absurd (split.1 here)) (λ other. h.on_table q split.0);
        covered = λ q lo hi.
            cell_intro (λ s. s.dead ≡ false → is_listed q (unlist id listed) ≡ true) cells id
              w.session q (λ here alive. absurd (ground (arith, t.told, gone, alive)))
              (λ other alive.
                ground (arith, listed-unlist q id listed, h.covered q lo hi alive, other));
      })
      (λ stays. record {
        on_table = λ q l.
            cell_intro (λ s. (s.session_id ≡ q) × (s.dead ≡ false)) cells id w.session q
              (λ here.
                let (number, alive) =
                  h.on_table id (subst (λ i. is_listed i listed ≡ true) here l) in
                (t.numbered ∙ number ∙ sym here, ground (arith, t.told, stays, alive)))
              (λ other. h.on_table q l);
        covered = λ q lo hi.
            cell_intro (λ s. s.dead ≡ false → is_listed q listed ≡ true) cells id w.session q
              (λ here alive.
                h.covered q lo hi
                  (ap (λ i. (cells i).dead) here ∙ ground (arith, t.told, stays, alive)))
              (λ other alive. h.covered q lo hi alive);
      })

-- A method with which a session is taken off the table exactly when it dies.
abbrev pub ToldMethod : (Side → Side) → Type 0
ToldMethod method = (id : ℕ) (was : Bool) (w : Side) → IsTold id was w → IsTold id was (method w)

pub on_side-IsTabled :
    (id : ℕ) (method : Side → Side) (c : Client)
    → ToldMethod method
    → IsTabled c
    → IsTabled (on_side id method c)
unfolding on_side side_of
on_side-IsTabled id method c told h =
    let w = side_of id c in
    let s = c.cells id in
    ListsAlive-told c.last_id id c.cells c.listed (method w) h
      (told s.session_id s.dead w (record { numbered = refl; told = refl }))

-- A session that is alive is put on the table under the next number.
pub ListsAlive-started :
    (last_id id : ℕ) (cells : ℕ → ClientSession) (listed : List ℕ) (s : ClientSession)
    → ListsAlive last_id cells listed
    → s.session_id ≡ id
    → s.dead ≡ false
    → ((q : ℕ) → 0 < q → q ≤ id → q ≢ id → q ≤ last_id)
    → ListsAlive id (put_at cells id s) (id ∷ unlist id listed)
ListsAlive-started last_id id cells listed s h number alive older = record {
  on_table = λ q l.
      cell_intro (λ s. (s.session_id ≡ q) × (s.dead ≡ false)) cells id s q
        (λ here. (number ∙ sym here, alive))
        (λ other. h.on_table q (
          let there : is_listed q listed ≡ true =
            ground (arith, listed-unlist q id listed, l, other) in
          there));
  covered = λ q lo hi.
      cell_intro (λ s. s.dead ≡ false → is_listed q (id ∷ unlist id listed) ≡ true) cells id s q
        (λ here _. ground (arith, here))
        (λ other lives.
          ground
            (arith, listed-unlist q id listed, h.covered q lo (older q lo hi other) lives, other));
}
