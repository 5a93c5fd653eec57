-- ===== src/Sidecar/Proxy/Hosts.antt =====
-- internal/sidecar/proxy.go, `hostPort`: the target of a session.
use substrate_poc.Prelude.{
  ℕ, suc, ◌+◌, ◌<◌, ◌≡◌, refl, ap, ◌∙◌, ◌≢◌, inl, inr, true, false, ◌||◌, none, some, [], ◌∷◌, ◌++◌,
  append_assoc, arith, ◌==◌, ==_iff, Option-cases, length, take, take-length_append, Bytes,
}
use substrate_poc.Sidecar.Proxy.{
  colon, open_bracket, close_bracket, index_of, last_index, has_byte, starts_with_byte,
  bracketed_ok, split_host, split_ok, join_host_port, host_port,
}

-- A name with no colon and no bracket, and not empty.
pub record IsPlainName (name : Bytes) : Type 0 where
  pub no_colon : has_byte colon name ≡ false
  pub no_open : has_byte open_bracket name ≡ false
  pub no_close : has_byte close_bracket name ≡ false
  pub some_name : name ≢ []

has_byte-append : (c : ℕ) (xs ys : Bytes) → has_byte c (xs ++ ys) ≡ (has_byte c xs || has_byte c ys)
has_byte-append c [] ys = refl
has_byte-append c (x ∷ xs) ys = ground (arith, has_byte-append c xs ys)

last_index-none : (c : ℕ) (xs : Bytes) → has_byte c xs ≡ false → last_index c xs ≡ none
last_index-none c [] h = refl
last_index-none c (x ∷ xs) h = ground (arith, last_index-none c xs)

last_index-append :
    (c : ℕ) (xs ys : Bytes) (i : ℕ)
    → last_index c ys ≡ some i
    → last_index c (xs ++ ys) ≡ some (length xs + i)
last_index-append c [] ys i h = h ∙ ap some (omega arith)
last_index-append c (x ∷ xs) ys i h = rw (last_index-append c xs ys i h) (ap some (omega arith))

last_index-head : (c : ℕ) (ys : Bytes) → has_byte c ys ≡ false → last_index c (c ∷ ys) ≡ some 0
last_index-head c ys h = rw (last_index-none c ys h, (==_iff c c).1 refl) refl

starts_with_byte-false :
    (c : ℕ) (xs ys : Bytes)
    → xs ≢ []
    → has_byte c xs ≡ false
    → starts_with_byte c (xs ++ ys) ≡ false
starts_with_byte-false c [] ys some_byte h = absurd (some_byte refl)
starts_with_byte-false c (x ∷ xs) ys some_byte h = ground arith

-- A port: no colon and no bracket.
pub record IsPort (port : Bytes) : Type 0 where
  pub port_colon : has_byte colon port ≡ false
  pub port_open : has_byte open_bracket port ≡ false
  pub port_close : has_byte close_bracket port ≡ false

split_ok-named :
    (name port : Bytes) → IsPlainName name → IsPort port → split_ok (name ++ (colon ∷ port)) ≡ true
unfolding split_ok
split_ok-named name port h p =
    let hp = name ++ (colon ∷ port) in
    let at : last_index colon hp ≡ some (length name) =
      last_index-append colon name (colon ∷ port) 0 (last_index-head colon port p.port_colon)
      ∙ ap some (omega arith) in
    let opens : has_byte open_bracket hp ≡ false =
      ground (arith, has_byte-append open_bracket name (colon ∷ port), h.no_open, p.port_open) in
    let closes : has_byte close_bracket hp ≡ false =
      ground (arith, has_byte-append close_bracket name (colon ∷ port), h.no_close, p.port_close) in
    let front : take (length name) hp ≡ name = take-length_append name (colon ∷ port) in
    rw
      (
        at,
        starts_with_byte-false open_bracket name (colon ∷ port) h.some_name h.no_open,
        front,
        h.no_colon,
        opens,
        closes,
      )
      refl

split_ok-bare : (name : Bytes) → IsPlainName name → split_ok name ≡ false
unfolding split_ok
split_ok-bare name h = rw (last_index-none colon name h.no_colon) refl

-- A host without a port gets the default one, and a host with a port keeps it, so that a target is the same
-- whether or not the default port is written out. The name has no colon and no bracket, and is not empty;
-- neither has the port.
pub host_port-plain :
    (name port default_port : Bytes)
    → IsPlainName name
    → IsPort port
    → (host_port name port ≡ name ++ (colon ∷ port))
      × (host_port (name ++ (colon ∷ port)) default_port ≡ name ++ (colon ∷ port))
unfolding host_port join_host_port
host_port-plain [] port default_port h p = absurd (h.some_name refl)
host_port-plain (x ∷ xs) port default_port h p =
    (rw (split_ok-bare (x ∷ xs) h, h.no_colon) refl, rw (split_ok-named (x ∷ xs) port h p) refl)

last_index-bound : (c : ℕ) (xs : Bytes) (i : ℕ) → last_index c xs ≡ some i → i < length xs
last_index-bound c [] i e = absurd cc
last_index-bound c (x ∷ xs) i e = elim (Option-cases (last_index c xs)) [
  | inl nowhere ↦ ground (arith, nowhere)
  | inr (j, there) ↦
      let same : suc j ≡ i = cc (there, e) in omega (arith, last_index-bound c xs j there, same)
]

last_index-has : (c : ℕ) (xs : Bytes) → last_index c xs ≡ none → has_byte c xs ≡ false
last_index-has c [] e = refl
last_index-has c (x ∷ xs) e = elim (Option-cases (last_index c xs)) [
  | inl nowhere ↦ ground (arith, last_index-has c xs nowhere, nowhere)
  | inr (j, there) ↦ absurd cc
]

last_index-some :
    (c : ℕ) (xs : Bytes)
    → has_byte c xs ≡ true
    → (i : ℕ) × (last_index c xs ≡ some i) × (i < length xs)
last_index-some c xs h = elim (Option-cases (last_index c xs)) [
  | inl nowhere ↦ absurd (cc (h, last_index-has c xs nowhere))
  | inr (i, there) ↦ (i, there, last_index-bound c xs i there)
]

index_of-end :
    (c : ℕ) (xs : Bytes) → has_byte c xs ≡ false → index_of c (xs ++ c ∷ []) ≡ some (length xs)
index_of-end c [] h = rw ((==_iff c c).1 refl) refl
index_of-end c (x ∷ xs) h =
    let e : index_of c (xs ++ c ∷ []) ≡ some (length xs) = index_of-end c xs (ground arith) in
    rw (e) (ground (arith))

last_index-front :
    (c : ℕ) (xs ys : Bytes) → last_index c ys ≡ none → last_index c (xs ++ ys) ≡ last_index c xs
last_index-front c [] ys h = h
last_index-front c (x ∷ xs) ys h = rw (last_index-front c xs ys h) refl

last_index-later :
    (c x : ℕ) (xs : Bytes) (i : ℕ) → last_index c xs ≡ some i → last_index c (x ∷ xs) ≡ some (suc i)
last_index-later c x xs i e = rw (e) refl

split_ok-bracketed :
    (address : Bytes)
    → has_byte colon address ≡ true
    → has_byte close_bracket address ≡ false
    → split_ok (open_bracket ∷ (address ++ close_bracket ∷ [])) ≡ false
unfolding split_ok
split_ok-bracketed address colons closes =
    let (i, at, lt) = last_index-some colon address colons in
    let differ : (suc (suc (length address)) == suc i) ≡ false = ground arith in
    let hp = open_bracket ∷ (address ++ close_bracket ∷ []) in
    let colon_at : last_index colon hp ≡ some (suc i) =
      last_index-later colon open_bracket (address ++ close_bracket ∷ []) i
        (last_index-front colon address (close_bracket ∷ []) refl ∙ at) in
    let close_at : index_of close_bracket hp ≡ some (suc (length address)) =
      rw (index_of-end close_bracket address closes) refl in
    ap (λ o. split_host o hp) colon_at
    ∙ ap (λ o. bracketed_ok (suc i) o hp) close_at
    ∙ rw (differ) refl

-- A literal of an IPv6 address in brackets, with no port behind it, is put in brackets again. The address has
-- a colon, and no closing bracket of its own.
pub host_port-bracketed :
    (address default_port : Bytes)
    → has_byte colon address ≡ true
    → has_byte close_bracket address ≡ false
    → host_port (open_bracket ∷ (address ++ close_bracket ∷ [])) default_port
      ≡ open_bracket
        ∷ open_bracket
        ∷ (address ++ (close_bracket ∷ close_bracket ∷ colon ∷ default_port))
unfolding host_port join_host_port
host_port-bracketed address default_port colons closes =
    let has : has_byte colon (address ++ close_bracket ∷ []) ≡ true =
      ground (arith, has_byte-append colon address (close_bracket ∷ [])) in
    rw
      (
        split_ok-bracketed address colons closes,
        has,
        append_assoc address (close_bracket ∷ []) (close_bracket ∷ colon ∷ default_port),
      )
      refl
