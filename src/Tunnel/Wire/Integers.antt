-- ===== src/Tunnel/Wire/Integers.antt =====
-- Big-endian integers of `k` bytes, as encoding/binary writes and reads them.
use native.Mathlib.Nat.{pow-suc}
use substrate_poc.Prelude.{
  All-right, ℕ, zero, suc, ◌+◌, ◌*◌, ◌/◌, ◌%◌, ◌^◌, ◌<◌, Bytes, IsByte, All, [], ◌∷◌, ◌++◌, ◌≡◌,
  refl, ap, ◌∙◌, append_assoc, arith, length, length-append, Result, ok, err, eof, ◌>>=◌, >>=-eq-ok,
}

-- The `k` low bytes of `v`, highest first.
unfoldable pub be : ℕ → ℕ → Bytes
be zero v = []
be (suc k) v = be k (v / 256) ++ (v % 256) ∷ []

-- Reads `k` bytes behind those that made `acc`.
unfoldable pub get_be : ℕ → ℕ → Bytes → Result (ℕ × Bytes)
get_be zero acc src = ok (acc, src)
get_be (suc k) acc [] = err eof
get_be (suc k) acc (b ∷ src) = get_be k (acc * 256 + b) src

pub length-be : (k v : ℕ) → length (be k v) ≡ k
unfolding be
length-be zero v = refl
length-be (suc k) v =
    length-append (be k (v / 256)) ((v % 256) ∷ []) ∙ omega (arith, length-be k (v / 256))

-- The last byte is read last.
get_be-suc :
    (k acc : ℕ) (src : Bytes)
    → get_be (suc k) acc src ≡ (get_be k acc src >>= λ p. get_be 1 p.0 p.1)
unfolding get_be
get_be-suc zero acc [] = refl
get_be-suc zero acc (b ∷ src) = refl
get_be-suc (suc k) acc [] = refl
get_be-suc (suc k) acc (b ∷ src) = get_be-suc k (acc * 256 + b) src

get_be-1 : (acc b : ℕ) (src : Bytes) → get_be 1 acc (b ∷ src) ≡ ok (acc * 256 + b, src)
unfolding get_be
get_be-1 acc b src = refl

quotient_bound : (k v : ℕ) → v < 256 ^ suc k → v / 256 < 256 ^ k
quotient_bound k v h = omega (arith, pow-suc 256 k)

-- What `be` wrote is read back, and what follows is left.
pub get_be-be : (k v : ℕ) (rest : Bytes) → v < 256 ^ k → get_be k 0 (be k v ++ rest) ≡ ok (v, rest)
unfolding be
get_be-be zero v rest h = unfold get_be in ground arith
get_be-be (suc k) v rest h =
    rw
      (
        append_assoc,
        get_be-suc,
        get_be-be k (v / 256) ((v % 256) ∷ rest) (quotient_bound k v h),
        get_be-1,
      )
      (ap (λ x. ok (x, rest)) (omega arith))

get_be-1_ok :
    (acc : ℕ) (src : Bytes) {v : ℕ} {rest : Bytes}
    → get_be 1 acc src ≡ ok (v, rest)
    → (b : ℕ) × (src ≡ b ∷ rest) × (v ≡ acc * 256 + b)
unfolding get_be
get_be-1_ok acc [] h = cc
get_be-1_ok acc (b ∷ src) h = (b, ground arith, ground arith)

-- One more byte behind the encoding of `u`.
be_snoc :
    (k u b : ℕ)
    → b < 256
    → u < 256 ^ k
    → (be (suc k) (u * 256 + b) ≡ be k u ++ b ∷ []) × (u * 256 + b < 256 ^ suc k)
unfolding be
be_snoc k u b hb hu = (rw (the_quotient, the_digit), omega (arith, pow-suc 256 k))
  where
    the_quotient : (u * 256 + b) / 256 ≡ u
    the_quotient = omega arith

    the_digit : (u * 256 + b) % 256 ≡ b
    the_digit = omega arith

-- Whatever is read is the encoding of the value.
pub be-get_be :
    (k : ℕ) (src : Bytes) {v : ℕ} {rest : Bytes}
    → All IsByte src
    → get_be k 0 src ≡ ok (v, rest)
    → (src ≡ be k v ++ rest) × (v < 256 ^ k)
be-get_be zero src h e = unfold be get_be in ground arith
be-get_be (suc k) src {v} {rest} h e =
    let ((u, src'), e₁, e₂) = >>=-eq-ok (get_be k 0 src) _ (rw get_be-suc at e) in
    let (b, e₃, e₄) = get_be-1_ok u src' e₂ in
    let (e₅, hu) = be-get_be k src h e₁ in
    let split : src ≡ be k u ++ b ∷ rest = rw (← e₃) e₅ in
    let hb : b < 256 = (All-right IsByte (be k u) (b ∷ rest) (rw split at h)).0 in
    let (e₆, hv) = be_snoc k u b hb hu in rw (e₄, e₆, append_assoc) (split, hv)
