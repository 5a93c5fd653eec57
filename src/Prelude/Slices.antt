-- ===== src/Prelude/Slices.antt =====
-- Pieces of a byte stream: `p` stands in `u` at offset `o`.
use Prim.Native.Nat.{ℕ, zero, suc, ◌+◌, ◌-◌, ◌≤◌}
use Prim.Native.Nat.add
use native.Mathlib.Nat.{zero-add}
use mathlib.Core.Path.{◌≡◌, refl, sym, ap, ◌∙◌}
use mathlib.Core.List.{List, [], ◌∷◌, ◌++◌}
use native.Mathlib.Omega.{arith}
use substrate_poc.Prelude.Lists.{
  length, take, drop, length-append, length-drop, take-all, drop-drop, take-append, drop-append,
}

module _ {ℓ} {A : Type ℓ} where
  abbrev pub IsSlice : List A → ℕ → List A → Type ℓ
  IsSlice u o p = (o + length p ≤ length u) × (take (length p) (drop o u) ≡ p)

  pub take-add : (a b : ℕ) (u : List A) → take (a + b) u ≡ take a u ++ take b (drop a u)
  take-add zero b u = rw zero-add
  take-add (suc a) zero [] = rw (add.suc a zero)
  take-add (suc a) (suc b) [] = rw (add.suc a (suc b))
  take-add (suc a) b (x ∷ u) = rw (add.suc a b) (ap (◌∷◌ x) (take-add a b u))

  take-nil : (n : ℕ) → ◌≡◌ {A = List A} (take n []) []
  take-nil zero = refl
  take-nil (suc n) = refl

  drop-take : (k n : ℕ) (u : List A) → drop k (take n u) ≡ take (n - k) (drop k u)
  drop-take zero n u = ap (λ m. take m u) (let e : n ≡ n - 0 = omega arith in e)
  drop-take (suc k) zero u =
      ap (λ m. take m (drop (suc k) u)) (let e : 0 ≡ 0 - suc k = omega arith in e)
  drop-take (suc k) (suc n) [] = sym (take-nil (suc n - suc k))
  drop-take (suc k) (suc n) (x ∷ u) =
      drop-take k n u
      ∙ ap (λ m. take m (drop k u)) (let e : n - k ≡ suc n - suc k = omega arith in e)

  -- A slice behind the first `a` bytes makes the first `a + length p`.
  pub take-slice :
      (u : List A) (a : ℕ) (p : List A) → IsSlice u a p → take (a + length p) u ≡ take a u ++ p
  take-slice u a p h = take-add a (length p) u ∙ ap (λ t. take a u ++ t) h.1

  pub IsSlice-drop :
      (u : List A) (o : ℕ) (p : List A) (k : ℕ)
      → IsSlice u o p
      → k ≤ length p
      → IsSlice u (o + k) (drop k p)
  IsSlice-drop u o p k h le = (
    omega (arith, h.0, length-drop k p),
    ap (λ t. take (length (drop k p)) t) (sym (drop-drop k o u))
        ∙ ap (λ m. take m (drop k (drop o u))) (length-drop k p)
        ∙ sym (drop-take k (length p) (drop o u))
        ∙ ap (drop k) h.1,
  )

  -- What is left of a stream from an offset on is a slice, and so is each front of it.
  pub IsSlice-rest : (u : List A) (o : ℕ) → o ≤ length u → IsSlice u o (drop o u)
  IsSlice-rest u o h = (omega (arith, length-drop o u), take-all _ (drop o u) (omega arith))

  pub IsSlice-append :
      (u : List A) (o : ℕ) (p more : List A) → IsSlice u o p → IsSlice (u ++ more) o p
  IsSlice-append u o p more h = (
    omega (arith, h.0, length-append u more),
    ap (take (length p)) (drop-append o u more (omega (arith, h.0)))
        ∙ take-append (length p) (drop o u) more (omega (arith, h.0, length-drop o u))
        ∙ h.1,
  )
