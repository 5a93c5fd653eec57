-- ===== src/Prelude/Results.antt =====
-- Go's (value, error) pairs.
use mathlib.Core.Path.{◌≡◌, refl}

-- `eof` is any failure of a read: the input ended, or the connection broke.
pub data Error : Type 0 where
  eof payload_too_big string_too_big bad_type replay_acked replay_beyond buffer_full write_failed :
      Error

-- Go returns the error beside a value that is not looked at then.
pub data Result {ℓ} (Val : Type ℓ) : Type ℓ where
  err : Error → Result Val
  ok : Val → Result Val

-- `if err != nil { return err }`
infixl 5 ◌>>=◌
abbrev pub ◌>>=◌ {ℓ κ} :
    {Val : Type ℓ} {Next : Type κ} (r : Result Val) (next : Val → Result Next) → Result Next
err e >>= next = err e
ok v >>= next = next v

-- A chain that went well went well at its first step.
pub >>=-eq-ok {ℓ κ} :
    {Val : Type ℓ} {Next : Type κ} (r : Result Val) (next : Val → Result Next) {end : Next}
    → (r >>= next) ≡ ok end
    → (v : Val) × (r ≡ ok v) × (next v ≡ ok end)
>>=-eq-ok (err e) next well = absurd cc
>>=-eq-ok (ok v) next well = (v, refl, well)

pub ok-injective {ℓ} : {Val : Type ℓ} {v w : Val} → ok v ≡ ok w → v ≡ w
ok-injective same = cc

pub result-intro {ℓ κ} :
    {A : Type ℓ} (P : Result A → Type κ) (r : Result A)
    → ((a : A) → r ≡ ok a → P (ok a))
    → ((e : Error) → r ≡ err e → P (err e))
    → P r
result-intro P (ok a) f g = f a refl
result-intro P (err e) f g = g e refl
