-- ===== src/IngressBroker/Lookup.antt =====
-- demos/adk-calc/internal/ingressbroker/broker.go: the map of parked requests.
use substrate_poc.Prelude.{
  ℕ, ◌≡◌, refl, sym, ap, ◌∙◌, ◌≢◌, ◌⊎◌, inl, inr, false, none, some, List, [], ◌∷◌, arith, ◌==◌,
  if◌then◌else◌, ==_iff, Bool-cases, Bytes, bytes_eq, bytes_eq_sound, bytes_eq_refl,
}
use substrate_poc.IngressBroker.{channel_of, set_channel, delete_channel}

-- At the id that is written, and at the others.
pub channel_of-set_channel :
    (id : Bytes) (n : ℕ) (m : List (Bytes × ℕ)) → channel_of id (set_channel id n m) ≡ some n
channel_of-set_channel id n [] = rw (bytes_eq_refl id) refl
channel_of-set_channel id n ((k, j) ∷ rest) = elim (Bool-cases (bytes_eq k id)) [
  | inl same ↦ rw (same, bytes_eq_refl id) refl
  | inr other ↦ rw (other, other) (channel_of-set_channel id n rest)
]

bytes_neq : (k id : Bytes) → k ≢ id → bytes_eq k id ≡ false
bytes_neq k id other = elim (Bool-cases (bytes_eq k id)) [
  | inl same ↦ absurd (other (bytes_eq_sound k id same))
  | inr differ ↦ differ
]

pub channel_of-set_channel_other :
    (id other : Bytes) (n : ℕ) (m : List (Bytes × ℕ))
    → id ≢ other
    → channel_of other (set_channel id n m) ≡ channel_of other m
channel_of-set_channel_other id other n [] differ = rw (bytes_neq id other differ) refl
channel_of-set_channel_other id other n ((k, j) ∷ rest) differ = elim (Bool-cases (bytes_eq k id)) [
  | inl same ↦
      let k_is : k ≡ id = bytes_eq_sound k id same in
      let k_not : bytes_eq k other ≡ false = bytes_neq k other (λ e. differ (sym k_is ∙ e)) in
      rw (same, bytes_neq id other differ, k_not) refl
  | inr unlike ↦ rw unlike (
      ap (λ o. if bytes_eq k other then some j else o)
        (channel_of-set_channel_other id other n rest differ))
]

pub channel_of-delete_channel :
    (id : Bytes) (m : List (Bytes × ℕ)) → channel_of id (delete_channel id m) ≡ none
channel_of-delete_channel id [] = refl
channel_of-delete_channel id ((k, j) ∷ rest) = elim (Bool-cases (bytes_eq k id)) [
  | inl same ↦ rw same (channel_of-delete_channel id rest)
  | inr other ↦ rw (other, other) (channel_of-delete_channel id rest)
]

pub channel_of-delete_channel_other :
    (id other : Bytes) (m : List (Bytes × ℕ))
    → id ≢ other
    → channel_of other (delete_channel id m) ≡ channel_of other m
channel_of-delete_channel_other id other [] differ = refl
channel_of-delete_channel_other id other ((k, j) ∷ rest) differ =
    elim (Bool-cases (bytes_eq k id)) [
      | inl same ↦
          let k_not : bytes_eq k other ≡ false =
            bytes_neq k other (λ e. differ (sym (bytes_eq_sound k id same) ∙ e)) in
          rw (same, k_not) (channel_of-delete_channel_other id other rest differ)
      | inr unlike ↦ rw unlike (
          ap (λ o. if bytes_eq k other then some j else o)
            (channel_of-delete_channel_other id other rest differ))
    ]

pub bytes_decided : (k id : Bytes) → (k ≡ id) ⊎ (k ≢ id)
bytes_decided k id = elim (Bool-cases (bytes_eq k id)) [
  | inl same ↦ inl (bytes_eq_sound k id same)
  | inr differ ↦ inr (λ e. absurd (cc (differ, ap (bytes_eq k) e, bytes_eq_refl k)))
]

pub number_decided : (n m : ℕ) → (n ≡ m) ⊎ (n ≢ m)
number_decided n m = elim (Bool-cases (n == m)) [
  | inl same ↦ inl ((==_iff n m).0 same)
  | inr differ ↦ inr (λ e. absurd (ground arith))
]
