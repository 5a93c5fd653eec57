-- ===== src/Commands.antt =====
-- cmd/egress-broker/main.go: the operator's endpoints, and the options that the environment sets.
use substrate_poc.Prelude.{
  ℕ, ◌+◌, ◌≡◌, refl, sym, ap, ◌∙◌, Bool, true, false, not, ◌||◌, Option, none, some, [], ◌∷◌, ◌++◌,
  if◌then◌else◌, ==_iff, length, take, drop, drop-length_append, take-length_append, drop-drop,
  Bytes, codes, bytes_eq,
}
use substrate_poc.Broker.Resumer.{Ref, slash, ref_string, index_byte}
use substrate_poc.Broker.Resumer.Retries.{index_byte-append}
use substrate_poc.Sidecar.Proxy.{starts_with}

-- `env` is the environment; a variable that is not set is empty.
unfoldable pub env_or : (Bytes → Bytes) → Bytes → Bytes → Bytes
env_or env key default = if bytes_eq (env key) [] then default else env key

-- `envInt`, `envBool` and `envDur`, each with its parser, which may fail.
unfoldable pub env_parsed {ℓ} : {A : Type ℓ} → (Bytes → Option A) → (Bytes → Bytes) → Bytes → A → A
env_parsed parse env key default =
    if bytes_eq (env key) []
    then default
    else elim (parse (env key)) [ none ↦ default | some n ↦ n ]

-- What an endpoint answers: 204, 405, 400, or 502 with the error's text.
pub data Managed : Type 0 where
  no_content not_allowed bad_path : Managed
  call_fails : Bytes → Managed

-- `strings.TrimPrefix`
abbrev pub trim_prefix : Bytes → Bytes → Bytes
trim_prefix prefix path = if starts_with prefix path then drop (length prefix) path else path

-- `strings.SplitN` at the first slash, if there is one.
abbrev pub parts_at : Bytes → Option ℕ → Option Ref
parts_at tail none = none
parts_at tail (some i) = some (record { atespace = take i tail; name = drop (i + 1) tail })

abbrev pub answer_call : Option Bytes → Managed
answer_call none = no_content
answer_call (some text) = call_fails text

-- `fn` is the call, and its error if it fails. The second part is the actor that it was called for.
abbrev pub manage : (Ref → Option Bytes) → Option Ref → Managed × Option Ref
manage fn none = (bad_path, none)
manage fn (some r) =
    if bytes_eq r.atespace [] || bytes_eq r.name []
    then (bad_path, none)
    else (answer_call (fn r), some r)

abbrev pub debug_path : Bytes → Bytes
debug_path verb = codes "/debug/" ++ (verb ++ codes "/")

unfoldable pub lifecycle_handler :
    Bytes → (Ref → Option Bytes) → Bool → Bytes → Managed × Option Ref
lifecycle_handler verb fn is_post path =
    if not is_post
    then (not_allowed, none)
    else let tail = trim_prefix (debug_path verb) path in
      manage fn (parts_at tail (index_byte slash tail))

starts_with-append : (p xs : Bytes) → starts_with p (p ++ xs) ≡ true
starts_with-append [] xs = refl
starts_with-append (x ∷ p) xs = rw ((==_iff x x).1 refl) (starts_with-append p xs)

trim_prefix-append : (p xs : Bytes) → trim_prefix p (p ++ xs) ≡ xs
trim_prefix-append p xs = rw (starts_with-append p xs) (drop-length_append p xs)

parts_at-slash :
    (a n : Bytes)
    → parts_at (a ++ slash ∷ n) (some (length a)) ≡ some (record { atespace = a; name = n })
parts_at-slash a n =
    rw (take-length_append a, sym (drop-drop 1 (length a) (a ++ slash ∷ n)), drop-length_append a)
      refl

-- An operator's request for an actor, by the name under which the sidecar's HELLO and the broker's logs have
-- it, is answered 405 if it is no POST, 400 if the atespace or the name is empty, and calls for that very
-- actor otherwise; the answer is 204, or 502 if the call fails. The atespace has no slash; the name may.
pub lifecycle_handler-ref_string :
    (verb : Bytes) (fn : Ref → Option Bytes) (is_post : Bool) (r : Ref)
    → index_byte slash r.atespace ≡ none
    → lifecycle_handler verb fn is_post (debug_path verb ++ ref_string r) ≡ (
        if not is_post
        then (not_allowed, none)
        else if bytes_eq r.atespace [] || bytes_eq r.name []
        then (bad_path, none)
        else (answer_call (fn r), some r))
unfolding lifecycle_handler ref_string
lifecycle_handler-ref_string verb fn false r h = refl
lifecycle_handler-ref_string verb fn true r h =
    ap {A = Bytes} (λ tail. manage fn (parts_at tail (index_byte slash tail)))
      (trim_prefix-append (debug_path verb) (r.atespace ++ slash ∷ r.name))
    ∙ ap (λ o. manage fn (parts_at (r.atespace ++ slash ∷ r.name) o))
        (index_byte-append slash r.atespace r.name h)
    ∙ ap (manage fn) (parts_at-slash r.atespace r.name)
