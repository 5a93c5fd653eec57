-- ===== src/IngressBroker/Answers.antt =====
-- demos/adk-calc/internal/ingressbroker/broker.go: whose answer a client gets.
use substrate_poc.Prelude.{
  ℕ, ◌≡◌, refl, sym, subst, ◌∙◌, ◌⊎◌, inl, inr, none, some, List, [], ◌∷◌, ◌++◌, Bytes,
  option-intro,
}
use substrate_poc.IngressBroker.{
  Reply, RunAnswer, Relay, set_at, channel_of, register_request, unregister_request, park, finish,
  take_reply, receive, reply_msg, sent_reply, send_to, handle_reply, replied,
}
use substrate_poc.IngressBroker.Lookup.{number_decided}
use substrate_poc.IngressBroker.Parked.{
  Watched, RelayStep, RelayRun, IsExact, set_at-hit, set_at-miss, RelayRun-IsExact, comes, ends,
  receives, posted, opened, then_step,
}

-- A reply was posted with the id.
abbrev pub WasPosted : Bytes → Reply → List (Bytes × Reply) → Type 0
WasPosted id msg [] = ⊥
WasPosted id msg (p ∷ ps) = (p ≡ (id, msg)) ⊎ WasPosted id msg ps

WasPosted-more :
    (id : Bytes) (msg : Reply) (ps more : List (Bytes × Reply))
    → WasPosted id msg ps
    → WasPosted id msg (ps ++ more)
WasPosted-more id msg [] more h = elim h [ ]
WasPosted-more id msg (p ∷ ps) more h = elim h [
  | inl this ↦ inl this
  | inr later ↦ inr (WasPosted-more id msg ps more later)
]

WasPosted-last :
    (id : Bytes) (msg : Reply) (ps : List (Bytes × Reply)) → WasPosted id msg (ps ++ (id, msg) ∷ [])
WasPosted-last id msg [] = inl refl
WasPosted-last id msg (p ∷ ps) = inr (WasPosted-last id msg ps)

-- What lies in a channel, and what a client was answered, was posted with the request's own id.
pub record IsOwn (w : Watched) : Type 0 where
  pub waiting :
      (n : ℕ) (msg : Reply) → w.relay.channels n ≡ some msg → WasPosted (w.relay.ids n) msg w.posts
  pub answered :
      (n : ℕ) (msg : Reply)
      → w.relay.answers n ≡ some (replied msg)
      → WasPosted (w.relay.ids n) msg w.posts

IsOwn-park :
    (id : Bytes) (r : Relay) (ps : List (Bytes × Reply))
    → IsOwn (record { relay = r; posts = ps })
    → IsOwn (record { relay = park id r; posts = ps })
unfolding park register_request
IsOwn-park id r ps h = record {
  waiting = λ n msg e. elim (number_decided n r.made) [
    | inl same ↦ absurd (cc (set_at-hit r.channels r.made none, same, e))
    | inr old ↦
        subst (λ i. WasPosted i msg ps) (sym (set_at-miss r.ids r.made n id old))
          (h.waiting n msg (sym (set_at-miss r.channels r.made n none old) ∙ e))
  ];
  answered = λ n msg e. elim (number_decided n r.made) [
    | inl same ↦ absurd (cc (set_at-hit r.answers r.made none, same, e))
    | inr old ↦
        subst (λ i. WasPosted i msg ps) (sym (set_at-miss r.ids r.made n id old))
          (h.answered n msg (sym (set_at-miss r.answers r.made n none old) ∙ e))
  ];
}

-- An answer that is the request's own, if it is a reply.
IsOwn-finish :
    (n : ℕ) (answer : RunAnswer) (r : Relay) (ps : List (Bytes × Reply))
    → ((msg : Reply) → answer ≡ replied msg → WasPosted (r.ids n) msg ps)
    → IsOwn (record { relay = r; posts = ps })
    → IsOwn (record { relay = finish n answer r; posts = ps })
unfolding finish unregister_request
IsOwn-finish n answer r ps own h = record {
  waiting = h.waiting;
  answered = λ k msg e. elim (number_decided k n) [
    | inl same ↦
        subst (λ j. WasPosted (r.ids j) msg ps) (sym same)
          (own msg (cc (set_at-hit r.answers n (some answer), same, e)))
    | inr other ↦ h.answered k msg (sym (set_at-miss r.answers n k (some answer) other) ∙ e)
  ];
}

IsOwn-receive :
    (n : ℕ) (r : Relay) (ps : List (Bytes × Reply))
    → IsOwn (record { relay = r; posts = ps })
    → IsOwn (record { relay = receive n r; posts = ps })
unfolding receive
IsOwn-receive n r ps h =
    option-intro (λ o. IsOwn (record { relay = take_reply n o r; posts = ps })) (r.channels n)
      (λ _. h)
      (λ msg full.
        IsOwn-finish n (replied msg) (record r { channels = set_at r.channels n none }) ps
          (λ got e. h.waiting n got (full ∙ cc (e)))
          (record {
            waiting = λ k got e. elim (number_decided k n) [
              | inl same ↦ absurd (cc (set_at-hit r.channels n none, same, e))
              | inr other ↦ h.waiting k got (sym (set_at-miss r.channels n k none other) ∙ e)
            ];
            answered = h.answered;
          }))

IsOwn-sent :
    (n : ℕ) (id : Bytes) (msg : Reply) (r : Relay) (ps : List (Bytes × Reply))
    → r.ids n ≡ id
    → IsOwn (record { relay = r; posts = ps })
    → IsOwn (record {
      relay = record r { channels = set_at r.channels n (some msg) };
      posts = ps ++ (id, msg) ∷ [];
    })
IsOwn-sent n id msg r ps is h = record {
  waiting = λ k got e. elim (number_decided k n) [
    | inl same ↦
        let is_msg : msg ≡ got = cc (set_at-hit r.channels n (some msg), same, e) in
        subst (λ j. WasPosted (r.ids j) got (ps ++ (id, msg) ∷ [])) (sym same)
          (subst (λ i. WasPosted i got (ps ++ (id, msg) ∷ [])) (sym is)
            (subst (λ m. WasPosted id m (ps ++ (id, msg) ∷ [])) is_msg (WasPosted-last id msg ps)))
    | inr other ↦
        WasPosted-more (r.ids k) got ps ((id, msg) ∷ [])
          (h.waiting k got (sym (set_at-miss r.channels n k (some msg) other) ∙ e))
  ];
  answered = λ k got e. WasPosted-more (r.ids k) got ps ((id, msg) ∷ []) (h.answered k got e);
}

IsOwn-dropped :
    (p : Bytes × Reply) (r : Relay) (ps : List (Bytes × Reply))
    → IsOwn (record { relay = r; posts = ps })
    → IsOwn (record { relay = r; posts = ps ++ p ∷ [] })
IsOwn-dropped p r ps h = record {
  waiting = λ k got e. WasPosted-more (r.ids k) got ps (p ∷ []) (h.waiting k got e);
  answered = λ k got e. WasPosted-more (r.ids k) got ps (p ∷ []) (h.answered k got e);
}

IsOwn-handle_reply :
    (id : Bytes) (status : ℕ) (content_type body : Bytes) (r : Relay) (ps : List (Bytes × Reply))
    → IsExact r
    → IsOwn (record { relay = r; posts = ps })
    → IsOwn (record {
      relay = handle_reply id status content_type body r;
      posts = ps ++ (id, reply_msg status content_type body) ∷ [];
    })
unfolding handle_reply
IsOwn-handle_reply id status content_type body r ps exact h =
    let msg = reply_msg status content_type body in
    let P = λ (r' : Relay). IsOwn (record { relay = r'; posts = ps ++ (id, msg) ∷ [] }) in
    option-intro (λ o. P (send_to o msg r)) (channel_of id r.pending)
      (λ _. IsOwn-dropped (id, msg) r ps h)
      (λ n there.
        option-intro (λ o. P (sent_reply n msg o r)) (r.channels n)
          (λ _. IsOwn-sent n id msg r ps (exact.named id n there).2 h)
          (λ old _. IsOwn-dropped (id, msg) r ps h))

RelayStep-IsOwn : {w x : Watched} → IsExact w.relay → IsOwn w → RelayStep w x → IsOwn x
RelayStep-IsOwn {w} exact h (comes id fresh) = IsOwn-park id w.relay w.posts h
RelayStep-IsOwn {w} exact h (ends n answer parked unserved) =
    IsOwn-finish n answer w.relay w.posts (λ msg e. absurd (unserved msg e)) h
RelayStep-IsOwn {w} exact h (receives n parked) = IsOwn-receive n w.relay w.posts h
RelayStep-IsOwn {w} exact h (posted id status content_type body) =
    IsOwn-handle_reply id status content_type body w.relay w.posts exact h

-- Over any run of requests, replies and ends from where it holds, what a client is answered was posted with
-- the id of its own request, however requests and replies are mixed, and whatever else is posted. No two
-- requests get one id.
pub RelayRun-IsOwn : {w x : Watched} → IsExact w.relay → IsOwn w → RelayRun w x → IsOwn x
RelayRun-IsOwn exact h opened = h
RelayRun-IsOwn exact h (then_step run step) =
    RelayStep-IsOwn (RelayRun-IsExact exact run) (RelayRun-IsOwn exact h run) step
