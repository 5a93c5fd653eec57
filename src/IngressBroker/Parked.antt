-- ===== src/IngressBroker/Parked.antt =====
-- demos/adk-calc/internal/ingressbroker/broker.go: which requests are parked, and what their clients get.
use substrate_poc.Prelude.{
  ℕ, ◌+◌, ◌<◌, ◌≡◌, refl, sym, ap, subst, ◌∙◌, ◌≢◌, inl, inr, false, Option, none, some, List, [],
  ◌∷◌, ◌++◌, arith, ◌==◌, ==_iff, Bytes, option-intro,
}
use substrate_poc.IngressBroker.{
  Reply, RunAnswer, Relay, set_at, channel_of, set_channel, delete_channel, register_request,
  unregister_request, park, finish, take_reply, receive, reply_msg, sent_reply, send_to,
  handle_reply, replied,
}
use substrate_poc.IngressBroker.Lookup.{
  channel_of-set_channel, channel_of-set_channel_other, channel_of-delete_channel,
  channel_of-delete_channel_other, bytes_decided, number_decided,
}

-- The request is in the handler, behind its checks.
abbrev pub IsParked : ℕ → Relay → Type 0
IsParked n r = (n < r.made) × (r.answers n ≡ none)

-- A request that is not answered by a reply from the actor.
abbrev pub IsUnserved : RunAnswer → Type 0
IsUnserved a = (msg : Reply) → a ≢ replied msg

-- The relay, and every reply that was posted to it, with the id in its header.
pub record Watched : Type 0 where
  pub relay : Relay
  pub posts : List (Bytes × Reply)

-- What can happen next: a request is parked, under an id that no request had before; one ends without a
-- reply, or takes its reply; a reply is posted, whatever its id.
pub data RelayStep (w : Watched) : Watched → Type 0 where
  comes :
      (id : Bytes)
      → ((n : ℕ) → n < w.relay.made → w.relay.ids n ≢ id)
      → RelayStep w (record w { relay = park id w.relay })
  ends :
      (n : ℕ) (answer : RunAnswer)
      → IsParked n w.relay
      → IsUnserved answer
      → RelayStep w (record w { relay = finish n answer w.relay })
  receives : (n : ℕ) → IsParked n w.relay → RelayStep w (record w { relay = receive n w.relay })
  posted :
      (id : Bytes) (status : ℕ) (content_type body : Bytes)
      → RelayStep w (record {
        relay = handle_reply id status content_type body w.relay;
        posts = w.posts ++ (id, reply_msg status content_type body) ∷ [];
      })

pub data RelayRun (first : Watched) : Watched → Type 0 where
  opened : RelayRun first first
  then_step : {w x : Watched} → RelayRun first w → RelayStep w x → RelayRun first x

-- The map has every parked request under its own id, and nothing else.
pub record IsExact (r : Relay) : Type 0 where
  pub named :
      (id : Bytes) (n : ℕ)
      → channel_of id r.pending ≡ some n
      → (n < r.made) × (r.answers n ≡ none) × (r.ids n ≡ id)
  pub listed : (n : ℕ) → IsParked n r → channel_of (r.ids n) r.pending ≡ some n

pub set_at-hit : {A : Type 0} (f : ℕ → A) (n : ℕ) (x : A) → set_at f n x n ≡ x
set_at-hit f n x = rw ((==_iff n n).1 refl) refl

pub set_at-miss : {A : Type 0} (f : ℕ → A) (n i : ℕ) (x : A) → i ≢ n → set_at f n x i ≡ f i
set_at-miss f n i x other = let differ : (i == n) ≡ false = ground (arith, other) in rw differ refl

IsExact-park :
    (id : Bytes) (r : Relay)
    → ((n : ℕ) → n < r.made → r.ids n ≢ id)
    → IsExact r
    → IsExact (park id r)
unfolding park register_request
IsExact-park id r fresh h = record {
  named = λ other n e. elim (bytes_decided id other) [
    | inl id_is ↦
        let made : r.made ≡ n = cc (
          channel_of-set_channel id r.made r.pending,
          ap (λ k. channel_of k (set_channel id r.made r.pending)) id_is,
          e,
        ) in
        subst
          (λ k.
            (k < r.made + 1)
            × (set_at r.answers r.made none k ≡ none)
            × (set_at r.ids r.made id k ≡ other))
          made (omega arith, set_at-hit r.answers r.made none, set_at-hit r.ids r.made id ∙ id_is)
    | inr differ ↦
        let before : channel_of other r.pending ≡ some n =
          sym (channel_of-set_channel_other id other r.made r.pending differ) ∙ e in
        let lt : n < r.made = (h.named other n before).0 in
        let old : n ≢ r.made = λ e. absurd (omega arith) in
        (
          omega arith,
          set_at-miss r.answers r.made n none old ∙ (h.named other n before).1,
          set_at-miss r.ids r.made n id old ∙ (h.named other n before).2,
        )
  ];
  listed = λ n parked. elim (number_decided n r.made) [
    | inl same ↦
        subst
          (λ k. channel_of (set_at r.ids r.made id k) (set_channel id r.made r.pending) ≡ some k)
          (sym same)
          (ap (λ k. channel_of k (set_channel id r.made r.pending)) (set_at-hit r.ids r.made id)
            ∙ channel_of-set_channel id r.made r.pending)
    | inr old ↦
        let lt : n < r.made = omega (arith, parked.0) in
        let is = set_at-miss r.ids r.made n id old in
        ap (λ k. channel_of k (set_channel id r.made r.pending)) is
        ∙ channel_of-set_channel_other id (r.ids n) r.made r.pending
            (λ e. absurd (fresh n lt (sym e)))
        ∙ h.listed n (lt, sym (set_at-miss r.answers r.made n none old) ∙ parked.1)
  ];
}

-- Two parked requests have two ids.
parked_apart :
    (r : Relay) (n k : ℕ) → IsExact r → IsParked n r → IsParked k r → r.ids n ≡ r.ids k → n ≡ k
parked_apart r n k h pn pk e = cc (h.listed n pn, h.listed k pk, ap (λ i. channel_of i r.pending) e)

IsExact-finish :
    (n : ℕ) (answer : RunAnswer) (r : Relay)
    → IsParked n r
    → IsExact r
    → IsExact (finish n answer r)
unfolding finish unregister_request
IsExact-finish n answer r parked h = record {
  named = λ id k e. elim (bytes_decided (r.ids n) id) [
    | inl is ↦ absurd (
        cc (
          channel_of-delete_channel (r.ids n) r.pending,
          ap (λ i. channel_of i (delete_channel (r.ids n) r.pending)) is,
          e,
        ))
    | inr differ ↦
        let before : channel_of id r.pending ≡ some k =
          sym (channel_of-delete_channel_other (r.ids n) id r.pending differ) ∙ e in
        let (lt, still, is) = h.named id k before in
        (
          lt,
          set_at-miss r.answers n k (some answer)
                (λ same. absurd (differ (sym (ap r.ids same) ∙ is)))
              ∙ still,
          is,
        )
  ];
  listed = λ k still. elim (number_decided k n) [
    | inl same ↦ absurd (cc (set_at-hit r.answers n (some answer), same, still.1))
    | inr other ↦
        let parked_k : IsParked k r =
          (still.0, sym (set_at-miss r.answers n k (some answer) other) ∙ still.1) in
        channel_of-delete_channel_other (r.ids n) (r.ids k) r.pending
          (λ e. absurd (other (sym (parked_apart r n k h parked parked_k e))))
        ∙ h.listed k parked_k
  ];
}

-- The channels have no part in it.
IsExact-channels :
    (channels : ℕ → Option Reply) (r : Relay)
    → IsExact r
    → IsExact (record r { channels = channels })
IsExact-channels channels r h = record { named = h.named; listed = h.listed }

IsExact-receive : (n : ℕ) (r : Relay) → IsParked n r → IsExact r → IsExact (receive n r)
unfolding receive
IsExact-receive n r parked h =
    option-intro (λ o. IsExact (take_reply n o r)) (r.channels n) (λ _. h)
      (λ msg _.
        IsExact-finish n (replied msg) (record r { channels = set_at r.channels n none }) parked
          (IsExact-channels (set_at r.channels n none) r h))

IsExact-handle_reply :
    (id : Bytes) (status : ℕ) (content_type body : Bytes) (r : Relay)
    → IsExact r
    → IsExact (handle_reply id status content_type body r)
unfolding handle_reply
IsExact-handle_reply id status content_type body r h =
    let msg = reply_msg status content_type body in
    option-intro (λ o. IsExact (send_to o msg r)) (channel_of id r.pending) (λ _. h)
      (λ n _.
        option-intro (λ o. IsExact (sent_reply n msg o r)) (r.channels n)
          (λ _. IsExact-channels (set_at r.channels n (some msg)) r h) (λ old _. h))

pub RelayStep-IsExact : {w x : Watched} → IsExact w.relay → RelayStep w x → IsExact x.relay
RelayStep-IsExact {w} h (comes id fresh) = IsExact-park id w.relay fresh h
RelayStep-IsExact {w} h (ends n answer parked unserved) = IsExact-finish n answer w.relay parked h
RelayStep-IsExact {w} h (receives n parked) = IsExact-receive n w.relay parked h
RelayStep-IsExact {w} h (posted id status content_type body) =
    IsExact-handle_reply id status content_type body w.relay h

-- Over any run of requests, replies and ends, a request's id leads to its channel exactly while its handler
-- waits: the relay finds every request that is parked, under its own id, and keeps none that has ended. No
-- two requests get one id.
pub RelayRun-IsExact : {w x : Watched} → IsExact w.relay → RelayRun w x → IsExact x.relay
RelayRun-IsExact h opened = h
RelayRun-IsExact h (then_step run step) = RelayStep-IsExact (RelayRun-IsExact h run) step
