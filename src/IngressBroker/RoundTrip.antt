-- ===== src/IngressBroker/RoundTrip.antt =====
-- The sidecar's ingress and the relay together: internal/sidecar/ingress.go and
-- demos/adk-calc/internal/ingressbroker/broker.go, from the agent's response to the client's.
use substrate_poc.Prelude.{
  ℕ, zero, suc, ◌+◌, ◌≤◌, ◌<◌, ◌≡◌, refl, ap, ◌∙◌, ◌≢◌, Bool, true, Option, none, some, arith, ◌==◌,
  if◌then◌else◌, Bytes, if-intro,
}
use substrate_poc.Sidecar.Ingress.{Ingress, deliver_from, deliver}
use substrate_poc.Sidecar.Ingress.Requests.{Post, answer_of, delivered, process, responds}
use substrate_poc.IngressBroker.{
  Reply, Relay, set_at, channel_of, unregister_request, finish, take_reply, receive, reply_msg,
  sent_reply, send_to, handle_reply, replied,
}
use substrate_poc.IngressBroker.Parked.{IsExact, IsParked, set_at-hit}

-- The relay behind a post that it took.
abbrev pub post_reply : Post → Relay → Relay
post_reply p r = handle_reply p.post_id p.post_status p.post_type p.post_body r

abbrev pub take_post : Option (ℕ × Post) → Relay → Relay
take_post none r = r
take_post (some (k, p)) r = post_reply p r

-- One of the five attempts of `deliver` gets through.
abbrev pub SomeAttempt : (ℕ → Bool) → Type 0
SomeAttempt posted = (k : ℕ) × (0 < k) × (k ≤ 5) × (posted k ≡ true)

deliver_from-ends :
    (left attempt k : ℕ) (posted : ℕ → Bool)
    → attempt ≤ k
    → k < attempt + left
    → posted k ≡ true
    → (j : ℕ) × (deliver_from left attempt posted ≡ some j)
unfolding deliver_from
deliver_from-ends zero attempt k posted lo hi e = absurd (omega arith)
deliver_from-ends (suc left) attempt k posted lo hi e =
    if-intro {A = Option ℕ} (λ o. (j : ℕ) × (o ≡ some j)) (posted attempt) (λ _. (attempt, refl))
      (λ missed.
        let later : attempt ≢ k = λ same. absurd (cc (missed, e, ap posted same)) in
        deliver_from-ends left (attempt + 1) k posted (ground arith) (omega arith) e)

delivered-some :
    (posted : ℕ → Bool) (p : Post)
    → SomeAttempt posted
    → (j : ℕ) × (delivered posted (some p) ≡ some (j, p))
unfolding deliver
delivered-some posted p (k, lo, hi, e) =
    let (j, at) = deliver_from-ends 5 1 k posted (omega arith) (omega arith) e in
    (j, ap (λ o. elim o as (λ _. Option (ℕ × Post)) [ none ↦ none | some k ↦ some (k, p) ]) at)

-- A reply to a request that is parked lies in its channel, if that was empty.
handle_reply-parked :
    (n status : ℕ) (content_type body : Bytes) (r : Relay)
    → channel_of (r.ids n) r.pending ≡ some n
    → r.channels n ≡ none
    → handle_reply (r.ids n) status content_type body r
      ≡ record r { channels = set_at r.channels n (some (reply_msg status content_type body)) }
unfolding handle_reply
handle_reply-parked n status content_type body r there empty =
    let msg = reply_msg status content_type body in
    ap (λ o. send_to o msg r) there ∙ ap (λ o. sent_reply n msg o r) empty

-- A reply in the channel is what the client is answered.
receive-waiting :
    (n : ℕ) (msg : Reply) (r : Relay)
    → (receive n (record r { channels = set_at r.channels n (some msg) })).answers
      ≡ set_at r.answers n (some (replied msg))
unfolding receive finish unregister_request
receive-waiting n msg r =
    ap (λ o. (take_reply n o (record r { channels = set_at r.channels n (some msg) })).answers)
      (set_at-hit r.channels n (some msg))

reply_msg-status :
    (status : ℕ) (content_type body : Bytes)
    → 0 < status
    → reply_msg status content_type body
      ≡ record { status = status; content_type = content_type; body = body }
reply_msg-status status content_type body some_status =
    ap (λ k. record { status = k; content_type = content_type; body = body })
      (let e : (if status == 0 then 200 else status) ≡ status = ground arith in e)

-- A request with an id is parked, and nothing was posted for it yet. The agent's response, once any attempt
-- to post it gets through, is what the client of that request, and of no other, is answered: its status, its
-- content type and its body. The status is not 0.
pub process-receive :
    (now n status : ℕ) (reply_to content_type body : Bytes) (posted : ℕ → Bool) (i : Ingress)
    (r : Relay)
    → IsExact r
    → IsParked n r
    → r.channels n ≡ none
    → 0 < status
    → SomeAttempt posted
    → (let out = process now reply_to (r.ids n) (responds status content_type body) posted i in
        (receive n (take_post out.1 r)).answers
        ≡ set_at r.answers n
            (some (replied (record { status = status; content_type = content_type; body = body }))))
unfolding process answer_of
process-receive now n status reply_to content_type body posted i r exact parked empty some_status
      through =
    let p : Post = record {
      post_to = reply_to;
      post_id = r.ids n;
      post_status = status;
      post_type = content_type;
      post_body = body;
    } in
    let (j, at) = delivered-some posted p through in
    ap {A = Option (ℕ × Post)} (λ o. (receive n (take_post o r)).answers) at
    ∙ ap {A = Relay} (λ r. (receive n r).answers)
        (handle_reply-parked n status content_type body r (exact.listed n parked) empty)
    ∙ receive-waiting n (reply_msg status content_type body) r
    ∙ ap (λ msg. set_at r.answers n (some (replied msg)))
        (reply_msg-status status content_type body some_status)
