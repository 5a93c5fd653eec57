-- ===== src/IngressBroker.antt =====
-- demos/adk-calc/internal/ingressbroker/broker.go: the relay that parks a client's request until the actor's
-- answer comes back on another connection. A function is one critical section, or what a handler does between
-- two waits. Times are nanoseconds; a request's number is that of its channel.
pub mod Lookup
pub mod Parked
pub mod Answers
pub mod Forward
pub mod RoundTrip
use substrate_poc.Prelude.{
  ℕ, ◌+◌, ◌*◌, ◌⊎◌, inl, inr, Bool, true, false, Option, none, some, List, [], ◌∷◌, ◌==◌,
  if◌then◌else◌, Bytes, bytes_eq,
}

pub record RelayConfig : Type 0 where
  pub atenet_addr : Bytes
  pub atespace : Bytes
  pub reply_addr : Bytes
  pub request_timeout : ℕ

-- `replyMsg`
pub record Reply : Type 0 where
  pub status : ℕ
  pub content_type : Bytes
  pub body : Bytes

-- What the client of `HandleRun` gets; `cancelled` is nothing at all.
pub data RunAnswer : Type 0 where
  bad_body invalid_request forward_failed timed_out cancelled : RunAnswer
  replied : Reply → RunAnswer

-- `channels` hold at most one reply each. `ids` are the requests' ids, and `answers` what became of them,
-- `none` while they are parked.
pub record Relay : Type 0 where
  pub cfg : RelayConfig
  pub pending : List (Bytes × ℕ)
  pub channels : ℕ → Option Reply
  pub ids : ℕ → Bytes
  pub answers : ℕ → Option RunAnswer
  pub made : ℕ

unfoldable pub new_relay : RelayConfig → Relay
new_relay cfg = record {
  cfg =
      if cfg.request_timeout == 0
      then record cfg { request_timeout = 10 * 60 * 1000000000 }
      else cfg;
  pending = [];
  channels = λ n. none;
  ids = λ n. [];
  answers = λ n. none;
  made = 0;
}

abbrev pub set_at {ℓ} : {A : Type ℓ} → (ℕ → A) → ℕ → A → ℕ → A
set_at f n x i = if i == n then x else f i

-- `b.pending[reqID]`, and the writes of the map.
abbrev pub channel_of : Bytes → List (Bytes × ℕ) → Option ℕ
channel_of id [] = none
channel_of id ((k, n) ∷ rest) = if bytes_eq k id then some n else channel_of id rest

abbrev pub set_channel : Bytes → ℕ → List (Bytes × ℕ) → List (Bytes × ℕ)
set_channel id n [] = (id, n) ∷ []
set_channel id n ((k, m) ∷ rest) =
    let rest' = set_channel id n rest in if bytes_eq k id then (id, n) ∷ rest else (k, m) ∷ rest'

abbrev pub delete_channel : Bytes → List (Bytes × ℕ) → List (Bytes × ℕ)
delete_channel id [] = []
delete_channel id ((k, n) ∷ rest) =
    let rest' = delete_channel id rest in if bytes_eq k id then rest' else (k, n) ∷ rest'

unfoldable pub register_request : Bytes → ℕ → Relay → Relay
register_request id n r = record r { pending = set_channel id n r.pending }

unfoldable pub unregister_request : Bytes → Relay → Relay
unregister_request id r = record r { pending = delete_channel id r.pending }

-- `runReq`
pub record RunReq : Type 0 where
  pub session_id : Bytes
  pub input : Bytes

abbrev pub is_empty : Bytes → Bool
is_empty [] = true
is_empty (x ∷ xs) = false

-- The checks of `HandleRun`: `unmarshal` is `json.Unmarshal`. The request, or what is answered at once.
abbrev pub check_session : RunReq → RunAnswer ⊎ RunReq
check_session req = if is_empty req.session_id then inl invalid_request else inr req

unfoldable pub check_run : (Bytes → Option RunReq) → Option Bytes → RunAnswer ⊎ RunReq
check_run unmarshal none = inl bad_body
check_run unmarshal (some body) = elim (unmarshal body) [
  | none ↦ inl invalid_request
  | some req ↦ check_session req
]

-- Behind the checks: the request is parked under `id`, a fresh UUID, and its forwarding begins.
unfoldable pub park : Bytes → Relay → Relay
unfolding register_request
park id r = register_request id r.made (record r {
  channels = set_at r.channels r.made none;
  ids = set_at r.ids r.made id;
  answers = set_at r.answers r.made none;
  made = r.made + 1;
})

-- `HandleRun` returns with an answer; the deferred `unregister` runs.
unfoldable pub finish : ℕ → RunAnswer → Relay → Relay
unfolding unregister_request
finish n answer r =
    unregister_request (r.ids n) (record r { answers = set_at r.answers n (some answer) })

abbrev pub take_reply : ℕ → Option Reply → Relay → Relay
take_reply n none r = r
take_reply n (some msg) r =
    finish n (replied msg) (record r { channels = set_at r.channels n none })

-- The case of the select that receives: the reply is taken off the channel.
unfoldable pub receive : ℕ → Relay → Relay
unfolding finish
receive n r = take_reply n (r.channels n) r

-- The message of a reply; `status` is what `strconv.Atoi` makes of its header, 0 if it is no number.
abbrev pub reply_msg : ℕ → Bytes → Bytes → Reply
reply_msg status content_type body = record {
  status = if status == 0 then 200 else status;
  content_type = content_type;
  body = body;
}

abbrev pub sent_reply : ℕ → Reply → Option Reply → Relay → Relay
sent_reply n msg (some old) r = r
sent_reply n msg none r = record r { channels = set_at r.channels n (some msg) }

-- The send that does not wait: a channel that is full keeps what it has.
abbrev pub try_send : ℕ → Reply → Relay → Relay
try_send n msg r = sent_reply n msg (r.channels n) r

abbrev pub send_to : Option ℕ → Reply → Relay → Relay
send_to none msg r = r
send_to (some n) msg r = try_send n msg r

unfoldable pub handle_reply : Bytes → ℕ → Bytes → Bytes → Relay → Relay
handle_reply id status content_type body r =
    send_to (channel_of id r.pending) (reply_msg status content_type body) r
