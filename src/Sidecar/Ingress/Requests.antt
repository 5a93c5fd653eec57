-- ===== src/Sidecar/Ingress/Requests.antt =====
-- internal/sidecar/ingress.go: what becomes of a request that atenet brings, `handle`, `process`, `deliver` and
-- `proxyInline`. HTTP is an input: what was read, and how a call goes.
use substrate_poc.Prelude.{
  ℕ, Bool, true, false, ◌||◌, Option, none, some, [], ◌∷◌, ◌++◌, if◌then◌else◌, Bytes, codes,
}
use substrate_poc.Sidecar.Ingress.{Ingress, enter_request, exit_request, deliver}

-- A request that was read. `body` is `none` if it cannot be read to its end.
pub record Incoming : Type 0 where
  pub reply_to : Bytes
  pub request_id : Bytes
  pub body : Option Bytes

-- What `handle` does with a connection: it closes it, or proxies the request on it, or accepts the request
-- and closes it behind the 202.
pub data Handled : Type 0 where
  closed inline : Handled
  accepts : Bytes → Bytes → Bytes → Handled

abbrev pub is_blank : Bytes → Bool
is_blank [] = true
is_blank (x ∷ xs) = false

abbrev pub with_body : Incoming → Option Bytes → Handled
with_body req none = closed
with_body req (some body) = accepts req.reply_to req.request_id body

abbrev pub sort_request : Incoming → Handled
sort_request req =
    if is_blank req.reply_to || is_blank req.request_id then inline else with_body req req.body

unfoldable pub handle : Option Incoming → Handled
handle none = closed
handle (some req) = sort_request req

-- A request that is accepted is in flight before its connection's handler ends.
abbrev pub count_handled : Handled → Ingress → Ingress
count_handled closed i = i
count_handled inline i = i
count_handled (accepts reply_to request_id body) i = enter_request i

-- How the call of the agent goes: no request can be built, the call fails with a text, or there is a response.
pub data AgentCall : Type 0 where
  not_built : AgentCall
  call_failed : Bytes → AgentCall
  responds : ℕ → Bytes → Bytes → AgentCall

-- A post to the reply endpoint of the ingress-broker.
pub record Post : Type 0 where
  pub post_to : Bytes
  pub post_id : Bytes
  pub post_status : ℕ
  pub post_type : Bytes
  pub post_body : Bytes

-- What `process` hands to `deliver`.
unfoldable pub answer_of : Bytes → Bytes → AgentCall → Option Post
answer_of reply_to request_id not_built = none
answer_of reply_to request_id (call_failed text) = some (record {
  post_to = reply_to;
  post_id = request_id;
  post_status = 502;
  post_type = codes "text/plain";
  post_body = codes "agent call failed: " ++ text;
})
answer_of reply_to request_id (responds status content_type body) = some (record {
  post_to = reply_to;
  post_id = request_id;
  post_status = status;
  post_type = content_type;
  post_body = body;
})

-- The attempt that the ingress-broker took, if any, with the post.
abbrev pub delivered : (ℕ → Bool) → Option Post → Option (ℕ × Post)
delivered posted none = none
delivered posted (some post) = elim (deliver posted) [ none ↦ none | some k ↦ some (k, post) ]

-- The whole of `process`; the deferred `exitRequest` runs at its end, `now`.
unfoldable pub process :
    ℕ → Bytes → Bytes → AgentCall → (ℕ → Bool) → Ingress → Ingress × Option (ℕ × Post)
unfolding answer_of
process now reply_to request_id call posted i =
    (exit_request now i, delivered posted (answer_of reply_to request_id call))

-- What `proxyInline` writes on the connection: the agent's response, or the 502.
pub data InlineReply : Type 0 where
  bad_gateway : InlineReply
  passes_on : ℕ → Bytes → Bytes → InlineReply

unfoldable pub proxy_inline : AgentCall → InlineReply
proxy_inline not_built = bad_gateway
proxy_inline (call_failed text) = bad_gateway
proxy_inline (responds status content_type body) = passes_on status content_type body
