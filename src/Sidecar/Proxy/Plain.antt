-- ===== src/Sidecar/Proxy/Plain.antt =====
-- internal/sidecar/proxy.go, `handleHTTP`: what of the agent's requests goes into the tunnel.
use substrate_poc.Prelude.{
  ◌+◌, ◌<◌, ◌≡◌, refl, sym, ap, subst, ◌∙◌, ◌⊎◌, inl, inr, Bool, true, false, Option, none, some,
  List, [], ◌∷◌, ◌++◌, append-nil, append_assoc, arith, if◌then◌else◌, length, length-append, Bytes,
  u64_mod, codes, bytes_eq,
}
use substrate_poc.Sidecar.Session.{Side, Written, accepted, waiting, net_closed, refused, stuck}
use substrate_poc.Sidecar.Session.WriteUp.{EndsAs}
use substrate_poc.Sidecar.Proxy.{
  host_port, Failure, close_reason, Pumped, write_some, PlainRequest, Forwarding, failure_or,
  closed_text, write_origin_form, Following, closes_with, after_request, http_loop, at_eof, failing,
  reads_on, forward_waits, forward_fails, another, read_ends,
}
use substrate_poc.Sidecar.Proxy.Pump.{
  closes_with-Pumps, Pumps-behind, unless_failed, IsLive, Pumps, write_some-EndsAs,
}

abbrev pub joined : List Bytes → Bytes
joined [] = []
joined (p ∷ ps) = p ++ joined ps

-- A request's bytes, and `rest` behind them if all of it can be read.
abbrev pub request_bytes : PlainRequest → Bytes → Bytes
request_bytes req rest = joined req.pieces ++ unless_failed req.failure rest

-- The bytes that a run of requests comes to: those of the requests up to the first that names another target
-- or cannot be read.
abbrev pub run_bytes : Bytes → PlainRequest → List Following → Bytes
run_bytes target req [] =
    if bytes_eq (host_port req.host (codes "80")) target then request_bytes req [] else []
run_bytes target req (another next ∷ rest) =
    let later = run_bytes target next rest in
    if bytes_eq (host_port req.host (codes "80")) target then request_bytes req later else []
run_bytes target req (read_ends e ∷ rest) =
    if bytes_eq (host_port req.host (codes "80")) target then request_bytes req [] else []

-- How `writeOriginForm` stands behind the bytes `p` of a request.
pub record Forwards (u p : Bytes) (failure : Option Failure) (f : Side × Forwarding) : Type 0 where
  pub f_taken : Bytes
  pub f_more : Bytes
  pub f_live : IsLive (u ++ f_taken) f.0
  pub f_front : p ≡ f_taken ++ f_more
  pub f_verdict :
      ((f.1 ≡ failure_or failure) × (f_more ≡ [])) ⊎ ((left : Bytes) × (f.1 ≡ forward_waits left))

-- `writeOriginForm` behind a piece.
abbrev pub after_piece : Side × Written → Side × Forwarding → Side × Forwarding
after_piece w rest = elim w.1 [
  | accepted ↦ rest
  | waiting left ↦ (w.0, forward_waits left)
  | net_closed ↦ (w.0, forward_fails (failing closed_text))
  | refused e ↦ (w.0, forward_fails (failing (codes "tunnel: replay buffer full")))
  | stuck ↦ (w.0, forward_fails at_eof)
]

after_piece-Forwards :
    {u p : Bytes} {w : Side × Written} (rest_bytes : Bytes) (failure : Option Failure)
    (rest : Side × Forwarding)
    → EndsAs IsLive u p w
    → (IsLive (u ++ p) w.0 → Forwards (u ++ p) rest_bytes failure rest)
    → Forwards u (p ++ rest_bytes) failure (after_piece w rest)
after_piece-Forwards {u} {p} {w} rest_bytes failure rest e later =
    let Goal : Written → Type 0 =
      λ o. Forwards u (p ++ rest_bytes) failure (after_piece (w.0, o) rest) in
    elim e.verdict [
      | inl (acc, nothing) ↦
          let all_taken : e.taken ≡ p =
            sym (e.split ∙ ap (λ t. e.taken ++ t) nothing ∙ append-nil e.taken) in
          let l = later (subst (λ t. IsLive (u ++ t) w.0) all_taken e.held) in
          subst Goal (sym acc) (record {
            f_taken = p ++ l.f_taken;
            f_more = l.f_more;
            f_live = subst (λ t. IsLive t rest.0) (append_assoc u p l.f_taken) l.f_live;
            f_front = ap (λ t. p ++ t) l.f_front ∙ sym (append_assoc p l.f_taken l.f_more);
            f_verdict = l.f_verdict;
          })
      | inr (wait, full) ↦ subst Goal (sym wait) (record {
        f_taken = e.taken;
        f_more = e.left ++ rest_bytes;
        f_live = e.held;
        f_front = ap (λ t. t ++ rest_bytes) e.split ∙ append_assoc e.taken e.left rest_bytes;
        f_verdict = inr (e.left, refl);
      })
    ]

write_origin_form-Forwards :
    (pieces : List Bytes) (failure : Option Failure) (u : Bytes) (v : Side)
    → IsLive u v
    → length u + length (joined pieces) < u64_mod
    → Forwards u (joined pieces) failure (write_origin_form pieces failure v)
unfolding write_origin_form
write_origin_form-Forwards [] failure u v h small = record {
  f_taken = [];
  f_more = [];
  f_live = rw append-nil h;
  f_front = refl;
  f_verdict = inl (refl, refl);
}
write_origin_form-Forwards (p ∷ ps) failure u v h small =
    let w = write_some p v in
    let fits : length u + length p < u64_mod = omega (arith, length-append p (joined ps)) in
    let fits_later : length (u ++ p) + length (joined ps) < u64_mod =
      omega (arith, length-append p (joined ps), length-append u p) in
    after_piece-Forwards (joined ps) failure (write_origin_form ps failure w.0)
      (write_some-EndsAs p u v h fits)
      (λ live. write_origin_form-Forwards ps failure (u ++ p) w.0 live fits_later)

written_request-Pumps :
    (u p rest_bytes : Bytes) (failure : Option Failure) (w : Side) (rest : Side × Pumped)
    → IsLive (u ++ p) w
    → length u + length (p ++ unless_failed failure rest_bytes) < u64_mod
    → (length (u ++ p) + length rest_bytes < u64_mod → Pumps (u ++ p) rest_bytes rest)
    → Pumps u (p ++ unless_failed failure rest_bytes) (after_request (w, failure_or failure) rest)
written_request-Pumps u p rest_bytes none w rest h small later =
    Pumps-behind u p rest_bytes rest
      (later (omega (arith, length-append u p, length-append p rest_bytes)))
written_request-Pumps u p rest_bytes (some e) w rest h small later =
    closes_with-Pumps (close_reason e) u p w h

after_request-Pumps :
    {u p : Bytes} {f : Side × Forwarding} (rest_bytes : Bytes) (failure : Option Failure)
    (rest : Side × Pumped)
    → Forwards u p failure f
    → length u + length (p ++ unless_failed failure rest_bytes) < u64_mod
    → (IsLive (u ++ p) f.0
        → length (u ++ p) + length rest_bytes < u64_mod
        → Pumps (u ++ p) rest_bytes rest)
    → Pumps u (p ++ unless_failed failure rest_bytes) (after_request f rest)
after_request-Pumps {u} {p} {f} rest_bytes failure rest e small later =
    let Goal : Forwarding → Type 0 =
      λ o. Pumps u (p ++ unless_failed failure rest_bytes) (after_request (f.0, o) rest) in
    elim e.f_verdict [
      | inl (through, nothing) ↦
          let all_taken : e.f_taken ≡ p =
            sym (e.f_front ∙ ap (λ t. e.f_taken ++ t) nothing ∙ append-nil e.f_taken) in
          let live : IsLive (u ++ p) f.0 = subst (λ t. IsLive (u ++ t) f.0) all_taken e.f_live in
          subst Goal (sym through)
            (written_request-Pumps u p rest_bytes failure f.0 rest live small (later live))
      | inr (left, wait) ↦ subst Goal (sym wait) (record {
        taken = e.f_taken;
        more = e.f_more ++ unless_failed failure rest_bytes;
        live = e.f_live;
        front =
            ap (λ t. t ++ unless_failed failure rest_bytes) e.f_front
            ∙ append_assoc e.f_taken e.f_more (unless_failed failure rest_bytes);
        whole = λ never. absurd (never left refl);
        lasts = λ same. absurd cc;
        shut = λ same. absurd cc;
      })
    ]

stop-Pumps : (u b : Bytes) (w : Side) → IsLive (u ++ b) w → Pumps u (b ++ []) (w, reads_on)
stop-Pumps u b w h = record {
  taken = b;
  more = [];
  live = h;
  front = refl;
  whole = λ _. refl;
  lasts = λ same. absurd cc;
  shut = λ same. absurd cc;
}

request_small :
    (u b : Bytes) (failure : Option Failure) (rest : Bytes)
    → length u + length (b ++ unless_failed failure rest) < u64_mod
    → length u + length b < u64_mod
request_small u b failure rest small = omega (arith, length-append b (unless_failed failure rest))

-- A request goes to the target (`b`), or ends the loop.
if_same :
    (b : Bool) {all : Bytes} {r : Side × Pumped} (u : Bytes) (v : Side)
    → IsLive u v
    → length u + length (if b then all else []) < u64_mod
    → (length u + length all < u64_mod → Pumps u all r)
    → Pumps u (if b then all else []) (if b then r else closes_with (codes "host change") v)
if_same true u v h small same = same small
if_same false u v h small same = closes_with-Pumps (codes "host change") u [] v (rw append-nil h)

-- A request for the target, and the loop behind it.
request-Pumps :
    (req : PlainRequest) (rest_bytes u : Bytes) (v : Side) (rest : Side × Pumped)
    → IsLive u v
    → (let out = write_origin_form req.pieces req.failure v in
        (IsLive (u ++ joined req.pieces) out.0
          → length (u ++ joined req.pieces) + length rest_bytes < u64_mod
          → Pumps (u ++ joined req.pieces) rest_bytes rest)
        → length u + length (request_bytes req rest_bytes) < u64_mod
        → Pumps u (request_bytes req rest_bytes) (after_request out rest))
request-Pumps req rest_bytes u v rest h later small =
    after_request-Pumps rest_bytes req.failure rest
      (write_origin_form-Forwards req.pieces req.failure u v h
        (request_small u (joined req.pieces) req.failure rest_bytes small))
      small later

-- The loop takes the bytes of its requests.
pub http_loop-Pumps :
    (target : Bytes) (req : PlainRequest) (rest : List Following) (u : Bytes) (v : Side)
    → IsLive u v
    → length u + length (run_bytes target req rest) < u64_mod
    → Pumps u (run_bytes target req rest) (http_loop target req rest v)
unfolding http_loop
http_loop-Pumps target req [] u v h small =
    if_same (bytes_eq (host_port req.host (codes "80")) target) u v h small (
      request-Pumps req [] u v ((write_origin_form req.pieces req.failure v).0, reads_on) h
        (λ live small.
          stop-Pumps (u ++ joined req.pieces) [] (write_origin_form req.pieces req.failure v).0
            (rw append-nil live)))
http_loop-Pumps target req (another next ∷ rest) u v h small =
    let out = write_origin_form req.pieces req.failure v in
    if_same (bytes_eq (host_port req.host (codes "80")) target) u v h small (
      request-Pumps req (run_bytes target next rest) u v (http_loop target next rest out.0) h
        (λ live small. http_loop-Pumps target next rest (u ++ joined req.pieces) out.0 live small))
http_loop-Pumps target req (read_ends e ∷ rest) u v h small =
    let out = write_origin_form req.pieces req.failure v in
    if_same (bytes_eq (host_port req.host (codes "80")) target) u v h small (
      request-Pumps req [] u v (closes_with (close_reason e) out.0) h (λ live small.
        closes_with-Pumps (close_reason e) (u ++ joined req.pieces) [] out.0 (rw append-nil live)))
