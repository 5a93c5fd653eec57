-- ===== src/Sidecar/Proxy.antt =====
-- internal/sidecar/proxy.go: the forward proxy of the agent. HTTP is an input: what a request names, the pieces
-- in which it is written anew, and what a read of the agent's connection brings.
pub mod Carried
pub mod Hosts
pub mod Plain
pub mod Pump
use substrate_poc.Prelude.{
  ℕ, suc, ◌+◌, Bool, true, false, not, ◌&&◌, ◌||◌, Option, none, some, List, [], ◌∷◌, ◌++◌, ◌==◌,
  if◌then◌else◌, take, drop, Bytes, codes, bytes_eq,
}
use substrate_poc.Sidecar.Session.{
  Side, Written, accepted, waiting, net_closed, refused, stuck, write_up, close_up,
}

abbrev pub colon : ℕ
colon = 58

abbrev pub open_bracket : ℕ
open_bracket = 91

abbrev pub close_bracket : ℕ
close_bracket = 93

-- `bytealg.IndexByteString`, and the last place of a byte.
abbrev pub index_of : ℕ → Bytes → Option ℕ
index_of c [] = none
index_of c (x ∷ xs) =
    let rest = index_of c xs in
    if x == c then some 0 else elim rest [ none ↦ none | some i ↦ some (suc i) ]

abbrev pub last_index : ℕ → Bytes → Option ℕ
last_index c [] = none
last_index c (x ∷ xs) = elim (last_index c xs) [
  | some i ↦ some (suc i)
  | none ↦ if x == c then some 0 else none
]

abbrev pub has_byte : ℕ → Bytes → Bool
has_byte c [] = false
has_byte c (x ∷ xs) = (x == c) || has_byte c xs

abbrev pub starts_with_byte : ℕ → Bytes → Bool
starts_with_byte c [] = false
starts_with_byte c (x ∷ xs) = x == c

-- Whether `net.SplitHostPort` goes well; `i` is the place of the last colon.
abbrev pub bracketed_ok : ℕ → Option ℕ → Bytes → Bool
bracketed_ok i none hp = false
bracketed_ok i (some end) hp =
    (suc end == i)
    && not (has_byte open_bracket (drop 1 hp))
    && not (has_byte close_bracket (drop (suc end) hp))

abbrev pub split_host : Option ℕ → Bytes → Bool
split_host none hp = false
split_host (some i) hp =
    if starts_with_byte open_bracket hp
    then bracketed_ok i (index_of close_bracket hp) hp
    else not (has_byte colon (take i hp))
      && not (has_byte open_bracket hp)
      && not (has_byte close_bracket hp)

unfoldable pub split_ok : Bytes → Bool
split_ok hp = split_host (last_index colon hp) hp

-- `net.JoinHostPort`
unfoldable pub join_host_port : Bytes → Bytes → Bytes
join_host_port host port =
    if has_byte colon host
    then open_bracket ∷ (host ++ (close_bracket ∷ colon ∷ port))
    else host ++ (colon ∷ port)

unfoldable pub host_port : Bytes → Bytes → Bytes
host_port [] default_port = []
host_port (x ∷ xs) default_port =
    if split_ok (x ∷ xs) then x ∷ xs else join_host_port (x ∷ xs) default_port

-- An error of a read or a write: the end of the stream, or another, with its text.
pub data Failure : Type 0 where
  at_eof : Failure
  failing : Bytes → Failure

abbrev pub starts_with : Bytes → Bytes → Bool
starts_with [] xs = true
starts_with (p ∷ ps) [] = false
starts_with (p ∷ ps) (x ∷ xs) = (p == x) && starts_with ps xs

-- `strings.Contains`
abbrev pub contains : Bytes → Bytes → Bool
contains p [] = starts_with p []
contains p (x ∷ xs) = starts_with p (x ∷ xs) || contains p xs

unfoldable pub close_reason : Failure → Bytes
close_reason at_eof = codes "eof"
close_reason (failing text) =
    if contains (codes "closed") text then codes "closed" else codes "err: " ++ text

-- One read of the agent's connection: its bytes, and an error that came with them.
pub record AgentRead : Type 0 where
  pub bytes : Bytes
  pub failure : Option Failure

-- How far a goroutine of the proxy got: it reads on; it waits in `WriteUp` with bytes left; it gave up behind
-- an error of `WriteUp`; it closed the agent's half.
pub data Pumped : Type 0 where
  reads_on gave_up half_closed : Pumped
  waits : Bytes → Pumped

-- `if n > 0`
abbrev pub write_some : Bytes → Side → Side × Written
write_some [] v = (v, accepted)
write_some (x ∷ xs) v = write_up (x ∷ xs) v

-- `rest` is the loop with the reads that follow.
abbrev pub after_read : Option Failure → Side → Side × Pumped → Side × Pumped
after_read none w rest = rest
after_read (some e) w rest = (close_up (close_reason e) w, half_closed)

abbrev pub after_write : Written → Option Failure → Side → Side × Pumped → Side × Pumped
after_write accepted failure w rest = after_read failure w rest
after_write (waiting left) failure w rest = (w, waits left)
after_write net_closed failure w rest = (w, gave_up)
after_write (refused e) failure w rest = (w, gave_up)
after_write stuck failure w rest = (w, gave_up)

-- The goroutine of `handleConnect`.
unfoldable pub connect_pump : List AgentRead → Side → Side × Pumped
connect_pump [] v = (v, reads_on)
connect_pump (r ∷ rs) v =
    let w = write_some r.bytes v in
    let rest = connect_pump rs w.0 in after_write w.1 r.failure w.0 rest

-- A connection whose first request is a CONNECT: the host that it names, the bytes that `handle`'s reader took
-- off the socket behind the request, and the reads of the socket from there on. `handleConnect` is not given
-- the reader.
pub record ConnectStart : Type 0 where
  pub connect_host : Bytes
  pub buffered : Bytes
  pub reads : List AgentRead

-- `wrote` tells whether the 200 went out; otherwise the agent's connection is closed (`none`). `opened` is the
-- session that `OpenSession` makes for a target.
unfoldable pub handle_connect : Bool → ConnectStart → (Bytes → Side) → Option (Side × Pumped)
unfolding host_port connect_pump
handle_connect false start opened = none
handle_connect true start opened =
    some (connect_pump start.reads (opened (host_port start.connect_host (codes "443"))))

-- A request of plain HTTP: its host, and the pieces of it in origin form, with the error of writing it, if any.
pub record PlainRequest : Type 0 where
  pub host : Bytes
  pub pieces : List Bytes
  pub failure : Option Failure

-- How `writeOriginForm` ends.
pub data Forwarding : Type 0 where
  forwarded : Forwarding
  forward_waits : Bytes → Forwarding
  forward_fails : Failure → Forwarding

abbrev pub failure_or : Option Failure → Forwarding
failure_or none = forwarded
failure_or (some e) = forward_fails e

-- Errors of `WriteUp` have the texts "use of closed network connection" and that of the buffer.
abbrev pub closed_text : Bytes
closed_text = codes "use of closed network connection"

unfoldable pub write_origin_form : List Bytes → Option Failure → Side → Side × Forwarding
write_origin_form [] failure v = (v, failure_or failure)
write_origin_form (p ∷ ps) failure v =
    let w = write_some p v in
    let rest = write_origin_form ps failure w.0 in
    elim w.1 [
      | accepted ↦ rest
      | waiting left ↦ (w.0, forward_waits left)
      | net_closed ↦ (w.0, forward_fails (failing closed_text))
      | refused e ↦ (w.0, forward_fails (failing (codes "tunnel: replay buffer full")))
      | stuck ↦ (w.0, forward_fails at_eof)
    ]

-- What follows a request on the agent's connection: another one, or an error of the read.
pub data Following : Type 0 where
  another : PlainRequest → Following
  read_ends : Failure → Following

abbrev pub closes_with : Bytes → Side → Side × Pumped
closes_with reason v = (close_up reason v, half_closed)

-- Behind a request that was written, `rest` is the loop with what follows.
abbrev pub after_request : Side × Forwarding → Side × Pumped → Side × Pumped
after_request (v, forwarded) rest = rest
after_request (v, forward_waits left) rest = (v, waits left)
after_request (v, forward_fails e) rest = closes_with (close_reason e) v

-- The loop of `handleHTTP`; a keep-alive request for another host ends it.
unfoldable pub http_loop : Bytes → PlainRequest → List Following → Side → Side × Pumped
http_loop target req [] v =
    if bytes_eq (host_port req.host (codes "80")) target
    then after_request (write_origin_form req.pieces req.failure v)
        ((write_origin_form req.pieces req.failure v).0, reads_on)
    else closes_with (codes "host change") v
http_loop target req (another next ∷ rest) v =
    let later = http_loop target next rest (write_origin_form req.pieces req.failure v).0 in
    if bytes_eq (host_port req.host (codes "80")) target
    then after_request (write_origin_form req.pieces req.failure v) later
    else closes_with (codes "host change") v
http_loop target req (read_ends e ∷ rest) v =
    if bytes_eq (host_port req.host (codes "80")) target
    then after_request (write_origin_form req.pieces req.failure v)
        (closes_with (close_reason e) (write_origin_form req.pieces req.failure v).0)
    else closes_with (codes "host change") v

unfoldable pub handle_http : PlainRequest → List Following → (Bytes → Side) → Side × Pumped
unfolding http_loop host_port
handle_http first rest opened =
    let target = host_port first.host (codes "80") in http_loop target first rest (opened target)

-- What comes first on a connection of the agent.
pub data Arrival : Type 0 where
  unreadable : Arrival
  connects : ConnectStart → Arrival
  requests : PlainRequest → List Following → Arrival

unfoldable pub handle : Bool → Arrival → (Bytes → Side) → Option (Side × Pumped)
unfolding handle_connect handle_http
handle wrote unreadable opened = none
handle wrote (connects start) opened = handle_connect wrote start opened
handle wrote (requests first rest) opened = some (handle_http first rest opened)
