-- ===== src/Sidecar/Proxy/Pump.antt =====
-- internal/sidecar/proxy.go, `handleConnect`: what of the agent's bytes goes into the tunnel.
use substrate_poc.Prelude.{
  ◌+◌, ◌≤◌, ◌<◌, ◌≡◌, refl, sym, ap, subst, ◌∙◌, ◌≢◌, inl, inr, true, false, Option, none, some,
  List, [], ◌∷◌, ◌++◌, append-nil, append_assoc, arith, length, length-append, Bytes, u64_mod,
  if-intro,
}
use substrate_poc.Tunnel.Buffer
use substrate_poc.Tunnel.Buffer.Stream.{Holds}
use substrate_poc.Sidecar.Session.{Side, send, Written, close_up}
use substrate_poc.Sidecar.Session.WriteUp.{
  chunk_taken, EndsAs, Holds-chunk_taken, chunk_taken-dead, write_up-EndsAs,
}
use substrate_poc.Sidecar.Proxy.{
  Failure, close_reason, AgentRead, Pumped, write_some, after_read, after_write, connect_pump,
  closes_with, gave_up, half_closed, waits,
}

-- `rest` are the bytes of the reads behind one that brought the error, if any.
abbrev pub unless_failed : Option Failure → Bytes → Bytes
unless_failed none rest = rest
unless_failed (some e) rest = []

-- The bytes of the reads, up to the first that brings an error.
abbrev pub all_bytes : List AgentRead → Bytes
all_bytes [] = []
all_bytes (r ∷ rs) = let rest = all_bytes rs in r.bytes ++ unless_failed r.failure rest

-- A session that is not closed, and whose buffer holds what the agent sent.
pub record IsLive (u : Bytes) (w : Side) : Type 0 where
  pub held : Holds w.session.up_buf u
  pub alive : w.session.dead ≡ false

-- How a goroutine stands behind the bytes `bytes`, with `u` sent by the agent before: it took a front of
-- them, in order, and all unless it waits for room; it did not give up; where it is through, the agent's half
-- is closed.
pub record Pumps (u bytes : Bytes) (r : Side × Pumped) : Type 0 where
  pub taken : Bytes
  pub more : Bytes
  pub live : IsLive (u ++ taken) r.0
  pub front : bytes ≡ taken ++ more
  pub whole : ((left : Bytes) → r.1 ≢ waits left) → more ≡ []
  pub lasts : r.1 ≢ gave_up
  pub shut : r.1 ≡ half_closed → r.0.session.up_closed ≡ true

IsLive-chunk_taken :
    (chunk u : Bytes) (w : Side)
    → IsLive u w
    → length chunk ≤ Buffer.free w.session.up_buf
    → length u + length chunk < u64_mod
    → IsLive (u ++ chunk) (chunk_taken chunk w)
IsLive-chunk_taken chunk u w h fits small = record {
  held = Holds-chunk_taken chunk u w h.held fits small;
  alive = chunk_taken-dead chunk w ∙ h.alive;
}

pub write_some-EndsAs :
    (p u : Bytes) (w : Side)
    → IsLive u w
    → length u + length p < u64_mod
    → EndsAs IsLive u p (write_some p w)
write_some-EndsAs [] u w h small = record {
  taken = [];
  left = [];
  split = refl;
  held = rw append-nil h;
  verdict = inl (refl, refl);
}
write_some-EndsAs (x ∷ xs) u w h small =
    write_up-EndsAs IsLive ((λ u w h. h.held), IsLive-chunk_taken) (x ∷ xs) u w h.alive h small

pub close_up-IsLive :
    (reason u : Bytes) (w : Side)
    → IsLive u w
    → IsLive u (close_up reason w) × ((close_up reason w).session.up_closed ≡ true)
unfolding close_up send
close_up-IsLive reason u w h =
    if-intro {A = Side} (λ w'. IsLive u w' × (w'.session.up_closed ≡ true)) w.session.up_closed
      (λ closed_already. (h, closed_already))
      (λ open_yet. (record { held = h.held; alive = h.alive }, refl))

-- The agent's half is closed behind the bytes `b`.
pub closes_with-Pumps :
    (reason u b : Bytes) (w : Side) → IsLive (u ++ b) w → Pumps u (b ++ []) (closes_with reason w)
closes_with-Pumps reason u b w h =
    let (live, shut) = close_up-IsLive reason (u ++ b) w h in
    record {
      taken = b;
      more = [];
      live = live;
      front = refl;
      whole = λ _. refl;
      lasts = λ same. absurd cc;
      shut = λ _. shut;
    }

-- The goroutine goes on behind the bytes `b`.
pub Pumps-behind :
    (u b rest_bytes : Bytes) (rest : Side × Pumped)
    → Pumps (u ++ b) rest_bytes rest
    → Pumps u (b ++ rest_bytes) rest
Pumps-behind u b rest_bytes rest l = record {
  taken = b ++ l.taken;
  more = l.more;
  live = subst (λ t. IsLive t rest.0) (append_assoc u b l.taken) l.live;
  front = ap (λ t. b ++ t) l.front ∙ sym (append_assoc b l.taken l.more);
  whole = l.whole;
  lasts = l.lasts;
  shut = l.shut;
}

after_read-Pumps :
    (u b rest_bytes : Bytes) (failure : Option Failure) (w : Side) (rest : Side × Pumped)
    → IsLive (u ++ b) w
    → length u + length (b ++ unless_failed failure rest_bytes) < u64_mod
    → (length (u ++ b) + length rest_bytes < u64_mod → Pumps (u ++ b) rest_bytes rest)
    → Pumps u (b ++ unless_failed failure rest_bytes) (after_read failure w rest)
after_read-Pumps u b rest_bytes none w rest h small later =
    Pumps-behind u b rest_bytes rest
      (later (omega (arith, length-append u b, length-append b rest_bytes)))
after_read-Pumps u b rest_bytes (some e) w rest h small later =
    closes_with-Pumps (close_reason e) u b w h

after_write-Pumps :
    {u p : Bytes} {w : Side × Written} (rest_bytes : Bytes) (failure : Option Failure)
    (rest : Side × Pumped)
    → EndsAs IsLive u p w
    → length u + length (p ++ unless_failed failure rest_bytes) < u64_mod
    → (IsLive (u ++ p) w.0
        → length (u ++ p) + length rest_bytes < u64_mod
        → Pumps (u ++ p) rest_bytes rest)
    → Pumps u (p ++ unless_failed failure rest_bytes) (after_write w.1 failure w.0 rest)
after_write-Pumps {u} {p} {w} rest_bytes failure rest e small later =
    let Goal : Written → Type 0 =
      λ o. Pumps u (p ++ unless_failed failure rest_bytes) (after_write o failure w.0 rest) in
    elim e.verdict [
      | inl (acc, nothing) ↦
          let all_taken : e.taken ≡ p =
            sym (e.split ∙ ap (λ t. e.taken ++ t) nothing ∙ append-nil e.taken) in
          let live : IsLive (u ++ p) w.0 = subst (λ t. IsLive (u ++ t) w.0) all_taken e.held in
          subst Goal (sym acc)
            (after_read-Pumps u p rest_bytes failure w.0 rest live small (later live))
      | inr (wait, full) ↦ subst Goal (sym wait) (record {
        taken = e.taken;
        more = e.left ++ unless_failed failure rest_bytes;
        live = e.held;
        front =
            ap (λ t. t ++ unless_failed failure rest_bytes) e.split
            ∙ append_assoc e.taken e.left (unless_failed failure rest_bytes);
        whole = λ never. absurd (never e.left refl);
        lasts = λ same. absurd cc;
        shut = λ same. absurd cc;
      })
    ]

-- The goroutine of a CONNECT, on a session that is not closed, carries the agent's bytes into the tunnel's
-- replay buffer: it takes the bytes of its reads in order, behind all that the agent sent before, and all of
-- them unless it waits for room in the buffer; it never gives up; and once a read brings an error, the agent's
-- half is closed. That the tunnel is down makes no difference.
pub connect_pump-Pumps :
    (reads : List AgentRead) (u : Bytes) (v : Side)
    → IsLive u v
    → length u + length (all_bytes reads) < u64_mod
    → Pumps u (all_bytes reads) (connect_pump reads v)
unfolding connect_pump
connect_pump-Pumps [] u v h small = record {
  taken = [];
  more = [];
  live = rw append-nil h;
  front = refl;
  whole = λ _. refl;
  lasts = λ same. absurd cc;
  shut = λ same. absurd cc;
}
connect_pump-Pumps (r ∷ rs) u v h small =
    let w = write_some r.bytes v in
    let fits : length u + length r.bytes < u64_mod =
      omega (arith, length-append r.bytes (unless_failed r.failure (all_bytes rs))) in
    after_write-Pumps (all_bytes rs) r.failure (connect_pump rs w.0)
      (write_some-EndsAs r.bytes u v h fits) small
      (λ live small. connect_pump-Pumps rs (u ++ r.bytes) w.0 live small)
