-- ===== src/Broker/Session/Lifetime/Forgotten.antt =====
-- internal/broker/session.go: a CLOSE of the agent that comes before the dial is done, over all that follows.
use substrate_poc.Prelude.{
  ℕ, ◌≡◌, refl, sym, ap, subst, ◌∙◌, inl, true, false, Option, none, some, List, [], ◌∷◌, arith,
  All, Bytes, if-intro,
}
use substrate_poc.Tunnel.Frame.{dir_up}
use substrate_poc.Broker.Session.State.{Upstream, World, wrote, arm_watchdog}
use substrate_poc.Broker.Session.State.Sending.{send_to_sidecar-session}
use substrate_poc.Broker.Session.Uplink.{
  dial_upstream, dial_ok, dial_flush, dial_connected, flush_if_alive, on_sidecar_close,
}
use substrate_poc.Broker.Session.Uplink.DialWindow.{dial_upstream-forgets_close}
use substrate_poc.Broker.Session.{Act, act, run, closes, dials}
use substrate_poc.Broker.Session.Lifetime.{removals, WriteOpen, IsTidyAs}
use substrate_poc.Broker.Session.Lifetime.Acts.{IsNoClose, IsTidy-act, origin_of, run-untold}

-- The session is closed upwards, and the destination's stream was not shut down.
abbrev pub IsUntold : World → Type 0
IsUntold w =
    (w.session.up_closed ≡ true)
    × ((up : Upstream) × (w.session.upstream ≡ some up) × (up.write_closed ≡ false))

flush-up_closed :
    (pre : Bytes) (w : World) → (dial_flush pre wrote w).session.up_closed ≡ w.session.up_closed
unfolding dial_flush
flush-up_closed [] w = refl
flush-up_closed (x ∷ pre) w = let (t, e) = send_to_sidecar-session _ _ in ap (λ s. s.up_closed) e

dial_upstream-up_closed :
    (now : ℕ) (w : World)
    → (dial_upstream (dial_ok wrote) now w).session.up_closed ≡ w.session.up_closed
unfolding dial_upstream arm_watchdog dial_connected
dial_upstream-up_closed now w =
    if-intro {A = World × Option Bytes}
      (λ r. (flush_if_alive wrote r).session.up_closed ≡ w.session.up_closed) w.session.dead
      (λ _. refl) (λ _. flush-up_closed w.session.pre_conn _)

WriteOpen-some :
    (u : Option Upstream)
    → WriteOpen u
    → (up : Upstream) × (u ≡ some up) × (up.write_closed ≡ false)
WriteOpen-some none h = absurd h
WriteOpen-some (some up) h = (up, refl, h)

-- A CLOSE from the agent that is handled before the dial completes is never carried out: behind the dial, and
-- behind whatever happens to the session after that, short of another CLOSE, the session is closed upwards,
-- and the destination's stream is not shut down. The session is alive and on the table, its destination has
-- not closed, and the dial and its write go well.
pub run-forgets_close :
    (now : ℕ) (acts : List Act) (w : World)
    → w.session.dead ≡ false
    → removals w.events ≡ 0
    → w.session.upstream ≡ none
    → w.session.down_closed ≡ false
    → All IsNoClose acts
    → IsUntold (run acts (dial_upstream (dial_ok wrote) now (on_sidecar_close dir_up w)))
unfolding act
run-forgets_close now acts w alive on_table none_yet open_down kept =
    let closed = on_sidecar_close dir_up w in
    let dialed = dial_upstream (dial_ok wrote) now closed in
    let (said, (up, there, write_open)) =
      dial_upstream-forgets_close now w alive none_yet open_down in
    let start : IsTidyAs (origin_of w) w = record {
      counted = ground (arith, on_table, alive);
      shut = λ dead. absurd cc;
      owned = refl;
      numbered = refl;
      untold = λ on. absurd cc;
    } in
    let behind : IsTidyAs (origin_of w) dialed =
      IsTidy-act (dials (dial_ok wrote) now) closed (inl refl)
        (IsTidy-act (closes dir_up) w (inl refl) start) in
    let untold : IsTidyAs (record (origin_of w) { stays = true }) dialed = record {
      counted = behind.counted;
      shut = behind.shut;
      owned = behind.owned;
      numbered = behind.numbered;
      untold =
          λ _. (dial_upstream-up_closed now closed ∙ said, subst WriteOpen (sym there) write_open);
    } in
    let (up_closed, write_kept) = (run-untold acts dialed kept untold).untold refl in
    (up_closed, WriteOpen-some (run acts dialed).session.upstream write_kept)
