-- ===== src/Broker/Session/Lifetime.antt =====
-- internal/broker/session.go: the end of a session.
pub mod Acts
pub mod Forgotten
pub mod Leak
use mathlib.Core.Option
use substrate_poc.Prelude.{
  Bool, false, ℕ, suc, ◌+◌, ◌-◌, ◌≡◌, refl, sym, ap, arith, subst, ◌∙◌, true, not, ◌&&◌, Option,
  none, some, List, [], ◌∷◌, ◌++◌, map, ◌==◌, if◌then◌else◌, length, Bytes, Error, if-intro,
}
use substrate_poc.Tunnel.Frame.{Frame}
use substrate_poc.Tunnel.Buffer
use substrate_poc.Broker.Session.State.{
  Upstream, Outcome, Cause, Event, World, wake, bound_to, undelivered, detach, write,
  detach_on_error, send_on, send_to_sidecar, close_socket, destroy, maybe_destroy, is_bound,
  announce_close, close_upstream, wrote, failed, woke, removed,
}
use substrate_poc.Broker.Session.Downlink.{send_all}
use substrate_poc.Broker.Session.Uplink.{socket_write, close_write}

-- How often the session asked to be taken off the broker's table.
abbrev pub removals : List Event → ℕ
removals [] = 0
removals (woke reason ∷ es) = removals es
removals (removed ∷ es) = suc (removals es)

removals-woke : (reason : Bytes) (es : List Event) → removals (es ++ woke reason ∷ []) ≡ removals es
removals-woke reason [] = refl
removals-woke reason (woke r ∷ es) = removals-woke reason es
removals-woke reason (removed ∷ es) = ap suc (removals-woke reason es)

removals-removed : (es : List Event) → removals (es ++ removed ∷ []) ≡ suc (removals es)
removals-removed [] = refl
removals-removed (woke r ∷ es) = removals-removed es
removals-removed (removed ∷ es) = ap suc (removals-removed es)

abbrev pub AllClosed : Option Upstream → Type 0
AllClosed none = Unit {0}
AllClosed (some up) = up.closed ≡ true

-- The session is off the table, once, exactly when it is dead, and a dead session's connection to the
-- destination is closed.
pub record IsTidy (w : World) : Type 0 where
  pub counted : removals w.events ≡ (if w.session.dead then 1 else 0)
  pub shut : w.session.dead ≡ true → AllClosed w.session.upstream

-- Where a session comes from: how often it was taken off the table before, whose session it is, and whether
-- the agent has closed it without the destination being told.
pub record Origin : Type 0 where
  pub gone : ℕ
  pub owner : Bytes
  pub number : ℕ
  pub stays : Bool

-- There is a destination, and its stream was not shut down.
abbrev pub WriteOpen : Option Upstream → Type 0
WriteOpen none = ⊥
WriteOpen (some up) = up.write_closed ≡ false

-- The same, counting what was before, and it is still the same actor's session.
pub record IsTidyAs (o : Origin) (w : World) : Type 0 where
  pub counted : removals w.events + o.gone ≡ (if w.session.dead then 1 else 0)
  pub shut : w.session.dead ≡ true → AllClosed w.session.upstream
  pub owned : w.session.actor_id ≡ o.owner
  pub numbered : w.session.session_id ≡ o.number
  pub untold : o.stays ≡ true → (w.session.up_closed ≡ true) × WriteOpen w.session.upstream

counted_once : {n m : ℕ} (k : ℕ) → n ≡ suc m → m + k ≡ 0 → n + k ≡ 1
counted_once k e f = omega (arith, e, f)

WriteOpen-close : (u : Option Upstream) → WriteOpen u → WriteOpen (Option.map close_socket u)
WriteOpen-close none h = h
WriteOpen-close (some up) h = h

pub WriteOpen-write :
    (outcome : Outcome) (p : Bytes) (u : Option Upstream)
    → WriteOpen u
    → WriteOpen (Option.map (socket_write outcome p) u)
WriteOpen-write outcome p none h = h
WriteOpen-write wrote p (some up) h = h
WriteOpen-write (failed n text) p (some up) h = h

AllClosed-close : (u : Option Upstream) → AllClosed (Option.map close_socket u)
AllClosed-close none = tt
AllClosed-close (some up) = refl

pub AllClosed-write :
    (outcome : Outcome) (p : Bytes) (u : Option Upstream)
    → AllClosed u
    → AllClosed (Option.map (socket_write outcome p) u)
AllClosed-write outcome p none h = h
AllClosed-write wrote p (some up) h = h
AllClosed-write (failed n text) p (some up) h = h

pub AllClosed-half : (u : Option Upstream) → AllClosed u → AllClosed (Option.map close_write u)
AllClosed-half none h = h
AllClosed-half (some up) h = h

module _ {o : Origin} where
  module _ {w : World} (h : IsTidyAs o w) where
    -- What changes neither the life, nor the destination, nor the removals.
    pub IsTidy-same :
        (w' : World)
        → w'.session.dead ≡ w.session.dead
        → w'.session.upstream ≡ w.session.upstream
        → removals w'.events ≡ removals w.events
        → w'.session.actor_id ≡ w.session.actor_id
        → w'.session.session_id ≡ w.session.session_id
        → w'.session.up_closed ≡ w.session.up_closed
        → IsTidyAs o w'
    IsTidy-same w' e f g same_owner same_number same_close = record {
      counted = ap (λ n. n + o.gone) g ∙ h.counted ∙ ap (λ b. if b then 1 else 0) (sym e);
      shut = λ dead. subst AllClosed (sym f) (h.shut (sym e ∙ dead));
      owned = same_owner ∙ h.owned;
      numbered = same_number ∙ h.numbered;
      untold = λ on. (same_close ∙ (h.untold on).0, subst WriteOpen (sym f) (h.untold on).1);
    }

  pub IsTidy-wake : (reason : Bytes) (w : World) → IsTidyAs o w → IsTidyAs o (wake reason w)
  unfolding wake
  IsTidy-wake reason w h =
      IsTidy-same h (record w { events = w.events ++ woke reason ∷ [] }) refl refl
        (removals-woke reason w.events) refl refl refl

  pub IsTidy-detach : (tc : ℕ) (w : World) → IsTidyAs o w → IsTidyAs o (detach tc w)
  unfolding detach
  IsTidy-detach tc w h =
      let unbound = record w { session = record w.session { tconn = none } } in
      let tidy = IsTidy-same h unbound refl refl refl refl refl refl in
      if-intro {A = World} (IsTidyAs o) (not (bound_to w.session.tconn tc)) (λ _. h)
        (λ _.
          if-intro {A = World} (IsTidyAs o) (undelivered w.session)
            (λ _. IsTidy-wake _ unbound tidy) (λ _. tidy))

  IsTidy-error :
      (tc : ℕ) (r : World × Option Error) → IsTidyAs o r.0 → IsTidyAs o (detach_on_error tc r)
  IsTidy-error tc (w, none) h = h
  IsTidy-error tc (w, some e) h = IsTidy-detach tc w h

  IsTidy-send_on :
      (t : Option ℕ) (f : Frame) (w : World) → IsTidyAs o w → IsTidyAs o (send_on t f w)
  unfolding write
  IsTidy-send_on none f w h = h
  IsTidy-send_on (some tc) f w h =
      IsTidy-error tc (write tc f w) (IsTidy-same h (write tc f w).0 refl refl refl refl refl refl)

  pub IsTidy-send : (f : Frame) (w : World) → IsTidyAs o w → IsTidyAs o (send_to_sidecar f w)
  unfolding send_to_sidecar
  IsTidy-send f w h = IsTidy-send_on w.session.tconn f w h

  pub IsTidy-send_all : (fs : List Frame) (w : World) → IsTidyAs o w → IsTidyAs o (send_all fs w)
  unfolding send_all
  IsTidy-send_all [] w h = h
  IsTidy-send_all (f ∷ fs) w h = IsTidy-send_all fs (send_to_sidecar f w) (IsTidy-send f w h)

  pub IsTidy-destroy : (w : World) → IsTidyAs o w → IsTidyAs o (destroy w)
  unfolding destroy
  IsTidy-destroy w h =
      if-intro {A = World} (IsTidyAs o) w.session.dead (λ _. h)
        (λ alive. record {
          counted =
              counted_once o.gone (removals-removed w.events)
                (h.counted ∙ ap (λ b. if b then 1 else 0) alive);
          shut = λ _. AllClosed-close w.session.upstream;
          owned = h.owned;
          numbered = h.numbered;
          untold = λ on. ((h.untold on).0, WriteOpen-close w.session.upstream (h.untold on).1);
        })

  pub IsTidy-maybe_destroy : (w : World) → IsTidyAs o w → IsTidyAs o (maybe_destroy w)
  unfolding maybe_destroy
  IsTidy-maybe_destroy w h =
      if-intro {A = World} (IsTidyAs o)
        (w.session.up_closed && w.session.down_closed && (length w.session.down_buf.buf == 0))
        (λ _. IsTidy-destroy w h) (λ _. h)

  IsTidy-announce : (cause : Cause) (w : World) → IsTidyAs o w → IsTidyAs o (announce_close cause w)
  unfolding announce_close
  IsTidy-announce cause w h =
      if-intro {A = World} (IsTidyAs o) (is_bound w.session.tconn) (λ _. IsTidy-send _ w h)
        (λ _.
          if-intro {A = World} (IsTidyAs o) w.session.request_outstanding (λ _. IsTidy-wake _ w h)
            (λ _. h))

  pub IsTidy-close_upstream :
      (cause : Cause) (w : World) → IsTidyAs o w → IsTidyAs o (close_upstream cause w)
  unfolding close_upstream
  IsTidy-close_upstream cause w h =
      let closed = record w { session = record w.session { down_closed = true } } in
      if-intro {A = World} (IsTidyAs o) w.session.down_closed (λ _. h)
        (λ _.
          IsTidy-maybe_destroy _
            (IsTidy-announce cause closed (IsTidy-same h closed refl refl refl refl refl refl)))
