-- ===== src/Resume/Upward.antt =====
-- After a reconnect: the agent's bytes that the destination does not have yet.
use substrate_poc.Prelude.{
  ℕ, ◌+◌, ◌≤◌, ◌≡◌, refl, sym, ap, subst, ◌∙◌, true, false, List, [], ◌∷◌, arith, length, drop,
  length-drop, All, Bytes, ok, IsSlice, IsSlice-rest,
}
use substrate_poc.Tunnel.Frame.{max_payload, Frame}
use substrate_poc.Tunnel.Buffer
use substrate_poc.Tunnel.Buffer.Stream.{Holds, trim_to-base, Holds-trim_to, from_lem}
use substrate_poc.Broker.Session.State.{World}
use substrate_poc.Broker.Session.Uplink.ExactlyOnce.{Uplinked}
use substrate_poc.Broker.Session.Uplink.Completion.{HasAll, HasAll-old, on_data_completes}
use substrate_poc.Sidecar.Session.{Side, data_up, resend, on_attach_ok}
use substrate_poc.Resume.{data_frames, send_each, trimmed, IsSendable}

-- What the sidecar sends when the broker has written `written` bytes of `u`.
abbrev missing : ℕ → Bytes → ℕ → List Frame
missing session_id [] written = []
missing session_id (x ∷ xs) written = data_up session_id written (x ∷ xs) ∷ []

resend_lem :
    (offset : ℕ) (bs : Bytes) (v : Side)
    → resend offset (ok bs) v ≡ send_each (missing v.session.session_id bs offset) v
resend_lem offset [] v = refl
resend_lem offset (x ∷ xs) v = refl

from-trimmed :
    (u : Bytes) (written : ℕ) (v : Side)
    → Holds v.session.up_buf u
    → v.session.up_buf.base ≤ written
    → written ≤ length u
    → Buffer.from (Buffer.trim_to v.session.up_buf written) written ≡ ok (drop written u)
from-trimmed u written v h lo hi =
    let base : (Buffer.trim_to v.session.up_buf written).base ≡ written =
      trim_to-base h written ∙ omega arith in
    from_lem (Holds-trim_to h written) written ∙ ground (arith, base)

on_attach_ok_lem :
    (u : Bytes) (written : ℕ) (v : Side)
    → Holds v.session.up_buf u
    → v.session.up_buf.base ≤ written
    → written ≤ length u
    → on_attach_ok written v
      ≡ send_each (missing v.session.session_id (drop written u) written) (trimmed written v)
unfolding on_attach_ok
on_attach_ok_lem u written v h lo hi =
    ap (λ r. resend written r (trimmed written v)) (from-trimmed u written v h lo hi)
    ∙ resend_lem written (drop written u) (trimmed written v)

data_frames-missing :
    (now : ℕ) (session_id : ℕ) (u bs : Bytes) (w : World)
    → w.session.dead ≡ false
    → w.session.connected ≡ true
    → Uplinked w.session u
    → bs ≡ drop w.session.upstream_written u
    → HasAll u (data_frames now (missing session_id bs w.session.upstream_written) w)
data_frames-missing now session_id u [] w alive on h e =
    HasAll-old w u on h (omega (arith, ap length e, length-drop w.session.upstream_written u))
data_frames-missing now session_id u (x ∷ xs) w alive on h e =
    let (up, have, le, front) = h.after on in
    on_data_completes now w.session.upstream_written (x ∷ xs) w u alive on h
      (subst (IsSlice u w.session.upstream_written) (sym e)
        (IsSlice-rest u w.session.upstream_written le))
      (omega arith) (omega (arith, ap length e, length-drop w.session.upstream_written u, le))

written-within :
    (w : World) (u : Bytes)
    → w.session.connected ≡ true
    → Uplinked w.session u
    → w.session.upstream_written ≤ length u
written-within w u on h = let (up, have, le, front) = h.after on in le

missing-IsSendable :
    (session_id : ℕ) (bs : Bytes) (written : ℕ)
    → length bs ≤ max_payload
    → All IsSendable (missing session_id bs written)
missing-IsSendable session_id [] written h = tt
missing-IsSendable session_id (x ∷ xs) written h = (h, tt)

-- The agent has sent `u`, of which the broker has written a front to the destination, and the sidecar has
-- trimmed no more than that. When the tunnel is back and the broker's ATTACH_OK, which carries the count of
-- bytes written, reaches the sidecar, the frames that the sidecar sends in return, none of them too long
-- to send, bring the destination the whole of `u`. No more of `u` is missing than one DATA frame holds.
-- The broker's session is alive and its dial done, and its write goes well.
pub on_attach_ok-resumes :
    (now : ℕ) (u : Bytes) (w : World) (v : Side)
    → w.session.dead ≡ false
    → w.session.connected ≡ true
    → Uplinked w.session u
    → Holds v.session.up_buf u
    → v.session.up_buf.base ≤ w.session.upstream_written
    → length u ≤ w.session.upstream_written + max_payload
    → (fs : List Frame) × (on_attach_ok w.session.upstream_written v
        ≡ send_each fs (trimmed w.session.upstream_written v))
      × All IsSendable fs
      × HasAll u (data_frames now fs w)
on_attach_ok-resumes now u w v alive on h held lo fits =
    let written = w.session.upstream_written in
    (
      missing v.session.session_id (drop written u) written,
      on_attach_ok_lem u written v held lo (written-within w u on h),
      missing-IsSendable v.session.session_id (drop written u) written
          (omega (arith, length-drop written u)),
      data_frames-missing now v.session.session_id u (drop written u) w alive on h refl,
    )
