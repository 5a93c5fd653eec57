-- ===== src/System/Acks.antt =====
-- internal/sidecar/session.go in a run of the whole: it forgets no more than is acknowledged.
use substrate_poc.Prelude.{
  ℕ, ◌≤◌, ◌≡◌, refl, ap, Option, none, some, [], ◌∷◌, arith, ◌==◌, Bytes, Result, ok, err, if-intro,
}
use substrate_poc.Tunnel.Frame.{
  FrameType, dir_down, Frame, hello, open_frame, attach, attach_ok, data_frame, ack, close, ping,
  pong, unknown,
}
use substrate_poc.Tunnel.Buffer
use substrate_poc.Tunnel.Buffer.{ReplayBuffer}
use substrate_poc.Tunnel.Buffer.Stream.{Holds, trim_to-base}
use substrate_poc.Sidecar.Session.{
  Side, send, on_frame, on_attach_ok, deliver_down, deliver_accept, resend, deliver_write,
  deliver_written, close_all, on_upstream_ack, on_close,
}

-- The base of the sidecar's buffer stays within what is acknowledged.
trim_to-within :
    {u : Bytes} (b : ReplayBuffer) (offset n : ℕ)
    → Holds b u
    → offset ≤ n
    → b.base ≤ n
    → (Buffer.trim_to b offset).base ≤ n
trim_to-within b offset n h lo hi = omega (arith, trim_to-base h offset)

resend-up_buf :
    (offset : ℕ) (r : Result Bytes) (v : Side)
    → (resend offset r v).session.up_buf ≡ v.session.up_buf
unfolding send
resend-up_buf offset (err e) v = refl
resend-up_buf offset (ok []) v = refl
resend-up_buf offset (ok (x ∷ xs)) v = refl

deliver_write-up_buf :
    (fault : Option ℕ) (o : Option Bytes) (v : Side)
    → (deliver_write fault o v).session.up_buf ≡ v.session.up_buf
unfolding deliver_write deliver_written close_all send
deliver_write-up_buf fault none v = refl
deliver_write-up_buf none (some p) v = refl
deliver_write-up_buf (some n) (some p) v =
    if-intro {A = Side} (λ v'. v'.session.up_buf ≡ v.session.up_buf) v.session.dead (λ _. refl)
      (λ _. refl)

on_close-up_buf : (dir : ℕ) (v : Side) → (on_close dir v).session.up_buf ≡ v.session.up_buf
unfolding on_close close_all
on_close-up_buf dir v =
    let P = λ (v' : Side). v'.session.up_buf ≡ v.session.up_buf in
    if-intro {A = Side} P (dir == dir_down)
      (λ _.
        if-intro {A = Side} P v.session.agent.can_half_close (λ _. refl)
          (λ _. if-intro {A = Side} P v.session.dead (λ _. refl) (λ _. refl)))
      (λ _. refl)

pub on_frame-within :
    {u : Bytes} (fault : Option ℕ) (t : FrameType) (f : Frame) (v : Side) (n : ℕ)
    → Holds v.session.up_buf u
    → f.typ ≡ t
    → (t ≡ ack → f.offset ≤ n)
    → (t ≡ attach_ok → f.offset ≤ n)
    → v.session.up_buf.base ≤ n
    → (on_frame fault f v).session.up_buf.base ≤ n
unfolding on_frame on_attach_ok on_upstream_ack deliver_down
on_frame-within fault attach_ok f v n h e acks oks le =
    let trimmed = Buffer.trim_to v.session.up_buf f.offset in
    rw e (
      omega (
        arith,
        ap (λ (b : ReplayBuffer). b.base)
            (resend-up_buf f.offset (Buffer.from trimmed f.offset)
              (record v { session = record v.session { up_buf = trimmed } })),
        trim_to-within v.session.up_buf f.offset n h (oks refl) le,
      ))
on_frame-within fault data_frame f v n h e acks oks le = rw e (
    omega (
      arith,
      le,
      ap (λ (b : ReplayBuffer). b.base)
          (deliver_write-up_buf fault (deliver_accept f.offset f.payload v) v),
    ))
on_frame-within fault ack f v n h e acks oks le =
    rw e (trim_to-within v.session.up_buf f.offset n h (acks refl) le)
on_frame-within fault close f v n h e acks oks le =
    rw e (omega (arith, le, ap (λ (b : ReplayBuffer). b.base) (on_close-up_buf f.dir v)))
on_frame-within fault hello f v n h e acks oks le = rw e le
on_frame-within fault open_frame f v n h e acks oks le = rw e le
on_frame-within fault attach f v n h e acks oks le = rw e le
on_frame-within fault ping f v n h e acks oks le = rw e le
on_frame-within fault pong f v n h e acks oks le = rw e le
on_frame-within fault (unknown k) f v n h e acks oks le = rw e le
