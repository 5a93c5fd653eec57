-- ===== src/Sidecar/Session/Told.antt =====
-- internal/sidecar/session.go: a session is taken off the client's table exactly when it dies.
use substrate_poc.Prelude.{
  ℕ, zero, suc, ◌≡◌, refl, subst, Bool, true, ◌||◌, Option, none, some, [], ◌∷◌, ◌==◌, length, take,
  drop, Bytes, Result, ok, err, >>=-eq-ok, if-intro, result-intro, ok-injective,
}
use substrate_poc.Tunnel.Frame.{
  FrameType, dir_down, Frame, hello, open_frame, attach, attach_ok, data_frame, ack, close, ping,
  pong, unknown,
}
use substrate_poc.Tunnel.Buffer
use substrate_poc.Tunnel.Buffer.{ReplayBuffer}
use substrate_poc.Sidecar.Session.{
  Side, send, data_up, Written, chunk_size, write_chunk, write_loop, write_up, on_upstream_ack,
  close_all, deliver_accept, agent_takes, deliver_written, deliver_write, deliver_down, resend,
  on_attach_ok, on_close, close_up, on_frame, refused,
}

-- A session with the number `id`, that was dead before (`was`) or not: it asked to be taken off the table
-- exactly if it died since.
pub record IsTold (id : ℕ) (was : Bool) (w : Side) : Type 0 where
  pub numbered : w.session.session_id ≡ id
  pub told : (w.removed || was) ≡ w.session.dead

module _ {id : ℕ} {was : Bool} where
  pub send-IsTold : (f : Frame) (w : Side) → IsTold id was w → IsTold id was (send f w)
  unfolding send
  send-IsTold f w h = record { numbered = h.numbered; told = h.told }

  IsTold-close_all : (w : Side) → IsTold id was w → IsTold id was (close_all w)
  unfolding close_all
  IsTold-close_all w h =
      let s = w.session in
      let shut = record w {
        session = record s { dead = true; agent = record s.agent { closed = true } };
        removed = true;
      } in
      let told_it : IsTold id was shut = record { numbered = h.numbered; told = refl } in
      if-intro {A = Side} (IsTold id was) w.session.dead (λ _. h) (λ _. told_it)

  IsTold-deliver_write :
      (fault : Option ℕ) (o : Option Bytes) (w : Side)
      → IsTold id was w
      → IsTold id was (deliver_write fault o w)
  unfolding deliver_write deliver_written
  IsTold-deliver_write fault none w h = h
  IsTold-deliver_write none (some p) w h =
      send-IsTold _ _ (record { numbered = h.numbered; told = h.told })
  IsTold-deliver_write (some n) (some p) w h =
      IsTold-close_all (agent_takes (take n p) w) (record { numbered = h.numbered; told = h.told })

  IsTold-resend :
      (offset : ℕ) (r : Result Bytes) (w : Side)
      → IsTold id was w
      → IsTold id was (resend offset r w)
  IsTold-resend offset (err e) w h = h
  IsTold-resend offset (ok []) w h = h
  IsTold-resend offset (ok (x ∷ xs)) w h = send-IsTold _ w h

  IsTold-on_close : (dir : ℕ) (w : Side) → IsTold id was w → IsTold id was (on_close dir w)
  unfolding on_close
  IsTold-on_close dir w h =
      let w' = record w { session = record w.session { down_closed = true } } in
      if-intro {A = Side} (IsTold id was) (dir == dir_down)
        (λ _.
          if-intro {A = Side} (IsTold id was) w.session.agent.can_half_close
            (λ _. record { numbered = h.numbered; told = h.told })
            (λ _. IsTold-close_all w' (record { numbered = h.numbered; told = h.told })))
        (λ _. h)

  frame-IsTold :
      (t : FrameType) (fault : Option ℕ) (f : Frame) (w : Side)
      → f.typ ≡ t
      → IsTold id was w
      → IsTold id was (on_frame fault f w)
  unfolding on_frame on_attach_ok deliver_down on_upstream_ack
  frame-IsTold attach_ok fault f w e h = rw e (
      let trimmed = Buffer.trim_to w.session.up_buf f.offset in
      IsTold-resend f.offset (Buffer.from trimmed f.offset)
        (record w { session = record w.session { up_buf = trimmed } })
        (record { numbered = h.numbered; told = h.told }))
  frame-IsTold data_frame fault f w e h =
      rw e (IsTold-deliver_write fault (deliver_accept f.offset f.payload w) w h)
  frame-IsTold ack fault f w e h = rw e (record { numbered = h.numbered; told = h.told })
  frame-IsTold close fault f w e h = rw e (IsTold-on_close f.dir w h)
  frame-IsTold hello fault f w e h = rw e h
  frame-IsTold open_frame fault f w e h = rw e h
  frame-IsTold attach fault f w e h = rw e h
  frame-IsTold ping fault f w e h = rw e h
  frame-IsTold pong fault f w e h = rw e h
  frame-IsTold (unknown n) fault f w e h = rw e h

  pub on_frame-IsTold :
      (fault : Option ℕ) (f : Frame) (w : Side)
      → IsTold id was w
      → IsTold id was (on_frame fault f w)
  on_frame-IsTold fault f w h = frame-IsTold f.typ fault f w refl h

  write_chunk-IsTold :
      (chunk : Bytes) (w : Side) {w' : Side}
      → IsTold id was w
      → write_chunk chunk w ≡ ok w'
      → IsTold id was w'
  unfolding write_chunk
  write_chunk-IsTold chunk w h e =
      let (buf, e₁, e₂) = >>=-eq-ok (Buffer.append w.session.up_buf chunk) _ e in
      subst (IsTold id was) (ok-injective e₂) (
        send-IsTold (data_up w.session.session_id (Buffer.end w.session.up_buf) chunk)
          (record w { session = record w.session { up_buf = buf } })
          (record { numbered = h.numbered; told = h.told }))

  write_loop-IsTold :
      (fuel : ℕ) (p : Bytes) (w : Side) → IsTold id was w → IsTold id was (write_loop fuel p w).0
  unfolding write_loop
  write_loop-IsTold zero p w h = h
  write_loop-IsTold (suc fuel) [] w h = h
  write_loop-IsTold (suc fuel) (x ∷ xs) w h =
      let p = x ∷ xs in
      if-intro {A = Side × Written} (λ r. IsTold id was r.0) w.session.dead (λ _. h)
        (λ _.
          if-intro {A = Side × Written} (λ r. IsTold id was r.0) (Buffer.free w.session.up_buf == 0)
            (λ _. h)
            (λ _.
              result-intro {A = Side}
                (λ c.
                  IsTold id was
                    (elim c as (λ _. Side × Written) [
                      | err e ↦ (w, refused e)
                      | ok w' ↦ write_loop fuel (drop (chunk_size w p) p) w'
                    ]).0)
                (write_chunk (take (chunk_size w p) p) w)
                (λ w' e.
                  write_loop-IsTold fuel (drop (chunk_size w p) p) w'
                    (write_chunk-IsTold (take (chunk_size w p) p) w h e))
                (λ _ _. h)))

  pub write_up-IsTold : (p : Bytes) (w : Side) → IsTold id was w → IsTold id was (write_up p w).0
  unfolding write_up
  write_up-IsTold p w h = write_loop-IsTold (suc (length p)) p w h

  pub close_up-IsTold :
      (reason : Bytes) (w : Side) → IsTold id was w → IsTold id was (close_up reason w)
  unfolding close_up
  close_up-IsTold reason w h =
      if-intro {A = Side} (IsTold id was) w.session.up_closed (λ _. h)
        (λ _. send-IsTold _ _ (record { numbered = h.numbered; told = h.told }))
