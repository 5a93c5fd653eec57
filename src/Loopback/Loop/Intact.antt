-- ===== src/Loopback/Loop/Intact.antt =====
-- demos/loopback-survival: on a connection that loses nothing, no check fails, whatever is held back.
use substrate_poc.Prelude.{
  ℕ, suc, ◌+◌, ◌%◌, ◌^◌, ◌≤◌, ◌<◌, ◌≡◌, refl, sym, ap, subst, ◌∙◌, inl, inr, true, false, not, ◌&&◌,
  Option, none, some, [], map, arith, ◌==◌, ==_iff, Bool-cases, length, Bytes, u64_mod, if-intro,
}
use substrate_poc.Loopback.Server.{ServerStats, PendingAck, count_frame}
use substrate_poc.Loopback.Client.{
  Expected, Stream, pending_at, set_pending, delete_pending, count_sent, check_order, check_crc,
  check_bytes, fail_loopback, forget_pending, check_pending, take_ack_frame,
}
use substrate_poc.Loopback.Loop.{Loop}
use substrate_poc.Loopback.Loop.History.{
  seqs, concat_map, pending_at-set_pending, pending_at-set_pending_other, pending_at-delete_pending,
  payload, crc_to, bytes_to, ack_for, expected, frame_for, ack_bytes, IsCrc, crc_to-narrow,
}

module _ (update : ℕ → Bytes → ℕ) (size : ℕ) where
  -- The server has counted the first `read` frames.
  pub record Counted (read : ℕ) (st : ServerStats) : Type 0 where
    pub frames : st.frames_received ≡ read
    pub last : st.last_seq_received ≡ read
    pub bytes : st.bytes_received ≡ bytes_to update size read
    pub crc : st.running_crc ≡ crc_to update size read
    pub no_seq : st.seq_violations ≡ 0
    pub no_crc : st.crc_violations ≡ 0

  -- The client has sent the first `sent` frames, and got the acks of the first `acked`.
  pub record Checked (sent acked : ℕ) (st : Stream) : Type 0 where
    pub bytes : st.bytes_sent ≡ bytes_to update size sent
    pub crc : st.send_running_crc ≡ crc_to update size sent
    pub last : st.last_seq_acked ≡ acked
    pub no_order : st.order_violations ≡ 0
    pub no_crc : st.crc_mismatches ≡ 0
    pub no_bytes : st.bytes_mismatches ≡ 0
    pub on : (at : ℕ) × (st.established ≡ some at)
    pub pending :
        (k : ℕ) → acked < k → k ≤ sent → pending_at k st.pending_crc ≡ some (expected update size k)

  -- The ack in the writer's hand is the next one.
  abbrev pub Hand : Option PendingAck → ℕ → ℕ → Type 0
  Hand none put taken = taken ≡ put
  Hand (some p) put taken = (p.ack ≡ ack_for update size (suc put)) × (taken ≡ suc put)

  -- Frames and acks stand in one line from the sender to the checks.
  pub record InStep (l : Loop) : Type 0 where
    pub acked : ℕ
    pub coming : ℕ
    pub taken : ℕ
    pub queued : ℕ
    pub read : ℕ
    pub left : ℕ
    pub to_client : l.to_client ≡ concat_map (ack_bytes update size) (seqs acked coming)
    pub hand : Hand l.serving.in_hand (acked + coming) taken
    pub queue :
        map (λ (p : PendingAck). p.ack) l.serving.acks
        ≡ map (ack_for update size) (seqs taken queued)
    pub reading : l.serving.reading ≡ true → read ≡ taken + queued
    pub behind : taken + queued ≤ read
    pub full : l.serving.reading ≡ false → 1024 < read
    pub to_server : l.to_server ≡ concat_map (frame_for update size) (seqs read left)
    pub seq : l.seq ≡ read + left
    pub small : l.seq < u64_mod
    pub flushed : l.serving.written ≡ []
    pub counted : Counted read l.serving.stats
    pub checked : Checked l.seq acked l.stream

  pub Checked-count_sent :
      (sent acked : ℕ) (st : Stream)
      → Checked sent acked st
      → acked ≤ sent
      → Checked (suc sent) acked (count_sent update (suc sent) (payload update size (suc sent)) st)
  unfolding count_sent
  Checked-count_sent sent acked st h le =
      let crc = ap (λ c. update c (payload update size (suc sent))) h.crc in
      let bytes = ap (λ b. (b + length (payload update size (suc sent))) % u64_mod) h.bytes in
      let want : Expected = record {
        crc = update st.send_running_crc (payload update size (suc sent));
        bytes = (st.bytes_sent + length (payload update size (suc sent))) % u64_mod;
      } in
      record {
        bytes = bytes;
        crc = crc;
        last = h.last;
        no_order = h.no_order;
        no_crc = h.no_crc;
        no_bytes = h.no_bytes;
        on = h.on;
        pending = λ k lo hi. elim (Bool-cases (k == suc sent)) [
          | inl same ↦
              let k_is : k ≡ suc sent = (==_iff k (suc sent)).0 same in
              subst
                (λ j.
                  pending_at j (set_pending (suc sent) want st.pending_crc)
                  ≡ some (expected update size j))
                (sym k_is)
                (pending_at-set_pending (suc sent) want st.pending_crc
                  ∙ ap some (
                      ap (λ c. record { crc = c; bytes = want.bytes }) crc
                      ∙ ap (λ b. record { crc = crc_to update size (suc sent); bytes = b }) bytes))
          | inr other ↦
              pending_at-set_pending_other k (suc sent) want st.pending_crc
                (λ e. absurd (ground arith))
              ∙ h.pending k lo (ground arith)
        ];
      }

  check_order_lem :
      (acked : ℕ) (st : Stream)
      → st.last_seq_acked ≡ acked
      → suc acked < u64_mod
      → check_order (suc acked) st ≡ st
  check_order_lem acked st last small =
      if-intro {A = Stream} (λ x. x ≡ st)
        (not (st.last_seq_acked == 0) && not (suc acked == (st.last_seq_acked + 1) % u64_mod))
        (λ bad. absurd (ground (arith, last))) (λ _. refl)

  check_crc_lem : (crc : ℕ) (st : Stream) → crc < 2 ^ 32 → check_crc crc crc st ≡ st
  check_crc_lem crc st narrow =
      if-intro {A = Stream} (λ x. x ≡ st) (crc % 2 ^ 32 == crc) (λ _. refl)
        (λ bad. absurd (ground arith))

  check_bytes_lem : (bytes : ℕ) (st : Stream) → check_bytes bytes bytes st ≡ st
  check_bytes_lem bytes st =
      if-intro {A = Stream} (λ x. x ≡ st) (bytes == bytes) (λ _. refl)
        (λ bad. absurd (ground arith))

  -- A failure of the connection leaves the counts alone.
  pub Checked-fail_loopback :
      (sent acked : ℕ) (phase text : Bytes) (st : Stream)
      → Checked sent acked st
      → Checked sent acked (fail_loopback phase text st)
  unfolding fail_loopback
  Checked-fail_loopback sent acked phase text st h =
      if-intro {A = Stream} (Checked sent acked) st.loopback_broken (λ _. h)
        (λ _. record {
          bytes = h.bytes;
          crc = h.crc;
          last = h.last;
          no_order = h.no_order;
          no_crc = h.no_crc;
          no_bytes = h.no_bytes;
          on = h.on;
          pending = h.pending;
        })

  -- What an ack that is right does.
  right_ack : ℕ → Stream → Stream
  right_ack seq st = record st {
    acks_received = (st.acks_received + 1) % u64_mod;
    last_seq_acked = seq;
    pending_crc = delete_pending seq st.pending_crc;
  }

  take_ack_frame_lem :
      (sent acked : ℕ) (st : Stream)
      → IsCrc update size
      → Checked sent acked st
      → acked < sent
      → sent < u64_mod
      → take_ack_frame (ack_for update size (suc acked)) st ≡ right_ack (suc acked) st
  unfolding take_ack_frame right_ack
  take_ack_frame_lem sent acked st crc32 h lt small =
      let seq = suc acked in
      let a = ack_for update size seq in
      let st₁ = record st { acks_received = (st.acks_received + 1) % u64_mod } in
      let st₂ = record st₁ { last_seq_acked = seq } in
      ap
        (λ (x : Stream).
          check_pending a (pending_at seq st.pending_crc) (record x { last_seq_acked = seq }))
        (check_order_lem acked st₁ h.last (omega arith))
      ∙ ap (λ o. check_pending a o st₂) (h.pending seq (omega arith) lt)
      ∙ ap (λ (x : Stream). forget_pending seq (check_bytes a.total_bytes a.total_bytes x))
          (check_crc_lem (crc_to update size seq) st₂ (crc_to-narrow update size crc32 seq))
      ∙ ap (forget_pending seq) (check_bytes_lem (bytes_to update size seq) st₂)

  pub Checked-take_ack_frame :
      (sent acked : ℕ) (st : Stream)
      → IsCrc update size
      → Checked sent acked st
      → acked < sent
      → sent < u64_mod
      → Checked sent (suc acked) (take_ack_frame (ack_for update size (suc acked)) st)
  unfolding right_ack
  Checked-take_ack_frame sent acked st crc32 h lt small =
      subst (Checked sent (suc acked)) (sym (take_ack_frame_lem sent acked st crc32 h lt small))
        (record {
          bytes = h.bytes;
          crc = h.crc;
          last = refl;
          no_order = h.no_order;
          no_crc = h.no_crc;
          no_bytes = h.no_bytes;
          on = h.on;
          pending = λ k lo hi.
              pending_at-delete_pending k (suc acked) st.pending_crc (λ e. absurd (omega arith))
              ∙ h.pending k (omega arith) hi;
        })

  pub Counted-count_frame :
      (read : ℕ) (st : ServerStats)
      → suc read < u64_mod
      → Counted read st
      → Counted (suc read) (count_frame update (suc read) (payload update size (suc read)) st)
  unfolding count_frame
  Counted-count_frame read st small h = record {
    frames = omega (arith, h.frames);
    last = refl;
    bytes = ap (λ b. (b + length (payload update size (suc read))) % u64_mod) h.bytes;
    crc = ap (λ c. update c (payload update size (suc read))) h.crc;
    no_seq = ground (arith, h.frames, h.last, h.no_seq);
    no_crc = h.no_crc;
  }
