-- ===== src/Loopback/Loop/Steps.antt =====
-- demos/loopback-survival: each turn of the client and of the server keeps frames and acks in line.
use substrate_poc.Prelude.{
  ℕ, zero, suc, ◌+◌, ◌%◌, ◌≤◌, ◌<◌, ◌≡◌, refl, sym, ap, subst, ◌∙◌, true, Option, none, some, List,
  [], ◌∷◌, ◌++◌, map, append-nil, arith, ltb, length, Bytes, u64_mod, ok, if-intro, ok-injective,
}
use substrate_poc.Tunnel.Wire.Integers.{get_be}
use substrate_poc.Loopback.{Datum, read_data, AckFrame, write_ack, read_ack}
use substrate_poc.Loopback.Server.{
  PendingAck, ack_queue, Serving, accept_conn, count_frame, enqueue_ack, pending_ack, take_frame,
  take_next, take_ack, put_held, put_ack,
}
use substrate_poc.Loopback.Client.{new_stream, establish, count_sent, send_frame, take_ack_frame}
use substrate_poc.Loopback.Loop.{Loop, sender_of, after_send, carry_acks, fails_with, first_loop}
use substrate_poc.Loopback.Loop.History.{
  seqs, seqs-snoc, concat_map, concat_map-snoc, payload, bytes_to, ack_for, frame_for, ack_bytes,
  IsCrc, read_frame_for, read_ack_bytes,
}
use substrate_poc.Loopback.Loop.Intact.{
  Counted, Checked, Hand, InStep, Checked-count_sent, Checked-fail_loopback, Checked-take_ack_frame,
  Counted-count_frame,
}

length-map : {A B : Type 0} (f : A → B) (xs : List A) → length (map f xs) ≡ length xs
length-map f [] = refl
length-map f (x ∷ xs) = ap suc (length-map f xs)

length-seqs : (from n : ℕ) → length (seqs from n) ≡ n
length-seqs from zero = refl
length-seqs from (suc n) = ap suc (length-seqs (suc from) n)

map-snoc :
    {A B : Type 0} (f : A → B) (xs : List A) (x : A) → map f (xs ++ x ∷ []) ≡ map f xs ++ f x ∷ []
map-snoc f [] x = refl
map-snoc f (y ∷ xs) x = ap (◌∷◌ (f y)) (map-snoc f xs x)

module _ (update : ℕ → Bytes → ℕ) (size : ℕ) (crc32 : IsCrc update size) where
  -- The next frame on the connection, if one is read there.
  read_next :
      (read left : ℕ) (d : Datum) (rest : Bytes)
      → read + left < u64_mod
      → read_data (update 0) (concat_map (frame_for update size) (seqs read left)) ≡ ok (d, rest)
      → (left' : ℕ) × (left ≡ suc left')
        × (d ≡ record { seq = suc read; payload = payload update size (suc read); intact = true })
        × (rest ≡ concat_map (frame_for update size) (seqs (suc read) left'))
  unfolding read_data get_be
  read_next read zero d rest small e = absurd cc
  read_next read (suc left) d rest small e =
      let both = ok-injective (
        sym (
          read_frame_for update size crc32 (suc read)
            (concat_map (frame_for update size) (seqs (suc read) left)) (omega arith))
        ∙ e) in
      (
        left,
        refl,
        sym (ap (λ (x : Datum × Bytes). x.0) both),
        sym (ap (λ (x : Datum × Bytes). x.1) both),
      )

  read_next_ack :
      (acked coming : ℕ) (a : AckFrame) (rest : Bytes)
      → acked + coming < u64_mod
      → read_ack (concat_map (ack_bytes update size) (seqs acked coming)) ≡ ok (a, rest)
      → (coming' : ℕ) × (coming ≡ suc coming')
        × (a ≡ ack_for update size (suc acked))
        × (rest ≡ concat_map (ack_bytes update size) (seqs (suc acked) coming'))
  unfolding read_ack get_be
  read_next_ack acked zero a rest small e = absurd cc
  read_next_ack acked (suc coming) a rest small e =
      let both = ok-injective (
        sym (
          read_ack_bytes update size crc32 (suc acked)
            (concat_map (ack_bytes update size) (seqs (suc acked) coming)) (omega arith))
        ∙ e) in
      (
        coming,
        refl,
        sym (ap (λ (x : AckFrame × Bytes). x.0) both),
        sym (ap (λ (x : AckFrame × Bytes). x.1) both),
      )

  -- One more of a line of numbers.
  line_grows :
      (f : ℕ → Bytes) (bs : Bytes) (a count n : ℕ)
      → bs ≡ concat_map f (seqs a count)
      → n ≡ suc (a + count)
      → bs ++ f n ≡ concat_map f (seqs a (suc count))
  line_grows f bs a count n e same =
      ap (λ t. t ++ f n) e
      ∙ ap (λ k. concat_map f (seqs a count) ++ f k) same
      ∙ sym (
          ap (concat_map f) (seqs-snoc a count)
          ∙ concat_map-snoc f (seqs a count) (suc (a + count)))

  put_within_taken :
      (o : Option PendingAck) (put taken : ℕ) → Hand update size o put taken → put ≤ taken
  put_within_taken none put taken h = omega (arith, h)
  put_within_taken (some p) put taken h = omega (arith, h.1)

  acked_order : (l : Loop) (h : InStep update size l) → h.acked + h.coming ≤ h.read
  acked_order l h =
      omega
        (arith, put_within_taken l.serving.in_hand (h.acked + h.coming) h.taken h.hand, h.behind)

  send_frame_lem :
      (l : Loop)
      → l.seq + 1 < u64_mod
      → after_send (send_frame update size (sender_of l)) l ≡ record l {
        stream = count_sent update (suc l.seq) (payload update size (suc l.seq)) l.stream;
        seq = suc l.seq;
        to_server = l.to_server ++ frame_for update size (suc l.seq);
      }
  unfolding send_frame
  send_frame_lem l small =
      ap
        (λ n. record l {
          stream = count_sent update n (payload update size n) l.stream;
          seq = n;
          to_server = l.to_server ++ frame_for update size n;
        })
        (let e : (l.seq + 1) % u64_mod ≡ suc l.seq = omega arith in e)

  pub InStep-client_sends :
      (l : Loop)
      → l.seq + 1 < u64_mod
      → InStep update size l
      → InStep update size (after_send (send_frame update size (sender_of l)) l)
  InStep-client_sends l small h =
      subst (InStep update size) (sym (send_frame_lem l small)) (record {
        acked = h.acked;
        coming = h.coming;
        taken = h.taken;
        queued = h.queued;
        read = h.read;
        left = suc h.left;
        to_client = h.to_client;
        hand = h.hand;
        queue = h.queue;
        reading = h.reading;
        behind = h.behind;
        full = h.full;
        to_server =
            line_grows (frame_for update size) l.to_server h.read h.left (suc l.seq) h.to_server
              (ap suc h.seq);
        seq = omega (arith, h.seq);
        small = omega arith;
        flushed = h.flushed;
        counted = h.counted;
        checked =
            Checked-count_sent update size l.seq h.acked l.stream h.checked
              (omega (arith, acked_order l h, h.seq));
      })

  pub InStep-client_reads :
      (l : Loop) (a : AckFrame) (rest : Bytes)
      → read_ack l.to_client ≡ ok (a, rest)
      → InStep update size l
      → InStep update size (record l { stream = take_ack_frame a l.stream; to_client = rest })
  InStep-client_reads l a rest e h =
      let (coming, some_come, is, behind) =
        read_next_ack h.acked h.coming a rest (omega (arith, acked_order l h, h.seq, h.small))
          (ap read_ack (sym h.to_client) ∙ e) in
      let there : suc h.acked + coming ≡ h.acked + h.coming = omega (arith, some_come) in
      record {
        acked = suc h.acked;
        coming = coming;
        taken = h.taken;
        queued = h.queued;
        read = h.read;
        left = h.left;
        to_client = behind;
        hand = subst (λ n. Hand update size l.serving.in_hand n h.taken) (sym there) h.hand;
        queue = h.queue;
        reading = h.reading;
        behind = h.behind;
        full = h.full;
        to_server = h.to_server;
        seq = h.seq;
        small = h.small;
        flushed = h.flushed;
        counted = h.counted;
        checked =
            subst (λ a. Checked update size l.seq (suc h.acked) (take_ack_frame a l.stream))
              (sym is)
              (Checked-take_ack_frame update size l.seq h.acked l.stream crc32 h.checked
                (omega (arith, acked_order l h, h.seq, some_come)) h.small);
      }

  queue_length : (l : Loop) (h : InStep update size l) → length l.serving.acks ≡ h.queued
  queue_length l h =
      sym (length-map (λ (p : PendingAck). p.ack) l.serving.acks)
      ∙ ap length h.queue
      ∙ length-map (ack_for update size) (seqs h.taken h.queued)
      ∙ length-seqs h.taken h.queued

  -- The connection has failed.
  pub InStep-fails_with :
      (phase text : Bytes) (l : Loop)
      → InStep update size l
      → InStep update size (fails_with phase text l)
  InStep-fails_with phase text l h = record {
    acked = h.acked;
    coming = h.coming;
    taken = h.taken;
    queued = h.queued;
    read = h.read;
    left = h.left;
    to_client = h.to_client;
    hand = h.hand;
    queue = h.queue;
    reading = h.reading;
    behind = h.behind;
    full = h.full;
    to_server = h.to_server;
    seq = h.seq;
    small = h.small;
    flushed = h.flushed;
    counted = h.counted;
    checked = Checked-fail_loopback update size l.seq h.acked phase text l.stream h.checked;
  }

  -- The frame is counted, and its ack stands in the queue if there is room, or the reader has ended.
  InStep-enqueue_ack :
      (l : Loop) (rest : Bytes) (left not_before : ℕ) (h : InStep update size l)
      → l.serving.reading ≡ true
      → h.left ≡ suc left
      → rest ≡ concat_map (frame_for update size) (seqs (suc h.read) left)
      → (let st =
            count_frame update (suc h.read) (payload update size (suc h.read)) l.serving.stats in
          InStep update size (record l {
            serving =
                enqueue_ack
                  (pending_ack (suc h.read) not_before st)
                  (record l.serving { stats = st });
            to_server = rest;
          }))
  unfolding enqueue_ack
  InStep-enqueue_ack l rest left not_before h reading some_left behind =
      let st = count_frame update (suc h.read) (payload update size (suc h.read)) l.serving.stats in
      let a = pending_ack (suc h.read) not_before st in
      let counted : Counted update size (suc h.read) st =
        Counted-count_frame update size h.read l.serving.stats
          (omega (arith, h.seq, h.small, some_left)) h.counted in
      let all_queued = h.reading reading in
      if-intro {A = Serving} (λ s. InStep update size (record l { serving = s; to_server = rest }))
        (ltb (length l.serving.acks) ack_queue)
        (λ room. record {
          acked = h.acked;
          coming = h.coming;
          taken = h.taken;
          queued = suc h.queued;
          read = suc h.read;
          left = left;
          to_client = h.to_client;
          hand = h.hand;
          queue =
              map-snoc (λ (p : PendingAck). p.ack) l.serving.acks a
              ∙ ap (λ line. line ++ a.ack ∷ []) h.queue
              ∙ ap (λ b. map (ack_for update size) (seqs h.taken h.queued) ++ b ∷ [])
                  (ap
                      (λ (t : ℕ). record {
                        ack_seq = suc h.read;
                        total_bytes = t;
                        running_crc = st.running_crc;
                      })
                      counted.bytes
                    ∙ ap
                        (λ (c : ℕ). record {
                          ack_seq = suc h.read;
                          total_bytes = bytes_to update size (suc h.read);
                          running_crc = c;
                        })
                        counted.crc
                    ∙ ap (λ k. ack_for update size (suc k)) all_queued)
              ∙ sym (
                  ap (map (ack_for update size)) (seqs-snoc h.taken h.queued)
                  ∙ map-snoc (ack_for update size) (seqs h.taken h.queued)
                      (suc (h.taken + h.queued)));
          reading = λ _. omega (arith, all_queued);
          behind = omega (arith, all_queued);
          full = λ off. absurd cc;
          to_server = behind;
          seq = omega (arith, h.seq, some_left);
          small = h.small;
          flushed = h.flushed;
          counted = counted;
          checked = h.checked;
        })
        (λ full.
          let overfull : 1024 < suc h.read = ground (arith, queue_length l h, h.behind) in
          record {
            acked = h.acked;
            coming = h.coming;
            taken = h.taken;
            queued = h.queued;
            read = suc h.read;
            left = left;
            to_client = h.to_client;
            hand = h.hand;
            queue = h.queue;
            reading = λ on. absurd cc;
            behind = omega (arith, h.behind);
            full = λ _. overfull;
            to_server = behind;
            seq = omega (arith, h.seq, some_left);
            small = h.small;
            flushed = h.flushed;
            counted = counted;
            checked = h.checked;
          })

  pub InStep-server_reads :
      (delay now : ℕ) (l : Loop) (d : Datum) (rest : Bytes)
      → l.serving.reading ≡ true
      → read_data (update 0) l.to_server ≡ ok (d, rest)
      → InStep update size l
      → InStep update size
          (record l { serving = take_frame update delay now d l.serving; to_server = rest })
  unfolding take_frame
  InStep-server_reads delay now l d rest reading e h =
      let (left, some_left, is, behind) =
        read_next h.read h.left d rest (omega (arith, h.seq, h.small))
          (ap (read_data (update 0)) (sym h.to_server) ∙ e) in
      subst
        (λ d.
          InStep update size
            (record l { serving = take_frame update delay now d l.serving; to_server = rest }))
        (sym is) (InStep-enqueue_ack l rest left (now + delay) h reading some_left behind)

  -- The head of the queue is the next ack.
  queue_next :
      (a : PendingAck) (rest : List PendingAck) (taken queued : ℕ)
      → map (λ (p : PendingAck). p.ack) (a ∷ rest) ≡ map (ack_for update size) (seqs taken queued)
      → (queued' : ℕ) × (queued ≡ suc queued')
        × (a.ack ≡ ack_for update size (suc taken))
        × (map (λ (p : PendingAck). p.ack) rest
            ≡ map (ack_for update size) (seqs (suc taken) queued'))
  queue_next a rest taken zero e = absurd cc
  queue_next a rest taken (suc queued) e = (queued, refl, cc, cc)

  InStep-take_next :
      (o : Option PendingAck) (acks : List PendingAck) (l : Loop) (h : InStep update size l)
      → o ≡ l.serving.in_hand
      → acks ≡ l.serving.acks
      → InStep update size (record l { serving = take_next o acks l.serving })
  InStep-take_next (some held) acks l h hand queue = h
  InStep-take_next none [] l h hand queue = h
  InStep-take_next none (a ∷ rest) l h hand queue =
      let (queued, some_queued, is, line) =
        queue_next a rest h.taken h.queued (ap (map (λ (p : PendingAck). p.ack)) queue ∙ h.queue) in
      let free : h.taken ≡ h.acked + h.coming =
        subst (λ o. Hand update size o (h.acked + h.coming) h.taken) (sym hand) h.hand in
      record {
        acked = h.acked;
        coming = h.coming;
        taken = suc h.taken;
        queued = queued;
        read = h.read;
        left = h.left;
        to_client = h.to_client;
        hand = (is ∙ ap (λ n. ack_for update size (suc n)) free, ap suc free);
        queue = line;
        reading = λ on. omega (arith, h.reading on, some_queued);
        behind = omega (arith, h.behind, some_queued);
        full = h.full;
        to_server = h.to_server;
        seq = h.seq;
        small = h.small;
        flushed = h.flushed;
        counted = h.counted;
        checked = h.checked;
      }

  pub InStep-writer_takes :
      (l : Loop)
      → InStep update size l
      → InStep update size (record l { serving = take_ack l.serving })
  unfolding take_ack
  InStep-writer_takes l h = InStep-take_next l.serving.in_hand l.serving.acks l h refl refl

  -- Nothing was put on the connection.
  InStep-carried : (l : Loop) (h : InStep update size l) → InStep update size (carry_acks l)
  InStep-carried l h = record {
    acked = h.acked;
    coming = h.coming;
    taken = h.taken;
    queued = h.queued;
    read = h.read;
    left = h.left;
    to_client = ap (λ t. l.to_client ++ t) h.flushed ∙ append-nil l.to_client ∙ h.to_client;
    hand = h.hand;
    queue = h.queue;
    reading = h.reading;
    behind = h.behind;
    full = h.full;
    to_server = h.to_server;
    seq = h.seq;
    small = h.small;
    flushed = refl;
    counted = h.counted;
    checked = h.checked;
  }

  InStep-put_held :
      (now : ℕ) (o : Option PendingAck) (l : Loop) (h : InStep update size l)
      → o ≡ l.serving.in_hand
      → InStep update size (carry_acks (record l { serving = put_held now o l.serving }))
  InStep-put_held now none l h hand = InStep-carried l h
  InStep-put_held now (some a) l h hand =
      if-intro {A = Serving} (λ s. InStep update size (carry_acks (record l { serving = s })))
        (ltb now a.not_before) (λ _. InStep-carried l h)
        (λ _.
          let (is, one) =
            subst (λ o. Hand update size o (h.acked + h.coming) h.taken) (sym hand) h.hand in
          record {
            acked = h.acked;
            coming = suc h.coming;
            taken = h.taken;
            queued = h.queued;
            read = h.read;
            left = h.left;
            to_client =
                ap (λ t. l.to_client ++ (t ++ write_ack a.ack)) h.flushed
                ∙ ap (λ k. l.to_client ++ write_ack k) is
                ∙ line_grows (ack_bytes update size) l.to_client h.acked h.coming
                    (suc (h.acked + h.coming)) h.to_client refl;
            hand = omega (arith, one);
            queue = h.queue;
            reading = h.reading;
            behind = h.behind;
            full = h.full;
            to_server = h.to_server;
            seq = h.seq;
            small = h.small;
            flushed = refl;
            counted = h.counted;
            checked = h.checked;
          })

  pub InStep-writer_puts :
      (now : ℕ) (l : Loop)
      → InStep update size l
      → InStep update size (carry_acks (record l { serving = put_ack now l.serving }))
  unfolding put_ack
  InStep-writer_puts now l h = InStep-put_held now l.serving.in_hand l h refl

  pub InStep-first_loop : (now : ℕ) → InStep update size (first_loop now)
  unfolding establish new_stream accept_conn
  InStep-first_loop now = record {
    acked = 0;
    coming = 0;
    taken = 0;
    queued = 0;
    read = 0;
    left = 0;
    to_client = refl;
    hand = refl;
    queue = refl;
    reading = λ on. refl;
    behind = omega arith;
    full = λ off. absurd cc;
    to_server = refl;
    seq = refl;
    small = omega arith;
    flushed = refl;
    counted = record {
      frames = refl;
      last = refl;
      bytes = refl;
      crc = refl;
      no_seq = refl;
      no_crc = refl;
    };
    checked = record {
      bytes = refl;
      crc = refl;
      last = refl;
      no_order = refl;
      no_crc = refl;
      no_bytes = refl;
      on = (now, refl);
      pending = λ k lo hi. absurd (omega arith);
    };
  }
