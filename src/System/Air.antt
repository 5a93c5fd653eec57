-- ===== src/System/Air.antt =====
-- internal/tunnel/wire.go, `Conn`: what every frame on a connection says, whatever became of the connection.
use substrate_poc.Prelude.{
  ℕ, zero, suc, ◌≡◌, refl, sym, ap, subst, ◌∙◌, ◌⊎◌, inl, inr, true, Option, List, [], ◌∷◌, ◌++◌,
  append-nil, append_assoc, All, All-append, Bytes, Error, Result, ok, if-intro, ok-injective,
}
use substrate_poc.Tunnel.Frame.{Frame}
use substrate_poc.Tunnel.Conn.{Conn, new_conn, close_conn, flush, after_encode, write_frame}
use substrate_poc.Tunnel.Conn.Delivery.{FrameFits, encodings}
use substrate_poc.Tunnel.Wire.{encode_frame, decode_frame, read_byte}
use substrate_poc.Tunnel.Wire.RoundTrip.{carried, decode_frame-encode_frame}
use substrate_poc.System.{nth_frame}

-- The socket took whole frames that fit, and `P` holds of each. What a writer holds back never follows them:
-- it has failed then.
pub record Carries (P : Frame → Type 0) (c : Conn) : Type 0 where
  pub frames : List Frame
  pub fit : All FrameFits frames
  pub mean : All P frames
  pub sent : c.sent ≡ encodings frames
  pub held : (c.failed ≡ true) ⊎ (c.buffered ≡ [])

encodings-append : (fs gs : List Frame) → encodings (fs ++ gs) ≡ encodings fs ++ encodings gs
encodings-append [] gs = refl
encodings-append (f ∷ fs) gs =
    ap (λ t. (encode_frame f).0 ++ t) (encodings-append fs gs)
    ∙ sym (append_assoc (encode_frame f).0 (encodings fs) (encodings gs))

All-mono :
    {P Q : Frame → Type 0} (weaken : (f : Frame) → P f → Q f) (fs : List Frame)
    → All P fs
    → All Q fs
All-mono weaken [] h = tt
All-mono weaken (f ∷ fs) h = (weaken f h.0, All-mono weaken fs h.1)

pub Carries-weaken :
    {P Q : Frame → Type 0} {c : Conn} (weaken : (f : Frame) → P f → Q f) → Carries P c → Carries Q c
Carries-weaken weaken h = record {
  frames = h.frames;
  fit = h.fit;
  mean = All-mono weaken h.frames h.mean;
  sent = h.sent;
  held = h.held;
}

-- What is behind the first frame, or the first frame.
behind : ℕ → Frame → Bytes → Result Frame
behind zero g src = ok (carried g.typ g)
behind (suc n) g src = nth_frame n src

rest_of :
    (n : ℕ) (g : Frame) (fs : List Frame)
    → FrameFits g
    → behind n g (encodings fs) ≡ nth_frame n (encodings (g ∷ fs))
unfolding behind nth_frame
rest_of zero g fs fit = sym (rw (decode_frame-encode_frame g (encodings fs) fit).1 refl)
rest_of (suc n) g fs fit = sym (rw (decode_frame-encode_frame g (encodings fs) fit).1 refl)

module _ {P : Frame → Type 0} where
  pub Carries-new_conn : Carries P new_conn
  unfolding new_conn
  Carries-new_conn = record { frames = []; fit = tt; mean = tt; sent = refl; held = inr refl }

  pub Carries-close_conn : (c : Conn) → Carries P c → Carries P (close_conn c)
  unfolding close_conn
  Carries-close_conn c h = record {
    frames = h.frames;
    fit = h.fit;
    mean = h.mean;
    sent = h.sent;
    held = h.held;
  }

  flush-Carries :
      (c : Conn) (f : Frame)
      → FrameFits f
      → P f
      → Carries P c
      → c.buffered ≡ []
      → Carries P (flush (record c { buffered = c.buffered ++ (encode_frame f).0 })).0
  unfolding flush
  flush-Carries c f fits says h drained =
      if-intro {A = Conn × Option Error} (λ r. Carries P r.0) c.alive
        (λ _. record {
          frames = h.frames ++ f ∷ [];
          fit = All-append FrameFits h.frames (f ∷ []) h.fit (fits, tt);
          mean = All-append P h.frames (f ∷ []) h.mean (says, tt);
          sent =
              ap (λ t. t ++ (c.buffered ++ (encode_frame f).0)) h.sent
              ∙ ap (λ t. encodings h.frames ++ (t ++ (encode_frame f).0)) drained
              ∙ ap (λ t. encodings h.frames ++ t) (sym (append-nil (encode_frame f).0))
              ∙ sym (encodings-append h.frames (f ∷ []));
          held = inr refl;
        })
        (λ _. record {
          frames = h.frames;
          fit = h.fit;
          mean = h.mean;
          sent = h.sent;
          held = inl refl;
        })

  pub Carries-write_frame :
      (c : Conn) (f : Frame) → FrameFits f → P f → Carries P c → Carries P (write_frame c f).0
  unfolding write_frame after_encode
  Carries-write_frame c f fits says h =
      if-intro {A = Conn × Option Error} (λ r. Carries P r.0) c.failed (λ _. h)
        (λ sound. elim h.held [
          | inl broken ↦ absurd cc
          | inr drained ↦
              subst
                (λ e.
                  Carries P
                    (after_encode (record c { buffered = c.buffered ++ (encode_frame f).0 }) e).0)
                (sym (decode_frame-encode_frame f [] fits).0)
                (flush-Carries c f fits says h drained)
        ])

  nth_frame-encodings :
      (n : ℕ) (fs : List Frame) (f : Frame)
      → All FrameFits fs
      → All P fs
      → nth_frame n (encodings fs) ≡ ok f
      → (g : Frame) × (f ≡ carried g.typ g) × FrameFits g × P g
  unfolding nth_frame decode_frame read_byte behind
  nth_frame-encodings zero [] f fit mean e = absurd cc
  nth_frame-encodings (suc n) [] f fit mean e = absurd cc
  nth_frame-encodings zero (g ∷ fs) f fit mean e =
      (g, sym (ok-injective (rest_of zero g fs fit.0 ∙ e)), fit.0, mean.0)
  nth_frame-encodings (suc n) (g ∷ fs) f fit mean e =
      nth_frame-encodings n fs f fit.1 mean.1 (rest_of (suc n) g fs fit.0 ∙ e)

  -- A frame that is read off the connection is one that was written on it, less the fields that its type
  -- does not carry.
  pub nth_frame-Carries :
      (n : ℕ) (c : Conn) (f : Frame)
      → Carries P c
      → nth_frame n c.sent ≡ ok f
      → (g : Frame) × (f ≡ carried g.typ g) × FrameFits g × P g
  nth_frame-Carries n c f h e =
      nth_frame-encodings n h.frames f h.fit h.mean (ap (nth_frame n) (sym h.sent) ∙ e)
