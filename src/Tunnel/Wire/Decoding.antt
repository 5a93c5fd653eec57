-- ===== src/Tunnel/Wire/Decoding.antt =====
-- internal/tunnel/wire.go: what a successful `decodeFrame` says of the input.
use substrate_poc.Prelude.{
  ℕ, ◌%◌, ◌^◌, ◌≤◌, ◌<◌, ◌≡◌, refl, ap, subst, ◌∙◌, none, [], ◌∷◌, ◌++◌, append-nil, append_assoc,
  ok-injective, arith, ltb, if◌then◌else◌, length, take-append-drop, length-take, All, All-right,
  Bytes, IsByte, IsU64, payload_too_big, ok, err, >>=-eq-ok,
}
use substrate_poc.Tunnel.Frame.{
  FrameType, hello, open_frame, attach, attach_ok, data_frame, ack, close, ping, pong, unknown,
  type_byte, byte_type, max_string, max_payload, Frame,
}
use substrate_poc.Tunnel.Wire.{
  emit, put_u16, put_u32, put_u64, read_full, read_byte, get_u32, get_u64, get_string, get_payload,
  encode_body, encode_frame, decode_body, decode_frame,
}
use substrate_poc.Tunnel.Wire.Integers.{be, get_be, be-get_be}
use substrate_poc.Tunnel.Wire.Fields.{put_string_ok, put_payload_ok}

-- `bs` was taken from the front of `src`, and bytes are left.
abbrev Took : Bytes → Bytes → Bytes → Type 0
Took src bs rest = (src ≡ bs ++ rest) × All IsByte rest

took : (src bs rest : Bytes) → All IsByte src → src ≡ bs ++ rest → Took src bs rest
took src bs rest h e = (e, All-right IsByte bs rest (rw e at h))

get_u64-Took :
    (src : Bytes) {v : ℕ} {rest : Bytes}
    → All IsByte src
    → get_u64 src ≡ ok (v, rest)
    → Took src (put_u64 v) rest × IsU64 v
unfolding get_u64 put_u64
get_u64-Took src h e = let (e', b) = be-get_be 8 src h e in (took src _ _ h e', b)

read_byte-Took :
    (src : Bytes) {v : ℕ} {rest : Bytes}
    → All IsByte src
    → read_byte src ≡ ok (v, rest)
    → Took src (v ∷ []) rest
unfolding read_byte
read_byte-Took [] h e = cc
read_byte-Took (b ∷ src) h e = (ground arith, subst (All IsByte) (ground arith) h.1)

read_full_took :
    (n : ℕ) (src : Bytes) {s rest : Bytes}
    → read_full n src ≡ ok (s, rest)
    → (src ≡ s ++ rest) × (length s ≡ n)
unfolding read_full
read_full_took n src e = ground (arith, take-append-drop n src, length-take n src)

-- A length of `k` bytes, and the bytes that it announces.
counted :
    (k n : ℕ) (src src' s rest : Bytes)
    → src ≡ be k n ++ src'
    → src' ≡ s ++ rest
    → length s ≡ n
    → src ≡ (be k (length s) ++ s) ++ rest
counted k n src src' s rest e₁ e₂ len = e₁ ∙ rw (e₂, len, append_assoc)

u16_of_length : (n : ℕ) → n < 256 ^ 2 → n % 2 ^ 16 ≡ n
u16_of_length n h = omega arith

u32_of_length : (n : ℕ) → n < 256 ^ 4 → n % 2 ^ 32 ≡ n
u32_of_length n h = omega arith

get_string-Took :
    (src : Bytes) {s rest : Bytes}
    → All IsByte src
    → get_string src ≡ ok (s, rest)
    → Took src (put_u16 (length s) ++ s) rest
unfolding get_string put_u16
get_string-Took src {s} {rest} h e =
    let ((n, src'), e₁, e₂) = >>=-eq-ok (get_be 2 0 src) _ e in
    let (e₃, b) = be-get_be 2 src h e₁ in
    let (e₄, len) = read_full_took n src' e₂ in
    took src _ rest h
      (rw (u16_of_length (length s) (rw len b)) (counted 2 n src src' s rest e₃ e₄ len))

get_payload-body :
    (n : ℕ) (src : Bytes) {p rest : Bytes}
    → (if ltb max_payload n then err payload_too_big else read_full n src) ≡ ok (p, rest)
    → (read_full n src ≡ ok (p, rest)) × (n ≤ max_payload)
get_payload-body n src e = ground arith

get_payload-Took :
    (src : Bytes) {p rest : Bytes}
    → All IsByte src
    → get_payload src ≡ ok (p, rest)
    → Took src (put_u32 (length p) ++ p) rest × (length p ≤ max_payload)
unfolding get_payload put_u32 get_u32
get_payload-Took src {p} {rest} h e =
    let ((n, src'), e₁, e₂) = >>=-eq-ok (get_be 4 0 src) _ e in
    let (e₃, b) = be-get_be 4 src h e₁ in
    let (e₄, small) = get_payload-body n src' e₂ in
    let (e₅, len) = read_full_took n src' e₄ in
    (
      took src _ rest h
          (rw (u32_of_length (length p) (rw len b)) (counted 4 n src src' p rest e₃ e₅ len)),
      rw len small,
    )

-- The strings that the type carries are short enough for `encodeFrame`.
abbrev pub StringsFit : FrameType → Frame → Type 0
StringsFit hello f = length f.actor_id ≤ max_string
StringsFit open_frame f = length f.target ≤ max_string
StringsFit attach f = length f.target ≤ max_string
StringsFit close f = length f.reason ≤ max_string
StringsFit t f = Unit

-- `src` is the encoding of `f`, whose type is `t`, and then `rest`.
Encodes : FrameType → Bytes → Frame → Bytes → Type 0
Encodes t src f rest =
    (f.typ ≡ t)
    × (StringsFit t f → ((encode_body t f).1 ≡ none) × (src ≡ (encode_body t f).0 ++ rest))

chain₂ :
    (a b rest : Bytes) {src src' : Bytes}
    → src ≡ a ++ src'
    → src' ≡ b ++ rest
    → src ≡ (a ++ b) ++ rest
chain₂ a b rest e₁ e₂ = e₁ ∙ rw (e₂, append_assoc)

encode_body-decode_body :
    (t : FrameType) (src : Bytes) (f : Frame) (rest : Bytes)
    → All IsByte src
    → decode_body t src ≡ ok (f, rest)
    → Encodes t src f rest
unfolding Encodes encode_body decode_body
encode_body-decode_body hello src f rest h e =
    let ((v₁, src₁), p₁, e₁) = >>=-eq-ok (get_string src) _ e in
    let (t₁, _) = get_string-Took src h p₁ in
    subst (λ q. Encodes hello src q.0 q.1) (ok-injective e₁)
      (refl, λ fits. rw (put_string_ok v₁ fits) (refl, t₁))
encode_body-decode_body open_frame src f rest h e =
    let ((v₁, src₁), p₁, e₁) = >>=-eq-ok (get_u64 src) _ e in
    let (q1, _) = get_u64-Took src h p₁ in
    let (t₁, h₁) = q1 in
    let ((v₂, src₂), p₂, e₂) = >>=-eq-ok (get_string src₁) _ e₁ in
    let (t₂, _) = get_string-Took src₁ h₁ p₂ in
    subst (λ q. Encodes open_frame src q.0 q.1) (ok-injective e₂)
      (
        refl,
        λ fits.
            rw (put_string_ok v₂ fits)
              (refl, chain₂ (put_u64 v₁) (put_u16 (length v₂) ++ v₂) src₂ t₁ t₂),
      )
encode_body-decode_body attach src f rest h e =
    let ((v₁, src₁), p₁, e₁) = >>=-eq-ok (get_u64 src) _ e in
    let (q1, _) = get_u64-Took src h p₁ in
    let (t₁, h₁) = q1 in
    let ((v₂, src₂), p₂, e₂) = >>=-eq-ok (get_u64 src₁) _ e₁ in
    let (q2, _) = get_u64-Took src₁ h₁ p₂ in
    let (t₂, h₂) = q2 in
    let ((v₃, src₃), p₃, e₃) = >>=-eq-ok (get_string src₂) _ e₂ in
    let (t₃, _) = get_string-Took src₂ h₂ p₃ in
    subst (λ q. Encodes attach src q.0 q.1) (ok-injective e₃)
      (
        refl,
        λ fits. rw (put_string_ok v₃ fits) (
          refl,
          chain₂ (put_u64 v₁) ((put_u64 v₂) ++ (put_u16 (length v₃) ++ v₃)) src₃ t₁
              (chain₂ (put_u64 v₂) (put_u16 (length v₃) ++ v₃) src₃ t₂ t₃),
        ),
      )
encode_body-decode_body attach_ok src f rest h e =
    let ((v₁, src₁), p₁, e₁) = >>=-eq-ok (get_u64 src) _ e in
    let (q1, _) = get_u64-Took src h p₁ in
    let (t₁, h₁) = q1 in
    let ((v₂, src₂), p₂, e₂) = >>=-eq-ok (get_u64 src₁) _ e₁ in
    let (q2, _) = get_u64-Took src₁ h₁ p₂ in
    let (t₂, _) = q2 in
    subst (λ q. Encodes attach_ok src q.0 q.1) (ok-injective e₂)
      (refl, λ _. (refl, rw append-nil (chain₂ (put_u64 v₁) (put_u64 v₂) src₂ t₁ t₂)))
encode_body-decode_body data_frame src f rest h e =
    let ((v₁, src₁), p₁, e₁) = >>=-eq-ok (get_u64 src) _ e in
    let (q1, _) = get_u64-Took src h p₁ in
    let (t₁, h₁) = q1 in
    let ((v₂, src₂), p₂, e₂) = >>=-eq-ok (get_u64 src₁) _ e₁ in
    let (q2, _) = get_u64-Took src₁ h₁ p₂ in
    let (t₂, h₂) = q2 in
    let ((v₃, src₃), p₃, e₃) = >>=-eq-ok (get_payload src₂) _ e₂ in
    let (q3, small) = get_payload-Took src₂ h₂ p₃ in
    let (t₃, _) = q3 in
    subst (λ q. Encodes data_frame src q.0 q.1) (ok-injective e₃)
      (
        refl,
        λ _. rw (put_payload_ok v₃ small) (
          refl,
          chain₂ (put_u64 v₁) ((put_u64 v₂) ++ (put_u32 (length v₃) ++ v₃)) src₃ t₁
              (chain₂ (put_u64 v₂) (put_u32 (length v₃) ++ v₃) src₃ t₂ t₃),
        ),
      )
encode_body-decode_body ack src f rest h e =
    let ((v₁, src₁), p₁, e₁) = >>=-eq-ok (get_u64 src) _ e in
    let (q1, _) = get_u64-Took src h p₁ in
    let (t₁, h₁) = q1 in
    let ((v₂, src₂), p₂, e₂) = >>=-eq-ok (get_u64 src₁) _ e₁ in
    let (q2, _) = get_u64-Took src₁ h₁ p₂ in
    let (t₂, _) = q2 in
    subst (λ q. Encodes ack src q.0 q.1) (ok-injective e₂)
      (refl, λ _. (refl, rw append-nil (chain₂ (put_u64 v₁) (put_u64 v₂) src₂ t₁ t₂)))
encode_body-decode_body close src f rest h e =
    let ((v₁, src₁), p₁, e₁) = >>=-eq-ok (get_u64 src) _ e in
    let (q1, _) = get_u64-Took src h p₁ in
    let (t₁, h₁) = q1 in
    let ((v₂, src₂), p₂, e₂) = >>=-eq-ok (read_byte src₁) _ e₁ in
    let (t₂, h₂) = read_byte-Took src₁ h₁ p₂ in
    let ((v₃, src₃), p₃, e₃) = >>=-eq-ok (get_string src₂) _ e₂ in
    let (t₃, _) = get_string-Took src₂ h₂ p₃ in
    subst (λ q. Encodes close src q.0 q.1) (ok-injective e₃)
      (
        refl,
        λ fits. rw (put_string_ok v₃ fits) (
          refl,
          chain₂ (put_u64 v₁) ((v₂ ∷ []) ++ (put_u16 (length v₃) ++ v₃)) src₃ t₁
              (chain₂ (v₂ ∷ []) (put_u16 (length v₃) ++ v₃) src₃ t₂ t₃),
        ),
      )
encode_body-decode_body ping src f rest h e =
    let ((v₁, src₁), p₁, e₁) = >>=-eq-ok (get_u64 src) _ e in
    let (q1, _) = get_u64-Took src h p₁ in
    let (t₁, _) = q1 in
    subst (λ q. Encodes ping src q.0 q.1) (ok-injective e₁) (refl, λ _. (refl, rw append-nil (t₁)))
encode_body-decode_body pong src f rest h e =
    let ((v₁, src₁), p₁, e₁) = >>=-eq-ok (get_u64 src) _ e in
    let (q1, _) = get_u64-Took src h p₁ in
    let (t₁, _) = q1 in
    subst (λ q. Encodes pong src q.0 q.1) (ok-injective e₁) (refl, λ _. (refl, rw append-nil (t₁)))
encode_body-decode_body (unknown n) src f rest h e = cc

type_byte-byte_type : (n : ℕ) → type_byte (byte_type n) ≡ n
unfolding type_byte byte_type
type_byte-byte_type n = ground arith

encode_frame-at :
    (t : FrameType) (f : Frame)
    → f.typ ≡ t
    → encode_frame f ≡ emit (type_byte t ∷ []) (encode_body t f)
unfolding encode_frame
encode_frame-at t f e = ap (λ x. emit (type_byte x ∷ []) (encode_body x f)) e

-- A frame that was decoded from bytes is encoded to the bytes that were consumed, if its strings are
-- within the bound that `encodeFrame` checks.
pub encode_frame-decode_frame :
    (src : Bytes) (f : Frame) (rest : Bytes)
    → All IsByte src
    → decode_frame src ≡ ok (f, rest)
    → StringsFit f.typ f
    → ((encode_frame f).1 ≡ none) × (src ≡ (encode_frame f).0 ++ rest)
unfolding decode_frame Encodes
encode_frame-decode_frame src f rest h e fits =
    let ((t, src₁), e₁, e₂) = >>=-eq-ok (read_byte src) _ e in
    let (t₁, h₁) = read_byte-Took src h e₁ in
    let (e₃, back) = encode_body-decode_body (byte_type t) src₁ f rest h₁ e₂ in
    let (e₄, e₅) = back (subst (λ x. StringsFit x f) e₃ fits) in
    rw (encode_frame-at (byte_type t) f e₃, type_byte-byte_type t) (e₄, t₁ ∙ ap (◌∷◌ t) e₅)
