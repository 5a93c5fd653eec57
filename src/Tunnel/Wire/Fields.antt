-- ===== src/Tunnel/Wire/Fields.antt =====
-- internal/tunnel/wire.go: each field is read back as it was written, and the sizes that are refused.
use substrate_poc.Prelude.{
  ℕ, [], ◌%◌, ◌^◌, ◌≤◌, ◌<◌, Bytes, IsU64, ◌∷◌, ◌++◌, ◌≡◌, refl, arith, le→ltb, lt→ltb, append-nil,
  length, length-append, drop-length_append, take-length_append, none, some, ok, string_too_big,
  payload_too_big,
}
use substrate_poc.Tunnel.Frame.{max_string, max_payload}
use substrate_poc.Tunnel.Wire.Integers.{get_be-be}
use substrate_poc.Tunnel.Wire.{
  put_u16, put_u32, put_u64, put_string, put_payload, read_full, read_byte, get_u32, get_u64,
  get_string, get_payload,
}

pub get_u64-put_u64 :
    (v : ℕ) → IsU64 v → (rest : Bytes) → get_u64 (put_u64 v ++ rest) ≡ ok (v, rest)
unfolding get_u64 put_u64
get_u64-put_u64 v h rest = get_be-be 8 v rest h

pub read_full-append : (s rest : Bytes) → read_full (length s) (s ++ rest) ≡ ok (s, rest)
unfolding read_full
read_full-append s rest =
    rw (drop-length_append s rest, take-length_append s rest) (ground (arith, length-append s rest))

u16_of_short : (n : ℕ) → n ≤ max_string → n % 2 ^ 16 ≡ n
u16_of_short n h = omega arith

u32_of_short : (n : ℕ) → n ≤ max_payload → n % 2 ^ 32 ≡ n
u32_of_short n h = omega arith

-- A string that is not too long is written without an error, and read back.
pub put_string_ok :
    (s : Bytes) → length s ≤ max_string → put_string s ≡ (put_u16 (length s) ++ s, none)
unfolding put_string
put_string_ok s h = rw (le→ltb _ _ h, append-nil)

pub get_string-put :
    (s : Bytes)
    → length s ≤ max_string
    → (rest : Bytes) → get_string (put_u16 (length s) ++ (s ++ rest)) ≡ ok (s, rest)
unfolding get_string put_u16
get_string-put s h rest =
    rw (u16_of_short _ h, get_be-be 2 (length s) (s ++ rest) (omega arith))
      (read_full-append s rest)

pub put_payload_ok :
    (p : Bytes) → length p ≤ max_payload → put_payload p ≡ (put_u32 (length p) ++ p, none)
unfolding put_payload
put_payload_ok p h = rw (le→ltb _ _ h, append-nil)

pub get_payload-put :
    (p : Bytes)
    → length p ≤ max_payload
    → (rest : Bytes) → get_payload (put_u32 (length p) ++ (p ++ rest)) ≡ ok (p, rest)
unfolding get_payload put_u32 get_u32
get_payload-put p h rest =
    rw (u32_of_short _ h, get_be-be 4 (length p) (p ++ rest) (omega arith))
      (rw (le→ltb max_payload _ h) (read_full-append p rest))

-- Too long a field is refused before any byte of it is written.
pub put_string_err : (s : Bytes) → max_string < length s → put_string s ≡ ([], some string_too_big)
unfolding put_string
put_string_err s h = rw (lt→ltb _ _ h)

pub put_payload_err :
    (p : Bytes) → max_payload < length p → put_payload p ≡ ([], some payload_too_big)
unfolding put_payload
put_payload_err p h = rw (lt→ltb _ _ h)

pub read_byte-cons : (b : ℕ) (rest : Bytes) → read_byte (b ∷ rest) ≡ ok (b, rest)
unfolding read_byte
read_byte-cons b rest = refl
