-- ===== src/Crypto/Base64/Keys.antt =====
-- The private key file of src/crypto/keys.rs: raw, in hexadecimal or in Base64.
use echomesh_relay.Prelude.{
  ℕ, ◌*◌, ◌/◌, ◌%◌, ◌^◌, ◌<◌, bit_or, ◌≡◌, refl, ap, ◌∙◌, Bool, true, false, ◌&&◌, Option, none,
  some, [], ◌∷◌, ◌++◌, arith, ◌==◌, if◌then◌else◌, length, Bytes, AreBytes, bit_or_disjoint, Result,
  map_ok, ok,
}
use echomesh_relay.Protocol.Messages.ServerToClient.{Utf8}
use echomesh_relay.Transport.Hex.{
  digit_range, length-hex_encode, hex_encode, IsAscii, digit_value_digit, Trim, trim, Panic,
  digit_value, hex_decode,
}
use echomesh_relay.Crypto.Base64.RoundTrip.{
  alphabet_range, length-base64_encode, trim-base64_encode, base64_decode-base64_encode,
}
use echomesh_relay.Transport.Hex.{
  digit_value_digit, digit_range, length-hex_encode, trim-hex_encode, hex_decode-hex_encode,
}
use echomesh_relay.Crypto.Base64.{
  encode_third, base64_alphabet, encode_front, base64_encode, base64_decode,
}

-- `is_ascii_hexdigit`, for every character.
abbrev is_hexdigit : Option ℕ → Bool
is_hexdigit none = false
is_hexdigit (some d) = true

unfoldable pub all_hexdigits : Bytes → Bool
all_hexdigits [] = true
all_hexdigits (c ∷ cs) = is_hexdigit (digit_value c) && all_hexdigits cs

-- A decoded key has 32 bytes; `none` is `KeyError::InvalidKey`.
unfoldable pub of_length : Option Bytes → Option Bytes → Option Bytes
of_length (some decoded) otherwise = if length decoded == 32 then some decoded else otherwise
of_length none otherwise = otherwise

module _ ⦃t : Trim⦄ ⦃u : Utf8⦄ where
  -- The panic is one that `hex_decode` has for texts of another kind.
  unfoldable pub parse_private_key_bytes : Bytes → Result Panic (Option Bytes)
  unfolding all_hexdigits of_length
  parse_private_key_bytes raw =
      let text = trim (u.from_utf8_lossy raw) in
      let by_base64 = of_length (base64_decode text) none in
      if length raw == 32
      then ok (some raw)
      else if (length text == 64) && all_hexdigits text
      then map_ok (λ decoded. of_length decoded by_base64) (hex_decode text)
      else ok by_base64

all_hexdigits-hex_encode : (xs : Bytes) → AreBytes xs → all_hexdigits (hex_encode xs) ≡ true
unfolding all_hexdigits hex_encode
all_hexdigits-hex_encode [] v = refl
all_hexdigits-hex_encode (x ∷ xs) v = rw (
  digit_value_digit (x / 16) (omega arith),
  digit_value_digit (x % 16) (omega arith),
  all_hexdigits-hex_encode xs v.1,
)

pub hex_encode-IsAscii : (xs : Bytes) → AreBytes xs → IsAscii (hex_encode xs)
unfolding hex_encode
hex_encode-IsAscii [] v = tt
hex_encode-IsAscii (x ∷ xs) v =
    let high = digit_range (x / 16) (omega arith) in
    let low = digit_range (x % 16) (omega arith) in
    (omega arith, (omega arith, hex_encode-IsAscii xs v.1))

alphabet_ascii : (n : ℕ) → n < 64 → base64_alphabet n < 128
alphabet_ascii n h = omega (arith, (alphabet_range n h).1)

encode_front-IsAscii :
    (b0 b1 : ℕ) (s : Bytes) → b0 < 256 → b1 < 256 → IsAscii s → IsAscii (encode_front b0 b1 ++ s)
unfolding encode_front
encode_front-IsAscii b0 b1 s g h v =
    let value = bit_or_disjoint 4 (b0 % 4) (b1 / 16) (omega arith) in
    (
      alphabet_ascii (b0 / 4) (omega arith),
      (alphabet_ascii (bit_or (b0 % 4 * 2 ^ 4) (b1 / 16)) (omega arith), v),
    )

encode_third_ascii : (b1 b2 : ℕ) → b1 < 256 → b2 < 256 → encode_third b1 b2 < 128
unfolding encode_third
encode_third_ascii b1 b2 g h =
    let value = bit_or_disjoint 2 (b1 % 16) (b2 / 64) (omega arith) in
    alphabet_ascii (bit_or (b1 % 16 * 2 ^ 2) (b2 / 64)) (omega arith)

pub base64_encode-IsAscii : (xs : Bytes) → AreBytes xs → IsAscii (base64_encode xs)
unfolding base64_encode
base64_encode-IsAscii [] v = tt
base64_encode-IsAscii (b0 ∷ []) v =
    encode_front-IsAscii b0 0 (61 ∷ 61 ∷ []) v.0 (omega arith) (omega arith, (omega arith, tt))
base64_encode-IsAscii (b0 ∷ b1 ∷ []) v =
    encode_front-IsAscii b0 b1 (encode_third b1 0 ∷ 61 ∷ []) v.0 v.1.0
      (encode_third_ascii b1 0 v.1.0 (omega arith), (omega arith, tt))
base64_encode-IsAscii (b0 ∷ b1 ∷ b2 ∷ rest) v =
    encode_front-IsAscii b0 b1 (encode_third b1 b2 ∷ base64_alphabet (b2 % 64) ∷ base64_encode rest)
      v.0 v.1.0
      (
        encode_third_ascii b1 b2 v.1.0 v.1.1.0,
        (alphabet_ascii (b2 % 64) (omega arith), base64_encode-IsAscii rest v.1.1.1),
      )

module _ ⦃t : Trim⦄ ⦃u : Utf8⦄ where
  -- Where ASCII is UTF-8, a private key of 32 bytes is read back from each of its three forms: the
  -- bytes themselves, their hexadecimal text and their Base64 text.
  pub key_formats :
      (key : Bytes)
      → ((s : Bytes) → IsAscii s → u.is_utf8 s ≡ true)
      → AreBytes key
      → length key ≡ 32
      → (parse_private_key_bytes key ≡ ok (some key))
        × (parse_private_key_bytes (hex_encode key) ≡ ok (some key))
        × (parse_private_key_bytes (base64_encode key) ≡ ok (some key))
  unfolding parse_private_key_bytes of_length
  key_formats key utf8 v h =
      let hex_len : length (hex_encode key) ≡ 64 = omega (arith, length-hex_encode key) in
      let base_len : length (base64_encode key) ≡ 44 = omega (arith, length-base64_encode key) in
      let hex_text : trim (u.from_utf8_lossy (hex_encode key)) ≡ hex_encode key =
        ap trim (u.lossy_lem (hex_encode key) (utf8 (hex_encode key) (hex_encode-IsAscii key v)))
        ∙ trim-hex_encode key v in
      let base_text : trim (u.from_utf8_lossy (base64_encode key)) ≡ base64_encode key =
        ap trim
          (u.lossy_lem (base64_encode key) (utf8 (base64_encode key) (base64_encode-IsAscii key v)))
        ∙ trim-base64_encode key v in
      (
        rw h refl,
        rw (hex_text, hex_len, all_hexdigits-hex_encode key v, hex_decode-hex_encode key v, h) refl,
        rw (base_text, base_len, base64_decode-base64_encode key v, h) refl,
      )
