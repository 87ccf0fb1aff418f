-- ===== src/Crypto/Base64.antt =====
-- `base64_encode` and `base64_decode` of src/crypto/keys.rs. A `str` is the list of its UTF-8 bytes;
-- shifts and masks of bytes are written as quotients and remainders.
pub mod Plain
pub mod RoundTrip
pub mod Keys
use echomesh_relay.Prelude.{
  ℕ, ◌+◌, ◌-◌, ◌*◌, ◌/◌, ◌%◌, ◌^◌, bit_or, Bool, true, false, not, ◌&&◌, ◌||◌, Option, none, some,
  [], ◌∷◌, ◌++◌, ltb, leb, ◌==◌, if◌then◌else◌, length, Bytes,
}
use echomesh_relay.Transport.Hex.{Trim, trim}

-- `BASE64_ALPHABET[n]`, by its five ranges.
unfoldable pub base64_alphabet : ℕ → ℕ
base64_alphabet n =
    if ltb n 26
    then 65 + n
    else if ltb n 52
    then 71 + n
    else if ltb n 62
    then n - 4
    else if n == 62
    then 43
    else 47

-- The first two characters of a chunk, whose second byte is 0 if it is not there.
unfoldable pub encode_front : ℕ → ℕ → Bytes
unfolding base64_alphabet
encode_front b0 b1 =
    base64_alphabet (b0 / 4) ∷ base64_alphabet (bit_or (b0 % 4 * 2 ^ 4) (b1 / 16)) ∷ []

unfoldable pub encode_third : ℕ → ℕ → ℕ
unfolding base64_alphabet
encode_third b1 b2 = base64_alphabet (bit_or (b1 % 16 * 2 ^ 2) (b2 / 64))

-- `for chunk in data.chunks(3)`; 61 is the padding.
unfoldable pub base64_encode : Bytes → Bytes
unfolding encode_front encode_third base64_alphabet
base64_encode [] = []
base64_encode (b0 ∷ []) = encode_front b0 0 ++ (61 ∷ 61 ∷ [])
base64_encode (b0 ∷ b1 ∷ []) = encode_front b0 b1 ++ (encode_third b1 0 ∷ 61 ∷ [])
base64_encode (b0 ∷ b1 ∷ b2 ∷ rest) =
    encode_front b0 b1 ++ (encode_third b1 b2 ∷ base64_alphabet (b2 % 64) ∷ base64_encode rest)

pub data Character : Type 0 where
  digit : ℕ → Character
  blank : Character
  other : Character

-- The `match` on a byte.
unfoldable pub classify : ℕ → Character
classify c =
    if leb 65 c && leb c 90
    then digit (c - 65)
    else if leb 97 c && leb c 122
    then digit (c - 97 + 26)
    else if leb 48 c && leb c 57
    then digit (c - 48 + 52)
    else if c == 43
    then digit 62
    else if c == 47
    then digit 63
    else if (c == 32) || (c == 13) || (c == 10) || (c == 9)
    then blank
    else other

-- `buffer`, a `u32`, `bits_collected` and `output`.
pub record Collected : Type 0 where
  pub buffer : ℕ
  pub bits_collected : ℕ
  pub output : Bytes

unfoldable pub collect : ℕ → Collected → Collected
collect val st =
    let buffer = bit_or (st.buffer * 2 ^ 6 % 2 ^ 32) val in
    let bits = st.bits_collected + 6 in
    let left = bits - 8 in
    if leb 8 bits
    then record {
      buffer = buffer % 2 ^ left;
      bits_collected = left;
      output = st.output ++ (buffer / 2 ^ left % 256 ∷ []);
    }
    else record { buffer = buffer; bits_collected = bits; output = st.output }

-- One character: is it the padding, and what else is it.
unfoldable pub decode_char :
    Bool → Character → Collected → (Collected → Option Bytes) → Option Bytes
unfolding collect
decode_char true character st rest = some st.output
decode_char false (digit val) st rest = rest (collect val st)
decode_char false blank st rest = rest st
decode_char false other st rest = none

unfoldable pub decode_loop : Bytes → Collected → Option Bytes
unfolding classify decode_char
decode_loop [] st = some st.output
decode_loop (c ∷ cs) st = decode_char (c == 61) (classify c) st (decode_loop cs)

module _ ⦃t : Trim⦄ where
  unfoldable pub base64_decode : Bytes → Option Bytes
  unfolding decode_loop
  base64_decode input =
      let trimmed = trim input in
      if length trimmed == 0
      then some []
      else decode_loop trimmed (record { buffer = 0; bits_collected = 0; output = [] })
