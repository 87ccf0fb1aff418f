-- ===== src/Crypto/Base64/Plain.antt =====
-- The characters that `base64_encode` of src/crypto/keys.rs writes.
use echomesh_relay.Prelude.{
  ℕ, ◌*◌, ◌/◌, ◌%◌, ◌^◌, ◌<◌, bit_or, ◌≢◌, [], ◌∷◌, ◌++◌, arith, Bytes, AreBytes, bit_or_disjoint,
}
use echomesh_relay.Crypto.Base64.{encode_third, base64_alphabet, encode_front, base64_encode}

-- No quote and no underscore.
abbrev pub IsPlain : Bytes → Type 0
IsPlain [] = Unit {0}
IsPlain (c ∷ s) = (c ≢ 34) × (c ≢ 95) × IsPlain s

alphabet_plain : (n : ℕ) → n < 64 → (base64_alphabet n ≢ 34) × (base64_alphabet n ≢ 95)
unfolding base64_alphabet
alphabet_plain n h = (λ e. ground (arith, e), λ e. ground (arith, e))

padding-IsPlain : (s : Bytes) → IsPlain s → IsPlain (61 ∷ s)
padding-IsPlain s v = (λ e. omega (arith, e), λ e. omega (arith, e), v)

encode_front-IsPlain :
    (b0 b1 : ℕ) (s : Bytes) → b0 < 256 → b1 < 256 → IsPlain s → IsPlain (encode_front b0 b1 ++ s)
unfolding encode_front
encode_front-IsPlain b0 b1 s g h v =
    let value = bit_or_disjoint 4 (b0 % 4) (b1 / 16) (omega arith) in
    let first = alphabet_plain (b0 / 4) (omega arith) in
    let second = alphabet_plain (bit_or (b0 % 4 * 2 ^ 4) (b1 / 16)) (omega arith) in
    (first.0, first.1, (second.0, second.1, v))

encode_third-plain :
    (b1 b2 : ℕ) → b1 < 256 → b2 < 256 → (encode_third b1 b2 ≢ 34) × (encode_third b1 b2 ≢ 95)
unfolding encode_third
encode_third-plain b1 b2 g h =
    let value = bit_or_disjoint 2 (b1 % 16) (b2 / 64) (omega arith) in
    alphabet_plain (bit_or (b1 % 16 * 2 ^ 2) (b2 / 64)) (omega arith)

pub base64_encode-IsPlain : (xs : Bytes) → AreBytes xs → IsPlain (base64_encode xs)
unfolding base64_encode
base64_encode-IsPlain [] v = tt
base64_encode-IsPlain (b0 ∷ []) v =
    encode_front-IsPlain b0 0 (61 ∷ 61 ∷ []) v.0 (omega arith)
      (padding-IsPlain (61 ∷ []) (padding-IsPlain [] tt))
base64_encode-IsPlain (b0 ∷ b1 ∷ []) v =
    let third = encode_third-plain b1 0 v.1.0 (omega arith) in
    encode_front-IsPlain b0 b1 (encode_third b1 0 ∷ 61 ∷ []) v.0 v.1.0
      (third.0, third.1, padding-IsPlain [] tt)
base64_encode-IsPlain (b0 ∷ b1 ∷ b2 ∷ rest) v =
    let third = encode_third-plain b1 b2 v.1.0 v.1.1.0 in
    let fourth = alphabet_plain (b2 % 64) (omega arith) in
    encode_front-IsPlain b0 b1 (encode_third b1 b2 ∷ base64_alphabet (b2 % 64) ∷ base64_encode rest)
      v.0 v.1.0 (third.0, third.1, (fourth.0, fourth.1, base64_encode-IsPlain rest v.1.1.1))
