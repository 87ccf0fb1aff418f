-- ===== src/Crypto/Base64/RoundTrip.antt =====
-- What `base64_encode` of src/crypto/keys.rs writes is read back by `base64_decode`.
use echomesh_relay.Prelude.{
  ℕ, ◌+◌, ◌*◌, ◌/◌, ◌%◌, ◌^◌, ◌≤◌, ◌<◌, bit_or, ◌≡◌, refl, sym, ap, ◌∙◌, false, some, [], ◌∷◌, ◌++◌,
  append-nil, append_assoc, arith, ◌==◌, length, Bytes, AreBytes, bit_or_disjoint,
}
use native.Mathlib.Nat.{mod-eq_of_lt}
use echomesh_relay.Transport.Hex.{Trim, trim, trim_graphic}
use echomesh_relay.Crypto.Base64.{
  base64_decode, decode_char, base64_alphabet, encode_front, encode_third, base64_encode, classify,
  digit, Collected, collect, decode_loop,
}

classify-alphabet : (n : ℕ) → n < 64 → classify (base64_alphabet n) ≡ digit n
unfolding classify base64_alphabet
classify-alphabet n h = ground arith

pub alphabet_range :
    (n : ℕ)
    → n < 64
    → (33 ≤ base64_alphabet n) × (base64_alphabet n < 127) × ((base64_alphabet n == 61) ≡ false)
unfolding base64_alphabet
alphabet_range n h = (ground arith, ground arith, ground arith)

-- A character of the alphabet adds its six bits.
decode_digit :
    (n : ℕ) (cs : Bytes) (st : Collected)
    → n < 64
    → decode_loop (base64_alphabet n ∷ cs) st ≡ decode_loop cs (collect n st)
unfolding decode_loop
decode_digit n cs st h =
    let (lo, hi, plain) = alphabet_range n h in
    rw (plain, classify-alphabet n h) (unfold decode_char in refl)

shifted :
    (buffer n : ℕ) → buffer < 64 → n < 64 → bit_or (buffer * 2 ^ 6 % 2 ^ 32) n ≡ buffer * 64 + n
shifted buffer n h g =
    let fits : buffer * 2 ^ 6 % 2 ^ 32 ≡ buffer * 2 ^ 6 = mod-eq_of_lt (omega arith) in
    rw fits (bit_or_disjoint 6 buffer n g)

abbrev at : ℕ → ℕ → Bytes → Collected
at buffer bits output = record { buffer = buffer; bits_collected = bits; output = output }

collect_first : (n : ℕ) (out : Bytes) → n < 64 → collect n (at 0 0 out) ≡ at n 6 out
unfolding collect
collect_first n out h = rw (shifted 0 n (omega arith) h) (ap (λ k. at k 6 out) (omega arith))

collect_second :
    (k n : ℕ) (out : Bytes)
    → k < 64
    → n < 64
    → collect n (at k 6 out) ≡ at (n % 16) 4 (out ++ ((k * 4 + n / 16) ∷ []))
unfolding collect
collect_second k n out g h =
    let low : (k * 64 + n) % 16 ≡ n % 16 = omega arith in
    let high : (k * 64 + n) / 16 % 256 ≡ k * 4 + n / 16 = omega arith in
    rw (shifted k n g h, low, high) refl

collect_third :
    (k n : ℕ) (out : Bytes)
    → k < 16
    → n < 64
    → collect n (at k 4 out) ≡ at (n % 4) 2 (out ++ ((k * 16 + n / 4) ∷ []))
unfolding collect
collect_third k n out g h =
    let low : (k * 64 + n) % 4 ≡ n % 4 = omega arith in
    let high : (k * 64 + n) / 4 % 256 ≡ k * 16 + n / 4 = omega arith in
    rw (shifted k n (omega arith) h, low, high) refl

collect_fourth :
    (k n : ℕ) (out : Bytes)
    → k < 4
    → n < 64
    → collect n (at k 2 out) ≡ at 0 0 (out ++ ((k * 64 + n) ∷ []))
unfolding collect
collect_fourth k n out g h =
    let low : (k * 64 + n) % 1 ≡ 0 = omega arith in
    let high : (k * 64 + n) / 1 % 256 ≡ k * 64 + n = omega arith in
    rw (shifted k n (omega arith) h, low, high) refl

-- The first two characters give the first byte and the upper half of the second.
decode_front :
    (b0 b1 : ℕ) (cs out : Bytes)
    → b0 < 256
    → b1 < 256
    → decode_loop (encode_front b0 b1 ++ cs) (at 0 0 out)
      ≡ decode_loop cs (at (b1 / 16) 4 (out ++ (b0 ∷ [])))
unfolding encode_front
decode_front b0 b1 cs out g h =
    let value : bit_or (b0 % 4 * 2 ^ 4) (b1 / 16) ≡ b0 % 4 * 16 + b1 / 16 =
      bit_or_disjoint 4 (b0 % 4) (b1 / 16) (omega arith) in
    let low : (b0 % 4 * 16 + b1 / 16) % 16 ≡ b1 / 16 = omega arith in
    let high : b0 / 4 * 4 + (b0 % 4 * 16 + b1 / 16) / 16 ≡ b0 = omega arith in
    rw
      (
        value,
        decode_digit (b0 / 4) (base64_alphabet (b0 % 4 * 16 + b1 / 16) ∷ cs) (at 0 0 out)
            (omega arith),
        collect_first (b0 / 4) out (omega arith),
        decode_digit (b0 % 4 * 16 + b1 / 16) cs (at (b0 / 4) 6 out) (omega arith),
        collect_second (b0 / 4) (b0 % 4 * 16 + b1 / 16) out (omega arith) (omega arith),
        low,
        high,
      )
      refl

decode_third :
    (b1 b2 : ℕ) (cs out : Bytes)
    → b1 < 256
    → b2 < 256
    → decode_loop (encode_third b1 b2 ∷ cs) (at (b1 / 16) 4 out)
      ≡ decode_loop cs (at (b2 / 64) 2 (out ++ (b1 ∷ [])))
unfolding encode_third
decode_third b1 b2 cs out g h =
    let value : bit_or (b1 % 16 * 2 ^ 2) (b2 / 64) ≡ b1 % 16 * 4 + b2 / 64 =
      bit_or_disjoint 2 (b1 % 16) (b2 / 64) (omega arith) in
    let low : (b1 % 16 * 4 + b2 / 64) % 4 ≡ b2 / 64 = omega arith in
    let high : b1 / 16 * 16 + (b1 % 16 * 4 + b2 / 64) / 4 ≡ b1 = omega arith in
    rw
      (
        value,
        decode_digit (b1 % 16 * 4 + b2 / 64) cs (at (b1 / 16) 4 out) (omega arith),
        collect_third (b1 / 16) (b1 % 16 * 4 + b2 / 64) out (omega arith) (omega arith),
        low,
        high,
      )
      refl

decode_padding : (cs : Bytes) (st : Collected) → decode_loop (61 ∷ cs) st ≡ some st.output
unfolding decode_loop
decode_padding cs st = unfold decode_char in refl

pub decode_loop-base64_encode :
    (xs out : Bytes) → AreBytes xs → decode_loop (base64_encode xs) (at 0 0 out) ≡ some (out ++ xs)
unfolding base64_encode
decode_loop-base64_encode [] out v = unfold decode_loop in ap some (sym (append-nil out))
decode_loop-base64_encode (b0 ∷ []) out v =
    decode_front b0 0 (61 ∷ 61 ∷ []) out v.0 (omega arith) ∙ decode_padding (61 ∷ []) _
decode_loop-base64_encode (b0 ∷ b1 ∷ []) out v =
    decode_front b0 b1 (encode_third b1 0 ∷ 61 ∷ []) out v.0 v.1.0
    ∙ decode_third b1 0 (61 ∷ []) (out ++ (b0 ∷ [])) v.1.0 (omega arith)
    ∙ decode_padding [] _
    ∙ ap some (append_assoc out (b0 ∷ []) (b1 ∷ []))
decode_loop-base64_encode (b0 ∷ b1 ∷ b2 ∷ rest) out v =
    let more : Bytes = base64_alphabet (b2 % 64) ∷ base64_encode rest in
    let out' : Bytes = (out ++ (b0 ∷ [])) ++ (b1 ∷ []) in
    let third : b2 / 64 * 64 + b2 % 64 ≡ b2 = omega arith in
    decode_front b0 b1 (encode_third b1 b2 ∷ more) out v.0 v.1.0
    ∙ decode_third b1 b2 more (out ++ (b0 ∷ [])) v.1.0 v.1.1.0
    ∙ decode_digit (b2 % 64) (base64_encode rest) (at (b2 / 64) 2 out') (omega arith)
    ∙ ap (decode_loop (base64_encode rest)) (
        collect_fourth (b2 / 64) (b2 % 64) out' (omega arith) (omega arith)
        ∙ ap (λ k. at 0 0 (out' ++ (k ∷ []))) third)
    ∙ decode_loop-base64_encode rest (out' ++ (b2 ∷ [])) v.1.1.1
    ∙ ap some (simp append_assoc)

-- The last character: of the alphabet, or the padding.
base64_encode_last :
    (x : ℕ) (xs : Bytes)
    → AreBytes (x ∷ xs)
    → (r : Bytes) × (d : ℕ) × (base64_encode (x ∷ xs) ≡ r ++ (d ∷ [])) × (33 ≤ d) × (d < 127)
unfolding base64_encode encode_front
base64_encode_last b0 [] v = (_ ∷ _ ∷ 61 ∷ [], 61, refl, omega arith, omega arith)
base64_encode_last b0 (b1 ∷ []) v = (_ ∷ _ ∷ _ ∷ [], 61, refl, omega arith, omega arith)
base64_encode_last b0 (b1 ∷ b2 ∷ []) v =
    let (lo, hi, _) = alphabet_range (b2 % 64) (omega arith) in
    (_ ∷ _ ∷ _ ∷ [], base64_alphabet (b2 % 64), refl, lo, hi)
base64_encode_last b0 (b1 ∷ b2 ∷ x ∷ rest) v =
    let (r, d, e, lo, hi) = base64_encode_last x rest v.1.1.1 in
    let before : Bytes → Bytes =
      λ t. encode_front b0 b1 ++ (encode_third b1 b2 ∷ base64_alphabet (b2 % 64) ∷ t) in
    (before r, d, ap before e, lo, hi)

base64_encode_first :
    (x : ℕ) (xs : Bytes)
    → AreBytes (x ∷ xs)
    → (s : Bytes) × (base64_encode (x ∷ xs) ≡ base64_alphabet (x / 4) ∷ s)
unfolding base64_encode encode_front
base64_encode_first b0 [] v = (_, refl)
base64_encode_first b0 (b1 ∷ []) v = (_, refl)
base64_encode_first b0 (b1 ∷ b2 ∷ rest) v = (_, refl)

pub length-base64_encode : (xs : Bytes) → length (base64_encode xs) ≡ (length xs + 2) / 3 * 4
unfolding base64_encode encode_front
length-base64_encode [] = omega arith
length-base64_encode (b0 ∷ []) = omega arith
length-base64_encode (b0 ∷ b1 ∷ []) = omega arith
length-base64_encode (b0 ∷ b1 ∷ b2 ∷ rest) = omega (arith, length-base64_encode rest)

module _ ⦃t : Trim⦄ where
  pub trim-base64_encode : (xs : Bytes) → AreBytes xs → trim (base64_encode xs) ≡ base64_encode xs
  trim-base64_encode [] v =
      unfold base64_encode in ap t.trim_end t.trim_start_none ∙ t.trim_end_none
  trim-base64_encode (x ∷ xs) v =
      let (s, e) = base64_encode_first x xs v in
      let (r, d, g, lo, hi) = base64_encode_last x xs v in
      let (lo', hi', _) = alphabet_range (x / 4) (omega arith) in
      ap trim e
      ∙ trim_graphic (base64_alphabet (x / 4)) d s r (sym e ∙ g) (lo', hi') (lo, hi)
      ∙ sym e

  -- `base64_decode` reads every byte string back from what `base64_encode` made of it.
  pub base64_decode-base64_encode :
      (xs : Bytes) → AreBytes xs → base64_decode (base64_encode xs) ≡ some xs
  unfolding base64_decode
  base64_decode-base64_encode [] v = rw (trim-base64_encode [] v) (unfold base64_encode in refl)
  base64_decode-base64_encode (x ∷ xs) v =
      let full : (length (base64_encode (x ∷ xs)) == 0) ≡ false =
        ground (arith, length-base64_encode (x ∷ xs)) in
      rw (trim-base64_encode (x ∷ xs) v, full) (decode_loop-base64_encode (x ∷ xs) [] v)
