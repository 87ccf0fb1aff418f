-- ===== src/Transport/Hex.antt =====
-- `hex_encode` and `hex_decode` of src/transport/obfuscation.rs. A `str` is the list of its UTF-8
-- bytes.
use echomesh_relay.Prelude.{
  ℕ, ◌+◌, ◌-◌, ◌*◌, ◌/◌, ◌%◌, ◌≤◌, ◌<◌, ◌≡◌, refl, sym, ap, ◌∙◌, inl, inr, Bool, true, false, not,
  ◌&&◌, Option, none, some, [], ◌∷◌, ◌++◌, arith, ltb, leb, ◌==◌, if◌then◌else◌, ==_iff, Bool-cases,
  length, Bytes, AreBytes, Result, map_ok, ok, err,
}

-- `str::trim_start` and `str::trim_end` by their documentation, where it speaks of ASCII:
-- white space goes, and what is printed stays.
pub record Trim : Type 0 where
  pub trim_start : Bytes → Bytes
  pub trim_end : Bytes → Bytes
  pub trim_start_none : trim_start [] ≡ []
  pub trim_start_space : (s : Bytes) → trim_start (32 ∷ s) ≡ trim_start s
  pub trim_start_graphic : (c : ℕ) (s : Bytes) → 33 ≤ c → c < 127 → trim_start (c ∷ s) ≡ c ∷ s
  pub trim_end_none : trim_end [] ≡ []
  pub trim_end_graphic :
      (c : ℕ) (s : Bytes) → 33 ≤ c → c < 127 → trim_end (s ++ (c ∷ [])) ≡ s ++ (c ∷ [])

-- A slice whose end lies inside a character, or behind the end of the text.
pub data Panic : Type 0 where
  not_char_boundary : Panic
  out_of_bounds : Panic

abbrev pub hex_digit : ℕ → ℕ
hex_digit d = if ltb d 10 then 48 + d else 87 + d

-- `{:02x}` for each byte.
unfoldable pub hex_encode : Bytes → Bytes
hex_encode [] = []
hex_encode (x ∷ xs) = hex_digit (x / 16) ∷ hex_digit (x % 16) ∷ hex_encode xs

unfoldable pub digit_value : ℕ → Option ℕ
digit_value c =
    if leb 48 c && leb c 57
    then some (c - 48)
    else if leb 97 c && leb c 102
    then some (c - 87)
    else if leb 65 c && leb c 70
    then some (c - 55)
    else none

-- `u8::from_str_radix` of two characters to the base 16: a `+` may stand before the digits.
unfoldable pub from_hex_pair : ℕ → ℕ → Option ℕ
unfolding digit_value
from_hex_pair x y = if x == 43 then digit_value y else elim (digit_value x) [
  | none ↦ none
  | some high ↦ elim (digit_value y) [ none ↦ none | some low ↦ some (high * 16 + low) ]
]

-- `is_char_boundary` at the front of what is left: not a continuation byte.
abbrev pub at_boundary : Bytes → Bool
at_boundary [] = true
at_boundary (z ∷ _) = not (leb 128 z && ltb z 192)

abbrev pub before : ℕ → Option Bytes → Option Bytes
before v none = none
before v (some bytes) = some (v ∷ bytes)

-- `.ok()?` and `push`, before the pairs that follow.
unfoldable pub with_byte : Option ℕ → Result Panic (Option Bytes) → Result Panic (Option Bytes)
with_byte none more = ok none
with_byte (some byte) more = map_ok (before byte) more

-- `for i in (0..s.len()).step_by(2)`.
unfoldable pub decode_pairs : Bytes → Result Panic (Option Bytes)
unfolding with_byte
decode_pairs [] = ok (some [])
decode_pairs (x ∷ []) = err Panic.out_of_bounds
decode_pairs (x ∷ y ∷ rest) =
    let more = decode_pairs rest in
    if at_boundary rest then with_byte (from_hex_pair x y) more else err Panic.not_char_boundary

module _ ⦃t : Trim⦄ where
  abbrev pub trim : Bytes → Bytes
  trim s = t.trim_end (t.trim_start s)

  unfoldable pub hex_decode : Bytes → Result Panic (Option Bytes)
  hex_decode s = let s' = trim s in if not (length s' % 2 == 0) then ok none else decode_pairs s'

pub digit_value_digit : (d : ℕ) → d < 16 → digit_value (hex_digit d) ≡ some d
unfolding digit_value
digit_value_digit d h = ground arith

pub digit_range : (d : ℕ) → d < 16 → (48 ≤ hex_digit d) × (hex_digit d < 103)
digit_range d h = ground arith

from_hex_pair_digits :
    (x : ℕ) → x < 256 → from_hex_pair (hex_digit (x / 16)) (hex_digit (x % 16)) ≡ some x
unfolding from_hex_pair
from_hex_pair_digits x h =
    let range = digit_range (x / 16) (omega arith) in
    let plain : (hex_digit (x / 16) == 43) ≡ false = ground arith in
    rw (plain, digit_value_digit (x / 16) (omega arith), digit_value_digit (x % 16) (omega arith))
      (ap some (omega arith))

at_boundary-hex_encode : (xs : Bytes) → AreBytes xs → at_boundary (hex_encode xs) ≡ true
unfolding hex_encode
at_boundary-hex_encode [] v = refl
at_boundary-hex_encode (x ∷ xs) v = let range = digit_range (x / 16) (omega arith) in ground arith

decode_pairs-hex_encode : (xs : Bytes) → AreBytes xs → decode_pairs (hex_encode xs) ≡ ok (some xs)
unfolding decode_pairs hex_encode
decode_pairs-hex_encode [] v = refl
decode_pairs-hex_encode (x ∷ xs) v =
    rw (at_boundary-hex_encode xs v.1, from_hex_pair_digits x v.0, decode_pairs-hex_encode xs v.1)

pub length-hex_encode : (xs : Bytes) → length (hex_encode xs) ≡ 2 * length xs
unfolding hex_encode
length-hex_encode [] = omega arith
length-hex_encode (x ∷ xs) = omega (arith, length-hex_encode xs)

-- A digit at each end.
hex_encode_last :
    (x : ℕ) (xs : Bytes)
    → AreBytes (x ∷ xs)
    → (s : Bytes) × (c : ℕ) × (hex_encode (x ∷ xs) ≡ s ++ (c ∷ [])) × (33 ≤ c) × (c < 127)
unfolding hex_encode
hex_encode_last x [] v =
    let range = digit_range (x % 16) (omega arith) in
    (hex_digit (x / 16) ∷ [], hex_digit (x % 16), refl, omega arith, omega arith)
hex_encode_last x (y ∷ ys) v =
    let (s, c, e, lo, hi) = hex_encode_last y ys v.1 in
    (hex_digit (x / 16) ∷ hex_digit (x % 16) ∷ s, c, rw e refl, lo, hi)

abbrev pub IsAscii : Bytes → Type 0
IsAscii [] = Unit {0}
IsAscii (x ∷ xs) = (x < 128) × IsAscii xs

decode_pairs-IsAscii :
    (s : Bytes) → IsAscii s → length s % 2 ≡ 0 → (r : Option Bytes) × (decode_pairs s ≡ ok r)
unfolding decode_pairs
decode_pairs-IsAscii [] v even = (some [], refl)
decode_pairs-IsAscii (x ∷ []) v even = absurd (omega (arith, even))
decode_pairs-IsAscii (x ∷ y ∷ rest) v even =
    let (r, e) = decode_pairs-IsAscii rest v.1.1 (omega (arith, even)) in
    rw (ascii_boundary rest v.1.1, e) (pair (from_hex_pair x y) r)
  where
    ascii_boundary : (s : Bytes) → IsAscii s → at_boundary s ≡ true
    ascii_boundary [] w = refl
    ascii_boundary (z ∷ s) w = ground arith

    pair : (o : Option ℕ) (r : Option Bytes) → (q : Option Bytes) × (with_byte o (ok r) ≡ ok q)
    pair none r = (none, unfold with_byte in refl)
    pair (some byte) r = (before byte r, unfold with_byte in refl)

module _ ⦃t : Trim⦄ where
  -- A text that is ASCII once it is trimmed, of an odd or an even length, is decoded or refused, and
  -- no slice of it panics.
  pub hex_decode-IsAscii :
      (s : Bytes) → IsAscii (trim s) → (r : Option Bytes) × (hex_decode s ≡ ok r)
  unfolding hex_decode
  hex_decode-IsAscii s v = elim (Bool-cases (length (trim s) % 2 == 0)) [
    | inl even ↦ rw even (decode_pairs-IsAscii (trim s) v ((==_iff (length (trim s) % 2) 0).0 even))
    | inr odd ↦ (none, rw odd)
  ]

  -- A text that begins and ends with what is printed is not trimmed.
  pub trim_graphic :
      (c d : ℕ) (s r : Bytes)
      → c ∷ s ≡ r ++ (d ∷ [])
      → (33 ≤ c) × (c < 127)
      → (33 ≤ d) × (d < 127)
      → trim (c ∷ s) ≡ c ∷ s
  trim_graphic c d s r e (lc, hc) (ld, hd) =
      ap t.trim_end (t.trim_start_graphic c s lc hc ∙ e) ∙ t.trim_end_graphic d r ld hd ∙ sym e

  pub trim-hex_encode : (xs : Bytes) → AreBytes xs → trim (hex_encode xs) ≡ hex_encode xs
  unfolding hex_encode
  trim-hex_encode [] v = ap t.trim_end t.trim_start_none ∙ t.trim_end_none
  trim-hex_encode (x ∷ xs) v =
      let (lo', hi') = digit_range (x / 16) (omega arith) in
      let (s, c, e, lo, hi) = hex_encode_last x xs v in
      trim_graphic (hex_digit (x / 16)) c (hex_digit (x % 16) ∷ hex_encode xs) s e
        (omega arith, omega arith) (lo, hi)

  -- `hex_decode` reads every byte string back from what `hex_encode` made of it.
  pub hex_decode-hex_encode : (xs : Bytes) → AreBytes xs → hex_decode (hex_encode xs) ≡ ok (some xs)
  unfolding hex_decode
  hex_decode-hex_encode xs v =
      let even : (length (hex_encode xs) % 2 == 0) ≡ true = ground (arith, length-hex_encode xs) in
      rw (trim-hex_encode xs v, even) (decode_pairs-hex_encode xs v)
