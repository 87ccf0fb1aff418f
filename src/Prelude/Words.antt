-- ===== src/Prelude/Words.antt =====
-- Byte strings, and the big-endian form of an unsigned integer (`to_be_bytes`, `from_be_bytes`).
use Prim.Native.Nat.{
  ℕ, zero, suc, ◌+◌, ◌*◌, ◌/◌, ◌%◌, ◌^◌, ◌≤◌, ◌<◌, max, digits, bit_or, bit_or-bitwise,
}
use mathlib.Core.Path.{◌≡◌, refl, sym, ap, subst, ◌∙◌}
use mathlib.Core.List.{List, [], ◌∷◌, ◌++◌}
use native.Mathlib.Nat.{pow-suc}
use native.Mathlib.Omega.{arith}
use echomesh_relay.Prelude.Lists.{length, length-append}

-- A byte is a number below 256.
abbrev pub Bytes : Type 0
Bytes = List ℕ

-- The `w` low bytes of `n`, the highest first.
unfoldable pub to_be_bytes : ℕ → ℕ → Bytes
to_be_bytes zero n = []
to_be_bytes (suc w) n = to_be_bytes w (n / 256) ++ (n % 256 ∷ [])

-- `from_be 0` is `from_be_bytes`.
unfoldable pub from_be : ℕ → Bytes → ℕ
from_be acc [] = acc
from_be acc (x ∷ xs) = from_be (acc * 256 + x) xs

pub length-to_be_bytes : (w n : ℕ) → length (to_be_bytes w n) ≡ w
unfolding to_be_bytes
length-to_be_bytes zero n = refl
length-to_be_bytes (suc w) n =
    omega (
      arith,
      length-append (to_be_bytes w (n / 256)) (n % 256 ∷ []),
      length-to_be_bytes w (n / 256),
    )

from_be-append : (acc : ℕ) (xs ys : Bytes) → from_be acc (xs ++ ys) ≡ from_be (from_be acc xs) ys
unfolding from_be
from_be-append acc [] ys = refl
from_be-append acc (x ∷ xs) ys = from_be-append (acc * 256 + x) xs ys

pub from_be-to_be_bytes : (w n : ℕ) → n < 256 ^ w → from_be 0 (to_be_bytes w n) ≡ n
unfolding from_be to_be_bytes
from_be-to_be_bytes zero n h = omega arith
from_be-to_be_bytes (suc w) n h =
    from_be-append 0 (to_be_bytes w (n / 256)) (n % 256 ∷ [])
    ∙ omega (arith, from_be-to_be_bytes w (n / 256) (omega (arith, pow-suc 256 w)))

abbrev pub AreBytes : Bytes → Type 0
AreBytes [] = Unit {0}
AreBytes (x ∷ xs) = (x < 256) × AreBytes xs

pub AreBytes-split : (xs ys : Bytes) → AreBytes (xs ++ ys) → AreBytes xs × AreBytes ys
AreBytes-split [] ys h = (tt, h)
AreBytes-split (x ∷ xs) ys h = let (l, r) = AreBytes-split xs ys h.1 in ((h.0, l), r)

unsnoc :
    (w : ℕ) (xs : Bytes)
    → length xs ≡ suc w
    → (ys : Bytes) × (y : ℕ) × (xs ≡ ys ++ (y ∷ [])) × (length ys ≡ w)
unsnoc w [] h = absurd (omega arith)
unsnoc zero (x ∷ []) h = ([], x, refl, refl)
unsnoc zero (x ∷ z ∷ xs) h = absurd (omega arith)
unsnoc (suc w) (x ∷ xs) h =
    let (ys, y, e, l) = unsnoc w xs (omega arith) in (x ∷ ys, y, ap (λ t. x ∷ t) e, ap suc l)

-- `w` bytes are the big-endian form of the number that they stand for, which fits `w` bytes.
pub to_be_bytes-from_be :
    (w : ℕ) (xs : Bytes)
    → length xs ≡ w
    → AreBytes xs
    → (to_be_bytes w (from_be 0 xs) ≡ xs) × (from_be 0 xs < 256 ^ w)
unfolding to_be_bytes
to_be_bytes-from_be zero [] h v = (refl, unfold from_be in omega arith)
to_be_bytes-from_be zero (x ∷ xs) h v = absurd (omega arith)
to_be_bytes-from_be (suc w) xs h v =
    let (ys, y, e, l) = unsnoc w xs h in
    let (vys, vy) = AreBytes-split ys (y ∷ []) (subst AreBytes e v) in
    let (form, fits) = to_be_bytes-from_be w ys l vys in
    let n : ℕ = from_be 0 ys in
    let value : from_be 0 xs ≡ n * 256 + y = ap (from_be 0) e ∙ last ys y in
    let high : (n * 256 + y) / 256 ≡ n = omega arith in
    let low : (n * 256 + y) % 256 ≡ y = omega arith in
    (rw (value, high, low) (ap (λ t. t ++ (y ∷ [])) form ∙ sym e), omega (arith, pow-suc 256 w))
  where
    last : (ys : Bytes) (y : ℕ) → from_be 0 (ys ++ (y ∷ [])) ≡ from_be 0 ys * 256 + y
    last ys y = from_be-append 0 ys (y ∷ []) ∙ unfold from_be in refl

pub AreBytes-append : (xs ys : Bytes) → AreBytes xs → AreBytes ys → AreBytes (xs ++ ys)
AreBytes-append [] ys v w = w
AreBytes-append (x ∷ xs) ys v w = (v.0, AreBytes-append xs ys v.1 w)

pub AreBytes-to_be_bytes : (w n : ℕ) → AreBytes (to_be_bytes w n)
unfolding to_be_bytes
AreBytes-to_be_bytes zero n = tt
AreBytes-to_be_bytes (suc w) n =
    AreBytes-append (to_be_bytes w (n / 256)) (n % 256 ∷ []) (AreBytes-to_be_bytes w (n / 256))
      (omega arith, tt)

or_digits_disjoint :
    (n k a x y : ℕ) → x ≡ a * 2 ^ k → x ≤ n → y < 2 ^ k → digits (λ d. d) max n x y ≡ x + y
or_digits_disjoint zero k a x y e h f = omega arith
or_digits_disjoint (suc n) k a zero y e h f = omega arith
or_digits_disjoint (suc n) zero a (suc x) y e h f = omega (
  arith,
  or_digits_disjoint n zero (suc x / 2) (suc x / 2) (y / 2) (omega arith) (omega arith)
      (omega arith),
)
or_digits_disjoint (suc n) (suc k) a (suc x) y e h f =
    let m = pow-suc 2 k in
    let even : suc x ≡ 2 * (a * 2 ^ k) = e ∙ rw m (omega arith) in
    let low =
      or_digits_disjoint n k a (suc x / 2) (y / 2) (omega arith) (omega arith) (omega arith) in
    omega arith

-- A shift makes room for what is put in by `|`.
pub bit_or_disjoint : (k a y : ℕ) → y < 2 ^ k → bit_or (a * 2 ^ k) y ≡ a * 2 ^ k + y
bit_or_disjoint k a y h =
    bit_or-bitwise (a * 2 ^ k) y
    ∙ or_digits_disjoint (a * 2 ^ k) k a (a * 2 ^ k) y refl (omega arith) h
