-- ===== src/Protocol/Frame/Compare.antt =====
-- `constant_time_eq` of src/protocol/frame.rs against equality of byte strings.
use Prim.Native.Nat.{max, digits, differ, bit_or-bitwise, bit_xor-bitwise}
use echomesh_relay.Prelude.{
  ℕ, zero, suc, ◌/◌, ◌%◌, ◌≤◌, bit_or, bit_xor, ◌≡◌, refl, sym, ap, ◌∙◌, subst, ◌↔◌, true, [], ◌∷◌,
  arith, ==_refl, length, Bytes,
}
use echomesh_relay.Protocol.Frame.{fold_diff, constant_time_eq, session_id_eq}

abbrev or_digits : ℕ → ℕ → ℕ → ℕ
or_digits = digits (λ b. b) max

abbrev xor_digits : ℕ → ℕ → ℕ → ℕ
xor_digits = digits (λ b. b) differ

or_digits-eq-zero : (n x y : ℕ) → x ≤ n → or_digits n x y ≡ 0 → (x ≡ 0) × (y ≡ 0)
or_digits-eq-zero zero x y h e = omega arith
or_digits-eq-zero (suc n) zero y h e = omega arith
or_digits-eq-zero (suc n) (suc x) y h e =
    let (low, high) = or_digits-eq-zero n (suc x / 2) (y / 2) (omega arith) (omega arith) in
    omega arith

bit_or-eq-zero : (x y : ℕ) → bit_or x y ≡ 0 → (x ≡ 0) × (y ≡ 0)
bit_or-eq-zero x y e = or_digits-eq-zero x x y (omega arith) (sym (bit_or-bitwise x y) ∙ e)

differ-eq-zero : (x y : ℕ) → differ x y ≡ 0 → x ≡ y
differ-eq-zero zero y e = sym e
differ-eq-zero (suc x) zero e = e
differ-eq-zero (suc x) (suc y) e = ap suc (differ-eq-zero x y e)

differ_self : (x : ℕ) → differ x x ≡ 0
differ_self zero = refl
differ_self (suc x) = differ_self x

xor_digits-eq-zero : (n x y : ℕ) → x ≤ n → xor_digits n x y ≡ 0 → x ≡ y
xor_digits-eq-zero zero x y h e = omega arith
xor_digits-eq-zero (suc n) zero y h e = omega arith
xor_digits-eq-zero (suc n) (suc x) y h e = omega (
  arith,
  xor_digits-eq-zero n (suc x / 2) (y / 2) (omega arith) (omega arith),
  differ-eq-zero (suc x % 2) (y % 2) (omega arith),
)

xor_digits_self : (n x : ℕ) → x ≤ n → xor_digits n x x ≡ 0
xor_digits_self zero x h = omega arith
xor_digits_self (suc n) zero h = refl
xor_digits_self (suc n) (suc x) h =
    omega (arith, xor_digits_self n (suc x / 2) (omega arith), differ_self (suc x % 2))

bit_xor-eq-zero : (x y : ℕ) → bit_xor x y ≡ 0 → x ≡ y
bit_xor-eq-zero x y e = xor_digits-eq-zero x x y (omega arith) (sym (bit_xor-bitwise x y) ∙ e)

bit_xor_self : (x : ℕ) → bit_xor x x ≡ 0
bit_xor_self x = bit_xor-bitwise x x ∙ xor_digits_self x x (omega arith)

-- The fold is 0 only where it started at 0 and no pair of bytes differs.
fold_diff-eq-zero :
    (res : ℕ) (xs ys : Bytes)
    → length xs ≡ length ys
    → fold_diff res xs ys ≡ 0
    → (res ≡ 0) × (xs ≡ ys)
unfolding fold_diff
fold_diff-eq-zero res [] [] h e = (e, refl)
fold_diff-eq-zero res [] (y ∷ ys) h e = absurd (omega arith)
fold_diff-eq-zero res (x ∷ xs) [] h e = absurd (omega arith)
fold_diff-eq-zero res (x ∷ xs) (y ∷ ys) h e =
    let (both, tails) = fold_diff-eq-zero (bit_or res (bit_xor x y)) xs ys (omega arith) e in
    let (start, same) = bit_or-eq-zero res (bit_xor x y) both in
    (start, cc (bit_xor-eq-zero x y same, tails))

fold_diff_self : (xs : Bytes) → fold_diff 0 xs xs ≡ 0
unfolding fold_diff
fold_diff_self [] = refl
fold_diff_self (x ∷ xs) = rw (bit_xor_self x) (fold_diff_self xs)

constant_time_eq_sound : (xs ys : Bytes) → constant_time_eq xs ys ≡ true → xs ≡ ys
unfolding constant_time_eq
constant_time_eq_sound xs ys h = (fold_diff-eq-zero 0 xs ys (ground arith) (ground arith)).1

constant_time_eq_self : (xs : Bytes) → constant_time_eq xs xs ≡ true
unfolding constant_time_eq
constant_time_eq_self xs = rw (==_refl (length xs), fold_diff_self xs)

-- The comparison answers true exactly when the two byte strings are equal, lengths included.
pub constant_time_eq_iff : (xs ys : Bytes) → (constant_time_eq xs ys ≡ true) ↔ (xs ≡ ys)
constant_time_eq_iff xs ys = (
  constant_time_eq_sound xs ys,
  λ e. subst (λ zs. constant_time_eq xs zs ≡ true) e (constant_time_eq_self xs),
)

pub constant_time_eq_refl : (xs : Bytes) → constant_time_eq xs xs ≡ true
constant_time_eq_refl xs = (constant_time_eq_iff xs xs).1 refl

-- So do session ids.
pub session_id_eq_iff : (xs ys : Bytes) → (session_id_eq xs ys ≡ true) ↔ (xs ≡ ys)
unfolding session_id_eq
session_id_eq_iff xs ys = constant_time_eq_iff xs ys
