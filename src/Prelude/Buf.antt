-- ===== src/Prelude/Buf.antt =====
-- The `bytes` crate as the program uses it: its documented operations on `BytesMut`, `Buf` and
-- `BufMut`, which are parameters of the model. A read past the end panics there, and is left open.
use Prim.Native.Nat.{ℕ, ◌+◌, ◌^◌, ◌≤◌, ◌<◌}
use mathlib.Core.Path.{◌≡◌, refl, sym, ap, subst, ◌∙◌}
use mathlib.Core.List.{[], ◌++◌, append-nil}
use native.Mathlib.Omega.{arith}
use echomesh_relay.Prelude.Lists.{
  length, length-append, take, drop, replicate, take-append, drop-append, take-append-drop,
  length-take_of_le, length-drop,
}
use echomesh_relay.Prelude.Words.{
  Bytes, to_be_bytes, from_be, length-to_be_bytes, from_be-to_be_bytes, AreBytes, AreBytes-split,
  to_be_bytes-from_be,
}

pub record ByteBuf : Type 0 where
  -- `put_u8`, `put_u16`, `put_u32`, `put_u64`, by the width in bytes; behind what is there.
  pub put_int : ℕ → Bytes → ℕ → Bytes
  pub put_slice : Bytes → Bytes → Bytes
  pub put_bytes : Bytes → ℕ → ℕ → Bytes
  -- `get_u8`, `get_u16`, `get_u32`, `get_u64`: the number and what is left.
  pub get_int : ℕ → Bytes → ℕ × Bytes
  pub advance : ℕ → Bytes → Bytes
  pub split_to : ℕ → Bytes → Bytes × Bytes
  pub put_int_lem : (w : ℕ) (dst : Bytes) (n : ℕ) → put_int w dst n ≡ dst ++ to_be_bytes w n
  pub put_slice_lem : (dst src : Bytes) → put_slice dst src ≡ dst ++ src
  pub put_bytes_lem : (dst : Bytes) (v n : ℕ) → put_bytes dst v n ≡ dst ++ replicate n v
  pub get_int_lem :
      (w : ℕ) (src : Bytes) → w ≤ length src → get_int w src ≡ (from_be 0 (take w src), drop w src)
  pub advance_lem : (n : ℕ) (src : Bytes) → n ≤ length src → advance n src ≡ drop n src
  pub split_to_lem :
      (n : ℕ) (src : Bytes) → n ≤ length src → split_to n src ≡ (take n src, drop n src)

module _ ⦃b : ByteBuf⦄ where
  abbrev pub put_u8 : Bytes → ℕ → Bytes
  put_u8 = b.put_int 1

  abbrev pub put_u16 : Bytes → ℕ → Bytes
  put_u16 = b.put_int 2

  abbrev pub put_u32 : Bytes → ℕ → Bytes
  put_u32 = b.put_int 4

  abbrev pub put_u64 : Bytes → ℕ → Bytes
  put_u64 = b.put_int 8

  abbrev pub put_slice : Bytes → Bytes → Bytes
  put_slice = b.put_slice

  abbrev pub put_bytes : Bytes → ℕ → ℕ → Bytes
  put_bytes = b.put_bytes

  abbrev pub get_u8 : Bytes → ℕ × Bytes
  get_u8 = b.get_int 1

  abbrev pub get_u16 : Bytes → ℕ × Bytes
  get_u16 = b.get_int 2

  abbrev pub get_u32 : Bytes → ℕ × Bytes
  get_u32 = b.get_int 4

  abbrev pub get_u64 : Bytes → ℕ × Bytes
  get_u64 = b.get_int 8

  abbrev pub advance : ℕ → Bytes → Bytes
  advance = b.advance

  abbrev pub split_to : ℕ → Bytes → Bytes × Bytes
  split_to = b.split_to

  -- A number is read back from the front of what was written.
  pub get_int-append :
      (w n : ℕ) (rest : Bytes) → n < 256 ^ w → b.get_int w (to_be_bytes w n ++ rest) ≡ (n, rest)
  get_int-append w n rest h =
      let seam = length-to_be_bytes w n in
      rw (
        b.get_int_lem w (to_be_bytes w n ++ rest)
            (omega (arith, length-append (to_be_bytes w n) rest, length-to_be_bytes w n)),
        take-append w (to_be_bytes w n) rest seam,
        drop-append w (to_be_bytes w n) rest seam,
        from_be-to_be_bytes w n h,
      )

  -- A number alone in the buffer.
  pub get_int_alone : (w n : ℕ) → n < 256 ^ w → (b.get_int w (to_be_bytes w n)).0 ≡ n
  get_int_alone w n h =
      subst (λ s. (b.get_int w s).0 ≡ n) (append-nil (to_be_bytes w n))
        (ap (λ r. r.0) (get_int-append w n [] h))

  -- What a read of `w` bytes says of the bytes that it read.
  pub get_int_split :
      (w : ℕ) (src : Bytes)
      → w ≤ length src
      → AreBytes src
      → let r = b.get_int w src in
        (src ≡ to_be_bytes w r.0 ++ r.1)
        × (r.0 < 256 ^ w)
        × (length src ≡ w + length r.1)
        × AreBytes r.1
  get_int_split w src h v =
      let front : Bytes = take w src in
      let parts = sym (take-append-drop w src) in
      let len : length front ≡ w = length-take_of_le w src h in
      let (vf, vr) = AreBytes-split front (drop w src) (subst AreBytes parts v) in
      let (form, fits) = to_be_bytes-from_be w front len vf in
      rw (b.get_int_lem w src h)
        (parts ∙ ap (λ t. t ++ drop w src) (sym form), fits, omega (arith, length-drop w src), vr)

  pub split_to-append :
      (n : ℕ) (xs rest : Bytes) → length xs ≡ n → b.split_to n (xs ++ rest) ≡ (xs, rest)
  split_to-append n xs rest h = rw (
    b.split_to_lem n (xs ++ rest) (omega (arith, length-append xs rest)),
    take-append n xs rest h,
    drop-append n xs rest h,
  )

  pub advance-append : (n : ℕ) (xs rest : Bytes) → length xs ≡ n → b.advance n (xs ++ rest) ≡ rest
  advance-append n xs rest h =
      b.advance_lem n (xs ++ rest) (omega (arith, length-append xs rest)) ∙ drop-append n xs rest h

-- The operations by their documentation; the tests run on it.
abbrev pub documented : ByteBuf
documented = record {
  put_int = λ w dst n. dst ++ to_be_bytes w n;
  put_slice = λ dst src. dst ++ src;
  put_bytes = λ dst v n. dst ++ replicate n v;
  get_int = λ w src. (from_be 0 (take w src), drop w src);
  advance = λ n src. drop n src;
  split_to = λ n src. (take n src, drop n src);
  put_int_lem = λ w dst n. refl;
  put_slice_lem = λ dst src. refl;
  put_bytes_lem = λ dst v n. refl;
  get_int_lem = λ w src h. refl;
  advance_lem = λ n src h. refl;
  split_to_lem = λ n src h. refl;
}
