-- ===== src/Protocol/Frame/Wire.antt =====
-- The frame format of src/protocol/frame.rs, and its codec against it.
use echomesh_relay.Prelude.{
  ℕ, zero, suc, ◌-◌, ◌^◌, ◌≤◌, ◌<◌, ◌≡◌, refl, sym, ap, ◌≢◌, ◌⊎◌, inl, inr, Option, none, some,
  ◌++◌, append-nil, append_assoc, arith, ltb, if◌then◌else◌, ltb→lt, lt→ltb, le→not_ltb, not_ltb→le,
  Bool-cases, length, length-append, take, drop, replicate, length-take, length-take_of_le,
  length-drop, length-replicate, take-append, drop-append, take_all, Bytes, to_be_bytes, from_be,
  length-to_be_bytes, from_be-to_be_bytes, ByteBuf, Result, map_ok, ok, err,
}
use native.Mathlib.Nat.{mod-eq_of_lt}
use echomesh_relay.Protocol.Error.{ProtocolError}
use echomesh_relay.Protocol.Frame.{
  Frame, frame_size, max_payload_size, from_slice, parse, encode, decode, decode_exact, ok_or_short,
}

-- The sizes that the Rust types fix, and the limit that `Frame::new` checks.
pub record IsValid (f : Frame) : Type 0 where
  pub session_id_len : length f.session_id ≡ 16
  pub nonce_len : length f.nonce ≡ 8
  pub payload_le : length f.payload ≤ 1394

-- The bytes of a frame: session id, nonce, length, payload, and zeros up to 1420 bytes.
abbrev pub wire : Frame → Bytes
wire f =
    f.session_id
    ++ (f.nonce
        ++ (to_be_bytes 2 (length f.payload)
            ++ (f.payload ++ replicate (max_payload_size - length f.payload) 0)))

-- What 1420 bytes say, by position.
abbrev pub read_wire : Bytes → Result ProtocolError Frame
read_wire s =
    let body = drop 2 (drop 8 (drop 16 s)) in
    let payload_len = from_be 0 (take 2 (drop 8 (drop 16 s))) in
    if ltb max_payload_size payload_len
    then err (ProtocolError.payload_too_large payload_len max_payload_size)
    else ok (record {
      session_id = take 16 s;
      nonce = take 8 (drop 16 s);
      payload = take payload_len body;
    })

pub length-wire : (f : Frame) → IsValid f → length (wire f) ≡ frame_size
length-wire f v =
    rw
      (
        length-append f.session_id,
        length-append f.nonce,
        length-append (to_be_bytes 2 (length f.payload)),
        length-append f.payload,
        length-to_be_bytes,
        length-replicate,
      )
      (omega arith)

module _ ⦃b : ByteBuf⦄ where
  padding :
      (dst : Bytes) (n : ℕ) → (if ltb 0 n then b.put_bytes dst 0 n else dst) ≡ dst ++ replicate n 0
  unfolding replicate
  padding dst zero = sym (append-nil dst)
  padding dst (suc n) = rw (lt→ltb 0 (suc n) (omega arith)) (b.put_bytes_lem dst 0 (suc n))

  pub encode-wire : (f : Frame) (dst : Bytes) → IsValid f → encode f dst ≡ (ok tt, dst ++ wire f)
  unfolding encode
  encode-wire f dst v =
      rw (le→not_ltb 1394 (length f.payload) v.payload_le, padding)
        (simp (
          b.put_slice_lem,
          b.put_int_lem,
          append_assoc,
          mod-eq_of_lt {n = length f.payload} {m = 2 ^ 16} (omega arith),
        ))

  -- The header, read at its three places.
  pub header_at :
      (s : Bytes)
      → 26 ≤ length s
      → (b.advance 16 s ≡ drop 16 s)
        × (b.advance 8 (drop 16 s) ≡ drop 8 (drop 16 s))
        × (b.get_int 2 (drop 8 (drop 16 s))
            ≡ (from_be 0 (take 2 (drop 8 (drop 16 s))), drop 2 (drop 8 (drop 16 s))))
  header_at s h = (
    b.advance_lem 16 s (omega arith),
    b.advance_lem 8 (drop 16 s) (omega (arith, length-drop 16 s)),
    b.get_int_lem 2 (drop 8 (drop 16 s))
        (omega (arith, length-drop 16 s, length-drop 8 (drop 16 s))),
  )

  pub from_slice-read_wire :
      (s : Bytes) → frame_size ≤ length s → from_slice s ≡ read_wire (take frame_size s)
  unfolding from_slice
  from_slice-read_wire s h =
      let (at_nonce, at_len, at_body) =
        header_at (take 1420 s) (omega (arith, length-take 1420 s)) in
      rw (le→not_ltb (length s) 1420 h, at_nonce, at_len, at_body)

  -- The payload that `split_to` takes lies within the frame.
  payload_at :
      (s : Bytes) (n : ℕ)
      → length s ≡ frame_size
      → n ≤ max_payload_size
      → b.split_to n (drop 2 (drop 8 (drop 16 s)))
        ≡ (take n (drop 2 (drop 8 (drop 16 s))), drop n (drop 2 (drop 8 (drop 16 s))))
  payload_at s n h le = b.split_to_lem n (drop 2 (drop 8 (drop 16 s))) (
      omega
        (arith, length-drop 16 s, length-drop 8 (drop 16 s), length-drop 2 (drop 8 (drop 16 s))))

  pub decode-read_wire :
      (s : Bytes)
      → frame_size ≤ length s
      → decode s ≡ (map_ok some (read_wire (take frame_size s)), drop frame_size s)
  unfolding decode
  decode-read_wire s h =
      let len : length (take 1420 s) ≡ 1420 = length-take_of_le 1420 s h in
      let (at_nonce, at_len, at_body) = header_at (take 1420 s) (omega arith) in
      let n : ℕ = from_be 0 (take 2 (drop 8 (drop 16 (take 1420 s)))) in
      rw (le→not_ltb (length s) 1420 h, b.split_to_lem 1420 s h, at_nonce, at_len, at_body)
        (elim (Bool-cases (ltb 1394 n)) [
          | inl over ↦ rw over
          | inr fits ↦ rw (fits, payload_at (take 1420 s) n len (not_ltb→le 1394 n fits))
        ])

  pub parse-read_wire :
      (s : Bytes)
      → frame_size ≤ length s
      → parse s ≡ (read_wire (take frame_size s), drop frame_size s)
  unfolding parse
  parse-read_wire s h =
      let len : length (take 1420 s) ≡ 1420 = length-take_of_le 1420 s h in
      let (at_nonce, at_len, at_body) = header_at (take 1420 s) (omega arith) in
      let n : ℕ = from_be 0 (take 2 (drop 8 (drop 16 (take 1420 s)))) in
      rw (le→not_ltb (length s) 1420 h, b.split_to_lem 1420 s h, at_nonce, at_len, at_body)
        (elim (Bool-cases (ltb 1394 n)) [
          | inl over ↦ rw over
          | inr fits ↦ rw (fits, payload_at (take 1420 s) n len (not_ltb→le 1394 n fits))
        ])

  -- `decode_exact` gives what `parse` gives on every input, and leaves the same bytes: its second
  -- length check never fires.
  pub decode_exact-eq-parse : (s : Bytes) → decode_exact s ≡ parse s
  unfolding decode_exact
  decode_exact-eq-parse s = elim (Bool-cases (ltb (length s) 1420)) [
    | inl short ↦ unfold parse in rw short
    | inr full ↦
        let h : 1420 ≤ length s = not_ltb→le (length s) 1420 full in
        rw (full, decode-read_wire s h, parse-read_wire s h) (exact (read_wire (take 1420 s)))
  ]
    where
      exact :
          (r : Result ProtocolError Frame)
          → ok_or_short (map_ok some r, drop 1420 s) ≡ (r, drop 1420 s)
      exact (ok f) = refl
      exact (err e) = refl

  -- `from_slice` and `parse` give the same frame or the same error for every input.
  pub from_slice-eq-parse : (s : Bytes) → from_slice s ≡ (parse s).0
  from_slice-eq-parse s = elim (Bool-cases (ltb (length s) 1420)) [
    | inl short ↦ unfold parse from_slice in rw short
    | inr full ↦
        let h : 1420 ≤ length s = not_ltb→le (length s) 1420 full in
        rw (from_slice-read_wire s h, parse-read_wire s h)
  ]

  -- With fewer than 1420 bytes `decode` waits and keeps them; with more it takes exactly 1420, also
  -- where the frame is refused.
  pub decode_takes :
      (s : Bytes)
      → ((length s < frame_size) × (decode s ≡ (ok none, s)))
        ⊎ ((frame_size ≤ length s) × ((decode s).1 ≡ drop frame_size s) × ((decode s).0 ≢ ok none))
  decode_takes s = elim (Bool-cases (ltb (length s) 1420)) [
    | inl short ↦ inl (ltb→lt (length s) 1420 short, unfold decode in rw short)
    | inr full ↦
        let h : 1420 ≤ length s = not_ltb→le (length s) 1420 full in
        let e = decode-read_wire s h in
        inr (h, ap (λ r. r.1) e, rw e (some_frame (read_wire (take 1420 s))))
  ]
    where
      some_frame : (r : Result ProtocolError Frame) → map_ok {B = Option Frame} some r ≢ ok none
      some_frame (ok f) e = cc
      some_frame (err x) e = cc

read_wire-wire : (f : Frame) → IsValid f → read_wire (wire f) ≡ ok f
read_wire-wire f v =
    let n = length f.payload in
    let zeros : Bytes = replicate (max_payload_size - n) 0 in
    let body : Bytes = f.payload ++ zeros in
    let rest : Bytes = f.nonce ++ (to_be_bytes 2 n ++ body) in
    rw (
      take-append 16 f.session_id rest v.session_id_len,
      drop-append 16 f.session_id rest v.session_id_len,
      take-append 8 f.nonce (to_be_bytes 2 n ++ body) v.nonce_len,
      drop-append 8 f.nonce (to_be_bytes 2 n ++ body) v.nonce_len,
      take-append 2 (to_be_bytes 2 n) body (length-to_be_bytes 2 n),
      drop-append 2 (to_be_bytes 2 n) body (length-to_be_bytes 2 n),
      from_be-to_be_bytes 2 n (omega arith),
      take-append n f.payload zeros refl,
      le→not_ltb 1394 n v.payload_le,
    )

module _ ⦃b : ByteBuf⦄ where
  pub decode-wire :
      (f : Frame) (rest : Bytes) → IsValid f → decode (wire f ++ rest) ≡ (ok (some f), rest)
  decode-wire f rest v = rw (
    decode-read_wire (wire f ++ rest) (omega (arith, length-append (wire f) rest, length-wire f v)),
    take-append 1420 (wire f) rest (length-wire f v),
    drop-append 1420 (wire f) rest (length-wire f v),
    read_wire-wire f v,
  )

  -- What `encode` appends to a buffer is 1420 bytes, and `decode` reads the frame back from them
  -- and leaves what follows.
  pub decode-encode :
      (f : Frame) (dst rest : Bytes)
      → IsValid f
      → (w : Bytes) × (encode f dst ≡ (ok tt, dst ++ w))
        × (length w ≡ frame_size)
        × (decode (w ++ rest) ≡ (ok (some f), rest))
  decode-encode f dst rest v = (wire f, encode-wire f dst v, length-wire f v, decode-wire f rest v)

  pub from_slice-wire : (f : Frame) → IsValid f → from_slice (wire f) ≡ ok f
  from_slice-wire f v = rw (
    from_slice-read_wire (wire f) (omega (arith, length-wire f v)),
    take_all 1420 (wire f) (length-wire f v),
    read_wire-wire f v,
  )
