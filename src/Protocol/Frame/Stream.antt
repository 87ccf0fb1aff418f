-- ===== src/Protocol/Frame/Stream.antt =====
-- The codec of src/protocol/frame.rs on a byte stream that arrives in pieces, as the framed reader
-- drives it: after each piece `decode` is called until it waits for more.
use echomesh_relay.Prelude.{
  ℕ, zero, suc, ◌≤◌, ◌<◌, ◌≡◌, refl, sym, ap, ◌∙◌, subst, inl, inr, Option, none, some, List, [],
  ◌∷◌, ◌++◌, append-nil, append_assoc, arith, length, length-append, Bytes, ByteBuf, Result, ok,
  err,
}
use echomesh_relay.Protocol.Error.{ProtocolError}
use echomesh_relay.Protocol.Frame.{Frame, decode, frame_size}
use echomesh_relay.Protocol.Frame.Wire.{IsValid, wire, length-wire, decode-wire, decode_takes}

abbrev pub AllValid : List Frame → Type 0
AllValid [] = Unit {0}
AllValid (f ∷ fs) = IsValid f × AllValid fs

abbrev pub wires : List Frame → Bytes
wires [] = []
wires (f ∷ fs) = wire f ++ wires fs

abbrev pub join : List Bytes → Bytes
join [] = []
join (c ∷ cs) = c ++ join cs

AllValid-append : (fs gs : List Frame) → AllValid (fs ++ gs) → AllValid gs
AllValid-append [] gs h = h
AllValid-append (f ∷ fs) gs h = AllValid-append fs gs h.1

-- Where two cuts of one string meet, the longer first part begins with the shorter.
split_longer :
    (xs ys zs ws : Bytes)
    → xs ++ ys ≡ zs ++ ws
    → length zs ≤ length xs
    → (us : Bytes) × (xs ≡ zs ++ us) × (us ++ ys ≡ ws)
split_longer xs ys [] ws e h = (xs, refl, e)
split_longer [] ys (z ∷ zs) ws e h = absurd (omega arith)
split_longer (x ∷ xs) ys (z ∷ zs) ws e h =
    let (us, front, back) = split_longer xs ys zs ws (cc) (omega arith) in (us, cc, back)

module _ ⦃b : ByteBuf⦄ where
  -- The frames that a buffer yields before `decode` waits or fails, and what is left.
  after_decode :
      (Bytes → List Frame × Bytes)
      → Result ProtocolError (Option Frame) × Bytes
      → List Frame × Bytes
  after_decode more (ok (some f), rest) = let r = more rest in (f ∷ r.0, r.1)
  after_decode more (ok none, rest) = ([], rest)
  after_decode more (err e, rest) = ([], rest)

  pub drain : ℕ → Bytes → List Frame × Bytes
  unfolding after_decode
  drain zero buf = ([], buf)
  drain (suc fuel) buf = after_decode (drain fuel) (decode buf)

  -- A piece of n bytes is drained with fuel for one frame for each byte that is there.
  pub receive : Bytes → List Bytes → List Frame × Bytes
  receive buf [] = ([], buf)
  receive buf (c ∷ cs) =
      let now = drain (length (buf ++ c)) (buf ++ c) in
      let later = receive now.1 cs in (now.0 ++ later.0, later.1)

  decode_waits : (s : Bytes) → length s < frame_size → decode s ≡ (ok none, s)
  decode_waits s short = elim (decode_takes s) [
    | inl (_, waits) ↦ waits
    | inr (full, _, _) ↦ absurd (omega arith)
  ]

  -- What `drain` makes of a prefix of a stream of frames.
  abbrev Drained : ℕ → Bytes → Bytes → List Frame → Type 0
  Drained fuel s t fs =
      (now later : List Frame) × (rest : Bytes) × (fs ≡ now ++ later)
      × (drain fuel s ≡ (now, rest))
      × (rest ++ t ≡ wires later)
      × (length rest < frame_size)

  one_more :
      (fuel : ℕ) (s t : Bytes) (f : Frame) (fs : List Frame) (us : Bytes)
      → IsValid f
      → s ≡ wire f ++ us
      → Drained fuel us t fs
      → Drained (suc fuel) s t (f ∷ fs)
  unfolding drain
  one_more fuel s t f fs us v e (now, later, rest, parts, run, left, short) =
      (f ∷ now, later, rest, ap (λ l. f ∷ l) parts, rw (e, decode-wire f us v, run), left, short)

  drain_prefix :
      (fuel : ℕ) (s t : Bytes) (fs : List Frame)
      → AllValid fs
      → s ++ t ≡ wires fs
      → length s ≤ fuel
      → Drained fuel s t fs
  drain_prefix zero [] t fs v e h = ([], fs, [], refl, unfold drain in refl, e, omega arith)
  drain_prefix zero (x ∷ s) t fs v e h = absurd (omega arith)
  drain_prefix (suc fuel) s t [] v e h =
      ([], [], s, refl, unfold drain in rw (decode_waits s short), e, short)
    where
      short : length s < frame_size
      short = omega (arith, ap length e, length-append s t)
  drain_prefix (suc fuel) s t (f ∷ fs) v e h = elim (decode_takes s) [
    | inl (short, waits) ↦ ([], f ∷ fs, s, refl, unfold drain in rw waits, e, short)
    | inr (full, _, _) ↦
        let (us, front, back) =
          split_longer s t (wire f) (wires fs) e (omega (arith, length-wire f v.0)) in
        one_more fuel s t f fs us v.0 front (
          drain_prefix fuel us t fs v.1 back
            (omega (arith, ap length front, length-append (wire f) us, length-wire f v.0)))
  ]

  from_buffer :
      (buf : Bytes) (pieces : List Bytes) (fs : List Frame)
      → AllValid fs
      → buf ++ join pieces ≡ wires fs
      → length buf < frame_size
      → receive buf pieces ≡ (fs, [])
  unfolding receive
  from_buffer buf [] [] v e h = ap (λ rest. ([], rest)) (sym (append-nil buf) ∙ e)
  from_buffer buf [] (f ∷ fs) v e h = absurd (
      omega (
        arith,
        ap length e,
        length-append buf [],
        length-append (wire f) (wires fs),
        length-wire f v.0,
      ))
  from_buffer buf (c ∷ cs) fs v e h =
      let (now, later, rest, parts, run, left, short) =
        drain_prefix (length (buf ++ c)) (buf ++ c) (join cs) fs v
          (append_assoc buf c (join cs) ∙ e) (omega arith) in
      let later_valid = AllValid-append now later (subst AllValid parts v) in
      rw (run, from_buffer rest cs later later_valid left short, parts)

  -- However the bytes of a sequence of valid frames are cut into pieces, repeated calls of
  -- `decode` on the buffer yield those frames, each once and in order, and keep no byte.
  pub receive-wires :
      (fs : List Frame) (pieces : List Bytes)
      → AllValid fs
      → join pieces ≡ wires fs
      → receive [] pieces ≡ (fs, [])
  receive-wires fs pieces v e = from_buffer [] pieces fs v e (omega arith)
