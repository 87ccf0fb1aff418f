-- ===== src/Server/Prefixed.antt =====
-- `PrefixedStream` of src/server/listener.rs, which puts the bytes that the gate has read too many in
-- front of the connection. The inner stream is the bytes that the client still sends; how many of
-- them are there at a read is an argument.
use echomesh_relay.Prelude.{
  ℕ, ◌+◌, ◌-◌, ◌<◌, min, ◌≡◌, refl, sym, ap, ◌∙◌, ◌⊎◌, inl, inr, List, [], ◌∷◌, ◌++◌, append_assoc,
  arith, ltb, if◌then◌else◌, ltb→lt, not_ltb→le, Bool-cases, length, length-append, take, drop,
  take-append-drop, length-take, length-drop, drop_all, drop_more, Bytes,
}

pub record PrefixedStream : Type 0 where
  pub prefix : Bytes
  pub position : ℕ
  pub stream : Bytes

unfoldable pub new : Bytes → Bytes → PrefixedStream
new prefix stream = record { prefix = prefix; position = 0; stream = stream }

-- A read into a buffer with `remaining` bytes of room, when `ready` bytes have arrived.
unfoldable pub poll_read : (remaining ready : ℕ) → PrefixedStream → Bytes × PrefixedStream
poll_read remaining ready s =
    let to_read = min (length s.prefix - s.position) remaining in
    let got = min ready remaining in
    if ltb s.position (length s.prefix)
    then (take to_read (drop s.position s.prefix), record s { position = s.position + to_read })
    else (take got s.stream, record s { stream = drop got s.stream })

-- Reads one after the other, with what they have read together.
unfoldable pub read_each : List (ℕ × ℕ) → PrefixedStream → Bytes × PrefixedStream
unfolding poll_read
read_each [] s = ([], s)
read_each ((remaining, ready) ∷ more) s =
    let (bytes, s') = poll_read remaining ready s in
    let (rest, s'') = read_each more s' in (bytes ++ rest, s'')

-- What is still to be read.
abbrev pub unread : PrefixedStream → Bytes
unread s = drop s.position s.prefix ++ s.stream

read_one :
    (remaining ready : ℕ) (s : PrefixedStream)
    → let (bytes, s') = poll_read remaining ready s in bytes ++ unread s' ≡ unread s
unfolding poll_read
read_one remaining ready s = elim (Bool-cases (ltb s.position (length s.prefix))) [
  | inl inside ↦
      let n = min (length s.prefix - s.position) remaining in
      let front : Bytes = drop s.position s.prefix in
      rw inside (
        ap (λ t. take n front ++ (t ++ s.stream)) (sym (drop_more s.position n s.prefix))
        ∙ sym (append_assoc (take n front) (drop n front) s.stream)
        ∙ ap (λ t. t ++ s.stream) (take-append-drop n front))
  | inr past ↦
      let n = min ready remaining in
      let none_left : drop s.position s.prefix ≡ [] =
        drop_all s.position s.prefix (not_ltb→le s.position (length s.prefix) past) in
      rw (past, none_left) (take-append-drop n s.stream)
]

read_each-unread :
    (ops : List (ℕ × ℕ)) (s : PrefixedStream)
    → let (bytes, s') = read_each ops s in bytes ++ unread s' ≡ unread s
unfolding read_each
read_each-unread [] s = refl
read_each-unread ((remaining, ready) ∷ more) s =
    let (bytes, s') = poll_read remaining ready s in
    let (rest, s'') = read_each more s' in
    append_assoc bytes rest (unread s'')
    ∙ ap (λ t. bytes ++ t) (read_each-unread more s')
    ∙ read_one remaining ready s

-- A read with room, when something is there, gives something.
read_pos :
    (remaining ready : ℕ) (s : PrefixedStream)
    → 0 < remaining
    → 0 < ready
    → 0 < length (unread s)
    → 0 < length ((poll_read remaining ready s).0)
unfolding poll_read
read_pos remaining ready s room there some_left =
    elim (Bool-cases (ltb s.position (length s.prefix))) [
      | inl inside ↦
          let less = ltb→lt s.position (length s.prefix) inside in
          let n = min (length s.prefix - s.position) remaining in
          rw inside (
            omega
              (arith, length-take n (drop s.position s.prefix), length-drop s.position s.prefix))
      | inr past ↦
          let n = min ready remaining in
          let over = not_ltb→le s.position (length s.prefix) past in
          rw past (
            omega (
              arith,
              length-take n s.stream,
              length-append (drop s.position s.prefix) s.stream,
              length-drop s.position s.prefix,
            ))
    ]

-- Whatever the sizes of the reads and the arrivals between them, a stream gives its prefix and then
-- the inner stream, each byte once and in order; and a further read with room, when bytes have
-- arrived, gives at least one byte unless all are read.
pub read_each-new :
    (prefix stream : Bytes) (ops : List (ℕ × ℕ)) (remaining ready : ℕ)
    → 0 < remaining
    → 0 < ready
    → let (bytes, s) = read_each ops (new prefix stream) in
      (bytes ++ unread s ≡ prefix ++ stream)
      × ((unread s ≡ []) ⊎ (0 < length ((poll_read remaining ready s).0)))
unfolding new drop
read_each-new prefix stream ops remaining ready room there =
    let s : PrefixedStream = (read_each ops (new prefix stream)).1 in
    (
      read_each-unread ops (new prefix stream),
      none_or (unread s) (read_pos remaining ready s room there),
    )
  where
    none_or : {P : Type 0} → (bytes : Bytes) → (0 < length bytes → P) → (bytes ≡ []) ⊎ P
    none_or [] f = inl refl
    none_or (c ∷ bytes) f = inr (f (omega arith))
