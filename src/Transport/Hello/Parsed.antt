-- ===== src/Transport/Hello/Parsed.antt =====
-- `parse_client_hello` of src/transport/obfuscation.rs against the format of a ClientHello.
use echomesh_relay.Prelude.{
  ℕ, suc, ◌+◌, ◌*◌, ◌/◌, ◌%◌, ◌^◌, ◌≤◌, ◌<◌, bit_or, ◌≡◌, refl, ◌∙◌, true, false, none, some, List,
  [], ◌∷◌, ◌++◌, arith, ltb, leb, ◌==◌, le→not_ltb, length, length-append, drop, take-append,
  take_all, Bytes, to_be_bytes, from_be, length-to_be_bytes, bit_or_disjoint, ByteBuf,
  get_int-append, advance-append, ok,
}
use echomesh_relay.Protocol.Messages.ServerToClient.{Utf8, byte_at}
use echomesh_relay.Transport.Hello.{
  ClientHelloStatus, read_handshake, read_version, read_random, read_session_id, read_cipher_suites,
  skip_compression, read_extensions, parse_body, status, parse_client_hello, total_len,
}
use echomesh_relay.Transport.Hello.Wire.{
  Extension, ClientHello, words, field, extension_wires, hello_body, hello_wire, AreWords,
  hears_all, parsed, ExtensionsFit, IsValid,
}
use echomesh_relay.Transport.Hello.Extensions.{
  length-words, length-field, get_int-field, suites_loop-words, extensions_loop-wires,
}

-- The three bytes of a length, put together by `<<` and `|`.
three_bytes :
    (x y z : ℕ)
    → y < 256
    → z < 256
    → bit_or (bit_or (x * 2 ^ 16) (y * 2 ^ 8)) z ≡ x * 2 ^ 16 + y * 2 ^ 8 + z
three_bytes x y z g h =
    let high : bit_or (x * 2 ^ 16) (y * 2 ^ 8) ≡ (x * 2 ^ 8 + y) * 2 ^ 8 =
      bit_or_disjoint 16 x (y * 2 ^ 8) (omega arith) ∙ omega arith in
    rw (high, bit_or_disjoint 8 (x * 2 ^ 8 + y) z h) (omega arith)

pub length-hello_wire : (h : ClientHello) → length (hello_wire h) ≡ 9 + length (hello_body h)
unfolding hello_wire
length-hello_wire h =
    omega (arith, length-field 2 (1 ∷ field 3 (hello_body h)), length-field 3 (hello_body h))

-- The fields of variable length lie within the body.
pub fields_fit :
    (h : ClientHello)
    → (length (words h.cipher_suites) ≤ length (hello_body h))
      × (length (extension_wires h.extensions) ≤ length (hello_body h))
unfolding hello_body
fields_fit h =
    let es : Bytes = field 2 (extension_wires h.extensions) in
    let cs : Bytes = field 1 h.compression ++ es in
    let ss : Bytes = field 2 (words h.cipher_suites) ++ cs in
    let is : Bytes = field 1 h.session_id ++ ss in
    omega (
      arith,
      length-append (to_be_bytes 2 h.legacy_version) (h.random ++ is),
      length-append h.random is,
      length-append (field 1 h.session_id) ss,
      length-append (field 2 (words h.cipher_suites)) cs,
      length-append (field 1 h.compression) es,
      length-field 2 (words h.cipher_suites),
      length-field 2 (extension_wires h.extensions),
    )

module _ ⦃b : ByteBuf⦄ where
  read_handshake-wire : (s : Bytes) → length s < 2 ^ 16 → read_handshake (1 ∷ field 3 s) ≡ ok s
  unfolding read_handshake
  read_handshake-wire s h =
      let n : ℕ = length s in
      let next : b.advance 1 (1 ∷ field 3 s) ≡ field 3 s =
        advance-append 1 (1 ∷ []) (field 3 s) refl in
      let body : b.advance 3 (field 3 s) ≡ s =
        advance-append 3 (to_be_bytes 3 n) s (length-to_be_bytes 3 n) in
      let long : ltb (length (field 3 s)) 3 ≡ false = ground (arith, length-field 3 s) in
      let value : bit_or (bit_or (byte_at 0 (field 3 s) * 2 ^ 16) (byte_at 1 (field 3 s) * 2 ^ 8))
            (byte_at 2 (field 3 s))
          ≡ n =
        unfold byte_at drop to_be_bytes in
        (three_bytes (n / 256 / 256 % 256) (n / 256 % 256) (n % 256) (omega arith) (omega arith)
          ∙ omega arith) in
      let room : ltb n n ≡ false = ground arith in
      let kind : byte_at 0 (1 ∷ field 3 s) ≡ 1 = unfold byte_at drop in refl in
      let full : (length (1 ∷ field 3 s) == 0) ≡ false = ground arith in
      rw (full, kind, next, long, value, body, room, take_all n s refl) refl

  read_version-wire :
      (v : ℕ) (rest : Bytes) → v < 256 ^ 2 → read_version (to_be_bytes 2 v ++ rest) ≡ ok (v, rest)
  unfolding read_version
  read_version-wire v rest h =
      let size = length-append (to_be_bytes 2 v) rest in
      let two = length-to_be_bytes 2 v in
      let long : ltb (length (to_be_bytes 2 v ++ rest)) 2 ≡ false = ground arith in
      rw (long, get_int-append 2 v rest h) refl

  read_random-wire :
      (random rest : Bytes) → length random ≡ 32 → read_random (random ++ rest) ≡ ok (random, rest)
  unfolding read_random
  read_random-wire random rest h =
      let size = length-append random rest in
      let long : ltb (length (random ++ rest)) 32 ≡ false = ground arith in
      rw (long, take-append 32 random rest h, advance-append 32 random rest h) refl

  -- A field is there, and as long as it says.
  field_room :
      (w : ℕ) (s rest : Bytes)
      → (length (field w s ++ rest) ≡ w + length (s ++ rest))
        × (ltb (length (s ++ rest)) (length s) ≡ false)
  field_room w s rest = (
    omega (arith, length-append (field w s) rest, length-field w s, length-append s rest),
    le→not_ltb (length (s ++ rest)) (length s) (omega (arith, length-append s rest)),
  )

  read_session_id-wire :
      (id rest : Bytes) → length id < 256 → read_session_id (field 1 id ++ rest) ≡ ok (id, rest)
  unfolding read_session_id
  read_session_id-wire id rest h =
      let (size, room) = field_room 1 id rest in
      let full : (length (field 1 id ++ rest) == 0) ≡ false = ground arith in
      rw
        (
          full,
          get_int-field 1 id rest (omega arith),
          room,
          take-append _ id rest refl,
          advance-append _ id rest refl,
        )
        refl

  read_cipher_suites-wire :
      (suites : List ℕ) (rest : Bytes)
      → AreWords suites
      → length (words suites) < 256 ^ 2
      → read_cipher_suites (field 2 (words suites) ++ rest) ≡ ok (suites, rest)
  unfolding read_cipher_suites
  read_cipher_suites-wire suites rest v h =
      let s = words suites in
      let (size, room) = field_room 2 s rest in
      let full : ltb (length (field 2 s ++ rest)) 2 ≡ false = ground arith in
      let even : (length s % 2 == 0) ≡ true = ground (arith, length-words suites) in
      rw
        (
          full,
          get_int-field 2 s rest h,
          room,
          even,
          take-append _ s rest refl,
          advance-append _ s rest refl,
          suites_loop-words (suc (length s)) suites [] v (omega arith),
        )
        refl

  skip_compression-wire :
      (methods rest : Bytes)
      → length methods < 256
      → skip_compression (field 1 methods ++ rest) ≡ ok rest
  unfolding skip_compression
  skip_compression-wire methods rest h =
      let (size, room) = field_room 1 methods rest in
      let full : (length (field 1 methods ++ rest) == 0) ≡ false = ground arith in
      rw
        (full, get_int-field 1 methods rest (omega arith), room, advance-append _ methods rest refl)
        refl

  module _ ⦃u : Utf8⦄ where
    read_extensions-wire :
        (es : List Extension)
        → ExtensionsFit es
        → length (extension_wires es) < 256 ^ 2
        → read_extensions (field 2 (extension_wires es)) ≡ ok (hears_all es (none, false))
    unfolding read_extensions
    read_extensions-wire es v h =
        let s = extension_wires es in
        let n = length s in
        let full : leb 2 (length (field 2 s)) ≡ true = ground (arith, length-field 2 s) in
        let room : ltb n n ≡ false = ground arith in
        rw (full, get_int-append 2 n s h, room, take_all n s refl)
          (extensions_loop-wires (suc n) es (none, false) v h (omega arith))

    parse_body-wire :
        (h : ClientHello) → IsValid h → parse_body (1 ∷ field 3 (hello_body h)) ≡ ok (parsed h)
    unfolding parse_body parsed hello_body
    parse_body-wire h v =
        let (suites_le, extensions_le) = fields_fit h in
        let size = length-hello_wire h in
        let small = v.record_fits in
        let es : Bytes = field 2 (extension_wires h.extensions) in
        let cs : Bytes = field 1 h.compression ++ es in
        let ss : Bytes = field 2 (words h.cipher_suites) ++ cs in
        let is : Bytes = field 1 h.session_id ++ ss in
        rw
          (
            read_handshake-wire (hello_body h) (omega arith),
            hello_body,
            read_version-wire h.legacy_version (h.random ++ is) v.version_fits,
            read_random-wire h.random is v.random_len,
            read_session_id-wire h.session_id ss v.session_id_fits,
            read_cipher_suites-wire h.cipher_suites cs v.suites_fit (omega arith),
            skip_compression-wire h.compression es v.compression_fits,
            read_extensions-wire h.extensions v.extensions_fit (omega arith),
          )
          refl

    pub total_len-hello_wire :
        (h : ClientHello) (rest : Bytes)
        → IsValid h
        → total_len (hello_wire h ++ rest) ≡ length (hello_wire h)
    total_len-hello_wire h rest v =
        let size = length-hello_wire h in
        unfold byte_at drop hello_wire to_be_bytes from_be in
        omega (arith, length-field 3 (hello_body h), v.record_fits)

    -- A well-formed ClientHello, with anything behind it, is read completely: the version, the
    -- random, the session id and the cipher suites as they were written, the last name that the
    -- extensions give, in lower case, and whether they offer TLS 1.3.
    pub parse_client_hello-wire :
        (h : ClientHello) (rest : Bytes)
        → IsValid h
        → parse_client_hello (hello_wire h ++ rest) ≡ some (ClientHelloStatus.complete (parsed h))
    unfolding parse_client_hello
    parse_client_hello-wire h rest v =
        let s : Bytes = hello_wire h ++ rest in
        let size = length-hello_wire h in
        let whole = length-append (hello_wire h) rest in
        let rear : drop 5 (hello_wire h) ≡ 1 ∷ field 3 (hello_body h) =
          unfold drop hello_wire to_be_bytes in refl in
        let kind : byte_at 0 s ≡ 22 = unfold byte_at drop hello_wire in refl in
        rw
          (
            le→not_ltb (length s) 5 (omega arith),
            kind,
            total_len-hello_wire h rest v,
            le→not_ltb 4096 (length (hello_wire h)) v.record_fits,
            le→not_ltb (length s) (length (hello_wire h)) (omega arith),
            take-append (length (hello_wire h)) (hello_wire h) rest refl,
            rear,
            parse_body-wire h v,
          )
          (unfold status in refl)
