-- ===== src/Transport/Hello/Total.antt =====
-- The loops of `parse_client_hello` in src/transport/obfuscation.rs end.
use echomesh_relay.Prelude.{
  ℕ, zero, suc, ◌+◌, ◌≤◌, ◌<◌, ◌≡◌, refl, ◌≢◌, Bool, false, Option, none, some, List, [], ◌∷◌, ◌++◌,
  arith, length, take, drop, length-take, length-drop, Bytes, ByteBuf, Result, ◌>>=◌, ok, err,
}
use echomesh_relay.Protocol.Messages.ServerToClient.{Utf8}
use echomesh_relay.Transport.Tokens.{ParsedClientHello}
use echomesh_relay.Transport.Hello.{
  Stop, Said, ClientHelloStatus, read_handshake, read_version, read_random, read_session_id,
  suites_loop, read_cipher_suites, skip_compression, versions_loop, supported_versions, extension,
  extensions_loop, read_extensions, parse_body, status, parse_client_hello, total_len,
}

abbrev Finishes {ℓ} : {A : Type ℓ} → Result Stop A → Type ℓ
Finishes {A = A} r = r ≢ err Stop.out_of_fuel

Finishes-bind {μ ν} :
    {X : Type μ} {Y : Type ν} (m : Result Stop X) (f : X → Result Stop Y)
    → Finishes m
    → ((x : X) → Finishes (f x))
    → Finishes (m >>= f)
Finishes-bind (ok x) f h k = k x
Finishes-bind (err (Stop.refused e)) f h k = λ q. cc
Finishes-bind (err Stop.out_of_fuel) f h k = absurd (h refl)

Finishes-ok {ℓ} : {A : Type ℓ} (a : A) → Finishes (ok a)
Finishes-ok a h = cc

module _ ⦃b : ByteBuf⦄ where
  -- A read of a number shortens the slice.
  length-get_int : (w : ℕ) (s : Bytes) → w ≤ length s → w + length ((b.get_int w s).1) ≡ length s
  length-get_int w s h = rw (b.get_int_lem w s h) (omega (arith, length-drop w s))

  length-advance : (n : ℕ) (s : Bytes) → n ≤ length s → n + length (b.advance n s) ≡ length s
  length-advance n s h = rw (b.advance_lem n s h) (omega (arith, length-drop n s))

  suites_loop-Finishes :
      (fuel : ℕ) (s : Bytes) (acc : List ℕ) → length s < fuel → Finishes (suites_loop fuel s acc)
  unfolding suites_loop
  suites_loop-Finishes zero s acc h = absurd (omega arith)
  suites_loop-Finishes (suc fuel) s acc h =
      let (suite, rest) = b.get_int 2 s in
      ground (arith, length-get_int 2 s, suites_loop-Finishes fuel rest (acc ++ (suite ∷ [])))

  versions_loop-Finishes :
      (fuel : ℕ) (s : Bytes) (v : Bool) → length s < fuel → Finishes (versions_loop fuel s v)
  unfolding versions_loop
  versions_loop-Finishes zero s v h = absurd (omega arith)
  versions_loop-Finishes (suc fuel) s v h =
      let rest : Bytes = (b.get_int 2 s).1 in
      ground (arith, length-get_int 2 s, versions_loop-Finishes fuel rest v)

  length-take_lt : (n : ℕ) (s : Bytes) → length (take n s) < suc n
  length-take_lt n s = omega (arith, length-take n s)

  read_handshake-Finishes : (s : Bytes) → Finishes (read_handshake s)
  unfolding read_handshake
  read_handshake-Finishes s = ground arith

  read_version-Finishes : (s : Bytes) → Finishes (read_version s)
  unfolding read_version
  read_version-Finishes s = ground arith

  read_random-Finishes : (s : Bytes) → Finishes (read_random s)
  unfolding read_random
  read_random-Finishes s = ground arith

  read_session_id-Finishes : (s : Bytes) → Finishes (read_session_id s)
  unfolding read_session_id
  read_session_id-Finishes s = ground arith

  read_cipher_suites-Finishes : (s : Bytes) → Finishes (read_cipher_suites s)
  unfolding read_cipher_suites
  read_cipher_suites-Finishes s =
      let (n, rest) = b.get_int 2 s in
      let pair : List ℕ → Result Stop (List ℕ × Bytes) = λ suites. ok (suites, b.advance n rest) in
      let loop : Finishes (suites_loop (suc n) (take n rest) [] >>= pair) =
        Finishes-bind (suites_loop (suc n) (take n rest) []) pair
          (suites_loop-Finishes (suc n) (take n rest) [] (length-take_lt n rest))
          (λ suites. Finishes-ok (suites, b.advance n rest)) in
      ground arith

  skip_compression-Finishes : (s : Bytes) → Finishes (skip_compression s)
  unfolding skip_compression
  skip_compression-Finishes s = ground arith

  supported_versions-Finishes : (s : Bytes) (v : Bool) → Finishes (supported_versions s v)
  unfolding supported_versions
  supported_versions-Finishes s v =
      let (n, rest) = b.get_int 1 s in
      let scan = versions_loop-Finishes (suc n) (take n rest) v (length-take_lt n rest) in
      ground arith

  module _ ⦃u : Utf8⦄ where
    extension-Finishes : (t : ℕ) (s : Bytes) (said : Said) → Finishes (extension t s said)
    unfolding extension
    extension-Finishes t s said =
        let pair : Bool → Result Stop Said = λ v. ok (said.0, v) in
        let versions : Finishes (supported_versions s said.1 >>= pair) =
          Finishes-bind (supported_versions s said.1) pair (supported_versions-Finishes s said.1)
            (λ v. Finishes-ok (said.0, v)) in
        ground arith

    extensions_loop-Finishes :
        (fuel : ℕ) (s : Bytes) (said : Said)
        → length s < fuel
        → Finishes (extensions_loop fuel s said)
    unfolding extensions_loop
    extensions_loop-Finishes zero s said h = absurd (omega arith)
    extensions_loop-Finishes (suc fuel) s said h =
        let (t, s') = b.get_int 2 s in
        let (n, s'') = b.get_int 2 s' in
        let round : 4 ≤ length s
            → n ≤ length s''
            → Finishes (
                extension t (take n s'') said >>= λ said'.
                extensions_loop fuel (b.advance n s'') said') =
          λ long fits. Finishes-bind _ _ (extension-Finishes t (take n s'') said) λ said'.
            extensions_loop-Finishes fuel (b.advance n s'') said'
              (omega (arith, length-get_int 2 s, length-get_int 2 s', length-advance n s'' fits)) in
        ground (arith, round)

    read_extensions-Finishes : (s : Bytes) → Finishes (read_extensions s)
    unfolding read_extensions
    read_extensions-Finishes s =
        let (n, rest) = b.get_int 2 s in
        let loop =
          extensions_loop-Finishes (suc n) (take n rest) (none, false) (length-take_lt n rest) in
        ground arith

    parse_body-Finishes : (s : Bytes) → Finishes (parse_body s)
    unfolding parse_body
    parse_body-Finishes s = Finishes-bind _ _ (read_handshake-Finishes s) λ hs.
        Finishes-bind _ _ (read_version-Finishes hs) λ (_, hs).
          Finishes-bind _ _ (read_random-Finishes hs) λ (_, hs).
            Finishes-bind _ _ (read_session_id-Finishes hs) λ (_, hs).
              Finishes-bind _ _ (read_cipher_suites-Finishes hs) λ (_, hs).
                Finishes-bind _ _ (skip_compression-Finishes hs)
                  λ hs. Finishes-bind _ _ (read_extensions-Finishes hs) λ _. Finishes-ok _

    status_total :
        (r : Result Stop ParsedClientHello)
        → Finishes r
        → (st : ClientHelloStatus) × (status r ≡ some st)
    unfolding status
    status_total (ok hello) h = (ClientHelloStatus.complete hello, refl)
    status_total (err (Stop.refused e)) h = (ClientHelloStatus.invalid e, refl)
    status_total (err Stop.out_of_fuel) h = absurd (h refl)

    -- On every input `parse_client_hello` ends with a status: its loops over the cipher suites, the
    -- extensions and the versions end within one round for each byte that they were given.
    pub parse_client_hello_total :
        (src : Bytes) → (st : ClientHelloStatus) × (parse_client_hello src ≡ some st)
    unfolding parse_client_hello
    parse_client_hello_total src =
        let body : Bytes = drop 5 (take (total_len src) src) in
        let (st, e) = status_total (parse_body body) (parse_body-Finishes body) in
        ended _ (ground (arith, e))
      where
        ended : (o : Option ClientHelloStatus) → o ≢ none → (st : ClientHelloStatus) × (o ≡ some st)
        ended none h = absurd (h refl)
        ended (some st) h = (st, refl)
