-- ===== src/Transport/Builder/Admitted.antt =====
-- The ClientHello of `PseudoTlsBuilder`, read by `parse_client_hello` and judged by
-- `TokenValidator`, all of src/transport/obfuscation.rs.
use echomesh_relay.Prelude.{
  ℕ, zero, suc, ◌+◌, ◌-◌, ◌*◌, ◌≤◌, min, ◌≡◌, refl, ap, ◌∙◌, inl, inr, true, false, some, [], ◌∷◌,
  ◌++◌, arith, ◌==◌, if◌then◌else◌, Bool-cases, length, length-append, take, drop, replicate,
  length-take_of_le, length-replicate, Bytes, to_be_bytes, length-to_be_bytes, ByteBuf,
}
use echomesh_relay.Protocol.Messages.ServerToClient.{Utf8, byte_at}
use echomesh_relay.Transport.Builder.{
  PseudoTlsBuilder, random_of, sni_string, build, default_secret_token,
}
use echomesh_relay.Transport.Builder.Built.{
  hello_of, extension_list, offered, groups, algorithms, key_share, build-wire,
}
use echomesh_relay.Transport.Hello.{
  ClientHelloStatus, to_ascii_lowercase, parse_client_hello, total_len,
}
use echomesh_relay.Transport.Hello.Wire.{
  Extension, ext_data, words, field, extension_wires, hello_body, hello_wire, AreWords, parsed,
  IsValid,
}
use echomesh_relay.Transport.Hello.Extensions.{length-words, length-field}
use echomesh_relay.Transport.Hello.Parsed.{
  total_len-hello_wire, length-hello_wire, parse_client_hello-wire,
}

drop-replicate : (m k a : ℕ) → drop m (replicate k a) ≡ replicate (k - m) a
unfolding drop replicate
drop-replicate zero k a = ap (λ n. replicate n a) (omega arith)
drop-replicate (suc m) zero a = let none_left : 0 - suc m ≡ 0 = omega arith in rw none_left refl
drop-replicate (suc m) (suc k) a = drop-replicate m k a ∙ ap (λ n. replicate n a) (omega arith)

-- The random, by the mode: the front of the token, padded, or the padding alone.
pub random_of-token :
    (builder : PseudoTlsBuilder)
    → builder.token_in_sni ≡ false
    → random_of builder
      ≡ take (min (length builder.secret_token) 32) builder.secret_token
        ++ replicate (32 - min (length builder.secret_token) 32) 0x5a
unfolding random_of
random_of-token builder h = let token = builder.secret_token in rw (h, drop-replicate) (given token)
  where
    given :
        (token : Bytes)
        → (let t = (if length token == 0 then default_secret_token else token) in
            take (min (length t) 32) t ++ replicate (32 - min (length t) 32) 0x5a)
          ≡ take (min (length token) 32) token ++ replicate (32 - min (length token) 32) 0x5a
    given [] = refl
    given (x ∷ xs) = let full : (length (x ∷ xs) == 0) ≡ false = ground arith in rw full

length-random_of : (builder : PseudoTlsBuilder) → length (random_of builder) ≡ 32
length-random_of builder = elim (Bool-cases builder.token_in_sni) [
  | inl named ↦ unfold random_of in rw named (length-replicate {A = ℕ} 32 0x5a)
  | inr plain ↦
      let n = min (length builder.secret_token) 32 in
      rw (random_of-token builder plain) (
        omega (
          arith,
          length-append (take n builder.secret_token) (replicate (32 - n) 0x5a),
          length-take_of_le n builder.secret_token (omega arith),
          length-replicate {A = ℕ} (32 - n) 0x5a,
        ))
]

length-extensions : (sni : Bytes) → length (extension_wires (extension_list sni)) ≡ 82 + length sni
length-extensions sni =
    let rest : Bytes = extension_wires (offered ∷ groups ∷ algorithms ∷ key_share ∷ []) in
    let d : Bytes = ext_data (Extension.host_name sni) in
    let constant : length rest ≡ 73 = unfold to_be_bytes replicate in refl in
    omega (
      arith,
      length-append (to_be_bytes 2 0) (field 2 d ++ rest),
      length-to_be_bytes 2 0,
      length-append (field 2 d) rest,
      length-field 2 d,
      length-field 2 (0 ∷ field 2 sni),
      length-field 2 sni,
    )

length-hello_of :
    (builder : PseudoTlsBuilder)
    → length (hello_wire (hello_of builder))
      ≡ 164 + 2 * length builder.cipher_suites + length (sni_string builder)
unfolding hello_body
length-hello_of builder =
    let es : Bytes = field 2 (extension_wires (extension_list (sni_string builder))) in
    let cs : Bytes = field 1 (0 ∷ []) ++ es in
    let ss : Bytes = field 2 (words builder.cipher_suites) ++ cs in
    let is : Bytes = field 1 (replicate 32 0x22) ++ ss in
    omega (
      arith,
      length-hello_wire (hello_of builder),
      length-append (to_be_bytes 2 0x0303) (random_of builder ++ is),
      length-to_be_bytes 2 0x0303,
      length-append (random_of builder) is,
      length-random_of builder,
      length-append (field 1 (replicate 32 0x22)) ss,
      length-field 1 (replicate 32 0x22),
      length-replicate {A = ℕ} 32 0x22,
      length-append (field 2 (words builder.cipher_suites)) cs,
      length-field 2 (words builder.cipher_suites),
      length-words builder.cipher_suites,
      length-append (field 1 (0 ∷ [])) es,
      length-field 1 (0 ∷ []),
      length-field 2 (extension_wires (extension_list (sni_string builder))),
      length-extensions (sni_string builder),
    )

module _ ⦃b : ByteBuf⦄ ⦃u : Utf8⦄ where
  -- The hello of a builder fits the record that the parser takes.
  pub record Fits (builder : PseudoTlsBuilder) : Type 0 where
    pub suites_fit : AreWords builder.cipher_suites
    pub sni_utf8 : u.is_utf8 (sni_string builder) ≡ true
    pub size_le : 164 + 2 * length builder.cipher_suites + length (sni_string builder) ≤ 4096

  hello_of-IsValid : (builder : PseudoTlsBuilder) → Fits builder → IsValid (hello_of builder)
  hello_of-IsValid builder v = record {
    version_fits = omega arith;
    random_len = length-random_of builder;
    session_id_fits = omega (arith, length-replicate {A = ℕ} 32 0x22);
    suites_fit = v.suites_fit;
    compression_fits = omega arith;
    extensions_fit = (
      v.sni_utf8,
      (
        ((omega arith, (omega arith, tt)), unfold to_be_bytes in omega arith),
        (
          (omega arith, λ e. omega arith, λ e. omega arith),
          (
            (omega arith, λ e. omega arith, λ e. omega arith),
            ((omega arith, λ e. omega arith, λ e. omega arith), tt),
          ),
        ),
      ),
    );
    record_fits = omega (arith, length-hello_of builder, v.size_le);
  }

  -- What `build` made, with anything behind it, is read as a ClientHello of version 0x0303 that
  -- offers TLS 1.3, with the builder's random, cipher suites and, in lower case, its name.
  pub parse_client_hello-build :
      (builder : PseudoTlsBuilder) (rest : Bytes)
      → Fits builder
      → parse_client_hello (build builder ++ rest)
        ≡ some (
            ClientHelloStatus.complete (record {
              legacy_version = 0x0303;
              random = random_of builder;
              session_id = replicate 32 0x22;
              cipher_suites = builder.cipher_suites;
              sni = some (to_ascii_lowercase (sni_string builder));
              is_tls13 = true;
            }))
  parse_client_hello-build builder rest v =
      let size = length-hello_of builder in
      rw (build-wire builder (omega (arith, v.size_le))) (
        parse_client_hello-wire (hello_of builder) rest (hello_of-IsValid builder v)
        ∙ unfold parsed in refl)

  -- What `build` made begins with the type of a handshake record, and gives its own length.
  pub build_front :
      (builder : PseudoTlsBuilder) (rest : Bytes)
      → Fits builder
      → (byte_at 0 (build builder ++ rest) ≡ 22)
        × (total_len (build builder ++ rest) ≡ length (build builder))
  build_front builder rest v =
      let size = length-hello_of builder in
      rw (build-wire builder (omega (arith, v.size_le))) (
        (unfold byte_at drop hello_wire in refl),
        total_len-hello_wire (hello_of builder) rest (hello_of-IsValid builder v),
      )
