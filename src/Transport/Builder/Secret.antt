-- ===== src/Transport/Builder/Secret.antt =====
-- Which secret `TokenValidator` of src/transport/obfuscation.rs finds in the ClientHello of a
-- `PseudoTlsBuilder`.
use echomesh_relay.Prelude.{
  ℕ, suc, ◌+◌, ◌-◌, ◌*◌, ◌/◌, ◌%◌, ◌≤◌, ◌<◌, min, ◌≡◌, refl, sym, ap, ◌∙◌, subst, ◌↔◌, inl, inr,
  true, some, [], ◌∷◌, ◌++◌, append-nil, arith, length, length-append, take, replicate,
  length-take_of_le, take-append, take_all, Bytes, AreBytes, ByteBuf,
}
use echomesh_relay.Protocol.Messages.ServerToClient.{Utf8}
use echomesh_relay.Transport.Tokens
use echomesh_relay.Transport.Tokens.{ParsedClientHello, validate}
use echomesh_relay.Transport.Tokens.Match.{Names, validate_iff}
use echomesh_relay.Transport.Hex.{hex_encode, hex_digit, length-hex_encode}
use echomesh_relay.Transport.Builder
use echomesh_relay.Transport.Builder.{PseudoTlsBuilder, embed_in_sni, random_of, sni_string, build}
use echomesh_relay.Transport.Builder.Admitted.{random_of-token, Fits, parse_client_hello-build}
use echomesh_relay.Transport.Hello.{
  ClientHelloStatus, lower, to_ascii_lowercase, parse_client_hello,
}

length-lowercase : (s : Bytes) → length (to_ascii_lowercase s) ≡ length s
length-lowercase [] = refl
length-lowercase (c ∷ s) = ap suc (length-lowercase s)

lowercase-append :
    (s t : Bytes) → to_ascii_lowercase (s ++ t) ≡ to_ascii_lowercase s ++ to_ascii_lowercase t
lowercase-append [] t = refl
lowercase-append (c ∷ s) t = ap (λ r. lower c ∷ r) (lowercase-append s t)

lower-hex_digit : (d : ℕ) → d < 16 → lower (hex_digit d) ≡ hex_digit d
lower-hex_digit d h = ground arith

-- Hexadecimal digits are written in lower case.
lowercase-hex_encode : (s : Bytes) → AreBytes s → to_ascii_lowercase (hex_encode s) ≡ hex_encode s
unfolding hex_encode
lowercase-hex_encode [] v = refl
lowercase-hex_encode (x ∷ xs) v = rw (
  lower-hex_digit (x / 16) (omega arith),
  lower-hex_digit (x % 16) (omega arith),
  lowercase-hex_encode xs v.1,
)

module _ ⦃b : ByteBuf⦄ ⦃u : Utf8⦄ where
  pub new-Fits :
      (secret host : Bytes)
      → u.is_utf8 host ≡ true
      → length host ≤ 3926
      → Fits (Builder.new secret host)
  unfolding Builder.new sni_string
  new-Fits secret host v h = record {
    suites_fit = (omega arith, (omega arith, (omega arith, tt)));
    sni_utf8 = v;
    size_le = omega arith;
  }

  -- A client and a server with the same secret, of any length but 0: the server reads the
  -- ClientHello that the client's builder makes for a host of at most 3926 bytes, and admits it.
  pub same_secret_admitted :
      (secret host rest : Bytes)
      → 0 < length secret
      → u.is_utf8 host ≡ true
      → length host ≤ 3926
      → (hello : ParsedClientHello) × (parse_client_hello (build (Builder.new secret host) ++ rest)
          ≡ some (ClientHelloStatus.complete hello))
        × (validate (Tokens.new secret) hello ≡ true)
  unfolding Builder.new Tokens.new
  same_secret_admitted secret host rest pos v h =
      let n = min (length secret) 32 in
      let builder : PseudoTlsBuilder = Builder.new secret host in
      let pad : Bytes = replicate (32 - n) 0x5a in
      let front : take n (random_of builder) ≡ take n secret =
        ap (take n) (random_of-token builder refl)
        ∙ take-append n (take n secret) pad (length-take_of_le n secret (omega arith)) in
      (
        _,
        parse_client_hello-build builder rest (new-Fits secret host v h),
        (validate_iff (Tokens.new secret) _).1 (inr (pos, inl front)),
      )

  -- Of secrets of 32 bytes, for a host shorter than that, the server admits the ClientHello of a
  -- client exactly when the two have the same secret.
  pub secret_recognised :
      (mine theirs host rest : Bytes)
      → length mine ≡ 32
      → length theirs ≡ 32
      → u.is_utf8 host ≡ true
      → length host < 32
      → (hello : ParsedClientHello) × (parse_client_hello (build (Builder.new theirs host) ++ rest)
          ≡ some (ClientHelloStatus.complete hello))
        × ((validate (Tokens.new mine) hello ≡ true) ↔ (theirs ≡ mine))
  unfolding Builder.new Tokens.new sni_string
  secret_recognised mine theirs host rest m t v h =
      let builder : PseudoTlsBuilder = Builder.new theirs host in
      let all_mine : min (length mine) 32 ≡ 32 = omega arith in
      (
        _,
        parse_client_hello-build builder rest (new-Fits theirs host v (omega arith)),
        (
          λ admitted. elim ((validate_iff (Tokens.new mine) _).0 admitted) [
            | inl bypass ↦ cc
            | inr (_, inl front) ↦
                sym (take_all 32 theirs t)
                ∙ ap (take 32) (sym (whole theirs host t))
                ∙ subst (λ n. take n (random_of builder) ≡ take n mine) all_mine front
                ∙ take_all 32 mine m
            | inr (_, inr (sni, named, names)) ↦ absurd (short mine host m h sni (cc named) names)
          ],
          λ same. (validate_iff (Tokens.new mine) _).1 (
              inr
                (omega arith, inl (ap (take (min (length mine) 32)) (whole theirs host t ∙ same)))),
        ),
      )
    where
      -- A token of 32 bytes fills the random.
      whole : (token host : Bytes) → length token ≡ 32 → random_of (Builder.new token host) ≡ token
      whole token host t =
          let all : min (length token) 32 ≡ 32 = omega arith in
          let full : take (min (length token) 32) token ≡ token =
            ap (λ n. take n token) all ∙ take_all 32 token t in
          let nothing : replicate {A = ℕ} 0 0x5a ≡ [] = unfold replicate in refl in
          let none_left : replicate (32 - min (length token) 32) 0x5a ≡ [] =
            ap (λ n. replicate n 0x5a) (omega arith) ∙ nothing in
          random_of-token (Builder.new token host) refl
          ∙ ap (λ s. take (min (length token) 32) token ++ s) none_left
          ∙ append-nil (take (min (length token) 32) token)
          ∙ full

      -- A name that is shorter than the secret is not made of it.
      short :
          (mine host : Bytes)
          → length mine ≡ 32
          → length host < 32
          → (sni : Bytes) → to_ascii_lowercase host ≡ sni
          → Names (Tokens.new mine) sni
          → ⊥
      short mine host m h sni e (inl same) =
          omega (arith, length-lowercase host, ap length (e ∙ same))
      short mine host m h sni e (inr (inl (domain, dotted))) =
          omega
            (arith, length-lowercase host, ap length (e ∙ dotted), length-append mine (46 ∷ domain))
      short mine host m h sni e (inr (inr expected)) = cc

  -- With the secret in the name, for a secret of at least one byte and a name that is UTF-8 and
  -- short enough for the packet (twice the secret's length and the host's make at most 3925): the
  -- ClientHello is parsed whole, and a server whose secret is the client's in hexadecimal admits it.
  pub secret_in_sni_admitted :
      (secret host rest : Bytes)
      → 0 < length secret
      → AreBytes secret
      → u.is_utf8 (hex_encode secret ++ (46 ∷ host)) ≡ true
      → 2 * length secret + length host ≤ 3925
      → (hello : ParsedClientHello) × (parse_client_hello
            (build (embed_in_sni (Builder.new secret host) true) ++ rest)
          ≡ some (ClientHelloStatus.complete hello))
        × (validate (Tokens.new (hex_encode secret)) hello ≡ true)
  unfolding Builder.new Tokens.new embed_in_sni sni_string
  secret_in_sni_admitted secret host rest pos v utf8 h =
      let builder : PseudoTlsBuilder = embed_in_sni (Builder.new secret host) true in
      let name : to_ascii_lowercase (hex_encode secret ++ (46 ∷ host))
          ≡ hex_encode secret ++ (46 ∷ to_ascii_lowercase host) =
        lowercase-append (hex_encode secret) (46 ∷ host)
        ∙ ap (λ s. s ++ (46 ∷ to_ascii_lowercase host)) (lowercase-hex_encode secret v) in
      let fits : Fits builder = record {
        suites_fit = (omega arith, (omega arith, (omega arith, tt)));
        sni_utf8 = utf8;
        size_le =
            omega (arith, length-append (hex_encode secret) (46 ∷ host), length-hex_encode secret);
      } in
      (
        _,
        parse_client_hello-build builder rest fits,
        (validate_iff (Tokens.new (hex_encode secret)) _).1 (
            inr (
              omega (arith, length-hex_encode secret),
              inr (_, refl, inr (inl (to_ascii_lowercase host, name))),
            )),
      )
