-- ===== src/Transport/Builder/Built.antt =====
-- What `PseudoTlsBuilder::build` of src/transport/obfuscation.rs makes is a ClientHello, and what
-- the parser and the validator make of it.
use echomesh_relay.Prelude.{
  ℕ, ◌+◌, ◌*◌, ◌/◌, ◌%◌, ◌^◌, ◌≤◌, ◌<◌, ◌≡◌, refl, sym, ap, ◌∙◌, List, [], ◌∷◌, ◌++◌, append-nil,
  append_assoc, arith, length, length-append, replicate, length-replicate, Bytes, to_be_bytes,
  ByteBuf,
}
use native.Mathlib.Nat.{mod-eq_of_lt}
use echomesh_relay.Transport.Builder.{
  PseudoTlsBuilder, random_of, sni_string, put_all, put_server_name, put_versions, put_groups,
  put_algorithms, put_key_share, extensions_of, body_of, build,
}
use echomesh_relay.Transport.Hello.Wire.{
  ext_type, ext_data, Extension, ClientHello, host_name, versions, other, words, field,
  extension_wires, hello_body, hello_wire,
}
use echomesh_relay.Transport.Hello.Extensions.{length-words, length-field}
use echomesh_relay.Transport.Hello.Parsed.{fields_fit, length-hello_wire}

-- The extensions of a builder, by their meaning.
abbrev pub offered : Extension
offered = versions (0x0304 ∷ 0x0303 ∷ [])

abbrev pub groups : Extension
groups = other 0x000a (words (4 ∷ 0x001d ∷ 0x0017 ∷ []))

abbrev pub algorithms : Extension
algorithms = other 0x000d (words (6 ∷ 0x0403 ∷ 0x0804 ∷ 0x0807 ∷ []))

abbrev pub key_share : Extension
key_share = other 0x0033 (words (36 ∷ 0x001d ∷ 32 ∷ []) ++ replicate 32 0x42)

abbrev pub extension_list : Bytes → List Extension
extension_list sni = host_name sni ∷ offered ∷ groups ∷ algorithms ∷ key_share ∷ []

abbrev pub hello_of : PseudoTlsBuilder → ClientHello
hello_of builder = record {
  legacy_version = 0x0303;
  random = random_of builder;
  session_id = replicate 32 0x22;
  cipher_suites = builder.cipher_suites;
  compression = 0 ∷ [];
  extensions = extension_list (sni_string builder);
}

module _ ⦃b : ByteBuf⦄ where
  put_all-words : (dst : Bytes) (xs : List ℕ) → put_all dst xs ≡ dst ++ words xs
  unfolding put_all
  put_all-words dst [] = sym (append-nil dst)
  put_all-words dst (x ∷ xs) =
      put_all-words (b.put_int 2 dst x) xs
      ∙ rw (b.put_int_lem 2 dst x) (append_assoc dst (to_be_bytes 2 x) (words xs))

  -- An extension behind what is there.
  abbrev ext_wire : Extension → Bytes
  ext_wire e = to_be_bytes 2 (ext_type e) ++ field 2 (ext_data e)

  put_server_name-wire :
      (dst sni : Bytes)
      → length sni < 2 ^ 15
      → put_server_name dst sni ≡ dst ++ ext_wire (host_name sni)
  unfolding put_server_name
  put_server_name-wire dst sni h =
      let n = length sni in
      let inner = length-field 2 sni in
      let list_len : length (0 ∷ field 2 sni) ≡ 1 + 2 + n = omega arith in
      let data_len : length (field 2 (0 ∷ field 2 sni)) ≡ 2 + (1 + 2 + n) =
        omega (arith, length-field 2 (0 ∷ field 2 sni)) in
      let zero_byte : to_be_bytes 1 0 ≡ 0 ∷ [] = unfold to_be_bytes in refl in
      let fits_n : n % 2 ^ 16 ≡ n = mod-eq_of_lt (omega arith) in
      let fits_list : (1 + 2 + n) % 2 ^ 16 ≡ 1 + 2 + n = mod-eq_of_lt (omega arith) in
      let fits_data : (2 + (1 + 2 + n)) % 2 ^ 16 ≡ 2 + (1 + 2 + n) = mod-eq_of_lt (omega arith) in
      rw (data_len, list_len, fits_n, fits_list, fits_data)
        (simp (b.put_int_lem, b.put_slice_lem, append_assoc, zero_byte))

  put_versions-wire : (dst : Bytes) → put_versions dst ≡ dst ++ ext_wire offered
  unfolding put_versions
  put_versions-wire dst =
      let front : Bytes = words (43 ∷ 5 ∷ []) in
      let rear : Bytes = words (0x0304 ∷ 0x0303 ∷ []) in
      let here : front ++ (to_be_bytes 1 4 ++ rear) ≡ ext_wire offered =
        unfold to_be_bytes in refl in
      rw (put_all-words, b.put_int_lem, put_all-words)
        (append_assoc (dst ++ front) (to_be_bytes 1 4) rear
          ∙ append_assoc dst front (to_be_bytes 1 4 ++ rear)
          ∙ ap (λ t. dst ++ t) here)

  put_groups-wire : (dst : Bytes) → put_groups dst ≡ dst ++ ext_wire groups
  unfolding put_groups
  put_groups-wire dst =
      let written : words (10 ∷ 6 ∷ 4 ∷ 0x001d ∷ 0x0017 ∷ []) ≡ ext_wire groups =
        unfold to_be_bytes in refl in
      put_all-words dst (10 ∷ 6 ∷ 4 ∷ 0x001d ∷ 0x0017 ∷ []) ∙ ap (λ t. dst ++ t) written

  put_algorithms-wire : (dst : Bytes) → put_algorithms dst ≡ dst ++ ext_wire algorithms
  unfolding put_algorithms
  put_algorithms-wire dst =
      let written : words (13 ∷ 8 ∷ 6 ∷ 0x0403 ∷ 0x0804 ∷ 0x0807 ∷ []) ≡ ext_wire algorithms =
        unfold to_be_bytes in refl in
      put_all-words dst (13 ∷ 8 ∷ 6 ∷ 0x0403 ∷ 0x0804 ∷ 0x0807 ∷ []) ∙ ap (λ t. dst ++ t) written

  put_key_share-wire : (dst : Bytes) → put_key_share dst ≡ dst ++ ext_wire key_share
  unfolding put_key_share
  put_key_share-wire dst =
      let front : Bytes = words (51 ∷ 38 ∷ 36 ∷ 0x001d ∷ 32 ∷ []) in
      let written : front ++ replicate 32 0x42 ≡ ext_wire key_share =
        unfold to_be_bytes replicate in refl in
      rw (put_all-words, b.put_bytes_lem)
        (append_assoc dst front (replicate 32 0x42) ∙ ap (λ t. dst ++ t) written)

  next_wire :
      (dst : Bytes) (e : Extension) (es : List Extension)
      → (dst ++ ext_wire e) ++ extension_wires es ≡ dst ++ extension_wires (e ∷ es)
  next_wire dst e es =
      append_assoc dst (ext_wire e) (extension_wires es)
      ∙ ap (λ t. dst ++ t)
          (append_assoc (to_be_bytes 2 (ext_type e)) (field 2 (ext_data e)) (extension_wires es))

  extensions_of-wires :
      (builder : PseudoTlsBuilder)
      → length (sni_string builder) < 2 ^ 15
      → extensions_of builder ≡ extension_wires (extension_list (sni_string builder))
  unfolding extensions_of
  extensions_of-wires builder h =
      let n : Extension = host_name (sni_string builder) in
      let w1 : Bytes = [] ++ ext_wire n in
      let w2 : Bytes = w1 ++ ext_wire offered in
      let w3 : Bytes = w2 ++ ext_wire groups in
      let w4 : Bytes = w3 ++ ext_wire algorithms in
      rw
        (
          put_server_name-wire [] (sni_string builder) h,
          put_versions-wire,
          put_groups-wire,
          put_algorithms-wire,
          put_key_share-wire,
        )
        (sym (append-nil (w4 ++ ext_wire key_share))
          ∙ next_wire w4 key_share []
          ∙ next_wire w3 algorithms (key_share ∷ [])
          ∙ next_wire w2 groups (algorithms ∷ key_share ∷ [])
          ∙ next_wire w1 offered (groups ∷ algorithms ∷ key_share ∷ [])
          ∙ next_wire [] n (offered ∷ groups ∷ algorithms ∷ key_share ∷ []))

  body_of-wire :
      (builder : PseudoTlsBuilder)
      → length (sni_string builder) < 2 ^ 15
      → length builder.cipher_suites < 2 ^ 15
      → length (extension_wires (extension_list (sni_string builder))) < 2 ^ 16
      → body_of builder ≡ hello_body (hello_of builder)
  unfolding body_of hello_body
  body_of-wire builder h g f =
      let cs = builder.cipher_suites in
      let c : ℕ = length cs * 2 in
      let es : Bytes = extension_wires (extension_list (sni_string builder)) in
      let zero_byte : to_be_bytes 1 0 ≡ 0 ∷ [] = unfold to_be_bytes in refl in
      let fits_suites : c % 2 ^ 16 ≡ c = mod-eq_of_lt (omega arith) in
      let fits_extensions : length es % 2 ^ 16 ≡ length es = mod-eq_of_lt (omega arith) in
      let suites_len : length (words cs) ≡ c = omega (arith, length-words cs) in
      let id_len : length {A = ℕ} (replicate 32 0x22) ≡ 32 = length-replicate 32 0x22 in
      rw (extensions_of-wires builder h, fits_suites, fits_extensions, suites_len, id_len)
        (simp
          (b.put_int_lem, b.put_slice_lem, b.put_bytes_lem, put_all-words, append_assoc, zero_byte))

  sni_fits : (sni : Bytes) → length sni ≤ length (extension_wires (extension_list sni))
  sni_fits sni =
      let rest : Bytes = extension_wires (offered ∷ groups ∷ algorithms ∷ key_share ∷ []) in
      let d : Bytes = ext_data (host_name sni) in
      omega (
        arith,
        length-append (to_be_bytes 2 0) (field 2 d ++ rest),
        length-append (field 2 d) rest,
        length-field 2 d,
        length-field 2 (0 ∷ field 2 sni),
        length-field 2 sni,
      )

  -- `build` writes the record that the format gives.
  pub build-wire :
      (builder : PseudoTlsBuilder)
      → length (hello_wire (hello_of builder)) ≤ 4096
      → build builder ≡ hello_wire (hello_of builder)
  unfolding build hello_wire
  build-wire builder h =
      let hello : ClientHello = hello_of builder in
      let n : ℕ = length (hello_body hello) in
      let whole = length-hello_wire hello in
      let (suites_le, extensions_le) = fields_fit hello in
      let name_le = sni_fits (sni_string builder) in
      let suites_len = length-words builder.cipher_suites in
      let inner : length (1 ∷ field 3 (hello_body hello)) ≡ 4 + n =
        omega (arith, length-field 3 (hello_body hello)) in
      let fits : (4 + n) % 2 ^ 16 ≡ 4 + n = mod-eq_of_lt (omega arith) in
      let high : n / 2 ^ 16 ≡ n / 256 / 256 = omega arith in
      rw (body_of-wire builder (omega arith) (omega arith) (omega arith), inner, fits, high)
        (unfold to_be_bytes in refl)
