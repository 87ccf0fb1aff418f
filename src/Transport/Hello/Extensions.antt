-- ===== src/Transport/Hello/Extensions.antt =====
-- The loops of `parse_client_hello` in src/transport/obfuscation.rs, on what is written in the
-- format.
use echomesh_relay.Prelude.{
  ℕ, zero, suc, ◌+◌, ◌*◌, ◌^◌, ◌<◌, ◌≡◌, refl, sym, ap, ◌∙◌, inl, inr, Bool, true, false, Option,
  some, List, [], ◌∷◌, ◌++◌, append-nil, append_assoc, arith, ltb, leb, ◌==◌, if◌then◌else◌,
  le→not_ltb, Bool-cases, length, length-append, take-append, take_all, Bytes, to_be_bytes,
  length-to_be_bytes, ByteBuf, get_int-append, advance-append, ok,
}
use echomesh_relay.Protocol.Messages.ServerToClient.{Utf8}
use echomesh_relay.Transport.Hello.{
  Said, suites_loop, versions_loop, supported_versions, server_name, extension, extensions_loop,
  to_ascii_lowercase,
}
use echomesh_relay.Transport.Hello.Wire.{
  Extension, host_name, versions, other, words, field, ext_type, ext_data, extension_wires,
  AreWords, has_tls13, hears, hears_all, ExtensionFits, ExtensionsFit,
}

pub length-words : (xs : List ℕ) → length (words xs) ≡ 2 * length xs
length-words [] = omega arith
length-words (x ∷ xs) =
    omega
      (arith, length-append (to_be_bytes 2 x) (words xs), length-to_be_bytes 2 x, length-words xs)

pub length-field : (w : ℕ) (s : Bytes) → length (field w s) ≡ w + length s
length-field w s =
    omega (arith, length-append (to_be_bytes w (length s)) s, length-to_be_bytes w (length s))

module _ ⦃b : ByteBuf⦄ where
  pub get_int-field :
      (w : ℕ) (s rest : Bytes)
      → length s < 256 ^ w
      → b.get_int w (field w s ++ rest) ≡ (length s, s ++ rest)
  get_int-field w s rest h =
      rw (append_assoc (to_be_bytes w (length s)) s rest)
        (get_int-append w (length s) (s ++ rest) h)

  get_int-field_alone :
      (w : ℕ) (s : Bytes) → length s < 256 ^ w → b.get_int w (field w s) ≡ (length s, s)
  get_int-field_alone w s h = get_int-append w (length s) s h

  pub suites_loop-words :
      (fuel : ℕ) (xs acc : List ℕ)
      → AreWords xs
      → length (words xs) < fuel
      → suites_loop fuel (words xs) acc ≡ ok (acc ++ xs)
  unfolding suites_loop
  suites_loop-words zero xs acc v h = absurd (omega arith)
  suites_loop-words (suc fuel) [] acc v h = ap ok (sym (append-nil acc))
  suites_loop-words (suc fuel) (x ∷ xs) acc v h =
      let long : leb 2 (length (words (x ∷ xs))) ≡ true = ground (arith, length-words (x ∷ xs)) in
      rw (long, get_int-append 2 x (words xs) v.0)
        (suites_loop-words fuel xs (acc ++ (x ∷ [])) v.1
            (omega (arith, length-words (x ∷ xs), length-words xs))
          ∙ ap ok (append_assoc acc (x ∷ []) xs))

  versions_loop-words :
      (fuel : ℕ) (xs : List ℕ) (is_tls13 : Bool)
      → AreWords xs
      → length (words xs) < fuel
      → versions_loop fuel (words xs) is_tls13 ≡ ok (if has_tls13 xs then true else is_tls13)
  unfolding versions_loop
  versions_loop-words zero xs is_tls13 v h = absurd (omega arith)
  versions_loop-words (suc fuel) [] is_tls13 v h = refl
  versions_loop-words (suc fuel) (x ∷ xs) is_tls13 v h =
      let long : leb 2 (length (words (x ∷ xs))) ≡ true = ground (arith, length-words (x ∷ xs)) in
      let rest =
        versions_loop-words fuel xs is_tls13 v.1
          (omega (arith, length-words (x ∷ xs), length-words xs)) in
      rw (long, get_int-append 2 x (words xs) v.0)
        (elim (Bool-cases (x == 0x0304)) [ inl hit ↦ rw hit | inr miss ↦ rw miss rest ])

  supported_versions-field :
      (list : List ℕ) (is_tls13 : Bool)
      → AreWords list
      → length (words list) < 256
      → supported_versions (field 1 (words list)) is_tls13
        ≡ ok (if has_tls13 list then true else is_tls13)
  unfolding supported_versions
  supported_versions-field list is_tls13 v h =
      let n = length (words list) in
      let all : leb n n ≡ true = ground arith in
      rw (get_int-field_alone 1 (words list) (omega arith), all, take_all n (words list) refl)
        (versions_loop-words (suc n) list is_tls13 v (omega arith))

  module _ ⦃u : Utf8⦄ where
    server_name-field :
        (host : Bytes) (sni : Option Bytes)
        → u.is_utf8 host ≡ true
        → length (field 2 (0 ∷ field 2 host)) < 256 ^ 2
        → server_name (field 2 (0 ∷ field 2 host)) sni ≡ some (to_ascii_lowercase host)
    unfolding server_name
    server_name-field host sni ascii h =
        let inner : Bytes = field 2 host in
        let outer : Bytes = 0 ∷ inner in
        let l0 = length-field 2 outer in
        let l1 = length-field 2 host in
        let n = length host in
        let all : leb n n ≡ true = ground arith in
        let long : leb 5 (length (field 2 outer)) ≡ true = ground arith in
        let room : leb 3 (length outer) ≡ true = ground arith in
        let kind : b.get_int 1 outer ≡ (0, inner) =
          unfold to_be_bytes in get_int-append 1 0 inner (omega arith) in
        rw
          (
            get_int-field_alone 2 outer (omega arith),
            kind,
            get_int-field_alone 2 host (omega arith),
            take_all n host refl,
            long,
            room,
            all,
            ascii,
          )
          refl

    extension-data :
        (e : Extension) (said : Said)
        → ExtensionFits e
        → length (ext_data e) < 256 ^ 2
        → extension (ext_type e) (ext_data e) said ≡ ok (hears e said)
    unfolding extension
    extension-data (host_name host) said v h = rw (server_name-field host said.0 v h)
    extension-data (versions list) said v h =
        let some_data : (length (field 1 (words list)) == 0) ≡ false =
          ground (arith, length-field 1 (words list)) in
        rw (some_data, supported_versions-field list said.1 v.0 v.1)
    extension-data (other t s) said (v, w, x) h =
        let not_name : (t == 0) ≡ false = ground arith in
        let not_versions : (t == 43) ≡ false = ground arith in rw (not_name, not_versions)

    ext_type_fits : (e : Extension) → ExtensionFits e → ext_type e < 256 ^ 2
    ext_type_fits (host_name host) v = omega arith
    ext_type_fits (versions list) v = omega arith
    ext_type_fits (other t s) v = v.0

    pub extensions_loop-wires :
        (fuel : ℕ) (es : List Extension) (said : Said)
        → ExtensionsFit es
        → length (extension_wires es) < 256 ^ 2
        → length (extension_wires es) < fuel
        → extensions_loop fuel (extension_wires es) said ≡ ok (hears_all es said)
    unfolding extensions_loop
    extensions_loop-wires zero es said v s h = absurd (omega arith)
    extensions_loop-wires (suc fuel) [] said v s h = refl
    extensions_loop-wires (suc fuel) (e ∷ es) said v s h =
        let t = ext_type e in
        let d = ext_data e in
        let n = length d in
        let rest : Bytes = extension_wires es in
        let size : length (extension_wires (e ∷ es)) ≡ 4 + n + length rest = omega (
          arith,
          length-append (to_be_bytes 2 t) (field 2 d ++ rest),
          length-to_be_bytes 2 t,
          length-append (field 2 d) rest,
          length-field 2 d,
        ) in
        let long : leb 4 (length (extension_wires (e ∷ es))) ≡ true = ground arith in
        let room : ltb (length (d ++ rest)) n ≡ false =
          le→not_ltb _ _ (omega (arith, length-append d rest)) in
        rw
          (
            long,
            get_int-append 2 t (field 2 d ++ rest) (ext_type_fits e v.0),
            get_int-field 2 d rest (omega arith),
            room,
            take-append n d rest refl,
            advance-append n d rest refl,
            extension-data e said v.0 (omega arith),
          )
          (extensions_loop-wires fuel es (hears e said) v.1 (omega arith) (omega arith))
