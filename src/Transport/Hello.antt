-- ===== src/Transport/Hello.antt =====
-- `parse_client_hello` of src/transport/obfuscation.rs: a TLS ClientHello in a byte slice. What the
-- function reads in one block is a reader here, which gives what it read and what is left.
pub mod Total
pub mod Wire
pub mod Extensions
pub mod Parsed
pub mod Stable
use echomesh_relay.Prelude.{
  ℕ, zero, suc, ◌+◌, ◌*◌, ◌%◌, ◌^◌, bit_or, Bool, true, false, not, ◌&&◌, ◌||◌, Option, none, some,
  List, [], ◌∷◌, ◌++◌, map, ltb, leb, ◌==◌, if◌then◌else◌, length, take, drop, Bytes, from_be,
  ByteBuf, advance, get_u8, get_u16, Result, ◌>>=◌, ok, err,
}
use echomesh_relay.Protocol.Messages.ServerToClient.{byte_at, Utf8}
use echomesh_relay.Transport.Tokens.{ParsedClientHello}

abbrev pub max_client_hello_size : ℕ
max_client_hello_size = 4096

abbrev pub tls_handshake_content_type : ℕ
tls_handshake_content_type = 0x16

abbrev pub tls_client_hello_handshake_type : ℕ
tls_client_hello_handshake_type = 0x01

abbrev pub tls_1_3_version : ℕ
tls_1_3_version = 0x0304

abbrev pub tls_ext_server_name : ℕ
tls_ext_server_name = 0x0000

abbrev pub tls_ext_supported_versions : ℕ
tls_ext_supported_versions = 0x002b

pub data ObfuscationError : Type 0 where
  buffer_too_short : ObfuscationError
  not_tls_handshake : ObfuscationError
  not_client_hello : ObfuscationError
  malformed_data : ObfuscationError
  packet_too_large : ObfuscationError

pub data ClientHelloStatus : Type 0 where
  complete : ParsedClientHello → ClientHelloStatus
  need_more_data : ℕ → ClientHelloStatus
  invalid : ObfuscationError → ClientHelloStatus

-- A reader returns early, or a loop of the model has used up its fuel.
pub data Stop : Type 0 where
  refused : ObfuscationError → Stop
  out_of_fuel : Stop

abbrev pub malformed {ℓ} : {A : Type ℓ} → Result Stop A
malformed = err (Stop.refused ObfuscationError.malformed_data)

abbrev pub lower : ℕ → ℕ
lower c = if leb 65 c && leb c 90 then c + 32 else c

abbrev pub to_ascii_lowercase : Bytes → Bytes
to_ascii_lowercase = map lower

-- What the extensions have said so far: the name, and whether TLS 1.3 is offered.
abbrev pub Said : Type 0
Said = Option Bytes × Bool

-- The length of the record, by its header.
abbrev pub total_len : Bytes → ℕ
total_len src = 5 + from_be 0 (byte_at 3 src ∷ byte_at 4 src ∷ [])

-- `none` if a loop has used up its fuel.
unfoldable pub status : Result Stop ParsedClientHello → Option ClientHelloStatus
status (ok hello) = some (ClientHelloStatus.complete hello)
status (err (Stop.refused e)) = some (ClientHelloStatus.invalid e)
status (err Stop.out_of_fuel) = none

module _ ⦃b : ByteBuf⦄ where
  -- The type and the length of the handshake message: its body.
  unfoldable pub read_handshake : Bytes → Result Stop Bytes
  read_handshake body =
      if (length body == 0) || not (byte_at 0 body == tls_client_hello_handshake_type)
      then err (Stop.refused ObfuscationError.not_client_hello)
      else (let body' = advance 1 body in
          let hs_len =
            bit_or (bit_or (byte_at 0 body' * 2 ^ 16) (byte_at 1 body' * 2 ^ 8))
              (byte_at 2 body') in
          let body'' = advance 3 body' in
          if ltb (length body') 3
          then malformed
          else if ltb (length body'') hs_len
          then malformed
          else ok (take hs_len body''))

  unfoldable pub read_version : Bytes → Result Stop (ℕ × Bytes)
  read_version hs_body = if ltb (length hs_body) 2 then malformed else ok (get_u16 hs_body)

  unfoldable pub read_random : Bytes → Result Stop (Bytes × Bytes)
  read_random hs_body =
      if ltb (length hs_body) 32 then malformed else ok (take 32 hs_body, advance 32 hs_body)

  unfoldable pub read_session_id : Bytes → Result Stop (Bytes × Bytes)
  read_session_id hs_body =
      let (session_id_len, rest) = get_u8 hs_body in
      if length hs_body == 0
      then malformed
      else if ltb (length rest) session_id_len
      then malformed
      else ok (take session_id_len rest, advance session_id_len rest)

  -- `while cs_slice.remaining() >= 2`.
  unfoldable pub suites_loop : ℕ → Bytes → List ℕ → Result Stop (List ℕ)
  suites_loop zero cs_slice cipher_suites = err Stop.out_of_fuel
  suites_loop (suc fuel) cs_slice cipher_suites =
      let (suite, rest) = get_u16 cs_slice in
      let more = suites_loop fuel rest (cipher_suites ++ (suite ∷ [])) in
      if leb 2 (length cs_slice) then more else ok cipher_suites

  unfoldable pub read_cipher_suites : Bytes → Result Stop (List ℕ × Bytes)
  read_cipher_suites hs_body =
      let (cipher_suites_len, rest) = get_u16 hs_body in
      if ltb (length hs_body) 2
      then malformed
      else if ltb (length rest) cipher_suites_len || not (cipher_suites_len % 2 == 0)
      then malformed
      else (suites_loop (suc cipher_suites_len) (take cipher_suites_len rest) []
          >>= λ cipher_suites. ok (cipher_suites, advance cipher_suites_len rest))

  unfoldable pub skip_compression : Bytes → Result Stop Bytes
  skip_compression hs_body =
      let (comp_len, rest) = get_u8 hs_body in
      if length hs_body == 0
      then malformed
      else if ltb (length rest) comp_len
      then malformed
      else ok (advance comp_len rest)

  -- `while list.remaining() >= 2`, which a 1.3 ends.
  unfoldable pub versions_loop : ℕ → Bytes → Bool → Result Stop Bool
  versions_loop zero list is_tls13 = err Stop.out_of_fuel
  versions_loop (suc fuel) list is_tls13 =
      let (version, rest) = get_u16 list in
      let more = versions_loop fuel rest is_tls13 in
      if leb 2 (length list)
      then if version == tls_1_3_version then ok true else more
      else ok is_tls13

  unfoldable pub supported_versions : Bytes → Bool → Result Stop Bool
  supported_versions ext_data is_tls13 =
      let (ver_len, ver_slice) = get_u8 ext_data in
      let scan = versions_loop (suc ver_len) (take ver_len ver_slice) is_tls13 in
      if leb ver_len (length ver_slice) then scan else ok is_tls13

  module _ ⦃u : Utf8⦄ where
    unfoldable pub server_name : Bytes → Option Bytes → Option Bytes
    server_name ext_data sni =
        let sni_slice = (get_u16 ext_data).1 in
        let (name_type, sni_slice') = get_u8 sni_slice in
        let (name_len, sni_slice'') = get_u16 sni_slice' in
        let host = take name_len sni_slice'' in
        if leb 5 (length ext_data)
          && leb 3 (length sni_slice)
          && (name_type == 0)
          && leb name_len (length sni_slice'')
          && u.is_utf8 host
        then some (to_ascii_lowercase host)
        else sni

    unfoldable pub extension : ℕ → Bytes → Said → Result Stop Said
    extension ext_type ext_data said =
        if ext_type == tls_ext_server_name
        then ok (server_name ext_data said.0, said.1)
        else if (ext_type == tls_ext_supported_versions) && not (length ext_data == 0)
        then (supported_versions ext_data said.1 >>= λ is_tls13. ok (said.0, is_tls13))
        else ok said

    -- `while ext_buf.remaining() >= 4`.
    unfoldable pub extensions_loop : ℕ → Bytes → Said → Result Stop Said
    extensions_loop zero ext_buf said = err Stop.out_of_fuel
    extensions_loop (suc fuel) ext_buf said =
        let (ext_type, ext_buf') = get_u16 ext_buf in
        let (ext_len, ext_buf'') = get_u16 ext_buf' in
        let more = extension ext_type (take ext_len ext_buf'') said >>= λ said'.
        extensions_loop fuel (advance ext_len ext_buf'') said' in
        if leb 4 (length ext_buf)
        then if ltb (length ext_buf'') ext_len then malformed else more
        else ok said

    unfoldable pub read_extensions : Bytes → Result Stop Said
    read_extensions hs_body =
        let (extensions_len, rest) = get_u16 hs_body in
        let loop = extensions_loop (suc extensions_len) (take extensions_len rest) (none, false) in
        if leb 2 (length hs_body)
        then if ltb (length rest) extensions_len then malformed else loop
        else ok (none, false)

    unfoldable pub parse_body : Bytes → Result Stop ParsedClientHello
    parse_body body = do
      hs_body ← read_handshake body
      (legacy_version, hs_body) ← read_version hs_body
      (random, hs_body) ← read_random hs_body
      (session_id, hs_body) ← read_session_id hs_body
      (cipher_suites, hs_body) ← read_cipher_suites hs_body
      hs_body ← skip_compression hs_body
      (sni, is_tls13) ← read_extensions hs_body
      ok (record {
        legacy_version = legacy_version;
        random = random;
        session_id = session_id;
        cipher_suites = cipher_suites;
        sni = sni;
        is_tls13 = is_tls13;
      })

    unfoldable pub parse_client_hello : Bytes → Option ClientHelloStatus
    unfolding status
    parse_client_hello src =
        if ltb (length src) 5
        then some (ClientHelloStatus.need_more_data 5)
        else if not (byte_at 0 src == tls_handshake_content_type)
        then some (ClientHelloStatus.invalid ObfuscationError.not_tls_handshake)
        else if ltb max_client_hello_size (total_len src)
        then some (ClientHelloStatus.invalid ObfuscationError.packet_too_large)
        else if ltb (length src) (total_len src)
        then some (ClientHelloStatus.need_more_data (total_len src))
        else status (parse_body (drop 5 (take (total_len src) src)))
