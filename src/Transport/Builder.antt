-- ===== src/Transport/Builder.antt =====
-- `PseudoTlsBuilder` of src/transport/obfuscation.rs: the ClientHello that a client sends.
pub mod Built
pub mod Admitted
pub mod Secret
use echomesh_relay.Prelude.{
  ℕ, ◌+◌, ◌*◌, ◌/◌, ◌%◌, ◌^◌, min, Bool, false, not, List, [], ◌∷◌, ◌++◌, ◌==◌, if◌then◌else◌,
  length, take, drop, replicate, Bytes, to_be_bytes, ByteBuf, put_slice, put_bytes, put_u8, put_u16,
}
use echomesh_relay.Transport.Hex.{hex_encode}
use echomesh_relay.Transport.Hello.{
  tls_1_3_version, tls_client_hello_handshake_type, tls_ext_server_name, tls_ext_supported_versions,
  tls_handshake_content_type,
}

abbrev pub tls_legacy_record_version : ℕ
tls_legacy_record_version = 0x0301

abbrev pub tls_legacy_client_version : ℕ
tls_legacy_client_version = 0x0303

abbrev pub tls_ext_supported_groups : ℕ
tls_ext_supported_groups = 0x000a

abbrev pub tls_ext_signature_algorithms : ℕ
tls_ext_signature_algorithms = 0x000d

abbrev pub tls_ext_key_share : ℕ
tls_ext_key_share = 0x0033

abbrev pub tls_aes_128_gcm_sha256 : ℕ
tls_aes_128_gcm_sha256 = 0x1301

abbrev pub tls_aes_256_gcm_sha384 : ℕ
tls_aes_256_gcm_sha384 = 0x1302

abbrev pub tls_chacha20_poly1305_sha256 : ℕ
tls_chacha20_poly1305_sha256 = 0x1303

abbrev pub default_secret_token : Bytes
default_secret_token = []

pub record PseudoTlsBuilder : Type 0 where
  pub secret_token : Bytes
  pub sni_host : Bytes
  pub token_in_sni : Bool
  pub cipher_suites : List ℕ

unfoldable pub new : Bytes → Bytes → PseudoTlsBuilder
new secret_token sni_host = record {
  secret_token = secret_token;
  sni_host = sni_host;
  token_in_sni = false;
  cipher_suites =
      tls_aes_128_gcm_sha256 ∷ tls_aes_256_gcm_sha384 ∷ tls_chacha20_poly1305_sha256 ∷ [];
}

unfoldable pub embed_in_sni : PseudoTlsBuilder → Bool → PseudoTlsBuilder
embed_in_sni builder enabled = record builder { token_in_sni = enabled }

-- `random`, with the token copied over its front.
unfoldable pub random_of : PseudoTlsBuilder → Bytes
random_of builder =
    let random = replicate 32 0x5a in
    let secret_token =
      if length builder.secret_token == 0 then default_secret_token else builder.secret_token in
    let copy_len = min (length secret_token) 32 in
    if not builder.token_in_sni then take copy_len secret_token ++ drop copy_len random else random

-- 46 is the dot.
unfoldable pub sni_string : PseudoTlsBuilder → Bytes
sni_string builder =
    if builder.token_in_sni
    then hex_encode builder.secret_token ++ (46 ∷ builder.sni_host)
    else builder.sni_host

-- `as u16`.
abbrev pub as_u16 : ℕ → ℕ
as_u16 n = n % 2 ^ 16

module _ ⦃b : ByteBuf⦄ where
  unfoldable pub put_all : Bytes → List ℕ → Bytes
  put_all dst [] = dst
  put_all dst (x ∷ xs) = put_all (put_u16 dst x) xs

  -- `ext_buf`, extension by extension.
  unfoldable pub put_server_name : Bytes → Bytes → Bytes
  put_server_name ext_buf sni_bytes =
      let sni_list_len = 1 + 2 + length sni_bytes in
      let sni_ext_len = 2 + sni_list_len in
      let ext_buf = put_u16 ext_buf tls_ext_server_name in
      let ext_buf = put_u16 ext_buf (as_u16 sni_ext_len) in
      let ext_buf = put_u16 ext_buf (as_u16 sni_list_len) in
      let ext_buf = put_u8 ext_buf 0 in
      let ext_buf = put_u16 ext_buf (as_u16 (length sni_bytes)) in put_slice ext_buf sni_bytes

  unfoldable pub put_versions : Bytes → Bytes
  put_versions ext_buf =
      let ext_buf = put_all ext_buf (tls_ext_supported_versions ∷ 5 ∷ []) in
      let ext_buf = put_u8 ext_buf 4 in
      put_all ext_buf (tls_1_3_version ∷ tls_legacy_client_version ∷ [])

  unfoldable pub put_groups : Bytes → Bytes
  put_groups ext_buf = put_all ext_buf (tls_ext_supported_groups ∷ 6 ∷ 4 ∷ 0x001d ∷ 0x0017 ∷ [])

  unfoldable pub put_algorithms : Bytes → Bytes
  put_algorithms ext_buf =
      put_all ext_buf (tls_ext_signature_algorithms ∷ 8 ∷ 6 ∷ 0x0403 ∷ 0x0804 ∷ 0x0807 ∷ [])

  unfoldable pub put_key_share : Bytes → Bytes
  put_key_share ext_buf =
      let ext_buf = put_all ext_buf (tls_ext_key_share ∷ 38 ∷ 36 ∷ 0x001d ∷ 32 ∷ []) in
      put_bytes ext_buf 0x42 32

  unfoldable pub extensions_of : PseudoTlsBuilder → Bytes
  extensions_of builder =
      put_key_share
        (put_algorithms (put_groups (put_versions (put_server_name [] (sni_string builder)))))

  unfoldable pub body_of : PseudoTlsBuilder → Bytes
  body_of builder =
      let hs_body = put_u16 [] tls_legacy_client_version in
      let hs_body = put_slice hs_body (random_of builder) in
      let hs_body = put_u8 hs_body 32 in
      let hs_body = put_bytes hs_body 0x22 32 in
      let hs_body = put_u16 hs_body (as_u16 (length builder.cipher_suites * 2)) in
      let hs_body = put_all hs_body builder.cipher_suites in
      let hs_body = put_u8 hs_body 1 in
      let hs_body = put_u8 hs_body 0 in
      let ext_buf = extensions_of builder in
      put_slice (put_u16 hs_body (as_u16 (length ext_buf))) ext_buf

  unfoldable pub build : PseudoTlsBuilder → Bytes
  build builder =
      let hs_body = body_of builder in
      let hs_len = length hs_body in
      let total_record_len = 4 + hs_len in
      let record_header =
        tls_handshake_content_type
        ∷ (to_be_bytes 2 tls_legacy_record_version ++ to_be_bytes 2 (as_u16 total_record_len)) in
      let handshake_header =
        tls_client_hello_handshake_type
        ∷ hs_len / 2 ^ 16 % 256
        ∷ hs_len / 2 ^ 8 % 256
        ∷ hs_len % 256
        ∷ [] in
      record_header ++ (handshake_header ++ hs_body)
