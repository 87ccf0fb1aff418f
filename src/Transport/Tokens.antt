-- ===== src/Transport/Tokens.antt =====
-- `TokenValidator` of src/transport/obfuscation.rs: the secret in a TLS ClientHello. A `String` is
-- the list of its UTF-8 bytes.
pub mod Match
use echomesh_relay.Prelude.{
  ℕ, min, Bool, true, false, ◌&&◌, Option, none, some, List, ltb, ◌==◌, if◌then◌else◌, length, take,
  Bytes,
}
use echomesh_relay.Protocol.Frame.{constant_time_eq}
use echomesh_relay.Protocol.Messages.ServerToClient.{byte_at}

pub record ParsedClientHello : Type 0 where
  pub legacy_version : ℕ
  pub random : Bytes
  pub session_id : Bytes
  pub cipher_suites : List ℕ
  pub sni : Option Bytes
  pub is_tls13 : Bool

pub record TokenValidator : Type 0 where
  pub secret : Bytes
  pub expected_sni : Option Bytes
  pub insecure_no_token : Bool

unfoldable pub new : Bytes → TokenValidator
new secret = record { secret = secret; expected_sni = none; insecure_no_token = false }

unfoldable pub with_insecure_no_token : TokenValidator → Bool → TokenValidator
with_insecure_no_token v enabled = record v { insecure_no_token = enabled }

-- The secret, or its first 32 bytes, at the front of `random`.
random_valid : TokenValidator → ParsedClientHello → Bool
random_valid v hello =
    let check_len = min (length v.secret) 32 in
    if ltb 0 check_len
    then constant_time_eq (take check_len hello.random) (take check_len v.secret)
    else false

expected_valid : Option Bytes → Bytes → Bool
expected_valid none sni = false
expected_valid (some expected) sni = constant_time_eq sni expected

-- 46 is the dot.
sni_valid : TokenValidator → Option Bytes → Bool
unfolding expected_valid
sni_valid v none = false
sni_valid v (some sni) =
    let n = length v.secret in
    if constant_time_eq sni v.secret
    then true
    else if ltb n (length sni) && (byte_at n sni == 46) && constant_time_eq (take n sni) v.secret
    then true
    else expected_valid v.expected_sni sni

unfoldable pub validate : TokenValidator → ParsedClientHello → Bool
unfolding random_valid sni_valid
validate v hello =
    if v.insecure_no_token
    then true
    else if length v.secret == 0
    then false
    else if random_valid v hello
    then true
    else sni_valid v hello.sni
