-- ===== src/Examples/Admission.antt =====
-- Examples for the validator of src/transport/obfuscation.rs.
use echomesh_relay.Prelude.{◌<◌, ◌≡◌, ◌↔◌, ◌⊎◌, true, false, none, some, [], ◌∷◌, length, replicate}
use echomesh_relay.Transport.Tokens.{TokenValidator, ParsedClientHello, validate}
use echomesh_relay.Transport.Tokens.Match.{Proves, validate_iff}

abbrev greeting : ParsedClientHello
greeting = record {
  legacy_version = 0x0303;
  random = replicate 32 7;
  session_id = [];
  cipher_suites = 0x1301 ∷ [];
  sni = some (7 ∷ 7 ∷ 46 ∷ 99 ∷ []);
  is_tls13 = true;
}

abbrev validator : TokenValidator
validator = record { secret = 7 ∷ 7 ∷ []; expected_sni = none; insecure_no_token = false }

validate_example :
    (validate validator greeting ≡ true)
    ↔ ((false ≡ true) ⊎ ((0 < length validator.secret) × Proves validator greeting))
validate_example = validate_iff validator greeting
