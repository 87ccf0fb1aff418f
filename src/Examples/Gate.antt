-- ===== src/Examples/Gate.antt =====
-- Examples for the ClientHello of src/transport/obfuscation.rs and the gate of
-- src/server/routed_listener.rs.
use echomesh_relay.Prelude.{
  ◌≤◌, ◌≡◌, refl, ◌≢◌, ◌⊎◌, true, Option, some, [], ◌∷◌, ◌++◌, arith, ◌==◌, if◌then◌else◌, length,
  take, drop, replicate, length-replicate, Bytes, to_be_bytes, from_be, documented, ok, err,
}
use echomesh_relay.Examples.Data.{lenient}
use echomesh_relay.Protocol.Messages.ServerToClient.{byte_at}
use echomesh_relay.Transport.Tokens
use echomesh_relay.Transport.Tokens.{ParsedClientHello, validate}
use echomesh_relay.Transport.Hex.{
  Panic, decode_pairs, Trim, hex_encode, hex_decode, hex_decode-IsAscii,
}
use echomesh_relay.Transport.Builder
use echomesh_relay.Transport.Builder.{build, embed_in_sni}
use echomesh_relay.Transport.Builder.Secret.{secret_in_sni_admitted}
use echomesh_relay.Transport.Hello.{ClientHelloStatus, ObfuscationError, parse_client_hello}
use echomesh_relay.Transport.Hello.Total.{parse_client_hello_total}
use echomesh_relay.Transport.Hello.Stable.{parse_client_hello_stable}
use echomesh_relay.Transport.Hello.Wire.{
  hello_body, ClientHello, Extension, hello_wire, parsed, IsValid,
}
use echomesh_relay.Transport.Hello.Parsed.{parse_client_hello-wire}
use echomesh_relay.Relay.Gate.{direct, Outcome, Listener, session, handle_connection}
use echomesh_relay.Relay.Gate.Admits.{
  Settled, Served, Proxied, Authorised, handle_connection_lem, session-Authorised,
}
use echomesh_relay.Relay.Gate.Clients.{strict, client_recognised}

-- "Relay.Me".
abbrev host : Bytes
host = 82 ∷ 101 ∷ 108 ∷ 97 ∷ 121 ∷ 46 ∷ 77 ∷ 101 ∷ []

abbrev pub mine : Bytes
mine = replicate 32 7

abbrev theirs : Bytes
theirs = replicate 32 8

abbrev pub behind : Bytes
behind = 0 ∷ 48 ∷ []

-- A ClientHello of one cipher suite.
abbrev pub greeting : ClientHello
greeting = record {
  legacy_version = 0x0303;
  random = replicate 32 7;
  session_id = 1 ∷ 2 ∷ [];
  cipher_suites = 0x1301 ∷ [];
  compression = 0 ∷ [];
  extensions =
      Extension.host_name host
      ∷ Extension.versions (0x0303 ∷ 0x0304 ∷ [])
      ∷ Extension.other 10 (1 ∷ 2 ∷ [])
      ∷ [];
}

pub greeting-IsValid : IsValid ⦃u = lenient⦄ greeting
unfolding hello_wire hello_body to_be_bytes replicate
greeting-IsValid = record {
  version_fits = omega arith;
  random_len = refl;
  session_id_fits = omega arith;
  suites_fit = (omega arith, tt);
  compression_fits = omega arith;
  extensions_fit = (
    refl,
    (
      ((omega arith, (omega arith, tt)), omega arith),
      ((omega arith, λ e. omega arith, λ e. omega arith), tt),
    ),
  );
  record_fits = omega arith;
}

offer_read : 3 ≤ length (build ⦃b = documented⦄ (Builder.new theirs host) ++ behind)
unfolding build to_be_bytes
offer_read = omega arith

client_recognised_example :
    (out : Outcome) × (handle_connection ⦃b = documented⦄ ⦃u = lenient⦄
        (strict mine)
        3
        (build ⦃b = documented⦄ (Builder.new theirs host) ++ behind)
      ≡ some out)
    × (theirs ≡ mine → Served ⦃b = documented⦄ ⦃u = lenient⦄ behind out)
    × (theirs ≢ mine
        → Proxied ⦃b = documented⦄ ⦃u = lenient⦄
            (build ⦃b = documented⦄ (Builder.new theirs host) ++ behind)
            out)
client_recognised_example =
    client_recognised ⦃b = documented⦄ ⦃u = lenient⦄ mine theirs host behind 3
      (length-replicate 32 7) (length-replicate 32 8) refl (omega arith) (omega arith) offer_read

abbrev pub open_listener : Listener
open_listener = record {
  validator = Tokens.new mine;
  insecure_no_token = true;
  env_insecure = true;
}

-- A direct Noise handshake, read in one go.
direct_runs :
    handle_connection ⦃b = documented⦄ ⦃u = lenient⦄ open_listener 2 behind
    ≡ some (session behind [])
unfolding handle_connection direct byte_at from_be take drop
direct_runs = refl

session-Authorised_example :
    ((true ≡ true) × (byte_at 0 behind ≢ 22) × (behind ++ [] ≡ behind))
    ⊎ Authorised ⦃b = documented⦄ ⦃u = lenient⦄ open_listener behind
        (parse_client_hello ⦃b = documented⦄ ⦃u = lenient⦄ behind)
        (behind ++ [])
session-Authorised_example =
    session-Authorised ⦃b = documented⦄ ⦃u = lenient⦄ open_listener 2 behind behind [] (omega arith)
      direct_runs

pub first_of_hello : byte_at 0 (hello_wire greeting) ≡ 22
unfolding byte_at drop hello_wire
first_of_hello = refl

pub hello_read : 7 ≤ length (hello_wire greeting)
unfolding hello_wire to_be_bytes hello_body
hello_read = omega arith

handle_connection_example :
    (out : Outcome) × (handle_connection ⦃b = documented⦄ ⦃u = lenient⦄
        (strict mine)
        7
        (hello_wire greeting)
      ≡ some out)
    × Settled ⦃b = documented⦄ ⦃u = lenient⦄
        (strict mine)
        (hello_wire greeting)
        (parse_client_hello ⦃b = documented⦄ ⦃u = lenient⦄ (hello_wire greeting))
        out
handle_connection_example =
    handle_connection_lem ⦃b = documented⦄ ⦃u = lenient⦄ (strict mine) 7 (hello_wire greeting)
      (omega arith) hello_read first_of_hello

parse-wire_example :
    parse_client_hello ⦃b = documented⦄ ⦃u = lenient⦄ (hello_wire greeting ++ behind)
    ≡ some (ClientHelloStatus.complete (parsed greeting))
parse-wire_example =
    parse_client_hello-wire ⦃b = documented⦄ ⦃u = lenient⦄ greeting behind greeting-IsValid

parse_total_example :
    (st : ClientHelloStatus) × (parse_client_hello ⦃b = documented⦄ ⦃u = lenient⦄
        (hello_wire greeting)
      ≡ some st)
parse_total_example = parse_client_hello_total ⦃b = documented⦄ ⦃u = lenient⦄ (hello_wire greeting)

-- "GET /".
abbrev probe : Bytes
probe = 71 ∷ 69 ∷ 84 ∷ 32 ∷ 47 ∷ []

probe_refused :
    parse_client_hello ⦃b = documented⦄ ⦃u = lenient⦄ probe
    ≡ some (ClientHelloStatus.invalid ObfuscationError.not_tls_handshake)
unfolding parse_client_hello byte_at drop
probe_refused = refl

parse_stable_example :
    parse_client_hello ⦃b = documented⦄ ⦃u = lenient⦄ (probe ++ behind)
    ≡ some (ClientHelloStatus.invalid ObfuscationError.not_tls_handshake)
parse_stable_example =
    parse_client_hello_stable ⦃b = documented⦄ ⦃u = lenient⦄ probe behind
      (ClientHelloStatus.invalid ObfuscationError.not_tls_handshake) probe_refused (λ n e. cc)

secret_in_sni_example :
    (hello : ParsedClientHello) × (parse_client_hello ⦃b = documented⦄ ⦃u = lenient⦄
        (build ⦃b = documented⦄ (embed_in_sni (Builder.new (171 ∷ 7 ∷ []) host) true) ++ behind)
      ≡ some (ClientHelloStatus.complete hello))
    × (validate (Tokens.new (hex_encode (171 ∷ 7 ∷ []))) hello ≡ true)
secret_in_sni_example =
    secret_in_sni_admitted ⦃b = documented⦄ ⦃u = lenient⦄ (171 ∷ 7 ∷ []) host behind (omega arith)
      (omega arith, (omega arith, tt)) refl (omega arith)

-- Nothing but blanks is trimmed.
plain_start : Bytes → Bytes
plain_start [] = []
plain_start (c ∷ s) = if c == 32 then plain_start s else c ∷ s

pub plain : Trim
unfolding plain_start
plain = record {
  trim_start = plain_start;
  trim_end = λ s. s;
  trim_start_none = refl;
  trim_start_space = λ s. refl;
  trim_start_graphic = λ c s lo hi. ground arith;
  trim_end_none = refl;
  trim_end_graphic = λ c s lo hi. refl;
}

hex_ascii_example : (r : Option Bytes) × (hex_decode ⦃t = plain⦄ (97 ∷ 103 ∷ []) ≡ ok r)
unfolding plain
hex_ascii_example = hex_decode-IsAscii ⦃t = plain⦄ (97 ∷ 103 ∷ []) (omega arith, (omega arith, tt))

-- "a" and the euro sign: an even number of bytes, and the first cut is inside the sign.
hex_panics : hex_decode ⦃t = plain⦄ (97 ∷ 226 ∷ 130 ∷ 172 ∷ []) ≡ err Panic.not_char_boundary
unfolding plain plain_start hex_decode decode_pairs
hex_panics = refl
