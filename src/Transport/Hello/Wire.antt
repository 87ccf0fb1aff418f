-- ===== src/Transport/Hello/Wire.antt =====
-- The format of a TLS ClientHello record, which `parse_client_hello` of
-- src/transport/obfuscation.rs reads.
use echomesh_relay.Prelude.{
  ℕ, ◌^◌, ◌≤◌, ◌<◌, ◌≡◌, ◌≢◌, Bool, true, false, none, some, List, [], ◌∷◌, ◌++◌, ◌==◌,
  if◌then◌else◌, length, Bytes, to_be_bytes,
}
use echomesh_relay.Protocol.Messages.ServerToClient.{Utf8}
use echomesh_relay.Transport.Tokens.{ParsedClientHello}
use echomesh_relay.Transport.Hello.{Said, to_ascii_lowercase}

-- The server name and the supported versions, and any other extension by its type.
pub data Extension : Type 0 where
  host_name : Bytes → Extension
  versions : List ℕ → Extension
  other : ℕ → Bytes → Extension

pub record ClientHello : Type 0 where
  pub legacy_version : ℕ
  pub random : Bytes
  pub session_id : Bytes
  pub cipher_suites : List ℕ
  pub compression : Bytes
  pub extensions : List Extension

abbrev pub words : List ℕ → Bytes
words [] = []
words (x ∷ xs) = to_be_bytes 2 x ++ words xs

-- Bytes behind their length, which takes `w` bytes.
abbrev pub field : ℕ → Bytes → Bytes
field w s = to_be_bytes w (length s) ++ s

abbrev pub ext_type : Extension → ℕ
ext_type (host_name host) = 0
ext_type (versions list) = 43
ext_type (other t s) = t

abbrev pub ext_data : Extension → Bytes
ext_data (host_name host) = field 2 (0 ∷ field 2 host)
ext_data (versions list) = field 1 (words list)
ext_data (other t s) = s

abbrev pub extension_wires : List Extension → Bytes
extension_wires [] = []
extension_wires (e ∷ es) =
    to_be_bytes 2 (ext_type e) ++ (field 2 (ext_data e) ++ extension_wires es)

unfoldable pub hello_body : ClientHello → Bytes
hello_body h =
    to_be_bytes 2 h.legacy_version
    ++ (h.random
        ++ (field 1 h.session_id
            ++ (field 2 (words h.cipher_suites)
                ++ (field 1 h.compression ++ field 2 (extension_wires h.extensions)))))

-- A record of version 0x0301 with one handshake message of type 1.
unfoldable pub hello_wire : ClientHello → Bytes
hello_wire h = 22 ∷ 3 ∷ 1 ∷ field 2 (1 ∷ field 3 (hello_body h))

abbrev pub AreWords : List ℕ → Type 0
AreWords [] = Unit {0}
AreWords (x ∷ xs) = (x < 256 ^ 2) × AreWords xs

abbrev pub has_tls13 : List ℕ → Bool
has_tls13 [] = false
has_tls13 (x ∷ xs) = if x == 0x0304 then true else has_tls13 xs

-- What an extension adds to what the ones before it said: a later name takes the place of an
-- earlier one.
abbrev pub hears : Extension → Said → Said
hears (host_name host) said = (some (to_ascii_lowercase host), said.1)
hears (versions list) said = (said.0, if has_tls13 list then true else said.1)
hears (other t s) said = said

abbrev pub hears_all : List Extension → Said → Said
hears_all [] said = said
hears_all (e ∷ es) said = hears_all es (hears e said)

unfoldable pub parsed : ClientHello → ParsedClientHello
parsed h =
    let said = hears_all h.extensions (none, false) in
    record {
      legacy_version = h.legacy_version;
      random = h.random;
      session_id = h.session_id;
      cipher_suites = h.cipher_suites;
      sni = said.0;
      is_tls13 = said.1;
    }

module _ ⦃u : Utf8⦄ where
  abbrev pub ExtensionFits : Extension → Type 0
  ExtensionFits (host_name host) = u.is_utf8 host ≡ true
  ExtensionFits (versions list) = AreWords list × (length (words list) < 256)
  ExtensionFits (other t s) = (t < 256 ^ 2) × (t ≢ 0) × (t ≢ 43)

  abbrev pub ExtensionsFit : List Extension → Type 0
  ExtensionsFit [] = Unit {0}
  ExtensionsFit (e ∷ es) = ExtensionFits e × ExtensionsFit es

  -- The numbers fit their fields, and the record the limit of the parser.
  pub record IsValid (h : ClientHello) : Type 0 where
    pub version_fits : h.legacy_version < 256 ^ 2
    pub random_len : length h.random ≡ 32
    pub session_id_fits : length h.session_id < 256
    pub suites_fit : AreWords h.cipher_suites
    pub compression_fits : length h.compression < 256
    pub extensions_fit : ExtensionsFit h.extensions
    pub record_fits : length (hello_wire h) ≤ 4096
