-- ===== src/Server/Config.antt =====
-- The access token of src/server/config.rs and the two files that keep it. A file is its content, or
-- `none` where it cannot be read; a file is written whole.
pub mod Restart
use echomesh_relay.Prelude.{
  Bool, true, false, Option, none, some, [], ◌∷◌, ◌++◌, ◌==◌, if◌then◌else◌, length, drop, Bytes,
  Result, map_ok, ◌>>=◌, ok, err,
}
use echomesh_relay.Protocol.Messages.ServerToClient.{Utf8}
use echomesh_relay.Transport.Hex.{Trim, Panic, trim, hex_encode, hex_decode}

-- relay.json and the token file beside the key.
pub record Files : Type 0 where
  pub json : Option Bytes
  pub token : Option Bytes

-- "\"secret_token_hex\"".
abbrev pub marker : Bytes
marker =
    34 ∷ 115 ∷ 101 ∷ 99 ∷ 114 ∷ 101 ∷ 116 ∷ 95 ∷ 116 ∷ 111 ∷ 107 ∷ 101 ∷ 110 ∷ 95 ∷ 104 ∷ 101 ∷ 120
    ∷ 34 ∷ []

-- "{\n  \"public_key_base64\": \"", "\",\n  \"secret_token_hex\": \"" and "\"\n}\n".
abbrev pub json_head : Bytes
json_head =
    123 ∷ 10 ∷ 32 ∷ 32 ∷ 34 ∷ 112 ∷ 117 ∷ 98 ∷ 108 ∷ 105 ∷ 99 ∷ 95 ∷ 107 ∷ 101 ∷ 121 ∷ 95 ∷ 98 ∷ 97
    ∷ 115 ∷ 101 ∷ 54 ∷ 52 ∷ 34 ∷ 58 ∷ 32 ∷ 34 ∷ []

abbrev pub json_middle : Bytes
json_middle =
    34 ∷ 44 ∷ 10 ∷ 32 ∷ 32 ∷ 34 ∷ 115 ∷ 101 ∷ 99 ∷ 114 ∷ 101 ∷ 116 ∷ 95 ∷ 116 ∷ 111 ∷ 107 ∷ 101
    ∷ 110 ∷ 95 ∷ 104 ∷ 101 ∷ 120 ∷ 34 ∷ 58 ∷ 32 ∷ 34 ∷ []

abbrev pub json_end : Bytes
json_end = 34 ∷ 10 ∷ 125 ∷ 10 ∷ []

abbrev pub starts_with : Bytes → Bytes → Bool
starts_with [] s = true
starts_with (p ∷ ps) [] = false
starts_with (p ∷ ps) (c ∷ s) = if p == c then starts_with ps s else false

-- `find`, and the slice behind what was found.
unfoldable pub behind_first : Bytes → Bytes → Option Bytes
behind_first pattern_ [] = if starts_with pattern_ [] then some [] else none
behind_first pattern_ (c ∷ s) =
    let later = behind_first pattern_ s in
    if starts_with pattern_ (c ∷ s) then some (drop (length pattern_) (c ∷ s)) else later

-- `split('"').next()`.
abbrev pub until_quote : Bytes → Bytes
until_quote [] = []
until_quote (c ∷ s) = if c == 34 then [] else c ∷ until_quote s

-- `strip_prefix('"')`.
abbrev pub strip_quote : Bytes → Option Bytes
strip_quote [] = none
strip_quote (c ∷ s) = if c == 34 then some s else none

abbrev pub non_empty : Option Bytes → Option Bytes
non_empty none = none
non_empty (some []) = none
non_empty (some (x ∷ xs)) = some (x ∷ xs)

abbrev pub on_some {ℓ} : {A : Type ℓ} → Option Bytes → A → (Bytes → A) → A
on_some none otherwise f = otherwise
on_some (some s) otherwise f = f s

-- `persist_token`: 10 is the line feed.
unfoldable pub persist_token : Bytes → Bytes → Files
persist_token token public_key_base64 =
    let token_hex = hex_encode token in
    record {
      json = some (json_head ++ (public_key_base64 ++ (json_middle ++ (token_hex ++ json_end))));
      token = some (token_hex ++ (10 ∷ []));
    }

module _ ⦃t : Trim⦄ where
  -- The token in the text of relay.json.
  unfoldable pub token_in_json : Bytes → Result Panic (Option Bytes)
  token_in_json content = on_some (behind_first marker content) (ok none) λ tail.
      on_some (behind_first (58 ∷ []) tail) (ok none) λ tail'.
        on_some (strip_quote (t.trim_start tail')) (ok none)
          λ value. map_ok non_empty (hex_decode (until_quote value))

  module _ ⦃u : Utf8⦄ where
    -- The token file: hexadecimal, or taken as it stands.
    unfoldable pub token_in_file : Option Bytes → Result Panic (Option Bytes)
    token_in_file none = ok none
    token_in_file (some raw) =
        let text = trim (u.from_utf8_lossy raw) in
        if length text == 0
        then ok none
        else map_ok (λ decoded. on_some decoded (some text) (λ d. some d)) (hex_decode text)

    abbrev pub or_file : Files → Result Panic (Option Bytes) → Result Panic (Option Bytes)
    or_file files (ok (some token)) = ok (some token)
    or_file files (ok none) = token_in_file files.token
    or_file files (err e) = err e

    -- `read_to_string` refuses what is not UTF-8.
    unfoldable pub read_saved_token : Files → Result Panic (Option Bytes)
    unfolding token_in_json token_in_file
    read_saved_token files = or_file files (
        on_some files.json (ok none)
          (λ content. if u.is_utf8 content then token_in_json content else ok none))

    abbrev pub choose : Bytes → Result Panic (Option Bytes) → Result Panic Bytes
    choose generated (ok (some token)) = ok token
    choose generated (ok none) = ok generated
    choose generated (err e) = err e

    -- The token of `load_or_generate`: the configured one, or the saved one, or one that was just
    -- generated; and the files afterwards.
    unfoldable pub load_or_generate :
        (public_key_base64 generated : Bytes) → Option Bytes → Files → Result Panic (Bytes × Files)
    unfolding read_saved_token persist_token
    load_or_generate public_key_base64 generated configured files =
        on_some (non_empty configured) (choose generated (read_saved_token files))
          (λ token. ok token)
        >>= λ token. ok (token, persist_token token public_key_base64)
