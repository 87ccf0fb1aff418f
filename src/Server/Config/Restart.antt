-- ===== src/Server/Config/Restart.antt =====
-- A token that was configured once is found again by `load_or_generate` of src/server/config.rs.
use echomesh_relay.Prelude.{
  ℕ, ◌/◌, ◌%◌, ◌<◌, ◌≡◌, refl, sym, ap, ◌∙◌, ◌≢◌, inl, inr, Bool, true, false, ◌&&◌, none, some, [],
  ◌∷◌, ◌++◌, arith, ltb, ◌==◌, Bool-cases, length, drop, Bytes, AreBytes, ok,
}
use echomesh_relay.Protocol.Messages.ServerToClient.{Utf8}
use echomesh_relay.Transport.Hex.{
  Trim, hex_digit, digit_range, hex_encode, hex_decode-hex_encode, IsAscii,
}
use echomesh_relay.Crypto.Base64.{base64_encode}
use echomesh_relay.Crypto.Base64.Keys.{hex_encode-IsAscii, base64_encode-IsAscii}
use echomesh_relay.Crypto.Base64.Plain.{IsPlain, base64_encode-IsPlain}
use echomesh_relay.Server.Config.{
  strip_quote, Files, marker, json_head, json_middle, json_end, starts_with, behind_first,
  until_quote, token_in_json, read_saved_token, persist_token, load_or_generate, non_empty,
}

abbrev HasNoQuote : Bytes → Type 0
HasNoQuote [] = Unit {0}
HasNoQuote (c ∷ s) = (c ≢ 34) × HasNoQuote s

unequal : (p c : ℕ) → p ≢ c → (p == c) ≡ false
unequal p c h = ground (arith, h)

-- A pattern with an underscore does not end within a plain text and its quote.
starts_with_quoted :
    (ps qs s rest : Bytes)
    → HasNoQuote ps
    → IsPlain s
    → starts_with (ps ++ (95 ∷ qs)) (s ++ (34 ∷ rest)) ≡ false
starts_with_quoted [] qs [] rest v w = refl
starts_with_quoted [] qs (c ∷ s) rest v w = rw (unequal 95 c (λ e. w.1 (sym e))) refl
starts_with_quoted (p ∷ ps) qs [] rest v w = rw (unequal p 34 v.0) refl
starts_with_quoted (p ∷ ps) qs (c ∷ s) rest v w = elim (Bool-cases (p == c)) [
  | inl same ↦ rw same (starts_with_quoted ps qs s rest v.1 w.2)
  | inr other ↦ rw other refl
]

-- The marker is looked for behind a plain text.
behind_first-plain :
    (s rest : Bytes) → IsPlain s → behind_first marker (s ++ rest) ≡ behind_first marker rest
unfolding behind_first
behind_first-plain [] rest w = refl
behind_first-plain (c ∷ s) rest w =
    rw (unequal 34 c (λ e. w.0 (sym e))) (behind_first-plain s rest w.2)

behind_marker :
    (s rest : Bytes)
    → IsPlain s
    → behind_first marker (json_head ++ (s ++ (json_middle ++ rest))) ≡ some (58 ∷ 32 ∷ 34 ∷ rest)
unfolding behind_first drop
behind_marker s rest w =
    let tail : Bytes = drop 1 json_middle ++ rest in
    let not_here : starts_with
          (115 ∷ 101 ∷ 99 ∷ 114 ∷ 101 ∷ 116 ∷ 95 ∷ 116 ∷ 111 ∷ 107 ∷ 101 ∷ 110 ∷ 95 ∷ 104 ∷ 101
            ∷ 120 ∷ 34 ∷ [])
          (s ++ (34 ∷ tail))
        ≡ false =
      starts_with_quoted (115 ∷ 101 ∷ 99 ∷ 114 ∷ 101 ∷ 116 ∷ [])
        (116 ∷ 111 ∷ 107 ∷ 101 ∷ 110 ∷ 95 ∷ 104 ∷ 101 ∷ 120 ∷ 34 ∷ []) s tail
        (
          λ e. omega (arith, e),
          (
            λ e. omega (arith, e),
            (
              λ e. omega (arith, e),
              (λ e. omega (arith, e), (λ e. omega (arith, e), (λ e. omega (arith, e), tt))),
            ),
          ),
        )
        w in
    rw not_here (behind_first-plain s (json_middle ++ rest) w)

colon_first : (s : Bytes) → behind_first (58 ∷ []) (58 ∷ s) ≡ some s
unfolding behind_first drop
colon_first s = refl

until_quote-hex_encode :
    (xs rest : Bytes) → AreBytes xs → until_quote (hex_encode xs ++ (34 ∷ rest)) ≡ hex_encode xs
unfolding hex_encode
until_quote-hex_encode [] rest v = refl
until_quote-hex_encode (x ∷ xs) rest v =
    let high = digit_range (x / 16) (omega arith) in
    let low = digit_range (x % 16) (omega arith) in
    let high' : (hex_digit (x / 16) == 34) ≡ false = ground arith in
    let low' : (hex_digit (x % 16) == 34) ≡ false = ground arith in
    rw (high', low', until_quote-hex_encode xs rest v.1) refl

kept : (xs : Bytes) → 0 < length xs → non_empty (some xs) ≡ some xs
kept [] h = ground (arith, h)
kept (x ∷ xs) h = refl

abbrev all_ascii : Bytes → Bool
all_ascii [] = true
all_ascii (c ∷ s) = ltb c 128 && all_ascii s

all_ascii-IsAscii : (s : Bytes) → all_ascii s ≡ true → IsAscii s
all_ascii-IsAscii [] h = tt
all_ascii-IsAscii (c ∷ s) h = (ground (arith, h), all_ascii-IsAscii s (ground (arith, h)))

append-IsAscii : (s r : Bytes) → IsAscii s → IsAscii r → IsAscii (s ++ r)
append-IsAscii [] r v w = w
append-IsAscii (c ∷ s) r v w = (v.0, append-IsAscii s r v.1 w)

abbrev persisted : Bytes → Bytes → Bytes
persisted token public_key =
    json_head ++ (public_key ++ (json_middle ++ (hex_encode token ++ json_end)))

persisted-IsAscii :
    (token public_key : Bytes)
    → IsAscii public_key
    → AreBytes token
    → IsAscii (persisted token public_key)
persisted-IsAscii token public_key a v =
    append-IsAscii json_head (public_key ++ (json_middle ++ (hex_encode token ++ json_end)))
      (all_ascii-IsAscii json_head refl)
      (append-IsAscii public_key (json_middle ++ (hex_encode token ++ json_end)) a (
        append-IsAscii json_middle (hex_encode token ++ json_end)
          (all_ascii-IsAscii json_middle refl)
          (append-IsAscii (hex_encode token) json_end (hex_encode-IsAscii token v)
            (all_ascii-IsAscii json_end refl))))

module _ ⦃t : Trim⦄ where
  quote_next : (s : Bytes) → strip_quote (t.trim_start (32 ∷ 34 ∷ s)) ≡ some s
  quote_next s =
      ap strip_quote
        (t.trim_start_space (34 ∷ s) ∙ t.trim_start_graphic 34 s (omega arith) (omega arith))

  token_in_json_lem :
      (token public_key : Bytes)
      → IsPlain public_key
      → AreBytes token
      → 0 < length token
      → token_in_json (persisted token public_key) ≡ ok (some token)
  unfolding token_in_json
  token_in_json_lem token public_key w v h =
      rw
        (
          behind_marker public_key (hex_encode token ++ json_end) w,
          colon_first (32 ∷ 34 ∷ (hex_encode token ++ json_end)),
          quote_next (hex_encode token ++ json_end),
          until_quote-hex_encode token (10 ∷ 125 ∷ 10 ∷ []) v,
          hex_decode-hex_encode token v,
          kept token h,
        )
        refl

  module _ ⦃u : Utf8⦄ where
    persisted_read :
        (token public_key : Bytes)
        → u.is_utf8 (persisted token public_key) ≡ true
        → IsPlain public_key
        → AreBytes token
        → 0 < length token
        → read_saved_token (persist_token token public_key) ≡ ok (some token)
    unfolding read_saved_token persist_token
    persisted_read token public_key utf8 w v h =
        rw (utf8, token_in_json_lem token public_key w v h) refl

    -- Where ASCII is UTF-8, a token of at least one byte that is given once is the token of every
    -- later start that gives none, whatever the files held at first and whatever would have been
    -- generated; the files stay as they are.
    pub token_survives :
        (token public_key generated generated' : Bytes) (files : Files)
        → ((s : Bytes) → IsAscii s → u.is_utf8 s ≡ true)
        → AreBytes public_key
        → AreBytes token
        → 0 < length token
        → let public_key_base64 = base64_encode public_key in
          let after = persist_token token public_key_base64 in
          (load_or_generate public_key_base64 generated (some token) files ≡ ok (token, after))
          × (load_or_generate public_key_base64 generated' none after ≡ ok (token, after))
    unfolding load_or_generate
    token_survives token public_key generated generated' files utf8 bytes v h =
        let key : Bytes = base64_encode public_key in
        let ascii = persisted-IsAscii token key (base64_encode-IsAscii public_key bytes) v in
        let plain = base64_encode-IsPlain public_key bytes in
        let read = persisted_read token key (utf8 (persisted token key) ascii) plain v h in
        (rw (kept token h) refl, rw read refl)
