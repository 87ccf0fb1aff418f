-- ===== src/Examples/Links.antt =====
-- Examples for the gate of src/server/listener.rs, the encrypted stream of src/transport/noise.rs
-- and the codecs of src/crypto/keys.rs.
use echomesh_relay.Prelude.{
  ℕ, zero, suc, ◌+◌, ◌-◌, ◌*◌, ◌≤◌, ◌<◌, ◌≡◌, refl, ap, ◌≢◌, ◌⊎◌, true, false, ◌||◌, Option, none,
  some, List, [], ◌∷◌, ◌++◌, arith, length, length-append, take, drop, replicate, length-replicate,
  take-append, Bytes, to_be_bytes, from_be, AreBytes, documented, ok,
}
use echomesh_relay.Protocol.Messages.ServerToClient.{byte_at}
use echomesh_relay.Protocol.Frame.{Frame}
use echomesh_relay.Protocol.Frame.Wire.{IsValid}
use echomesh_relay.Examples.Data.{lenient}
use echomesh_relay.Examples.Gate.{
  greeting, greeting-IsValid, behind, mine, plain, hello_read, first_of_hello, open_listener,
}
use echomesh_relay.Transport.Tokens
use echomesh_relay.Transport.Hex.{hex_encode}
use echomesh_relay.Transport.Hello.{total_len}
use echomesh_relay.Transport.Hello.Wire.{hello_body, hello_wire, parsed}
use echomesh_relay.Transport.Hello.Parsed.{parse_client_hello-wire}
use echomesh_relay.Transport.Noise.{
  Snow, NoiseError, encrypt_frame, send_all, running, stream_closed, failed, Pick, inbound,
  outbound, session_loop,
}
use echomesh_relay.Transport.Noise.Arrives.{frames_arrive}
use echomesh_relay.Transport.Noise.Ends.{session_loop_ends, half_read_lost}
use echomesh_relay.Crypto.Base64.{base64_encode}
use echomesh_relay.Crypto.Base64.Keys.{parse_private_key_bytes, key_formats}
use echomesh_relay.Relay.Gate as Routed
use echomesh_relay.Relay.Gate.{Outcome, Listener, dev_mode}
use echomesh_relay.Relay.Gate.Admits.{Served}
use echomesh_relay.Server.Prefixed.{new, read_each, poll_read, unread, read_each-new}
use echomesh_relay.Server.Config.{persist_token, load_or_generate}
use echomesh_relay.Server.Config.Restart.{token_survives}
use echomesh_relay.Server.Gate as Piped
use echomesh_relay.Server.Gate.Agrees.{same_gates, short_read_refused}

tagged : (p : Bytes) → length (p ++ replicate 16 0) ≡ length p + 16
tagged p = omega (arith, length-append p (replicate 16 0), length-replicate {A = ℕ} 16 0)

untagged : (p c : Bytes) → p ++ replicate 16 0 ≡ c → take (length c - 16) c ≡ p
untagged p c e =
    rw (← e)
      (take-append (length (p ++ replicate 16 0) - 16) p (replicate 16 0) (omega (arith, tagged p)))

abbrev counts : Bytes → ℕ × ℕ → Option (Bytes × (ℕ × ℕ))
counts s n = some (s, n)

counted :
    (s r : ℕ × ℕ) (p c : Bytes) (s' : ℕ × ℕ)
    → s.0 ≡ r.1
    → counts (p ++ replicate 16 0) (suc s.0, s.1) ≡ counts c s'
    → (r' : ℕ × ℕ) × (counts (take (length c - 16) c) (r.0, suc r.1) ≡ counts p r') × (s'.0 ≡ r'.1)
counted s r p c s' step written =
    ((r.0, suc r.1), ap (λ q. counts q (r.0, suc r.1)) (untagged p c (cc)), cc)

-- A cipher that adds a tag of zeros and counts its messages, those that it wrote and those that it
-- read.
abbrev counting : Snow
counting = record {
  TransportState = ℕ × ℕ;
  InStep = λ s r. s.0 ≡ r.1;
  HasLeft = λ n s. Unit {0};
  write_message = λ s p. counts (p ++ replicate 16 0) (suc s.0, s.1);
  read_message = λ r c. counts (take (length c - 16) c) (r.0, suc r.1);
  write_lem = λ n s p left small. (p ++ replicate 16 0, (suc s.0, s.1), refl, tt, tagged p);
  read_lem = counted;
  write_keeps = λ s r p c r' step written. cc;
  read_keeps = λ n r c p r' left read. tt;
}

abbrev frame : Frame
frame = record { session_id = replicate 16 1; nonce = replicate 8 2; payload = 3 ∷ 4 ∷ [] }

frame-IsValid : IsValid frame
frame-IsValid = record {
  session_id_len = length-replicate 16 1;
  nonce_len = length-replicate 8 2;
  payload_le = omega arith;
}

-- A frame of the channel between two that are read.
abbrev picks : List Pick
picks = inbound ∷ outbound 0 frame true ∷ inbound ∷ inbound ∷ []

frames_arrive_example :
    (packets : Bytes) × (s' : ℕ × ℕ) × (send_all counting ⦃b = documented⦄
        (5, 1)
        (frame ∷ frame ∷ [])
      ≡ ok (packets, s'))
    × (length packets ≡ 1438 * 2)
    × ((session_loop counting ⦃b = documented⦄ picks (1, 5) packets).received ≡ frame ∷ frame ∷ [])
    × ((session_loop counting ⦃b = documented⦄ picks (1, 5) packets).ended ≡ stream_closed)
frames_arrive_example =
    frames_arrive counting ⦃b = documented⦄ (frame ∷ frame ∷ []) (5, 1) (1, 5) picks
      (frame-IsValid, (frame-IsValid, tt)) tt refl (refl, frame-IsValid, refl, tt) tt (omega arith)

session_loop_ends_example :
    (session_loop counting ⦃b = documented⦄
      (outbound 1 frame true ∷ inbound ∷ inbound ∷ [])
      (1, 5)
      (0 ∷ [])).ended
    ≢ running
session_loop_ends_example =
    session_loop_ends counting ⦃b = documented⦄ (outbound 1 frame true ∷ inbound ∷ inbound ∷ [])
      (1, 5) (0 ∷ []) (omega arith)

half_read_lost_example :
    (packet : Bytes) × (s' : ℕ × ℕ) × (size : ℕ) × (encrypt_frame counting ⦃b = documented⦄
        (5, 1)
        frame
      ≡ ok (packet, s'))
    × let run =
        session_loop counting ⦃b = documented⦄
          (outbound 1 frame true ∷ inbound ∷ picks)
          (1, 5)
          (packet ++ (7 ∷ [])) in
      (run.received ≡ []) × (run.ended ≡ failed (NoiseError.bad_message_size 1436 size))
half_read_lost_example =
    half_read_lost counting ⦃b = documented⦄ (5, 1) (1, 5) frame frame (7 ∷ []) picks frame-IsValid
      frame-IsValid tt tt

hello_whole : total_len (hello_wire greeting) ≤ length (hello_wire greeting)
unfolding from_be hello_wire hello_body byte_at to_be_bytes drop replicate
hello_whole = omega arith

same_gates_example :
    Piped.handle_connection ⦃b = documented⦄ ⦃u = lenient⦄ open_listener 7 (hello_wire greeting)
    ≡ Routed.handle_connection ⦃b = documented⦄ ⦃u = lenient⦄ open_listener 7 (hello_wire greeting)
same_gates_example =
    same_gates ⦃b = documented⦄ ⦃u = lenient⦄ open_listener 7 (hello_wire greeting) (omega arith)
      hello_read first_of_hello hello_whole

bypassed :
    (dev_mode open_listener || Tokens.validate open_listener.validator (parsed greeting)) ≡ true
unfolding dev_mode Tokens.new
bypassed = refl

short_read_example :
    (Piped.handle_connection ⦃b = documented⦄ ⦃u = lenient⦄ open_listener 3
        (hello_wire greeting ++ behind)
      ≡ some (
          Outcome.fallback
            (take 5 (hello_wire greeting ++ behind))
            (drop 5 (hello_wire greeting ++ behind))))
    × ((out : Outcome) × (Routed.handle_connection ⦃b = documented⦄ ⦃u = lenient⦄ open_listener 3
            (hello_wire greeting ++ behind)
          ≡ some out)
        × Served ⦃b = documented⦄ ⦃u = lenient⦄
            (drop (total_len (hello_wire greeting ++ behind)) (hello_wire greeting ++ behind))
            out)
short_read_example =
    short_read_refused ⦃b = documented⦄ ⦃u = lenient⦄ open_listener 3
      (hello_wire greeting ++ behind) (parsed greeting) (omega arith) (omega arith)
      (parse_client_hello-wire ⦃b = documented⦄ ⦃u = lenient⦄ greeting behind greeting-IsValid)
      bypassed

abbrev closed_listener : Listener
closed_listener = record {
  validator = Tokens.new mine;
  insecure_no_token = false;
  env_insecure = false;
}

-- "TWFuIQ==".
base64_runs : base64_encode (77 ∷ 97 ∷ 110 ∷ 33 ∷ []) ≡ 84 ∷ 87 ∷ 70 ∷ 117 ∷ 73 ∷ 81 ∷ 61 ∷ 61 ∷ []
unfolding base64_encode
base64_runs = refl

sevens-AreBytes : (n : ℕ) → AreBytes (replicate n 7)
unfolding replicate
sevens-AreBytes zero = tt
sevens-AreBytes (suc n) = (omega arith, sevens-AreBytes n)

key_formats_example :
    (parse_private_key_bytes ⦃t = plain⦄ ⦃u = lenient⦄ (replicate 32 7)
      ≡ ok (some (replicate 32 7)))
    × (parse_private_key_bytes ⦃t = plain⦄ ⦃u = lenient⦄ (hex_encode (replicate 32 7))
        ≡ ok (some (replicate 32 7)))
    × (parse_private_key_bytes ⦃t = plain⦄ ⦃u = lenient⦄ (base64_encode (replicate 32 7))
        ≡ ok (some (replicate 32 7)))
key_formats_example =
    key_formats ⦃t = plain⦄ ⦃u = lenient⦄ (replicate 32 7) (λ s a. refl) (sevens-AreBytes 32)
      (length-replicate 32 7)

abbrev after_two_reads : Bytes
after_two_reads = (read_each ((2, 9) ∷ (4, 1) ∷ []) (new (1 ∷ 2 ∷ 3 ∷ []) (4 ∷ 5 ∷ []))).0

read_each_example :
    let (bytes, s) = read_each ((2, 9) ∷ (4, 1) ∷ []) (new (1 ∷ 2 ∷ 3 ∷ []) (4 ∷ 5 ∷ [])) in
    (bytes ++ unread s ≡ 1 ∷ 2 ∷ 3 ∷ 4 ∷ 5 ∷ [])
    × ((unread s ≡ []) ⊎ (0 < length ((poll_read 8 1 s).0)))
read_each_example =
    read_each-new (1 ∷ 2 ∷ 3 ∷ []) (4 ∷ 5 ∷ []) ((2, 9) ∷ (4, 1) ∷ []) 8 1 (omega arith)
      (omega arith)

reads_run : after_two_reads ≡ 1 ∷ 2 ∷ 3 ∷ []
unfolding read_each poll_read new take drop
reads_run = refl

token_survives_example :
    let key = base64_encode (77 ∷ []) in
    let after = persist_token (1 ∷ 255 ∷ []) key in
    (load_or_generate ⦃t = plain⦄ ⦃u = lenient⦄ key
        (8 ∷ [])
        (some (1 ∷ 255 ∷ []))
        (record { json = none; token = some (122 ∷ []) })
      ≡ ok (1 ∷ 255 ∷ [], after))
    × (load_or_generate ⦃t = plain⦄ ⦃u = lenient⦄ key (9 ∷ []) none after
        ≡ ok (1 ∷ 255 ∷ [], after))
token_survives_example =
    token_survives ⦃t = plain⦄ ⦃u = lenient⦄ (1 ∷ 255 ∷ []) (77 ∷ []) (8 ∷ []) (9 ∷ [])
      (record { json = none; token = some (122 ∷ []) }) (λ s a. refl) (omega arith, tt)
      (omega arith, (omega arith, tt)) (omega arith)
