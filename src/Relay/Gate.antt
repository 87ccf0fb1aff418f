-- ===== src/Relay/Gate.antt =====
-- What `handle_connection` of src/server/routed_listener.rs makes of a new connection. What the
-- client ever sends is one byte string. The first read takes some of it, by an argument; a later
-- `read_exact` takes what it asks for, and fails by end of stream or by timeout where the client
-- sends less.

use echomesh_relay.Prelude.{
  ℕ, zero, suc, ◌-◌, Bool, true, false, not, ◌&&◌, ◌||◌, Option, none, some, [], ◌∷◌, ◌++◌, map,
  ltb, leb, ◌==◌, if◌then◌else◌, length, take, drop, Bytes, from_be, ByteBuf,
}
pub mod Rounds
pub mod Admits
pub mod Clients
use mathlib.Core.Option
use echomesh_relay.Protocol.Messages.ServerToClient.{byte_at, Utf8}
use echomesh_relay.Transport.Tokens.{TokenValidator, validate}
use echomesh_relay.Transport.Hello.{
  ClientHelloStatus, max_client_hello_size, parse_client_hello, tls_handshake_content_type,
  total_len,
}

-- Where the connection goes: closed or failed, to the fallback target with what was read and what
-- follows, or to a session whose stream has what was left over in front.
pub data Outcome : Type 0 where
  closed : Outcome
  failed : Outcome
  fallback : Bytes → Bytes → Outcome
  session : Bytes → Bytes → Outcome

-- The result of the loop, with `initial`, the rest of the stream and `consumed_len`.
pub data Verdict : Type 0 where
  lost : Verdict
  authenticated : Bool → Bytes → Bytes → ℕ → Verdict

-- The listener's validator, its configuration, and the environment variable
-- ECHOMESH_INSECURE_NO_AUTH.
pub record Listener : Type 0 where
  pub validator : TokenValidator
  pub insecure_no_token : Bool
  pub env_insecure : Bool

unfoldable pub dev_mode : Listener → Bool
dev_mode l = l.validator.insecure_no_token || l.env_insecure

abbrev pub reads_exact : ℕ → Bytes → (Bytes → Bytes → Option Verdict) → Option Verdict
reads_exact k stream more =
    if ltb (length stream) k then some lost else more (take k stream) (drop k stream)

-- After the loop.
unfoldable pub admit : Verdict → Outcome
admit lost = failed
admit (authenticated false initial stream consumed_len) = fallback initial stream
admit (authenticated true initial stream consumed_len) =
    session (if ltb consumed_len (length initial) then drop consumed_len initial else []) stream

-- A first record that is not TLS.
unfoldable pub direct : Listener → Bytes → Bytes → Outcome
direct l initial stream =
    let msg_len =
      if leb 2 (length initial)
      then from_be 0 (byte_at 0 initial ∷ byte_at 1 initial ∷ [])
      else 0 in
    if l.insecure_no_token && leb 32 msg_len && leb msg_len 128
    then session initial stream
    else fallback initial stream

module _ ⦃b : ByteBuf⦄ ⦃u : Utf8⦄ where
  unfoldable pub judge :
      Listener
      → (Bytes → Bytes → Option Verdict)
      → Bytes
      → Bytes
      → Option ClientHelloStatus
      → Option Verdict
  judge l more initial stream none = none
  judge l more initial stream (some (ClientHelloStatus.complete parsed)) =
      let consumed_len = if leb 5 (length initial) then total_len initial else 0 in
      some (authenticated (dev_mode l || validate l.validator parsed) initial stream consumed_len)
  judge l more initial stream (some (ClientHelloStatus.need_more_data expected)) =
      if ltb max_client_hello_size expected || leb expected (length initial)
      then some (authenticated false initial stream 0)
      else reads_exact (expected - length initial) stream
          (λ rest stream'. more (initial ++ rest) stream')
  judge l more initial stream (some (ClientHelloStatus.invalid e)) =
      some (authenticated false initial stream 0)

  -- `let authenticated = loop { .. }`; `none` if the fuel is used up.
  unfoldable pub authenticate : Listener → ℕ → Bytes → Bytes → Option Verdict
  unfolding judge
  authenticate l zero initial stream = none
  authenticate l (suc fuel) initial stream =
      judge l (authenticate l fuel) initial stream (parse_client_hello initial)

  -- The first read gives `n` bytes of what the client sends. Three rounds of the loop are enough.
  unfoldable pub handle_connection : Listener → (n : ℕ) → (sent : Bytes) → Option Outcome
  unfolding authenticate admit direct
  handle_connection l n sent =
      let initial = take n sent in
      let stream = drop n sent in
      if n == 0
      then some closed
      else if byte_at 0 initial == tls_handshake_content_type
      then Option.map admit (authenticate l 3 initial stream)
      else some (direct l initial stream)
