-- ===== src/Server/Gate.antt =====
-- What `handle_connection` of src/server/listener.rs, the listener of the session pipeline, makes of
-- a new connection. The client's bytes and the first read are as in the routed listener's gate.
pub mod Agrees
use echomesh_relay.Prelude.{
  ℕ, ◌-◌, min, Bool, false, not, ◌&&◌, ◌||◌, Option, none, some, [], ◌∷◌, ◌++◌, map, ltb, leb, ◌==◌,
  if◌then◌else◌, length, take, drop, Bytes, from_be, ByteBuf,
}
use mathlib.Core.Option
use echomesh_relay.Protocol.Messages.ServerToClient.{byte_at, Utf8}
use echomesh_relay.Transport.Tokens.{ParsedClientHello, validate}
use echomesh_relay.Transport.Hello.{
  ClientHelloStatus, max_client_hello_size, parse_client_hello, tls_handshake_content_type,
  total_len,
}
use echomesh_relay.Relay.Gate.{Outcome, Verdict, authenticated, Listener, dev_mode, admit}

unfoldable pub validate_client : Listener → ParsedClientHello → Bool
validate_client l parsed = dev_mode l || validate l.validator parsed

-- The second parse, after the bytes that were missing.
unfoldable pub judge_again : Listener → Bytes → Bytes → Option ClientHelloStatus → Option Verdict
unfolding validate_client
judge_again l initial_buf stream none = none
judge_again l initial_buf stream (some (ClientHelloStatus.complete parsed)) =
    let consumed_len = if leb 5 (length initial_buf) then total_len initial_buf else 0 in
    some (authenticated (validate_client l parsed) initial_buf stream consumed_len)
judge_again l initial_buf stream (some _) = some (authenticated false initial_buf stream 0)

module _ ⦃b : ByteBuf⦄ ⦃u : Utf8⦄ where
  -- A `read_exact` that fails has taken what there was, and loses it.
  unfoldable pub judge_first : Listener → Bytes → Bytes → Option ClientHelloStatus → Option Verdict
  unfolding judge_again validate_client
  judge_first l initial_buf stream none = none
  judge_first l initial_buf stream (some (ClientHelloStatus.complete parsed)) =
      let consumed_len = if leb 5 (length initial_buf) then total_len initial_buf else 0 in
      some (authenticated (validate_client l parsed) initial_buf stream consumed_len)
  judge_first l initial_buf stream (some (ClientHelloStatus.need_more_data expected)) =
      let needed = min (expected - length initial_buf) max_client_hello_size in
      let initial_buf' = initial_buf ++ take needed stream in
      if ltb 0 needed
      then if ltb (length stream) needed
        then some (authenticated false initial_buf [] 0)
        else judge_again l initial_buf' (drop needed stream) (parse_client_hello initial_buf')
      else some (authenticated false initial_buf stream 0)
  judge_first l initial_buf stream (some (ClientHelloStatus.invalid e)) =
      some (authenticated false initial_buf stream 0)

  -- A first record that is not TLS.
  unfoldable pub direct : Bytes → Bytes → Outcome
  direct initial_buf stream =
      let msg_len =
        if leb 2 (length initial_buf)
        then from_be 0 (byte_at 0 initial_buf ∷ byte_at 1 initial_buf ∷ [])
        else 0 in
      if leb 32 msg_len && leb msg_len 128
      then Outcome.session initial_buf stream
      else Outcome.fallback initial_buf stream

  unfoldable pub handle_connection : Listener → (n : ℕ) → (sent : Bytes) → Option Outcome
  unfolding judge_first direct
  handle_connection l n sent =
      let initial_buf = take n sent in
      let stream = drop n sent in
      if n == 0
      then some Outcome.closed
      else if byte_at 0 initial_buf == tls_handshake_content_type
      then Option.map admit (judge_first l initial_buf stream (parse_client_hello initial_buf))
      else some (direct initial_buf stream)
