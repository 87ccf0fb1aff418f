-- ===== src/Server/Connections.antt =====
-- src/server/connections: `ConnectionManager` and its three maps. `ConnectionId::next` takes its
-- number from a counter of the process, which is passed along; the clock is an argument.
pub mod Laws
use echomesh_relay.Prelude.{
  ℕ, ◌+◌, ◌%◌, ◌^◌, Bool, not, Option, none, some, [], ◌==◌, if◌then◌else◌, length, Bytes, Result,
  ◌>>=◌, ok, err,
}
use echomesh_relay.Maps
use echomesh_relay.Maps.{HashMap, nat_eq, bytes_eq}
use echomesh_relay.Protocol.Error.{RoutingError}
use echomesh_relay.Protocol.Frame.{Frame}
use echomesh_relay.Relay.Registry.{Sender}

pub record Connection : Type 0 where
  pub id : ℕ
  pub peer_addr : Bytes
  pub connected_at : ℕ
  pub outbound_tx : Sender

pub record ConnectionManager : Type 0 where
  pub connections : HashMap ℕ Connection
  pub session_to_conn : HashMap Bytes ℕ
  pub peer_to_conn : HashMap Bytes ℕ

unfoldable pub new : ConnectionManager
new = record { connections = []; session_to_conn = []; peer_to_conn = [] }

-- `COUNTER.fetch_add(1)` of a `u64`: the number taken, and the counter afterwards.
unfoldable pub next : ℕ → ℕ × ℕ
next counter = (counter, (counter + 1) % 2 ^ 64)

-- The counter, the manager and the number of the new connection.
unfoldable pub register : ℕ → ConnectionManager → ℕ → Bytes → Sender → ℕ × ConnectionManager × ℕ
unfolding next
register counter m now peer_addr outbound_tx =
    let (conn_id, counter') = next counter in
    let conn : Connection = record {
      id = conn_id;
      peer_addr = peer_addr;
      connected_at = now;
      outbound_tx = outbound_tx;
    } in
    (counter', record m { connections = Maps.insert conn_id conn m.connections }, conn_id)

unfoldable pub unregister : ConnectionManager → ℕ → ConnectionManager
unregister m conn_id = record {
  connections = Maps.remove conn_id m.connections;
  session_to_conn = Maps.retain (λ v. not (v == conn_id)) m.session_to_conn;
  peer_to_conn = Maps.retain (λ v. not (v == conn_id)) m.peer_to_conn;
}

abbrev insert_peer : Option Bytes → ℕ → HashMap Bytes ℕ → HashMap Bytes ℕ
insert_peer none conn_id m = m
insert_peer (some pid) conn_id m = Maps.insert pid conn_id m

unfoldable pub bind_session : ConnectionManager → ℕ → Bytes → Option Bytes → ConnectionManager
bind_session m conn_id session_id peer_id = record m {
  session_to_conn = Maps.insert session_id conn_id m.session_to_conn;
  peer_to_conn = insert_peer peer_id conn_id m.peer_to_conn;
}

-- `ok_or_else`.
abbrev pub ok_or {ℓ} : {A : Type ℓ} → Option A → RoutingError → Result RoutingError A
ok_or none e = err e
ok_or (some a) e = ok a

-- `tx.send(frame)`, which fails where the receiver is gone: the channel and what was put in it.
unfoldable pub send : (Sender → Bool) → Sender → Frame → Result RoutingError (Sender × Frame)
send is_open tx frame = if is_open tx then ok (tx, frame) else err RoutingError.channel_closed

unfoldable pub send_to_connection :
    (Sender → Bool) → ConnectionManager → ℕ → Frame → Result RoutingError (Sender × Frame)
send_to_connection is_open m conn_id frame = do
  conn ← ok_or (Maps.get conn_id m.connections) (RoutingError.connection_not_found conn_id)
  send is_open conn.outbound_tx frame

unfoldable pub send_to_peer :
    (Sender → Bool) → ConnectionManager → Bytes → Frame → Result RoutingError (Sender × Frame)
send_to_peer is_open m peer_id frame = do
  conn_id ← ok_or (Maps.get peer_id m.peer_to_conn) (RoutingError.peer_not_found peer_id)
  send_to_connection is_open m conn_id frame

unfoldable pub active_connections : ConnectionManager → ℕ
active_connections m = length m.connections
