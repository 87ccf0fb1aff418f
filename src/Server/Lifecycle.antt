-- ===== src/Server/Lifecycle.antt =====
-- What `handle_authenticated_noise_session` of src/server/listener.rs does before and after its loop:
-- the connection is registered, its session created and bound; and both are removed.
use echomesh_relay.Prelude.{
  ℕ, ◌+◌, ◌%◌, ◌^◌, ◌<◌, ◌≡◌, refl, ◌≢◌, Bool, true, none, some, arith, ==_iff, take, Bytes, ok,
}
use echomesh_relay.Protocol.Frame.{Frame}
use echomesh_relay.Relay.Registry.{Sender}
use echomesh_relay.Maps
use echomesh_relay.Maps.{HashMap, nat_eq, bytes_eq}
use echomesh_relay.Maps.Laws.{get-insert, get-insert_self, get-remove, get-remove_self}
use echomesh_relay.Server.Connections
use echomesh_relay.Server.Connections.{
  Connection, ConnectionManager, register, bind_session, unregister, send_to_connection,
}
use echomesh_relay.Server.Sessions.{
  Session, SessionManager, create_session, remove_session, touch_session,
}
use echomesh_relay.Server.Pipeline.{echo_service_peer_id}

-- What all sessions share: the counter of connections and the two managers.
pub record Managers : Type 0 where
  pub counter : ℕ
  pub connections : ConnectionManager
  pub sessions : SessionManager

-- Every connection gets the echo service's session id.
abbrev pub session_id : Bytes
session_id = take 16 echo_service_peer_id

-- The managers, the connection's number and its session; the channel is the connection's own.
unfoldable pub open_session : ℕ → Bytes → Sender → Managers → Managers × ℕ × Session
open_session now peer_addr outbound_tx m =
    let (counter, registered, conn_id) =
      register m.counter m.connections now peer_addr outbound_tx in
    let (sessions, session) = create_session now m.sessions session_id none in
    let bound = bind_session registered conn_id session_id none in
    (record { counter = counter; connections = bound; sessions = sessions }, conn_id, session)

unfoldable pub close_session : ℕ → Managers → Managers
close_session conn_id m = record m {
  connections = unregister m.connections conn_id;
  sessions = (remove_session m.sessions session_id).0;
}

-- Of two connections that are entered one after the other, the one that is not removed is found.
second_kept :
    (c d : ℕ) (x y : Connection) (m : HashMap ℕ Connection)
    → c ≢ d
    → Maps.get d (Maps.remove c (Maps.insert d y (Maps.insert c x m))) ≡ some y
second_kept c d x y m ne =
    let rest = Maps.insert c x m in
    ground (arith, get-remove c d (Maps.insert d y rest), get-insert_self d y rest, ==_iff c d)

first_kept :
    (c d : ℕ) (x y : Connection) (m : HashMap ℕ Connection)
    → c ≢ d
    → Maps.get c (Maps.remove d (Maps.insert d y (Maps.insert c x m))) ≡ some x
first_kept c d x y m ne =
    let rest = Maps.insert c x m in
    ground (
      arith,
      get-remove d c (Maps.insert d y rest),
      get-insert d c y rest,
      get-insert_self c x m,
      ==_iff d c,
    )

-- A connection that is found, and whose channel is open, is sent to.
still_sent :
    (is_open : Sender → Bool) (m : ConnectionManager) (c : ℕ) (k : Connection) (frame : Frame)
    → Maps.get c m.connections ≡ some k
    → is_open k.outbound_tx ≡ true
    → send_to_connection is_open m c frame ≡ ok (k.outbound_tx, frame)
unfolding send_to_connection Connections.send
still_sent is_open m c k frame found there = rw (found, there) refl

-- Two connections at once with open channels, the counter not about to wrap: when either ends, the
-- other is still reached under its number, but the session manager has lost the session that both
-- were given, so that the other is not marked as seen any more.
pub shared_session_lost :
    (is_open : Sender → Bool) (m : Managers) (now now' later : ℕ) (addr addr' : Bytes)
    (tx tx' : Sender) (frame : Frame)
    → m.counter + 1 < 2 ^ 64
    → is_open tx ≡ true
    → is_open tx' ≡ true
    → let (m1, first, _) = open_session now addr tx m in
      let (m2, second, _) = open_session now' addr' tx' m1 in
      let ended = close_session first m2 in
      let ended' = close_session second m2 in
      (send_to_connection is_open ended.connections second frame ≡ ok (tx', frame))
      × ((touch_session later ended.sessions session_id).1 ≡ none)
      × (send_to_connection is_open ended'.connections first frame ≡ ok (tx, frame))
      × ((touch_session later ended'.sessions session_id).1 ≡ none)
unfolding open_session close_session register bind_session unregister remove_session touch_session
    Connections.next
shared_session_lost is_open m now now' later addr addr' tx tx' frame few there there' =
    let c = m.counter in
    let d = (c + 1) % 2 ^ 64 in
    let ne : c ≢ d = λ e. omega (arith, few, e) in
    let x : Connection = record {
      id = c;
      peer_addr = addr;
      connected_at = now;
      outbound_tx = tx;
    } in
    let y : Connection = record {
      id = d;
      peer_addr = addr';
      connected_at = now';
      outbound_tx = tx';
    } in
    let before : HashMap ℕ Connection = m.connections.connections in
    (
      still_sent is_open _ d y frame (second_kept c d x y before ne) there',
      rw (get-remove_self session_id _) refl,
      still_sent is_open _ c x frame (first_kept c d x y before ne) there,
      rw (get-remove_self session_id _) refl,
    )
