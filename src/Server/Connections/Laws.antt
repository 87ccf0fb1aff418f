-- ===== src/Server/Connections/Laws.antt =====
-- The connection manager of src/server/connections/manager.rs: what its operations mean for one
-- another.
use echomesh_relay.Prelude.{
  ℕ, ◌≡◌, refl, ◌≢◌, Bool, false, not, Option, none, some, arith, ◌==◌, if◌then◌else◌, ==_iff,
  ==_refl, Bytes, ok, err,
}
use echomesh_relay.Maps
use echomesh_relay.Maps.{HashMap, nat_eq, bytes_eq, bytes_beq_iff, bytes_beq}
use echomesh_relay.Maps.Laws.{
  Distinct, get-insert_self, get-remove, get-remove_self, get-retain, insert-Distinct,
  remove-Distinct, retain-Distinct,
}
use echomesh_relay.Protocol.Error.{RoutingError}
use echomesh_relay.Protocol.Frame.{Frame}
use echomesh_relay.Relay.Registry.{Sender}
use echomesh_relay.Server.Connections.{
  ConnectionManager, new, register, unregister, bind_session, send, send_to_connection,
  send_to_peer,
}

-- A map holds no key twice, as Rust's does.
pub record AreMaps (m : ConnectionManager) : Type 0 where
  pub connections : Distinct m.connections
  pub session_to_conn : Distinct m.session_to_conn
  pub peer_to_conn : Distinct m.peer_to_conn

pub new-AreMaps : AreMaps new
unfolding new
new-AreMaps = record { connections = tt; session_to_conn = tt; peer_to_conn = tt }

pub register-AreMaps :
    (counter : ℕ) (m : ConnectionManager) (now : ℕ) (addr : Bytes) (tx : Sender)
    → AreMaps m
    → AreMaps (register counter m now addr tx).1
unfolding register
register-AreMaps counter m now addr tx v = record {
  connections = insert-Distinct counter _ m.connections v.connections;
  session_to_conn = v.session_to_conn;
  peer_to_conn = v.peer_to_conn;
}

pub unregister-AreMaps : (m : ConnectionManager) (c : ℕ) → AreMaps m → AreMaps (unregister m c)
unfolding unregister
unregister-AreMaps m c v = record {
  connections = remove-Distinct c m.connections v.connections;
  session_to_conn = retain-Distinct (λ d. not (d == c)) m.session_to_conn v.session_to_conn;
  peer_to_conn = retain-Distinct (λ d. not (d == c)) m.peer_to_conn v.peer_to_conn;
}

pub bind_session-AreMaps :
    (m : ConnectionManager) (c : ℕ) (s : Bytes) (p : Option Bytes)
    → AreMaps m
    → AreMaps (bind_session m c s p)
unfolding bind_session
bind_session-AreMaps m c s none v = record {
  connections = v.connections;
  session_to_conn = insert-Distinct s c m.session_to_conn v.session_to_conn;
  peer_to_conn = v.peer_to_conn;
}
bind_session-AreMaps m c s (some p) v = record {
  connections = v.connections;
  session_to_conn = insert-Distinct s c m.session_to_conn v.session_to_conn;
  peer_to_conn = insert-Distinct p c m.peer_to_conn v.peer_to_conn;
}

-- A frame for a peer that is bound to a registered connection goes to the channel of that
-- connection, or the channel is closed.
pub send_to_peer-bind :
    (is_open : Sender → Bool) (counter : ℕ) (m : ConnectionManager) (now : ℕ) (addr : Bytes)
    (tx : Sender) (s p : Bytes) (frame : Frame)
    → let (_, m', c) = register counter m now addr tx in
      send_to_peer is_open (bind_session m' c s (some p)) p frame
      ≡ (if is_open tx then ok (tx, frame) else err RoutingError.channel_closed)
unfolding send_to_peer bind_session register send_to_connection send
send_to_peer-bind is_open counter m now addr tx s p frame =
    rw (get-insert_self p counter m.peer_to_conn, get-insert_self counter _ m.connections) refl

-- After a connection is unregistered, a frame to its number or to a peer that was bound to it is
-- refused, as to an unknown destination.
pub unregister_silent :
    (is_open : Sender → Bool) (m : ConnectionManager) (c : ℕ) (p : Bytes) (frame : Frame)
    → AreMaps m
    → (send_to_connection is_open (unregister m c) c frame
        ≡ err (RoutingError.connection_not_found c))
      × (Maps.get p m.peer_to_conn ≡ some c
          → send_to_peer is_open (unregister m c) p frame ≡ err (RoutingError.peer_not_found p))
unfolding send_to_peer send_to_connection unregister
unregister_silent is_open m c p frame v = (
  rw (get-remove_self c m.connections) refl,
  λ bound.
      rw (get-retain (λ d. not (d == c)) p m.peer_to_conn v.peer_to_conn, bound, ==_refl c) refl,
)

-- After a connection is unregistered, a peer that is bound to another connection is reached as
-- before.
pub unregister_others :
    (is_open : Sender → Bool) (m : ConnectionManager) (c d : ℕ) (p : Bytes) (frame : Frame)
    → AreMaps m
    → c ≢ d
    → Maps.get p m.peer_to_conn ≡ some d
    → send_to_peer is_open (unregister m c) p frame ≡ send_to_peer is_open m p frame
unfolding send_to_peer send_to_connection unregister
unregister_others is_open m c d p frame v ne bound =
    let other : (d == c) ≡ false = ground (arith, ==_iff d c) in
    let far : (c == d) ≡ false = ground (arith, ==_iff c d) in
    rw
      (
        get-retain (λ x. not (x == c)) p m.peer_to_conn v.peer_to_conn,
        bound,
        other,
        get-remove c d m.connections,
        far,
      )
      refl
