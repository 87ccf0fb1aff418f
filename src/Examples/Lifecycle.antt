-- ===== src/Examples/Lifecycle.antt =====
-- Examples for the sessions of src/server/listener.rs.
use echomesh_relay.Prelude.{◌≡◌, refl, true, none, [], ◌∷◌, arith, replicate, ok}
use echomesh_relay.Protocol.Frame.{Frame}
use echomesh_relay.Server.Connections
use echomesh_relay.Server.Connections.{send_to_connection}
use echomesh_relay.Server.Sessions.{touch_session}
use echomesh_relay.Server.Lifecycle.{
  Managers, open_session, close_session, session_id, shared_session_lost,
}

abbrev empty : Managers
empty = record { counter = 1; connections = Connections.new; sessions = [] }

abbrev note : Frame
note = record { session_id = replicate 16 1; nonce = replicate 8 2; payload = 3 ∷ 4 ∷ [] }

shared_session_example :
    let (m1, first, _) = open_session 10 (127 ∷ []) 7 empty in
    let (m2, second, _) = open_session 11 (128 ∷ []) 8 m1 in
    let ended = close_session first m2 in
    let ended' = close_session second m2 in
    (send_to_connection (λ tx. true) ended.connections second note ≡ ok (8, note))
    × ((touch_session 12 ended.sessions session_id).1 ≡ none)
    × (send_to_connection (λ tx. true) ended'.connections first note ≡ ok (7, note))
    × ((touch_session 12 ended'.sessions session_id).1 ≡ none)
shared_session_example =
    shared_session_lost (λ tx. true) empty 10 11 12 (127 ∷ []) (128 ∷ []) 7 8 note (omega arith)
      refl refl
