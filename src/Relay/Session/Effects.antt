-- ===== src/Relay/Session/Effects.antt =====
-- What holds of every frame that the loop of src/server/routed_listener.rs receives.
use echomesh_relay.Prelude.{
  ℕ, ◌≡◌, ◌≢◌, ◌⊎◌, Option, none, some, [], ◌∷◌, arith, length, take, take_all, Bytes, ByteBuf, err,
}
use echomesh_relay.Maps.{bytes_beq_iff}
use echomesh_relay.Protocol.Error.{ProtocolError}
use echomesh_relay.Protocol.Frame.{Frame}
use echomesh_relay.Protocol.Codec.{decode_client_message}
use echomesh_relay.Relay.Registry.{Sender, RouteEntry, RouteRegistry, get_by_prefix}
use echomesh_relay.Relay.Session.{
  forward, register, route_registration_id, echo_route_id, route_raw, route_frame, receive_frame,
}
use echomesh_relay.Relay.Session.Dispatch.{IsRouted, receive_registered}

module _ ⦃b : ByteBuf⦄ where
  -- A frame with the registration id registers its sender under the 32 bytes that it carries, on
  -- this connection, in place of what it was before; any other length changes nothing.
  pub registration_lem :
      (routes : RouteRegistry) (c : ℕ) (tx : Sender) (peer : Option Bytes) (frame : Frame)
      → frame.session_id ≡ route_registration_id
      → (length frame.payload ≡ 32
          → receive_frame routes c tx peer frame
            ≡ (some frame.payload, register frame.payload c tx ∷ []))
        × (length frame.payload ≢ 32 → receive_frame routes c tx peer frame ≡ (peer, []))
  unfolding receive_frame
  registration_lem routes c tx peer frame h = (
    λ l.
        ground
          (arith, bytes_beq_iff frame.session_id route_registration_id, take_all 32 frame.payload),
    λ l. ground (arith, bytes_beq_iff frame.session_id route_registration_id),
  )

  -- A frame that is no registration is dropped, with no effect, where its connection has not
  -- registered or where it is for the echo route.
  pub dropped :
      (routes : RouteRegistry) (c : ℕ) (tx : Sender) (peer : Option Bytes) (frame : Frame)
      → frame.session_id ≢ route_registration_id
      → (peer ≡ none) ⊎ (frame.session_id ≡ echo_route_id)
      → receive_frame routes c tx peer frame ≡ (peer, [])
  unfolding receive_frame
  dropped routes c tx peer frame h why = ground (
    arith,
    bytes_beq_iff frame.session_id route_registration_id,
    bytes_beq_iff frame.session_id echo_route_id,
  )

  -- A registered peer's frame that carries no message of a client, and whose prefix is another's
  -- and finds a peer, is forwarded to that peer as it is, but for its session id, which becomes
  -- the sender's prefix.
  pub raw_forwarded :
      (routes : RouteRegistry) (c : ℕ) (tx : Sender) (source : Bytes) (frame : Frame)
      (e : ProtocolError) (entry : RouteEntry)
      → IsRouted frame
      → decode_client_message frame.payload ≡ err e
      → take 16 source ≢ frame.session_id
      → get_by_prefix routes frame.session_id ≡ some entry
      → receive_frame routes c tx (some source) frame
        ≡ (some source, forward entry (record frame { session_id = take 16 source }) ∷ [])
  unfolding route_frame route_raw
  raw_forwarded routes c tx source frame e entry routed h ne found =
      rw (receive_registered routes c tx source frame routed, h)
        (ground (arith, bytes_beq_iff (take 16 source) frame.session_id))
