-- ===== src/Client/Peers.antt =====
-- What a peer of src/server/routed_listener.rs can do to the client of src/client/api.rs.
use echomesh_relay.Prelude.{
  ℕ, ◌≤◌, ◌<◌, ◌≡◌, refl, ap, ◌≢◌, inl, inr, false, some, List, [], ◌∷◌, arith, ltb, ◌==◌,
  le→not_ltb, ==_iff, length, take, Bytes, from_be, ByteBuf, err,
}
use echomesh_relay.Protocol.Error.{ProtocolError}
use echomesh_relay.Protocol.Versioning
use echomesh_relay.Protocol.Frame.{Frame}
use echomesh_relay.Protocol.Envelope
use echomesh_relay.Protocol.Messages.ServerToClient.{Utf8}
use echomesh_relay.Protocol.Codec.{decode_client_message, decode_server_message}
use echomesh_relay.Relay.Registry.{Sender, RouteEntry, RouteRegistry, get_by_prefix}
use echomesh_relay.Relay.Session.{forward, receive_frame}
use echomesh_relay.Relay.Session.Dispatch.{IsRouted}
use echomesh_relay.Relay.Session.Effects.{raw_forwarded}
use echomesh_relay.Client.Inbound.{ClientInboundRouter}
use echomesh_relay.Client.Actor.{Event, Task, running, panicked, frame_received, run, raw_frame_lem}

module _ ⦃b : ByteBuf⦄ where
  -- No envelope begins with a byte that is not the version.
  foreign_version :
      (v : ℕ) (body : Bytes)
      → v ≢ 1
      → 30 ≤ length (v ∷ body)
      → Envelope.decode (v ∷ body) ≡ err (ProtocolError.unsupported_version 1 v)
  unfolding Envelope.decode Versioning.from_u8
  foreign_version v body ne long =
      let enough : ltb (length (v ∷ body)) 30 ≡ false = le→not_ltb (length (v ∷ body)) 30 long in
      let other : (v == 1) ≡ false = ground (arith, ne, ==_iff v 1) in
      let first : from_be 0 (take 1 (v ∷ body)) ≡ v = unfold from_be take in omega arith in
      rw (enough, b.get_int_lem 1 (v ∷ body) (omega arith), first, other) refl

  module _ ⦃u : Utf8⦄ where
    -- A registered peer sends a frame, neither a registration nor for the echo route, to the prefix
    -- of another that is online, with a payload of more than 1364 bytes whose first is not the
    -- version of envelopes. The relay forwards it, as one frame; and the client's background task,
    -- whatever waits in it and whatever comes after, panics on that frame and does nothing any
    -- more.
    pub peer_stops_client :
        (routes : RouteRegistry) (c : ℕ) (tx : Sender) (source : Bytes) (frame : Frame)
        (entry : RouteEntry) (v : ℕ) (body : Bytes) (r : ClientInboundRouter) (more : List Event)
        → IsRouted frame
        → take 16 source ≢ frame.session_id
        → get_by_prefix routes frame.session_id ≡ some entry
        → frame.payload ≡ v ∷ body
        → v ≢ 1
        → 1364 < length frame.payload
        → let t : Task = record { status = running; router = r } in
          (f : Frame) × (receive_frame routes c tx (some source) frame
            ≡ (some source, forward entry f ∷ []))
          × (run (frame_received f ∷ more) t ≡ (record { status = panicked; router = r }, []))
    peer_stops_client routes c tx source frame entry v body r more routed ne found starts other
          long =
        let foreign : Envelope.decode frame.payload ≡ err (ProtocolError.unsupported_version 1 v) =
          rw starts (foreign_version v body other (omega (arith, ap length starts, long))) in
        let f : Frame = record frame { session_id = take 16 source } in
        (
          f,
          raw_forwarded routes c tx source frame (ProtocolError.unsupported_version 1 v) entry
              routed (unfold decode_client_message in rw foreign refl) ne found,
          elim (raw_frame_lem f r more (ProtocolError.unsupported_version 1 v)
              (unfold decode_server_message in rw foreign refl)) [
                | inl (short, _) ↦ absurd (omega (arith, short, long))
                | inr (_, stops) ↦ stops
              ],
        )
