-- ===== src/Relay/Session/Senders.antt =====
-- Whose name the frames bear that the loop of src/server/routed_listener.rs sends, and to whom they
-- go, for every frame that it receives.
use echomesh_relay.Prelude.{
  ℕ, ◌≡◌, refl, ap, ◌≢◌, inl, inr, Bool, true, false, Option, none, some, List, [], ◌∷◌, ◌++◌,
  arith, Bool-cases, Option-cases, take, Bytes, ByteBuf, >>=-eq-ok, Result-cases, ok,
}
use echomesh_relay.Maps.{bytes_beq, bytes_beq_iff}
use echomesh_relay.Protocol.Frame.{Frame}
use echomesh_relay.Protocol.Envelope
use echomesh_relay.Protocol.Envelope.{MessageEnvelope}
use echomesh_relay.Protocol.Messages.ClientToServer.{ClientToServerMessage}
use echomesh_relay.Protocol.Messages.ServerToClient
use echomesh_relay.Protocol.Messages.ServerToClient.{ServerToClientMessage}
use echomesh_relay.Protocol.Codec.{decode_client_message}
use echomesh_relay.Relay.Registry.{Sender, RouteRegistry, get_by_peer_id, get_by_prefix}
use echomesh_relay.Relay.Registry.Consistency.{IsConsistent}
use echomesh_relay.Relay.Session.{
  Action, reply, forward, register, no_nonce, if_ok, message_frame, answer_send, deliver,
  handle_send, handle_message, route_raw, route_frame, receive_frame, or_raw,
}
use echomesh_relay.Relay.Session.Replies.{new_fields}
use echomesh_relay.Relay.Session.Dispatch.{IsRouted, receive_registered}

abbrev pub Every : (Action → Type 0) → List Action → Type 0
Every P [] = Unit {0}
Every P (a ∷ xs) = P a × Every P xs

Every-append :
    (P : Action → Type 0) (xs ys : List Action) → Every P xs → Every P ys → Every P (xs ++ ys)
Every-append P [] ys x y = y
Every-append P (a ∷ xs) ys x y = (x.0, Every-append P xs ys x.1 y)

-- The frame bears the first sixteen bytes of the sender's id, and is not routed back to the sender.
abbrev pub IsFrom : Bytes → Action → Type 0
IsFrom source (reply tx f) = f.session_id ≡ take 16 source
IsFrom source (forward entry f) = (f.session_id ≡ take 16 source) × (entry.peer_id ≢ source)
IsFrom source (register p c tx) = ⊥

module _ ⦃b : ByteBuf⦄ where
  message_frame-session_id :
      (prefix nonce : Bytes) (msg : ServerToClientMessage) (mid cid ts : ℕ) (f : Frame)
      → message_frame prefix nonce msg mid cid ts ≡ ok f
      → f.session_id ≡ prefix
  unfolding message_frame
  message_frame-session_id prefix nonce msg mid cid ts f h =
      let (env, _, h1) =
        >>=-eq-ok
          (Envelope.new (ServerToClient.message_type msg) mid cid ts (ServerToClient.encode msg)) _
          h in
      let (bytes, _, h2) = >>=-eq-ok (Envelope.to_bytes env) _ h1 in
      (new_fields prefix nonce bytes f h2).0

  -- What is sent of a frame of the relay's own.
  built-IsFrom :
      (source prefix nonce : Bytes) (msg : ServerToClientMessage) (mid cid ts : ℕ)
      (send : Frame → List Action)
      → ((f : Frame) → f.session_id ≡ prefix → Every (IsFrom source) (send f))
      → Every (IsFrom source) (if_ok (message_frame prefix nonce msg mid cid ts) send)
  built-IsFrom source prefix nonce msg mid cid ts send each =
      elim (Result-cases (message_frame prefix nonce msg mid cid ts)) [
        | inl (f, h) ↦ rw h (each f (message_frame-session_id prefix nonce msg mid cid ts f h))
        | inr (e, h) ↦ rw h tt
      ]

  raw-IsFrom :
      (routes : RouteRegistry) (source : Bytes) (frame : Frame)
      → IsConsistent routes
      → Every (IsFrom source) (route_raw routes (take 16 source) frame)
  unfolding route_raw
  raw-IsFrom routes source frame v =
      elim (Bool-cases (bytes_beq (take 16 source) frame.session_id)) [
        | inl h ↦ rw h tt
        | inr h ↦ elim (Option-cases (get_by_prefix routes frame.session_id)) [
          | inl k ↦ rw (h, k) tt
          | inr (entry, k) ↦
              rw (h, k)
                (
                  (
                    refl,
                    λ back. ground (
                      arith,
                      bytes_beq_iff (take 16 source) frame.session_id,
                      v.prefixed frame.session_id entry k,
                      ap (take 16) back,
                    ),
                  ),
                  tt,
                )
        ]
      ]

  answer-IsFrom :
      (tx : Sender) (source : Bytes) (e : MessageEnvelope) (accepted : Bool)
      → Every (IsFrom source) (answer_send tx (take 16 source) e accepted)
  unfolding answer_send
  answer-IsFrom tx source e accepted =
      built-IsFrom source (take 16 source) no_nonce
        (ServerToClientMessage.send_message_response e.message_id accepted) e.message_id
        e.message_id e.timestamp _ (λ f h. (h, tt))

  send-IsFrom :
      (routes : RouteRegistry) (tx : Sender) (source : Bytes) (frame : Frame) (e : MessageEnvelope)
      (recipient payload : Bytes)
      → IsConsistent routes
      → Every (IsFrom source) (handle_send routes tx source frame e recipient payload)
  unfolding handle_send deliver
  send-IsFrom routes tx source frame e recipient payload v =
      elim (Bool-cases (bytes_beq source recipient)) [
        | inl h ↦ rw h (answer-IsFrom tx source e false)
        | inr h ↦ elim (Option-cases (get_by_peer_id routes recipient)) [
          | inl k ↦ rw (h, k) (answer-IsFrom tx source e false)
          | inr (entry, k) ↦
              rw (h, k)
                (Every-append (IsFrom source) _ _ (answer-IsFrom tx source e true) (
                  built-IsFrom source (take 16 source) frame.nonce _ _ _ _ _ (λ f named. (
                    (
                      named,
                      λ back.
                          ground (arith, bytes_beq_iff source recipient, v.keyed recipient entry k),
                    ),
                    tt,
                  ))))
        ]
      ]

  -- The actions of a message, or nothing to show where it falls through to raw routing.
  abbrev EveryOf : (Action → Type 0) → Option (List Action) → Type 0
  EveryOf P none = Unit {0}
  EveryOf P (some actions) = Every P actions

  handled-IsFrom :
      (routes : RouteRegistry) (tx : Sender) (source : Bytes) (frame : Frame) (e : MessageEnvelope)
      (m : ClientToServerMessage)
      → IsConsistent routes
      → EveryOf (IsFrom source) (handle_message routes tx source frame e m)
  unfolding handle_message
  handled-IsFrom routes tx source frame e (ClientToServerMessage.send_message recipient payload) v =
      send-IsFrom routes tx source frame e recipient payload v
  handled-IsFrom routes tx source frame e (ClientToServerMessage.ack id) v =
      elim (Option-cases (get_by_prefix routes frame.session_id)) [
        | inl k ↦ rw k tt
        | inr (entry, k) ↦
            rw k (built-IsFrom source (take 16 source) no_nonce _ _ _ _ _ (λ f named. (named, tt)))
      ]
  handled-IsFrom routes tx source frame e (ClientToServerMessage.heartbeat n) v =
      built-IsFrom source (take 16 source) no_nonce _ _ _ _ _ (λ f named. (named, tt))
  handled-IsFrom routes tx source frame e _ v = tt

  or_raw-IsFrom :
      (P : Action → Type 0) (o : Option (List Action)) (raw : List Action)
      → EveryOf P o
      → Every P raw
      → Every P (or_raw o raw)
  or_raw-IsFrom P none raw x y = y
  or_raw-IsFrom P (some actions) raw x y = x

  -- In a consistent registry, every frame that is sent on account of a registered peer's frame,
  -- which is neither a registration nor for the echo route, bears the first sixteen bytes of that
  -- peer's id, whatever the peer wrote in it; no frame is forwarded to the peer itself, and
  -- nothing is registered.
  pub sender_unforged :
      (routes : RouteRegistry) (c : ℕ) (tx : Sender) (source : Bytes) (frame : Frame)
      → IsConsistent routes
      → IsRouted frame
      → Every (IsFrom source) (receive_frame routes c tx (some source) frame).1
  unfolding route_frame
  sender_unforged routes c tx source frame v routed =
      let raw = raw-IsFrom routes source frame v in
      rw (receive_registered routes c tx source frame routed)
        (elim (Result-cases (decode_client_message frame.payload)) [
          | inr (e, h) ↦ rw h raw
          | inl ((e, m), h) ↦
              rw h (
                or_raw-IsFrom (IsFrom source) _ _ (handled-IsFrom routes tx source frame e m v) raw)
        ])
