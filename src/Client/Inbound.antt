-- ===== src/Client/Inbound.antt =====
-- src/client/routing/inbound_router.rs: responses go to the request that waits for them, events to
-- the handlers. A `oneshot::Sender` is the number of its channel.
use echomesh_relay.Prelude.{
  ℕ, ◌≡◌, refl, ◌≢◌, true, not, ◌&&◌, Option, none, some, List, [], ◌∷◌, ◌++◌, map, arith, ◌==◌,
  if◌then◌else◌, ==_iff,
}
use echomesh_relay.Maps
use echomesh_relay.Maps.{HashMap, nat_eq}
use echomesh_relay.Maps.Laws.{get-remove, get-remove_self, remove_absent}
use echomesh_relay.Protocol.Envelope.{MessageEnvelope}
use echomesh_relay.Protocol.MessageTypes
use echomesh_relay.Protocol.Messages.ServerToClient
use echomesh_relay.Protocol.Messages.ServerToClient.{ServerToClientMessage, is_response, is_event}

-- The handlers by number, in the order in which they were added.
pub record ClientInboundRouter : Type 0 where
  pub pending_requests : HashMap ℕ ℕ
  pub event_handlers : List ℕ

unfoldable pub new : ClientInboundRouter
new = record { pending_requests = []; event_handlers = [] }

-- The router, and the receiver of the channel that `oneshot::channel()` made.
unfoldable pub register_pending : ClientInboundRouter → ℕ → ℕ → ClientInboundRouter × ℕ
register_pending r message_id channel =
    (record r { pending_requests = Maps.insert message_id channel r.pending_requests }, channel)

unfoldable pub add_event_handler : ClientInboundRouter → ℕ → ClientInboundRouter
add_event_handler r handler = record r { event_handlers = r.event_handlers ++ (handler ∷ []) }

pub data Effect : Type 0 where
  -- `tx.send(message)` on the channel of a request.
  wake : (channel : ℕ) (message : ServerToClientMessage) → Effect
  -- The method of a handler that the event names.
  notify : (handler : ℕ) (event : ServerToClientMessage) → Effect

abbrev pub notify_all : List ℕ → ServerToClientMessage → List Effect
notify_all handlers event = map (λ h. notify h event) handlers

-- The second half of `dispatch`: events go to every handler, anything else nowhere.
unfoldable pub handle_event : ClientInboundRouter → ServerToClientMessage → List Effect
handle_event r (ServerToClientMessage.incoming_message_event sender payload) =
    notify_all r.event_handlers (ServerToClientMessage.incoming_message_event sender payload)
handle_event r (ServerToClientMessage.delivery_status_event id status) =
    notify_all r.event_handlers (ServerToClientMessage.delivery_status_event id status)
handle_event r (ServerToClientMessage.peer_event id status) =
    notify_all r.event_handlers (ServerToClientMessage.peer_event id status)
handle_event r (ServerToClientMessage.relay_event id status) =
    notify_all r.event_handlers (ServerToClientMessage.relay_event id status)
handle_event r message = []

-- `pending_requests.remove(&correlation_id)`, and what becomes of the message.
correlated :
    ClientInboundRouter → ℕ → ServerToClientMessage → Option ℕ → ClientInboundRouter × List Effect
correlated r id message (some tx) =
    (record r { pending_requests = Maps.remove id r.pending_requests }, wake tx message ∷ [])
correlated r id message none =
    let r' : ClientInboundRouter = record r {
      pending_requests = Maps.remove id r.pending_requests;
    } in
    (r', handle_event r' message)

unfoldable pub dispatch :
    ClientInboundRouter
    → MessageEnvelope
    → ServerToClientMessage
    → ClientInboundRouter × List Effect
unfolding correlated
dispatch r envelope message =
    if is_response message && not (envelope.correlation_id == 0)
    then correlated r envelope.correlation_id message
        (Maps.get envelope.correlation_id r.pending_requests)
    else (r, handle_event r message)

response_no_event :
    (r : ClientInboundRouter) (m : ServerToClientMessage)
    → is_response m ≡ true
    → handle_event r m ≡ []
unfolding handle_event is_response ServerToClient.message_type MessageTypes.is_response
response_no_event r (ServerToClientMessage.raw_echo_response p) h = refl
response_no_event r _ h = ground arith

-- Where a response is correlated, `dispatch` looks for its request.
dispatch_response :
    (r : ClientInboundRouter) (e : MessageEnvelope) (m : ServerToClientMessage)
    → is_response m ≡ true
    → e.correlation_id ≢ 0
    → dispatch r e m
      ≡ correlated r e.correlation_id m (Maps.get e.correlation_id r.pending_requests)
unfolding dispatch
dispatch_response r e m h c = rw h (ground (arith, ==_iff e.correlation_id 0))

-- A response that is correlated to a waiting request, by a number that is not 0, wakes that
-- request and does nothing else; the same response again finds nobody; and every other request
-- waits as before.
pub response_wakes_once :
    (r : ClientInboundRouter) (e : MessageEnvelope) (m : ServerToClientMessage) (channel : ℕ)
    → is_response m ≡ true
    → e.correlation_id ≢ 0
    → Maps.get e.correlation_id r.pending_requests ≡ some channel
    → let (r', effects) = dispatch r e m in
      (effects ≡ wake channel m ∷ [])
      × (dispatch r' e m ≡ (r', []))
      × ((id : ℕ)
          → id ≢ e.correlation_id
          → Maps.get id r'.pending_requests ≡ Maps.get id r.pending_requests)
unfolding correlated
response_wakes_once r e m channel h c waits =
    let id = e.correlation_id in
    let less = Maps.remove id r.pending_requests in
    let r' : ClientInboundRouter = record r { pending_requests = less } in
    let gone = get-remove_self id r.pending_requests in
    let woken : dispatch r e m ≡ (r', wake channel m ∷ []) =
      rw (dispatch_response r e m h c, waits) refl in
    let again : dispatch r' e m ≡ (r', []) =
      rw (dispatch_response r' e m h c, gone, remove_absent id less gone, response_no_event r' m h)
        refl in
    rw woken (refl, again, λ d ne. ground (arith, get-remove id d r.pending_requests, ==_iff id d))

-- An event goes to every handler, in the order in which they were added, whatever it is correlated
-- to; it wakes no request and leaves the router as it was.
pub event_notifies_all :
    (r : ClientInboundRouter) (e : MessageEnvelope) (m : ServerToClientMessage)
    → is_event m ≡ true
    → dispatch r e m ≡ (r, notify_all r.event_handlers m)
unfolding dispatch is_event is_response handle_event ServerToClient.message_type
    MessageTypes.is_response MessageTypes.is_event
event_notifies_all r e (ServerToClientMessage.relay_event id status) h = refl
event_notifies_all r e _ h = ground arith
