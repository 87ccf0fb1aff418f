-- ===== src/Relay/World.antt =====
-- The routed sessions of src/server/routed_listener.rs side by side: every connection handles its
-- frames by itself, and they share the registry. An action is one access of that registry, so the
-- actions of different connections interleave in any order.
pub mod Invariant
pub mod Reach
pub mod Leaving
use echomesh_relay.Prelude.{
  ℕ, ◌+◌, ◌%◌, ◌^◌, ◌≡◌, Bool, Option, none, some, List, [], ◌∷◌, ◌++◌, if◌then◌else◌, length,
  Bytes, ByteBuf,
}
use echomesh_relay.Maps
use echomesh_relay.Maps.{HashMap, nat_eq}
use echomesh_relay.Protocol.Frame.{Frame}
use echomesh_relay.Relay.Registry
use echomesh_relay.Relay.Registry.{Sender, RouteEntry, RouteRegistry, remove_connection}
use echomesh_relay.Relay.Session.{Action, reply, forward, register, receive_frame}

-- What a session knows: the peer it registered, and what is left to do for the last frame.
pub record Connection : Type 0 where
  pub registered_peer : Option Bytes
  pub pending : List Action

-- The registry, `NEXT_CONNECTION_ID`, the sessions, and the frames that were put in a channel.
pub record World : Type 0 where
  pub routes : RouteRegistry
  pub next_connection_id : ℕ
  pub connections : HashMap ℕ Connection
  pub sent : List (Sender × Frame)

unfoldable pub start : World
start = record { routes = Registry.new; next_connection_id = 1; connections = []; sent = [] }

-- The end of the handshake; `fetch_add(1)` of a `u64` wraps. A connection's channel bears its
-- number.
unfoldable pub accept : World → World
accept w = record w {
  next_connection_id = (w.next_connection_id + 1) % 2 ^ 64;
  connections =
      Maps.insert w.next_connection_id (record { registered_peer = none; pending = [] })
        w.connections;
}

-- One action; `alive` says whether the channel that it sends to still has its receiver.
unfoldable pub apply : Bool → World → Action → World
apply alive w (reply tx frame) =
    if alive then record w { sent = w.sent ++ ((tx, frame) ∷ []) } else w
apply alive w (forward entry frame) =
    if alive
    then record w { sent = w.sent ++ ((entry.tx, frame) ∷ []) }
    else record w { routes = (remove_connection w.routes entry.peer_id entry.connection_id).0 }
apply alive w (register peer_id connection_id tx) = record w {
  routes = (Registry.insert w.routes peer_id connection_id tx).0;
}

-- The connection goes on with what is left to do.
unfoldable pub advance : World → ℕ → Connection → World
advance w c connection = record w { connections = Maps.insert c connection w.connections }

-- The end of the stream: the session's own registration is removed.
unfoldable pub leave : World → ℕ → Option Bytes → World
leave w c none = record w { connections = Maps.remove c w.connections }
leave w c (some peer_id) = record w {
  routes = (remove_connection w.routes peer_id c).0;
  connections = Maps.remove c w.connections;
}

-- An error of the stream, of a length or of the decryption: the session returns at once.
unfoldable pub abort : World → ℕ → World
abort w c = record w { connections = Maps.remove c w.connections }

module _ ⦃b : ByteBuf⦄ where
  unfoldable pub receive : World → ℕ → Option Bytes → Frame → World
  receive w c peer frame =
      let (peer', actions) = receive_frame w.routes c c peer frame in
      advance w c (record { registered_peer = peer'; pending = actions })

  -- A step of one connection. `Allowed` restricts what a client does to its registration.
  pub data Step (Allowed : Option Bytes → Option Bytes → Type 0) : World → World → Type 0 where
    accepted : (w : World) → Step Allowed w (accept w)
    received :
        (w : World) (c : ℕ) (peer : Option Bytes) (frame : Frame)
        → Maps.get c w.connections ≡ some (record { registered_peer = peer; pending = [] })
        → Allowed peer (receive_frame w.routes c c peer frame).0
        → Step Allowed w (receive w c peer frame)
    acted :
        (w : World) (c : ℕ) (peer : Option Bytes) (action : Action) (rest : List Action)
        (alive : Bool)
        → Maps.get c w.connections
          ≡ some (record { registered_peer = peer; pending = action ∷ rest })
        → Step Allowed w
            (advance (apply alive w action) c (record { registered_peer = peer; pending = rest }))
    left :
        (w : World) (c : ℕ) (peer : Option Bytes)
        → Maps.get c w.connections ≡ some (record { registered_peer = peer; pending = [] })
        → Step Allowed w (leave w c peer)
    aborted :
        (w : World) (c : ℕ) (peer : Option Bytes)
        → Maps.get c w.connections ≡ some (record { registered_peer = peer; pending = [] })
        → Step Allowed w (abort w c)

  pub data Reachable (Allowed : Option Bytes → Option Bytes → Type 0) : World → Type 0 where
    started : Reachable Allowed start
    stepped : {v w : World} → Reachable Allowed v → Step Allowed v w → Reachable Allowed w

  -- Whether a step accepts a connection.
  unfoldable pub counted :
      {Allowed : Option Bytes → Option Bytes → Type 0} {v w : World} → Step Allowed v w → ℕ
  counted (accepted _) = 1
  counted (received _ _ _ _ _ _) = 0
  counted (acted _ _ _ _ _ _ _) = 0
  counted (left _ _ _ _) = 0
  counted (aborted _ _ _ _) = 0

  -- How many connections were accepted on the way to a world.
  unfoldable pub accepts :
      {Allowed : Option Bytes → Option Bytes → Type 0} {w : World} → Reachable Allowed w → ℕ
  unfolding counted
  accepts started = 0
  accepts (stepped reached step) = accepts reached + counted step
