-- ===== src/Relay/Registry.antt =====
-- `RouteRegistryInner` of src/server/routed_listener.rs: the peers that are online, by their whole
-- id and by its first sixteen bytes.
pub mod Laws
pub mod Consistency
use echomesh_relay.Prelude.{
  ℕ, Bool, true, false, Option, none, some, [], map, ◌==◌, if◌then◌else◌, length, take, Bytes,
}
use echomesh_relay.Maps
use echomesh_relay.Maps.{HashMap, nat_eq, bytes_eq}

-- A `mpsc::Sender<Frame>`, by the number of its channel.
abbrev pub Sender : Type 0
Sender = ℕ

pub record RouteEntry : Type 0 where
  pub connection_id : ℕ
  pub peer_id : Bytes
  pub tx : Sender

pub record RouteRegistry : Type 0 where
  pub by_peer_id : HashMap Bytes RouteEntry
  pub by_prefix : HashMap Bytes RouteEntry

unfoldable pub new : RouteRegistry
new = record { by_peer_id = []; by_prefix = [] }

-- The registry after the call, and the entry that the peer had before.
unfoldable pub insert : RouteRegistry → Bytes → ℕ → Sender → RouteRegistry × Option RouteEntry
insert r peer_id connection_id tx =
    let prefix = take 16 peer_id in
    let entry : RouteEntry = record { connection_id = connection_id; peer_id = peer_id; tx = tx } in
    (
      record {
        by_peer_id = Maps.insert peer_id entry r.by_peer_id;
        by_prefix = Maps.insert prefix entry r.by_prefix;
      },
      Maps.get peer_id r.by_peer_id,
    )

-- `.map(|e| e.connection_id == connection_id).unwrap_or(false)`.
unfoldable pub is_current : Option RouteEntry → ℕ → Bool
is_current none connection_id = false
is_current (some e) connection_id = e.connection_id == connection_id

unfoldable pub remove_connection : RouteRegistry → Bytes → ℕ → RouteRegistry × Bool
remove_connection r peer_id connection_id =
    if is_current (Maps.get peer_id r.by_peer_id) connection_id
    then (let prefix = take 16 peer_id in
        (
          record {
            by_peer_id = Maps.remove peer_id r.by_peer_id;
            by_prefix = Maps.remove prefix r.by_prefix;
          },
          true,
        ))
    else (r, false)

unfoldable pub get_by_peer_id : RouteRegistry → Bytes → Option RouteEntry
get_by_peer_id r peer_id = Maps.get peer_id r.by_peer_id

unfoldable pub get_by_prefix : RouteRegistry → Bytes → Option RouteEntry
get_by_prefix r prefix = Maps.get prefix r.by_prefix

unfoldable pub active_count : RouteRegistry → ℕ
active_count r = length r.by_peer_id
