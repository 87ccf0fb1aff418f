-- ===== src/Relay/Registry/Laws.antt =====
-- What the registry of src/server/routed_listener.rs finds after an insertion and a removal.
use echomesh_relay.Prelude.{
  ℕ, ◌≡◌, refl, ◌≢◌, true, false, none, some, arith, if◌then◌else◌, take, Bytes,
}
use echomesh_relay.Maps.{nat_eq, bytes_eq, bytes_beq, bytes_beq_iff}
use echomesh_relay.Maps.Laws.{get-insert, get-remove}
use echomesh_relay.Relay.Registry.{
  Sender, RouteEntry, RouteRegistry, insert, remove_connection, get_by_peer_id, get_by_prefix,
  is_current,
}

abbrev pub entry : Bytes → ℕ → Sender → RouteEntry
entry p c tx = record { connection_id = c; peer_id = p; tx = tx }

pub get_by_peer_id-insert :
    (r : RouteRegistry) (p q : Bytes) (c : ℕ) (tx : Sender)
    → get_by_peer_id (insert r p c tx).0 q
      ≡ (if bytes_beq p q then some (entry p c tx) else get_by_peer_id r q)
unfolding get_by_peer_id insert
get_by_peer_id-insert r p q c tx = get-insert p q (entry p c tx) r.by_peer_id

pub get_by_prefix-insert :
    (r : RouteRegistry) (p x : Bytes) (c : ℕ) (tx : Sender)
    → get_by_prefix (insert r p c tx).0 x
      ≡ (if bytes_beq (take 16 p) x then some (entry p c tx) else get_by_prefix r x)
unfolding get_by_prefix insert
get_by_prefix-insert r p x c tx = get-insert (take 16 p) x (entry p c tx) r.by_prefix

-- A registration routes the peer, by its id and by its prefix, to the new connection; it changes no
-- other id and no other prefix, and returns the connection that the peer had before.
pub insert_routes :
    (r : RouteRegistry) (p : Bytes) (c : ℕ) (tx : Sender)
    → let s = (insert r p c tx).0 in
      (get_by_peer_id s p ≡ some (entry p c tx))
      × (get_by_prefix s (take 16 p) ≡ some (entry p c tx))
      × ((q : Bytes) → p ≢ q → get_by_peer_id s q ≡ get_by_peer_id r q)
      × ((x : Bytes) → take 16 p ≢ x → get_by_prefix s x ≡ get_by_prefix r x)
      × ((insert r p c tx).1 ≡ get_by_peer_id r p)
insert_routes r p c tx = (
  ground (arith, get_by_peer_id-insert r p p c tx, bytes_beq_iff p p),
  ground (arith, get_by_prefix-insert r p (take 16 p) c tx, bytes_beq_iff (take 16 p) (take 16 p)),
  λ q ne. ground (arith, get_by_peer_id-insert r p q c tx, bytes_beq_iff p q),
  λ x ne. ground (arith, get_by_prefix-insert r p x c tx, bytes_beq_iff (take 16 p) x),
  unfold insert get_by_peer_id in refl,
)

-- A removal that does not name the peer's current connection, as after a reconnect, changes
-- nothing.
pub remove_connection_stale :
    (r : RouteRegistry) (p : Bytes) (c : ℕ)
    → is_current (get_by_peer_id r p) c ≡ false
    → remove_connection r p c ≡ (r, false)
unfolding remove_connection get_by_peer_id
remove_connection_stale r p c h = rw h

pub get_by_peer_id-remove :
    (r : RouteRegistry) (p q : Bytes) (c : ℕ)
    → is_current (get_by_peer_id r p) c ≡ true
    → get_by_peer_id (remove_connection r p c).0 q
      ≡ (if bytes_beq p q then none else get_by_peer_id r q)
unfolding remove_connection get_by_peer_id
get_by_peer_id-remove r p q c h = rw h (get-remove p q r.by_peer_id)

pub get_by_prefix-remove :
    (r : RouteRegistry) (p x : Bytes) (c : ℕ)
    → is_current (get_by_peer_id r p) c ≡ true
    → get_by_prefix (remove_connection r p c).0 x
      ≡ (if bytes_beq (take 16 p) x then none else get_by_prefix r x)
unfolding remove_connection get_by_peer_id get_by_prefix
get_by_prefix-remove r p x c h = rw h (get-remove (take 16 p) x r.by_prefix)

-- The entry of a peer survives the end of another connection of the same peer: a removal that
-- names a connection other than the one that registered last changes nothing.
pub remove-insert_reconnect :
    (r : RouteRegistry) (p : Bytes) (old c : ℕ) (tx : Sender)
    → old ≢ c
    → remove_connection (insert r p c tx).0 p old ≡ ((insert r p c tx).0, false)
remove-insert_reconnect r p old c tx ne =
    remove_connection_stale (insert r p c tx).0 p old
      (rw (insert_routes r p c tx).0 (unfold is_current in ground arith))
