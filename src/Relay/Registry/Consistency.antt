-- ===== src/Relay/Registry/Consistency.antt =====
-- The two maps of the registry of src/server/routed_listener.rs against one another.
use echomesh_relay.Prelude.{
  ℕ, ◌≡◌, sym, ◌∙◌, ◌≢◌, inl, inr, true, none, some, arith, ==_refl, Bool-cases, take, Bytes,
}
use echomesh_relay.Maps
use echomesh_relay.Maps.{nat_eq, bytes_eq, bytes_beq, bytes_beq_iff}
use echomesh_relay.Relay.Registry.{
  remove_connection, is_current, Sender, RouteEntry, RouteRegistry, new, insert, get_by_peer_id,
  get_by_prefix,
}
use echomesh_relay.Relay.Registry.Laws.{
  insert_routes, get_by_prefix-remove, get_by_peer_id-remove, remove_connection_stale, entry,
  get_by_peer_id-insert, get_by_prefix-insert,
}

-- An entry stands under its own id and under its own prefix, and what a prefix finds is the current
-- entry of that peer.
pub record IsConsistent (r : RouteRegistry) : Type 0 where
  pub keyed : (p : Bytes) (e : RouteEntry) → get_by_peer_id r p ≡ some e → e.peer_id ≡ p
  pub prefixed : (x : Bytes) (e : RouteEntry) → get_by_prefix r x ≡ some e → take 16 e.peer_id ≡ x
  pub current :
      (x : Bytes) (e : RouteEntry)
      → get_by_prefix r x ≡ some e
      → get_by_peer_id r e.peer_id ≡ some e

pub new-IsConsistent : IsConsistent new
unfolding new get_by_peer_id get_by_prefix Maps.get
new-IsConsistent = record { keyed = λ p e h. cc; prefixed = λ x e h. cc; current = λ x e h. cc }

pub insert-IsConsistent :
    (r : RouteRegistry) (p : Bytes) (c : ℕ) (tx : Sender)
    → IsConsistent r
    → IsConsistent (insert r p c tx).0
insert-IsConsistent r p c tx v = record {
  keyed = λ q e h. ground (arith, get_by_peer_id-insert r p q c tx, bytes_beq_iff p q, v.keyed q e);
  prefixed = λ x e h.
      ground (arith, get_by_prefix-insert r p x c tx, bytes_beq_iff (take 16 p) x, v.prefixed x e);
  current = λ x e h. ground (
    arith,
    get_by_prefix-insert r p x c tx,
    get_by_peer_id-insert r p e.peer_id c tx,
    bytes_beq_iff (take 16 p) x,
    bytes_beq_iff p e.peer_id,
    v.prefixed x e,
    v.current x e,
  );
}

removed-IsConsistent :
    (r : RouteRegistry) (p : Bytes) (c : ℕ)
    → is_current (get_by_peer_id r p) c ≡ true
    → IsConsistent r
    → IsConsistent (remove_connection r p c).0
removed-IsConsistent r p c h v = record {
  keyed =
      λ q e found. ground (arith, get_by_peer_id-remove r p q c h, bytes_beq_iff p q, v.keyed q e);
  prefixed = λ x e found.
      ground (arith, get_by_prefix-remove r p x c h, bytes_beq_iff (take 16 p) x, v.prefixed x e);
  current = λ x e found. ground (
    arith,
    get_by_prefix-remove r p x c h,
    get_by_peer_id-remove r p e.peer_id c h,
    bytes_beq_iff (take 16 p) x,
    bytes_beq_iff p e.peer_id,
    v.prefixed x e,
    v.current x e,
  );
}

pub remove_connection-IsConsistent :
    (r : RouteRegistry) (p : Bytes) (c : ℕ)
    → IsConsistent r
    → IsConsistent (remove_connection r p c).0
remove_connection-IsConsistent r p c v = elim (Bool-cases (is_current (get_by_peer_id r p) c)) [
  | inl h ↦ removed-IsConsistent r p c h v
  | inr h ↦ rw (remove_connection_stale r p c h) v
]

-- Every peer that is online is found by its prefix too.
abbrev pub IsComplete : RouteRegistry → Type 0
IsComplete r =
    (p : Bytes) (e : RouteEntry)
    → get_by_peer_id r p ≡ some e
    → get_by_prefix r (take 16 p) ≡ some e

-- No other peer that is online begins with the sixteen bytes of `p`.
abbrev pub IsAlone : RouteRegistry → Bytes → Type 0
IsAlone r p =
    (q : Bytes) (e : RouteEntry) → get_by_peer_id r q ≡ some e → take 16 q ≡ take 16 p → q ≡ p

pub insert-IsComplete :
    (r : RouteRegistry) (p : Bytes) (c : ℕ) (tx : Sender)
    → IsAlone r p
    → IsComplete r
    → IsComplete (insert r p c tx).0
insert-IsComplete r p c tx alone v q e h = ground (
  arith,
  get_by_peer_id-insert r p q c tx,
  get_by_prefix-insert r p (take 16 q) c tx,
  bytes_beq_iff p q,
  bytes_beq_iff (take 16 p) (take 16 q),
  alone q e,
  v q e,
)

removed-IsComplete :
    (r : RouteRegistry) (p : Bytes) (c : ℕ)
    → is_current (get_by_peer_id r p) c ≡ true
    → IsAlone r p
    → IsComplete r
    → IsComplete (remove_connection r p c).0
removed-IsComplete r p c now alone v q e h = ground (
  arith,
  get_by_peer_id-remove r p q c now,
  get_by_prefix-remove r p (take 16 q) c now,
  bytes_beq_iff p q,
  bytes_beq_iff (take 16 p) (take 16 q),
  alone q e,
  v q e,
)

pub remove_connection-IsComplete :
    (r : RouteRegistry) (p : Bytes) (c : ℕ)
    → IsAlone r p
    → IsComplete r
    → IsComplete (remove_connection r p c).0
remove_connection-IsComplete r p c alone v = elim (Bool-cases (is_current (get_by_peer_id r p) c)) [
  | inl h ↦ removed-IsComplete r p c h alone v
  | inr h ↦ rw (remove_connection_stale r p c h) v
]

-- Two peers that share their first sixteen bytes share one prefix route: when the first one that
-- registered leaves, the second stays online and can no longer be reached by its prefix.
pub shared_prefix_lost :
    (r : RouteRegistry) (p q : Bytes) (c d : ℕ) (t u : Sender)
    → p ≢ q
    → take 16 p ≡ take 16 q
    → let s = (insert (insert r p c t).0 q d u).0 in
      (get_by_prefix s (take 16 q) ≡ some (entry q d u))
      × (get_by_peer_id (remove_connection s p c).0 q ≡ some (entry q d u))
      × (get_by_prefix (remove_connection s p c).0 (take 16 q) ≡ none)
shared_prefix_lost r p q c d t u ne same =
    let s1 = (insert r p c t).0 in
    let s = (insert s1 q d u).0 in
    let last = insert_routes s1 q d u in
    let kept : get_by_peer_id s p ≡ some (entry p c t) =
      last.2 p (λ e. ne (sym e)) ∙ (insert_routes r p c t).0 in
    let now : is_current (get_by_peer_id s p) c ≡ true = rw kept (unfold is_current in ==_refl c) in
    (
      last.1,
      ground (arith, get_by_peer_id-remove s p q c now, bytes_beq_iff p q, last.0),
      ground (
        arith,
        get_by_prefix-remove s p (take 16 q) c now,
        bytes_beq_iff (take 16 p) (take 16 q),
      ),
    )
