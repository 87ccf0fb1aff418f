-- ===== src/Relay/World/Leaving.antt =====
-- What a session of src/server/routed_listener.rs leaves behind in the registry when its stream
-- ends, where every client keeps to the one peer id that it registered first.

use echomesh_relay.Prelude.{
  ℕ, ◌+◌, ◌^◌, ◌<◌, ◌≡◌, refl, sym, subst, ◌≢◌, inl, inr, Bool, true, false, Option, none, some, [],
  ◌∷◌, arith, ==_iff, Bool-cases, Option-cases, Bytes, ByteBuf,
}
use echomesh_relay.Maps
use echomesh_relay.Maps.{nat_eq, bytes_beq, bytes_beq_iff}
use echomesh_relay.Maps.Laws.{get-insert_cases, get-remove}
use echomesh_relay.Relay.Registry
use echomesh_relay.Relay.Registry.{
  Sender, RouteEntry, RouteRegistry, remove_connection, get_by_peer_id, is_current,
}
use echomesh_relay.Relay.Registry.Laws.{
  get_by_peer_id-insert, get_by_peer_id-remove, remove_connection_stale,
}
use echomesh_relay.Relay.Session.{Action, reply, forward, register}
use echomesh_relay.Relay.World.{
  Connection, World, start, accept, apply, advance, leave, abort, receive, Step, accepted, received,
  acted, left, aborted, Reachable, started, stepped, accepts,
}
use echomesh_relay.Relay.World.Invariant.{IsOwn, IsSound, apply_keeps}
use echomesh_relay.Relay.World.Reach.{Reachable-IsSound}

-- A client registers no second peer id.
abbrev pub Keeps : Option Bytes → Option Bytes → Type 0
Keeps none after = Unit {0}
Keeps (some p) after = after ≡ some p

-- An entry of a session that is there is under the peer id of that session.
abbrev pub IsHeld : World → Type 0
IsHeld w =
    (p : Bytes) (e : RouteEntry) (k : Connection)
    → get_by_peer_id w.routes p ≡ some e
    → Maps.get e.connection_id w.connections ≡ some k
    → k.registered_peer ≡ some p

Keeps-refl : (peer : Option Bytes) → Keeps peer peer
Keeps-refl none = tt
Keeps-refl (some p) = refl

-- What a removal leaves was there before.
left_over :
    (r : RouteRegistry) (p q : Bytes) (c : ℕ) (e : RouteEntry)
    → get_by_peer_id (remove_connection r p c).0 q ≡ some e
    → get_by_peer_id r q ≡ some e
left_over r p q c e h = elim (Bool-cases (is_current (get_by_peer_id r p) c)) [
  | inr stale ↦ subst (λ s. get_by_peer_id s.0 q ≡ some e) (remove_connection_stale r p c stale) h
  | inl now ↦ ground (arith, get_by_peer_id-remove r p q c now)
]

apply-IsHeld :
    (alive : Bool) (w : World) (c : ℕ) (k : Connection) (a : Action)
    → Maps.get c w.connections ≡ some k
    → IsOwn c k.registered_peer a
    → IsHeld w
    → IsHeld (apply alive w a)
unfolding apply
apply-IsHeld true w c k (reply tx f) here own held p e j h there = held p e j h there
apply-IsHeld false w c k (reply tx f) here own held p e j h there = held p e j h there
apply-IsHeld true w c k (forward entry f) here own held p e j h there = held p e j h there
apply-IsHeld false w c k (forward entry f) here own held p e j h there =
    held p e j (left_over w.routes entry.peer_id p entry.connection_id e h) there
apply-IsHeld alive w c k (register p d tx) here own held q e j h there =
    grind (arith, get_by_peer_id-insert w.routes p q d tx, bytes_beq_iff p q, held q e j)

-- A session keeps the peer that it had registered, or had registered none.
advance-IsHeld :
    (w : World) (c : ℕ) (old k : Connection)
    → Maps.get c w.connections ≡ some old
    → Keeps old.registered_peer k.registered_peer
    → IsHeld w
    → IsHeld (advance w c k)
unfolding advance
advance-IsHeld w c old k here keeps held p e j h there =
    elim (get-insert_cases c e.connection_id k j w.connections there) [
      | inl (same, new) ↦
          let was : old.registered_peer ≡ some p =
            held p e old h (subst (λ x. Maps.get x w.connections ≡ some old) same here) in
          subst (λ y. y.registered_peer ≡ some p) new
            (subst (λ o. Keeps o k.registered_peer) was keeps)
      | inr before ↦ held p e j h before
    ]

abort-IsHeld : (w : World) (c : ℕ) → IsHeld w → IsHeld (abort w c)
unfolding abort
abort-IsHeld w c held p e j h there =
    held p e j h (ground (arith, get-remove c e.connection_id w.connections))

leave-IsHeld : (w : World) (c : ℕ) (peer : Option Bytes) → IsHeld w → IsHeld (leave w c peer)
unfolding leave abort
leave-IsHeld w c none held p e j h there = abort-IsHeld w c held p e j h there
leave-IsHeld w c (some q) held p e j h there =
    abort-IsHeld w c held p e j (left_over w.routes q p c e h) there

module _ ⦃b : ByteBuf⦄ where
  step-IsHeld : (v w : World) → Step Keeps v w → IsSound v → IsHeld v → IsHeld w
  unfolding receive accept
  step-IsHeld v w (accepted _) sound held p e k h there =
      elim (get-insert_cases v.next_connection_id e.connection_id _ k v.connections there) [
        | inl (same, new) ↦ absurd (omega (arith, (sound.names p e h).0))
        | inr before ↦ held p e k h before
      ]
  step-IsHeld v w (received _ c peer frame here allowed) sound held p e k h there =
      advance-IsHeld v c _ _ here allowed held p e k h there
  step-IsHeld v w (acted _ c peer action rest alive here) sound held p e k h there =
      advance-IsHeld (apply alive v action) c
        (record { registered_peer = peer; pending = action ∷ rest }) _
        (rw (apply_keeps alive v action).1 here) (Keeps-refl peer)
        (apply-IsHeld alive v c _ action here (sound.known c _ here).1.0 held) p e k h there
  step-IsHeld v w (left _ c peer here) sound held p e k h there =
      leave-IsHeld v c peer held p e k h there
  step-IsHeld v w (aborted _ c peer here) sound held p e k h there =
      abort-IsHeld v c held p e k h there

  Reachable-IsHeld :
      (w : World) (reached : Reachable Keeps w) → accepts reached + 1 < 2 ^ 64 → IsHeld w
  unfolding accepts
  Reachable-IsHeld w started few =
      unfold start Registry.new get_by_peer_id Maps.get in (λ p e k h there. cc)
  Reachable-IsHeld w (stepped {v} r step) few =
      let before : accepts r + 1 < 2 ^ 64 = omega arith in
      step-IsHeld v w step (Reachable-IsSound v r before) (Reachable-IsHeld v r before)

  left_behind :
      (w : World) (c : ℕ) (peer : Option Bytes) (reached : Reachable Keeps w)
      → accepts reached + 1 < 2 ^ 64
      → Maps.get c w.connections ≡ some (record { registered_peer = peer; pending = [] })
      → (q : Bytes) (e : RouteEntry) → get_by_peer_id (leave w c peer).routes q ≡ some e
      → e.connection_id ≢ c
  unfolding leave
  left_behind w c none reached few here q e h same =
      absurd (grind (arith, Reachable-IsHeld w reached few q e _ h))
  left_behind w c (some p) reached few here q e h same =
      let before : get_by_peer_id w.routes q ≡ some e = left_over w.routes p q c e h in
      let peer : Option.some p ≡ some q = Reachable-IsHeld w reached few q e _ before (
        subst
          (λ x. Maps.get x w.connections ≡ some (record { registered_peer = some p; pending = [] }))
          (sym same) here) in
      let eq : p ≡ q = cc in
      let now : is_current (get_by_peer_id w.routes p) c ≡ true =
        subst (λ x. is_current (get_by_peer_id w.routes x) c ≡ true) (sym eq)
          (rw before (unfold is_current in ground (arith, ==_iff e.connection_id c))) in
      ground (arith, get_by_peer_id-remove w.routes p q c now, bytes_beq_iff p q)

  -- In every world that is reached by clients who keep to one peer id, while fewer than 2 ^ 64 - 1
  -- connections were accepted, the end of a session's stream leaves no entry of its connection in the registry, under any peer id.
  pub leave_unroutes :
      (w : World) (c : ℕ) (peer : Option Bytes) (q : Bytes) (reached : Reachable Keeps w)
      → accepts reached + 1 < 2 ^ 64
      → Maps.get c w.connections ≡ some (record { registered_peer = peer; pending = [] })
      → is_current (get_by_peer_id (leave w c peer).routes q) c ≡ false
  leave_unroutes w c peer q reached few here =
      elim (Option-cases (get_by_peer_id (leave w c peer).routes q)) [
        | inl h ↦ rw h (unfold is_current in refl)
        | inr (e, h) ↦ rw h (
            unfold is_current in
            ground (arith, left_behind w c peer reached few here q e h, ==_iff e.connection_id c))
      ]
