-- ===== src/Server/Sessions.antt =====
-- src/server/sessions: `Session` and `SessionManager`. The clock is an argument.
use echomesh_relay.Prelude.{ℕ, ◌≡◌, refl, Option, none, some, length, Bytes}
use echomesh_relay.Maps
use echomesh_relay.Maps.{HashMap, bytes_eq}
use echomesh_relay.Maps.Laws.{get-insert_self, get-remove_self}

pub record Session : Type 0 where
  pub session_id : Bytes
  pub peer_id : Option Bytes
  pub authenticated_at : ℕ
  pub last_seen : ℕ

unfoldable pub new : ℕ → Bytes → Option Bytes → Session
new now session_id peer_id = record {
  session_id = session_id;
  peer_id = peer_id;
  authenticated_at = now;
  last_seen = now;
}

unfoldable pub touch : ℕ → Session → Session
touch now s = record s { last_seen = now }

abbrev pub SessionManager : Type 0
SessionManager = HashMap Bytes Session

unfoldable pub create_session : ℕ → SessionManager → Bytes → Option Bytes → SessionManager × Session
create_session now sessions session_id peer_id =
    let session = new now session_id peer_id in (Maps.insert session_id session sessions, session)

touch_found : ℕ → SessionManager → Bytes → Option Session → SessionManager × Option Session
touch_found now sessions session_id none = (sessions, none)
touch_found now sessions session_id (some session) =
    (Maps.insert session_id (touch now session) sessions, some (touch now session))

-- `get_mut` finds the session in its place, and `touch` changes it there.
unfoldable pub touch_session : ℕ → SessionManager → Bytes → SessionManager × Option Session
unfolding touch_found
touch_session now sessions session_id =
    touch_found now sessions session_id (Maps.get session_id sessions)

unfoldable pub remove_session : SessionManager → Bytes → SessionManager × Option Session
remove_session sessions session_id = (Maps.remove session_id sessions, Maps.get session_id sessions)

unfoldable pub count : SessionManager → ℕ
count sessions = length sessions

-- A session that was created is found and touched: what is kept is the session, seen now; once it
-- is removed, it is found no more.
pub session_lifecycle :
    (t u : ℕ) (sessions : SessionManager) (s : Bytes) (p : Option Bytes)
    → let (made, session) = create_session t sessions s p in
      let (touched, found) = touch_session u made s in
      let (gone, last) = remove_session touched s in
      (found ≡ some (record session { last_seen = u }))
      × (last ≡ found)
      × (touch_session u gone s ≡ (gone, none))
unfolding create_session touch_session touch remove_session
session_lifecycle t u sessions s p =
    let session = new t s p in
    let made = get-insert_self s session sessions in
    (
      rw made refl,
      rw made (get-insert_self s _ _),
      rw (get-remove_self s (touch_session u (Maps.insert s session sessions) s).0) refl,
    )
