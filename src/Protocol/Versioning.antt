-- ===== src/Protocol/Versioning.antt =====
-- src/protocol/versioning/mod.rs.
use echomesh_relay.Prelude.{ℕ, ◌<◌, ◌≡◌, refl, arith, ◌==◌, if◌then◌else◌, Result, ok, err}
use echomesh_relay.Protocol.Error.{ProtocolError}

pub data ProtocolVersion : Type 0 where
  v1 : ProtocolVersion

abbrev pub current : ProtocolVersion
current = v1

unfoldable pub from_u8 : ℕ → Result ProtocolError ProtocolVersion
from_u8 v = if v == 1 then ok v1 else err (ProtocolError.unsupported_version 1 v)

unfoldable pub to_u8 : ProtocolVersion → ℕ
to_u8 v1 = 1

pub from_u8-to_u8 : (v : ProtocolVersion) → from_u8 (to_u8 v) ≡ ok v
unfolding from_u8 to_u8
from_u8-to_u8 v1 = refl

pub to_u8-from_u8 : (n : ℕ) (v : ProtocolVersion) → from_u8 n ≡ ok v → to_u8 v ≡ n
unfolding from_u8 to_u8
to_u8-from_u8 n v1 h = ground arith

pub to_u8-lt : (v : ProtocolVersion) → to_u8 v < 256
unfolding to_u8
to_u8-lt v1 = omega arith
