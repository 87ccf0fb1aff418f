-- ===== src/Protocol/Validation.antt =====
-- src/protocol/validation/mod.rs.
use echomesh_relay.Prelude.{
  ℕ, ◌+◌, ◌-◌, ◌≤◌, ◌≡◌, ◌↔◌, ◌&&◌, arith, ltb, ◌==◌, if◌then◌else◌, Result, ok, err,
}
use echomesh_relay.Protocol.Error.{ValidationError}
use echomesh_relay.Protocol.MessageTypes
use echomesh_relay.Protocol.Envelope.{MessageEnvelope}

unfoldable pub validate : MessageEnvelope → Result ValidationError (Unit {0})
validate e =
    if MessageTypes.is_response e.message_type && e.correlation_id == 0
    then err ValidationError.missing_correlation_id
    else ok tt

-- `u64::abs_diff`.
abs_diff : ℕ → ℕ → ℕ
abs_diff x y = if ltb x y then y - x else x - y

unfoldable pub validate_timestamp : ℕ → ℕ → ℕ → Result ValidationError (Unit {0})
unfolding abs_diff
validate_timestamp timestamp now max_skew_secs =
    let diff = abs_diff timestamp now in
    if ltb max_skew_secs diff then err (ValidationError.timestamp_skew timestamp now) else ok tt

-- A timestamp passes exactly when it lies within the allowed skew on either side of `now`.
pub validate_timestamp_iff :
    (timestamp now skew : ℕ)
    → (validate_timestamp timestamp now skew ≡ ok tt)
      ↔ ((timestamp ≤ now + skew) × (now ≤ timestamp + skew))
unfolding validate_timestamp
validate_timestamp_iff timestamp now skew = (λ h. ground arith, λ h. ground arith)
