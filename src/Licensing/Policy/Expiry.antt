-- ===== src/Licensing/Policy/Expiry.antt =====
-- When a license allows to write, over time.
use expediente.Base.{◌<◌, Bool, false, ◌≡◌, ◌≢◌, ◌↔◌, ◌⊎◌, arith, String_eq, List}
use expediente.Domain.{Instant}
use expediente.Licensing.Policy.{
  check_operation, Claims, check_status, grace_end, judged_status, subscription_state, Operation,
  write_documents, allowed, refused, license_read_only,
}
use expediente.Licensing.Clock.{Memory, Stored, Sample}
use expediente.Licensing.Clock.Advance.{after_calls, after_calls_le}

-- The license is neither revoked nor deactivated, and the grace period of a subscription runs.
pub record Writable (effective : Instant) (claims : Claims) (deactivated retired : Bool)
    : Type 0 where
  pub not_revoked : claims.license_status ≢ "revoked"
  pub not_deactivated : deactivated ≡ false
  pub not_retired : retired ≡ false
  pub in_time : (claims.license_type ≢ "subscription") ⊎ (effective < grace_end claims)

-- Writing is allowed exactly when the license is neither revoked nor deactivated and is no
-- subscription whose grace period of fifteen days is over.
pub check_operation_write_iff :
    (effective : Instant) (claims : Claims) (deactivated retired : Bool)
    → (check_operation (judged_status effective claims deactivated retired) write_documents
        ≡ allowed)
      ↔ Writable effective claims deactivated retired
unfolding check_operation check_status judged_status subscription_state
check_operation_write_iff effective claims deactivated retired = ground (
  arith,
  String_eq.beq_iff claims.license_status "revoked",
  String_eq.beq_iff claims.license_type "subscription",
)

-- Reading, checking the integrity, administration and backups are allowed whatever the license says
-- and whenever it expired.
pub check_operation_otherwise :
    (effective : Instant) (claims : Claims) (deactivated retired : Bool) (operation : Operation)
    → operation ≢ write_documents
    → check_operation (judged_status effective claims deactivated retired) operation ≡ allowed
unfolding check_operation check_status judged_status
check_operation_otherwise effective claims deactivated retired operation other = ground arith

-- A license that refuses to write as read-only, since it expired or was revoked, refuses so after
-- any further calls of the clock, to whatever the wall clock is set in between.
pub expired_stays_expired :
    (claims : Claims) (deactivated retired : Bool) (last : Memory) (calls : List (Stored × Sample))
    → check_operation (judged_status last.effective claims deactivated retired) write_documents
      ≡ refused license_read_only
    → check_operation
        (judged_status (after_calls calls last).effective claims deactivated retired)
        write_documents
      ≡ refused license_read_only
unfolding check_operation check_status judged_status subscription_state
expired_stays_expired claims deactivated retired last calls h =
    ground (arith, after_calls_le calls last)
