-- ===== src/Licensing/Policy.antt =====
-- internal/licensing: what Status of client.go makes of a license that was verified and whose
-- revision is the accepted one, and checkStatus and CheckFeatures of policy.go.
pub mod Expiry
use expediente.Base.{
  ℕ, ◌+◌, ◌*◌, Bool, true, false, not, ◌&&◌, ◌||◌, String, String_eq, List, [], ◌∷◌, ◌==◌, leb, ltb,
  if◌then◌else◌,
}
use expediente.Domain.{Instant, hour, contains}

pub data Operation : Type 0 where
  security_administration read_documents write_documents verify_integrity backup_export : Operation

pub data State : Type 0 where
  unactivated development invalid active grace expired revoked : State

-- The fields of the claims that decide.
pub record Claims : Type 0 where
  pub license_type : String
  pub license_status : String
  pub expires_at : Instant
  pub features : List String

pub record Status : Type 0 where
  pub state : State
  pub read_allowed : Bool
  pub write_allowed : Bool
  pub features : List String
  pub diagnostic : String

abbrev pub grace_end : Claims → Instant
grace_end claims = claims.expires_at + 15 * 24 * hour

-- `if claims.Type == "subscription"`
unfoldable pub subscription_state : Instant → Claims → State
subscription_state effective claims =
    if not (claims.license_type == "subscription")
    then active
    else if leb (grace_end claims) effective
    then expired
    else if leb claims.expires_at effective
    then grace
    else active

abbrev pub is_expired : State → Bool
is_expired expired = true
is_expired _ = false

-- The last part of `Status`, behind the checks of the license and of its revision floor; `retired`
-- is the mark of the floor.
unfoldable pub judged_status : Instant → Claims → Bool → Bool → Status
judged_status effective claims deactivated retired =
    let revokes = claims.license_status == "revoked" || deactivated || retired in
    record {
      state = if revokes then revoked else subscription_state effective claims;
      read_allowed = true;
      write_allowed = not revokes && not (is_expired (subscription_state effective claims));
      features = claims.features;
      diagnostic = if deactivated || retired then "ACTIVATION_DEACTIVATED" else "";
    }

pub data Refusal : Type 0 where
  license_read_only license_recovery_required license_feature : Refusal

pub data Answer : Type 0 where
  allowed : Answer
  refused : Refusal → Answer

abbrev reads : Operation → Bool
reads read_documents = true
reads verify_integrity = true
reads _ = false

abbrev writes : Operation → Bool
writes write_documents = true
writes _ = false

abbrev is_read_only : State → Bool
is_read_only expired = true
is_read_only revoked = true
is_read_only _ = false

-- `checkStatus`
unfoldable pub check_status : Status → Operation → Answer
check_status status operation =
    if reads operation && status.read_allowed
    then allowed
    else if writes operation && status.write_allowed
    then allowed
    else if is_read_only status.state
    then refused license_read_only
    else refused license_recovery_required

abbrev always_allowed : Operation → Bool
always_allowed security_administration = true
always_allowed backup_export = true
always_allowed _ = false

-- `Check`
unfoldable pub check_operation : Status → Operation → Answer
check_operation status operation =
    if always_allowed operation then allowed else check_status status operation

abbrev pub feature_names : List String
feature_names =
    "linked_libraries" ∷ "managed_libraries" ∷ "ocr" ∷ "expedientes" ∷ "review_workflow" ∷ []

-- The loop of `CheckFeatures`.
unfoldable pub check_all : Status → List String → Answer
check_all status [] = allowed
check_all status (feature ∷ features) =
    if contains feature_names feature && contains status.features feature
    then check_all status features
    else refused license_feature

-- `CheckFeatures`
unfoldable pub check_features : Status → List String → Answer
check_features status features = elim (check_status status write_documents) [
  | refused refusal ↦ refused refusal
  | allowed ↦ check_all status features
]
