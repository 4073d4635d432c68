-- ===== src/Licensing/Tests.antt =====
-- Runs of the parts of internal/licensing.
use expediente.Base.{◌*◌, ◌≡◌, ◌↔◌, refl, false, some, none, [], ◌∷◌}
use expediente.Licensing.Clock.{Sample, Stored, Memory, effective_time}
use expediente.Licensing.Clock.Advance.{Covers, effective_time-Covers, after_calls}
use expediente.Domain.{hour, contains}
use expediente.Licensing.Policy.{
  Claims, check_operation, check_features, judged_status, check_status, check_all, write_documents,
  subscription_state, read_documents, allowed, refused, license_read_only, license_feature,
}
use expediente.Licensing.Policy.Expiry.{
  Writable, check_operation_otherwise, check_operation_write_iff, expired_stays_expired,
}

abbrev sample : Sample
sample = record { wall = 100 * hour; monotonic = 500 }

abbrev set_back : Sample
set_back = record { wall = 2 * hour; monotonic = 900 }

abbrev stored : Stored
stored = record { trusted = some (90 * hour); observed = none }

abbrev memory : Memory
memory = record { effective = 100 * hour; reading = 500 }

effective_time-Covers_example :
    Covers stored sample (effective_time stored sample (some memory)).effective
effective_time-Covers_example = effective_time-Covers stored sample (some memory)

abbrev subscription : Claims
subscription = record {
  license_type = "subscription";
  license_status = "active";
  expires_at = 50 * hour;
  features = "ocr" ∷ [];
}

check_operation_write_iff_example :
    (check_operation (judged_status (60 * hour) subscription false false) write_documents ≡ allowed)
    ↔ Writable (60 * hour) subscription false false
check_operation_write_iff_example = check_operation_write_iff (60 * hour) subscription false false

-- It may be written in its days of grace.
grace_writes :
    check_operation (judged_status (60 * hour) subscription false false) write_documents ≡ allowed
unfolding check_operation check_status judged_status subscription_state
grace_writes = refl

check_operation_otherwise_example :
    check_operation (judged_status (9000 * hour) subscription false false) read_documents ≡ allowed
check_operation_otherwise_example =
    check_operation_otherwise (9000 * hour) subscription false false read_documents (λ e. cc)

abbrev later : Memory
later = record { effective = 9000 * hour; reading = 500 }

subscription_expired :
    check_operation (judged_status later.effective subscription false false) write_documents
    ≡ refused license_read_only
unfolding check_operation check_status judged_status subscription_state
subscription_expired = refl

expired_stays_expired_example :
    check_operation
      (judged_status
        (after_calls ((stored, set_back) ∷ (stored, sample) ∷ []) later).effective
        subscription
        false
        false)
      write_documents
    ≡ refused license_read_only
expired_stays_expired_example =
    expired_stays_expired subscription false false later
      ((stored, set_back) ∷ (stored, sample) ∷ []) subscription_expired

-- A module that the license does not name is refused, also while it may be written.
ocr_only :
    check_features (judged_status (10 * hour) subscription false false) ("ocr" ∷ "expedientes" ∷ [])
    ≡ refused license_feature
unfolding check_features check_all check_status judged_status subscription_state contains
ocr_only = refl
