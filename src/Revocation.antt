-- ===== src/Revocation.antt =====
-- instance-revocation.ts: what is done after an attempt to revoke a token.
pub mod Plans
use herdr_connect.Common.{Text, ◌is◌, Bool, true, false, Option, none, some, if◌then◌else◌}
use herdr_connect.Errors.{NetworkErrorCode}

pub data RevocationClassification : Type 0 where
  revoked already_invalid unreachable failed : RevocationClassification

unfoldable pub classify_revocation_failure : NetworkErrorCode → RevocationClassification
classify_revocation_failure NetworkErrorCode.revoked = already_invalid
classify_revocation_failure NetworkErrorCode.unauthorized = already_invalid
classify_revocation_failure NetworkErrorCode.revoke_tls = unreachable
classify_revocation_failure NetworkErrorCode.revoke_timeout = unreachable
classify_revocation_failure NetworkErrorCode.no_address = unreachable
classify_revocation_failure _ = failed

pub data ForgetPrompt : Type 0 where
  nothing revocation_unavailable revocation_failed : ForgetPrompt

pub record ForgetPlan : Type 0 where
  pub remove_local : Bool
  pub prompt : ForgetPrompt

unfoldable pub plan_forget_instance : RevocationClassification → ForgetPlan
plan_forget_instance revoked = record { remove_local = true; prompt = nothing }
plan_forget_instance already_invalid = record { remove_local = true; prompt = nothing }
plan_forget_instance unreachable = record { remove_local = false; prompt = revocation_unavailable }
plan_forget_instance failed = record { remove_local = false; prompt = revocation_failed }

pub data ReplacementRevocationPlan : Type 0 where
  revoke_after_store skip : ReplacementRevocationPlan

unfoldable pub plan_replacement_revocation : Option Text → Text → ReplacementRevocationPlan
plan_replacement_revocation none new_token = skip
plan_replacement_revocation (some token) new_token =
    if token is new_token then skip else revoke_after_store

unfoldable pub replacement_revocation_notice : RevocationClassification → Bool
replacement_revocation_notice revoked = false
replacement_revocation_notice already_invalid = false
replacement_revocation_notice unreachable = true
replacement_revocation_notice failed = true
