-- ===== src/Revocation/Plans.antt =====
-- instance-revocation.ts: the two plans for the outcomes of an attempt.
use herdr_connect.Common.{◌≡◌, ◌↔◌, true, not, arith}
use herdr_connect.Revocation.{
  RevocationClassification, nothing, plan_forget_instance, replacement_revocation_notice,
}

-- The local credentials are removed exactly if no prompt is shown, and exactly if a replacement
-- would give no notice either.
pub plan_forget_instance-notice :
    (c : RevocationClassification)
    → ((plan_forget_instance c).remove_local ≡ not (replacement_revocation_notice c))
      × (((plan_forget_instance c).remove_local ≡ true)
          ↔ ((plan_forget_instance c).prompt ≡ nothing))
unfolding plan_forget_instance replacement_revocation_notice
plan_forget_instance-notice c = ground arith
