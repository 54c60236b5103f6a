-- ===== src/Protocol/Steps.antt =====
-- Chains of steps that may fail: inversions.
use herdr_connect.Common.{arith, ◌≡◌, refl, Bool, true, false, Option, none, some}
use herdr_connect.Protocol.{
  Outcome, ok, fail, ProtocolErrorCode, ◌>>=◌, ◌>>◌, require, or_fail, or_foreign,
}

module _ {A B : Type 0} where
  pub bind-ok :
      (o : Outcome A) (k : A → Outcome B) (b : B)
      → (o >>= k) ≡ ok b
      → (a : A) × (o ≡ ok a) × (k a ≡ ok b)
  bind-ok (ok a) k b e = (a, refl, e)
  bind-ok (fail f) k b e = cc

  pub or_fail-ok :
      (code : ProtocolErrorCode) (o : Option A) (k : A → Outcome B) (b : B)
      → (or_fail code o >>= k) ≡ ok b
      → (a : A) × (o ≡ some a) × (k a ≡ ok b)
  or_fail-ok code (some a) k b e = (a, refl, e)
  or_fail-ok code none k b e = cc

  pub or_foreign-ok :
      (o : Option A) (k : A → Outcome B) (b : B)
      → (or_foreign o >>= k) ≡ ok b
      → (a : A) × (o ≡ some a) × (k a ≡ ok b)
  or_foreign-ok (some a) k b e = (a, refl, e)
  or_foreign-ok none k b e = cc

pub require-ok :
    {B : Type 0} (t : Bool) (code : ProtocolErrorCode) (m : Outcome B) (b : B)
    → (require t code >> m) ≡ ok b
    → (t ≡ true) × (m ≡ ok b)
require-ok true code m b e = (refl, e)
require-ok false code m b e = cc

pub ok-eq : {A : Type 0} (a b : A) → ok a ≡ ok b → a ≡ b
ok-eq a b e = ground arith
