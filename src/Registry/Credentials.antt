-- ===== src/Registry/Credentials.antt =====
-- session-registry.ts, `sameCredentials`: the fields that are compared.
use herdr_connect.Common.{◌≡◌, true, ◌↔◌, arith}
use herdr_connect.Paired.{DeviceCredentials}
use herdr_connect.Registry.{same_credentials}

-- Two credentials count as the same exactly if they agree in all fields but the pinned host.
pub same_credentials-eq :
    (c d : DeviceCredentials)
    → (same_credentials c d ≡ true) ↔ (record c { pinned_host = d.pinned_host } ≡ d)
unfolding same_credentials
same_credentials-eq c d = ground arith
