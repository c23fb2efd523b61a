-- ===== src/Wizard/Reset/Clean.antt =====
-- internal/wizard/reset.go: what the absence of warnings after a reset tells.
use swarmdialer.Prelude.{ℕ, ◌≤◌, ◌≡◌, ◌⊎◌, Bool, true, false, some, List, All}
use swarmdialer.Wizard.Reset.{Instance, Replies, max_attempts, delete_extension_with_retry}
use swarmdialer.Wizard.Server.{Package, find_package, is_multi_tenant_edition}

abbrev pub TrunkGone : Replies → Instance → Type 0
TrunkGone r srv = (srv.trunk_id ≡ 0) ⊎ (r.delete_trunk srv.trunk_id ≡ true)

abbrev pub TenantGone : Replies → Instance → Type 0
TenantGone r srv = (srv.tenant_id ≡ 0) ⊎ (r.delete_tenant srv.tenant_id ≡ true)

-- The packages are listed, and the one of the dialer, if there is one, is deleted.
abbrev pub PackageGone : Replies → Type 0
PackageGone r =
    (ps : List Package) × (r.packages ≡ some ps)
    × ((id : ℕ) → find_package ps ≡ some id → r.delete_package id ≡ true)

-- One of the six attempts at the extension's delete got through.
abbrev pub ExtensionGone : Replies → ℕ → Type 0
ExtensionGone r id = (k : ℕ) × (1 ≤ k) × (k ≤ max_attempts) × (r.delete_extension id k ≡ true)

-- The trunk is gone; of a Multi-Tenant edition the tenant and the package too, and of another every
-- extension. What was never made counts as gone.
abbrev pub IsCleared : Replies → Instance → Type 0
IsCleared r srv =
    TrunkGone r srv
    × (is_multi_tenant_edition srv.edition ≡ true → TenantGone r srv × PackageGone r)
    × (is_multi_tenant_edition srv.edition ≡ false → All (ExtensionGone r) srv.extensions)

-- Whether an extension's delete gets through, as the workers are told.
abbrev pub gets_deleted : Replies → ℕ → Bool
gets_deleted r id = delete_extension_with_retry (r.delete_extension id)
