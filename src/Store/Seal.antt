-- ===== src/Store/Seal.antt =====
-- internal/core/store.go and task.go: AES-GCM boxes at rest, read as what they promise. A box opens
-- only under the associated data that it was sealed with.
use runner_loom.Base.{String, Option, none, some, Result, ok, err, plain, str_eq, if◌then◌else◌}

pub data Sealed {ℓ} (A : Type ℓ) : Type ℓ where
  sealed : String → A → Sealed A

abbrev pub unseal {ℓ} : {A : Type ℓ} → String → Option (Sealed A) → Result A
unseal id none = err (plain "missing encrypted data")
unseal id (some (sealed label a)) =
    if str_eq label id then ok a else err (plain "message authentication failed")
