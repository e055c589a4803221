-- ===== src/GitHub/Followed.antt =====
-- `Reconcile` follows the relation of Steps.
use runner_loom.Base.{ℕ, none, some, Fault}
use runner_loom.Base.Int64.{ℤ}
use runner_loom.Instance.{Instance}
use runner_loom.Store.{Store}
use runner_loom.GitHub.Reconcile.{JitApi, Left}
use runner_loom.GitHub.Steps.{Act, Blocked}

module _ (api : JitApi) (now : ℕ) (set : ℤ) where
  -- One VM that waits: an action, or an error with its reason.
  data Outcome (a : Instance) (s : Store) : Left → Type 0 where
    went : (t : Store) → Act api now set a s t → Outcome a s (t, none)
    failed : (f : Fault) → Blocked api now set a s → Outcome a s (s, some f)
