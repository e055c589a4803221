-- ===== src/Safety.antt =====
-- The Controller's operations keep the resource ledger.
pub mod Rows
pub mod Operations
pub mod Syncing
pub mod Sound
pub mod Tasks
pub mod Reports
pub mod Apply
pub mod Repeats
pub mod Again
pub mod Messages
pub mod Clients
pub mod Certificates
pub mod Submit
pub mod Submitted
pub mod Access
pub mod Enrol
pub mod Joined
pub mod History
pub mod Retire
pub mod Runs
pub mod Effects
use runner_loom.Base.{String, List}
use runner_loom.Config.{Config}
use runner_loom.Instance.{Instance}
use runner_loom.Store.{Store, read_config, read_instances}
use runner_loom.Ledger.{IsSound, Ledger, Distinct}

-- The database is sound: a validated configuration, a ledger within it, one row to an ID.
pub record IsSafe (s : Store) : Type 0 where
  pub sound : IsSound (read_config s).0
  pub ledger : Ledger (read_config s).0 (read_instances s)
  pub distinct : Distinct (λ a. a.id) (read_instances s)
