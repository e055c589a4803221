-- ===== src/Tests/Agent.antt =====
-- The agent of the example's Node.
use runner_loom.Resources
use runner_loom.Base.Int64
use runner_loom.Resources.{Resources}
use runner_loom.Config.{charge}
use runner_loom.Store.{read_instances}
use runner_loom.Tests.Ledger.{now, first}
use runner_loom.Tests.Fixtures.{node_a}
use runner_loom.Tests.Operations.{size, report, fourth, fourth_eq}
use runner_loom.Base.{true, false, [], ◌∷◌, ◌≡◌, ◌≤◌, refl, ok, All, arith, length}
use runner_loom.Agent.{delays, short_delay, long_delay, accept_command}
use runner_loom.Agent.Cycle.{delays-bounds}
use runner_loom.Agent.Synced.{IsSized, sync-accept_command}

delays_test :
    delays 5000000000 (false ∷ false ∷ false ∷ true ∷ [])
    ≡ 10000000000 ∷ 20000000000 ∷ 30000000000 ∷ 5000000000 ∷ []
unfolding delays
delays_test = refl

delays-bounds_example :
    All (λ x. (short_delay ≤ x) × (x ≤ long_delay)) (delays 5000000000 (false ∷ true ∷ []))
delays-bounds_example = delays-bounds 5000000000 (false ∷ true ∷ []) (omega arith) (omega arith)

-- The example's VM fits the Node's ceiling, and it is one for GitHub's jobs.
first-IsSized : All (IsSized node_a.local_ceiling) (read_instances first.0)
unfolding first charge Resources.fits Int64.add
first-IsSized = (record { fits = refl; linked = refl }, tt)

sync-accept_command_example :
    All (λ cmd. accept_command "node-a" node_a.local_ceiling cmd ≡ ok tt) fourth.1.commands
    × (length fourth.1.commands ≤ 4)
sync-accept_command_example =
    sync-accept_command size now "node-a" node_a.local_ceiling report first.0 fourth.0 fourth.1
      first-IsSized fourth_eq
