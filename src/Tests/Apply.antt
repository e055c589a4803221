-- ===== src/Tests/Apply.antt =====
-- A plan that gives up the example's reservation while a VM runs.
use runner_loom.Base.{◌<◌, String, none, List, [], ◌∷◌, ◌≡◌, refl, sum, ok, arith}
use runner_loom.Base.Int64
use runner_loom.Base.Int64.{ℤ, pos}
use runner_loom.Base.Split.{split, trim_right, trim_left, contains_any}
use runner_loom.Resources
use runner_loom.Resources.Laws.{Kind, cpus, memories, disks, amount}
use runner_loom.Config.{
  Config, Reservation, charge, find_pool, find_image, find_node, uses_github, eligible,
  image_or_zero,
}
use runner_loom.Config.Names.{valid_name, valid_digest}
use runner_loom.Config.Validate.{validate, problems}
use runner_loom.Config.Validate.GitHubBlock.{github_block}
use runner_loom.Config.Validate.Entries.{images_loop, nodes_loop, allowed_loop}
use runner_loom.Config.Validate.Pools.{pools_loop}
use runner_loom.Config.Validate.Reserved.{reservations_loop, totals, node_totals, pool_totals}
use runner_loom.Reservations.{protection, validate_owners}
use runner_loom.Scheduler.{pool_count}
use runner_loom.Store.{Store, Plan, read_config, read_instances}
use runner_loom.Store.Plans.{apply, find_plan, merge_config, show_int}
use runner_loom.Store.Plans.Merge.{or_else, merge_config-find}
use runner_loom.Store.Plans.Capacity.{check_capacity}
use runner_loom.Safety.{IsSafe}
use runner_loom.Safety.Apply.{apply-IsSafe}
use runner_loom.Tests.Fixtures.{value, home, home_store}
use runner_loom.Tests.Validation.{platform}
use runner_loom.Tests.Ledger.{now, first, first-IsSafe}

abbrev first_name : List Reservation → String
first_name [] = "none"
first_name (r ∷ rs) = r.name

abbrev fingerprint : Config → String
fingerprint c = first_name c.reservations

abbrev proposal : Plan
proposal = record {
  id = "plan-1";
  base = pos 1;
  expires = 600;
  payload = record home { reservations = [] };
  applied = none;
}

unfoldable before_apply : Store
unfolding first
before_apply = record (first.0) { plans = proposal ∷ [] }

before_apply-IsSafe : IsSafe before_apply
unfolding before_apply read_config
before_apply-IsSafe = record {
  sound = first-IsSafe.sound;
  ledger = first-IsSafe.ledger;
  distinct = first-IsSafe.distinct;
}

small : (k : Kind) → sum (λ a. amount k a.held) (read_instances before_apply) < 4611686018427387904
unfolding before_apply
small cpus = omega arith
small memories = omega arith
small disks = omega arith

unfoldable after_apply : Store
unfolding before_apply apply find_plan read_config check_capacity protection validate_owners
    pool_count find_pool charge Resources.add Resources.sub Resources.mul Resources.empty
    Resources.fits Resources.valid Int64.add Int64.sub Int64.mul image_or_zero find_image validate
    problems valid_name valid_digest split trim_right trim_left contains_any uses_github eligible
    find_node
after_apply = (value (apply platform fingerprint now "plan-1" before_apply) (home_store, pos 0)).0

after_apply_eq : apply platform fingerprint now "plan-1" before_apply ≡ ok (after_apply, pos 2)
unfolding after_apply github_block images_loop nodes_loop pools_loop allowed_loop reservations_loop
    node_totals totals pool_totals
after_apply_eq = refl

apply-IsSafe_example : IsSafe after_apply
apply-IsSafe_example =
    apply-IsSafe platform fingerprint now "plan-1" before_apply after_apply (pos 2)
      before_apply-IsSafe small after_apply_eq

-- A plan that leaves the Nodes and Pools out keeps them.
merge_config-find_example :
    (find_node (merge_config home (record home { nodes = []; pools = [] })).nodes "node-a"
      ≡ or_else none (find_node home.nodes "node-a"))
    × (find_pool (merge_config home (record home { nodes = []; pools = [] })).pools "node-a"
        ≡ or_else none (find_pool home.pools "node-a"))
    × (find_image (merge_config home (record home { nodes = []; pools = [] })).images "node-a"
        ≡ or_else (find_image home.images "node-a") (find_image home.images "node-a"))
unfolding find_node find_pool find_image
merge_config-find_example = merge_config-find home (record home { nodes = []; pools = [] }) "node-a"

show_int_test : show_int (pos 120) ≡ "120"
unfolding show_int
show_int_test = refl
