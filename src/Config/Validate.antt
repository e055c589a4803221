-- ===== src/Config/Validate.antt =====
-- internal/core/model.go: `Config.Validate`. Each failed check adds its key to the list of bad keys;
-- the messages are not kept. The parts of the loop bodies are in the modules below.
pub mod Check
pub mod GitHubBlock
pub mod Entries
pub mod Pools
pub mod Reserved
use runner_loom.Base.{
  Bool, true, false, ◌||◌, List, [], ◌∷◌, ◌++◌, ltb, length, str_eq, Result, ok, err, fail,
  if◌then◌else◌,
}
use runner_loom.Config.{Config, uses_github}
use runner_loom.Config.Names.{valid_name}
use Check.{Platform, Bad, check}
use GitHubBlock.{github_block}
use Entries.{images_loop, nodes_loop, allowed_loop, names_of_nodes, names_of_pools}
use Pools.{pools_loop}
use Reserved.{reservations_loop, node_totals, pool_totals, no_totals}

unfoldable pub over_limit : Config → Bool
over_limit c =
    ltb 1024 (length c.nodes)
    || ltb 1024 (length c.pools)
    || ltb 1024 (length c.images)
    || ltb 4096 (length c.reservations)

-- All keys that `bad` holds at the end.
unfoldable pub problems : Platform → Config → Bad
problems e c =
    check (str_eq c.api_version "runnerloom/v1alpha1") "apiVersion"
    ++ (check (valid_name c.name) "name"
        ++ ((if uses_github c then github_block e c.github else [])
            ++ (images_loop [] c.images
                ++ (nodes_loop [] c.nodes
                    ++ (pools_loop c [] [] c.pools
                        ++ (allowed_loop (names_of_pools c.pools) c.nodes
                            ++ (reservations_loop c [] c.reservations
                                ++ (node_totals c
                                      (Reserved.totals c no_totals c.reservations).reserved
                                    ++ pool_totals c
                                        (Reserved.totals c no_totals c.reservations).slots))))))))

unfoldable pub verdict : Bad → Result (Unit {0})
verdict [] = ok tt
verdict (key ∷ keys) = err (fail "INVALID_CONFIG")

unfoldable pub validate : Platform → Config → Result (Unit {0})
unfolding over_limit verdict
validate e c = if over_limit c then err (fail "CONFIG_LIMIT") else verdict (problems e c)
