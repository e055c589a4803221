-- ===== src/Config/Validate/Pools.antt =====
-- internal/core/model.go: the loop of `Config.Validate` over the Pools.
use runner_loom.Base.{
  Bool, false, not, ◌&&◌, ◌||◌, String, List, [], ◌∷◌, ◌++◌, str_eq, contains, is_some,
  if◌then◌else◌,
}
use runner_loom.Base.Int64.{ℤ, pos, le_ℤ, eq_ℤ}
use runner_loom.Resources
use runner_loom.Config.{Config, Image, Node, Pool, charge, eligible, find_image, image_or_zero}
use runner_loom.Config.Names.{valid_name}
use runner_loom.Config.Validate.Check.{Bad, check, ◌&◌}
use runner_loom.Config.Validate.Entries.{names_of_nodes, labels_loop}

abbrev pub within : ℤ → ℤ → ℤ → Bool
within lo hi x = le_ℤ lo x && le_ℤ x hi

good_runner_name : Pool → List String → Bool
good_runner_name p runner_names =
    valid_name p.runner_name && not (contains runner_names p.runner_name)

unfoldable pub kind_checks : Pool → String → List String → Bad
unfolding good_runner_name
kind_checks p key runner_names =
    if p.tasks
    then check (str_eq p.runner_name "" || good_runner_name p runner_names) (key & ".runnerName")
      ++ (check (eq_ℤ p.warm_idle (pos 0)) (key & ".warmIdle")
          ++ check (le_ℤ (pos 30) p.execution_minutes) (key & ".executionMinutes"))
    else check (good_runner_name p runner_names) (key & ".runnerName")

unfoldable pub good_size : Pool → Bool
good_size p =
    within (pos 1) (pos 65536) p.vcpu
    && within (pos 512) (pos 1073741824) p.memory_mib
    && within (pos 512) (pos 1048576) p.overhead_mib

unfoldable pub good_disk : Pool → Image → Bool
good_disk p im =
    within (pos 1) (pos 1048576) p.root_gib
    && le_ℤ im.minimum_root_gib p.root_gib
    && within (pos 0) (pos 1048576) p.scratch_gib
    && within (pos 1) (pos 1024) p.disk_overhead_gib

unfoldable pub has_room : Pool → List Node → Bool
has_room p [] = false
has_room p (n ∷ ns) = eligible p n && Resources.fits (charge p) n.budget || has_room p ns

unfoldable pub pool_checks : Config → Pool → List String → List String → Bad
unfolding kind_checks good_size good_disk has_room
pool_checks c p seen runner_names =
    check (valid_name p.name && not (contains seen p.name)) key
    ++ (kind_checks p key runner_names
        ++ (check (is_some (find_image c.images p.image)) (key & ".image")
            ++ (check (good_size p) (key & ".size")
                ++ (check (good_disk p (image_or_zero c p.image)) (key & ".disk")
                    ++ (check
                          (within (pos 1) (pos 10000) p.max_runners
                            && within (pos 0) p.max_runners p.warm_idle)
                          (key & ".maxRunners")
                        ++ (check (within (pos 1) (pos 7200) p.execution_minutes)
                              (key & ".executionMinutes")
                            ++ (check
                                  (str_eq p.node_name ""
                                    || contains (names_of_nodes c.nodes) p.node_name)
                                  (key & ".nodeName")
                                ++ (labels_loop (key & ".nodeSelector") p.node_selector
                                    ++ check (not p.enabled || has_room p c.nodes)
                                        (key & ".capacity")))))))))
  where
    key : String
    key = "pools." & p.name

-- The runner names that are taken; the empty one is not recorded.
unfoldable pub take_name : Pool → List String → List String
take_name p runner_names =
    if str_eq p.runner_name "" then runner_names else p.runner_name ∷ runner_names

unfoldable pub pools_loop : Config → List String → List String → List Pool → Bad
unfolding pool_checks take_name
pools_loop c seen runner_names [] = []
pools_loop c seen runner_names (p ∷ ps) =
    pool_checks c p seen runner_names ++ pools_loop c (p.name ∷ seen) (take_name p runner_names) ps
