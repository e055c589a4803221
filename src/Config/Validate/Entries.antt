-- ===== src/Config/Validate/Entries.antt =====
-- internal/core/model.go: the loops of `Config.Validate` over the images and the Nodes.
use runner_loom.Base.{not, ◌&&◌, String, List, [], ◌∷◌, ◌++◌, contains}
use runner_loom.Base.Int64.{pos, lt_ℤ, le_ℤ}
use runner_loom.Resources
use runner_loom.Config.{Image, Node, Pool}
use runner_loom.Config.Names.{valid_name, valid_digest}
use runner_loom.Config.Validate.Check.{Bad, check, ◌&◌}

-- `seen` holds the names of the images above.
unfoldable pub images_loop : List String → List Image → Bad
images_loop seen [] = []
images_loop seen (i ∷ is) =
    check (valid_name i.name && not (contains seen i.name)) ("images." & i.name)
    ++ (check (valid_digest i.digest) ("images." & i.name & ".digest")
        ++ (check (lt_ℤ (pos 0) i.minimum_root_gib && le_ℤ i.minimum_root_gib (pos 1048576))
              ("images." & i.name & ".minimumRootGiB")
            ++ images_loop (i.name ∷ seen) is))

unfoldable pub labels_loop : String → List (String × String) → Bad
labels_loop key [] = []
labels_loop key ((k, v) ∷ m) = check (valid_name k && valid_name v) key ++ labels_loop key m

unfoldable pub nodes_loop : List String → List Node → Bad
unfolding labels_loop
nodes_loop seen [] = []
nodes_loop seen (n ∷ ns) =
    check (valid_name n.name && not (contains seen n.name)) ("nodes." & n.name)
    ++ (check
          (Resources.valid n.budget
            && Resources.valid n.local_ceiling
            && Resources.fits n.budget n.local_ceiling)
          ("nodes." & n.name & ".budget")
        ++ (labels_loop ("nodes." & n.name & ".labels") n.labels ++ nodes_loop (n.name ∷ seen) ns))

abbrev pub names_of_nodes : List Node → List String
names_of_nodes [] = []
names_of_nodes (n ∷ ns) = n.name ∷ names_of_nodes ns

abbrev pub names_of_pools : List Pool → List String
names_of_pools [] = []
names_of_pools (p ∷ ps) = p.name ∷ names_of_pools ps

allowed_of : List String → String → List String → List String → Bad
allowed_of pools node seen [] = []
allowed_of pools node seen (p ∷ ps) =
    check (contains pools p && not (contains seen p)) ("nodes." & node & ".allowedPools")
    ++ allowed_of pools node (p ∷ seen) ps

unfoldable pub allowed_loop : List String → List Node → Bad
unfolding allowed_of
allowed_loop pools [] = []
allowed_loop pools (n ∷ ns) = allowed_of pools n.name [] n.allowed_pools ++ allowed_loop pools ns
