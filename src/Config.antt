-- ===== src/Config.antt =====
-- internal/core/model.go: the cluster's configuration and the lookups in it.
pub mod Names
pub mod Validate
use runner_loom.Base.{
  Bool, true, false, not, ◌&&◌, ◌||◌, String, Option, none, some, List, [], ◌∷◌, ℕ, str_eq,
  contains, length, ltb, if◌then◌else◌,
}
use runner_loom.Base.Int64.{ℤ, pos, add, eq_ℤ}
use runner_loom.Resources.{Resources}

pub record GitHub : Type 0 where
  pub url : String
  pub runner_group_id : ℤ
  pub credential_file : String
  pub allowed_repositories : List String

pub record Image : Type 0 where
  pub name : String
  pub digest : String
  pub minimum_root_gib : ℤ

-- A `map[string]string` is an association list; a missing key reads as "".
pub record Node : Type 0 where
  pub name : String
  pub budget : Resources
  pub local_ceiling : Resources
  pub labels : List (String × String)
  pub allowed_pools : List String

pub record Pool : Type 0 where
  pub name : String
  pub runner_name : String
  pub image : String
  pub vcpu : ℤ
  pub memory_mib : ℤ
  pub overhead_mib : ℤ
  pub root_gib : ℤ
  pub scratch_gib : ℤ
  pub disk_overhead_gib : ℤ
  pub max_runners : ℤ
  pub warm_idle : ℤ
  pub execution_minutes : ℤ
  pub node_selector : List (String × String)
  pub node_name : String
  pub enabled : Bool
  pub tasks : Bool

unfoldable pub charge : Pool → Resources
charge p = record {
  cpu = p.vcpu;
  memory = add p.memory_mib p.overhead_mib;
  disk = add (add p.root_gib p.scratch_gib) p.disk_overhead_gib;
}

pub record Reservation : Type 0 where
  pub name : String
  pub node : String
  pub pool : String
  pub slots : ℤ

pub record Config : Type 0 where
  pub api_version : String
  pub name : String
  pub github : GitHub
  pub images : List Image
  pub nodes : List Node
  pub pools : List Pool
  pub reservations : List Reservation

any_runner_pool : List Pool → Bool
any_runner_pool [] = false
any_runner_pool (p ∷ ps) = not p.tasks || any_runner_pool ps

unfoldable pub uses_github : Config → Bool
unfolding any_runner_pool
uses_github c =
    not (str_eq c.github.url "")
    || not (eq_ℤ c.github.runner_group_id (pos 0))
    || not (str_eq c.github.credential_file "")
    || ltb 0 (length c.github.allowed_repositories)
    || any_runner_pool c.pools

unfoldable pub find_pool : List Pool → String → Option Pool
find_pool [] s = none
find_pool (p ∷ ps) s = if str_eq p.name s then some p else find_pool ps s

unfoldable pub find_node : List Node → String → Option Node
find_node [] s = none
find_node (n ∷ ns) s = if str_eq n.name s then some n else find_node ns s

unfoldable pub find_image : List Image → String → Option Image
find_image [] s = none
find_image (i ∷ is) s = if str_eq i.name s then some i else find_image is s

abbrev pub no_image : Image
no_image = record { name = ""; digest = ""; minimum_root_gib = pos 0 }

-- `im, _ := c.Image(s)`: the zero value where there is none.
unfoldable pub image_or_zero : Config → String → Image
unfolding find_image
image_or_zero c s = elim (find_image c.images s) [ none ↦ no_image | some i ↦ i ]

unfoldable pub label : List (String × String) → String → String
label [] k = ""
label ((j, v) ∷ m) k = if str_eq j k then v else label m k

unfoldable pub selects : List (String × String) → List (String × String) → Bool
unfolding label
selects [] labels = true
selects ((k, v) ∷ m) labels = str_eq (label labels k) v && selects m labels

unfoldable pub eligible : Pool → Node → Bool
unfolding selects
eligible p n =
    (str_eq p.node_name "" || str_eq p.node_name n.name)
    && contains n.allowed_pools p.name
    && selects p.node_selector n.labels
