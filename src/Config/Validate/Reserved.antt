-- ===== src/Config/Validate/Reserved.antt =====
-- internal/core/model.go: the loops of `Config.Validate` over the reservations and their totals.
use runner_loom.Base.{
  Bool, false, not, ◌&&◌, String, Option, none, some, List, [], ◌∷◌, ◌++◌, str_eq, contains,
  if◌then◌else◌,
}
use runner_loom.Base.Int64
use runner_loom.Base.Int64.{ℤ, pos, le_ℤ}
use runner_loom.Resources
use runner_loom.Resources.{Resources}
use runner_loom.Config.{Config, Node, Pool, Reservation, charge, eligible, find_pool, find_node}
use runner_loom.Config.Names.{valid_name}
use runner_loom.Config.Validate.Check.{Bad, check, ◌&◌}
use runner_loom.Config.Validate.Pools.{within}

-- `p, pok := c.Pool(…); n, nok := c.Node(…); pok && nok && c.Eligible(p, n)`.
unfoldable pub good_target : Option Pool → Option Node → Bool
good_target none n = false
good_target (some p) none = false
good_target (some p) (some n) = eligible p n

unfoldable pub in_range : Reservation → Bool
in_range r = within (pos 1) (pos 10000) r.slots

unfoldable pub reservations_loop : Config → List String → List Reservation → Bad
unfolding good_target in_range
reservations_loop c seen [] = []
reservations_loop c seen (r ∷ rs) =
    check (valid_name r.name && not (contains seen r.name)) ("reservations." & r.name)
    ++ (check (good_target (find_pool c.pools r.pool) (find_node c.nodes r.node))
          ("reservations." & r.name & ".target")
        ++ (check (in_range r) ("reservations." & r.name & ".slots")
            ++ reservations_loop c (r.name ∷ seen) rs))

-- The maps `reserved` and `slots`.
pub record Totals : Type 0 where
  pub reserved : List (String × Resources)
  pub slots : List (String × ℤ)

abbrev pub no_totals : Totals
no_totals = record { reserved = []; slots = [] }

-- `m[k] = m[k].Add(v)`, the missing value being zero.
unfoldable pub add_at : String → Resources → List (String × Resources) → List (String × Resources)
add_at k v [] = (k, Resources.add Resources.zero v) ∷ []
add_at k v ((j, w) ∷ m) = if str_eq j k then (j, Resources.add w v) ∷ m else (j, w) ∷ add_at k v m

-- `m[k] += v`.
unfoldable pub count_at : String → ℤ → List (String × ℤ) → List (String × ℤ)
count_at k v [] = (k, Int64.add (pos 0) v) ∷ []
count_at k v ((j, w) ∷ m) = if str_eq j k then (j, Int64.add w v) ∷ m else (j, w) ∷ count_at k v m

unfoldable pub size_of : Option Pool → Resources
size_of none = Resources.zero
size_of (some p) = charge p

unfoldable pub totals : Config → Totals → List Reservation → Totals
unfolding in_range add_at count_at size_of
totals c t [] = t
totals c t (r ∷ rs) = totals c (if in_range r then more else t) rs
  where
    more : Totals
    more = record {
      reserved =
          add_at r.node (Resources.mul (size_of (find_pool c.pools r.pool)) r.slots) t.reserved;
      slots = count_at r.pool r.slots t.slots;
    }

unfoldable pub budget_of : Option Node → Resources
budget_of none = Resources.zero
budget_of (some n) = n.budget

unfoldable pub node_totals : Config → List (String × Resources) → Bad
unfolding budget_of
node_totals c [] = []
node_totals c ((k, r) ∷ m) =
    check (Resources.fits r (budget_of (find_node c.nodes k))) ("nodes." & k & ".reservations")
    ++ node_totals c m

unfoldable pub limit_of : Option Pool → ℤ
limit_of none = pos 0
limit_of (some p) = p.max_runners

unfoldable pub pool_totals : Config → List (String × ℤ) → Bad
unfolding limit_of
pool_totals c [] = []
pool_totals c ((k, s) ∷ m) =
    check (le_ℤ s (limit_of (find_pool c.pools k))) ("pools." & k & ".reservations")
    ++ pool_totals c m
