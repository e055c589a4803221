-- ===== src/Store/Plans/Capacity.antt =====
-- internal/core/store.go: `checkCapacityUpdate`, which admits a configuration only if all that runs
-- still fits.
use runner_loom.Base.{
  Bool, true, false, not, ◌&&◌, ◌||◌, Option, none, some, List, [], ◌∷◌, str_eq, Result, ok, err,
  fail, ◌>>=◌, ◌>>◌, require, if◌then◌else◌,
}
use runner_loom.Base.Int64.{pos, lt_ℤ, eq_ℤ}
use runner_loom.Resources
use runner_loom.Resources.{Resources}
use runner_loom.Config.{Config, Node, Pool, Reservation, charge, find_pool, image_or_zero}
use runner_loom.Instance.{Instance}
use runner_loom.Reservations.{validate_owners, protection}
use runner_loom.Scheduler.{pool_count}

unfoldable pub limits : List Instance → List Pool → Result (Unit {0})
limits runs [] = ok tt
limits runs (p ∷ ps) =
    let rest = limits runs ps in
    if lt_ℤ p.max_runners (pos (pool_count p.name runs)) then err (fail "POOL_LIMIT_BUSY") else rest

same_size : Resources → Resources → Bool
same_size r s = eq_ℤ r.cpu s.cpu && eq_ℤ r.memory s.memory && eq_ℤ r.disk s.disk

same_flag : Bool → Bool → Bool
same_flag true b = b
same_flag false b = not b

-- A running VM's Pool must keep its size, its image and its kind.
unfoldable pub unchanged : Config → Option Pool → Instance → Bool
unfolding same_size same_flag
unchanged c none a = false
unchanged c (some p) a =
    same_size (charge p) (charge a.pool)
    && str_eq (image_or_zero c p.image).digest a.image.digest
    && same_flag p.tasks a.pool.tasks

unfoldable pub running_on : Config → Node → Resources → List Instance → Result Resources
unfolding unchanged
running_on c n held [] = ok held
running_on c n held (a ∷ runs) =
    let next = running_on c n (Resources.add held a.held) runs in
    let skipped = running_on c n held runs in
    if str_eq a.node n.name
    then (if Resources.empty a.held || unchanged c (find_pool c.pools a.pool.name) a
        then next
        else err (fail "POOL_IN_USE"))
    else skipped

unfoldable pub reserved_on :
    Config → Node → List Instance → Resources → List Reservation → Result Resources
reserved_on c n runs held [] = ok held
reserved_on c n runs held (r ∷ rs) =
    let skipped = reserved_on c n runs held rs in
    let kept : Result Resources =
      (protection c r runs >>= λ (protected, slots).
      reserved_on c n runs (Resources.add held protected) rs) in
    if str_eq r.node n.name then kept else skipped

unfoldable pub node_fits : Config → List Instance → Node → Result (Unit {0})
unfolding running_on reserved_on
node_fits c runs n = do
  held ← running_on c n Resources.zero runs
  all ← reserved_on c n runs held c.reservations
  require (Resources.fits all n.budget) (fail "BUDGET_BUSY")

unfoldable pub nodes_fit : Config → List Instance → List Node → Result (Unit {0})
unfolding node_fits
nodes_fit c runs [] = ok tt
nodes_fit c runs (n ∷ ns) = node_fits c runs n >> nodes_fit c runs ns

unfoldable pub check_capacity : Config → List Instance → Result (Unit {0})
unfolding limits nodes_fit
check_capacity c runs = do validate_owners c runs; limits runs c.pools; nodes_fit c runs c.nodes
