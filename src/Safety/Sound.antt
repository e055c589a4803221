-- ===== src/Safety/Sound.antt =====
-- `Config.Validate` makes a configuration sound for the ledger.
pub mod Checks
use runner_loom.Safety.Sound.Checks.{
  none_bad, Fresh-Distinct, GoodReservation, reservations_good, nodes_good, GoodPool, pools_good,
  SoundPool, within_bounds, GoodPool-SoundPool, valid_budget,
}
use runner_loom.Base.{
  length, ℕ, ◌+◌, ◌≤◌, ◌<◌, Bool, true, false, not, ◌&&◌, String, Option, none, some, List, [], ◌∷◌,
  ◌++◌, ◌≡◌, refl, ap, inl, inr, str_eq, contains, is_some, All, All-map, arith, Bool-cases, eq_iff,
  ok, if◌then◌else◌,
}
use runner_loom.Base.Int64
use runner_loom.Base.Int64.{ℤ, pos, pos_part, neg_part, le_ℤ, lt_ℤ, add_parts, parts_disjoint}
use runner_loom.Resources
use runner_loom.Resources.{Resources}
use runner_loom.Resources.Laws.{Kind, cpus, memories, disks, amount, IsNonneg}
use runner_loom.Config.{
  Config, uses_github, Node, Pool, Reservation, charge, find_pool, find_node, find_image,
  image_or_zero,
}
use runner_loom.Config.Names.{valid_name, valid_name-ne_empty}
use runner_loom.Config.Validate.{validate, problems, over_limit, verdict}
use runner_loom.Config.Validate.Check.{Platform, Bad, check}
use runner_loom.Config.Validate.Entries.{
  images_loop, nodes_loop, labels_loop, allowed_loop, names_of_pools,
}
use runner_loom.Config.Validate.GitHubBlock.{github_block}
use runner_loom.Config.Validate.Pools.{
  pools_loop, pool_checks, kind_checks, good_size, good_disk, within, take_name,
}
use runner_loom.Config.Validate.Reserved.{reservations_loop, good_target, in_range}
use runner_loom.Ledger.{IsSound, Distinct, keys}

verdict-eq-ok : (bad : Bad) → verdict bad ≡ ok tt → bad ≡ []
unfolding verdict
verdict-eq-ok [] h = refl
verdict-eq-ok (key ∷ bad) h = cc

validate-eq-ok : (e : Platform) (c : Config) → validate e c ≡ ok tt → problems e c ≡ []
unfolding validate
validate-eq-ok e c h = elim (Bool-cases (over_limit c)) [
  | inl o ↦ cc (rw o at h)
  | inr o ↦ verdict-eq-ok (problems e c) (rw o at h)
]

-- The loops that the ledger relies on found nothing.
pub record Passed (c : Config) : Type 0 where
  pub nodes_ok : nodes_loop [] c.nodes ≡ []
  pub pools_ok : pools_loop c [] [] c.pools ≡ []
  pub reservations_ok : reservations_loop c [] c.reservations ≡ []

problems-Passed : (e : Platform) (c : Config) → problems e c ≡ [] → Passed c
unfolding problems
problems-Passed e c h =
    let (_, h1) = none_bad (check (str_eq c.api_version "runnerloom/v1alpha1") "apiVersion") _ h in
    let (_, h2) = none_bad (check (valid_name c.name) "name") _ h1 in
    let (_, h3) = none_bad (if uses_github c then github_block e c.github else []) _ h2 in
    let (_, h4) = none_bad (images_loop [] c.images) _ h3 in
    let (n, h5) = none_bad (nodes_loop [] c.nodes) _ h4 in
    let (p, h6) = none_bad (pools_loop c [] [] c.pools) _ h5 in
    let (_, h7) = none_bad (allowed_loop (names_of_pools c.pools) c.nodes) _ h6 in
    let (r, h8) = none_bad (reservations_loop c [] c.reservations) _ h7 in
    record { nodes_ok = n; pools_ok = p; reservations_ok = r }

find_node-contains :
    (ns : List Node) (s : String) (n : Node)
    → find_node ns s ≡ some n
    → contains (keys (λ n. n.name) ns) s ≡ true
unfolding find_node
find_node-contains [] s n h = cc
find_node-contains (m ∷ ns) s n h = ground (arith, find_node-contains ns s n)

good_target_node :
    (p : Option Pool) (n : Option Node) → good_target p n ≡ true → (m : Node) × (n ≡ some m)
unfolding good_target
good_target_node none n h = cc
good_target_node (some p) none h = cc
good_target_node (some p) (some n) h = (n, refl)

good_target-contains :
    (c : Config) (r : Reservation)
    → good_target (find_pool c.pools r.pool) (find_node c.nodes r.node) ≡ true
    → contains (keys (λ n. n.name) c.nodes) r.node ≡ true
good_target-contains c r h =
    let (m, e) = good_target_node (find_pool c.pools r.pool) (find_node c.nodes r.node) h in
    find_node-contains c.nodes r.node m e

slots_of :
    (r : Reservation) → in_range r ≡ true → (neg_part r.slots ≡ 0) × (pos_part r.slots ≤ 10000)
unfolding in_range
slots_of r h = let (a, b, d) = within_bounds 1 10000 r.slots h in (a, d)

-- A configuration that Validate accepts has unique names and sizes, slots and budgets within the
-- ranges that the ledger needs.
pub validate-IsSound : (e : Platform) (c : Config) → validate e c ≡ ok tt → IsSound c
validate-IsSound e c h =
    let q = problems-Passed e c (validate-eq-ok e c h) in
    let (gn, fn) = nodes_good [] c.nodes q.nodes_ok in
    let (gp, fp) = pools_good c [] [] c.pools q.pools_ok in
    let (gr, fr) = reservations_good c [] c.reservations q.reservations_ok in
    let sp = All-map (GoodPool c) SoundPool (GoodPool-SoundPool c) c.pools gp in
    let sn =
      All-map (λ n. Resources.valid n.budget ≡ true)
        (λ n. IsNonneg n.budget × ((k : Kind) → amount k n.budget ≤ 4294967296))
        (λ n v. valid_budget n.budget v) c.nodes gn in
    record {
      named =
          All-map (GoodReservation c) (λ r. str_eq r.name "" ≡ false)
            (λ r g. valid_name-ne_empty r.name g.0) c.reservations gr;
      unique = Fresh-Distinct (λ r. r.name) [] c.reservations fr;
      nodes_distinct = Fresh-Distinct (λ n. n.name) [] c.nodes fn;
      pools_distinct = Fresh-Distinct (λ p. p.name) [] c.pools fp;
      targets =
          All-map (GoodReservation c) _ (λ r g. good_target-contains c r g.1) c.reservations gr;
      slots_small =
          All-map (GoodReservation c) (λ r. pos_part r.slots ≤ 10000) (λ r g. (slots_of r g.2).1)
            c.reservations gr;
      slots_nonneg =
          All-map (GoodReservation c) (λ r. neg_part r.slots ≡ 0) (λ r g. (slots_of r g.2).0)
            c.reservations gr;
      sizes_nonneg = All-map SoundPool (λ p. IsNonneg (charge p)) (λ p g. g.0) c.pools sp;
      sizes_small =
          λ k. All-map SoundPool (λ p. amount k (charge p) ≤ 4294967296) (λ p g. g.1 k) c.pools sp;
      budgets_nonneg =
          All-map (λ n. IsNonneg n.budget × ((k : Kind) → amount k n.budget ≤ 4294967296))
            (λ n. IsNonneg n.budget) (λ n g. g.0) c.nodes sn;
      budgets_small = λ k.
          All-map (λ n. IsNonneg n.budget × ((k : Kind) → amount k n.budget ≤ 4294967296))
            (λ n. amount k n.budget ≤ 4294967296) (λ n g. g.1 k) c.nodes sn;
      limits_nonneg = All-map SoundPool (λ p. neg_part p.max_runners ≡ 0) (λ p g. g.2) c.pools sp;
    }

few_reservations : (c : Config) → over_limit c ≡ false → length c.reservations ≤ 4096
unfolding over_limit
few_reservations c h = ground arith

-- `Validate` bounds the number of reservations.
pub validate-few : (e : Platform) (c : Config) → validate e c ≡ ok tt → length c.reservations ≤ 4096
unfolding validate
validate-few e c h = elim (Bool-cases (over_limit c)) [
  | inl o ↦ cc (rw o at h)
  | inr o ↦ few_reservations c o
]
