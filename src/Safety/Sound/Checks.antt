-- ===== src/Safety/Sound/Checks.antt =====
-- What each loop of `Validate` says of the entries that it accepts.
use runner_loom.Base.{
  ℕ, ◌+◌, ◌≤◌, ◌<◌, Bool, true, false, not, ◌&&◌, String, List, [], ◌∷◌, ◌++◌, ◌≡◌, refl, ap,
  contains, is_some, All, arith, eq_iff,
}
use runner_loom.Base.Int64
use runner_loom.Base.Int64.{ℤ, pos, pos_part, neg_part, le_ℤ, lt_ℤ, add_parts, parts_disjoint}
use runner_loom.Resources
use runner_loom.Resources.{Resources}
use runner_loom.Resources.Laws.{Kind, cpus, memories, disks, amount, IsNonneg}
use runner_loom.Config.{
  Config, Node, Pool, Reservation, charge, find_pool, find_node, find_image, image_or_zero,
}
use runner_loom.Config.Names.{valid_name}
use runner_loom.Config.Validate.Check.{Bad, check}
use runner_loom.Config.Validate.Entries.{nodes_loop, labels_loop}
use runner_loom.Config.Validate.Pools.{
  pools_loop, pool_checks, kind_checks, good_size, good_disk, within, take_name,
}
use runner_loom.Config.Validate.Reserved.{reservations_loop, good_target, in_range}
use runner_loom.Ledger.{Distinct, keys}

-- No bad key comes from either part.
pub none_bad : (xs ys : Bad) → xs ++ ys ≡ [] → (xs ≡ []) × (ys ≡ [])
none_bad [] ys h = (refl, h)
none_bad (x ∷ xs) ys h = cc

pub check_passed : (b : Bool) (key : String) → check b key ≡ [] → b ≡ true
check_passed true key h = refl
check_passed false key h = cc

-- The names of a list are new to `seen` and to one another.
abbrev Fresh : {A : Type 0} → (A → String) → List String → List A → Type 0
Fresh f seen [] = Unit {0}
Fresh f seen (x ∷ xs) = (contains seen (f x) ≡ false) × Fresh f (f x ∷ seen) xs

Fresh-absent :
    {A : Type 0} (f : A → String) (seen : List String) (xs : List A) (s : String)
    → Fresh f seen xs
    → contains seen s ≡ true
    → contains (keys f xs) s ≡ false
Fresh-absent f seen [] s h m = refl
Fresh-absent f seen (x ∷ xs) s h m = ground (
  arith,
  Fresh-absent f (f x ∷ seen) xs s h.1,
  eq_iff (f x) s,
  λ (p : f x ≡ s). ap (contains seen) p,
)

pub Fresh-Distinct :
    {A : Type 0} (f : A → String) (seen : List String) (xs : List A)
    → Fresh f seen xs
    → Distinct f xs
Fresh-Distinct f seen [] h = tt
Fresh-Distinct f seen (x ∷ xs) h = (
  Fresh-absent f (f x ∷ seen) xs (f x) h.1 (ground (arith, eq_iff (f x) (f x))),
  Fresh-Distinct f (f x ∷ seen) xs h.1,
)

both : (a b : Bool) → (a && not b) ≡ true → (a ≡ true) × (b ≡ false)
both a b h = ground arith

-- What a reservation must be.
abbrev pub GoodReservation : Config → Reservation → Type 0
GoodReservation c r =
    (valid_name r.name ≡ true)
    × (good_target (find_pool c.pools r.pool) (find_node c.nodes r.node) ≡ true)
    × (in_range r ≡ true)

pub reservations_good :
    (c : Config) (seen : List String) (rs : List Reservation)
    → reservations_loop c seen rs ≡ []
    → All (GoodReservation c) rs × Fresh (λ r. r.name) seen rs
unfolding reservations_loop
reservations_good c seen [] h = (tt, tt)
reservations_good c seen (r ∷ rs) h =
    let (h0, h1) = none_bad (check (valid_name r.name && not (contains seen r.name)) _) _ h in
    let (h2, h3) =
      none_bad (check (good_target (find_pool c.pools r.pool) (find_node c.nodes r.node)) _) _ h1 in
    let (h4, h5) = none_bad (check (in_range r) _) _ h3 in
    let (ok_name, new) = both (valid_name r.name) (contains seen r.name) (check_passed _ _ h0) in
    let (g, f) = reservations_good c (r.name ∷ seen) rs h5 in
    (((ok_name, check_passed _ _ h2, check_passed _ _ h4), g), (new, f))

pub nodes_good :
    (seen : List String) (ns : List Node)
    → nodes_loop seen ns ≡ []
    → All (λ n. Resources.valid n.budget ≡ true) ns × Fresh (λ n. n.name) seen ns
unfolding nodes_loop
nodes_good seen [] h = (tt, tt)
nodes_good seen (n ∷ ns) h =
    let (h0, h1) = none_bad (check (valid_name n.name && not (contains seen n.name)) _) _ h in
    let (h2, h3) =
      none_bad
        (check
          (Resources.valid n.budget
            && Resources.valid n.local_ceiling
            && Resources.fits n.budget n.local_ceiling)
          _)
        _ h1 in
    let (h4, h5) = none_bad (labels_loop _ n.labels) _ h3 in
    let (ok_name, new) = both (valid_name n.name) (contains seen n.name) (check_passed _ _ h0) in
    let budget : Resources.valid n.budget ≡ true = first_of_three _ _ _ (check_passed _ _ h2) in
    let (g, f) = nodes_good (n.name ∷ seen) ns h5 in ((budget, g), (new, f))
  where
    first_of_three : (a b d : Bool) → (a && b && d) ≡ true → a ≡ true
    first_of_three a b d h = ground arith

-- What the ledger needs of a Pool.
abbrev pub GoodPool : Config → Pool → Type 0
GoodPool c p =
    (good_size p ≡ true)
    × (good_disk p (image_or_zero c p.image) ≡ true)
    × ((within (pos 1) (pos 10000) p.max_runners && within (pos 0) p.max_runners p.warm_idle)
        ≡ true)

pool_good :
    (c : Config) (p : Pool) (seen taken : List String)
    → pool_checks c p seen taken ≡ []
    → GoodPool c p × (contains seen p.name ≡ false)
unfolding pool_checks
pool_good c p seen taken h =
    let (h0, h1) = none_bad (check (valid_name p.name && not (contains seen p.name)) _) _ h in
    let (_, h2) = none_bad (kind_checks p _ taken) _ h1 in
    let (_, h3) = none_bad (check (is_some (find_image c.images p.image)) _) _ h2 in
    let (s0, h4) = none_bad (check (good_size p) _) _ h3 in
    let (d0, h5) = none_bad (check (good_disk p (image_or_zero c p.image)) _) _ h4 in
    let (m0, h6) =
      none_bad
        (check
          (within (pos 1) (pos 10000) p.max_runners && within (pos 0) p.max_runners p.warm_idle) _)
        _ h5 in
    let (ok_name, new) = both (valid_name p.name) (contains seen p.name) (check_passed _ _ h0) in
    ((check_passed _ _ s0, check_passed _ _ d0, check_passed _ _ m0), new)

pub pools_good :
    (c : Config) (seen taken : List String) (ps : List Pool)
    → pools_loop c seen taken ps ≡ []
    → All (GoodPool c) ps × Fresh (λ p. p.name) seen ps
unfolding pools_loop
pools_good c seen taken [] h = (tt, tt)
pools_good c seen taken (p ∷ ps) h =
    let (h0, h1) = none_bad (pool_checks c p seen taken) _ h in
    let (g, f) = pools_good c (p.name ∷ seen) (take_name p taken) ps h1 in
    let (x, y) = pool_good c p seen taken h0 in ((x, g), (y, f))

-- The sizes of a good Pool.
abbrev pub SoundPool : Pool → Type 0
SoundPool p =
    IsNonneg (charge p)
    × ((k : Kind) → amount k (charge p) ≤ 4294967296)
    × (neg_part p.max_runners ≡ 0)

pub within_bounds :
    (lo hi : ℕ) (x : ℤ)
    → within (pos lo) (pos hi) x ≡ true
    → (neg_part x ≡ 0) × (lo ≤ pos_part x) × (pos_part x ≤ hi)
within_bounds lo hi x h = ground (arith, parts_disjoint x)

add_bounds :
    (a b : ℤ) (m n : ℕ)
    → neg_part a ≡ 0
    → neg_part b ≡ 0
    → pos_part a ≤ m
    → pos_part b ≤ n
    → m + n < 9223372036854775808
    → (neg_part (Int64.add a b) ≡ 0) × (pos_part (Int64.add a b) ≤ m + n)
add_bounds a b m n x y u w h =
    let e = add_parts a b (omega arith) (omega arith) in
    let d = parts_disjoint (Int64.add a b) in omega arith

pub GoodPool-SoundPool : (c : Config) (p : Pool) → GoodPool c p → SoundPool p
unfolding good_size good_disk charge
GoodPool-SoundPool c p (s, d, m) =
    let cpu = within_bounds 1 65536 p.vcpu (ground arith) in
    let mem = within_bounds 512 1073741824 p.memory_mib (ground arith) in
    let over = within_bounds 512 1048576 p.overhead_mib (ground arith) in
    let root = within_bounds 1 1048576 p.root_gib (ground arith) in
    let scratch = within_bounds 0 1048576 p.scratch_gib (ground arith) in
    let extra = within_bounds 1 1024 p.disk_overhead_gib (ground arith) in
    let lim = within_bounds 1 10000 p.max_runners (ground arith) in
    let memory =
      add_bounds p.memory_mib p.overhead_mib 1073741824 1048576 mem.0 over.0 mem.2 over.2
        (omega arith) in
    let disk0 =
      add_bounds p.root_gib p.scratch_gib 1048576 1048576 root.0 scratch.0 root.2 scratch.2
        (omega arith) in
    let disk =
      add_bounds (Int64.add p.root_gib p.scratch_gib) p.disk_overhead_gib 2097152 1024 disk0.0
        extra.0 (omega arith) extra.2 (omega arith) in
    (
      (cpu.0, memory.0, disk.0),
      (elim [ cpus ↦ omega arith | memories ↦ omega arith | disks ↦ omega arith ]),
      lim.0,
    )

pub valid_budget :
    (r : Resources) → Resources.valid r ≡ true → IsNonneg r × ((k : Kind) → amount k r ≤ 4294967296)
unfolding Resources.valid
valid_budget r h =
    let c = parts_disjoint r.cpu in
    let m = parts_disjoint r.memory in
    let d = parts_disjoint r.disk in
    (ground arith, elim [ cpus ↦ ground arith | memories ↦ ground arith | disks ↦ ground arith ])
