-- ===== src/Ledger/Capacity.antt =====
-- internal/core/store.go: a configuration that `checkCapacityUpdate` accepts for the VMs that run.
use runner_loom.Base.{
  ℕ, ◌+◌, ◌*◌, ◌≤◌, ◌<◌, true, ◌||◌, String, Option, none, some, List, [], ◌∷◌, ◌≡◌, refl, sym, inl,
  inr, str_eq, contains, sum, length, All, In, All_of_In, All-of_members, arith, Bool-cases, eq_iff,
  ok, >>=-eq-ok,
}
use runner_loom.Base.Int64.{pos_part, neg_part}
use runner_loom.Resources.Laws.{Kind, cpus, memories, disks, amount, IsNonneg}
use runner_loom.Config.{Config, Pool, Node, Reservation, charge, find_pool}
use runner_loom.Instance.{Instance}
use runner_loom.Resources
use runner_loom.Reservations.{validate_owners, by_name, unreserved, owns}
use runner_loom.Store.Plans.Capacity.{limits, node_fits, nodes_fit, check_capacity}
use runner_loom.Ledger.{
  Ledger, IsSound, IsOwned, Owner, InSlot, size, size_of, free_sum, held_sum, reserved_sum, used,
  keys,
}
use runner_loom.Ledger.Shares.{granted, Granted-used, Granted-InSlot}
use runner_loom.Ledger.Loop.{Kept}
use runner_loom.Ledger.Place.{size-IsNonneg, find_pool-In}
use runner_loom.Ledger.Admit.{by_name-In, limits-ok, node_fits-Kept, node_fits-budget, Readable}

size_small :
    (c : Config) (r : Reservation) → IsSound c → (k : Kind) → amount k (size c r) ≤ 4294967296
size_small c r v k = go (find_pool c.pools r.pool) refl
  where
    zero_small : (k : Kind) → amount k (size_of none) ≤ 4294967296
    zero_small cpus = omega arith
    zero_small memories = omega arith
    zero_small disks = omega arith

    go : (o : Option Pool) → find_pool c.pools r.pool ≡ o → amount k (size_of o) ≤ 4294967296
    go none e = zero_small k
    go (some p) e =
        All_of_In (λ q. amount k (charge q) ≤ 4294967296) c.pools (v.sizes_small k)
          (find_pool-In c.pools r.pool p e)

-- All slots of a Node stay far below the range of int64.
reserved_sum-le :
    (c : Config) (v : IsSound c) (k : Kind) (node : String) (rs : List Reservation)
    → All (λ r. pos_part r.slots ≤ 10000) rs
    → reserved_sum k c node rs ≤ length rs * 42949672960000
reserved_sum-le c v k node [] h = omega arith
reserved_sum-le c v k node (r ∷ rs) h =
    let one = product (amount k (size c r)) (pos_part r.slots) (size_small c r v k) h.0 in
    ground (arith, one, reserved_sum-le c v k node rs h.1)
  where
    product : (z s : ℕ) → z ≤ 4294967296 → s ≤ 10000 → z * s ≤ 42949672960000
    product z s p q = grind arith

held_sum-le-total :
    (k : Kind) (node : String) (runs : List Instance)
    → held_sum k node runs ≤ sum (λ a. amount k a.held) runs
held_sum-le-total k node [] = omega arith
held_sum-le-total k node (a ∷ runs) = ground (arith, held_sum-le-total k node runs)

Owner-of :
    (c : Config) (a : Instance) (o : Option Reservation)
    → by_name c.reservations a.reservation ≡ o
    → owns o a ≡ true
    → (r : Reservation) × In r c.reservations × Owner r a
unfolding owns
Owner-of c a none e h = cc
Owner-of c a (some r) e h =
    let (m, q) = by_name-In c.reservations a.reservation r e in
    (
      r,
      m,
      record {
        same_name = sym q;
        same_node = sym ((eq_iff r.node a.node).0 (ground arith));
        same_pool = sym ((eq_iff r.pool a.pool.name).0 (ground arith));
      },
    )

IsOwned-of_test :
    (c : Config) (a : Instance)
    → (unreserved a || owns (by_name c.reservations a.reservation) a) ≡ true
    → IsOwned c.reservations a
unfolding unreserved
IsOwned-of_test c a h = elim (Bool-cases (str_eq a.reservation "")) [
  | inl e ↦ inl e
  | inr e ↦ elim (Bool-cases (Resources.empty a.held)) [
    | inl f ↦ inr (inl f)
    | inr f ↦ inr (
        inr (
          Owner-of c a (by_name c.reservations a.reservation) refl
            (rw f at (rw (e, unreserved) at h))))
  ]
]

owners-ok :
    (c : Config) (runs : List Instance)
    → validate_owners c runs ≡ ok tt
    → All (IsOwned c.reservations) runs
unfolding validate_owners
owners-ok c [] h = tt
owners-ok c (a ∷ runs) h =
    elim (Bool-cases (unreserved a || owns (by_name c.reservations a.reservation) a)) [
      | inl e ↦ (IsOwned-of_test c a e, owners-ok c runs (rw (e, validate_owners) at h))
      | inr e ↦ cc (rw (e, validate_owners) at h)
    ]

nodes_fit-All :
    (c : Config) (runs : List Instance) (ns : List Node)
    → nodes_fit c runs ns ≡ ok tt
    → All (λ n. node_fits c runs n ≡ ok tt) ns
unfolding nodes_fit
nodes_fit-All c runs [] h = tt
nodes_fit-All c runs (n ∷ ns) h =
    let (u, p, q) = >>=-eq-ok (node_fits c runs n) _ h in (p, nodes_fit-All c runs ns q)

node_named :
    (ns : List Node) (s : String)
    → contains (keys (λ n. n.name) ns) s ≡ true
    → (n : Node) × In n ns × (n.name ≡ s)
node_named [] s h = cc
node_named (n ∷ ns) s h = elim (Bool-cases (str_eq n.name s)) [
  | inl e ↦ (n, inl refl, (eq_iff n.name s).0 e)
  | inr e ↦ let (m, i, q) = node_named ns s (rw e at h) in (m, inr i, q)
]

-- A configuration that `checkCapacityUpdate` accepts keeps the ledger of what runs.
pub check_capacity-Ledger :
    (c : Config) (runs : List Instance)
    → IsSound c
    → length c.reservations ≤ 4096
    → All (λ a. IsNonneg a.held) runs
    → ((k : Kind) → sum (λ a. amount k a.held) runs < 4611686018427387904)
    → check_capacity c runs ≡ ok tt
    → Ledger c runs
unfolding check_capacity
check_capacity-Ledger c runs v few nonneg small h =
    let (_, ow, h1) = >>=-eq-ok (validate_owners c runs) _ h in
    let (_, li, h2) = >>=-eq-ok (limits runs c.pools) _ h1 in
    let fits = nodes_fit-All c runs c.nodes h2 in
    let owned = owners-ok c runs ow in
    record {
      nonneg = nonneg;
      owned = owned;
      in_slots = All-of_members (InSlot c runs) c.reservations (λ r m.
          let g = kept fits r m in
          Granted-InSlot c r runs (granted c r runs g.kept g.left g.granted_eq) nonneg (slots r m)
            (size-IsNonneg c r v));
      slots_suffice =
          All-of_members (λ r. used r runs ≤ pos_part r.slots) c.reservations
            (λ r m.
              let g = kept fits r m in
              Granted-used c r runs (granted c r runs g.kept g.left g.granted_eq) nonneg (slots r m)
                (size-IsNonneg c r v));
      within_budget = λ k.
          All-of_members
            (λ n.
              free_sum k n.name runs + reserved_sum k c n.name c.reservations ≤ amount k n.budget)
            c.nodes
            (λ n m.
              node_fits-budget c runs nonneg k n readable v.named v.unique owned
                (All_of_In (λ n. IsNonneg n.budget) c.nodes v.budgets_nonneg m)
                (omega (
                  arith,
                  few,
                  small k,
                  held_sum-le-total k n.name runs,
                  reserved_sum-le c v k n.name c.reservations v.slots_small,
                ))
                (All_of_In (λ n. node_fits c runs n ≡ ok tt) c.nodes fits m));
      within_limits = limits-ok runs c.pools v.limits_nonneg li;
    }
  where
    slots : (r : Reservation) → In r c.reservations → neg_part r.slots ≡ 0
    slots r m = All_of_In (λ r. neg_part r.slots ≡ 0) c.reservations v.slots_nonneg m

    readable : All (Readable c runs nonneg) c.reservations
    readable = All-of_members _ c.reservations (λ r m. (slots r m, size-IsNonneg c r v))

    kept :
        All (λ n. node_fits c runs n ≡ ok tt) c.nodes
        → (r : Reservation) → In r c.reservations
        → Kept c r runs
    kept fits r m =
        let (n, i, e) = node_named c.nodes r.node (
          All_of_In (λ r. contains (keys (λ n. n.name) c.nodes) r.node ≡ true) c.reservations
            v.targets m) in
        All_of_In (λ r. str_eq r.node n.name ≡ true → Kept c r runs) c.reservations
          (node_fits-Kept c runs nonneg n
            (All_of_In (λ n. node_fits c runs n ≡ ok tt) c.nodes fits i))
          m ((eq_iff r.node n.name).1 (sym e))
