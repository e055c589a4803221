-- ===== src/Ledger/Place.antt =====
-- A candidate without reasons has room: the numbers behind `INSUFFICIENT_BUDGET`.
use runner_loom.Base.{
  ℕ, ◌+◌, ◌-◌, ◌*◌, ◌≤◌, ◌<◌, true, String, Option, none, some, List, [], ◌∷◌, ◌++◌, ◌≡◌, refl, ap,
  ap₂, ◌∙◌, str_eq, All, All-map, All_of_In, In, is_empty, arith,
}
use runner_loom.Base.Int64
use runner_loom.Base.Int64.{ℤ, pos, pos_part, neg_part, lt_ℤ, le_ℤ, two63, sub_pos, add_pos}
use runner_loom.Resources
use runner_loom.Resources.{Resources}
use runner_loom.Resources.Laws.{
  Kind, at, amount, at-sub, IsNonneg, at-IsNonneg, fits-le, fits-IsNonneg,
}
use runner_loom.Config.{Config, Pool, Node, Reservation, charge, find_pool}
use runner_loom.Instance.{Instance}
use runner_loom.Scheduler.{share_of, available, held_on}
use runner_loom.Ledger.{
  Ledger, IsSound, InSlot, size, size_of, slot_size, held_sum, free_sum, charged_sum, reserved_sum,
  used,
}
use runner_loom.Ledger.Sums.{held_sum-split, charged_on}
use runner_loom.Ledger.Exact.{at_pos, held_on-exact, charged_sum-le}
use runner_loom.Ledger.Shares.{granted, Granted-left, zero-at}
use runner_loom.Ledger.Loop.{Kept, Chosen, unused_sum, balance, shares-Kept, shares_unused}

pub is_empty-append :
    {A : Type 0} (xs ys : List A)
    → is_empty (xs ++ ys) ≡ true
    → (is_empty xs ≡ true) × (is_empty ys ≡ true)
is_empty-append [] ys h = (refl, h)
is_empty-append (x ∷ xs) ys h = cc

pub find_pool-In : (ps : List Pool) (s : String) (p : Pool) → find_pool ps s ≡ some p → In p ps
unfolding find_pool
find_pool-In [] s p h = cc
find_pool-In (q ∷ ps) s p h = ground (arith, find_pool-In ps s p)

-- The size of a reservation's slots is not negative.
pub size-IsNonneg : (c : Config) (r : Reservation) → IsSound c → IsNonneg (size c r)
size-IsNonneg c r v = go (find_pool c.pools r.pool) refl
  where
    go : (o : Option Pool) → find_pool c.pools r.pool ≡ o → IsNonneg (size_of o)
    go none e = (refl, refl, refl)
    go (some p) e =
        All_of_In (λ q. IsNonneg (charge q)) c.pools v.sizes_nonneg
          (find_pool-In c.pools r.pool p e)

module _ (c : Config) (p : Pool) (runs : List Instance) (n : Node) (v : IsSound c)
    (l : Ledger c runs) (listed : In n c.nodes) where
  budget_at :
      (k : Kind)
      → free_sum k n.name runs + reserved_sum k c n.name c.reservations ≤ amount k n.budget
  budget_at k =
      All_of_In
        (λ n. free_sum k n.name runs + reserved_sum k c n.name c.reservations ≤ amount k n.budget)
        c.nodes (l.within_budget k) listed

  budget_small : (k : Kind) → amount k n.budget ≤ 4294967296
  budget_small k =
      All_of_In (λ n. amount k n.budget ≤ 4294967296) c.nodes (v.budgets_small k) listed

  readable : All (λ r. (neg_part r.slots ≡ 0) × IsNonneg (size c r)) c.reservations
  readable =
      All-map (λ r. neg_part r.slots ≡ 0) (λ r. (neg_part r.slots ≡ 0) × IsNonneg (size c r))
        (λ r h. (h, size-IsNonneg c r v)) c.reservations v.slots_nonneg

  module _ (usable : is_empty (share_of c p n runs).reasons ≡ true) where
    Kept-All : All (λ r. str_eq r.node n.name ≡ true → Kept c r runs) c.reservations
    unfolding share_of
    Kept-All = shares-Kept c p n runs _ c.reservations usable

    held_le :
        (k : Kind)
        → held_sum k n.name runs + unused_sum k c n.name runs c.reservations
          ≡ free_sum k n.name runs + reserved_sum k c n.name c.reservations
    held_le k = omega (
      arith,
      held_sum-split k n.name c.reservations runs v.named v.unique l.owned,
      balance c p n runs l.nonneg k c.reservations readable Kept-All,
    )

    held_exact :
        (k : Kind) → at k (held_on n.name Resources.zero runs) ≡ pos (held_sum k n.name runs)
    held_exact k =
        held_on-exact k n.name Resources.zero 0 runs (zero-at k) l.nonneg
          (omega (arith, held_le k, budget_at k, budget_small k))
        ∙ ap pos (omega arith)

    unused_exact :
        (k : Kind)
        → at k (share_of c p n runs).unused ≡ pos (unused_sum k c n.name runs c.reservations)
    unfolding share_of
    unused_exact k =
        shares_unused c p n runs l.nonneg k _ c.reservations 0 readable usable (zero-at k)
          (omega (arith, budget_at k, budget_small k))
        ∙ ap pos (omega arith)

    rest_exact :
        (k : Kind)
        → at k (
            Resources.sub
              (Resources.sub n.budget (held_on n.name Resources.zero runs))
              (share_of c p n runs).unused)
          ≡ pos (
              amount k n.budget
              - held_sum k n.name runs
              - unused_sum k c n.name runs c.reservations)
    rest_exact k =
        at-sub k (Resources.sub n.budget (held_on n.name Resources.zero runs))
          (share_of c p n runs).unused
        ∙ ap₂ Int64.sub
            (at-sub k n.budget (held_on n.name Resources.zero runs)
              ∙ ap₂ Int64.sub (at_pos k n.budget budget_nonneg) (held_exact k)
              ∙ sub_pos (amount k n.budget) (held_sum k n.name runs)
                  (omega (arith, held_le k, budget_at k)) (omega (arith, budget_small k)))
            (unused_exact k)
        ∙ sub_pos _ _ (omega (arith, held_le k, budget_at k)) (omega (arith, budget_small k))
      where
        budget_nonneg : IsNonneg n.budget
        budget_nonneg = All_of_In (λ n. IsNonneg n.budget) c.nodes v.budgets_nonneg listed

    -- Outside the reservations there is room for the charge.
    pub free_room :
        (k : Kind)
        → str_eq (share_of c p n runs).reservation "" ≡ true
        → Resources.fits
            (charge p)
            (available p n (held_on n.name Resources.zero runs) (share_of c p n runs))
          ≡ true
        → free_sum k n.name runs + reserved_sum k c n.name c.reservations + amount k (charge p)
          ≤ amount k n.budget
    unfolding available
    free_room k free fit =
        let fit' : Resources.fits (charge p) (
              Resources.sub (Resources.sub n.budget (held_on n.name Resources.zero runs))
                (share_of c p n runs).unused)
            ≡ true =
          rw free at fit in
        let le = fits-le k (charge p) _ fit' in
        let nn = at-IsNonneg k (charge p) (fits-IsNonneg (charge p) _ fit') in
        omega (
          arith,
          le,
          nn,
          ap pos_part (rest_exact k),
          ap neg_part (rest_exact k),
          held_le k,
          budget_at k,
        )

-- The slot that was chosen is not in use by a VM yet.
pub slot_room :
    (c : Config) (p : Pool) (runs : List Instance) (n : Node) (v : IsSound c) (l : Ledger c runs)
    (name : String) (h : Chosen c p n runs name c.reservations)
    → used h.slot runs < pos_part h.slot.slots
slot_room c p runs n v l name h =
    let g = granted c h.slot runs h.kept h.left h.granted_eq in
    let nn = All_of_In (λ r. neg_part r.slots ≡ 0) c.reservations v.slots_nonneg h.listed in
    let small = All_of_In (λ r. pos_part r.slots ≤ 10000) c.reservations v.slots_small h.listed in
    let e =
      Granted-left c h.slot runs g l.nonneg nn (size-IsNonneg c h.slot v) (omega (arith, small)) in
    let pl = h.is_left in ground (arith, ap pos_part e, ap neg_part e)

-- The VMs of a reservation hold no more than its slots.
slot_bound :
    (c : Config) (runs : List Instance) (v : IsSound c) (k : Kind) (r : Reservation)
    → InSlot c runs r
    → used r runs ≤ pos_part r.slots
    → charged_sum k r runs ≤ slot_size k c r
slot_bound c runs v k r i u =
    le_times (used r runs) (pos_part r.slots) (amount k (size c r)) (charged_sum k r runs) u
      (charged_sum-le k r (size c r) runs (at-IsNonneg k (size c r) (size-IsNonneg c r v)) i)
  where
    le_times : (u s z x : ℕ) → u ≤ s → x ≤ u * z → x ≤ z * s
    le_times u s z x h le = grind arith

charged_on-le :
    (c : Config) (runs : List Instance) (v : IsSound c) (k : Kind) (node : String)
    (rs : List Reservation)
    → All (InSlot c runs) rs
    → All (λ r. used r runs ≤ pos_part r.slots) rs
    → charged_on k node runs rs ≤ reserved_sum k c node rs
charged_on-le c runs v k node [] i u = omega arith
charged_on-le c runs v k node (r ∷ rs) i u =
    ground (arith, slot_bound c runs v k r i.0 u.0, charged_on-le c runs v k node rs i.1 u.1)

-- In a sound ledger the VMs of each Node hold no more CPU, memory or disk than the Node's
-- budget.
pub held_sum-le-budget :
    (c : Config) (runs : List Instance)
    → IsSound c
    → Ledger c runs
    → (k : Kind) → All (λ n. held_sum k n.name runs ≤ amount k n.budget) c.nodes
held_sum-le-budget c runs v l k =
    All-map
      (λ n. free_sum k n.name runs + reserved_sum k c n.name c.reservations ≤ amount k n.budget)
      (λ n. held_sum k n.name runs ≤ amount k n.budget)
      (λ n h. omega (
        arith,
        h,
        held_sum-split k n.name c.reservations runs v.named v.unique l.owned,
        charged_on-le c runs v k n.name c.reservations l.in_slots l.slots_suffice,
      ))
      c.nodes (l.within_budget k)
