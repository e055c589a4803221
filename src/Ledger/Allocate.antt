-- ===== src/Ledger/Allocate.antt =====
-- `placeTx` and `Allocate` keep the ledger.
pub mod Candidates
use runner_loom.Ledger.Allocate.Candidates.{Usable, candidate-Usable}
use runner_loom.Base.{
  ℕ, ◌+◌, ◌≤◌, ◌<◌, Bool, true, false, not, ◌&&◌, String, some, List, [], ◌∷◌, ◌≡◌, refl, ap, ◌∙◌,
  sym, subst, ◌⊎◌, inl, inr, str_eq, All_of_In, All-of_members, In, is_empty, arith, Bool-cases,
  eq_iff, ok, ok-injective,
}
use runner_loom.Base.Int64.{pos, pos_part, le_ℤ}
use runner_loom.Resources
use runner_loom.Resources.{Resources}
use runner_loom.Resources.Laws.{Kind, amount, IsNonneg, fits_of_le, at-IsNonneg}
use runner_loom.Config.{Config, Pool, Node, Reservation, charge, eligible, find_pool}
use runner_loom.Instance.{Instance}
use runner_loom.Reservations.{charged, validate_owners}
use runner_loom.Scheduler.{
  Candidate, Observations, Reason, reservation_inconsistent, pool_disabled, node_not_allowed,
  pool_limit, node_not_ready, network_not_verified, insufficient_budget, owners_fail, ready_at,
  observed, or_zero, candidate, candidates, standing, share_of, available, held_on, reason_if,
  pool_count, holds_pool,
}
use runner_loom.Scheduler.Place.{place, choose, instance_at}
use runner_loom.Scheduler.Order.{candidates-In}
use runner_loom.Ledger.{Ledger, IsSound, IsOwned, size, size_of, free_sum, reserved_sum, used}
use runner_loom.Ledger.Place.{is_empty-append, find_pool-In, free_room, slot_room}
use runner_loom.Ledger.Loop.{Chosen, shares-Chosen}
use runner_loom.Ledger.Grow.{Admits, Ledger-cons, eq_of_name}

module _ (c : Config) (p : Pool) (runs : List Instance) (obs : Observations) (now : ℕ) (n : Node)
    (id request : String) (v : IsSound c) (l : Ledger c runs) (listed : In n c.nodes)
    (known : find_pool c.pools p.name ≡ some p) (u : Usable c p runs obs now n) where
  abbrev placed : Instance
  placed = instance_at c now id request p (candidate c p runs obs now n)

  abbrev slot_name : String
  slot_name = (share_of c p n runs).reservation

  size-IsNonneg : IsNonneg (charge p)
  size-IsNonneg =
      All_of_In (λ q. IsNonneg (charge q)) c.pools v.sizes_nonneg
        (find_pool-In c.pools p.name p known)

  slot_case : (str_eq slot_name "" ≡ true) ⊎ Chosen c p n runs slot_name c.reservations
  unfolding share_of
  slot_case = elim (shares-Chosen c p n runs _ c.reservations) [
    | inl e ↦ inl ((eq_iff slot_name "").1 e)
    | inr h ↦ inr h
  ]

  placed_parts :
      (placed.held ≡ charge p)
      × (placed.node ≡ n.name)
      × (placed.reservation ≡ slot_name)
      × (placed.pool ≡ p)
  unfolding instance_at candidate
  placed_parts = (refl, refl, refl, refl)

  -- A reservation that counts the VM has the name of the slot.
  charged_name : (r : Reservation) → charged r placed ≡ true → slot_name ≡ r.name
  unfolding charged instance_at candidate
  charged_name r e = (eq_iff slot_name r.name).0 (ground arith)

  -- So it is the slot.
  charged_slot :
      (h : Chosen c p n runs slot_name c.reservations) (r : Reservation)
      → In r c.reservations
      → charged r placed ≡ true
      → h.slot ≡ r
  charged_slot h r m e =
      eq_of_name (λ (x : Reservation). x.name) c.reservations v.unique h.listed m
        (h.same_name ∙ charged_name r e)

  -- Outside the reservations no reservation counts the VM.
  charged_none :
      str_eq slot_name "" ≡ true
      → (r : Reservation) → In r c.reservations
      → charged r placed ≡ true
      → ⊥
  charged_none e r m h =
      let nm = All_of_In (λ r. str_eq r.name "" ≡ false) c.reservations v.named m in
      let q = charged_name r h in cc (ap (λ x. str_eq x "") q)

  placed-IsOwned : IsOwned c.reservations placed
  unfolding instance_at candidate
  placed-IsOwned = elim slot_case [
    | inl e ↦ inl e
    | inr h ↦ inr (
        inr (
          h.slot,
          h.listed,
          record {
            same_name = sym h.same_name;
            same_node = sym h.same_node;
            same_pool = sym h.same_pool;
          },
        ))
  ]

  slot-size : (h : Chosen c p n runs slot_name c.reservations) → size c h.slot ≡ charge p
  slot-size h = ap size_of (ap (find_pool c.pools) h.same_pool ∙ known)

  placed-fits :
      (r : Reservation)
      → In r c.reservations
      → charged r placed ≡ true
      → Resources.fits placed.held (size c r) ≡ true
  unfolding instance_at
  placed-fits r m e = elim slot_case [
    | inl q ↦ absurd (charged_none q r m e)
    | inr h ↦
        subst (λ z. Resources.fits (charge p) z ≡ true)
          (sym (slot-size h) ∙ ap (size c) (charged_slot h r m e))
          (fits_of_le (charge p) (charge p) size-IsNonneg
            (λ k. omega (arith, at-IsNonneg k (charge p) size-IsNonneg)))
  ]

  placed_slot_left :
      (r : Reservation)
      → In r c.reservations
      → charged r placed ≡ true
      → used r runs < pos_part r.slots
  placed_slot_left r m e = elim slot_case [
    | inl q ↦ absurd (charged_none q r m e)
    | inr h ↦
        subst (λ r. used r runs < pos_part r.slots) (charged_slot h r m e)
          (slot_room c p runs n v l slot_name h)
  ]

  placed_room :
      (k : Kind) (m : Node)
      → In m c.nodes
      → (str_eq placed.node m.name && str_eq placed.reservation "") ≡ true
      → free_sum k m.name runs + reserved_sum k c m.name c.reservations + amount k placed.held
        ≤ amount k m.budget
  unfolding instance_at candidate
  placed_room k m i e =
      let here : n ≡ m =
        eq_of_name (λ (x : Node). x.name) c.nodes v.nodes_distinct listed i
          ((eq_iff n.name m.name).0 (ground arith)) in
      subst
        (λ m.
          free_sum k m.name runs + reserved_sum k c m.name c.reservations + amount k (charge p)
          ≤ amount k m.budget)
        here (free_room c p runs n v l listed u.shares_found k (ground arith) u.fits_room)

  placed_below :
      (q : Pool)
      → In q c.pools
      → holds_pool q.name placed ≡ true
      → pool_count q.name runs < pos_part q.max_runners
  unfolding instance_at holds_pool
  placed_below q i e =
      let here : p ≡ q =
        eq_of_name (λ (x : Pool). x.name) c.pools v.pools_distinct
          (find_pool-In c.pools p.name p known) i ((eq_iff p.name q.name).0 (ground arith)) in
      subst (λ (q : Pool). pool_count q.name runs < pos_part q.max_runners) here
        (ground (arith, u.below_limit))

  pub placed-Admits : Admits c runs placed
  unfolding instance_at
  placed-Admits = record {
    nonneg = size-IsNonneg;
    owned = placed-IsOwned;
    in_slot = All-of_members _ c.reservations placed-fits;
    slot_left = All-of_members _ c.reservations placed_slot_left;
    room = λ k. All-of_members _ c.nodes (placed_room k);
    below_limit = All-of_members _ c.pools placed_below;
  }

-- The row that `placeTx` goes by.
pub record Placed (c : Config) (p : Pool) (runs : List Instance) (obs : Observations) (now : ℕ)
    (id request : String) (a : Instance) : Type 0 where
  pub node : Node
  pub listed : In node c.nodes
  pub is_usable : Usable c p runs obs now node
  pub made : a ≡ instance_at c now id request p (candidate c p runs obs now node)

choose-eq-ok :
    (c : Config) (now : ℕ) (id request : String) (p : Pool) (rows : List Candidate) (a : Instance)
    → choose c now id request p rows ≡ ok a
    → (v : Candidate) × In v rows
      × (is_empty v.reasons ≡ true)
      × (a ≡ instance_at c now id request p v)
unfolding choose
choose-eq-ok c now id request p [] a h = cc
choose-eq-ok c now id request p (v ∷ rows) a h = elim (Bool-cases (is_empty v.reasons)) [
  | inl e ↦ (v, inl refl, e, sym (ok-injective (rw e at h)))
  | inr e ↦ cc (rw e at h)
]

pub place-Placed :
    (c : Config) (p : Pool) (runs : List Instance) (obs : Observations) (now : ℕ)
    (id request : String) (a : Instance)
    → place c runs obs now id request p ≡ ok a
    → Placed c p runs obs now id request a
unfolding place
place-Placed c p runs obs now id request a h =
    let (w, m, e, q) = choose-eq-ok c now id request p (candidates c p runs obs now) a h in
    let (n, i, f) = candidates-In c p runs obs now w m in
    record {
      node = n;
      listed = i;
      is_usable =
          candidate-Usable c p runs obs now n (subst (λ z. is_empty z.reasons ≡ true) (sym f) e);
      made = q ∙ ap (instance_at c now id request p) (sym f);
    }

-- A VM that `placeTx` places keeps the ledger: no budget, slot or limit is exceeded with it.
pub place-Ledger :
    (c : Config) (p : Pool) (runs : List Instance) (obs : Observations) (now : ℕ)
    (id request : String) (a : Instance)
    → IsSound c
    → find_pool c.pools p.name ≡ some p
    → Ledger c runs
    → place c runs obs now id request p ≡ ok a
    → Ledger c (a ∷ runs)
place-Ledger c p runs obs now id request a v known l h =
    let q = place-Placed c p runs obs now id request a h in
    subst (λ a. Ledger c (a ∷ runs)) (sym q.made)
      (Ledger-cons c runs _
        (placed-Admits c p runs obs now q.node id request v l q.listed known q.is_usable) l)
