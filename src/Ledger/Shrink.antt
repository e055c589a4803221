-- ===== src/Ledger/Shrink.antt =====
-- A ledger survives when every VM holds the same or less.
use runner_loom.Base.{
  ℕ, ◌+◌, ◌≤◌, true, ◌&&◌, String, List, [], ◌∷◌, ◌≡◌, refl, ap, ◌∙◌, inl, inr, str_eq, sum, All,
  All-map, arith, if◌then◌else◌,
}
use runner_loom.Base.Int64.{pos_part}
use runner_loom.Resources
use runner_loom.Resources.{Resources}
use runner_loom.Resources.Laws.{
  Kind, cpus, memories, disks, amount, at-IsNonneg, IsNonneg, empty-amount, fits_of_le, fits-le,
  fits-IsNonneg,
}
use runner_loom.Config.{Config, Pool, Reservation}
use runner_loom.Instance.{Instance}
use runner_loom.Reservations.{charged}
use runner_loom.Scheduler.{pool_count, holds_pool}
use runner_loom.Ledger.{Ledger, IsOwned, InSlot, size, free_sum, reserved_sum, used}

pub record Below (b a : Instance) : Type 0 where
  pub same_node : b.node ≡ a.node
  pub same_pool : b.pool ≡ a.pool
  pub same_reservation : b.reservation ≡ a.reservation
  pub nonneg : IsNonneg b.held
  pub held_le : (k : Kind) → amount k b.held ≤ amount k a.held

abbrev pub Pointwise : (Instance → Instance → Type 0) → List Instance → List Instance → Type 0
Pointwise R [] [] = Unit {0}
Pointwise R [] (a ∷ runs) = ⊥
Pointwise R (b ∷ bs) [] = ⊥
Pointwise R (b ∷ bs) (a ∷ runs) = R b a × Pointwise R bs runs

empty_of_amounts :
    (r : Resources) → IsNonneg r → ((k : Kind) → amount k r ≤ 0) → Resources.empty r ≡ true
unfolding Resources.empty
empty_of_amounts r h z = ground (arith, z cpus, z memories, z disks)

-- What holds nothing still holds nothing.
pub Below-empty :
    (b a : Instance) → Below b a → Resources.empty a.held ≡ true → Resources.empty b.held ≡ true
Below-empty b a h e =
    empty_of_amounts b.held h.nonneg
      (λ k. omega (arith, h.held_le k, ap pos_part (empty-amount k a.held e)))

Below-charged :
    (b a : Instance) (r : Reservation) → Below b a → charged r b ≡ true → charged r a ≡ true
unfolding charged
Below-charged b a r h e =
    ground (arith, Below-empty b a h, ap (λ x. str_eq x r.name) h.same_reservation)

Below-holds_pool :
    (b a : Instance) (pool : String)
    → Below b a
    → holds_pool pool b ≡ true
    → holds_pool pool a ≡ true
unfolding holds_pool
Below-holds_pool b a pool h e =
    ground (arith, Below-empty b a h, ap (λ (x : Pool). str_eq x.name pool) h.same_pool)

Below-IsOwned : (rs : List Reservation) (b a : Instance) → Below b a → IsOwned rs a → IsOwned rs b
Below-IsOwned rs b a h (inl e) = inl (rw h.same_reservation e)
Below-IsOwned rs b a h (inr (inl e)) = inr (inl (Below-empty b a h e))
Below-IsOwned rs b a h (inr (inr (r, m, o))) = inr (
    inr (
      r,
      m,
      record {
        same_name = h.same_reservation ∙ o.same_name;
        same_node = h.same_node ∙ o.same_node;
        same_pool = ap (λ (x : Pool). x.name) h.same_pool ∙ o.same_pool;
      },
    ))

Below-fits :
    (b a : Instance) (z : Resources)
    → Below b a
    → Resources.fits a.held z ≡ true
    → Resources.fits b.held z ≡ true
Below-fits b a z h e = fits_of_le b.held z h.nonneg λ k.
    omega
      (arith, h.held_le k, fits-le k a.held z e, at-IsNonneg k a.held (fits-IsNonneg a.held z e))

Below-InSlot :
    (c : Config) (r : Reservation) (bs runs : List Instance)
    → Pointwise Below bs runs
    → InSlot c runs r
    → InSlot c bs r
Below-InSlot c r [] [] p h = tt
Below-InSlot c r [] (a ∷ runs) p h = absurd p
Below-InSlot c r (b ∷ bs) [] p h = absurd p
Below-InSlot c r (b ∷ bs) (a ∷ runs) p h = (
  λ e. Below-fits b a (size c r) p.0 (h.0 (Below-charged b a r p.0 e)),
  Below-InSlot c r bs runs p.1 h.1,
)

-- A property of one VM that survives, at every VM.
Below-All :
    (P : Instance → Type 0)
    → ((b a : Instance) → Below b a → P a → P b)
    → (bs runs : List Instance) → Pointwise Below bs runs
    → All P runs
    → All P bs
Below-All P f [] [] p h = tt
Below-All P f [] (a ∷ runs) p h = absurd p
Below-All P f (b ∷ bs) [] p h = absurd p
Below-All P f (b ∷ bs) (a ∷ runs) p h = (f b a p.0 h.0, Below-All P f bs runs p.1 h.1)

Below-sum :
    (f : Instance → ℕ)
    → ((b a : Instance) → Below b a → f b ≤ f a)
    → (bs runs : List Instance) → Pointwise Below bs runs
    → sum f bs ≤ sum f runs
Below-sum f le [] [] p = omega arith
Below-sum f le [] (a ∷ runs) p = absurd p
Below-sum f le (b ∷ bs) [] p = absurd p
Below-sum f le (b ∷ bs) (a ∷ runs) p = omega (arith, le b a p.0, Below-sum f le bs runs p.1)

Below-pool_count :
    (pool : String) (bs runs : List Instance)
    → Pointwise Below bs runs
    → pool_count pool bs ≤ pool_count pool runs
unfolding pool_count
Below-pool_count pool [] [] p = omega arith
Below-pool_count pool [] (a ∷ runs) p = absurd p
Below-pool_count pool (b ∷ bs) [] p = absurd p
Below-pool_count pool (b ∷ bs) (a ∷ runs) p =
    ground (arith, Below-holds_pool b a pool p.0, Below-pool_count pool bs runs p.1)

pub Ledger-Below :
    (c : Config) (bs runs : List Instance) → Pointwise Below bs runs → Ledger c runs → Ledger c bs
Ledger-Below c bs runs p l = record {
  nonneg = Below-All (λ a. IsNonneg a.held) (λ b a h _. h.nonneg) bs runs p l.nonneg;
  owned = Below-All (IsOwned c.reservations) (Below-IsOwned c.reservations) bs runs p l.owned;
  in_slots =
      All-map (InSlot c runs) (InSlot c bs) (λ r h. Below-InSlot c r bs runs p h) c.reservations
        l.in_slots;
  slots_suffice =
      All-map (λ r. used r runs ≤ pos_part r.slots) (λ r. used r bs ≤ pos_part r.slots)
        (λ r h. omega (
          arith,
          h,
          Below-sum (λ a. if charged r a then 1 else 0)
              (λ b a q. ground (arith, Below-charged b a r q)) bs runs p,
        ))
        c.reservations l.slots_suffice;
  within_budget = λ k.
      All-map
        (λ n. free_sum k n.name runs + reserved_sum k c n.name c.reservations ≤ amount k n.budget)
        (λ n. free_sum k n.name bs + reserved_sum k c n.name c.reservations ≤ amount k n.budget)
        (λ n h. omega (
          arith,
          h,
          Below-sum
              (λ a. if str_eq a.node n.name && str_eq a.reservation "" then amount k a.held else 0)
              (λ b a q. ground (
                arith,
                q.held_le k,
                ap (λ x. str_eq x n.name) q.same_node,
                ap (λ x. str_eq x "") q.same_reservation,
              ))
              bs runs p,
        ))
        c.nodes (l.within_budget k);
  within_limits =
      All-map (λ x. pool_count x.name runs ≤ pos_part x.max_runners)
        (λ x. pool_count x.name bs ≤ pos_part x.max_runners)
        (λ x h. omega (arith, h, Below-pool_count x.name bs runs p)) c.pools l.within_limits;
}

pub Below-refl : (a : Instance) → IsNonneg a.held → Below a a
Below-refl a h = record {
  same_node = refl;
  same_pool = refl;
  same_reservation = refl;
  nonneg = h;
  held_le = λ k. omega arith;
}
