-- ===== src/Ledger/Grow.antt =====
-- One more VM in the ledger: what it must satisfy for the ledger to hold with it.
use runner_loom.Base.{
  ◌+◌, ◌≤◌, ◌<◌, true, ◌&&◌, String, List, [], ◌∷◌, ◌≡◌, ap, ◌∙◌, sym, inl, inr, str_eq, contains,
  All, In, arith, eq_iff,
}
use runner_loom.Base.Int64.{pos_part}
use runner_loom.Resources
use runner_loom.Resources.Laws.{Kind, amount, IsNonneg}
use runner_loom.Config.{Config}
use runner_loom.Instance.{Instance}
use runner_loom.Reservations.{charged}
use runner_loom.Scheduler.{pool_count, holds_pool}
use runner_loom.Ledger.{Ledger, IsOwned, InSlot, Distinct, keys, size, free_sum, reserved_sum, used}

pub record Admits (c : Config) (runs : List Instance) (a : Instance) : Type 0 where
  pub nonneg : IsNonneg a.held
  pub owned : IsOwned c.reservations a
  pub in_slot :
      All (λ r. charged r a ≡ true → Resources.fits a.held (size c r) ≡ true) c.reservations
  pub slot_left : All (λ r. charged r a ≡ true → used r runs < pos_part r.slots) c.reservations
  pub room :
      (k : Kind)
      → All
          (λ n.
            (str_eq a.node n.name && str_eq a.reservation "") ≡ true
            → free_sum k n.name runs + reserved_sum k c n.name c.reservations + amount k a.held
              ≤ amount k n.budget)
          c.nodes
  pub below_limit :
      All
        (λ p. holds_pool p.name a ≡ true → pool_count p.name runs < pos_part p.max_runners)
        c.pools

All-map₂ :
    {A : Type 0} (P Q R : A → Type 0)
    → ((a : A) → P a → Q a → R a)
    → (xs : List A) → All P xs
    → All Q xs
    → All R xs
All-map₂ P Q R f [] h g = tt
All-map₂ P Q R f (x ∷ xs) h g = (f x h.0 g.0, All-map₂ P Q R f xs h.1 g.1)

pub Ledger-cons :
    (c : Config) (runs : List Instance) (a : Instance)
    → Admits c runs a
    → Ledger c runs
    → Ledger c (a ∷ runs)
unfolding pool_count
Ledger-cons c runs a h l = record {
  nonneg = (h.nonneg, l.nonneg);
  owned = (h.owned, l.owned);
  in_slots =
      All-map₂ (λ r. charged r a ≡ true → Resources.fits a.held (size c r) ≡ true) (InSlot c runs)
        (InSlot c (a ∷ runs)) (λ r x y. (x, y)) c.reservations h.in_slot l.in_slots;
  slots_suffice =
      All-map₂ (λ r. charged r a ≡ true → used r runs < pos_part r.slots)
        (λ r. used r runs ≤ pos_part r.slots) (λ r. used r (a ∷ runs) ≤ pos_part r.slots)
        (λ r x y. ground arith) c.reservations h.slot_left l.slots_suffice;
  within_budget = λ k.
      All-map₂
        (λ n.
          (str_eq a.node n.name && str_eq a.reservation "") ≡ true
          → free_sum k n.name runs + reserved_sum k c n.name c.reservations + amount k a.held
            ≤ amount k n.budget)
        (λ n. free_sum k n.name runs + reserved_sum k c n.name c.reservations ≤ amount k n.budget)
        (λ n.
          free_sum k n.name (a ∷ runs) + reserved_sum k c n.name c.reservations ≤ amount k n.budget)
        (λ n x y. ground arith) c.nodes (h.room k) (l.within_budget k);
  within_limits =
      All-map₂ (λ p. holds_pool p.name a ≡ true → pool_count p.name runs < pos_part p.max_runners)
        (λ p. pool_count p.name runs ≤ pos_part p.max_runners)
        (λ p. pool_count p.name (a ∷ runs) ≤ pos_part p.max_runners) (λ p x y. ground arith) c.pools
        h.below_limit l.within_limits;
}

keys-In :
    {A : Type 0} (f : A → String) (xs : List A) (s : String) {b : A}
    → In b xs
    → s ≡ f b
    → contains (keys f xs) s ≡ true
keys-In f [] s m e = absurd m
keys-In f (x ∷ xs) s (inl q) e = ground (arith, ap f q, eq_iff (f x) s)
keys-In f (x ∷ xs) s (inr m) e = ground (arith, keys-In f xs s m e)

-- Two entries of one name are one entry.
pub eq_of_name :
    {A : Type 0} (f : A → String) (xs : List A) {a b : A}
    → Distinct f xs
    → In a xs
    → In b xs
    → f a ≡ f b
    → a ≡ b
eq_of_name f [] d m q e = absurd m
eq_of_name f (x ∷ xs) d (inl m) (inl q) e = sym m ∙ q
eq_of_name f (x ∷ xs) d (inr m) (inr q) e = eq_of_name f xs d.1 m q e
eq_of_name f (x ∷ xs) d (inl m) (inr q) e = absurd (cc (keys-In f xs (f x) q (ap f m ∙ e)))
eq_of_name f (x ∷ xs) d (inr m) (inl q) e = absurd (cc (keys-In f xs (f x) m (ap f q ∙ sym e)))
