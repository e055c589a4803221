-- ===== src/Ledger/Alike.antt =====
-- The ledger counts the VMs of a list and does not see their order.
use runner_loom.Base.{
  ℕ, ◌+◌, ◌≤◌, true, ◌&&◌, String, List, [], ◌∷◌, ◌++◌, ◌≡◌, refl, sym, ◌∙◌, inl, inr, str_eq, sum,
  sum-append, All, In, All-map, All_of_In, All-of_members, arith, if◌then◌else◌,
}
use runner_loom.Base.Int64.{pos_part}
use runner_loom.Resources
use runner_loom.Resources.Laws.{amount, IsNonneg}
use runner_loom.Config.{Config}
use runner_loom.Instance.{Instance}
use runner_loom.Reservations.{charged}
use runner_loom.Scheduler.{pool_count, holds_pool}
use runner_loom.Ledger.{Ledger, IsOwned, InSlot, size, free_sum, reserved_sum, used}

-- The same VMs, as far as sums and members tell.
pub record Alike (ys xs : List Instance) : Type 0 where
  pub same_sums : (f : Instance → ℕ) → sum f ys ≡ sum f xs
  pub members : (a : Instance) → In a ys → In a xs
  pub members_back : (a : Instance) → In a xs → In a ys

pub Alike-refl : (xs : List Instance) → Alike xs xs
Alike-refl xs = record { same_sums = λ f. refl; members = λ a m. m; members_back = λ a m. m }

pub Alike-trans : (zs ys xs : List Instance) → Alike zs ys → Alike ys xs → Alike zs xs
Alike-trans zs ys xs p q = record {
  same_sums = λ f. p.same_sums f ∙ q.same_sums f;
  members = λ a m. q.members a (p.members a m);
  members_back = λ a m. p.members_back a (q.members_back a m);
}

pub Alike-sym : (ys xs : List Instance) → Alike ys xs → Alike xs ys
Alike-sym ys xs p = record {
  same_sums = λ f. sym (p.same_sums f);
  members = p.members_back;
  members_back = p.members;
}

pub Alike-cons : (a : Instance) (ys xs : List Instance) → Alike ys xs → Alike (a ∷ ys) (a ∷ xs)
Alike-cons a ys xs p = record {
  same_sums = λ f. omega (arith, p.same_sums f);
  members = λ b. elim [ inl e ↦ inl e | inr m ↦ inr (p.members b m) ];
  members_back = λ b. elim [ inl e ↦ inl e | inr m ↦ inr (p.members_back b m) ];
}

In-snoc : (b a : Instance) (xs : List Instance) → In b (xs ++ a ∷ []) → In b (a ∷ xs)
In-snoc b a [] m = m
In-snoc b a (x ∷ xs) (inl e) = inr (inl e)
In-snoc b a (x ∷ xs) (inr m) = elim (In-snoc b a xs m) [ inl e ↦ inl e | inr k ↦ inr (inr k) ]

snoc-In : (b a : Instance) (xs : List Instance) → In b (a ∷ xs) → In b (xs ++ a ∷ [])
snoc-In b a [] m = m
snoc-In b a (x ∷ xs) m = ground (arith, snoc-In b a xs)

pub Alike-snoc : (a : Instance) (xs : List Instance) → Alike (xs ++ a ∷ []) (a ∷ xs)
Alike-snoc a xs = record {
  same_sums = λ f. omega (arith, sum-append f xs (a ∷ []));
  members = λ b m. In-snoc b a xs m;
  members_back = λ b m. snoc-In b a xs m;
}

pool_count-sum :
    (pool : String) (runs : List Instance)
    → pool_count pool runs ≡ sum (λ a. if holds_pool pool a then 1 else 0) runs
unfolding pool_count
pool_count-sum pool [] = refl
pool_count-sum pool (a ∷ runs) = ground (arith, pool_count-sum pool runs)

pub All-Alike : (P : Instance → Type 0) (ys xs : List Instance) → Alike ys xs → All P xs → All P ys
All-Alike P ys xs p h = All-of_members P ys (λ a m. All_of_In P xs h (p.members a m))

pub Ledger-Alike : (c : Config) (ys xs : List Instance) → Alike ys xs → Ledger c xs → Ledger c ys
Ledger-Alike c ys xs p l = record {
  nonneg = All-Alike (λ a. IsNonneg a.held) ys xs p l.nonneg;
  owned = All-Alike (IsOwned c.reservations) ys xs p l.owned;
  in_slots =
      All-map (InSlot c xs) (InSlot c ys)
        (λ x h.
          All-Alike (λ a. charged x a ≡ true → Resources.fits a.held (size c x) ≡ true) ys xs p h)
        c.reservations l.in_slots;
  slots_suffice =
      All-map (λ x. used x xs ≤ pos_part x.slots) (λ x. used x ys ≤ pos_part x.slots)
        (λ x h. omega (arith, h, p.same_sums (λ a. if charged x a then 1 else 0))) c.reservations
        l.slots_suffice;
  within_budget = λ k.
      All-map
        (λ n. free_sum k n.name xs + reserved_sum k c n.name c.reservations ≤ amount k n.budget)
        (λ n. free_sum k n.name ys + reserved_sum k c n.name c.reservations ≤ amount k n.budget)
        (λ n h. omega (
          arith,
          h,
          p.same_sums
              (λ a. if str_eq a.node n.name && str_eq a.reservation "" then amount k a.held else 0),
        ))
        c.nodes (l.within_budget k);
  within_limits =
      All-map (λ p. pool_count p.name xs ≤ pos_part p.max_runners)
        (λ p. pool_count p.name ys ≤ pos_part p.max_runners)
        (λ q h. omega (
          arith,
          h,
          pool_count-sum q.name xs,
          pool_count-sum q.name ys,
          p.same_sums (λ a. if holds_pool q.name a then 1 else 0),
        ))
        c.pools l.within_limits;
}
