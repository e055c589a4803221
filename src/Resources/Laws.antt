-- ===== src/Resources/Laws.antt =====
-- The three components of `Resources` read one at a time, as natural numbers.
use runner_loom.Base.{ℕ, ◌+◌, ◌≤◌, true, ◌≡◌, refl, arith}
use runner_loom.Base.Int64
use runner_loom.Base.Int64.{
  ℤ, pos, negsuc, pos_part, neg_part, le_ℤ, two63, add_parts, sub_parts, parts_disjoint,
  eq_of_parts, mul_pos,
}
use runner_loom.Resources.{Resources, add, sub, mul, fits, empty, zero}

pub data Kind : Type 0 where
  cpus memories disks : Kind

abbrev pub at : Kind → Resources → ℤ
at cpus r = r.cpu
at memories r = r.memory
at disks r = r.disk

-- The amount of one kind, where it is not negative.
abbrev pub amount : Kind → Resources → ℕ
amount k r = pos_part (at k r)

pub at-add : (k : Kind) (r s : Resources) → at k (add r s) ≡ Int64.add (at k r) (at k s)
unfolding add
at-add cpus r s = refl
at-add memories r s = refl
at-add disks r s = refl

pub at-sub : (k : Kind) (r s : Resources) → at k (sub r s) ≡ Int64.sub (at k r) (at k s)
unfolding sub
at-sub cpus r s = refl
at-sub memories r s = refl
at-sub disks r s = refl

pub at-mul : (k : Kind) (r : Resources) (n : ℤ) → at k (mul r n) ≡ Int64.mul (at k r) n
unfolding mul
at-mul cpus r n = refl
at-mul memories r n = refl
at-mul disks r n = refl

-- No component is negative.
abbrev pub IsNonneg : Resources → Type 0
IsNonneg r = (neg_part r.cpu ≡ 0) × (neg_part r.memory ≡ 0) × (neg_part r.disk ≡ 0)

pub at-IsNonneg : (k : Kind) (r : Resources) → IsNonneg r → neg_part (at k r) ≡ 0
at-IsNonneg cpus r h = h.0
at-IsNonneg memories r h = h.1
at-IsNonneg disks r h = h.2

pub fits-IsNonneg : (r s : Resources) → fits r s ≡ true → IsNonneg r
unfolding fits
fits-IsNonneg r s h = ground arith

-- What fits is at most the other side, in every kind.
pub fits-le :
    (k : Kind) (r s : Resources)
    → fits r s ≡ true
    → pos_part (at k r) + neg_part (at k s) ≤ pos_part (at k s) + neg_part (at k r)
unfolding fits
fits-le cpus r s h = ground arith
fits-le memories r s h = ground arith
fits-le disks r s h = ground arith

pub fits_of_le :
    (r s : Resources)
    → IsNonneg r
    → ((k : Kind) → amount k r + neg_part (at k s) ≤ amount k s)
    → fits r s ≡ true
unfolding fits
fits_of_le r s h le = ground (arith, le cpus, le memories, le disks)

pub empty-amount : (k : Kind) (r : Resources) → empty r ≡ true → at k r ≡ pos 0
unfolding empty
empty-amount cpus r h = ground (arith, eq_of_parts r.cpu (pos 0))
empty-amount memories r h = ground (arith, eq_of_parts r.memory (pos 0))
empty-amount disks r h = ground (arith, eq_of_parts r.disk (pos 0))

pub zero-empty : empty zero ≡ true
unfolding empty
zero-empty = refl
