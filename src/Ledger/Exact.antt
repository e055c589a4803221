-- ===== src/Ledger/Exact.antt =====
-- The sums that the scheduler takes in int64 are exact while they stay below 2^63.
use runner_loom.Base.{
  ℕ, suc, ◌+◌, ◌*◌, ◌≤◌, ◌<◌, true, false, String, List, [], ◌∷◌, ◌≡◌, refl, ap, ◌∙◌, sym, ◌⊎◌, inl,
  inr, str_eq, All, arith, Bool-cases, ok, ok-injective, if◌then◌else◌,
}
use runner_loom.Base.Int64.{ℤ, pos, negsuc, pos_part, neg_part, two63, add_pos}
use runner_loom.Resources
use runner_loom.Resources.{Resources}
use runner_loom.Resources.Laws.{
  Kind, at, amount, at-add, IsNonneg, at-IsNonneg, empty-amount, fits-le, fits-IsNonneg,
}
use runner_loom.Config.{Reservation}
use runner_loom.Instance.{Instance}
use runner_loom.Reservations.{Tally, charged, consistent, tally}
use runner_loom.Scheduler.{held_on}
use runner_loom.Ledger.{held_sum, charged_sum, used}

pub pos_of_nonneg : (a : ℤ) → neg_part a ≡ 0 → a ≡ pos (pos_part a)
pos_of_nonneg (pos n) h = refl
pos_of_nonneg (negsuc n) h = absurd (omega arith)

pub at_pos : (k : Kind) (r : Resources) → IsNonneg r → at k r ≡ pos (amount k r)
at_pos k r h = pos_of_nonneg (at k r) (at-IsNonneg k r h)

pub add_exact_at :
    (k : Kind) (r s : Resources) (x y : ℕ)
    → at k r ≡ pos x
    → at k s ≡ pos y
    → x + y < two63
    → at k (Resources.add r s) ≡ pos (x + y)
add_exact_at k r s x y e f b = rw (at-add k r s, e, f) (add_pos x y b)

-- One addition of two amounts.
pub add_exact :
    (k : Kind) (r s : Resources) (x : ℕ)
    → at k r ≡ pos x
    → IsNonneg s
    → x + amount k s < two63
    → at k (Resources.add r s) ≡ pos (x + amount k s)
add_exact k r s x e h b = rw (at-add k r s, e, at_pos k s h) (add_pos x (amount k s) b)

-- What the scheduler finds held on a Node is what its VMs hold.
pub held_on-exact :
    (k : Kind) (node : String) (acc : Resources) (x : ℕ) (runs : List Instance)
    → at k acc ≡ pos x
    → All (λ a. IsNonneg a.held) runs
    → x + held_sum k node runs < two63
    → at k (held_on node acc runs) ≡ pos (x + held_sum k node runs)
unfolding held_on
held_on-exact k node acc x [] e h b = e ∙ ap pos (omega arith)
held_on-exact k node acc x (a ∷ runs) e h b = ground (
  arith,
  held_on-exact k node (Resources.add acc a.held) (x + amount k a.held) runs,
  held_on-exact k node acc x runs,
  add_exact k acc a.held x e h.0,
)

next : Tally → Instance → Tally
next t a = record { used = suc t.used; held = Resources.add t.held a.held }

-- One round of the loop that succeeds.
tally-cons :
    (r : Reservation) (size : Resources) (t t' : Tally) (a : Instance) (runs : List Instance)
    → tally r size t (a ∷ runs) ≡ ok t'
    → ((charged r a ≡ true) × (consistent r size a ≡ true) × (tally r size (next t a) runs ≡ ok t'))
      ⊎ ((charged r a ≡ false) × (tally r size t runs ≡ ok t'))
unfolding tally next
tally-cons r size t t' a runs e = ground arith

-- A run of the loop that succeeds has counted the VMs of the reservation, and found each of them
-- consistent with it.
pub tally-used :
    (r : Reservation) (size : Resources) (t t' : Tally) (runs : List Instance)
    → tally r size t runs ≡ ok t'
    → t'.used ≡ t.used + used r runs
unfolding tally next
tally-used r size t t' [] e = ground (arith, ok-injective e)
tally-used r size t t' (a ∷ runs) e = elim (tally-cons r size t t' a runs e) [
  | inl (c, f, q) ↦ ground (arith, tally-used r size (next t a) t' runs q)
  | inr (c, q) ↦ ground (arith, tally-used r size t t' runs q)
]

pub tally-consistent :
    (r : Reservation) (size : Resources) (t t' : Tally) (runs : List Instance)
    → tally r size t runs ≡ ok t'
    → All (λ a. charged r a ≡ true → consistent r size a ≡ true) runs
tally-consistent r size t t' [] e = tt
tally-consistent r size t t' (a ∷ runs) e = elim (tally-cons r size t t' a runs e) [
  | inl (c, f, q) ↦ (λ _. f, tally-consistent r size (next t a) t' runs q)
  | inr (c, q) ↦ (λ d. cc, tally-consistent r size t t' runs q)
]

charged-amount :
    (k : Kind) (r : Reservation) (a : Instance)
    → (if str_eq a.reservation r.name then amount k a.held else 0)
      ≡ (if charged r a then amount k a.held else 0)
unfolding charged
charged-amount k r a =
    ground (arith, empty-amount k a.held, λ (p : at k a.held ≡ pos 0). ap pos_part p)

pub tally-held :
    (k : Kind) (r : Reservation) (size : Resources) (t t' : Tally) (x : ℕ) (runs : List Instance)
    → tally r size t runs ≡ ok t'
    → at k t.held ≡ pos x
    → All (λ a. IsNonneg a.held) runs
    → x + charged_sum k r runs < two63
    → at k t'.held ≡ pos (x + charged_sum k r runs)
unfolding tally next
tally-held k r size t t' x [] q e h b =
    ap (λ (u : Tally). at k u.held) (sym (ok-injective q)) ∙ e ∙ ap pos (omega arith)
tally-held k r size t t' x (a ∷ runs) q e h b = elim (tally-cons r size t t' a runs q) [
  | inl (c, f, p) ↦ ground (
    arith,
    charged-amount k r a,
    tally-held k r size (next t a) t' (x + amount k a.held) runs p,
    add_exact k t.held a.held x e h.0,
  )
  | inr (c, p) ↦ ground (arith, charged-amount k r a, tally-held k r size t t' x runs p e h.1)
]

-- The VMs of a reservation hold no more than as many slots as there are VMs.
pub charged_sum-le :
    (k : Kind) (r : Reservation) (size : Resources) (runs : List Instance)
    → neg_part (at k size) ≡ 0
    → All (λ a. charged r a ≡ true → Resources.fits a.held size ≡ true) runs
    → charged_sum k r runs ≤ used r runs * amount k size
charged_sum-le k r size [] z h = omega arith
charged_sum-le k r size (a ∷ runs) z h = elim (Bool-cases (charged r a)) [
  | inl c ↦
      let le = fits-le k a.held size (h.0 c) in
      let nn = at-IsNonneg k a.held (fits-IsNonneg a.held size (h.0 c)) in
      let ih = charged_sum-le k r size runs z h.1 in
      rw (charged-amount k r a, c) (omega (arith, le, nn, ih))
  | inr c ↦
      let ih = charged_sum-le k r size runs z h.1 in
      rw (charged-amount k r a, c) (omega (arith, ih))
]
