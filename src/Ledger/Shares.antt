-- ===== src/Ledger/Shares.antt =====
-- `reservationProtection` in natural numbers: what it keeps for a reservation is the reserved slots
-- less what the reservation's VMs hold.
use runner_loom.Base.{
  ℕ, ◌-◌, ◌*◌, ◌≤◌, ◌<◌, Bool, true, false, not, some, List, ◌≡◌, refl, ap, ◌∙◌, sym, subst, All,
  All-map, arith, ok, fail, or_fail, require, ok-injective, or_fail-eq-ok, require-eq-ok, >>=-eq-ok,
}
use native.Mathlib.Nat.{zero-add}
use runner_loom.Base.Int64
use runner_loom.Base.Int64.{ℤ, pos, pos_part, neg_part, lt_ℤ, two63, sub_pos, mul_pos}
use runner_loom.Resources
use runner_loom.Resources.{Resources}
use runner_loom.Resources.Laws.{
  Kind, at, amount, at-sub, at-mul, IsNonneg, at-IsNonneg, cpus, memories, disks,
}
use runner_loom.Config.{Config, Pool, Reservation, charge, find_pool}
use runner_loom.Instance.{Instance}
use runner_loom.Reservations.{Tally, charged, consistent, tally, protection}
use runner_loom.Ledger.{size, size_of, slot_size, charged_sum, used, InSlot}
use runner_loom.Ledger.Exact.{
  at_pos, pos_of_nonneg, tally-used, tally-consistent, tally-held, charged_sum-le,
}

abbrev start : Tally
start = record { used = 0; held = Resources.zero }

-- The parts of a protection that was granted.
pub record Granted (c : Config) (r : Reservation) (runs : List Instance) (kept : Resources)
    (left : ℤ) : Type 0 where
  pub pool : Pool
  pub total : Tally
  pub known : find_pool c.pools r.pool ≡ some pool
  pub counted : tally r (charge pool) start runs ≡ ok total
  pub enough : lt_ℤ r.slots (pos total.used) ≡ false
  pub kept_eq : kept ≡ Resources.sub (Resources.mul (charge pool) r.slots) total.held
  pub left_eq : left ≡ Int64.sub r.slots (pos total.used)

pub granted :
    (c : Config) (r : Reservation) (runs : List Instance) (kept : Resources) (left : ℤ)
    → protection c r runs ≡ ok (kept, left)
    → Granted c r runs kept left
unfolding protection
granted c r runs kept left h =
    let (p, known, h1) =
      >>=-eq-ok (or_fail (find_pool c.pools r.pool) (fail "RESERVATION_INCONSISTENT")) _ h in
    let (t, counted, h2) = >>=-eq-ok (tally r (charge p) start runs) _ h1 in
    let (u, enough, h3) =
      >>=-eq-ok (require (not (lt_ℤ r.slots (pos t.used))) (fail "RESERVATION_BUSY")) _ h2 in
    record {
      pool = p;
      total = t;
      known = or_fail-eq-ok _ _ known;
      counted = counted;
      enough = not_true (require-eq-ok _ _ enough);
      kept_eq = ap (λ (x : Resources × ℤ). x.0) (sym (ok-injective h3));
      left_eq = ap (λ (x : Resources × ℤ). x.1) (sym (ok-injective h3));
    }
  where
    not_true : {b : Bool} → not b ≡ true → b ≡ false
    not_true {b} h = ground arith

pub zero-at : (k : Kind) → at k Resources.zero ≡ pos 0
zero-at cpus = refl
zero-at memories = refl
zero-at disks = refl

module _ (c : Config) (r : Reservation) (runs : List Instance) {kept : Resources} {left : ℤ}
    (g : Granted c r runs kept left) (nonneg : All (λ a. IsNonneg a.held) runs)
    (slots_nonneg : neg_part r.slots ≡ 0) (size-IsNonneg : IsNonneg (size c r)) where
  Granted-size : size c r ≡ charge g.pool
  Granted-size = ap size_of g.known

  pub Granted-used : used r runs ≤ pos_part r.slots
  Granted-used = ground (arith, tally-used r (charge g.pool) start g.total runs g.counted, g.enough)

  pub Granted-consistent : All (λ a. charged r a ≡ true → consistent r (size c r) a ≡ true) runs
  Granted-consistent =
      subst (λ z. All (λ a. charged r a ≡ true → consistent r z a ≡ true) runs) (sym Granted-size)
        (tally-consistent r (charge g.pool) start g.total runs g.counted)

  pub Granted-InSlot : InSlot c runs r
  unfolding consistent
  Granted-InSlot =
      All-map (λ a. charged r a ≡ true → consistent r (size c r) a ≡ true)
        (λ a. charged r a ≡ true → Resources.fits a.held (size c r) ≡ true)
        (λ a h e. let f = h e in ground arith) runs Granted-consistent

  pub Granted-charged_sum : (k : Kind) → charged_sum k r runs ≤ slot_size k c r
  Granted-charged_sum k =
      le_times (used r runs) (pos_part r.slots) (amount k (size c r)) (charged_sum k r runs)
        Granted-used
        (charged_sum-le k r (size c r) runs (at-IsNonneg k (size c r) size-IsNonneg) Granted-InSlot)
    where
      le_times : (u s z x : ℕ) → u ≤ s → x ≤ u * z → x ≤ z * s
      le_times u s z x h le = grind arith

  -- What is kept, exactly.
  pub Granted-kept :
      (k : Kind)
      → slot_size k c r < two63
      → at k kept ≡ pos (slot_size k c r - charged_sum k r runs)
  Granted-kept k b =
      ap (at k) g.kept_eq
      ∙ at-sub k (Resources.mul (charge g.pool) r.slots) g.total.held
      ∙ rw
          (
            at-mul k (charge g.pool) r.slots,
            ← Granted-size,
            at_pos k (size c r) size-IsNonneg,
            pos_of_nonneg r.slots slots_nonneg,
            held,
          )
          (rw (mul_pos (amount k (size c r)) (pos_part r.slots) b)
            (sub_pos _ _ (Granted-charged_sum k) b))
    where
      held : at k g.total.held ≡ pos (charged_sum k r runs)
      held =
          tally-held k r (charge g.pool) start g.total 0 runs g.counted (zero-at k) nonneg
            (omega (arith, Granted-charged_sum k))
          ∙ ap pos (omega arith)

  -- The slots that are left are those that no VM uses.
  pub Granted-left : pos_part r.slots < two63 → left ≡ pos (pos_part r.slots - used r runs)
  Granted-left b =
      g.left_eq
      ∙ ap (λ z. Int64.sub z (pos g.total.used)) (pos_of_nonneg r.slots slots_nonneg)
      ∙ ap (λ n. Int64.sub (pos (pos_part r.slots)) (pos n))
          (tally-used r (charge g.pool) start g.total runs g.counted ∙ zero-add (used r runs))
      ∙ sub_pos (pos_part r.slots) (used r runs) Granted-used b
