-- ===== src/Safety/Apply.antt =====
-- `Apply` puts a plan's configuration in place only where it keeps what runs within bounds.
use runner_loom.Base.{
  ℕ, ◌<◌, not, String, ◌≡◌, refl, ap, subst, inl, inr, str_eq, leb, sum, Bool-cases, Option-cases,
  ok, fail, require, or_fail, ok-injective, >>=-eq-ok,
}
use runner_loom.Base.Int64
use runner_loom.Base.Int64.{ℤ, pos, eq_ℤ}
use runner_loom.Resources.Laws.{Kind, amount}
use runner_loom.Config.{Config}
use runner_loom.Config.Validate.{validate}
use runner_loom.Config.Validate.Check.{Platform}
use runner_loom.Store.{Store, Plan, add_audit, read_config, read_instances, seconds}
use runner_loom.Store.Plans.{apply, apply_checked, find_plan, commit}
use runner_loom.Store.Plans.Capacity.{check_capacity}
use runner_loom.Ledger.Capacity.{check_capacity-Ledger}
use runner_loom.Safety.{IsSafe}
use runner_loom.Safety.Sound.{validate-IsSound, validate-few}
use runner_loom.Safety.Tasks.{IsSafe-same}

commit-IsSafe :
    (e : Platform) (now : ℕ) (p : Plan) (revision : ℤ) (s : Store)
    → IsSafe s
    → ((k : Kind) → sum (λ a. amount k a.held) (read_instances s) < 4611686018427387904)
    → validate e p.payload ≡ ok tt
    → check_capacity p.payload (read_instances s) ≡ ok tt
    → IsSafe (commit now p revision s)
unfolding commit read_config add_audit
commit-IsSafe e now p revision s v small good fits =
    let sound = validate-IsSound e p.payload good in
    record {
      sound = sound;
      ledger =
          check_capacity-Ledger p.payload (read_instances s) sound (validate-few e p.payload good)
            v.ledger.nonneg small fits;
      distinct = v.distinct;
    }

apply_checked-IsSafe :
    (e : Platform) (fingerprint : Config → String) (now : ℕ) (p : Plan) (s t : Store) (revision : ℤ)
    → IsSafe s
    → ((k : Kind) → sum (λ a. amount k a.held) (read_instances s) < 4611686018427387904)
    → apply_checked e fingerprint now p s ≡ ok (t, revision)
    → IsSafe t
unfolding apply_checked
apply_checked-IsSafe e fingerprint now p s t revision v small h =
    let (previous, r) = read_config s in
    let (_, _, h1) =
      >>=-eq-ok (require (not (leb p.expires (seconds now))) (fail "PLAN_EXPIRED")) _ h in
    let (_, _, h2) = >>=-eq-ok (require (eq_ℤ r p.base) (fail "REVISION_CONFLICT")) _ h1 in
    let (_, good, h3) = >>=-eq-ok (validate e p.payload) _ h2 in
    let (_, fits, h4) = >>=-eq-ok (check_capacity p.payload (read_instances s)) _ h3 in
    elim (Bool-cases (str_eq (fingerprint previous) (fingerprint p.payload))) [
      | inl q ↦
          subst IsSafe (ap (λ (x : Store × ℤ). x.0) (ok-injective (rw q at h4)))
            (IsSafe-same _ s refl refl v)
      | inr q ↦
          subst IsSafe (ap (λ (x : Store × ℤ). x.0) (ok-injective (rw q at h4)))
            (commit-IsSafe e now p (Int64.add r (pos 1)) s v small good fits)
    ]

-- A successful Apply on a sound database whose VMs hold less than 2^62 in all of each resource
-- leaves a sound database: on every Node of the new configuration the budget covers the VMs
-- there and the reservations.
pub apply-IsSafe :
    (e : Platform) (fingerprint : Config → String) (now : ℕ) (id : String) (s t : Store)
    (revision : ℤ)
    → IsSafe s
    → ((k : Kind) → sum (λ a. amount k a.held) (read_instances s) < 4611686018427387904)
    → apply e fingerprint now id s ≡ ok (t, revision)
    → IsSafe t
unfolding apply
apply-IsSafe e fingerprint now id s t revision v small h =
    let (p, _, h1) = >>=-eq-ok (or_fail (find_plan id s.plans) (fail "PLAN_NOT_FOUND")) _ h in
    elim (Option-cases p.applied) [
      | inr (x, q) ↦ subst IsSafe (ap (λ (x : Store × ℤ). x.0) (ok-injective (rw q at h1))) v
      | inl q ↦ apply_checked-IsSafe e fingerprint now p s t revision v small (rw q at h1)
    ]
