-- ===== src/Ledger/Allocate/Candidates.antt =====
-- A candidate without reasons.
use runner_loom.Base.{ℕ, Bool, true, false, not, List, ◌≡◌, refl, is_empty}
use runner_loom.Base.Int64.{pos, le_ℤ}
use runner_loom.Resources
use runner_loom.Resources.{Resources}
use runner_loom.Config.{Config, Pool, Node, charge, eligible}
use runner_loom.Instance.{Instance}
use runner_loom.Reservations.{validate_owners}
use runner_loom.Scheduler.{
  Observations, Reason, reservation_inconsistent, pool_disabled, node_not_allowed, pool_limit,
  node_not_ready, network_not_verified, insufficient_budget, owners_fail, ready_at, observed,
  or_zero, candidate, standing, share_of, available, held_on, reason_if, pool_count,
}
use runner_loom.Ledger.Place.{is_empty-append}

-- What a candidate without reasons has passed.
pub record Usable (c : Config) (p : Pool) (runs : List Instance) (obs : Observations) (now : ℕ)
    (n : Node) : Type 0 where
  pub owners_hold : owners_fail (validate_owners c runs) ≡ false
  pub enabled : p.enabled ≡ true
  pub is_eligible : eligible p n ≡ true
  pub below_limit : le_ℤ p.max_runners (pos (pool_count p.name runs)) ≡ false
  pub is_ready : ready_at now (observed obs n.name) ≡ true
  pub isolated : (or_zero (observed obs n.name)).isolation ≡ true
  pub shares_found : is_empty (share_of c p n runs).reasons ≡ true
  pub fits_room :
      Resources.fits
        (charge p)
        (available p n (held_on n.name Resources.zero runs) (share_of c p n runs))
      ≡ true

reason_if-empty : (b : Bool) (r : Reason) → is_empty (reason_if b r) ≡ true → b ≡ false
unfolding reason_if
reason_if-empty true r h = cc
reason_if-empty false r h = refl

reason_if-not : (b : Bool) (r : Reason) → is_empty (reason_if (not b) r) ≡ true → b ≡ true
unfolding reason_if
reason_if-not true r h = refl
reason_if-not false r h = cc

pub candidate-Usable :
    (c : Config) (p : Pool) (runs : List Instance) (obs : Observations) (now : ℕ) (n : Node)
    → is_empty (candidate c p runs obs now n).reasons ≡ true
    → Usable c p runs obs now n
unfolding candidate standing
candidate-Usable c p runs obs now n h =
    let (st, h1) = is_empty-append (standing c p n runs obs now) _ h in
    let (sh, h2) = is_empty-append (share_of c p n runs).reasons _ h1 in
    let (bu, h3) =
      is_empty-append
        (reason_if
          (not (
            Resources.fits (charge p)
              (available p n (held_on n.name Resources.zero runs) (share_of c p n runs))))
          insufficient_budget)
        _ h2 in
    let (ow, s1) =
      is_empty-append (reason_if (owners_fail (validate_owners c runs)) reservation_inconsistent) _
        st in
    let (en, s2) = is_empty-append (reason_if (not p.enabled) pool_disabled) _ s1 in
    let (el, s3) = is_empty-append (reason_if (not (eligible p n)) node_not_allowed) _ s2 in
    let (li, s4) =
      is_empty-append (reason_if (le_ℤ p.max_runners (pos (pool_count p.name runs))) pool_limit) _
        s3 in
    let (re, s5) =
      is_empty-append (reason_if (not (ready_at now (observed obs n.name))) node_not_ready) _ s4 in
    let (iso, s6) =
      is_empty-append
        (reason_if (not (or_zero (observed obs n.name)).isolation) network_not_verified) _ s5 in
    record {
      owners_hold = reason_if-empty _ _ ow;
      enabled = reason_if-not _ _ en;
      is_eligible = reason_if-not _ _ el;
      below_limit = reason_if-empty _ _ li;
      is_ready = reason_if-not _ _ re;
      isolated = reason_if-not _ _ iso;
      shares_found = sh;
      fits_room = reason_if-not _ _ bu;
    }
