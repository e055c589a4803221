-- ===== src/Safety/History/Others.antt =====
-- The operations outside the ledger's steps, and what a revocation stands on.
use runner_loom.Base.{
  ℕ, Bool, not, ◌&&◌, String, Option, none, some, ◌≡◌, refl, ap, inl, inr, str_eq, leb, is_some,
  Bool-cases, Option-cases, ok, fail, plain, require, or_fail, ok-injective, >>=-eq-ok, ltb,
}
use runner_loom.Base.Int64.{ℤ, eq_ℤ}
use runner_loom.Config.{Config}
use runner_loom.Config.Validate.{validate}
use runner_loom.Config.Validate.Check.{Platform}
use runner_loom.Store.{
  Store, Plan, InviteRow, EnrollmentRow, read_config, read_instances, add_audit, seconds,
}
use runner_loom.Store.Plans.{apply, apply_checked, find_plan, commit}
use runner_loom.Store.Plans.Capacity.{check_capacity}
use runner_loom.Store.Identity.{
  Pki, Invitation, JoinRequest, Enrollment, invite, join_cluster, join_row, join_new, rejoin,
  find_invite, by_invite, admits, is_origin, find_enrollment, minute, hour, same_resources,
  good_request,
}
use runner_loom.Store.Maintenance.{
  MaintenancePolicy, MaintenanceReport, maintain, validate_policy, retire,
}
use runner_loom.Safety.Access.{Kept, Kept-by}

pub apply-Kept :
    (e : Platform) (fingerprint : Config → String) (now : ℕ) (id : String) (s t : Store)
    (revision : ℤ)
    → apply e fingerprint now id s ≡ ok (t, revision)
    → Kept t s
unfolding apply apply_checked commit add_audit
apply-Kept e fingerprint now id s t revision h =
    let (p, _, h1) = >>=-eq-ok (or_fail (find_plan id s.plans) (fail "PLAN_NOT_FOUND")) _ h in
    elim (Option-cases p.applied) [
      | inr (x, q) ↦ Kept-by s (ap (λ (x : Store × ℤ). x.0) (ok-injective (rw q at h1))) refl
      | inl q ↦ checked p (rw q at h1)
    ]
  where
    checked : (p : Plan) → apply_checked e fingerprint now p s ≡ ok (t, revision) → Kept t s
    checked p h =
        let (previous, r) = read_config s in
        let (_, _, h1) =
          >>=-eq-ok (require (not (leb p.expires (seconds now))) (fail "PLAN_EXPIRED")) _ h in
        let (_, _, h2) = >>=-eq-ok (require (eq_ℤ r p.base) (fail "REVISION_CONFLICT")) _ h1 in
        let (_, _, h3) = >>=-eq-ok (validate e p.payload) _ h2 in
        let (_, _, h4) = >>=-eq-ok (check_capacity p.payload (read_instances s)) _ h3 in
        elim (Bool-cases (str_eq (fingerprint previous) (fingerprint p.payload))) [
          | inl q ↦ Kept-by s (ap (λ (x : Store × ℤ). x.0) (ok-injective (rw q at h4))) refl
          | inr q ↦ Kept-by s (ap (λ (x : Store × ℤ). x.0) (ok-injective (rw q at h4))) refl
        ]

pub invite-Kept :
    (e : Platform) (k : Pki) (now : ℕ) (id secret endpoint : String) (ttl : ℕ) (s t : Store)
    (i : Invitation)
    → invite e k now id secret endpoint ttl s ≡ ok (t, i)
    → Kept t s
unfolding invite
invite-Kept e k now id secret endpoint ttl s t i h =
    let (_, _, h1) =
      >>=-eq-ok
        (require (is_origin (e.parse_url endpoint))
          (plain "advertised endpoint must be an https origin"))
        _ h in
    let (_, _, h2) =
      >>=-eq-ok
        (require (not (ltb ttl minute) && not (ltb hour ttl))
          (plain "invitation lifetime must be 1..60 minutes"))
        _ h1 in
    let (_, _, h3) =
      >>=-eq-ok
        (require (not (is_some (find_invite id s.invites))) (plain "UNIQUE constraint failed")) _
        h2 in
    Kept-by s (ap (λ (x : Store × Invitation). x.0) (ok-injective h3)) refl

join_row-Kept :
    (k : Pki) (id raw : String) (q : JoinRequest) (i : InviteRow) (o : Option EnrollmentRow)
    (s t : Store) (out : Enrollment)
    → join_row k id raw q i o s ≡ ok (t, out)
    → Kept t s
unfolding join_row join_new rejoin
join_row-Kept k id raw q i (some r) s t out h =
    let (_, _, h1) =
      >>=-eq-ok
        (require (str_eq (k.hash r.csr) (k.hash q.csr) && str_eq r.name q.name)
          (fail "INVITE_BOUND"))
        _ h in
    let (_, _, h2) =
      >>=-eq-ok (require (same_resources r.ceiling q.ceiling) (fail "INVITE_BOUND")) _ h1 in
    Kept-by s (ap (λ (x : Store × Enrollment). x.0) (ok-injective h2)) refl
join_row-Kept k id raw q i none s t out h =
    let (_, _, h1) = >>=-eq-ok (require (not i.used) (fail "INVITE_USED")) _ h in
    let (_, _, h2) =
      >>=-eq-ok
        (require (not (is_some (find_enrollment id s.enrollments)))
          (plain "UNIQUE constraint failed"))
        _ h1 in
    Kept-by s (ap (λ (x : Store × Enrollment). x.0) (ok-injective h2)) refl

pub join_cluster-Kept :
    (k : Pki) (now : ℕ) (id : String) (q : JoinRequest) (s t : Store) (out : Enrollment)
    → join_cluster k now id q s ≡ ok (t, out)
    → Kept t s
unfolding join_cluster
join_cluster-Kept k now id q s t out h =
    let (_, _, h1) = >>=-eq-ok (require (good_request q) (fail "ENROLLMENT_INPUT")) _ h in
    let (raw, _, h2) = >>=-eq-ok (or_fail (k.parse_csr q.csr) (fail "CSR_INVALID")) _ h1 in
    let (i, _, h3) =
      >>=-eq-ok (or_fail (find_invite q.id s.invites) (fail "INVITE_INVALID")) _ h2 in
    let (_, _, h4) = >>=-eq-ok (require (admits k now q.secret i) (fail "INVITE_INVALID")) _ h3 in
    join_row-Kept k id raw q i (by_invite q.id s.enrollments) s t out h4

pub maintain-Kept :
    (now : ℕ) (stamp : String) (p : MaintenancePolicy) (apply : Bool) (s t : Store)
    (report : MaintenanceReport)
    → maintain now stamp p apply s ≡ ok (t, report)
    → Kept t s
unfolding maintain retire add_audit
maintain-Kept now stamp p apply s t report h =
    let (_, _, h1) = >>=-eq-ok (validate_policy now p) _ h in
    elim (Bool-cases apply) [
      | inl e ↦
          Kept-by s (ap (λ (x : Store × MaintenanceReport). x.0) (ok-injective (rw e at h1))) refl
      | inr e ↦
          Kept-by s (ap (λ (x : Store × MaintenanceReport). x.0) (ok-injective (rw e at h1))) refl
    ]
