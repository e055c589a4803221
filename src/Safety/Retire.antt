-- ===== src/Safety/Retire.antt =====
-- What `Maintain` retires, and what it must leave.
use runner_loom.Base.{
  ℕ, zero, suc, ◌+◌, ◌-◌, ◌≤◌, Bool, true, false, String, List, [], ◌∷◌, ◌++◌, ◌≡◌, refl, ap, ◌∙◌,
  sym, subst, inl, inr, str_eq, length, length-append, arith, Bool-cases, eq_iff, ok, ok-injective,
  >>=-eq-ok,
}
use runner_loom.Store.{Store, InviteRow, EnrollmentRow, seconds, add_audit}
use runner_loom.Store.Identity.{find_invite}
use runner_loom.Store.Maintenance.{
  MaintenancePolicy, MaintenanceReport, count, delete_where, take, drop, plan_expired,
  invite_retired, referenced, audit_old, older_rows, newest_rows, cutoff_of, maintenance_report,
  retire, validate_policy, maintain,
}
use runner_loom.Safety.{IsSafe}
use runner_loom.Safety.Tasks.{IsSafe-same}

module _ {A : Type 0} where
  -- What is counted is what goes.
  length-delete_where :
      (p : A → Bool) (xs : List A) → length (delete_where p xs) + count p xs ≡ length xs
  unfolding delete_where count
  length-delete_where p [] = refl
  length-delete_where p (x ∷ xs) =
      let rest = length-delete_where p xs in
      elim (Bool-cases (p x)) [
        | inl e ↦ rw e (omega (arith, rest))
        | inr e ↦ rw e (omega (arith, rest))
      ]

  length-take-drop : (n : ℕ) (xs : List A) → length (take n xs) + length (drop n xs) ≡ length xs
  unfolding take drop
  length-take-drop zero xs = omega arith
  length-take-drop (suc n) [] = refl
  length-take-drop (suc n) (x ∷ xs) = omega (arith, length-take-drop n xs)

  length-drop : (n : ℕ) (xs : List A) → length (drop n xs) ≡ length xs - n
  unfolding drop
  length-drop zero xs = omega arith
  length-drop (suc n) [] = omega arith
  length-drop (suc n) (x ∷ xs) = omega (arith, length-drop n xs)

-- What an applied Maintain did.
pub record Retired (now : ℕ) (p : MaintenancePolicy) (s t : Store) (r : MaintenanceReport)
    : Type 0 where
  pub plans_gone : length t.plans + r.expired_plans ≡ length s.plans
  pub invites_gone : length t.invites + r.unreferenced_invites ≡ length s.invites
  pub audit_gone : length t.audit + r.old_audit_rows ≡ length s.audit + 1
  pub audit_left : p.minimum_audit_rows ≤ length s.audit → p.minimum_audit_rows ≤ length t.audit
  pub instances_left : t.instances ≡ s.instances
  pub inbox_left : t.inbox ≡ s.inbox
  pub enrollments_left : t.enrollments ≡ s.enrollments

retire-Retired :
    (now : ℕ) (stamp : String) (p : MaintenancePolicy) (s : Store)
    → Retired now p s (retire now stamp p s) (maintenance_report p s)
unfolding retire maintenance_report older_rows newest_rows add_audit
retire-Retired now stamp p s =
    let cutoff = cutoff_of p.before in
    let n = length s.audit - p.minimum_audit_rows in
    let kept = delete_where (audit_old cutoff) (take n s.audit) in
    let deleted = length-delete_where (audit_old cutoff) (take n s.audit) in
    let whole = length-take-drop n s.audit in
    let tail = length-drop n s.audit in
    record {
      plans_gone = length-delete_where (plan_expired cutoff) s.plans;
      invites_gone = length-delete_where (invite_retired cutoff s.enrollments) s.invites;
      audit_gone = omega (
        arith,
        deleted,
        whole,
        length-append kept (drop n s.audit),
        length-append (kept ++ drop n s.audit)
            (record { time = seconds now; event = "maintenance.compact"; target = stamp } ∷ []),
      );
      audit_left = λ h. omega (
        arith,
        tail,
        h,
        length-append kept (drop n s.audit),
        length-append (kept ++ drop n s.audit)
            (record { time = seconds now; event = "maintenance.compact"; target = stamp } ∷ []),
      );
      instances_left = refl;
      inbox_left = refl;
      enrollments_left = refl;
    }

maintain-parts :
    (now : ℕ) (stamp : String) (p : MaintenancePolicy) (s t : Store) (r : MaintenanceReport)
    → maintain now stamp p true s ≡ ok (t, r)
    → (validate_policy now p ≡ ok tt)
      × (t ≡ retire now stamp p s)
      × (r ≡ record (maintenance_report p s) { applied = true })
unfolding maintain
maintain-parts now stamp p s t r h =
    let (_, e, h1) = >>=-eq-ok (validate_policy now p) _ h in
    let q = ok-injective h1 in
    (
      e,
      ap (λ (x : Store × MaintenanceReport). x.0) (sym q),
      ap (λ (x : Store × MaintenanceReport). x.1) (sym q),
    )

-- An applied Maintain takes from the plans, the invitations and the audit exactly as many rows
-- as it reports, adds one row to the audit, leaves the minimum of audit rows where there were as
-- many, and leaves the instances, the inbox and the enrolments as they are; a dry run before it
-- reports the same numbers and changes nothing.
pub maintain-Retired :
    (now : ℕ) (stamp : String) (p : MaintenancePolicy) (s t : Store) (r : MaintenanceReport)
    → maintain now stamp p true s ≡ ok (t, r)
    → Retired now p s t r × (maintain now stamp p false s ≡ ok (s, record r { applied = false }))
unfolding maintain
maintain-Retired now stamp p s t r h =
    let (e, f, g) = maintain-parts now stamp p s t r h in
    let done = retire-Retired now stamp p s in
    (
      subst (λ x. Retired now p s x r) (sym f)
          (subst (Retired now p s (retire now stamp p s)) (sym g) (record {
            plans_gone = done.plans_gone;
            invites_gone = done.invites_gone;
            audit_gone = done.audit_gone;
            audit_left = done.audit_left;
            instances_left = done.instances_left;
            inbox_left = done.inbox_left;
            enrollments_left = done.enrollments_left;
          })),
      rw e (ap (λ (x : MaintenanceReport). ok (s, record x { applied = false })) (sym g)),
    )

find_invite-delete_where :
    (cutoff : ℕ) (enrollments : List EnrollmentRow) (id : String) (rows : List InviteRow)
    → referenced id enrollments ≡ true
    → find_invite id (delete_where (invite_retired cutoff enrollments) rows) ≡ find_invite id rows
unfolding find_invite delete_where invite_retired
find_invite-delete_where cutoff enrollments id [] h = refl
find_invite-delete_where cutoff enrollments id (i ∷ rows) h =
    let rest = find_invite-delete_where cutoff enrollments id rows h in
    elim (Bool-cases (str_eq i.id id)) [
      | inl e ↦
          let q : referenced i.id enrollments ≡ true =
            ap (λ x. referenced x enrollments) ((eq_iff i.id id).0 e) ∙ h in
          let k : invite_retired cutoff enrollments i ≡ false = ground arith in rw k (rw e refl)
      | inr e ↦ elim (Bool-cases (invite_retired cutoff enrollments i)) [
        | inl f ↦ rw f (rw e rest)
        | inr f ↦ rw f (rw e rest)
      ]
    ]

-- An applied Maintain leaves the invitation of every enrolment as it is.
pub maintain-invite :
    (now : ℕ) (stamp id : String) (p : MaintenancePolicy) (s t : Store) (r : MaintenanceReport)
    → referenced id s.enrollments ≡ true
    → maintain now stamp p true s ≡ ok (t, r)
    → find_invite id t.invites ≡ find_invite id s.invites
unfolding retire
maintain-invite now stamp id p s t r h m =
    let (_, f, _) = maintain-parts now stamp p s t r m in
    ap (λ (x : Store). find_invite id x.invites) f
    ∙ find_invite-delete_where (cutoff_of p.before) s.enrollments id s.invites h

pub maintain-IsSafe :
    (now : ℕ) (stamp : String) (p : MaintenancePolicy) (apply : Bool) (s t : Store)
    (r : MaintenanceReport)
    → IsSafe s
    → maintain now stamp p apply s ≡ ok (t, r)
    → IsSafe t
unfolding maintain retire
maintain-IsSafe now stamp p apply s t r v h =
    let (_, _, h1) = >>=-eq-ok (validate_policy now p) _ h in
    elim (Bool-cases apply) [
      | inl e ↦
          subst IsSafe (ap (λ (x : Store × MaintenanceReport). x.0) (ok-injective (rw e at h1)))
            (IsSafe-same _ s refl refl v)
      | inr e ↦
          subst IsSafe (ap (λ (x : Store × MaintenanceReport). x.0) (ok-injective (rw e at h1))) v
    ]
