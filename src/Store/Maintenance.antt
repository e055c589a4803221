-- ===== src/Store/Maintenance.antt =====
-- internal/core/maintenance.go: which bookkeeping `Maintain` retires. The compaction of the file
-- behind the transaction changes no row and is left out.
use runner_loom.Base.{
  ℕ, zero, suc, ◌+◌, ◌-◌, Bool, true, false, not, ◌&&◌, ◌||◌, String, List, [], ◌∷◌, ◌++◌, ltb, leb,
  str_eq, length, Result, ok, plain, require, ◌>>◌, if◌then◌else◌, Option, none, some,
}
use runner_loom.Store.{Store, Plan, InviteRow, AuditRow, EnrollmentRow, seconds, add_audit}

pub record MaintenancePolicy : Type 0 where
  pub before : Option ℕ
  pub minimum_audit_rows : ℕ

pub record MaintenanceReport : Type 0 where
  pub applied : Bool
  pub expired_plans : ℕ
  pub unreferenced_invites : ℕ
  pub old_audit_rows : ℕ
  pub protected_instances : ℕ
  pub protected_inbox_rows : ℕ
  pub protected_enrollments : ℕ

-- 24 hours.
abbrev pub day : ℕ
day = 86400000000000

-- `validate`; `none` is Go's zero time.
unfoldable pub is_long_ago : ℕ → Option ℕ → Bool
is_long_ago now none = false
is_long_ago now (some before) = leb (before + day) now

unfoldable pub validate_policy : ℕ → MaintenancePolicy → Result (Unit {0})
unfolding is_long_ago
validate_policy now p = do
  require (is_long_ago now p.before)
      (plain "maintenance cutoff must be at least 24 hours in the past")
  require (leb 1 p.minimum_audit_rows && leb p.minimum_audit_rows 1000000)
      (plain "minimum audit rows must be between 1 and 1000000")

unfoldable pub referenced : String → List EnrollmentRow → Bool
referenced id [] = false
referenced id (r ∷ rows) = str_eq r.invite id || referenced id rows

module _ (cutoff : ℕ) where
  unfoldable pub plan_expired : Plan → Bool
  plan_expired p = ltb p.expires cutoff

  unfoldable pub invite_retired : List EnrollmentRow → InviteRow → Bool
  unfolding referenced
  invite_retired enrollments i = ltb i.expires cutoff && not (referenced i.id enrollments)

  unfoldable pub audit_old : AuditRow → Bool
  audit_old a = ltb a.time cutoff

module _ {A : Type 0} where
  -- `SELECT COUNT(*) … WHERE`.
  unfoldable pub count : (A → Bool) → List A → ℕ
  count p [] = 0
  count p (x ∷ xs) = let rest = count p xs in if p x then suc rest else rest

  -- `DELETE … WHERE`.
  unfoldable pub delete_where : (A → Bool) → List A → List A
  delete_where p [] = []
  delete_where p (x ∷ xs) = let rest = delete_where p xs in if p x then rest else x ∷ rest

  -- The rows outside the newest `kept`, in the order of their IDs, and the newest ones.
  unfoldable pub take : ℕ → List A → List A
  take zero xs = []
  take (suc n) [] = []
  take (suc n) (x ∷ xs) = x ∷ take n xs

  unfoldable pub drop : ℕ → List A → List A
  drop zero xs = xs
  drop (suc n) [] = []
  drop (suc n) (x ∷ xs) = drop n xs

unfoldable pub older_rows : ℕ → List AuditRow → List AuditRow
unfolding take
older_rows kept rows = take (length rows - kept) rows

unfoldable pub newest_rows : ℕ → List AuditRow → List AuditRow
unfolding drop
newest_rows kept rows = drop (length rows - kept) rows

-- In seconds.
unfoldable pub cutoff_of : Option ℕ → ℕ
cutoff_of none = 0
cutoff_of (some before) = seconds before

-- `maintenanceReport`.
unfoldable pub maintenance_report : MaintenancePolicy → Store → MaintenanceReport
unfolding cutoff_of count plan_expired invite_retired audit_old older_rows
maintenance_report p s =
    let cutoff = cutoff_of p.before in
    record {
      applied = false;
      expired_plans = count (plan_expired cutoff) s.plans;
      unreferenced_invites = count (invite_retired cutoff s.enrollments) s.invites;
      old_audit_rows = count (audit_old cutoff) (older_rows p.minimum_audit_rows s.audit);
      protected_instances = length s.instances;
      protected_inbox_rows = length s.inbox;
      protected_enrollments = length s.enrollments;
    }

-- The transaction of `Maintain`. `stamp` is the cutoff as a text.
unfoldable pub retire : ℕ → String → MaintenancePolicy → Store → Store
unfolding cutoff_of delete_where plan_expired invite_retired audit_old older_rows newest_rows
    add_audit
retire now stamp p s =
    let cutoff = cutoff_of p.before in
    add_audit now "maintenance.compact" stamp (record s {
      plans = delete_where (plan_expired cutoff) s.plans;
      invites = delete_where (invite_retired cutoff s.enrollments) s.invites;
      audit =
          delete_where (audit_old cutoff) (older_rows p.minimum_audit_rows s.audit)
          ++ newest_rows p.minimum_audit_rows s.audit;
    })

-- `Maintain`, up to the compaction.
unfoldable pub maintain :
    ℕ → String → MaintenancePolicy → Bool → Store → Result (Store × MaintenanceReport)
unfolding validate_policy maintenance_report retire
maintain now stamp p apply s = do
  validate_policy now p
  let report = maintenance_report p s
  if apply then ok (retire now stamp p s, record report { applied = true }) else ok (s, report)
