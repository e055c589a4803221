-- ===== src/Safety/Reports.antt =====
-- `CancelTask` keeps the database sound, and `ReportTask` cannot change a VM.
use runner_loom.Base.{
  ℕ, Bool, true, false, not, ◌&&◌, ◌||◌, String, Option, none, some, List, [], ◌∷◌, ◌≡◌, refl, ap,
  ◌∙◌, sym, subst, inl, inr, str_eq, In, All, All-of_members, arith, Bool-cases, ok, fail, is_some,
  contains, require, or_fail, ok-injective, >>=-eq-ok, eq_iff,
}
use runner_loom.Config.Validate.Check.{Platform}
use runner_loom.Instance.{Instance, State}
use runner_loom.Task.{Task, TaskResult}
use runner_loom.Task.State.{bind_result}
use runner_loom.Store.{Store, TaskRow, find_task, find_row, read_instances}
use runner_loom.Store.Tasks.{save_task}
use runner_loom.Store.Tasks.Report.{
  TaskReport, stop_runs, is_over, past_cancel, cancel_row, cancel_task, report_task, note_progress,
  note_outcome, keep_outcome, takes_progress, well_formed, valid_outcome, owns,
}
use runner_loom.Config.Names.{valid_id}
use runner_loom.Ledger.{keys, Distinct}
use runner_loom.Store.Sync.Moves.{Same}
use runner_loom.Safety.{IsSafe}
use runner_loom.Safety.Operations.{save-IsSafe}
use runner_loom.Safety.Tasks.{IsSafe-same}

-- What a task report may write: the tasks, nothing else.
abbrev pub OnlyTasks : Store → Store → Type 0
OnlyTasks t s = t ≡ record s { tasks = t.tasks }

note_progress-OnlyTasks :
    (now : ℕ) (id : String) (t : Task) (progress : String) (a : Instance) (s : Store)
    → OnlyTasks (note_progress now id t progress a s).0 s
unfolding note_progress
note_progress-OnlyTasks now id t progress a s =
    elim (Bool-cases (not (str_eq progress "") && takes_progress a.state)) [
      | inl e ↦ rw e refl
      | inr e ↦ rw e refl
    ]

note_outcome-OnlyTasks :
    (e : Platform) (now : ℕ) (id : String) (known : Bool) (r : Option TaskResult) (a : Instance)
    (s u : Store) (t : Task)
    → note_outcome e now id known r a (s, t) ≡ ok u
    → OnlyTasks u s
unfolding note_outcome keep_outcome
note_outcome-OnlyTasks e now id known none a s u t h =
    subst (λ x. OnlyTasks x s) (ok-injective h) refl
note_outcome-OnlyTasks e now id known (some r) a s u t h =
    let (_, _, h1) = >>=-eq-ok (require (is_over a) (fail "TASK_STILL_RUNNING")) _ h in
    elim (Bool-cases known) [
      | inl q ↦ subst (λ x. OnlyTasks x s) (ok-injective (rw q at h1)) refl
      | inr q ↦
          let (b, _, h2) = >>=-eq-ok (bind_result e t r) _ (rw q at h1) in
          subst (λ x. OnlyTasks x s) (ok-injective h2) refl
    ]

-- A report that ReportTask accepts changes the table of tasks at most: no VM, Node, demand or
-- configuration.
pub report_task-OnlyTasks :
    (e : Platform) (now : ℕ) (node id : String) (r : TaskReport) (s t : Store)
    → report_task e now node id r s ≡ ok t
    → OnlyTasks t s
unfolding report_task
report_task-OnlyTasks e now node id r s t h =
    let (_, _, h1) = >>=-eq-ok (require (well_formed node id r) (fail "TASK_REPORT")) _ h in
    let (_, _, h2) = >>=-eq-ok (require (valid_outcome e r.outcome) (fail "TASK_RESULT")) _ h1 in
    let (row, _, h3) = >>=-eq-ok (or_fail (find_task id s.tasks) (fail "TASK_NOT_FOUND")) _ h2 in
    let (_, _, h4) =
      >>=-eq-ok
        (require (owns node id row.payload (find_row r.run s.instances)) (fail "TASK_NOT_OWNED")) _
        h3 in
    let (a, _, h5) =
      >>=-eq-ok (or_fail (find_row r.run s.instances) (fail "TASK_NOT_OWNED")) _ h4 in
    let noted = note_progress now id row.payload r.progress a.payload s in
    let p = note_progress-OnlyTasks now id row.payload r.progress a.payload s in
    let q =
      note_outcome-OnlyTasks e now id (is_some row.outcome) r.outcome a.payload noted.0 t noted.1
        h5 in
    q ∙ ap (λ (x : Store). record x { tasks = t.tasks }) p

-- The loop of `CancelTask` acts on the VM of one ID.
pub stop_runs-absent :
    (now : ℕ) (id : String) (runs : List Instance) (s : Store)
    → contains (keys (λ a. a.id) runs) id ≡ false
    → stop_runs now id runs s ≡ s
unfolding stop_runs
stop_runs-absent now id [] s h = refl
stop_runs-absent now id (a ∷ runs) s h = ground (arith, stop_runs-absent now id runs s)

stop_runs-IsSafe :
    (now : ℕ) (id : String) (runs : List Instance) (s : Store)
    → IsSafe s
    → All (λ a. In a (read_instances s)) runs
    → Distinct (λ a. a.id) runs
    → IsSafe (stop_runs now id runs s)
unfolding stop_runs
stop_runs-IsSafe now id [] s v m d = v
stop_runs-IsSafe now id (a ∷ runs) s v m d = elim (Bool-cases (str_eq a.id id && not (is_over a))) [
  | inr e ↦ rw e (stop_runs-IsSafe now id runs s v m.1 d.1)
  | inl e ↦ rw e (
      subst IsSafe (sym (stop_runs-absent now id runs _ (gone e)))
        (save-IsSafe (record a { state = State.stopping; updated = now }) a s v m.0 same refl))
]
  where
    gone : (str_eq a.id id && not (is_over a)) ≡ true → contains (keys (λ a. a.id) runs) id ≡ false
    gone e =
        let q : a.id ≡ id = (eq_iff a.id id).0 (ground arith) in
        subst (λ x. contains (keys (λ a. a.id) runs) x ≡ false) q d.0

    same : Same (record a { state = State.stopping; updated = now }) a
    same = record {
      same_id = refl;
      same_request = refl;
      same_node = refl;
      same_pool = refl;
      same_image = refl;
      same_reservation = refl;
      same_task = refl;
      same_deadline = refl;
    }

cancel_row-IsSafe : (now : ℕ) (r : TaskRow) (s : Store) → IsSafe s → IsSafe (cancel_row now r s)
unfolding cancel_row
cancel_row-IsSafe now r s v =
    elim (Bool-cases (r.payload.cancelled || r.payload.expired || is_some r.outcome)) [
      | inl e ↦ rw e v
      | inr e ↦ rw e (elim (Bool-cases (str_eq r.payload.instance_id "")) [
        | inl f ↦ rw f (IsSafe-same _ s refl refl v)
        | inr f ↦
            rw f (elim (Bool-cases (past_cancel (find_row r.payload.instance_id s.instances))) [
              | inl g ↦ rw g v
              | inr g ↦ rw g (IsSafe-same _ stopped refl refl stopped-IsSafe)
            ])
      ])
    ]
  where
    marked : Store
    marked = save_task (record r.payload { cancelled = true; updated = now }) s

    stopped : Store
    stopped = stop_runs now r.payload.instance_id (read_instances s) marked

    stopped-IsSafe : IsSafe stopped
    stopped-IsSafe =
        stop_runs-IsSafe now r.payload.instance_id (read_instances s) marked
          (IsSafe-same _ s refl refl v)
          (All-of_members (λ a. In a (read_instances s)) (read_instances s) (λ a m. m)) v.distinct

-- A successful CancelTask on a sound database leaves a sound database.
pub cancel_task-IsSafe :
    (now : ℕ) (client id : String) (s t : Store)
    → IsSafe s
    → cancel_task now client id s ≡ ok t
    → IsSafe t
unfolding cancel_task
cancel_task-IsSafe now client id s t v h =
    let (_, _, h1) = >>=-eq-ok (require (valid_id id) (fail "TASK_NOT_FOUND")) _ h in
    let (r, _, h2) = >>=-eq-ok (or_fail (find_task id s.tasks) (fail "TASK_NOT_FOUND")) _ h1 in
    let (_, _, h3) =
      >>=-eq-ok
        (require (str_eq client "" || str_eq r.payload.client client) (fail "TASK_NOT_FOUND")) _
        h2 in
    subst IsSafe (ok-injective h3) (cancel_row-IsSafe now r s v)
