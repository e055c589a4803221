-- ===== src/Store/Tasks/Report.antt =====
-- internal/core/task.go: `CancelTask` and `ReportTask`.
use runner_loom.Base.{
  ℕ, Bool, true, false, not, ◌&&◌, ◌||◌, String, Option, none, some, List, [], ◌∷◌, ltb, str_eq,
  len, is_some, Result, ok, fail, require, or_fail, ◌>>=◌, ◌>>◌, if◌then◌else◌,
}
use Prim.Native.String.{◌++◌ as str_append}
use runner_loom.Config.Names.{valid_name, valid_id}
use runner_loom.Config.Validate.Check.{Platform}
use runner_loom.Instance.{Instance, State, is_deleted, is_deleting}
use runner_loom.Task.{Task, TaskResult}
use runner_loom.Task.State.{bind_result}
use runner_loom.Task.Check.{result_valid}
use runner_loom.Store.{
  Store, InstanceRow, TaskRow, find_task, find_row, read_instances, save_instance, add_audit,
}
use runner_loom.Store.Seal.{Sealed, sealed}
use runner_loom.Store.Tasks.{save_task, drop_secret}

unfoldable pub is_over : Instance → Bool
is_over a = is_deleting a.state || is_deleted a.state

-- Nothing is left to cancel: the VM does not exist, is being deleted or is gone.
unfoldable pub past_cancel : Option InstanceRow → Bool
unfolding is_over
past_cancel none = true
past_cancel (some r) = is_over r.payload

-- The loop that asks the Node to stop the task's VM.
unfoldable pub stop_runs : ℕ → String → List Instance → Store → Store
unfolding is_over
stop_runs now id [] s = s
stop_runs now id (a ∷ runs) s = stop_runs now id runs (
    if str_eq a.id id && not (is_over a)
    then save_instance (record a { state = State.stopping; updated = now }) s
    else s)

unfoldable pub cancel_row : ℕ → TaskRow → Store → Store
unfolding save_task drop_secret stop_runs past_cancel add_audit
cancel_row now r s =
    let t = r.payload in
    let marked = save_task (record t { cancelled = true; updated = now }) s in
    if t.cancelled || t.expired || is_some r.outcome
    then s
    else if str_eq t.instance_id ""
    then drop_secret t.id marked
    else if past_cancel (find_row t.instance_id s.instances)
    then s
    else add_audit now "task.cancel" t.id (stop_runs now t.instance_id (read_instances s) marked)

-- `CancelTask`. The client "" is the local administrator.
unfoldable pub cancel_task : ℕ → String → String → Store → Result Store
unfolding cancel_row
cancel_task now client id s = do
  require (valid_id id) (fail "TASK_NOT_FOUND")
  r ← or_fail (find_task id s.tasks) (fail "TASK_NOT_FOUND")
  require (str_eq client "" || str_eq r.payload.client client) (fail "TASK_NOT_FOUND")
  ok (cancel_row now r s)

pub record TaskReport : Type 0 where
  pub run : String
  pub progress : String
  pub outcome : Option TaskResult

-- `node` owns the VM, and the VM runs the task.
unfoldable pub owns : String → String → Task → Option InstanceRow → Bool
owns node id t none = false
owns node id t (some a) =
    str_eq a.payload.task id && str_eq t.instance_id a.payload.id && str_eq a.payload.node node

unfoldable pub takes_progress : State → Bool
takes_progress State.provisioning = true
takes_progress State.idle = true
takes_progress State.busy = true
takes_progress State.stopping = true
takes_progress _ = false

unfoldable pub put_progress : String → Sealed String → List TaskRow → List TaskRow
put_progress id box [] = []
put_progress id box (r ∷ rows) =
    (if str_eq r.payload.id id then record r { progress = some box } else r)
    ∷ put_progress id box rows

unfoldable pub put_outcome : String → Sealed TaskResult → List TaskRow → List TaskRow
put_outcome id box [] = []
put_outcome id box (r ∷ rows) =
    (if str_eq r.payload.id id then record r { outcome = some box } else r)
    ∷ put_outcome id box rows

-- The first half of the transaction. The task it hands on carries the time of the progress.
unfoldable pub note_progress : ℕ → String → Task → String → Instance → Store → Store × Task
unfolding takes_progress put_progress save_task
note_progress now id t progress a s =
    let seen = record t { progress_at = some now } in
    let u = save_task seen s in
    if not (str_eq progress "") && takes_progress a.state
    then (
      record u { tasks = put_progress id (sealed (str_append id ":progress") progress) u.tasks },
      seen,
    )
    else (s, t)

unfoldable pub keep_outcome : Platform → ℕ → String → TaskResult → Task → Store → Result Store
unfolding put_outcome save_task bind_result
keep_outcome e now id r t s = do
  bound ← bind_result e t r
  let u = save_task (record t { updated = now }) s
  ok (record u { tasks = put_outcome id (sealed (str_append id ":result") bound) u.tasks })

-- The second half: one result, after the host has confirmed that the VM is down.
unfoldable pub note_outcome :
    Platform → ℕ → String → Bool → Option TaskResult → Instance → Store × Task → Result Store
unfolding is_over keep_outcome
note_outcome e now id known none a (s, t) = ok s
note_outcome e now id known (some r) a (s, t) = do
  require (is_over a) (fail "TASK_STILL_RUNNING")
  if known then ok s else keep_outcome e now id r t s

unfoldable pub well_formed : String → String → TaskReport → Bool
well_formed node id r =
    valid_name node
    && valid_id id
    && valid_id r.run
    && not (ltb 32768 (len r.progress))
    && (not (str_eq r.progress "") || is_some r.outcome)

unfoldable pub valid_outcome : Platform → Option TaskResult → Bool
valid_outcome e none = true
valid_outcome e (some r) = result_valid e r

-- `ReportTask`.
unfoldable pub report_task : Platform → ℕ → String → String → TaskReport → Store → Result Store
unfolding well_formed valid_outcome owns note_progress note_outcome
report_task e now node id r s = do
  require (well_formed node id r) (fail "TASK_REPORT")
  require (valid_outcome e r.outcome) (fail "TASK_RESULT")
  row ← or_fail (find_task id s.tasks) (fail "TASK_NOT_FOUND")
  require (owns node id row.payload (find_row r.run s.instances)) (fail "TASK_NOT_OWNED")
  a ← or_fail (find_row r.run s.instances) (fail "TASK_NOT_OWNED")
  note_outcome e now id (is_some row.outcome) r.outcome a.payload
      (note_progress now id row.payload r.progress a.payload s)
