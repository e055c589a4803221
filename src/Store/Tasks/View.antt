-- ===== src/Store/Tasks/View.antt =====
-- internal/core/task.go: what a client sees of one task, `Store.Task` through `viewTask`.
use runner_loom.Base.{
  ℕ, Bool, ◌||◌, String, Option, none, some, str_eq, Result, ok, fail, require, or_fail, ◌>>=◌,
  ◌>>◌, if◌then◌else◌,
}
use Prim.Native.String.{◌++◌ as str_append}
use runner_loom.Config.Names.{valid_id}
use runner_loom.Instance.{Instance}
use runner_loom.Task.{Task, TaskResult}
use runner_loom.Task.State.{TaskState, derive_task_state}
use runner_loom.Store.{Store, InstanceRow, TaskRow, find_task, find_row}
use runner_loom.Store.Seal.{Sealed, unseal}

-- The stored task with the fields that are derived for a reader.
pub record TaskView : Type 0 where
  pub task : Task
  pub node : String
  pub deadline : Option ℕ
  pub state : TaskState
  pub progress : String
  pub outcome : Option TaskResult

unfoldable pub shorten : Bool → TaskResult → TaskResult
shorten detail r = if detail then r else record r { output = ""; patch = ""; diff_stat = "" }

unfoldable pub view_outcome :
    String → Bool → Option (Sealed TaskResult) → Result (Option TaskResult)
unfolding shorten
view_outcome id detail none = ok none
view_outcome id detail (some box) = do
  r ← unseal (str_append id ":result") (some box)
  ok (some (shorten detail r))

unfoldable pub view_progress : String → Bool → Option (Sealed String) → Result String
view_progress id detail none = ok ""
view_progress id detail (some box) =
    if detail then unseal (str_append id ":progress") (some box) else ok ""

abbrev pub vm_of : Option InstanceRow → Option Instance
vm_of none = none
vm_of (some r) = some r.payload

abbrev pub node_of : Option Instance → String
node_of none = ""
node_of (some a) = a.node

abbrev pub deadline_of : Option Instance → Option ℕ
deadline_of none = none
deadline_of (some a) = some a.deadline

-- `viewTask`.
unfoldable pub view_task : ℕ → TaskRow → Option Instance → Bool → Result TaskView
unfolding view_outcome view_progress derive_task_state
view_task now r a detail = do
  outcome ← view_outcome r.payload.id detail r.outcome
  progress ← view_progress r.payload.id detail r.progress
  ok (record {
    task = r.payload;
    node = node_of a;
    deadline = deadline_of a;
    state = derive_task_state r.payload a outcome now;
    progress = progress;
    outcome = outcome;
  })

unfoldable pub vm_of_task : Task → Store → Option Instance
vm_of_task t s =
    if str_eq t.instance_id "" then none else vm_of (find_row t.instance_id s.instances)

-- `Store.Task`: another client's task is not found. The client "" is the local administrator.
unfoldable pub read_task : ℕ → String → String → Bool → Store → Result TaskView
unfolding view_task vm_of_task
read_task now client id detail s = do
  require (valid_id id) (fail "TASK_NOT_FOUND")
  r ← or_fail (find_task id s.tasks) (fail "TASK_NOT_FOUND")
  require (str_eq client "" || str_eq r.payload.client client) (fail "TASK_NOT_FOUND")
  view_task now r (vm_of_task r.payload s) detail
