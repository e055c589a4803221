-- ===== src/Store/Submit.antt =====
-- internal/core/task.go: `SubmitTask`.
use Prim.Native.String.{◌++◌ as str_append}
use runner_loom.Base.{
  ℕ, suc, Bool, false, not, ◌&&◌, ◌||◌, String, Option, none, some, List, [], ◌∷◌, leb, str_eq,
  str_lt, is_some, Result, ok, err, fail, plain, require, or_fail, ◌>>=◌, ◌>>◌, if◌then◌else◌,
}
use runner_loom.Base.Int64.{pos, eq_ℤ}
use runner_loom.Config.{Config, Pool, find_pool}
use runner_loom.Config.Names.{valid_name}
use runner_loom.Config.Validate.Check.{Platform}
use runner_loom.Task.{Task, TaskSpec, TaskPayload}
use runner_loom.Task.Spec.{validate_spec}
use runner_loom.Task.Title.{task_title}
use runner_loom.Store.{Store, TaskRow, read_config, read_instances, add_audit}
use runner_loom.Store.Seal.{sealed}
use runner_loom.Store.Tasks.{queued_tasks, dispatch}
use runner_loom.Store.Tasks.View.{TaskView, read_task}

-- `SELECT … FROM tasks WHERE client=? AND request=?`.
unfoldable pub find_request : String → String → List TaskRow → Option TaskRow
find_request client request [] = none
find_request client request (r ∷ rows) =
    if str_eq r.payload.client client && str_eq r.payload.request_id request
    then some r
    else find_request client request rows

-- `SELECT COUNT(*) FROM tasks WHERE client=? AND secret IS NOT NULL`.
unfoldable pub open_count : String → List TaskRow → ℕ
open_count client [] = 0
open_count client (r ∷ rows) =
    let rest = open_count client rows in
    if str_eq r.payload.client client && is_some r.secret then suc rest else rest

abbrev pub max_client_tasks : ℕ
max_client_tasks = 64

unfoldable pub may_queue : Pool → Result (Unit {0})
may_queue p = do require p.tasks (fail "TASK_POOL"); require p.enabled (fail "POOL_DISABLED")

unfoldable pub new_task : ℕ → String → String → String → TaskSpec → Task
unfolding task_title
new_task now id client hash spec = record {
  id = id;
  client = client;
  request_id = spec.request_id;
  pool = spec.pool;
  agent = spec.agent.name;
  title = task_title spec.prompt;
  repository = spec.repository;
  base_ref = spec.base_ref;
  branch = spec.branch;
  pull_request = spec.pull_request;
  spec_hash = hash;
  instance_id = "";
  cancelled = false;
  expired = false;
  created = now;
  updated = now;
  progress_at = none;
}

-- `INSERT INTO tasks`: the ID is the table's key, and the table is in its order.
unfoldable pub task_taken : String → List TaskRow → Bool
task_taken id [] = false
task_taken id (r ∷ rows) = str_eq r.payload.id id || task_taken id rows

unfoldable pub place_task_row : TaskRow → List TaskRow → List TaskRow
place_task_row r [] = r ∷ []
place_task_row r (q ∷ rows) =
    if str_lt q.payload.id r.payload.id then q ∷ place_task_row r rows else r ∷ q ∷ rows

unfoldable pub new_row : Task → TaskSpec → TaskRow
new_row t spec = record {
  payload = t;
  secret = some (sealed (str_append t.id ":payload") (record { id = t.id; spec = spec }));
  outcome = none;
  progress = none;
}

unfoldable pub insert_task_row : Task → TaskSpec → Store → Result Store
unfolding task_taken place_task_row new_row
insert_task_row t spec s =
    if task_taken t.id s.tasks
    then err (plain "UNIQUE constraint failed")
    else ok (record s { tasks = place_task_row (new_row t spec) s.tasks })

-- An older task of the same Pool waits.
unfoldable pub has_older : Task → List Task → Bool
has_older t [] = false
has_older t (q ∷ queued) = str_eq q.pool t.pool && not (str_eq q.id t.id) || has_older t queued

-- The new task is placed at once when no older one of its Pool waits. `vm` is the fresh ID of a VM.
unfoldable pub place_now : Config → ℕ → String → Task → Store → Result Store
unfolding has_older dispatch
place_now c now vm t s =
    if has_older t (queued_tasks s.tasks)
    then ok s
    else (dispatch c (read_instances s) now vm t s >>= λ z. ok z.0)

-- The transaction for a request that is not known.
unfoldable pub submit_new : ℕ → String → String → String → String → TaskSpec → Store → Result Store
unfolding may_queue open_count new_task insert_task_row place_now add_audit
submit_new now id vm client hash spec s = do
  let (c, revision) = read_config s
  require (not (eq_ℤ revision (pos 0))) (fail "NOT_CONFIGURED")
  p ← or_fail (find_pool c.pools spec.pool) (fail "TASK_POOL")
  may_queue p
  require (not (leb max_client_tasks (open_count client s.tasks))) (fail "TASK_LIMIT")
  let t = new_task now id client hash spec
  u ← insert_task_row t spec s
  place_now c now vm t (add_audit now "task.submit" (str_append client (str_append "/" id)) u)

-- The transaction: the database behind it, and the ID of the task.
unfoldable pub submit_row :
    ℕ
    → String
    → String
    → String
    → String
    → TaskSpec
    → Option TaskRow
    → Store
    → Result (Store × String)
unfolding submit_new
submit_row now id vm client hash spec (some r) s =
    if str_eq r.payload.spec_hash hash
    then ok (s, r.payload.id)
    else err (fail "IDEMPOTENCY_CONFLICT")
submit_row now id vm client hash spec none s = do
  t ← submit_new now id vm client hash spec s
  ok (t, id)

-- `SubmitTask`. `id` and `vm` are fresh IDs, and `spec_hash` is the hash of a task's JSON.
unfoldable pub submit_task :
    Platform
    → (TaskPayload → ℕ)
    → (TaskSpec → String)
    → ℕ
    → String
    → String
    → String
    → TaskSpec
    → Store
    → Result (Store × TaskView)
unfolding find_request submit_row validate_spec read_task
submit_task e payload_size spec_hash now id vm client spec s = do
  require (valid_name client) (fail "CLIENT_UNAUTHORIZED")
  validate_spec e payload_size spec
  (t, known) ←
      submit_row now id vm client (spec_hash spec) spec
        (find_request client spec.request_id s.tasks) s
  v ← read_task now client known false t
  ok (t, v)
