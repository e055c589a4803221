-- ===== src/Store/Tasks.antt =====
-- internal/core/task.go: placement, cancellation, reports and views of tasks.
pub mod Report
pub mod View
use runner_loom.Base.{
  ℕ, zero, suc, ◌+◌, ◌-◌, ◌==◌, Bool, true, false, not, ◌&&◌, ◌||◌, String, Option, none, some,
  List, [], ◌∷◌, ◌++◌, ltb, str_eq, str_lt, contains, len, is_some, Result, ok, err, fail, plain,
  require, or_fail, ◌>>=◌, ◌>>◌, if◌then◌else◌,
}
use Prim.Native.String.{◌++◌ as str_append}
use runner_loom.Base.Int64.{ℤ, pos, eq_ℤ}
use runner_loom.Config.{Config, Pool, find_pool}
use runner_loom.Config.Names.{valid_name, valid_id}
use runner_loom.Config.Validate.Check.{Platform}
use runner_loom.Instance.{Instance, State, is_deleted, is_deleting}
use runner_loom.Scheduler.Place.{place}
use runner_loom.Task.{Task, TaskResult}
use runner_loom.Task.State.{TaskState, derive_task_state, bind_result}
use runner_loom.Task.Check.{result_valid}
use runner_loom.Store.{
  Store, TaskRow, find_task, find_row, read_config, read_instances, read_nodes, insert_instance,
  save_instance, add_audit,
}
use runner_loom.Store.Seal.{Sealed, sealed, unseal}
use runner_loom.Store.Sync.Report.{erase_secret}

-- `UPDATE tasks SET payload=? WHERE id=?`; the derived fields are not part of `Task` here.
unfoldable pub save_task_row : Task → List TaskRow → List TaskRow
save_task_row t [] = []
save_task_row t (r ∷ rows) =
    (if str_eq r.payload.id t.id then record r { payload = t } else r) ∷ save_task_row t rows

unfoldable pub save_task : Task → Store → Store
unfolding save_task_row
save_task t s = record s { tasks = save_task_row t s.tasks }

-- `UPDATE tasks SET secret=NULL WHERE id=?`.
unfoldable pub drop_secret : String → Store → Store
drop_secret id s = record s { tasks = erase_secret id s.tasks }

-- The VM that `dispatchTx` writes: it needs no registration.
abbrev pub for_task : Task → Instance → Instance
for_task t a = record a { task = t.id; state = State.provisioning; jit_ready = true }

unfoldable pub dispatch_at : ℕ → Task → Instance → Store → Result (Store × Option (Instance × Task))
unfolding save_task add_audit
dispatch_at now t a s = do
  u ← insert_instance (for_task t a) s
  let placed = record t { instance_id = a.id; updated = now }
  ok (
    add_audit now "task.place" (str_append t.id (str_append "/" a.id)) (save_task placed u),
    some (for_task t a, placed),
  )

unfoldable pub is_no_capacity : Result Instance → Bool
is_no_capacity (err (fail code)) = str_eq code "NO_CAPACITY"
is_no_capacity _ = false

-- `dispatchTx`: a task that finds no room stays queued. `id` is the fresh ID of the VM.
unfoldable pub dispatch_pool :
    Config
    → List Instance
    → ℕ
    → String
    → Pool
    → Task
    → Store
    → Result (Store × Option (Instance × Task))
unfolding dispatch_at is_no_capacity
dispatch_pool c runs now id p t s =
    let placed = place c runs (read_nodes s) now id (str_append "task:" t.id) p in
    if not p.tasks || not p.enabled || is_no_capacity placed
    then ok (s, none)
    else (placed >>= λ a. dispatch_at now t a s)

unfoldable pub dispatch :
    Config → List Instance → ℕ → String → Task → Store → Result (Store × Option (Instance × Task))
unfolding dispatch_pool
dispatch c runs now id t s = elim (find_pool c.pools t.pool) [
  | none ↦ ok (s, none)
  | some p ↦ dispatch_pool c runs now id p t s
]

-- `queuedTasks`: unplaced live tasks, `ORDER BY created,id`.
unfoldable pub is_queued : TaskRow → Bool
is_queued r =
    is_some r.secret
    && str_eq r.payload.instance_id ""
    && not r.payload.cancelled
    && not r.payload.expired

unfoldable pub older : Task → Task → Bool
older a b = ltb a.created b.created || a.created == b.created && str_lt a.id b.id

unfoldable pub insert_task : Task → List Task → List Task
unfolding older
insert_task a [] = a ∷ []
insert_task a (b ∷ bs) = if older b a then b ∷ insert_task a bs else a ∷ b ∷ bs

unfoldable pub queued_tasks : List TaskRow → List Task
unfolding is_queued insert_task
queued_tasks [] = []
queued_tasks (r ∷ rows) =
    let rest = queued_tasks rows in if is_queued r then insert_task r.payload rest else rest

-- One hour.
abbrev pub queue_lifetime : ℕ
queue_lifetime = 3600000000000

unfoldable pub expire : ℕ → Task → Store → Store
unfolding save_task drop_secret add_audit
expire now t s =
    add_audit now "task.expire" t.id
      (drop_secret t.id (save_task (record t { expired = true; updated = now }) s))

-- What the loop of `DispatchTasks` keeps between rounds.
pub record Round : Type 0 where
  pub store : Store
  pub runs : List Instance
  pub blocked : List String
  pub placed : ℕ

unfoldable pub after_dispatch : Task → Round → Store × Option (Instance × Task) → Round
after_dispatch t w (s, none) = record w { store = s; blocked = t.pool ∷ w.blocked }
after_dispatch t w (s, some (a, _)) = record w {
  store = s;
  runs = w.runs ++ a ∷ [];
  placed = w.placed + 1;
}

-- `ids` gives the fresh ID of the VM of a task.
unfoldable pub dispatch_round : Config → ℕ → (String → String) → Task → Round → Result Round
unfolding dispatch expire after_dispatch
dispatch_round c now ids t w =
    if ltb queue_lifetime (now - t.created)
    then ok (record w { store = expire now t w.store })
    else if contains w.blocked t.pool
    then ok w
    else (dispatch c w.runs now (ids t.id) t w.store >>= λ z. ok (after_dispatch t w z))

unfoldable pub dispatch_loop : Config → ℕ → (String → String) → List Task → Round → Result Round
unfolding dispatch_round
dispatch_loop c now ids [] w = ok w
dispatch_loop c now ids (t ∷ ts) w = dispatch_round c now ids t w >>= dispatch_loop c now ids ts

-- `DispatchTasks`: nothing happens before the first `Apply`.
unfoldable pub dispatch_tasks : ℕ → (String → String) → Store → Result (Store × ℕ)
unfolding dispatch_loop queued_tasks
dispatch_tasks now ids s =
    if eq_ℤ (read_config s).1 (pos 0)
    then ok (s, 0)
    else (dispatch_loop (read_config s).0 now ids (queued_tasks s.tasks)
          (record { store = s; runs = read_instances s; blocked = []; placed = 0 })
        >>= λ w. ok (w.store, w.placed))
