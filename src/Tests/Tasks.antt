-- ===== src/Tests/Tasks.antt =====
-- A task of one client on a Pool for tasks: placed, cancelled, reported and shown.
use Prim.Native.String.{◌++◌ as str_append}
use runner_loom.Safety.Effects.Cancelled.{cancel_task-halt_vm, halt_vm, is_open}
use runner_loom.Base.{
  ℕ, true, false, none, some, [], ◌∷◌, ◌≡◌, refl, ok, arith, String, str_eq, map,
}
use runner_loom.Base.Int64
use runner_loom.Base.Int64.{pos}
use runner_loom.Resources
use runner_loom.Resources.Laws.{cpus, memories, disks}
use runner_loom.Config.{Config, Pool, charge, find_pool, eligible, image_or_zero}
use runner_loom.Config.Names.{valid_name, valid_id}
use runner_loom.Instance.{Instance, State}
use runner_loom.Reservations.{protection, validate_owners}
use runner_loom.Scheduler.{
  candidates, candidate, share_of, shares, held_on, pool_count, standing, reason_if, observed, sort,
}
use runner_loom.Scheduler.Place.{place, after_minutes}
use runner_loom.Task.{Task, TaskPayload, TaskResult}
use runner_loom.Task.State.{succeeded, vm_over, terminal, derive_task_state}
use runner_loom.Task.Life.{derive_task_state-stable, derive_task_state-succeeded}
use runner_loom.Store.{
  Store, read_config, insert_instance, observations_of, find_task, find_row, save_instance, TaskRow,
  read_instances,
}
use runner_loom.Store.Seal.{sealed}
use runner_loom.Store.Tasks.{dispatch_tasks}
use runner_loom.Store.Tasks.Report.{TaskReport, cancel_task, report_task}
use runner_loom.Ledger.{IsSound, Ledger}
use runner_loom.Safety.{IsSafe}
use runner_loom.Safety.Tasks.{dispatch_tasks-IsSafe}
use runner_loom.Safety.Reports.{OnlyTasks, report_task-OnlyTasks}
use runner_loom.Tests.Fixtures.{value, home, home_store, node_a, lite, no_instance}
use runner_loom.Tests.Validation.{platform}
use runner_loom.Tests.Ledger.{now}

abbrev agents : Pool
agents = record lite { name = "agents"; runner_name = ""; tasks = true }

abbrev task_home : Config
task_home = record home {
  nodes = record node_a { allowed_pools = "agents" ∷ [] } ∷ [];
  pools = agents ∷ [];
  reservations = [];
}

task_home-IsSound : IsSound task_home
unfolding charge Int64.add
task_home-IsSound = record {
  named = tt;
  unique = tt;
  nodes_distinct = (refl, tt);
  pools_distinct = (refl, tt);
  targets = tt;
  slots_small = tt;
  slots_nonneg = tt;
  sizes_nonneg = omega arith;
  sizes_small = elim [ cpus ↦ omega arith | memories ↦ omega arith | disks ↦ omega arith ];
  budgets_nonneg = omega arith;
  budgets_small = elim [ cpus ↦ omega arith | memories ↦ omega arith | disks ↦ omega arith ];
  limits_nonneg = omega arith;
}

task_home-Ledger : Ledger task_home []
unfolding charge Int64.add find_pool pool_count
task_home-Ledger = record {
  nonneg = tt;
  owned = tt;
  in_slots = tt;
  slots_suffice = tt;
  within_budget = elim [ cpus ↦ omega arith | memories ↦ omega arith | disks ↦ omega arith ];
  within_limits = omega arith;
}

abbrev pub task_id : String
task_id = "0123456789abcdef0123456789abcdef"

abbrev pub vm_id : String
vm_id = "fedcba9876543210fedcba9876543210"

abbrev pub task : Task
task = record {
  id = task_id;
  client = "laptop";
  request_id = "request-1";
  pool = "agents";
  agent = "codex";
  title = "Fix the build";
  repository = "";
  base_ref = "";
  branch = "";
  pull_request = false;
  spec_hash = "";
  instance_id = "";
  cancelled = false;
  expired = false;
  created = 1000;
  updated = 1000;
  progress_at = none;
}

abbrev pub payload : TaskPayload
payload = record {
  id = task_id;
  spec = record {
    request_id = "request-1";
    pool = "agents";
    agent = record {
      name = "codex";
      binary = "codex";
      runtime = "";
      install = "";
      run = "codex" ∷ [];
      sudo = false;
    };
    prompt = "Fix the build";
    repository = "";
    base_ref = "";
    branch = "";
    pull_request = false;
    files = [];
    env = [];
    git_token = "";
  };
}

abbrev pub task_store : Store
task_store = record home_store {
  settings = some (record { revision = pos 1; payload = task_home });
  tasks =
      record {
        payload = task;
        secret = some (sealed "0123456789abcdef0123456789abcdef:payload" payload);
        outcome = none;
        progress = none;
      }
      ∷ [];
}

task_store-IsSafe : IsSafe task_store
unfolding read_config
task_store-IsSafe = record { sound = task_home-IsSound; ledger = task_home-Ledger; distinct = tt }

abbrev ids : String → String
ids id = vm_id

unfoldable placed : Store × ℕ
unfolding dispatch_tasks read_config find_pool place candidates candidate share_of held_on
    pool_count observed validate_owners protection insert_instance observations_of standing
    reason_if sort image_or_zero eligible shares charge Int64.add Int64.sub Int64.mul Resources.fits
    Resources.add Resources.sub Resources.mul Resources.empty after_minutes
placed = value (dispatch_tasks now ids task_store) (task_store, 0)

placed_eq : dispatch_tasks now ids task_store ≡ ok (placed.0, 1)
unfolding placed
placed_eq = refl

placed-IsSafe : IsSafe placed.0
placed-IsSafe = dispatch_tasks-IsSafe now ids task_store placed.0 1 task_store-IsSafe placed_eq

dispatch_tasks-IsSafe_example : IsSafe placed.0
dispatch_tasks-IsSafe_example =
    dispatch_tasks-IsSafe now ids task_store placed.0 1 task_store-IsSafe placed_eq

unfoldable stopped : Store
unfolding placed cancel_task valid_id find_task find_row save_instance
stopped = value (cancel_task now "laptop" task_id placed.0) task_store

stopped_eq : cancel_task now "laptop" task_id placed.0 ≡ ok stopped
unfolding stopped
stopped_eq = refl

abbrev placed_row : TaskRow
placed_row = record {
  payload = record task { instance_id = vm_id; updated = now };
  secret = some (sealed (str_append task_id ":payload") payload);
  outcome = none;
  progress = none;
}

placed_row_eq : find_task task_id placed.0.tasks ≡ some placed_row
unfolding placed find_task
placed_row_eq = refl

cancel_task-halt_vm_example :
    read_instances stopped ≡ map (halt_vm now placed_row) (read_instances placed.0)
cancel_task-halt_vm_example =
    cancel_task-halt_vm now "laptop" task_id placed.0 stopped placed_row placed-IsSafe.distinct
      placed_row_eq stopped_eq

-- There is a VM to stop.
open_test : is_open placed_row ≡ true
unfolding is_open
open_test = refl

abbrev half_way : TaskReport
half_way = record { run = vm_id; progress = "half way"; outcome = none }

unfoldable reported : Store
unfolding placed report_task valid_id valid_name find_task find_row
reported = value (report_task platform now "node-a" task_id half_way placed.0) task_store

reported_eq : report_task platform now "node-a" task_id half_way placed.0 ≡ ok reported
unfolding reported
reported_eq = refl

report_task-OnlyTasks_example : OnlyTasks reported placed.0
report_task-OnlyTasks_example =
    report_task-OnlyTasks platform now "node-a" task_id half_way placed.0 reported reported_eq

abbrev done : TaskResult
done = record {
  status = "succeeded";
  exit_code = pos 0;
  error = "";
  output = "";
  branch = "";
  commit = "";
  changed = false;
  pushed = false;
  pull_request_url = "";
  diff_stat = "";
  patch = "";
  truncated = false;
}

abbrev gone : Instance
gone = record no_instance { state = State.deleted; deadline = 5 }

shown : derive_task_state task (some gone) (some done) now ≡ succeeded
unfolding derive_task_state
shown = refl

derive_task_state-succeeded_example :
    (vm_over (some gone) ≡ true)
    × (task.expired ≡ false)
    × ((x : TaskResult) × (some done ≡ some x) × (str_eq x.status "succeeded" ≡ true))
derive_task_state-succeeded_example =
    derive_task_state-succeeded task (some gone) (some done) now shown

-- Three minutes after the deletion no result is awaited.
abbrev later : ℕ
later = 180000000000

final : terminal (derive_task_state task (some gone) none later) ≡ true
unfolding derive_task_state terminal
final = refl

derive_task_state-stable_example :
    derive_task_state task (some gone) none 200000000000
    ≡ derive_task_state task (some gone) none later
derive_task_state-stable_example =
    derive_task_state-stable task (some gone) none later 200000000000 (omega arith) final
