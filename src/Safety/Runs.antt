-- ===== src/Safety/Runs.antt =====
-- The Controller's operations in any order, between one `Apply` and the next.
use runner_loom.Safety.Certificates.{approve_client-IsSafe, update_client_certificate-IsSafe}
use runner_loom.Safety.Clients.{revoke_client-IsSafe}
use runner_loom.Safety.Submitted.{submit_task-IsSafe}
use runner_loom.Store.Clients.{approve_client, update_client_certificate, revoke_client}
use runner_loom.Store.Submit.{submit_task}
use runner_loom.Store.Tasks.View.{TaskView}
use runner_loom.Base.{
  ℕ, ◌≤◌, Bool, not, ◌&&◌, ◌||◌, String, List, ◌≡◌, refl, ap, sym, subst, inl, inr, str_eq, All,
  Bool-cases, ok, fail, plain, require, ok-injective, >>=-eq-ok, Result,
}
use runner_loom.Base.Int64.{ℤ, pos, lt_ℤ}
use runner_loom.Resources.Laws.{Kind, amount}
use runner_loom.Config.{Config}
use runner_loom.Config.Names.{valid_name}
use runner_loom.Config.Validate.{validate}
use runner_loom.Config.Validate.Check.{Platform}
use runner_loom.Instance.{Instance, Observation}
use runner_loom.Task.{TaskPayload, TaskSpec}
use runner_loom.Store.{Store, Plan, DemandRow, read_config, read_instances}
use runner_loom.Store.Plans.{plan, merge_config, has_plan}
use runner_loom.Store.Allocate.{allocate, set_jit, stop_instance}
use runner_loom.Store.Messages.{
  RunnerEvent, persist_message, refresh_demand, set_demand_flag, set_demand_barrier,
  set_intake_fence, drain, bad_desired, has_demand, has_node_row, set_barrier, set_intake,
}
use runner_loom.Store.Sync.{SyncResponse, sync}
use runner_loom.Store.Tasks.{dispatch_tasks}
use runner_loom.Store.Tasks.Report.{TaskReport, cancel_task, report_task}
use runner_loom.Ledger.{held_sum}
use runner_loom.Ledger.Place.{held_sum-le-budget}
use runner_loom.Safety.{IsSafe}
use runner_loom.Safety.Operations.{allocate-IsSafe, set_jit-IsSafe, stop_instance-IsSafe}
use runner_loom.Safety.Syncing.{sync-IsSafe}
use runner_loom.Safety.Tasks.{IsSafe-same, dispatch_tasks-IsSafe}
use runner_loom.Safety.Reports.{cancel_task-IsSafe, report_task-OnlyTasks}
use runner_loom.Safety.Messages.{persist_message-IsSafe}

-- One successful operation. A failed one leaves the database as it was.
pub data Step (e : Platform) (payload_size : TaskPayload → ℕ) (s t : Store) : Type 0 where
  planned :
      (now : ℕ) (id : String) (c : Config) (p : Plan)
      → plan e now id c s ≡ ok (t, p)
      → Step e payload_size s t
  allocated :
      (now : ℕ) (id request pool : String) (a : Instance)
      → allocate now id request pool s ≡ ok (t, a)
      → Step e payload_size s t
  registered_runner :
      (now : ℕ) (id : String) (runner_id : ℤ) (jit : String)
      → set_jit now id runner_id jit s ≡ ok t
      → Step e payload_size s t
  stop_asked : (id : String) → stop_instance id s ≡ ok t → Step e payload_size s t
  synced :
      (now : ℕ) (name : String) (o : Observation) (response : SyncResponse)
      → sync payload_size now name o s ≡ ok (t, response)
      → Step e payload_size s t
  message_taken :
      (now : ℕ) (session : String) (id : ℤ) (pool : String) (desired : ℤ)
      (events : List RunnerEvent) (hash : String) (hold : Bool)
      → persist_message now session id pool desired events hash hold s ≡ ok t
      → Step e payload_size s t
  demand_refreshed :
      (now : ℕ) (pool : String) (desired : ℤ)
      → refresh_demand now pool desired s ≡ ok t
      → Step e payload_size s t
  barrier_set :
      (pool : String) (blocked : Bool)
      → set_demand_barrier pool blocked s ≡ ok t
      → Step e payload_size s t
  fence_set :
      (pool : String) (blocked : Bool)
      → set_intake_fence pool blocked s ≡ ok t
      → Step e payload_size s t
  node_drained :
      (name : String) (drained : Bool) → drain name drained s ≡ ok t → Step e payload_size s t
  tasks_dispatched :
      (now : ℕ) (ids : String → String) (placed : ℕ)
      → dispatch_tasks now ids s ≡ ok (t, placed)
      → Step e payload_size s t
  task_cancelled :
      (now : ℕ) (client id : String) → cancel_task now client id s ≡ ok t → Step e payload_size s t
  task_reported :
      (now : ℕ) (node id : String) (r : TaskReport)
      → report_task e now node id r s ≡ ok t
      → Step e payload_size s t
  task_submitted :
      (spec_hash : TaskSpec → String) (now : ℕ) (id vm client : String) (spec : TaskSpec)
      (v : TaskView)
      → submit_task e payload_size spec_hash now id vm client spec s ≡ ok (t, v)
      → Step e payload_size s t
  client_approved :
      (now : ℕ) (hash : String → String) (sign : String → String → Result String) (name : String)
      (replace : Bool) (answer : String × String)
      → approve_client now hash sign name replace s ≡ ok (t, answer)
      → Step e payload_size s t
  certificate_renewed :
      (now : ℕ) (hash : String → String) (name cert : String)
      → update_client_certificate now hash name cert s ≡ ok t
      → Step e payload_size s t
  client_revoked :
      (now : ℕ) (name : String) (cancelled : ℕ)
      → revoke_client now name s ≡ ok (t, cancelled)
      → Step e payload_size s t

pub data Run (e : Platform) (payload_size : TaskPayload → ℕ) (s : Store) : Store → Type 0 where
  start : Run e payload_size s s
  next : {t u : Store} → Run e payload_size s t → Step e payload_size t u → Run e payload_size s u

set_demand_flag-IsSafe :
    (column : String → Bool → List DemandRow → List DemandRow) (pool : String) (blocked : Bool)
    (s t : Store)
    → IsSafe s
    → set_demand_flag column pool blocked s ≡ ok t
    → IsSafe t
unfolding set_demand_flag
set_demand_flag-IsSafe column pool blocked s t v h =
    let (_, _, h1) = >>=-eq-ok (require (valid_name pool) (plain "invalid demand")) _ h in
    let (_, _, h2) =
      >>=-eq-ok (require (has_demand pool s.demand) (plain "demand not found")) _ h1 in
    subst IsSafe (ok-injective h2) (IsSafe-same _ s refl refl v)

refresh_demand-IsSafe :
    (now : ℕ) (pool : String) (desired : ℤ) (s t : Store)
    → IsSafe s
    → refresh_demand now pool desired s ≡ ok t
    → IsSafe t
unfolding refresh_demand
refresh_demand-IsSafe now pool desired s t v h =
    elim (Bool-cases (not (valid_name pool) || bad_desired desired)) [
      | inl e ↦ cc (rw (e, refresh_demand) at h)
      | inr e ↦
          subst IsSafe (ok-injective (rw (e, refresh_demand) at h)) (IsSafe-same _ s refl refl v)
    ]

drain-IsSafe :
    (name : String) (drained : Bool) (s t : Store)
    → IsSafe s
    → drain name drained s ≡ ok t
    → IsSafe t
unfolding drain
drain-IsSafe name drained s t v h =
    let (_, _, h1) =
      >>=-eq-ok (require (has_node_row name s.nodes) (fail "NODE_NOT_OBSERVED")) _ h in
    subst IsSafe (ok-injective h1) (IsSafe-same _ s refl refl v)

plan-IsSafe :
    (e : Platform) (now : ℕ) (id : String) (c : Config) (s t : Store) (p : Plan)
    → IsSafe s
    → plan e now id c s ≡ ok (t, p)
    → IsSafe t
unfolding plan
plan-IsSafe e now id c s t p v h =
    let (old, r) = read_config s in
    let (_, _, h1) = >>=-eq-ok (validate e c) _ h in
    let (_, _, h2) =
      >>=-eq-ok
        (require (not (lt_ℤ (pos 0) r && not (str_eq old.name c.name))) (fail "CLUSTER_MISMATCH")) _
        h1 in
    let (_, _, h3) = >>=-eq-ok (validate e (merge_config old c)) _ h2 in
    let (_, _, h4) =
      >>=-eq-ok (require (not (has_plan id s.plans)) (plain "UNIQUE constraint failed")) _ h3 in
    subst IsSafe (ap (λ (x : Store × Plan). x.0) (ok-injective h4)) (IsSafe-same _ s refl refl v)

Step-IsSafe :
    (e : Platform) (payload_size : TaskPayload → ℕ) (s t : Store)
    → IsSafe s
    → Step e payload_size s t
    → IsSafe t
unfolding set_demand_barrier set_intake_fence
Step-IsSafe e size s t v (planned now id c p h) = plan-IsSafe e now id c s t p v h
Step-IsSafe e size s t v (allocated now id request pool a h) =
    allocate-IsSafe now id request pool s t a v h
Step-IsSafe e size s t v (registered_runner now id runner_id jit h) =
    set_jit-IsSafe now id runner_id jit s t v h
Step-IsSafe e size s t v (stop_asked id h) = stop_instance-IsSafe id s t v h
Step-IsSafe e size s t v (synced now name o response h) =
    sync-IsSafe size now name o s t response v h
Step-IsSafe e size s t v (message_taken now session id pool desired events hash hold h) =
    persist_message-IsSafe now session id pool desired events hash hold s t v h
Step-IsSafe e size s t v (demand_refreshed now pool desired h) =
    refresh_demand-IsSafe now pool desired s t v h
Step-IsSafe e size s t v (barrier_set pool blocked h) =
    set_demand_flag-IsSafe set_barrier pool blocked s t v h
Step-IsSafe e size s t v (fence_set pool blocked h) =
    set_demand_flag-IsSafe set_intake pool blocked s t v h
Step-IsSafe e size s t v (node_drained name drained h) = drain-IsSafe name drained s t v h
Step-IsSafe e size s t v (tasks_dispatched now ids placed h) =
    dispatch_tasks-IsSafe now ids s t placed v h
Step-IsSafe e size s t v (task_cancelled now client id h) = cancel_task-IsSafe now client id s t v h
Step-IsSafe e size s t v (task_reported now node id r h) =
    subst IsSafe (sym (report_task-OnlyTasks e now node id r s t h)) (IsSafe-same _ s refl refl v)
Step-IsSafe e size s t v (task_submitted hash now id vm client spec view h) =
    submit_task-IsSafe e size hash now id vm client spec s t view v h
Step-IsSafe e size s t v (client_approved now hash sign name replace answer h) =
    approve_client-IsSafe now hash sign name replace s t answer v h
Step-IsSafe e size s t v (certificate_renewed now hash name cert h) =
    update_client_certificate-IsSafe now hash name cert s t v h
Step-IsSafe e size s t v (client_revoked now name cancelled h) =
    revoke_client-IsSafe now name s t cancelled v h

Run-IsSafe :
    (e : Platform) (payload_size : TaskPayload → ℕ) (s t : Store)
    → IsSafe s
    → Run e payload_size s t
    → IsSafe t
Run-IsSafe e size s _ v start = v
Run-IsSafe e size s u v (next {t = t} r x) = Step-IsSafe e size t u (Run-IsSafe e size s t v r) x

-- From a sound database, after any sequence of successful Plan, Allocate, SetJIT, StopInstance,
-- Sync, PersistMessage, RefreshDemand, SetDemandBarrier, SetIntakeFence, Drain, DispatchTasks,
-- SubmitTask, CancelTask, ReportTask, ApproveClient, UpdateClientCertificate and RevokeClient,
-- in any order and with any arguments, the VMs of each configured Node hold no more CPU, memory
-- or disk than its budget.
pub run-within_budget :
    (e : Platform) (payload_size : TaskPayload → ℕ) (s t : Store)
    → IsSafe s
    → Run e payload_size s t
    → (k : Kind)
    → All (λ n. held_sum k n.name (read_instances t) ≤ amount k n.budget) (read_config t).0.nodes
run-within_budget e size s t v r k =
    let w = Run-IsSafe e size s t v r in
    held_sum-le-budget (read_config t).0 (read_instances t) w.sound w.ledger k
