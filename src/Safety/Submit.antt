-- ===== src/Safety/Submit.antt =====
-- `SubmitTask`: the new task's row, and what a second request finds.
pub mod Rows
use runner_loom.Safety.Submit.Rows.{
  find_task-place_task_row, find_request-place_task_row, find_task-save_task_row,
  find_request-save_task_row,
}
use runner_loom.Base.{
  ℕ, false, not, ◌&&◌, ◌||◌, String, Option, none, some, List, [], ◌∷◌, ◌≡◌, refl, ap, ◌∙◌, sym,
  subst, inl, inr, leb, str_eq, str_lt, ◌⊎◌, arith, Bool-cases, Option-cases, eq_iff, ok, fail,
  require, or_fail, ok-injective, >>=-eq-ok,
}
use Prim.Native.String.{◌++◌ as str_append}
use runner_loom.Base.Int64.{pos, eq_ℤ}
use runner_loom.Config.{Config, Pool, find_pool}
use runner_loom.Instance.{Instance}
use runner_loom.Scheduler.Place.{place}
use runner_loom.Task.{Task, TaskSpec}
use runner_loom.Store.{
  Store, TaskRow, add_audit, find_task, insert_instance, read_config, read_instances, read_nodes,
}
use runner_loom.Store.Tasks.{
  for_task, dispatch_at, dispatch_pool, dispatch, save_task_row, is_no_capacity, queued_tasks,
}
use runner_loom.Store.Submit.{
  find_request, open_count, max_client_tasks, may_queue, new_task, task_taken, place_task_row,
  new_row, insert_task_row, has_older, place_now, submit_new,
}
use runner_loom.Safety.Operations.{insert_instance-eq}

-- What `dispatchTx` writes besides the VM: at most the task's own row.
abbrev Dispatched : ℕ → Task → Store → Store → Type 0
Dispatched now t s u =
    (u ≡ s)
    ⊎ ((a : Instance) × (u.tasks
          ≡ save_task_row (record t { instance_id = a.id; updated = now }) s.tasks)
        × (u.clients ≡ s.clients))

dispatch_at-Dispatched :
    (now : ℕ) (t : Task) (a : Instance) (s : Store) (z : Store × Option (Instance × Task))
    → dispatch_at now t a s ≡ ok z
    → Dispatched now t s z.0
unfolding dispatch_at
dispatch_at-Dispatched now t a s z h =
    let (u, e, f) = >>=-eq-ok (insert_instance (for_task t a) s) _ h in
    let (_, q) = insert_instance-eq (for_task t a) s u e in
    let g = ok-injective f in
    inr (
      a,
      ap (λ (x : Store × Option (Instance × Task)). x.0.tasks) (sym g)
          ∙ ap
              (λ (x : Store).
                save_task_row (record t { instance_id = a.id; updated = now }) x.tasks)
              q,
      ap (λ (x : Store × Option (Instance × Task)). x.0.clients) (sym g)
          ∙ ap (λ (x : Store). x.clients) q,
    )

dispatch_pool-Dispatched :
    (c : Config) (runs : List Instance) (now : ℕ) (vm : String) (p : Pool) (t : Task) (s : Store)
    (z : Store × Option (Instance × Task))
    → dispatch_pool c runs now vm p t s ≡ ok z
    → Dispatched now t s z.0
unfolding dispatch_pool
dispatch_pool-Dispatched c runs now vm p t s z h =
    let placed = place c runs (read_nodes s) now vm (str_append "task:" t.id) p in
    elim (Bool-cases (not p.tasks || not p.enabled || is_no_capacity placed)) [
      | inl e ↦
          inl (ap (λ (x : Store × Option (Instance × Task)). x.0) (sym (ok-injective (rw e at h))))
      | inr e ↦
          let (a, _, f) = >>=-eq-ok placed _ (rw e at h) in dispatch_at-Dispatched now t a s z f
    ]

dispatch-Dispatched :
    (c : Config) (runs : List Instance) (now : ℕ) (vm : String) (t : Task) (s : Store)
    (z : Store × Option (Instance × Task))
    → dispatch c runs now vm t s ≡ ok z
    → Dispatched now t s z.0
unfolding dispatch
dispatch-Dispatched c runs now vm t s z h = elim (Option-cases (find_pool c.pools t.pool)) [
  | inl e ↦ inl (
      ap (λ (x : Store × Option (Instance × Task)). x.0)
        (sym (ok-injective (rw (e, dispatch) at h))))
  | inr (p, e) ↦ dispatch_pool-Dispatched c runs now vm p t s z (rw (e, dispatch) at h)
]

place_now-Dispatched :
    (c : Config) (now : ℕ) (vm : String) (t : Task) (s u : Store)
    → place_now c now vm t s ≡ ok u
    → Dispatched now t s u
unfolding place_now
place_now-Dispatched c now vm t s u h = elim (Bool-cases (has_older t (queued_tasks s.tasks))) [
  | inl e ↦ inl (sym (ok-injective (rw e at h)))
  | inr e ↦
      let (z, f, g) = >>=-eq-ok (dispatch c (read_instances s) now vm t s) _ (rw e at h) in
      subst (Dispatched now t s) (ok-injective g)
        (dispatch-Dispatched c (read_instances s) now vm t s z f)
]

-- The stored task is the submitted one, but for its VM.
pub record Stored (now : ℕ) (id client hash : String) (spec : TaskSpec) (s t : Store) : Type 0 where
  pub vm : String
  pub task : Task
  pub task_eq : task ≡ record (new_task now id client hash spec) { instance_id = vm }
  pub row_eq :
      find_task id t.tasks
      ≡ some (record (new_row (new_task now id client hash spec) spec) { payload = task })
  pub again : TaskRow
  pub again_eq : find_request client spec.request_id t.tasks ≡ some again
  pub again_task : again.payload ≡ task
  pub same_clients : t.clients ≡ s.clients

pub insert_task_row-eq :
    (t : Task) (spec : TaskSpec) (s u : Store)
    → insert_task_row t spec s ≡ ok u
    → (task_taken t.id s.tasks ≡ false)
      × (u ≡ record s { tasks = place_task_row (new_row t spec) s.tasks })
unfolding insert_task_row
insert_task_row-eq t spec s u h = elim (Bool-cases (task_taken t.id s.tasks)) [
  | inl e ↦ cc (rw e at h)
  | inr e ↦ (e, sym (ok-injective (rw e at h)))
]

-- The insertion of a successful transaction, and the placement behind it.
pub submit_new-parts :
    (now : ℕ) (id vm client hash : String) (spec : TaskSpec) (s t : Store)
    → submit_new now id vm client hash spec s ≡ ok t
    → (u : Store) × (insert_task_row (new_task now id client hash spec) spec s ≡ ok u)
      × (place_now
            (read_config s).0
            now
            vm
            (new_task now id client hash spec)
            (add_audit now "task.submit" (str_append client (str_append "/" id)) u)
          ≡ ok t)
unfolding submit_new
submit_new-parts now id vm client hash spec s t h =
    let (c, revision) = read_config s in
    let (_, _, h1) =
      >>=-eq-ok (require (not (eq_ℤ revision (pos 0))) (fail "NOT_CONFIGURED")) _ h in
    let (p, _, h2) = >>=-eq-ok (or_fail (find_pool c.pools spec.pool) (fail "TASK_POOL")) _ h1 in
    let (_, _, h3) = >>=-eq-ok (may_queue p) _ h2 in
    let (_, _, h4) =
      >>=-eq-ok
        (require (not (leb max_client_tasks (open_count client s.tasks))) (fail "TASK_LIMIT")) _
        h3 in
    >>=-eq-ok (insert_task_row (new_task now id client hash spec) spec s) _ h4

pub submit_new-Stored :
    (now : ℕ) (id vm client hash : String) (spec : TaskSpec) (s t : Store)
    → find_request client spec.request_id s.tasks ≡ none
    → submit_new now id vm client hash spec s ≡ ok t
    → Stored now id client hash spec s t
unfolding new_task new_row add_audit
submit_new-Stored now id vm client hash spec s t fresh h =
    let (u, e, k) = submit_new-parts now id vm client hash spec s t h in
    let (f, q) = insert_task_row-eq first spec s u e in
    stored u (ap (λ (x : Store). x.tasks) q) (ap (λ (x : Store). x.clients) q)
      (find_task-place_task_row row s.tasks f) (find_request-place_task_row row s.tasks fresh)
      (place_now-Dispatched (read_config s).0 now vm first _ t k)
  where
    first : Task
    first = new_task now id client hash spec

    row : TaskRow
    row = new_row first spec

    stored :
        (u : Store)
        → u.tasks ≡ place_task_row row s.tasks
        → u.clients ≡ s.clients
        → find_task id (place_task_row row s.tasks) ≡ some row
        → find_request client spec.request_id (place_task_row row s.tasks) ≡ some row
        → Dispatched now first
            (add_audit now "task.submit" (str_append client (str_append "/" id)) u)
            t
        → Stored now id client hash spec s t
    stored u a b f g (inl d) = record {
      vm = "";
      task = first;
      task_eq = refl;
      row_eq = ap (λ (x : Store). find_task id x.tasks) d ∙ (ap (find_task id) a ∙ f);
      again = row;
      again_eq =
          ap (λ (x : Store). find_request client spec.request_id x.tasks) d
          ∙ (ap (find_request client spec.request_id) a ∙ g);
      again_task = refl;
      same_clients = ap (λ (x : Store). x.clients) d ∙ b;
    }
    stored u a b f g (inr (run, d, k)) =
        let p = record first { instance_id = run.id; updated = now } in
        let (other, i, j) = find_request-save_task_row p (place_task_row row s.tasks) row g refl in
        record {
          vm = run.id;
          task = p;
          task_eq = refl;
          row_eq =
              ap (find_task id) (d ∙ ap (save_task_row p) a)
              ∙ find_task-save_task_row p (place_task_row row s.tasks) row f;
          again = other;
          again_eq = ap (find_request client spec.request_id) (d ∙ ap (save_task_row p) a) ∙ i;
          again_task = j;
          same_clients = k ∙ b;
        }
