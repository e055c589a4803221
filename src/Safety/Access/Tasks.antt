-- ===== src/Safety/Access/Tasks.antt =====
-- Operations on tasks leave the clients and the identities as they are.
use runner_loom.Base.{
  ℕ, ◌-◌, not, ◌&&◌, ◌||◌, String, Option, none, some, List, [], ◌∷◌, ◌≡◌, refl, ap, ◌∙◌, inl, inr,
  ltb, str_eq, contains, is_some, Bool-cases, Option-cases, ok, fail, require, or_fail,
  ok-injective, >>=-eq-ok,
}
use Prim.Native.String.{◌++◌ as str_append}
use runner_loom.Base.Int64.{pos, eq_ℤ}
use runner_loom.Config.{Config, Pool, find_pool}
use runner_loom.Config.Names.{valid_id}
use runner_loom.Config.Validate.Check.{Platform}
use runner_loom.Instance.{Instance}
use runner_loom.Scheduler.Place.{place}
use runner_loom.Task.{Task, TaskSpec, TaskPayload}
use runner_loom.Store.{
  Store, TaskRow, add_audit, find_row, find_task, insert_instance, read_config, read_instances,
  read_nodes, save_instance,
}
use runner_loom.Store.Tasks.{
  Round, for_task, dispatch_at, dispatch_pool, dispatch, dispatch_round, dispatch_loop,
  dispatch_tasks, is_no_capacity, queue_lifetime, expire, after_dispatch, queued_tasks,
}
use runner_loom.Store.Tasks.Report.{
  TaskReport, cancel_row, cancel_task, report_task, stop_runs, is_over, past_cancel,
}
use runner_loom.Store.Tasks.View.{TaskView}
use runner_loom.Store.Submit.{has_older, new_task, place_now, submit_new, submit_row, submit_task}
use runner_loom.Safety.Operations.{insert_instance-eq}
use runner_loom.Safety.Reports.{report_task-OnlyTasks}
use runner_loom.Safety.Submit.{submit_new-parts, insert_task_row-eq}
use runner_loom.Safety.Submitted.{submit_task-parts}
use runner_loom.Safety.Access.{access, Kept, Kept-by, choose-Kept}

dispatch_at-Kept :
    (now : ℕ) (t : Task) (a : Instance) (s : Store) (z : Store × Option (Instance × Task))
    → dispatch_at now t a s ≡ ok z
    → Kept z.0 s
unfolding dispatch_at
dispatch_at-Kept now t a s z h =
    let (u, e, f) = >>=-eq-ok (insert_instance (for_task t a) s) _ h in
    Kept-by s (ap (λ (x : Store × Option (Instance × Task)). x.0) (ok-injective f))
      (ap access (insert_instance-eq (for_task t a) s u e).1)

dispatch_pool-Kept :
    (c : Config) (runs : List Instance) (now : ℕ) (vm : String) (p : Pool) (t : Task) (s : Store)
    (z : Store × Option (Instance × Task))
    → dispatch_pool c runs now vm p t s ≡ ok z
    → Kept z.0 s
unfolding dispatch_pool
dispatch_pool-Kept c runs now vm p t s z h =
    let placed = place c runs (read_nodes s) now vm (str_append "task:" t.id) p in
    elim (Bool-cases (not p.tasks || not p.enabled || is_no_capacity placed)) [
      | inl e ↦
          Kept-by s (ap (λ (x : Store × Option (Instance × Task)). x.0) (ok-injective (rw e at h)))
            refl
      | inr e ↦ let (a, _, f) = >>=-eq-ok placed _ (rw e at h) in dispatch_at-Kept now t a s z f
    ]

dispatch-Kept :
    (c : Config) (runs : List Instance) (now : ℕ) (vm : String) (t : Task) (s : Store)
    (z : Store × Option (Instance × Task))
    → dispatch c runs now vm t s ≡ ok z
    → Kept z.0 s
unfolding dispatch
dispatch-Kept c runs now vm t s z h = elim (Option-cases (find_pool c.pools t.pool)) [
  | inl e ↦
      Kept-by s
        (ap (λ (x : Store × Option (Instance × Task)). x.0) (ok-injective (rw (e, dispatch) at h)))
        refl
  | inr (p, e) ↦ dispatch_pool-Kept c runs now vm p t s z (rw (e, dispatch) at h)
]

after_dispatch-Kept :
    (t : Task) (w : Round) (z : Store × Option (Instance × Task))
    → Kept z.0 w.store
    → Kept (after_dispatch t w z).store w.store
unfolding after_dispatch
after_dispatch-Kept t w (s, none) k = k
after_dispatch-Kept t w (s, some (a, b)) k = k

dispatch_round-Kept :
    (c : Config) (now : ℕ) (ids : String → String) (t : Task) (w x : Round)
    → dispatch_round c now ids t w ≡ ok x
    → Kept x.store w.store
unfolding dispatch_round expire
dispatch_round-Kept c now ids t w x h = elim (Bool-cases (ltb queue_lifetime (now - t.created))) [
  | inl e ↦ Kept-by w.store (ap (λ (y : Round). y.store) (ok-injective (rw e at h))) refl
  | inr e ↦ elim (Bool-cases (contains w.blocked t.pool)) [
    | inl f ↦
        Kept-by w.store (ap (λ (y : Round). y.store) (ok-injective (rw f at (rw e at h)))) refl
    | inr f ↦
        let (z, p, q) =
          >>=-eq-ok (dispatch c w.runs now (ids t.id) t w.store) _ (rw f at (rw e at h)) in
        Kept-by w.store (ap (λ (y : Round). y.store) (ok-injective q))
          (after_dispatch-Kept t w z (dispatch-Kept c w.runs now (ids t.id) t w.store z p))
  ]
]

dispatch_loop-Kept :
    (c : Config) (now : ℕ) (ids : String → String) (ts : List Task) (w x : Round)
    → dispatch_loop c now ids ts w ≡ ok x
    → Kept x.store w.store
unfolding dispatch_loop
dispatch_loop-Kept c now ids [] w x h =
    Kept-by w.store (ap (λ (y : Round). y.store) (ok-injective h)) refl
dispatch_loop-Kept c now ids (t ∷ ts) w x h =
    let (y, e, f) = >>=-eq-ok (dispatch_round c now ids t w) _ h in
    dispatch_loop-Kept c now ids ts y x f ∙ dispatch_round-Kept c now ids t w y e

pub dispatch_tasks-Kept :
    (now : ℕ) (ids : String → String) (s t : Store) (placed : ℕ)
    → dispatch_tasks now ids s ≡ ok (t, placed)
    → Kept t s
unfolding dispatch_tasks
dispatch_tasks-Kept now ids s t placed h = elim (Bool-cases (eq_ℤ (read_config s).1 (pos 0))) [
  | inl e ↦ Kept-by s (ap (λ (x : Store × ℕ). x.0) (ok-injective (rw e at h))) refl
  | inr e ↦
      let start : Round = record { store = s; runs = read_instances s; blocked = []; placed = 0 } in
      let (w, p, q) =
        >>=-eq-ok (dispatch_loop (read_config s).0 now ids (queued_tasks s.tasks) start) _
          (rw e at h) in
      Kept-by s (ap (λ (x : Store × ℕ). x.0) (ok-injective q))
        (dispatch_loop-Kept (read_config s).0 now ids (queued_tasks s.tasks) start w p)
]

stop_runs-Kept :
    (now : ℕ) (id : String) (runs : List Instance) (s : Store) → Kept (stop_runs now id runs s) s
unfolding stop_runs save_instance
stop_runs-Kept now id [] s = refl
stop_runs-Kept now id (a ∷ runs) s =
    stop_runs-Kept now id runs _ ∙ choose-Kept (str_eq a.id id && not (is_over a)) s _ s refl refl

cancel_row-Kept : (now : ℕ) (r : TaskRow) (s : Store) → Kept (cancel_row now r s) s
unfolding cancel_row
cancel_row-Kept now r s =
    choose-Kept (r.payload.cancelled || r.payload.expired || is_some r.outcome) s _ _ refl (
      choose-Kept (str_eq r.payload.instance_id "") s _ _ refl (
        choose-Kept (past_cancel (find_row r.payload.instance_id s.instances)) s _ _ refl
          (stop_runs-Kept now r.payload.instance_id (read_instances s) _)))

pub cancel_task-Kept :
    (now : ℕ) (client id : String) (s t : Store) → cancel_task now client id s ≡ ok t → Kept t s
unfolding cancel_task
cancel_task-Kept now client id s t h =
    let (_, _, h1) = >>=-eq-ok (require (valid_id id) (fail "TASK_NOT_FOUND")) _ h in
    let (r, _, h2) = >>=-eq-ok (or_fail (find_task id s.tasks) (fail "TASK_NOT_FOUND")) _ h1 in
    let (_, _, h3) =
      >>=-eq-ok
        (require (str_eq client "" || str_eq r.payload.client client) (fail "TASK_NOT_FOUND")) _
        h2 in
    Kept-by s (ok-injective h3) (cancel_row-Kept now r s)

pub report_task-Kept :
    (e : Platform) (now : ℕ) (node id : String) (r : TaskReport) (s t : Store)
    → report_task e now node id r s ≡ ok t
    → Kept t s
report_task-Kept e now node id r s t h = ap access (report_task-OnlyTasks e now node id r s t h)

place_now-Kept :
    (c : Config) (now : ℕ) (vm : String) (t : Task) (s u : Store)
    → place_now c now vm t s ≡ ok u
    → Kept u s
unfolding place_now
place_now-Kept c now vm t s u h = elim (Bool-cases (has_older t (queued_tasks s.tasks))) [
  | inl e ↦ Kept-by s (ok-injective (rw e at h)) refl
  | inr e ↦
      let (z, f, g) = >>=-eq-ok (dispatch c (read_instances s) now vm t s) _ (rw e at h) in
      Kept-by s (ok-injective g) (dispatch-Kept c (read_instances s) now vm t s z f)
]

submit_row-Kept :
    (now : ℕ) (id vm client hash : String) (spec : TaskSpec) (o : Option TaskRow) (s t : Store)
    (known : String)
    → submit_row now id vm client hash spec o s ≡ ok (t, known)
    → Kept t s
unfolding submit_row add_audit
submit_row-Kept now id vm client hash spec none s t known h =
    let (u, e, f) = >>=-eq-ok (submit_new now id vm client hash spec s) _ h in
    let (w, i, k) = submit_new-parts now id vm client hash spec s u e in
    let (_, q) = insert_task_row-eq (new_task now id client hash spec) spec s w i in
    Kept-by s (ap (λ (x : Store × String). x.0) (ok-injective f)) (
      place_now-Kept (read_config s).0 now vm (new_task now id client hash spec) _ u k
      ∙ ap access q)
submit_row-Kept now id vm client hash spec (some r) s t known h =
    elim (Bool-cases (str_eq r.payload.spec_hash hash)) [
      | inl e ↦ Kept-by s (ap (λ (x : Store × String). x.0) (ok-injective (rw e at h))) refl
      | inr e ↦ cc (rw e at h)
    ]

pub submit_task-Kept :
    (e : Platform) (payload_size : TaskPayload → ℕ) (spec_hash : TaskSpec → String) (now : ℕ)
    (id vm client : String) (spec : TaskSpec) (s t : Store) (v : TaskView)
    → submit_task e payload_size spec_hash now id vm client spec s ≡ ok (t, v)
    → Kept t s
submit_task-Kept e payload_size spec_hash now id vm client spec s t v h =
    let (known, _, _, k, _) =
      submit_task-parts e payload_size spec_hash now id vm client spec s t v h in
    submit_row-Kept now id vm client (spec_hash spec) spec _ s t known k
