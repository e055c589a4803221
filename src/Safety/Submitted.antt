-- ===== src/Safety/Submitted.antt =====
-- What `SubmitTask` promises: a sound database, the same task for the same request, and a payload
-- that is delivered as it was submitted.
use runner_loom.Base.{
  ℕ, true, false, ◌||◌, String, Option, none, some, [], ◌≡◌, refl, ap, ap₂, ◌∙◌, sym, subst, inl,
  inr, str_eq, arith, Bool-cases, eq_iff, ok, fail, require, ok-injective, require-eq-ok, >>=-eq-ok,
}
use Prim.Native.String.{◌++◌ as str_append}
use runner_loom.Config.{Config}
use runner_loom.Config.Names.{valid_name, valid_id}
use runner_loom.Config.Validate.Check.{Platform}
use runner_loom.Instance.{Instance}
use runner_loom.Safety.Operations.{read_config-eq}
use runner_loom.Task.{Task, TaskSpec, TaskPayload}
use runner_loom.Task.Spec.{validate_spec}
use runner_loom.Store.{
  Store, TaskRow, find_task, find_client, read_config, read_instances, add_audit,
}
use runner_loom.Store.Tasks.{Round, after_dispatch, dispatch, queued_tasks}
use runner_loom.Store.Tasks.View.{
  TaskView, read_task, view_task, view_outcome, view_progress, vm_of_task, node_of, deadline_of,
}
use runner_loom.Store.Sync.Delivery.{task_payload, may_deliver, is_live_client, open_payload}
use runner_loom.Store.Seal.{sealed}
use runner_loom.Task.State.{derive_task_state}
use runner_loom.Store.Submit.{
  find_request, new_task, new_row, has_older, place_now, submit_new, submit_row, submit_task,
}
use runner_loom.Ledger.Alike.{Alike-refl}
use runner_loom.Safety.{IsSafe}
use runner_loom.Safety.Tasks.{IsSafe-same, dispatch-Good}
use runner_loom.Safety.Submit.{Stored, submit_new-Stored, submit_new-parts, insert_task_row-eq}

after_dispatch-store :
    (t : Task) (w : Round) (z : Store × Option (Instance × Task))
    → (after_dispatch t w z).store ≡ z.0
unfolding after_dispatch
after_dispatch-store t w (s, none) = refl
after_dispatch-store t w (s, some (a, b)) = refl

place_now-IsSafe :
    (c : Config) (now : ℕ) (vm : String) (t : Task) (s u : Store)
    → IsSafe s
    → (read_config s).0 ≡ c
    → place_now c now vm t s ≡ ok u
    → IsSafe u
unfolding place_now
place_now-IsSafe c now vm t s u v k h = elim (Bool-cases (has_older t (queued_tasks s.tasks))) [
  | inl e ↦ subst IsSafe (ok-injective (rw e at h)) v
  | inr e ↦
      let w : Round = record { store = s; runs = read_instances s; blocked = []; placed = 0 } in
      let (z, f, g) = >>=-eq-ok (dispatch c (read_instances s) now vm t s) _ (rw e at h) in
      let good =
        dispatch-Good c now vm t w z
          (record { safe = v; config_kept = k; alike = Alike-refl (read_instances s) }) f in
      subst IsSafe (after_dispatch-store t w z ∙ ok-injective g) good.safe
]

submit_new-IsSafe :
    (now : ℕ) (id vm client hash : String) (spec : TaskSpec) (s t : Store)
    → IsSafe s
    → submit_new now id vm client hash spec s ≡ ok t
    → IsSafe t
unfolding add_audit
submit_new-IsSafe now id vm client hash spec s t v h =
    let first = new_task now id client hash spec in
    let (u, e, k) = submit_new-parts now id vm client hash spec s t h in
    let (_, q) = insert_task_row-eq first spec s u e in
    let kept : u.settings ≡ s.settings = ap (λ (x : Store). x.settings) q in
    let rows : read_instances u ≡ read_instances s = ap (λ (x : Store). read_instances x) q in
    place_now-IsSafe (read_config s).0 now vm first _ t (IsSafe-same _ s kept rows v)
      (read_config-eq _ s kept) k

submit_row-IsSafe :
    (now : ℕ) (id vm client hash : String) (spec : TaskSpec) (o : Option TaskRow) (s t : Store)
    (known : String)
    → IsSafe s
    → submit_row now id vm client hash spec o s ≡ ok (t, known)
    → IsSafe t
unfolding submit_row
submit_row-IsSafe now id vm client hash spec none s t known v h =
    let (u, e, f) = >>=-eq-ok (submit_new now id vm client hash spec s) _ h in
    subst IsSafe (ap (λ (x : Store × String). x.0) (ok-injective f))
      (submit_new-IsSafe now id vm client hash spec s u v e)
submit_row-IsSafe now id vm client hash spec (some r) s t known v h =
    elim (Bool-cases (str_eq r.payload.spec_hash hash)) [
      | inl e ↦ subst IsSafe (ap (λ (x : Store × String). x.0) (ok-injective (rw e at h))) v
      | inr e ↦ cc (rw e at h)
    ]

-- A successful SubmitTask is one transaction and then a read of the task.
pub submit_task-parts :
    (e : Platform) (payload_size : TaskPayload → ℕ) (spec_hash : TaskSpec → String) (now : ℕ)
    (id vm client : String) (spec : TaskSpec) (s t : Store) (v : TaskView)
    → submit_task e payload_size spec_hash now id vm client spec s ≡ ok (t, v)
    → (known : String) × (validate_spec e payload_size spec ≡ ok tt)
      × (valid_name client ≡ true)
      × (submit_row now id vm client
            (spec_hash spec)
            spec
            (find_request client spec.request_id s.tasks)
            s
          ≡ ok (t, known))
      × (read_task now client known false t ≡ ok v)
unfolding submit_task
submit_task-parts e payload_size spec_hash now id vm client spec s t v h =
    let (_, e1, h1) = >>=-eq-ok (require (valid_name client) (fail "CLIENT_UNAUTHORIZED")) _ h in
    let (_, e2, h2) = >>=-eq-ok (validate_spec e payload_size spec) _ h1 in
    let ((u, known), e3, h3) =
      >>=-eq-ok
        (submit_row now id vm client (spec_hash spec) spec
          (find_request client spec.request_id s.tasks) s)
        _ h2 in
    let (w, e4, h4) = >>=-eq-ok (read_task now client known false u) _ h3 in
    let p = ap (λ (x : Store × TaskView). x.0) (ok-injective h4) in
    let q = ap (λ (x : Store × TaskView). x.1) (ok-injective h4) in
    (
      known,
      e2,
      require-eq-ok _ _ e1,
      e3 ∙ ap (λ x. ok (x, known)) p,
      ap (read_task now client known false) (sym p) ∙ (e4 ∙ ap ok q),
    )

pub submit_task-IsSafe :
    (e : Platform) (payload_size : TaskPayload → ℕ) (spec_hash : TaskSpec → String) (now : ℕ)
    (id vm client : String) (spec : TaskSpec) (s t : Store) (v : TaskView)
    → IsSafe s
    → submit_task e payload_size spec_hash now id vm client spec s ≡ ok (t, v)
    → IsSafe t
submit_task-IsSafe e payload_size spec_hash now id vm client spec s t v safe h =
    let (known, _, _, k, _) =
      submit_task-parts e payload_size spec_hash now id vm client spec s t v h in
    submit_row-IsSafe now id vm client (spec_hash spec) spec _ s t known safe k

-- A request that is not known is stored.
submit_task-Stored :
    (e : Platform) (payload_size : TaskPayload → ℕ) (spec_hash : TaskSpec → String) (now : ℕ)
    (id vm client : String) (spec : TaskSpec) (s t : Store) (v : TaskView)
    → find_request client spec.request_id s.tasks ≡ none
    → submit_task e payload_size spec_hash now id vm client spec s ≡ ok (t, v)
    → Stored now id client (spec_hash spec) spec s t × (read_task now client id false t ≡ ok v)
unfolding submit_row
submit_task-Stored e payload_size spec_hash now id vm client spec s t v fresh h =
    let (known, _, _, k, r) =
      submit_task-parts e payload_size spec_hash now id vm client spec s t v h in
    let (u, f, g) =
      >>=-eq-ok (submit_new now id vm client (spec_hash spec) spec s) _
        (rw (fresh, submit_row) at k) in
    let p = ap (λ (x : Store × String). x.0) (ok-injective g) in
    let q = ap (λ (x : Store × String). x.1) (ok-injective g) in
    (
      subst (Stored now id client (spec_hash spec) spec s) p
          (submit_new-Stored now id vm client (spec_hash spec) spec s u fresh f),
      ap (λ x. read_task now client x false t) q ∙ r,
    )

task_payload-of_row :
    (id : String) (spec : TaskSpec) (t : Store) (row : TaskRow)
    → find_task id t.tasks ≡ some row
    → row.secret ≡ some (sealed (str_append id ":payload") (record { id = id; spec = spec }))
    → may_deliver row.payload ≡ true
    → is_live_client (find_client row.payload.client t.clients) ≡ true
    → task_payload id t ≡ ok (some (record { id = id; spec = spec }))
unfolding task_payload open_payload
task_payload-of_row id spec t row f g m l =
    let same : str_eq (str_append id ":payload") (str_append id ":payload") ≡ true =
      (eq_iff (str_append id ":payload") (str_append id ":payload")).1 refl in
    let same_id : str_eq id id ≡ true = (eq_iff id id).1 refl in rw (f, g, m, l, same, same_id) refl

-- After a successful SubmitTask of a request that was not known, by a client that is known and
-- not revoked, taskPayloadTx hands out the submitted task under its ID, unchanged.
pub submit_task-payload :
    (e : Platform) (payload_size : TaskPayload → ℕ) (spec_hash : TaskSpec → String) (now : ℕ)
    (id vm client : String) (spec : TaskSpec) (s t : Store) (v : TaskView)
    → find_request client spec.request_id s.tasks ≡ none
    → is_live_client (find_client client s.clients) ≡ true
    → submit_task e payload_size spec_hash now id vm client spec s ≡ ok (t, v)
    → task_payload id t ≡ ok (some (record { id = id; spec = spec }))
unfolding may_deliver new_row new_task
submit_task-payload e payload_size spec_hash now id vm client spec s t v fresh live h =
    let (st, _) = submit_task-Stored e payload_size spec_hash now id vm client spec s t v fresh h in
    let own : st.task.client ≡ client = ap (λ (x : Task). x.client) st.task_eq in
    task_payload-of_row id spec t _ st.row_eq refl (ap may_deliver st.task_eq)
      (ap₂ (λ a b. is_live_client (find_client a b)) own st.same_clients ∙ live)

read_task-Stored :
    (later now : ℕ) (id client hash : String) (spec : TaskSpec) (s t : Store)
    (st : Stored now id client hash spec s t)
    → valid_id id ≡ true
    → (v : TaskView) × (read_task later client id false t ≡ ok v) × (v.task ≡ st.task)
unfolding read_task view_task view_outcome view_progress new_row new_task
read_task-Stored later now id client hash spec s t st h =
    let own : str_eq st.task.client client ≡ true =
      (eq_iff st.task.client client).1 (ap (λ (x : Task). x.client) st.task_eq) in
    let mine : (str_eq client "" || str_eq st.task.client client) ≡ true = ground arith in
    let a = vm_of_task st.task t in
    (
      record {
        task = st.task;
        node = node_of a;
        deadline = deadline_of a;
        state = derive_task_state st.task a none later;
        progress = "";
        outcome = none;
      },
      rw (h, st.row_eq, mine) refl,
      refl,
    )

read_task-valid_id :
    (now : ℕ) (client id : String) (t : Store) (v : TaskView)
    → read_task now client id false t ≡ ok v
    → valid_id id ≡ true
unfolding read_task
read_task-valid_id now client id t v h =
    let (_, e, _) = >>=-eq-ok (require (valid_id id) (fail "TASK_NOT_FOUND")) _ h in
    require-eq-ok _ _ e

-- After a successful SubmitTask of a request that was not known, the same request at any later
-- time, with other fresh IDs, succeeds, changes nothing and shows the same task.
pub submit_task-again :
    (e : Platform) (payload_size : TaskPayload → ℕ) (spec_hash : TaskSpec → String) (now later : ℕ)
    (id vm client id2 vm2 : String) (spec : TaskSpec) (s t : Store) (v : TaskView)
    → find_request client spec.request_id s.tasks ≡ none
    → submit_task e payload_size spec_hash now id vm client spec s ≡ ok (t, v)
    → (w : TaskView) × (submit_task e payload_size spec_hash later id2 vm2 client spec t
        ≡ ok (t, w))
      × (w.task ≡ v.task)
unfolding submit_task submit_row new_task
submit_task-again e payload_size spec_hash now later id vm client id2 vm2 spec s t v fresh h =
    let (known, valid, named, _, _) =
      submit_task-parts e payload_size spec_hash now id vm client spec s t v h in
    let (st, r) = submit_task-Stored e payload_size spec_hash now id vm client spec s t v fresh h in
    let i = read_task-valid_id now client id t v r in
    let (first, a, b) = read_task-Stored now now id client (spec_hash spec) spec s t st i in
    let (w, c, d) = read_task-Stored later now id client (spec_hash spec) spec s t st i in
    let at : st.again.payload.id ≡ id = ap (λ (x : Task). x.id) (st.again_task ∙ st.task_eq) in
    let hashed : st.again.payload.spec_hash ≡ spec_hash spec =
      ap (λ (x : Task). x.spec_hash) (st.again_task ∙ st.task_eq) in
    let same : str_eq (spec_hash spec) (spec_hash spec) ≡ true = (eq_iff _ _).1 refl in
    (
      w,
      rw (named, valid, st.again_eq, hashed, same, at, c) refl,
      d ∙ (sym b ∙ ap (λ (x : TaskView). x.task) (ok-injective (sym a ∙ r))),
    )
