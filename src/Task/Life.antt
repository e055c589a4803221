-- ===== src/Task/Life.antt =====
-- internal/core/task.go: what `deriveTaskState` promises.
use runner_loom.Base.{
  ℕ, ◌≤◌, true, false, Option, none, some, ◌≡◌, ◌≢◌, refl, inl, inr, str_eq, arith, Bool-cases,
}
use runner_loom.Instance.{Instance, State}
use runner_loom.Task.{Task, TaskResult}
use runner_loom.Task.State.{
  terminal, succeeded, derive_task_state, state_by_result, state_by_vm, state_with_vm,
  state_without_vm, state_of_result, vm_over,
}

state_with_vm-stable :
    (t : Task) (a : Instance) (now later : ℕ)
    → now ≤ later
    → terminal (state_with_vm t a now) ≡ true
    → state_with_vm t a later ≡ state_with_vm t a now
unfolding state_with_vm terminal
state_with_vm-stable t a now later le h = go a.state h
  where
    go :
        (x : State)
        → terminal (state_with_vm t (record a { state = x }) now) ≡ true
        → state_with_vm t (record a { state = x }) later
          ≡ state_with_vm t (record a { state = x }) now
    go State.reserved h = ground arith
    go State.provisioning h = ground arith
    go State.idle h = ground arith
    go State.busy h = ground arith
    go State.finishing h = ground arith
    go State.stopping h = ground arith
    go State.deleting h = ground arith
    go State.deleted h = ground arith

state_by_vm-stable :
    (t : Task) (a : Option Instance) (now later : ℕ)
    → now ≤ later
    → terminal (state_by_vm t a now) ≡ true
    → state_by_vm t a later ≡ state_by_vm t a now
unfolding state_by_vm
state_by_vm-stable t none now later le h = refl
state_by_vm-stable t (some a) now later le h = state_with_vm-stable t a now later le h

state_by_result-stable :
    (t : Task) (a : Option Instance) (r : Option TaskResult) (now later : ℕ)
    → now ≤ later
    → terminal (state_by_result t a r now) ≡ true
    → state_by_result t a r later ≡ state_by_result t a r now
unfolding state_by_result
state_by_result-stable t a none now later le h = state_by_vm-stable t a now later le h
state_by_result-stable t a (some r) now later le h = elim (Bool-cases (vm_over a)) [
  | inl e ↦ rw e refl
  | inr e ↦ rw e (state_by_vm-stable t a now later le (rw (e, state_by_result) at h))
]

-- A terminal state that is derived from a task, its VM and its result is derived from them at
-- every later time too.
pub derive_task_state-stable :
    (t : Task) (a : Option Instance) (r : Option TaskResult) (now later : ℕ)
    → now ≤ later
    → terminal (derive_task_state t a r now) ≡ true
    → derive_task_state t a r later ≡ derive_task_state t a r now
unfolding derive_task_state state_by_result state_by_vm
derive_task_state-stable t a r now later le h = elim (Bool-cases t.expired) [
  | inl e ↦ rw e refl
  | inr e ↦ rw e (state_by_result-stable t a r now later le (rw (e, derive_task_state) at h))
]

state_by_vm-ne_succeeded :
    (t : Task) (a : Option Instance) (now : ℕ) → state_by_vm t a now ≢ succeeded
unfolding state_by_vm state_without_vm
state_by_vm-ne_succeeded t none now h = ground arith
state_by_vm-ne_succeeded t (some a) now h = go a.state h
  where
    go : (x : State) → state_with_vm t (record a { state = x }) now ≢ succeeded
    go State.reserved h = ground arith
    go State.provisioning h = ground arith
    go State.idle h = ground arith
    go State.busy h = ground arith
    go State.finishing h = ground arith
    go State.stopping h = ground arith
    go State.deleting h = ground arith
    go State.deleted h = ground arith

state_by_result-succeeded :
    (t : Task) (a : Option Instance) (r : Option TaskResult) (now : ℕ)
    → state_by_result t a r now ≡ succeeded
    → (vm_over a ≡ true) × ((x : TaskResult) × (r ≡ some x) × (str_eq x.status "succeeded" ≡ true))
unfolding state_by_result state_of_result
state_by_result-succeeded t a none now h = absurd (state_by_vm-ne_succeeded t a now h)
state_by_result-succeeded t a (some r) now h = elim (Bool-cases (vm_over a)) [
  | inr e ↦ absurd (state_by_vm-ne_succeeded t a now (rw (e, state_by_result) at h))
  | inl e ↦ elim (Bool-cases (str_eq r.status "succeeded")) [
    | inl f ↦ (e, (r, refl, f))
    | inr f ↦ let k = rw (f, state_of_result) at (rw (e, state_by_result) at h) in ground arith
  ]
]

-- A task is shown as succeeded only when its VM is gone or being deleted, it did not expire, and
-- its result has the status succeeded.
pub derive_task_state-succeeded :
    (t : Task) (a : Option Instance) (r : Option TaskResult) (now : ℕ)
    → derive_task_state t a r now ≡ succeeded
    → (vm_over a ≡ true)
      × (t.expired ≡ false)
      × ((x : TaskResult) × (r ≡ some x) × (str_eq x.status "succeeded" ≡ true))
unfolding derive_task_state
derive_task_state-succeeded t a r now h = elim (Bool-cases t.expired) [
  | inl e ↦ cc (rw (e, derive_task_state) at h)
  | inr e ↦
      let (v, x) = state_by_result-succeeded t a r now (rw (e, derive_task_state) at h) in (v, e, x)
]
