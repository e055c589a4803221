-- ===== src/Safety/Effects/Cancelled.antt =====
-- `CancelTask` stops the VM of a task that is still open, and no other one.
use runner_loom.Base.{
  ℕ, Bool, true, false, not, ◌&&◌, ◌||◌, String, some, List, [], ◌∷◌, ◌≡◌, refl, ap, ◌∙◌, sym,
  subst, inl, inr, str_eq, contains, is_some, In, map, arith, Bool-cases, Option-cases, eq_iff, ok,
  fail, require, or_fail, ok-injective, or_fail-eq-ok, >>=-eq-ok, if◌then◌else◌,
}
use runner_loom.Config.Names.{valid_id}
use runner_loom.Instance.{Instance, State, is_deleted, is_deleting}
use runner_loom.Store.{
  Store, InstanceRow, TaskRow, payloads, read_instances, find_row, find_task, save_instance,
}
use runner_loom.Store.Tasks.Report.{stop_runs, is_over, past_cancel, cancel_row, cancel_task}
use runner_loom.Store.Sync.Moves.Rows.{payloads-save_row, save_run}
use runner_loom.Ledger.{Distinct, keys}
use runner_loom.Ledger.Grow.{eq_of_name}
use runner_loom.Safety.Rows.{find_row-In}
use runner_loom.Safety.Reports.{stop_runs-absent}
use runner_loom.Safety.Effects.{may_stop}
use runner_loom.Safety.Effects.Rows.{
  map-same, save_run-one, may_stop-not, find_row-none, chosen, passed, clash,
}

-- A task that is placed and has not ended.
unfoldable pub is_open : TaskRow → Bool
is_open r =
    not r.payload.cancelled
    && not r.payload.expired
    && not (is_some r.outcome)
    && not (str_eq r.payload.instance_id "")

unfoldable pub is_vm : TaskRow → Instance → Bool
unfolding is_open may_stop
is_vm r a = is_open r && str_eq a.id r.payload.instance_id && may_stop a.state

-- The task's VM is to stop.
unfoldable pub halt_vm : ℕ → TaskRow → Instance → Instance
unfolding is_vm
halt_vm now r a = if is_vm r a then record a { state = State.stopping; updated = now } else a

is_over-not : (a : Instance) → is_over a ≡ not (may_stop a.state)
unfolding is_over
is_over-not a = or_swap (is_deleting a.state) (is_deleted a.state) ∙ may_stop-not a.state
  where
    or_swap : (b c : Bool) → (b || c) ≡ (c || b)
    or_swap b c = ground arith

halt_vm-other : (now : ℕ) (r : TaskRow) (a : Instance) → is_vm r a ≡ false → halt_vm now r a ≡ a
unfolding halt_vm
halt_vm-other now r a e = rw e refl

halt_vm-vm :
    (now : ℕ) (r : TaskRow) (a : Instance)
    → is_vm r a ≡ true
    → halt_vm now r a ≡ record a { state = State.stopping; updated = now }
unfolding halt_vm
halt_vm-vm now r a e = rw e refl

is_vm-true : (o i v m : Bool) → o ≡ true → (i && not v) ≡ true → v ≡ not m → (o && i && m) ≡ true
is_vm-true o i v m p q e = ground arith

is_vm-false : (o i v m : Bool) → (i && not v) ≡ false → v ≡ not m → (o && i && m) ≡ false
is_vm-false o i v m q e = ground arith

not_this : (o i m : Bool) → i ≡ false → (o && i && m) ≡ false
not_this o i m e = ground arith

elsewhere :
    (r : TaskRow) (x : Instance) → str_eq x.id r.payload.instance_id ≡ false → is_vm r x ≡ false
unfolding is_vm
elsewhere r x k = not_this (is_open r) (str_eq x.id r.payload.instance_id) (may_stop x.state) k

-- The loop stops the one row that it looks for.
module _ (now : ℕ) (r : TaskRow) (table : List Instance) (d : Distinct (λ a. a.id) table)
    (o : is_open r ≡ true) where
  vm_true :
      (a : Instance)
      → (str_eq a.id r.payload.instance_id && not (is_over a)) ≡ true
      → is_vm r a ≡ true
  unfolding is_vm
  vm_true a q =
      is_vm-true (is_open r) (str_eq a.id r.payload.instance_id) (is_over a) (may_stop a.state) o q
        (is_over-not a)

  vm_false :
      (a : Instance)
      → (str_eq a.id r.payload.instance_id && not (is_over a)) ≡ false
      → is_vm r a ≡ false
  unfolding is_vm
  vm_false a q =
      is_vm-false (is_open r) (str_eq a.id r.payload.instance_id) (is_over a) (may_stop a.state) q
        (is_over-not a)

  stop_runs-halt_vm :
      (runs : List Instance) (s : Store)
      → read_instances s ≡ table
      → Distinct (λ a. a.id) runs
      → ((x : Instance) → In x runs → In x table)
      → ((x : Instance) → In x table → is_vm r x ≡ true → In x runs)
      → read_instances (stop_runs now r.payload.instance_id runs s) ≡ map (halt_vm now r) table
  unfolding stop_runs save_instance
  stop_runs-halt_vm [] s e u m f =
      e
      ∙ sym (
          map-same (halt_vm now r) table (λ x n. elim (Bool-cases (is_vm r x)) [
            | inl q ↦ absurd (f x n q)
            | inr q ↦ halt_vm-other now r x q
          ]))
  stop_runs-halt_vm (a ∷ runs) s e u m f =
      let id = r.payload.instance_id in
      let b = record a { state = State.stopping; updated = now } in
      let c = str_eq a.id id && not (is_over a) in
      elim (Bool-cases c) [
        | inl q ↦
            let i : a.id ≡ id = (eq_iff a.id id).0 (first (str_eq a.id id) (is_over a) q) in
            ap (λ z. read_instances (stop_runs now id runs z)) (chosen c (save_instance b s) s q)
            ∙ ap read_instances (
                stop_runs-absent now id runs (save_instance b s)
                  (subst (λ y. contains (keys (λ x. x.id) runs) y ≡ false) i u.0))
            ∙ payloads-save_row b s.instances
            ∙ ap (save_run b) e
            ∙ save_run-one (halt_vm now r) b a table d (m a (inl refl)) refl
                (halt_vm-vm now r a (vm_true a q))
                (λ x k.
                  halt_vm-other now r x (elsewhere r x (subst (λ y. str_eq x.id y ≡ false) i k)))
        | inr q ↦
            ap (λ z. read_instances (stop_runs now id runs z)) (passed c (save_instance b s) s q)
            ∙ stop_runs-halt_vm runs s e u.1 (λ x n. m x (inr n))
                (λ x n k. elim (f x n k) [
                  | inl g ↦ absurd (clash (vm_false a q) (subst (λ y. is_vm r y ≡ true) (sym g) k))
                  | inr g ↦ g
                ])
      ]
    where
      first : (x y : Bool) → (x && not y) ≡ true → x ≡ true
      first x y h = ground arith

-- Of a task that is not open no VM stops, and none of one whose VM is over or gone.
closed_kept :
    (now : ℕ) (r : TaskRow) (runs : List Instance)
    → is_open r ≡ false
    → map (halt_vm now r) runs ≡ runs
unfolding is_vm
closed_kept now r runs o = map-same (halt_vm now r) runs (λ x n.
    halt_vm-other now r x
      (not_open (is_open r) (str_eq x.id r.payload.instance_id) (may_stop x.state) o))
  where
    not_open : (o i m : Bool) → o ≡ false → (o && i && m) ≡ false
    not_open o i m e = ground arith

over_kept : (r : TaskRow) (x : Instance) → is_over x ≡ true → is_vm r x ≡ false
unfolding is_vm
over_kept r x e =
    not_may (is_open r) (str_eq x.id r.payload.instance_id) (is_over x) (may_stop x.state) e
      (is_over-not x)
  where
    not_may : (o i v m : Bool) → v ≡ true → v ≡ not m → (o && i && m) ≡ false
    not_may o i v m e k = ground arith

past_kept :
    (now : ℕ) (r : TaskRow) (rows : List InstanceRow)
    → Distinct (λ a. a.id) (payloads rows)
    → past_cancel (find_row r.payload.instance_id rows) ≡ true
    → map (halt_vm now r) (payloads rows) ≡ payloads rows
unfolding past_cancel
past_kept now r rows d h =
    let id = r.payload.instance_id in
    map-same (halt_vm now r) (payloads rows) (λ x n.
      halt_vm-other now r x (elim (Option-cases (find_row id rows)) [
        | inl e ↦ elsewhere r x (find_row-none id rows e x n)
        | inr (q, e) ↦ elim (Bool-cases (str_eq x.id id)) [
          | inr k ↦ elsewhere r x k
          | inl k ↦
              let (m, i) = find_row-In id rows q e in
              let same : q.payload ≡ x =
                eq_of_name (λ (y : Instance). y.id) (payloads rows) d m n
                  (i ∙ sym ((eq_iff x.id id).0 k)) in
              over_kept r x (subst (λ y. is_over y ≡ true) same (rw (e, past_cancel) at h))
        ]
      ]))

cancel_row-halt_vm :
    (now : ℕ) (r : TaskRow) (s : Store)
    → Distinct (λ a. a.id) (read_instances s)
    → read_instances (cancel_row now r s) ≡ map (halt_vm now r) (read_instances s)
unfolding cancel_row is_open
cancel_row-halt_vm now r s d =
    elim (Bool-cases (r.payload.cancelled || r.payload.expired || is_some r.outcome)) [
      | inl e ↦ rw e (
          sym (
            closed_kept now r (read_instances s)
              (ended r.payload.cancelled r.payload.expired (is_some r.outcome) _ e)))
      | inr e ↦ rw e (elim (Bool-cases (str_eq r.payload.instance_id "")) [
        | inl f ↦ rw f (
            sym (
              closed_kept now r (read_instances s)
                (queued r.payload.cancelled r.payload.expired (is_some r.outcome) _ f)))
        | inr f ↦
            rw f (elim (Bool-cases (past_cancel (find_row r.payload.instance_id s.instances))) [
              | inl g ↦ rw g (sym (past_kept now r s.instances d g))
              | inr g ↦ rw g (
                  stop_runs-halt_vm now r (read_instances s) d
                    (working r.payload.cancelled r.payload.expired (is_some r.outcome) _ e f)
                    (read_instances s) _ refl d (λ x n. n) (λ x n k. n))
            ])
      ])
    ]
  where
    ended : (a b c q : Bool) → (a || b || c) ≡ true → (not a && not b && not c && not q) ≡ false
    ended a b c q h = ground arith

    queued : (a b c q : Bool) → q ≡ true → (not a && not b && not c && not q) ≡ false
    queued a b c q h = ground arith

    working :
        (a b c q : Bool)
        → (a || b || c) ≡ false
        → q ≡ false
        → (not a && not b && not c && not q) ≡ true
    working a b c q h k = ground arith

-- Where VM IDs are unique, a successful CancelTask of a stored task marks the task's VM Stopping
-- when the task is placed, not cancelled, not expired and without a result and the VM's deletion
-- is neither under way nor done, and leaves every other row of the VMs as it is.
pub cancel_task-halt_vm :
    (now : ℕ) (client id : String) (s t : Store) (r : TaskRow)
    → Distinct (λ a. a.id) (read_instances s)
    → find_task id s.tasks ≡ some r
    → cancel_task now client id s ≡ ok t
    → read_instances t ≡ map (halt_vm now r) (read_instances s)
unfolding cancel_task
cancel_task-halt_vm now client id s t r d f h =
    let (_, _, h1) = >>=-eq-ok (require (valid_id id) (fail "TASK_NOT_FOUND")) _ h in
    let (q, e, h2) = >>=-eq-ok (or_fail (find_task id s.tasks) (fail "TASK_NOT_FOUND")) _ h1 in
    let (_, _, h3) =
      >>=-eq-ok
        (require (str_eq client "" || str_eq q.payload.client client) (fail "TASK_NOT_FOUND")) _
        h2 in
    let same : q ≡ r = cc (or_fail-eq-ok _ _ e, f) in
    ap read_instances (sym (ok-injective h3))
    ∙ cancel_row-halt_vm now q s d
    ∙ ap (λ y. map (halt_vm now y) (read_instances s)) same
