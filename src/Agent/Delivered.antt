-- ===== src/Agent/Delivered.antt =====
-- The commands that `Sync` delivers are commands that the agent takes.
use runner_loom.Base.{
  ℕ, true, false, not, ◌&&◌, ◌||◌, String, Option, none, some, List, [], ◌∷◌, ◌≡◌, refl, ap, ◌∙◌,
  subst, inl, inr, leb, length, str_eq, All, arith, Bool-cases, ok, plain, or_fail, ok-injective,
  >>=-eq-ok, eq_iff, All-snoc, length-append, ◌≤◌, ◌+◌,
}
use runner_loom.Base.Int64.{ℤ}
use runner_loom.Resources
use runner_loom.Resources.{Resources}
use runner_loom.Config.{charge}
use runner_loom.Instance.{Instance}
use runner_loom.Task.{TaskPayload}
use runner_loom.Store.{Store, InstanceRow, find_row}
use runner_loom.Store.Seal.{unseal}
use runner_loom.Store.Sync.Report.{Pending, Action, delete, stop, ensure}
use runner_loom.Store.Sync.Delivery.{
  Command, Parcel, command_of, deliver, jit_parcel, pack, parcel, task_parcel, task_payload,
  too_big,
}
use runner_loom.Agent.{accept_command, is_ensure, stray_payload, unfit_task}
use runner_loom.Safety.Repeats.{task_payload-Live}

-- What holds of a VM of the Node whose commands are delivered: it is the Node's, its size is within
-- the ceiling, and it has a task exactly when its Pool is one for tasks.
pub record IsFit (node : String) (ceiling : Resources) (a : Instance) : Type 0 where
  pub same_node : str_eq a.node node ≡ true
  pub fits : Resources.fits (charge a.pool) ceiling ≡ true
  pub linked : a.pool.tasks ≡ not (str_eq a.task "")

accepted_bare :
    (node : String) (ceiling : Resources) (item : Pending) (jit : String)
    → IsFit node ceiling item.run
    → (is_ensure item.action && not (str_eq item.run.task "")) ≡ false
    → accept_command node ceiling
        (record { run = item.run; action = item.action; jit = jit; task = none })
      ≡ ok tt
unfolding accept_command stray_payload unfit_task
accepted_bare node ceiling item jit f h =
    let tasks = f.linked in
    let fits : (not (is_ensure item.action) || Resources.fits (charge item.run.pool) ceiling)
        ≡ true =
      rw f.fits (ground arith) in
    let calm : (is_ensure item.action
          && (not (str_eq item.run.task "") || item.run.pool.tasks)
          && (true || not (str_eq jit "") || not item.run.pool.tasks || str_eq item.run.task ""))
        ≡ false =
      rw tasks (ground arith) in
    rw (f.same_node, fits, calm) refl

accepted_task :
    (node : String) (ceiling : Resources) (run : Instance) (p : TaskPayload)
    → IsFit node ceiling run
    → str_eq run.task "" ≡ false
    → p.id ≡ run.task
    → accept_command node ceiling (record { run = run; action = ensure; jit = ""; task = some p })
      ≡ ok tt
unfolding accept_command stray_payload unfit_task is_ensure
accepted_task node ceiling run p f h e =
    let linked : run.pool.tasks ≡ true = f.linked ∙ rw h refl in
    let same : str_eq p.id run.task ≡ true = (eq_iff p.id run.task).1 e in
    rw (f.same_node, f.fits, linked, h, same) refl

module _ (payload_size : TaskPayload → ℕ) (node : String) (ceiling : Resources) where
  abbrev Accepted : Command → Type 0
  Accepted cmd = accept_command node ceiling cmd ≡ ok tt

  abbrev sent : Instance → Action → Parcel → Command
  sent run x c = record { run = run; action = x; jit = c.jit; task = c.task }

  some_eq : {A : Type 0} {a b : A} → some a ≡ some b → a ≡ b
  some_eq h = cc

  task_parcel-accept_command :
      (run : Instance) (o : Option TaskPayload) (c : Parcel)
      → IsFit node ceiling run
      → str_eq run.task "" ≡ false
      → ((p : TaskPayload) → o ≡ some p → p.id ≡ run.task)
      → task_parcel payload_size o ≡ some c
      → Accepted (sent run ensure c)
  unfolding task_parcel
  task_parcel-accept_command run none c f g live h = cc
  task_parcel-accept_command run (some p) c f g live h =
      subst (λ k. Accepted (sent run ensure k)) (some_eq h)
        (accepted_task node ceiling run p f g (live p refl))

  jit_parcel-accept_command :
      (run : Instance) (row : Option InstanceRow) (c : Parcel)
      → IsFit node ceiling run
      → str_eq run.task "" ≡ true
      → jit_parcel payload_size run.id row ≡ ok (some c)
      → Accepted (sent run ensure c)
  unfolding jit_parcel is_ensure
  jit_parcel-accept_command run row c f g h =
      let (found, _, h1) = >>=-eq-ok (or_fail row (plain "sql: no rows in result set")) _ h in
      let (jit, _, h2) = >>=-eq-ok (unseal run.id found.jit) _ h1 in
      subst (λ k. Accepted (sent run ensure k)) (some_eq (ok-injective h2))
        (accepted_bare node ceiling (record { run = run; action = ensure }) jit f (rw g refl))

  parcel-accept_command :
      (s : Store) (run : Instance) (x : Action) (c : Parcel)
      → IsFit node ceiling run
      → parcel payload_size s (record { run = run; action = x }) ≡ ok (some c)
      → Accepted (sent run x c)
  unfolding parcel is_ensure
  parcel-accept_command s run stop c f h =
      subst (λ k. Accepted (sent run stop k)) (some_eq (ok-injective h))
        (accepted_bare node ceiling (record { run = run; action = stop }) "" f refl)
  parcel-accept_command s run delete c f h =
      subst (λ k. Accepted (sent run delete k)) (some_eq (ok-injective h))
        (accepted_bare node ceiling (record { run = run; action = delete }) "" f refl)
  parcel-accept_command s run ensure c f h = elim (Bool-cases (str_eq run.task "")) [
    | inl e ↦
        jit_parcel-accept_command run (find_row run.id s.instances) c f e (rw (e, parcel) at h)
    | inr e ↦
        let (p, g, k) = >>=-eq-ok (task_payload run.task s) _ (rw (e, parcel) at h) in
        task_parcel-accept_command run p c f e
          (λ q w. (task_payload-Live run.task s q (g ∙ ap ok w)).same_task) (ok-injective k)
  ]

  -- The commands that are packed stay few and accepted.
  pack-accept_command :
      (s : Store) (item : Pending) (c : Option Parcel) (budget : ℤ) (commands : List Command)
      → IsFit node ceiling item.run
      → parcel payload_size s item ≡ ok c
      → All Accepted commands
      → All Accepted (pack payload_size item c (budget, commands)).1
  unfolding pack command_of
  pack-accept_command s item none budget commands f h a = a
  pack-accept_command s item (some c) budget commands f h a =
      elim (Bool-cases (too_big payload_size budget c commands)) [
        | inl e ↦ rw e a
        | inr e ↦ rw e (
            All-snoc Accepted commands (sent item.run item.action c) a
              (parcel-accept_command s item.run item.action c f h))
      ]

  pack-length :
      (item : Pending) (c : Option Parcel) (budget : ℤ) (commands : List Command)
      → length (pack payload_size item c (budget, commands)).1 ≤ length commands + 1
  unfolding pack
  pack-length item none budget commands = omega arith
  pack-length item (some c) budget commands =
      elim (Bool-cases (too_big payload_size budget c commands)) [
        | inl e ↦ rw e (omega arith)
        | inr e ↦ rw e (omega (arith, length-append commands (command_of payload_size item c ∷ [])))
      ]

  pub deliver-accept_command :
      (s : Store) (items : List Pending) (budget : ℤ) (commands out : List Command)
      → All (λ item. IsFit node ceiling item.run) items
      → All Accepted commands
      → length commands ≤ 4
      → deliver payload_size s items (budget, commands) ≡ ok out
      → All Accepted out × (length out ≤ 4)
  unfolding deliver
  deliver-accept_command s [] budget commands out f a n h =
      subst (λ x. All Accepted x × (length x ≤ 4)) (ok-injective h) (a, n)
  deliver-accept_command s (item ∷ items) budget commands out f a n h =
      elim (Bool-cases (leb 4 (length commands))) [
        | inl e ↦ subst (λ x. All Accepted x × (length x ≤ 4)) (ok-injective (rw e at h)) (a, n)
        | inr e ↦
            let (c, g, k) = >>=-eq-ok (parcel payload_size s item) _ (rw e at h) in
            let (left, more) = pack payload_size item c (budget, commands) in
            let few = pack-length item c budget commands in
            deliver-accept_command s items left more out f.1
              (pack-accept_command s item c budget commands f.0 g a) (ground arith) k
      ]
