-- ===== src/GitHub/Steps.antt =====
-- What `Reconcile` may do, as a relation that says when each action is allowed, and that `Reconcile`
-- follows it.
use runner_loom.Base.{
  ℕ, ◌+◌, ◌≤◌, ◌<◌, true, false, String, Option, none, some, List, [], ◌∷◌, ◌++◌, ◌≡◌, ◌⊎◌, str_eq,
  ok, err, Fault, fail,
}
use runner_loom.Base.Int64.{ℤ, pos, add, lt_ℤ, eq_ℤ}
use runner_loom.Config.{Pool}
use runner_loom.Instance.{Instance, is_reserved}
use runner_loom.Scheduler.{pool_count}
use runner_loom.Store.{Store, read_instances}
use runner_loom.Store.Allocate.{allocate, set_jit, stop_instance}
use runner_loom.Store.Messages.{Demand, demands, runner_name}
use runner_loom.GitHub.Reconcile.{JitApi, Jit, Runner, Left, demand_of}

-- The Pool's VM waits for a runner.
abbrev pub Waits : Pool → Instance → Type 0
Waits p a = (a.pool.name ≡ p.name) × (is_reserved a.state ≡ true) × (a.jit_ready ≡ false)

abbrev pub WaitsNot : Pool → Instance → Type 0
WaitsNot p a =
    (str_eq a.pool.name p.name ≡ false) ⊎ (is_reserved a.state ≡ false) ⊎ (a.jit_ready ≡ true)

-- The runner bears the VM's name, and belongs to the scale set or to none.
abbrev pub Fits : ℤ → Instance → Runner → Type 0
Fits set a r =
    (r.name ≡ runner_name a) × ((eq_ℤ r.scale_set (pos 0) ≡ true) ⊎ (eq_ℤ r.scale_set set ≡ true))

module _ (api : JitApi) (now : ℕ) (set : ℤ) where
  -- A runner that GitHub had under the name was the scale set's, and is removed.
  pub data Cleared : Option Runner → Type 0 where
    nothing : Cleared none
    removed :
        (r : Runner)
        → eq_ℤ r.scale_set set ≡ true
        → api.remove_runner r.id ≡ ok tt
        → Cleared (some r)

  -- What is done for a VM that waits: it is given up behind its deadline, and registered before.
  pub data Act (a : Instance) (s t : Store) : Type 0 where
    given_up : a.deadline < now → stop_instance a.id s ≡ ok t → Act a s t
    registered :
        (old : Option Runner) (j : Jit) (r : Runner)
        → now ≤ a.deadline
        → api.runner_by_name (runner_name a) ≡ ok old
        → Cleared old
        → api.generate (runner_name a) set ≡ ok (some j)
        → j.runner ≡ some r
        → Fits set a r
        → set_jit now a.id r.id j.config s ≡ ok t
        → Act a s t

  -- Why nothing can be done for it.
  pub data Blocked (a : Instance) (s : Store) : Type 0 where
    cannot_stop : (f : Fault) → a.deadline < now → stop_instance a.id s ≡ err f → Blocked a s
    no_answer :
        (f : Fault) → now ≤ a.deadline → api.runner_by_name (runner_name a) ≡ err f → Blocked a s
    foreign :
        (r : Runner)
        → now ≤ a.deadline
        → api.runner_by_name (runner_name a) ≡ ok (some r)
        → eq_ℤ r.scale_set set ≡ false
        → Blocked a s
    cannot_remove :
        (r : Runner) (f : Fault)
        → now ≤ a.deadline
        → api.runner_by_name (runner_name a) ≡ ok (some r)
        → api.remove_runner r.id ≡ err f
        → Blocked a s
    no_jit : (f : Fault) → now ≤ a.deadline → api.generate (runner_name a) set ≡ err f → Blocked a s
    empty_jit : now ≤ a.deadline → api.generate (runner_name a) set ≡ ok none → Blocked a s
    no_runner :
        (j : Jit)
        → now ≤ a.deadline
        → api.generate (runner_name a) set ≡ ok (some j)
        → j.runner ≡ none
        → Blocked a s
    other_runner :
        (j : Jit) (r : Runner)
        → now ≤ a.deadline
        → api.generate (runner_name a) set ≡ ok (some j)
        → j.runner ≡ some r
        → (str_eq r.name (runner_name a) ≡ false)
          ⊎ ((eq_ℤ r.scale_set (pos 0) ≡ false) × (eq_ℤ r.scale_set set ≡ false))
        → Blocked a s
    not_stored :
        (f : Fault) (r : Runner) (j : Jit)
        → now ≤ a.deadline
        → Fits set a r
        → set_jit now a.id r.id j.config s ≡ err f
        → Blocked a s

  module _ (p : Pool) where
    -- The VMs in order: one action for each that waits, up to the first that is blocked.
    pub data Rounds : List Instance → Store → Left → Type 0 where
      done : (s : Store) → Rounds [] s (s, none)
      passed_over :
          (a : Instance) (runs : List Instance) (s : Store) (l : Left)
          → WaitsNot p a
          → Rounds runs s l
          → Rounds (a ∷ runs) s l
      acted :
          (a : Instance) (runs : List Instance) (s t : Store) (l : Left)
          → Waits p a
          → Act a s t
          → Rounds runs t l
          → Rounds (a ∷ runs) s l
      stuck :
          (a : Instance) (runs : List Instance) (s : Store) (f : Fault)
          → Waits p a
          → Blocked a s
          → Rounds (a ∷ runs) s (s, some f)

    -- The demand is at most 90 seconds old, and nothing holds it back.
    abbrev pub Current : Store → Demand → Type 0
    Current s d =
        (demand_of p.name (demands s.demand) ≡ some d)
        × (now ≤ d.seen + 90000000000)
        × (d.blocked ≡ false)

    abbrev pub Outdated : Store → Type 0
    Outdated s =
        (demand_of p.name (demands s.demand) ≡ none)
        ⊎ ((d : Demand) × (demand_of p.name (demands s.demand) ≡ some d)
            × ((d.seen + 90000000000 < now) ⊎ (d.blocked ≡ true)))

    -- Another VM is wanted: fewer are there than the Pool may have, and than demand and reserve ask.
    abbrev pub HasRoom : Store → Demand → Type 0
    HasRoom s d =
        (p.enabled ≡ true)
        × (lt_ℤ (pos (pool_count p.name (read_instances s))) p.max_runners ≡ true)
        × (lt_ℤ (pos (pool_count p.name (read_instances s))) (add d.desired p.warm_idle) ≡ true)

    abbrev pub HasNoRoom : Store → Demand → Type 0
    HasNoRoom s d =
        (p.enabled ≡ false)
        ⊎ (lt_ℤ (pos (pool_count p.name (read_instances s))) p.max_runners ≡ false)
        ⊎ (lt_ℤ (pos (pool_count p.name (read_instances s))) (add d.desired p.warm_idle) ≡ false)

    -- One run over the Pool: from a database to the one that is left, with the error.
    pub data Reconciled (id request : String) (s : Store) : Left → Type 0 where
      idle : Outdated s → Reconciled id request s (s, none)
      grown :
          (d : Demand) (a : Instance) (t : Store) (l : Left)
          → Current s d
          → HasRoom s d
          → allocate now id request p.name s ≡ ok (t, a)
          → Rounds (read_instances s ++ a ∷ []) t l
          → Reconciled id request s l
      full :
          (d : Demand)
          → Current s d
          → HasRoom s d
          → allocate now id request p.name s ≡ err (fail "NO_CAPACITY")
          → Reconciled id request s (s, none)
      refused :
          (d : Demand) (f : Fault)
          → Current s d
          → HasRoom s d
          → allocate now id request p.name s ≡ err f
          → Reconciled id request s (s, some f)
      steady :
          (d : Demand) (l : Left)
          → Current s d
          → HasNoRoom s d
          → Rounds (read_instances s) s l
          → Reconciled id request s l
