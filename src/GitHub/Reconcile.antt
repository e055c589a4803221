-- ===== src/GitHub/Reconcile.antt =====
-- internal/github/provider.go: `Reconcile`. Each call of the store is a transaction of its own, so
-- the function gives the database that it leaves together with its error.
use runner_loom.Base.{
  ℕ, ◌-◌, Bool, false, not, ◌&&◌, ◌||◌, String, Option, none, some, List, [], ◌∷◌, ◌++◌, ltb,
  str_eq, Result, ok, err, Fault, fail, plain, if◌then◌else◌,
}
use runner_loom.Base.Int64.{ℤ, pos, add, lt_ℤ, le_ℤ, eq_ℤ}
use runner_loom.Config.{Pool}
use runner_loom.Instance.{Instance, is_reserved}
use runner_loom.Scheduler.{pool_count}
use runner_loom.Store.{Store, read_instances}
use runner_loom.Store.Allocate.{allocate, set_jit, stop_instance}
use runner_loom.Store.Messages.{Demand, demands, runner_name}

pub record Runner : Type 0 where
  pub id : ℤ
  pub name : String
  pub scale_set : ℤ

pub record Jit : Type 0 where
  pub runner : Option Runner
  pub config : String

-- `JITAPI`. Removing a mismatched JIT runner again has no answer that the code reads.
pub record JitApi : Type 0 where
  pub runner_by_name : String → Result (Option Runner)
  pub remove_runner : ℤ → Result (Unit {0})
  pub generate : String → ℤ → Result (Option Jit)

-- The last demand row of the Pool.
unfoldable pub demand_of : String → List Demand → Option Demand
demand_of pool [] = none
demand_of pool (d ∷ ds) = later (demand_of pool ds)
  where
    later : Option Demand → Option Demand
    later (some e) = some e
    later none = if str_eq d.pool pool then some d else none

-- 90 seconds.
abbrev pub demand_age : ℕ
demand_age = 90000000000

unfoldable pub is_current : ℕ → Option Demand → Bool
is_current now none = false
is_current now (some d) = not (ltb demand_age (now - d.seen)) && not d.blocked

-- `min`.
unfoldable pub min_ℤ : ℤ → ℤ → ℤ
min_ℤ a b = if le_ℤ a b then a else b

unfoldable pub target : Pool → Demand → ℤ
unfolding min_ℤ
target p d = min_ℤ p.max_runners (add d.desired p.warm_idle)

-- A database and an error.
abbrev pub Left : Type 0
Left = Store × Option Fault

unfoldable pub run_store : Store → Result Store → Left
run_store s (ok t) = (t, none)
run_store s (err f) = (s, some f)

unfoldable pub is_ours : ℤ → Instance → Runner → Bool
is_ours set a r =
    str_eq r.name (runner_name a) && (eq_ℤ r.scale_set (pos 0) || eq_ℤ r.scale_set set)

-- The fresh JIT runner is stored when it is the right one.
unfoldable pub store_jit : ℕ → ℤ → Instance → Result (Option Jit) → Store → Left
unfolding is_ours run_store
store_jit now set a (err f) s = (s, some (plain "JIT runner creation failed"))
store_jit now set a (ok none) s = (s, some (plain "JIT runner creation failed"))
store_jit now set a (ok (some j)) s = elim j.runner [
  | none ↦ (s, some (plain "JIT runner creation failed"))
  | some r ↦
      if is_ours set a r
      then run_store s (set_jit now a.id r.id j.config s)
      else (s, some (plain "JIT identity mismatch"))
]

-- A runner that GitHub has under the VM's name already.
unfoldable pub clear_old : JitApi → ℤ → Option Runner → Option Fault
clear_old api set none = none
clear_old api set (some r) =
    if eq_ℤ r.scale_set set
    then elim (api.remove_runner r.id) [
      | ok done ↦ none
      | err f ↦ some (plain "cannot remove an undelivered JIT runner")
    ]
    else some (plain "runner name belongs to another scale set")

unfoldable pub register : JitApi → ℕ → ℤ → Instance → Store → Left
unfolding clear_old store_jit
register api now set a s = elim (api.runner_by_name (runner_name a)) [
  | err f ↦ (s, some (plain "cannot reconcile runner identity"))
  | ok old ↦ elim (clear_old api set old) [
    | some f ↦ (s, some f)
    | none ↦ store_jit now set a (api.generate (runner_name a) set) s
  ]
]

-- One round of the loop over the VMs.
unfoldable pub reconcile_one : JitApi → ℕ → ℤ → Pool → Instance → Store → Left
unfolding register run_store
reconcile_one api now set p a s =
    if str_eq a.pool.name p.name && is_reserved a.state && not a.jit_ready
    then (if ltb a.deadline now
        then run_store s (stop_instance a.id s)
        else register api now set a s)
    else (s, none)

-- `return e` in a loop, or the next round.
unfoldable pub and_then : Left → (Store → Left) → Left
and_then (t, some f) next = (t, some f)
and_then (t, none) next = next t

unfoldable pub reconcile_loop : JitApi → ℕ → ℤ → Pool → List Instance → Store → Left
unfolding reconcile_one and_then
reconcile_loop api now set p [] s = (s, none)
reconcile_loop api now set p (a ∷ runs) s =
    and_then (reconcile_one api now set p a s) (reconcile_loop api now set p runs)

unfoldable pub is_full : Fault → Bool
is_full (fail code) = str_eq code "NO_CAPACITY"
is_full (plain message) = false

unfoldable pub with_new : JitApi → ℕ → ℤ → Pool → Store → Result (Store × Instance) → Left
unfolding reconcile_loop is_full
with_new api now set p s (ok (t, a)) = reconcile_loop api now set p (read_instances s ++ a ∷ []) t
with_new api now set p s (err f) = if is_full f then (s, none) else (s, some f)

unfoldable pub reconcile_demand : JitApi → ℕ → String → String → ℤ → Pool → Demand → Store → Left
unfolding target with_new reconcile_loop
reconcile_demand api now id request set p d s =
    if p.enabled && lt_ℤ (pos (pool_count p.name (read_instances s))) (target p d)
    then with_new api now set p s (allocate now id request p.name s)
    else reconcile_loop api now set p (read_instances s) s

-- `Reconcile`. `id` and `request` are the fresh IDs of a VM and of its request.
unfoldable pub reconcile : JitApi → ℕ → String → String → ℤ → Pool → Store → Left
unfolding demand_of is_current reconcile_demand
reconcile api now id request set p s = elim (demand_of p.name (demands s.demand)) [
  | none ↦ (s, none)
  | some d ↦
      if is_current now (some d) then reconcile_demand api now id request set p d s else (s, none)
]
