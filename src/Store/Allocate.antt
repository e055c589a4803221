-- ===== src/Store/Allocate.antt =====
-- internal/core/store.go: `Allocate`, `SetJIT` and `StopInstance`.
use runner_loom.Base.{
  len, ℕ, true, not, ◌||◌, String, Option, none, some, List, [], ◌∷◌, str_eq, ltb, ◌==◌, Result, ok,
  err, fail, plain, ◌>>=◌, ◌>>◌, or_fail, require, if◌then◌else◌,
}
use runner_loom.Base.Int64.{ℤ, pos, le_ℤ}
use runner_loom.Config.{find_pool}
use runner_loom.Instance.{Instance, State, is_deleted, is_deleting, is_reserved}
use runner_loom.Scheduler.Place.{place}
use runner_loom.Store.{
  Store, read_config, read_instances, read_nodes, insert_instance, save_instance, set_jit_row,
  find_row,
}
use runner_loom.Store.Seal.{sealed}

unfoldable pub by_request : String → List Instance → Option Instance
by_request request [] = none
by_request request (a ∷ runs) =
    if str_eq a.request_id request then some a else by_request request runs

-- The part of `Allocate` that places a VM, after the look for an earlier answer.
unfoldable pub allocate_new : ℕ → String → String → String → Store → Result (Store × Instance)
allocate_new now id request pool s = do
  let c = (read_config s).0
  p ← or_fail (find_pool c.pools pool) (fail "POOL_NOT_FOUND")
  require (not p.tasks) (fail "TASK_POOL")
  a ← place c (read_instances s) (read_nodes s) now id request p
  t ← insert_instance a s
  ok (t, a)

unfoldable pub allocate : ℕ → String → String → String → Store → Result (Store × Instance)
unfolding by_request allocate_new
allocate now id request pool s =
    if str_eq request "" || ltb 128 (len request)
    then err (plain "invalid request ID")
    else elim (by_request request (read_instances s)) [
      | some a ↦ if str_eq a.pool.name pool then ok (s, a) else err (fail "IDEMPOTENCY_CONFLICT")
      | none ↦ allocate_new now id request pool s
    ]

unfoldable pub registered : ℕ → ℤ → Instance → Instance
registered now runner_id a = record a {
  jit_ready = true;
  runner_id = runner_id;
  state = State.provisioning;
  updated = now;
}

unfoldable pub set_jit : ℕ → String → ℤ → String → Store → Result Store
unfolding registered
set_jit now id runner_id jit s = do
  require (not (len jit == 0 || ltb 131072 (len jit) || le_ℤ runner_id (pos 0)))
      (plain "invalid JIT response")
  row ← or_fail (find_row id s.instances) (plain "sql: no rows in result set")
  if row.payload.jit_ready then ok s else do
    require (is_reserved row.payload.state) (plain "instance no longer awaiting registration")
    let t = save_instance (registered now runner_id row.payload) s
    ok (record t { instances = set_jit_row id (some (sealed id jit)) t.instances })

-- `StopInstance`: the loop acts on the first instance of the ID.
unfoldable pub stop_instance : String → Store → Result Store
stop_instance id s = do
  row ← or_fail (find_row id s.instances) (fail "INSTANCE_NOT_FOUND")
  if is_deleted row.payload.state || is_deleting row.payload.state
      then ok s
      else ok (save_instance (record row.payload { state = State.stopping }) s)
