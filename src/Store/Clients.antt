-- ===== src/Store/Clients.antt =====
-- internal/core/task.go: the clients of the task service and their certificates.
use runner_loom.Base.{
  ℕ, ◌+◌, Bool, true, false, not, ◌&&◌, ◌||◌, String, Option, none, some, List, [], ◌∷◌, ltb,
  str_eq, str_lt, is_some, Result, ok, fail, require, ◌>>=◌, ◌>>◌, if◌then◌else◌,
}
use runner_loom.Base.Int64.{ℤ, pos, add, eq_ℤ}
use runner_loom.Config.{Pool}
use runner_loom.Config.Names.{valid_name}
use runner_loom.Instance.{State}
use runner_loom.Task.{Task}
use runner_loom.Store.{
  Store, TaskRow, ClientRow, InstanceRow, seconds, read_config, find_client, find_row, add_audit,
  save_instance,
}
use runner_loom.Store.Tasks.{save_task, drop_secret}
use runner_loom.Store.Tasks.Report.{past_cancel}

-- `INSERT INTO clients … ON CONFLICT(name) DO UPDATE`: the table is in the order of its names.
unfoldable pub recertify : String → String → List ClientRow → List ClientRow
recertify name hash [] = []
recertify name hash (r ∷ rows) =
    (if str_eq r.name name
      then record r { certificate_hash = hash; previous_hash = ""; previous_until = 0 }
      else r)
    ∷ recertify name hash rows

unfoldable pub place_client : ClientRow → List ClientRow → List ClientRow
place_client c [] = c ∷ []
place_client c (r ∷ rows) = if str_lt r.name c.name then r ∷ place_client c rows else c ∷ r ∷ rows

unfoldable pub put_client : ℕ → String → String → List ClientRow → List ClientRow
unfolding recertify place_client
put_client now name hash rows =
    if is_some (find_client name rows)
    then recertify name hash rows
    else place_client
        (record {
          name = name;
          certificate_hash = hash;
          revoked = false;
          created = seconds now;
          previous_hash = "";
          previous_until = 0;
        })
        rows

unfoldable pub is_revoked : Option ClientRow → Bool
is_revoked none = false
is_revoked (some r) = r.revoked

-- `ApproveClient`. `sign` stands for `CA.SignClient` on the request that the client handed in, for a
-- cluster and a client name; the answer is the certificate and the cluster.
unfoldable pub approve_client :
    ℕ
    → (String → String)
    → (String → String → Result String)
    → String
    → Bool
    → Store
    → Result (Store × (String × String))
unfolding is_revoked put_client add_audit
approve_client now hash sign name replace s = do
  require (valid_name name) (fail "CLIENT_INPUT")
  let (c, revision) = read_config s
  require (not (eq_ℤ revision (pos 0))) (fail "NOT_CONFIGURED")
  let known = find_client name s.clients
  require (not (is_revoked known)) (fail "CLIENT_REVOKED")
  require (not (is_some known) || replace) (fail "CLIENT_EXISTS")
  cert ← sign c.name name
  ok (
    add_audit now "client.approve" name
        (record s { clients = put_client now name (hash cert) s.clients }),
    (cert, c.name),
  )

-- Seven days.
abbrev pub renewal_grace : ℕ
renewal_grace = 604800000000000

-- The certificate is the client's, or the one before it within the time of grace.
unfoldable pub accepts : ℕ → String → Option ClientRow → Bool
accepts now got none = false
accepts now got (some r) =
    not r.revoked
    && (str_eq r.certificate_hash got
        || not (str_eq r.previous_hash "")
          && str_eq r.previous_hash got
          && ltb (seconds now) r.previous_until)

-- `AuthorizeClient`.
unfoldable pub authorize_client :
    ℕ → (String → String) → String → String → Store → Result (Unit {0})
unfolding accepts
authorize_client now hash name cert s =
    require (accepts now (hash cert) (find_client name s.clients)) (fail "CLIENT_UNAUTHORIZED")

unfoldable pub is_current : String → ClientRow → Bool
is_current name r = str_eq r.name name && not r.revoked

unfoldable pub renew_row : ℕ → String → String → List ClientRow → List ClientRow
unfolding is_current
renew_row until name hash [] = []
renew_row until name hash (r ∷ rows) =
    (if is_current name r
      then record r {
        previous_hash = r.certificate_hash;
        previous_until = until;
        certificate_hash = hash;
      }
      else r)
    ∷ renew_row until name hash rows

unfoldable pub any_current : String → List ClientRow → Bool
unfolding is_current
any_current name [] = false
any_current name (r ∷ rows) = is_current name r || any_current name rows

-- `UpdateClientCertificate`.
unfoldable pub update_client_certificate :
    ℕ → (String → String) → String → String → Store → Result Store
unfolding any_current renew_row
update_client_certificate now hash name cert s = do
  require (any_current name s.clients) (fail "CLIENT_UNAUTHORIZED")
  ok (record s { clients = renew_row (seconds (now + renewal_grace)) name (hash cert) s.clients })

unfoldable pub revoke_row : String → List ClientRow → List ClientRow
revoke_row name [] = []
revoke_row name (r ∷ rows) =
    (if str_eq r.name name then record r { revoked = true } else r) ∷ revoke_row name rows

-- The tasks of the client that are still alive.
unfoldable pub is_live : String → TaskRow → Bool
is_live name r =
    str_eq r.payload.client name
    && is_some r.secret
    && not r.payload.cancelled
    && not r.payload.expired

unfoldable pub live_tasks : String → List TaskRow → List Task
unfolding is_live
live_tasks name [] = []
live_tasks name (r ∷ rows) =
    let rest = live_tasks name rows in if is_live name r then r.payload ∷ rest else rest

unfoldable pub mark_cancelled : ℕ → Task → Store → Store
unfolding save_task
mark_cancelled now t s = save_task (record t { cancelled = true; updated = now }) s

-- The task's VM is asked to stop, unless it is going already.
unfoldable pub cancel_placed : ℕ → Task → Option InstanceRow → Store × ℕ → Store × ℕ
unfolding mark_cancelled save_instance past_cancel
cancel_placed now t none (s, n) = (s, n)
cancel_placed now t (some r) (s, n) = if past_cancel (some r) then (s, n) else (
  mark_cancelled now t
      (save_instance (record r.payload { state = State.stopping; updated = now }) s),
  n + 1,
)

unfoldable pub cancel_one : ℕ → Task → Store × ℕ → Store × ℕ
unfolding cancel_placed mark_cancelled drop_secret
cancel_one now t (s, n) =
    if str_eq t.instance_id ""
    then (mark_cancelled now t (drop_secret t.id s), n + 1)
    else cancel_placed now t (find_row t.instance_id s.instances) (s, n)

unfoldable pub cancel_loop : ℕ → List Task → Store × ℕ → Store × ℕ
unfolding cancel_one
cancel_loop now [] sn = sn
cancel_loop now (t ∷ ts) sn = cancel_loop now ts (cancel_one now t sn)

-- `RevokeClient`, with the number of the tasks that it cancelled.
unfoldable pub revoke_client : ℕ → String → Store → Result (Store × ℕ)
unfolding revoke_row live_tasks cancel_loop add_audit
revoke_client now name s = do
  require (is_some (find_client name s.clients)) (fail "CLIENT_NOT_FOUND")
  let marked = record s { clients = revoke_row name s.clients }
  let (t, n) = cancel_loop now (live_tasks name marked.tasks) (marked, 0)
  ok (add_audit now "client.revoke" name t, n)

pub record ClientRecord : Type 0 where
  pub name : String
  pub revoked : Bool
  pub created : ℕ

-- `Clients`: the rows in the order of their names.
unfoldable pub client_records : List ClientRow → List ClientRecord
client_records [] = []
client_records (r ∷ rows) =
    record { name = r.name; revoked = r.revoked; created = r.created } ∷ client_records rows

-- `TaskPools`, in the order of their names.
unfoldable pub insert_pool : Pool → List Pool → List Pool
insert_pool p [] = p ∷ []
insert_pool p (q ∷ qs) = if str_lt q.name p.name then q ∷ insert_pool p qs else p ∷ q ∷ qs

unfoldable pub open_pools : List Pool → List Pool
unfolding insert_pool
open_pools [] = []
open_pools (p ∷ ps) =
    let rest = open_pools ps in if p.tasks && p.enabled then insert_pool p rest else rest

unfoldable pub task_pools : Store → List Pool
unfolding open_pools
task_pools s = open_pools (read_config s).0.pools

pub record TaskPool : Type 0 where
  pub name : String
  pub vcpu : ℤ
  pub memory_mib : ℤ
  pub disk_gib : ℤ
  pub execution_minutes : ℤ
  pub max_runners : ℤ

-- `TaskPoolView`.
unfoldable pub task_pool_view : Pool → TaskPool
task_pool_view p = record {
  name = p.name;
  vcpu = p.vcpu;
  memory_mib = p.memory_mib;
  disk_gib = add p.root_gib p.scratch_gib;
  execution_minutes = p.execution_minutes;
  max_runners = p.max_runners;
}
