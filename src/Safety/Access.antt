-- ===== src/Safety/Access.antt =====
-- Which operations may change who has access: the clients and the Nodes' identities.
pub mod Tasks
pub mod Clients
pub mod Nodes
use runner_loom.Base.{
  ℕ, Bool, true, false, not, ◌&&◌, ◌||◌, String, Option, none, some, List, [], ◌∷◌, ◌++◌, ◌≡◌, refl,
  ap, ◌∙◌, sym, subst, inl, inr, ltb, leb, str_eq, contains, is_some, Bool-cases, Option-cases,
  Result, ok, err, fail, plain, require, or_fail, ok-injective, or_fail-eq-ok, >>=-eq-ok, ◌-◌, len,
  ◌==◌, if◌then◌else◌,
}
use runner_loom.Base.Int64.{ℤ, pos, eq_ℤ, lt_ℤ, le_ℤ}
use runner_loom.Config.{Config, find_node}
use runner_loom.Config.Names.{valid_name, valid_id}
use runner_loom.Config.Validate.{validate}
use runner_loom.Config.Validate.Check.{Platform}
use runner_loom.Instance.{
  Instance, Observation, State, is_deleted, is_deleting, is_provisioning, is_reserved, VmReport,
  running, stopped, deleted, failed, unknown, other, ReportState,
}
use runner_loom.Task.{Task, TaskPayload}
use runner_loom.Store.{
  Store, Plan, DemandRow, NodeRow, ClientRow, IdentityRow, TaskRow, read_config, read_instances,
  read_nodes, find_row, find_task, save_instance,
}
use runner_loom.Store.Plans.{plan, merge_config, has_plan}
use runner_loom.Store.Allocate.{allocate, set_jit, stop_instance}
use runner_loom.Store.Messages.{
  RunnerEvent, persist_message, persist_new, refresh_demand, set_demand_flag, drain, bad_desired,
  has_demand, has_node_row, find_inbox, events_loop, event_loop, runner_name, on_event,
}
use runner_loom.Store.Sync.{SyncResponse, sync, put_node, seen_at}
use runner_loom.Store.Sync.Report.{
  Pending, advance, advance_one, observe_if, observe, concerns, report_of, due, queue,
}
use runner_loom.Store.Tasks.{
  Round, dispatch_round, dispatch_loop, dispatch_tasks, queue_lifetime, expire, after_dispatch,
  dispatch, queued_tasks,
}
use runner_loom.Store.Tasks.Report.{cancel_row, cancel_task, stop_runs, is_over, past_cancel}
use runner_loom.Safety.Operations.{allocate-cases, allocate_new-Inserted, insert_instance-eq}
use runner_loom.Safety.Syncing.{sync-Accepted}

-- Who has access.
abbrev pub access : Store → List ClientRow × List IdentityRow
access s = (s.clients, s.identities)

abbrev pub Kept : Store → Store → Type 0
Kept t s = access t ≡ access s

pub Kept-by : {t u : Store} (s : Store) → u ≡ t → Kept u s → Kept t s
Kept-by s e k = ap access (sym e) ∙ k

pub choose-Kept : (b : Bool) (s t u : Store) → Kept t s → Kept u s → Kept (if b then t else u) s
choose-Kept true s t u p q = p
choose-Kept false s t u p q = q

pub plan-Kept :
    (e : Platform) (now : ℕ) (id : String) (c : Config) (s t : Store) (p : Plan)
    → plan e now id c s ≡ ok (t, p)
    → Kept t s
unfolding plan
plan-Kept e now id c s t p h =
    let (old, r) = read_config s in
    let (_, _, h1) = >>=-eq-ok (validate e c) _ h in
    let (_, _, h2) =
      >>=-eq-ok
        (require (not (lt_ℤ (pos 0) r && not (str_eq old.name c.name))) (fail "CLUSTER_MISMATCH")) _
        h1 in
    let (_, _, h3) = >>=-eq-ok (validate e (merge_config old c)) _ h2 in
    let (_, _, h4) =
      >>=-eq-ok (require (not (has_plan id s.plans)) (plain "UNIQUE constraint failed")) _ h3 in
    Kept-by s (ap (λ (x : Store × Plan). x.0) (ok-injective h4)) refl

pub allocate-Kept :
    (now : ℕ) (id request pool : String) (s t : Store) (a : Instance)
    → allocate now id request pool s ≡ ok (t, a)
    → Kept t s
allocate-Kept now id request pool s t a h = elim (allocate-cases now id request pool s t a h) [
  | inl (_, e) ↦ ap access e
  | inr (_, e) ↦
      ap access
        (insert_instance-eq a s t (allocate_new-Inserted now id request pool s t a e).inserted).1
]

pub set_jit-Kept :
    (now : ℕ) (id : String) (runner_id : ℤ) (jit : String) (s t : Store)
    → set_jit now id runner_id jit s ≡ ok t
    → Kept t s
unfolding set_jit save_instance
set_jit-Kept now id runner_id jit s t h =
    let (_, _, h0) =
      >>=-eq-ok
        (require (not (len jit == 0 || ltb 131072 (len jit) || le_ℤ runner_id (pos 0)))
          (plain "invalid JIT response"))
        _ h in
    let (r, _, h1) =
      >>=-eq-ok (or_fail (find_row id s.instances) (plain "sql: no rows in result set")) _ h0 in
    elim (Bool-cases r.payload.jit_ready) [
      | inl q ↦ Kept-by s (ok-injective (rw q at h1)) refl
      | inr q ↦
          let (_, _, h2) =
            >>=-eq-ok
              (require (is_reserved r.payload.state)
                (plain "instance no longer awaiting registration"))
              _ (rw q at h1) in
          Kept-by s (ok-injective h2) refl
    ]

pub stop_instance-Kept : (id : String) (s t : Store) → stop_instance id s ≡ ok t → Kept t s
unfolding stop_instance save_instance
stop_instance-Kept id s t h =
    let (r, _, h1) =
      >>=-eq-ok (or_fail (find_row id s.instances) (fail "INSTANCE_NOT_FOUND")) _ h in
    elim (Bool-cases (is_deleted r.payload.state || is_deleting r.payload.state)) [
      | inl q ↦ Kept-by s (ok-injective (rw q at h1)) refl
      | inr q ↦ Kept-by s (ok-injective (rw q at h1)) refl
    ]

observe_if-Kept :
    (r : Option VmReport) (a : Instance) (s : Store) (z : Store × Instance)
    → observe_if r a s ≡ ok z
    → Kept z.0 s
unfolding observe_if observe
observe_if-Kept none a s z h = Kept-by s (ap (λ (x : Store × Instance). x.0) (ok-injective h)) refl
observe_if-Kept (some r) a s z h = go r.state h
  where
    go : (x : ReportState) → observe x a s ≡ ok z → Kept z.0 s
    go running h = Kept-by s (ap (λ (x : Store × Instance). x.0) (ok-injective h)) refl
    go stopped h = Kept-by s (ap (λ (x : Store × Instance). x.0) (ok-injective h)) refl
    go failed h = Kept-by s (ap (λ (x : Store × Instance). x.0) (ok-injective h)) refl
    go unknown h = Kept-by s (ap (λ (x : Store × Instance). x.0) (ok-injective h)) refl
    go (other t) h = cc
    go deleted h = elim (Bool-cases (is_deleting a.state)) [
      | inl e ↦ Kept-by s (ap (λ (x : Store × Instance). x.0) (ok-injective (rw e at h))) refl
      | inr e ↦ cc (rw e at h)
    ]

advance-Kept :
    (now : ℕ) (name : String) (reports : List VmReport) (runs : List Instance) (s : Store)
    (pending : List Pending) (z : Store × List Pending)
    → advance now name reports runs (s, pending) ≡ ok z
    → Kept z.0 s
unfolding advance advance_one save_instance
advance-Kept now name reports [] s pending z h =
    Kept-by s (ap (λ (x : Store × List Pending). x.0) (ok-injective h)) refl
advance-Kept now name reports (a ∷ runs) s pending z h = elim (Bool-cases (concerns name a)) [
  | inr e ↦ advance-Kept now name reports runs s pending z (rw e at h)
  | inl e ↦
      let ((t, more), f, g) =
        >>=-eq-ok (advance_one now (report_of reports a.id) a (s, pending)) _ (rw e at h) in
      let ((u, b), p, q) = >>=-eq-ok (observe_if (report_of reports a.id) a s) _ f in
      advance-Kept now name reports runs t more z g
      ∙ Kept-by s (ap (λ (x : Store × List Pending). x.0) (ok-injective q))
          (observe_if-Kept (report_of reports a.id) a s (u, b) p)
]

pub sync-Kept :
    (payload_size : TaskPayload → ℕ) (now : ℕ) (name : String) (o : Observation) (s t : Store)
    (response : SyncResponse)
    → sync payload_size now name o s ≡ ok (t, response)
    → Kept t s
sync-Kept payload_size now name o s t response h =
    let a = sync-Accepted payload_size now name o s t response h in
    advance-Kept now name o.instances (read_instances s)
      (record s { nodes = put_node name (seen_at now o) s.nodes }) [] (t, a.pending) a.swept

event_loop-Kept :
    (now : ℕ) (pool : String) (ev : RunnerEvent) (runs : List Instance) (s : Store)
    → Kept (event_loop now pool ev runs s) s
unfolding event_loop save_instance
event_loop-Kept now pool ev [] s = refl
event_loop-Kept now pool ev (a ∷ runs) s =
    event_loop-Kept now pool ev runs _
    ∙ choose-Kept (str_eq (runner_name a) ev.name && str_eq a.pool.name pool) s _ s refl refl

events_loop-Kept :
    (now : ℕ) (pool : String) (table : List Instance) (events : List RunnerEvent) (s : Store)
    → Kept (events_loop now pool table events s) s
unfolding events_loop
events_loop-Kept now pool table [] s = refl
events_loop-Kept now pool table (ev ∷ events) s =
    events_loop-Kept now pool table events (event_loop now pool ev table s)
    ∙ event_loop-Kept now pool ev table s

pub persist_message-Kept :
    (now : ℕ) (session : String) (id : ℤ) (pool : String) (desired : ℤ) (events : List RunnerEvent)
    (hash : String) (hold : Bool) (s t : Store)
    → persist_message now session id pool desired events hash hold s ≡ ok t
    → Kept t s
unfolding persist_message persist_new
persist_message-Kept now session id pool desired events hash hold s t h =
    elim (Bool-cases (bad_desired desired || lt_ℤ id (pos 0))) [
      | inl b ↦ cc (rw b at h)
      | inr b ↦ elim (Option-cases (find_inbox session id s.inbox)) [
        | inr (m, e) ↦ elim (Bool-cases (str_eq m.hash hash)) [
          | inr f ↦ cc (rw f at (rw (e, persist_message) at (rw b at h)))
          | inl f ↦ Kept-by s (ok-injective (rw f at (rw (e, persist_message) at (rw b at h)))) refl
        ]
        | inl e ↦
            Kept-by s (ok-injective (rw (e, persist_message) at (rw b at h)))
              (events_loop-Kept now pool (read_instances s) events s)
      ]
    ]

pub refresh_demand-Kept :
    (now : ℕ) (pool : String) (desired : ℤ) (s t : Store)
    → refresh_demand now pool desired s ≡ ok t
    → Kept t s
unfolding refresh_demand
refresh_demand-Kept now pool desired s t h =
    elim (Bool-cases (not (valid_name pool) || bad_desired desired)) [
      | inl e ↦ cc (rw (e, refresh_demand) at h)
      | inr e ↦ Kept-by s (ok-injective (rw (e, refresh_demand) at h)) refl
    ]

pub set_demand_flag-Kept :
    (column : String → Bool → List DemandRow → List DemandRow) (pool : String) (blocked : Bool)
    (s t : Store)
    → set_demand_flag column pool blocked s ≡ ok t
    → Kept t s
unfolding set_demand_flag
set_demand_flag-Kept column pool blocked s t h =
    let (_, _, h1) = >>=-eq-ok (require (valid_name pool) (plain "invalid demand")) _ h in
    let (_, _, h2) =
      >>=-eq-ok (require (has_demand pool s.demand) (plain "demand not found")) _ h1 in
    Kept-by s (ok-injective h2) refl

pub drain-Kept :
    (name : String) (drained : Bool) (s t : Store) → drain name drained s ≡ ok t → Kept t s
unfolding drain
drain-Kept name drained s t h =
    let (_, _, h1) =
      >>=-eq-ok (require (has_node_row name s.nodes) (fail "NODE_NOT_OBSERVED")) _ h in
    Kept-by s (ok-injective h1) refl
