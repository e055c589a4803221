-- ===== src/Safety/History.antt =====
-- Every operation of the Controller in any order: what is revoked stays revoked.
pub mod Others
use runner_loom.Safety.History.Others.{apply-Kept, invite-Kept, join_cluster-Kept, maintain-Kept}
use runner_loom.Base.{
  ℕ, Bool, not, ◌&&◌, String, Option, none, some, ◌≡◌, refl, ap, sym, subst, inl, inr, str_eq, leb,
  is_some, Bool-cases, Option-cases, ok, err, fail, plain, require, or_fail, ok-injective,
  >>=-eq-ok, ltb, false, eq_iff, ◌⊎◌,
}
use runner_loom.Base.Int64.{ℤ, eq_ℤ}
use runner_loom.Config.{Config}
use runner_loom.Config.Validate.{validate}
use runner_loom.Config.Validate.Check.{Platform}
use runner_loom.Task.{TaskPayload}
use runner_loom.Store.{
  Store, Plan, InviteRow, EnrollmentRow, TaskRow, read_config, read_instances, find_task, add_audit,
  seconds,
}
use runner_loom.Store.Plans.{apply, apply_checked, find_plan, commit}
use runner_loom.Store.Plans.Capacity.{check_capacity}
use runner_loom.Store.Sync.Delivery.{task_payload}
use runner_loom.Store.Clients.{authorize_client, revoke_client}
use runner_loom.Store.Identity.{
  Pki, Invitation, JoinRequest, Enrollment, invite, join_cluster, join_row, join_new, rejoin,
  find_invite, by_invite, admits, is_origin, find_enrollment, minute, hour, same_resources,
  good_request,
}
use runner_loom.Store.Identity.Approval.{approve}
use runner_loom.Store.Identity.Authorization.{update_identity_certificate, revoke, authorize}
use runner_loom.Store.Maintenance.{
  MaintenancePolicy, MaintenanceReport, maintain, validate_policy, retire,
}
use runner_loom.Safety.Clients.{revoke_client-IsLocked}
use runner_loom.Safety.Certificates.{authorize_client-IsOut, task_payload-IsOut}
use runner_loom.Safety.Access.{
  Kept, Kept-by, plan-Kept, allocate-Kept, set_jit-Kept, stop_instance-Kept, sync-Kept,
  persist_message-Kept, refresh_demand-Kept, set_demand_flag-Kept, drain-Kept,
}
use runner_loom.Safety.Access.Tasks.{
  dispatch_tasks-Kept, cancel_task-Kept, report_task-Kept, submit_task-Kept,
}
use runner_loom.Safety.Access.Clients.{
  IsOut, approve_client-IsOut, update_client_certificate-IsOut, revoke_client-IsOut,
}
use runner_loom.Safety.Access.Nodes.{
  IsBarred, update_identity_certificate-IsBarred, revoke-IsBarred, approve-IsBarred,
  authorize-IsBarred, revoke-bars,
}
use runner_loom.Store.Messages.{set_demand_barrier, set_intake_fence, set_barrier, set_intake}
use runner_loom.Safety.Runs.{
  Step, planned, allocated, registered_runner, stop_asked, synced, message_taken, demand_refreshed,
  barrier_set, fence_set, node_drained, tasks_dispatched, task_cancelled, task_reported,
  task_submitted, client_approved, certificate_renewed, client_revoked,
}

-- One successful operation of any kind.
pub data Event (e : Platform) (k : Pki) (payload_size : TaskPayload → ℕ) (s t : Store)
    : Type 0 where
  worked : Step e payload_size s t → Event e k payload_size s t
  applied :
      (fingerprint : Config → String) (now : ℕ) (id : String) (revision : ℤ)
      → apply e fingerprint now id s ≡ ok (t, revision)
      → Event e k payload_size s t
  invited :
      (now : ℕ) (id secret endpoint : String) (ttl : ℕ) (i : Invitation)
      → invite e k now id secret endpoint ttl s ≡ ok (t, i)
      → Event e k payload_size s t
  joined :
      (now : ℕ) (id : String) (q : JoinRequest) (out : Enrollment)
      → join_cluster k now id q s ≡ ok (t, out)
      → Event e k payload_size s t
  node_approved :
      (now : ℕ) (id : String) (out : Enrollment)
      → approve e k now id s ≡ ok (t, out)
      → Event e k payload_size s t
  node_renewed :
      (name cert : String)
      → update_identity_certificate k name cert s ≡ ok t
      → Event e k payload_size s t
  node_revoked : (name : String) → revoke name s ≡ ok t → Event e k payload_size s t
  maintained :
      (now : ℕ) (stamp : String) (p : MaintenancePolicy) (apply : Bool) (report : MaintenanceReport)
      → maintain now stamp p apply s ≡ ok (t, report)
      → Event e k payload_size s t

pub data History (e : Platform) (k : Pki) (payload_size : TaskPayload → ℕ) (s : Store)
    : Store → Type 0 where
  beginning : History e k payload_size s s
  then_event :
      {t u : Store}
      → History e k payload_size s t
      → Event e k payload_size t u
      → History e k payload_size s u

-- No revocation is taken back.
pub record Lasting (t s : Store) : Type 0 where
  pub clients_out : (name : String) → IsOut name s.clients → IsOut name t.clients
  pub nodes_barred : (name : String) → IsBarred name s.identities → IsBarred name t.identities

Kept-Lasting : (t s : Store) → Kept t s → Lasting t s
Kept-Lasting t s k = record {
  clients_out = λ name o. subst (IsOut name) (ap (λ x. x.0) (sym k)) o;
  nodes_barred = λ name o. subst (IsBarred name) (ap (λ x. x.1) (sym k)) o;
}

clients_last :
    (t s : Store)
    → ((name : String) → IsOut name s.clients → IsOut name t.clients)
      × (t.identities ≡ s.identities)
    → Lasting t s
clients_last t s p = record {
  clients_out = p.0;
  nodes_barred = λ name o. subst (IsBarred name) (sym p.1) o;
}

nodes_last :
    (t s : Store)
    → ((name : String) → IsBarred name s.identities → IsBarred name t.identities)
      × (t.clients ≡ s.clients)
    → Lasting t s
nodes_last t s p = record {
  clients_out = λ name o. subst (IsOut name) (sym p.1) o;
  nodes_barred = p.0;
}

Step-Lasting :
    (e : Platform) (payload_size : TaskPayload → ℕ) (s t : Store)
    → Step e payload_size s t
    → Lasting t s
unfolding set_demand_barrier set_intake_fence
Step-Lasting e size s t (planned now id c p h) = Kept-Lasting t s (plan-Kept e now id c s t p h)
Step-Lasting e size s t (allocated now id request pool a h) =
    Kept-Lasting t s (allocate-Kept now id request pool s t a h)
Step-Lasting e size s t (registered_runner now id runner_id jit h) =
    Kept-Lasting t s (set_jit-Kept now id runner_id jit s t h)
Step-Lasting e size s t (stop_asked id h) = Kept-Lasting t s (stop_instance-Kept id s t h)
Step-Lasting e size s t (synced now name o response h) =
    Kept-Lasting t s (sync-Kept size now name o s t response h)
Step-Lasting e size s t (message_taken now session id pool desired events hash hold h) =
    Kept-Lasting t s (persist_message-Kept now session id pool desired events hash hold s t h)
Step-Lasting e size s t (demand_refreshed now pool desired h) =
    Kept-Lasting t s (refresh_demand-Kept now pool desired s t h)
Step-Lasting e size s t (barrier_set pool blocked h) =
    Kept-Lasting t s (set_demand_flag-Kept set_barrier pool blocked s t h)
Step-Lasting e size s t (fence_set pool blocked h) =
    Kept-Lasting t s (set_demand_flag-Kept set_intake pool blocked s t h)
Step-Lasting e size s t (node_drained name drained h) =
    Kept-Lasting t s (drain-Kept name drained s t h)
Step-Lasting e size s t (tasks_dispatched now ids placed h) =
    Kept-Lasting t s (dispatch_tasks-Kept now ids s t placed h)
Step-Lasting e size s t (task_cancelled now client id h) =
    Kept-Lasting t s (cancel_task-Kept now client id s t h)
Step-Lasting e size s t (task_reported now node id r h) =
    Kept-Lasting t s (report_task-Kept e now node id r s t h)
Step-Lasting e size s t (task_submitted hash now id vm client spec view h) =
    Kept-Lasting t s (submit_task-Kept e size hash now id vm client spec s t view h)
Step-Lasting e size s t (client_approved now hash sign name replace answer h) =
    clients_last t s (approve_client-IsOut now hash sign name replace s t answer h)
Step-Lasting e size s t (certificate_renewed now hash name cert h) =
    clients_last t s (update_client_certificate-IsOut now hash name cert s t h)
Step-Lasting e size s t (client_revoked now name cancelled h) =
    clients_last t s (revoke_client-IsOut now name s t cancelled h)

Event-Lasting :
    (e : Platform) (k : Pki) (payload_size : TaskPayload → ℕ) (s t : Store)
    → Event e k payload_size s t
    → Lasting t s
Event-Lasting e k size s t (worked x) = Step-Lasting e size s t x
Event-Lasting e k size s t (applied fingerprint now id revision h) =
    Kept-Lasting t s (apply-Kept e fingerprint now id s t revision h)
Event-Lasting e k size s t (invited now id secret endpoint ttl i h) =
    Kept-Lasting t s (invite-Kept e k now id secret endpoint ttl s t i h)
Event-Lasting e k size s t (joined now id q out h) =
    Kept-Lasting t s (join_cluster-Kept k now id q s t out h)
Event-Lasting e k size s t (node_approved now id out h) =
    nodes_last t s (approve-IsBarred e k now id s t out h)
Event-Lasting e k size s t (node_renewed other cert h) =
    nodes_last t s (update_identity_certificate-IsBarred k other cert s t h)
Event-Lasting e k size s t (node_revoked other h) = nodes_last t s (revoke-IsBarred other s t h)
Event-Lasting e k size s t (maintained now stamp p apply report h) =
    Kept-Lasting t s (maintain-Kept now stamp p apply s t report h)

History-Lasting :
    (e : Platform) (k : Pki) (payload_size : TaskPayload → ℕ) (s t : Store)
    → History e k payload_size s t
    → Lasting t s
History-Lasting e k size s _ beginning = Kept-Lasting s s refl
History-Lasting e k size s u (then_event {t = t} r x) =
    let before = History-Lasting e k size s t r in
    let last = Event-Lasting e k size t u x in
    record {
      clients_out = λ name o. last.clients_out name (before.clients_out name o);
      nodes_barred = λ name o. last.nodes_barred name (before.nodes_barred name o);
    }

-- A stored task is the client's.
unfoldable pub is_of : String → Option TaskRow → Bool
is_of name none = false
is_of name (some row) = str_eq row.payload.client name

withheld :
    (name id : String) (u : Store)
    → IsOut name u.clients
    → (is_of name (find_task id u.tasks) ≡ false) ⊎ (task_payload id u ≡ ok none)
unfolding is_of
withheld name id u o = elim (Option-cases (find_task id u.tasks)) [
  | inl f ↦ inl (rw (f, is_of) refl)
  | inr (row, f) ↦ elim (Bool-cases (str_eq row.payload.client name)) [
    | inl e ↦ inr (task_payload-IsOut name id u row o f ((eq_iff row.payload.client name).0 e))
    | inr e ↦ inl (rw (f, is_of) e)
  ]
]

-- After a successful RevokeClient, and after any sequence of successful operations of the
-- Controller behind it, the client is not authorized at any time with any certificate, and for
-- every task ID the stored task, if there is one, is not the client's or its payload is not
-- handed out.
pub revoked_client-refused :
    (e : Platform) (k : Pki) (payload_size : TaskPayload → ℕ) (now later : ℕ)
    (hash : String → String) (name cert id : String) (s t u : Store) (n : ℕ)
    → revoke_client now name s ≡ ok (t, n)
    → History e k payload_size t u
    → (authorize_client later hash name cert u ≡ err (fail "CLIENT_UNAUTHORIZED"))
      × ((is_of name (find_task id u.tasks) ≡ false) ⊎ (task_payload id u ≡ ok none))
revoked_client-refused e k size now later hash name cert id s t u n h past =
    let l = revoke_client-IsLocked now name s t n h in
    let o =
      (History-Lasting e k size t u past).clients_out name
        (record { row = l.client; known = l.known; revoked = l.revoked }) in
    (authorize_client-IsOut later hash name cert u o, withheld name id u o)

-- After a successful Revoke of a Node, and after any sequence of successful operations of the
-- Controller behind it, authorize refuses the Node whatever its certificate's hash.
pub revoked_node-refused :
    (e : Platform) (k : Pki) (payload_size : TaskPayload → ℕ) (name wanted : String) (s t u : Store)
    → revoke name s ≡ ok t
    → History e k payload_size t u
    → authorize name wanted u ≡ err (fail "NODE_UNAUTHORIZED")
revoked_node-refused e k size name wanted s t u h past =
    authorize-IsBarred name wanted u
      ((History-Lasting e k size t u past).nodes_barred name (revoke-bars name s t h))
