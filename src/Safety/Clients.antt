-- ===== src/Safety/Clients.antt =====
-- A client that is revoked is locked out, its waiting tasks end, and the database stays sound.
pub mod Waits
use runner_loom.Safety.Clients.Waits.{waits, find_client-revoke_row, cancel_loop-Ahead, start-Ahead}
use runner_loom.Base.{
  ℕ, Bool, true, false, not, ◌&&◌, ◌||◌, String, Option, none, some, List, [], ◌∷◌, ◌≡◌, refl, ap,
  ◌∙◌, sym, subst, inl, inr, str_eq, In, All, All-of_members, All-map, arith, Bool-cases,
  Option-cases, eq_iff, ok, fail, is_some, require, ok-injective, >>=-eq-ok,
}
use runner_loom.Instance.{Instance, State}
use runner_loom.Task.{Task}
use runner_loom.Store.{
  Store, TaskRow, ClientRow, InstanceRow, find_client, find_row, read_instances, save_instance,
  IdentityRow,
}
use runner_loom.Store.Tasks.{save_task_row, is_queued}
use runner_loom.Store.Sync.Report.{erase_secret}
use runner_loom.Store.Tasks.Report.{past_cancel}
use runner_loom.Store.Clients.{
  revoke_row, is_live, live_tasks, mark_cancelled, cancel_placed, cancel_one, cancel_loop,
  revoke_client,
}
use runner_loom.Store.Sync.Moves.{Same}
use runner_loom.Safety.{IsSafe}
use runner_loom.Safety.Rows.{find_row-In}
use runner_loom.Safety.Operations.{save-IsSafe}
use runner_loom.Safety.Tasks.{IsSafe-same}

cancel_placed-IsSafe :
    (now : ℕ) (t : Task) (o : Option InstanceRow) (s : Store) (n : ℕ)
    → ((r : InstanceRow) → o ≡ some r → In r.payload (read_instances s))
    → IsSafe s
    → IsSafe (cancel_placed now t o (s, n)).0
unfolding cancel_placed mark_cancelled
cancel_placed-IsSafe now t none s n m v = v
cancel_placed-IsSafe now t (some r) s n m v = elim (Bool-cases (past_cancel (some r))) [
  | inl e ↦ rw e v
  | inr e ↦
      rw e (IsSafe-same _ stopped refl refl (save-IsSafe b r.payload s v (m r refl) same refl))
]
  where
    b : Instance
    b = record r.payload { state = State.stopping; updated = now }

    stopped : Store
    stopped = save_instance b s

    same : Same b r.payload
    same = record {
      same_id = refl;
      same_request = refl;
      same_node = refl;
      same_pool = refl;
      same_image = refl;
      same_reservation = refl;
      same_task = refl;
      same_deadline = refl;
    }

cancel_one-IsSafe :
    (now : ℕ) (t : Task) (s : Store) (n : ℕ) → IsSafe s → IsSafe (cancel_one now t (s, n)).0
unfolding cancel_one mark_cancelled
cancel_one-IsSafe now t s n v = elim (Bool-cases (str_eq t.instance_id "")) [
  | inl e ↦ rw e (IsSafe-same _ s refl refl v)
  | inr e ↦ rw e (
      cancel_placed-IsSafe now t (find_row t.instance_id s.instances) s n
        (λ r f. (find_row-In t.instance_id s.instances r f).0) v)
]

cancel_loop-IsSafe :
    (now : ℕ) (ts : List Task) (s : Store) (n : ℕ) → IsSafe s → IsSafe (cancel_loop now ts (s, n)).0
unfolding cancel_loop
cancel_loop-IsSafe now [] s n v = v
cancel_loop-IsSafe now (t ∷ ts) s n v =
    let (u, m) = cancel_one now t (s, n) in
    cancel_loop-IsSafe now ts u m (cancel_one-IsSafe now t s n v)

pub revoke_client-IsSafe :
    (now : ℕ) (name : String) (s t : Store) (n : ℕ)
    → IsSafe s
    → revoke_client now name s ≡ ok (t, n)
    → IsSafe t
unfolding revoke_client
revoke_client-IsSafe now name s t n v h =
    let (_, _, h1) =
      >>=-eq-ok (require (is_some (find_client name s.clients)) (fail "CLIENT_NOT_FOUND")) _ h in
    let marked = record s { clients = revoke_row name s.clients } in
    let (u, _) = cancel_loop now (live_tasks name s.tasks) (marked, 0) in
    subst IsSafe (ap (λ (x : Store × ℕ). x.0) (ok-injective h1)) (
      IsSafe-same _ u refl refl
        (cancel_loop-IsSafe now (live_tasks name s.tasks) marked 0 (IsSafe-same _ s refl refl v)))

-- The clients and the identities.
abbrev pub access_of : Store → List ClientRow × List IdentityRow
access_of s = (s.clients, s.identities)

-- The rows of the clients stay while the tasks are cancelled.
cancel_one-access :
    (now : ℕ) (t : Task) (s : Store) (n : ℕ) → access_of (cancel_one now t (s, n)).0 ≡ access_of s
unfolding cancel_one cancel_placed mark_cancelled
cancel_one-access now t s n = elim (Bool-cases (str_eq t.instance_id "")) [
  | inl e ↦ rw e refl
  | inr e ↦ rw e (placed (find_row t.instance_id s.instances))
]
  where
    placed : (o : Option InstanceRow) → access_of (cancel_placed now t o (s, n)).0 ≡ access_of s
    placed none = refl
    placed (some r) = elim (Bool-cases (past_cancel (some r))) [
      | inl e ↦ rw e refl
      | inr e ↦ rw e refl
    ]

pub cancel_loop-access :
    (now : ℕ) (ts : List Task) (s : Store) (n : ℕ)
    → access_of (cancel_loop now ts (s, n)).0 ≡ access_of s
unfolding cancel_loop
cancel_loop-access now [] s n = refl
cancel_loop-access now (t ∷ ts) s n =
    let (u, m) = cancel_one now t (s, n) in
    cancel_loop-access now ts u m ∙ cancel_one-access now t s n

-- What holds of a client that is locked out.
pub record IsLocked (name : String) (s : Store) : Type 0 where
  pub client : ClientRow
  pub known : find_client name s.clients ≡ some client
  pub revoked : client.revoked ≡ true
  pub none_waits : All (λ r. (str_eq r.payload.client name && is_queued r) ≡ false) s.tasks

-- After a successful RevokeClient the client is stored as revoked and no task of its waits for a
-- VM.
pub revoke_client-IsLocked :
    (now : ℕ) (name : String) (s t : Store) (n : ℕ)
    → revoke_client now name s ≡ ok (t, n)
    → IsLocked name t
unfolding revoke_client waits
revoke_client-IsLocked now name s t n h =
    let (_, k, h1) =
      >>=-eq-ok (require (is_some (find_client name s.clients)) (fail "CLIENT_NOT_FOUND")) _ h in
    let marked = record s { clients = revoke_row name s.clients } in
    let ts = live_tasks name s.tasks in
    let (u, _) = cancel_loop now ts (marked, 0) in
    let rows = cancel_loop-Ahead name now ts marked 0 (start-Ahead name s.tasks) in
    elim (Option-cases (find_client name s.clients)) [
      | inl e ↦ cc (rw e at k)
      | inr (r, e) ↦ subst (IsLocked name) (ap (λ (x : Store × ℕ). x.0) (ok-injective h1)) (record {
        client = record r { revoked = true };
        known =
            ap (λ x. find_client name x.0) (cancel_loop-access now ts marked 0)
            ∙ (find_client-revoke_row name s.clients ∙ rw e refl);
        revoked = refl;
        none_waits = All-map _ _ (λ r q. ground arith) u.tasks rows;
      })
    ]
