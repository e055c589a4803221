-- ===== src/Safety/Repeats.antt =====
-- Requests that are sent again, and what a task's payload needs to be delivered.
use runner_loom.Base.{
  ℕ, Bool, true, false, ◌&&◌, ◌||◌, String, Option, some, List, ◌≡◌, refl, ap, ◌∙◌, sym, subst, inl,
  inr, str_eq, arith, Bool-cases, Option-cases, eq_iff, ok, fail, or_fail, or_fail-eq-ok,
  ok-injective, >>=-eq-ok,
}
use Prim.Native.String.{◌++◌ as str_append}
use runner_loom.Base.Int64.{ℤ, pos, negsuc, eq_ℤ, lt_ℤ}
use runner_loom.Task.{TaskPayload}
use runner_loom.Store.{Store, TaskRow, ClientRow, InboxRow, find_task, find_client, seconds}
use runner_loom.Store.Seal.{Sealed, unseal}
use runner_loom.Store.Sync.Delivery.{task_payload, may_deliver, is_live_client, open_payload}
use runner_loom.Store.Messages.{RunnerEvent, persist_message, persist_new, find_inbox, bad_desired}

-- What holds when a payload is delivered.
pub record Live (id : String) (s : Store) (p : TaskPayload) : Type 0 where
  pub row : TaskRow
  pub stored : find_task id s.tasks ≡ some row
  pub not_cancelled : row.payload.cancelled ≡ false
  pub not_expired : row.payload.expired ≡ false
  pub client : ClientRow
  pub client_known : find_client row.payload.client s.clients ≡ some client
  pub not_revoked : client.revoked ≡ false
  pub same_task : p.id ≡ id

open_payload-id :
    (id : String) (box : Option (Sealed TaskPayload)) (p : TaskPayload)
    → open_payload id box ≡ ok (some p)
    → p.id ≡ id
unfolding open_payload
open_payload-id id box p h =
    let (q, e, f) = >>=-eq-ok (unseal (str_append id ":payload") box) _ h in
    elim (Bool-cases (str_eq q.id id)) [
      | inl g ↦
          let r : q ≡ p = cc (ok-injective (rw g at f)) in
          ap (λ (x : TaskPayload). x.id) (sym r) ∙ (eq_iff q.id id).0 g
      | inr g ↦ cc (rw g at f)
    ]

-- When taskPayloadTx hands out a payload, the task is stored, neither cancelled nor expired, its
-- client is known and not revoked, and the payload is that task's own.
pub task_payload-Live :
    (id : String) (s : Store) (p : TaskPayload) → task_payload id s ≡ ok (some p) → Live id s p
unfolding task_payload may_deliver is_live_client
task_payload-Live id s p h =
    let (row, e, h1) = >>=-eq-ok (or_fail (find_task id s.tasks) (fail "TASK_NOT_FOUND")) _ h in
    elim (Option-cases row.secret) [
      | inl f ↦ cc (ok-injective (rw f at h1))
      | inr (box, f) ↦
          elim (Bool-cases (
            may_deliver row.payload && is_live_client (find_client row.payload.client s.clients))) [
              | inr g ↦ cc (ok-injective (rw g at (rw f at h1)))
              | inl g ↦ elim (Option-cases (find_client row.payload.client s.clients)) [
                | inl k ↦ absurd (ground arith)
                | inr (c, k) ↦ record {
                  row = row;
                  stored = or_fail-eq-ok _ _ e;
                  not_cancelled = ground arith;
                  not_expired = ground arith;
                  client = c;
                  client_known = k;
                  not_revoked = ground arith;
                  same_task = open_payload-id id (some box) p (rw g at (rw f at h1));
                }
              ]
            ]
    ]

pub eq_ℤ-refl : (z : ℤ) → eq_ℤ z z ≡ true
eq_ℤ-refl (pos n) = ground arith
eq_ℤ-refl (negsuc n) = ground arith

module _ (session : String) (id : ℤ) (pool : String) (desired : ℤ) (events : List RunnerEvent)
    (hash : String) (hold : Bool) where
  -- A message of the inbox changes nothing.
  known_message :
      (now : ℕ) (s : Store) (m : InboxRow)
      → (bad_desired desired || lt_ℤ id (pos 0)) ≡ false
      → find_inbox session id s.inbox ≡ some m
      → str_eq m.hash hash ≡ true
      → persist_message now session id pool desired events hash hold s ≡ ok s
  unfolding persist_message
  known_message now s m b e f = rw b (rw e (rw f refl))

  new_inbox :
      (now : ℕ) (s : Store)
      → (m : InboxRow) × (find_inbox session id
            (persist_new now session id pool desired events hash hold s).inbox
          ≡ some m)
        × (str_eq m.hash hash ≡ true)
  unfolding persist_new find_inbox
  new_inbox now s = (
    record { session = session; id = id; hash = hash; created = seconds now },
    rw ((eq_iff session session).1 refl, eq_ℤ-refl id) refl,
    (eq_iff hash hash).1 refl,
  )

-- A message that PersistMessage has taken is taken again, at any time, without any change.
pub persist_message-repeated :
    (now later : ℕ) (session : String) (id : ℤ) (pool : String) (desired : ℤ)
    (events : List RunnerEvent) (hash : String) (hold : Bool) (s t : Store)
    → persist_message now session id pool desired events hash hold s ≡ ok t
    → persist_message later session id pool desired events hash hold t ≡ ok t
unfolding persist_message
persist_message-repeated now later session id pool desired events hash hold s t h =
    elim (Bool-cases (bad_desired desired || lt_ℤ id (pos 0))) [
      | inl b ↦ cc (rw b at h)
      | inr b ↦ elim (Option-cases (find_inbox session id s.inbox)) [
        | inr (m, e) ↦ elim (Bool-cases (str_eq m.hash hash)) [
          | inr f ↦ cc (rw f at (rw (e, persist_message) at (rw b at h)))
          | inl f ↦
              again (ok-injective (rw f at (rw (e, persist_message) at (rw b at h))))
                (known_message session id pool desired events hash hold later s m b e f)
        ]
        | inl e ↦
            let (m, k, f) = new_inbox session id pool desired events hash hold now s in
            again (ok-injective (rw (e, persist_message) at (rw b at h))) (
              known_message session id pool desired events hash hold later
                (persist_new now session id pool desired events hash hold s) m b k f)
      ]
    ]
  where
    again :
        {u : Store}
        → u ≡ t
        → persist_message later session id pool desired events hash hold u ≡ ok u
        → persist_message later session id pool desired events hash hold t ≡ ok t
    again e q =
        subst (λ x. persist_message later session id pool desired events hash hold x ≡ ok x) e q
