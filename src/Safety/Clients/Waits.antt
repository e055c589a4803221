-- ===== src/Safety/Clients/Waits.antt =====
-- The tasks of a client that the loop of RevokeClient has not reached yet.
use runner_loom.Base.{
  ℕ, Bool, true, false, not, ◌&&◌, ◌||◌, String, Option, none, some, List, [], ◌∷◌, ◌≡◌, refl, sym,
  subst, inl, inr, str_eq, In, All, All-of_members, arith, Bool-cases, eq_iff,
}
use runner_loom.Task.{Task}
use runner_loom.Store.{Store, TaskRow, ClientRow, InstanceRow, find_client, find_row}
use runner_loom.Store.Tasks.{save_task_row, is_queued}
use runner_loom.Store.Sync.Report.{erase_secret}
use runner_loom.Store.Tasks.Report.{past_cancel}
use runner_loom.Store.Clients.{
  revoke_row, is_live, live_tasks, mark_cancelled, cancel_placed, cancel_one, cancel_loop,
}

-- A task that is still to be cancelled in the loop, and has no VM.
unfoldable pub waits : String → List Task → Bool
waits id [] = false
waits id (t ∷ ts) = str_eq t.id id && str_eq t.instance_id "" || waits id ts

module _ (name : String) where
  -- No task of the client waits for a VM, but those that the loop is still to cancel.
  abbrev Ahead : List Task → List TaskRow → Type 0
  Ahead ts =
      All
        (λ r. (str_eq r.payload.client name && is_queued r && not (waits r.payload.id ts)) ≡ false)

  live_tasks-waits :
      (rows : List TaskRow) (r : TaskRow)
      → In r rows
      → (str_eq r.payload.client name && is_queued r) ≡ true
      → waits r.payload.id (live_tasks name rows) ≡ true
  unfolding waits live_tasks is_live is_queued
  live_tasks-waits [] r m h = absurd m
  live_tasks-waits (q ∷ rows) r (inl e) h =
      subst (λ x. waits x.payload.id (live_tasks name (q ∷ rows)) ≡ true) e (here (back e))
    where
      back : q ≡ r → (str_eq q.payload.client name && is_queued q) ≡ true
      back e = subst (λ x. (str_eq x.payload.client name && is_queued x) ≡ true) (sym e) h

      here :
          (str_eq q.payload.client name && is_queued q) ≡ true
          → waits q.payload.id (live_tasks name (q ∷ rows)) ≡ true
      here k = ground (arith, eq_iff q.payload.id q.payload.id)
  live_tasks-waits (q ∷ rows) r (inr m) h = ground (arith, live_tasks-waits rows r m h)

  save-Ahead :
      (now : ℕ) (t : Task) (ts : List Task) (rows : List TaskRow)
      → Ahead (t ∷ ts) rows
      → Ahead ts (save_task_row (record t { cancelled = true; updated = now }) rows)
  unfolding waits save_task_row is_queued
  save-Ahead now t ts [] h = tt
  save-Ahead now t ts (r ∷ rows) h = elim (Bool-cases (str_eq r.payload.id t.id)) [
    | inl e ↦ rw e (ground arith, save-Ahead now t ts rows h.1)
    | inr e ↦ rw e (
      ground (arith, eq_iff t.id r.payload.id, eq_iff r.payload.id t.id),
      save-Ahead now t ts rows h.1,
    )
  ]

  erase-Ahead :
      (id : String) (ts : List Task) (rows : List TaskRow)
      → Ahead ts rows
      → Ahead ts (erase_secret id rows)
  unfolding erase_secret is_queued
  erase-Ahead id ts [] h = tt
  erase-Ahead id ts (r ∷ rows) h = elim (Bool-cases (str_eq r.payload.id id)) [
    | inl e ↦ rw e (ground arith, erase-Ahead id ts rows h.1)
    | inr e ↦ rw e (h.0, erase-Ahead id ts rows h.1)
  ]

  placed-Ahead :
      (t : Task) (ts : List Task) (rows : List TaskRow)
      → str_eq t.instance_id "" ≡ false
      → Ahead (t ∷ ts) rows
      → Ahead ts rows
  unfolding waits
  placed-Ahead t ts [] e h = tt
  placed-Ahead t ts (r ∷ rows) e h = (ground arith, placed-Ahead t ts rows e h.1)

  cancel_one-Ahead :
      (now : ℕ) (t : Task) (ts : List Task) (s : Store) (n : ℕ)
      → Ahead (t ∷ ts) s.tasks
      → Ahead ts (cancel_one now t (s, n)).0.tasks
  unfolding cancel_one cancel_placed mark_cancelled
  cancel_one-Ahead now t ts s n h = elim (Bool-cases (str_eq t.instance_id "")) [
    | inl e ↦ rw e (save-Ahead now t ts _ (erase-Ahead t.id (t ∷ ts) s.tasks h))
    | inr e ↦ rw e (placed e (find_row t.instance_id s.instances))
  ]
    where
      placed :
          str_eq t.instance_id "" ≡ false
          → (o : Option InstanceRow) → Ahead ts (cancel_placed now t o (s, n)).0.tasks
      placed e none = placed-Ahead t ts s.tasks e h
      placed e (some r) = elim (Bool-cases (past_cancel (some r))) [
        | inl f ↦ rw f (placed-Ahead t ts s.tasks e h)
        | inr f ↦ rw f (save-Ahead now t ts s.tasks h)
      ]

  pub cancel_loop-Ahead :
      (now : ℕ) (ts : List Task) (s : Store) (n : ℕ)
      → Ahead ts s.tasks
      → Ahead [] (cancel_loop now ts (s, n)).0.tasks
  unfolding cancel_loop
  cancel_loop-Ahead now [] s n h = h
  cancel_loop-Ahead now (t ∷ ts) s n h =
      let (u, m) = cancel_one now t (s, n) in
      cancel_loop-Ahead now ts u m (cancel_one-Ahead now t ts s n h)

  pub start-Ahead : (rows : List TaskRow) → Ahead (live_tasks name rows) rows
  start-Ahead rows = All-of_members _ rows (λ r m. member r m)
    where
      member :
          (r : TaskRow)
          → In r rows
          → (str_eq r.payload.client name
              && is_queued r
              && not (waits r.payload.id (live_tasks name rows)))
            ≡ false
      member r m = elim (Bool-cases (str_eq r.payload.client name && is_queued r)) [
        | inl e ↦ ground (arith, live_tasks-waits rows r m e)
        | inr e ↦ ground arith
      ]

pub find_client-revoke_row :
    (name : String) (rows : List ClientRow)
    → find_client name (revoke_row name rows)
      ≡ elim (find_client name rows) [ none ↦ none | some r ↦ some (record r { revoked = true }) ]
unfolding find_client revoke_row
find_client-revoke_row name [] = refl
find_client-revoke_row name (r ∷ rows) = elim (Bool-cases (str_eq r.name name)) [
  | inl e ↦ rw e (rw e refl)
  | inr e ↦ rw e (rw e (find_client-revoke_row name rows))
]
