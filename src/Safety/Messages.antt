-- ===== src/Safety/Messages.antt =====
-- `PersistMessage` marks VMs as events say and gives nothing back.
use runner_loom.Base.{
  ℕ, Bool, true, false, ◌&&◌, ◌||◌, String, List, [], ◌∷◌, ◌≡◌, refl, ◌∙◌, sym, subst, inl, inr,
  str_eq, All, In, All-of_members, arith, Bool-cases, Option-cases, eq_iff, ok, ok-injective,
  if◌then◌else◌,
}
use runner_loom.Base.Int64.{ℤ, pos, lt_ℤ}
use runner_loom.Resources.Laws.{IsNonneg}
use runner_loom.Instance.{Instance, active}
use runner_loom.Store.{Store, read_config, read_instances, save_instance}
use runner_loom.Store.Messages.{
  RunnerEvent, EventState, busy, complete, other, on_event, event_loop, events_loop, persist_new,
  persist_message, find_inbox, bad_desired, runner_name,
}
use runner_loom.Store.Sync.Moves.{Same}
use runner_loom.Store.Sync.Moves.Rows.{save_run, payloads-save_row}
use runner_loom.Ledger.{Distinct, Ledger, IsSound}
use runner_loom.Ledger.Shrink.{Below, Pointwise, Ledger-Below}
use runner_loom.Ledger.Grow.{eq_of_name}
use runner_loom.Safety.{IsSafe}
use runner_loom.Safety.Rows.{Below-Same_held, Pointwise-ids, Distinct-keys}
use runner_loom.Safety.Operations.{read_config-eq}

-- The same VM with the same resources.
abbrev pub Kin : Instance → Instance → Type 0
Kin b a = Same b a × (b.held ≡ a.held)

Kin-refl : (a : Instance) → Kin a a
Kin-refl a = (
  record {
    same_id = refl;
    same_request = refl;
    same_node = refl;
    same_pool = refl;
    same_image = refl;
    same_reservation = refl;
    same_task = refl;
    same_deadline = refl;
  },
  refl,
)

Kin-rows : (runs : List Instance) → Pointwise Kin runs runs
Kin-rows [] = tt
Kin-rows (a ∷ runs) = (Kin-refl a, Kin-rows runs)

Kin-Below :
    (bs runs : List Instance)
    → All (λ a. IsNonneg a.held) runs
    → Pointwise Kin bs runs
    → Pointwise Below bs runs
Kin-Below [] [] n p = tt
Kin-Below [] (a ∷ runs) n p = absurd p
Kin-Below (b ∷ bs) [] n p = absurd p
Kin-Below (b ∷ bs) (a ∷ runs) n p = (Below-Same_held b a p.0.0 p.0.1 n.0, Kin-Below bs runs n.1 p.1)

save_run-Kin :
    (b : Instance) (bs runs : List Instance)
    → All (λ a. a.id ≡ b.id → Kin b a) runs
    → Pointwise Kin bs runs
    → Pointwise Kin (save_run b bs) runs
save_run-Kin b [] [] h p = tt
save_run-Kin b [] (a ∷ runs) h p = absurd p
save_run-Kin b (x ∷ bs) [] h p = absurd p
save_run-Kin b (x ∷ bs) (a ∷ runs) h p = elim (Bool-cases (str_eq x.id b.id)) [
  | inl e ↦ rw e (h.0 (sym p.0.0.same_id ∙ (eq_iff x.id b.id).0 e), save_run-Kin b bs runs h.1 p.1)
  | inr e ↦ rw e (p.0, save_run-Kin b bs runs h.1 p.1)
]

-- What an event writes is the VM that the transaction read, marked.
on_event-Kin :
    (now : ℕ) (state : EventState) (outcome : String) (a : Instance)
    → Kin (record (on_event state outcome a) { updated = now }) a
unfolding on_event
on_event-Kin now busy outcome a = elim (Bool-cases (active a)) [
  | inl e ↦ rw e (ground arith, refl)
  | inr e ↦ rw e (ground arith, refl)
]
on_event-Kin now complete outcome a = (ground arith, refl)
on_event-Kin now (other w) outcome a = (ground arith, refl)

module _ (now : ℕ) (pool : String) (table : List Instance) (d : Distinct (λ a. a.id) table) where
  write-Kin :
      (b a : Instance) (s : Store)
      → In a table
      → Kin b a
      → Pointwise Kin (read_instances s) table
      → Pointwise Kin (read_instances (save_instance b s)) table
  unfolding save_instance
  write-Kin b a s m k p =
      subst (λ rows. Pointwise Kin rows table) (sym (payloads-save_row b s.instances))
        (save_run-Kin b (read_instances s) table
          (All-of_members _ table (λ x i e.
            subst (Kin b)
              (eq_of_name (λ (y : Instance). y.id) table d m i (sym k.0.same_id ∙ sym e)) k))
          p)

  -- The table after some events, and the configuration.
  abbrev IsKin : Store → Store → Type 0
  IsKin t s = Pointwise Kin (read_instances t) table × (t.settings ≡ s.settings)

  choose-IsKin : (c : Bool) (u t s : Store) → IsKin u s → IsKin t s → IsKin (if c then u else t) s
  choose-IsKin true u t s p q = p
  choose-IsKin false u t s p q = q

  event_loop-Kin :
      (ev : RunnerEvent) (runs : List Instance) (s : Store)
      → All (λ a. In a table) runs
      → Pointwise Kin (read_instances s) table
      → IsKin (event_loop now pool ev runs s) s
  unfolding event_loop save_instance
  event_loop-Kin ev [] s m p = (p, refl)
  event_loop-Kin ev (a ∷ runs) s m p =
      let b = record (on_event ev.state ev.outcome a) { updated = now } in
      let (q, e) =
        choose-IsKin (str_eq (runner_name a) ev.name && str_eq a.pool.name pool) (save_instance b s)
          s s (write-Kin b a s m.0 (on_event-Kin now ev.state ev.outcome a) p, refl) (p, refl) in
      let (r, f) = event_loop-Kin ev runs _ m.1 q in (r, f ∙ e)

  events_loop-Kin :
      (events : List RunnerEvent) (s : Store)
      → Pointwise Kin (read_instances s) table
      → Pointwise Kin (read_instances (events_loop now pool table events s)) table
        × ((events_loop now pool table events s).settings ≡ s.settings)
  unfolding events_loop
  events_loop-Kin [] s p = (p, refl)
  events_loop-Kin (ev ∷ events) s p =
      let (q, e) =
        event_loop-Kin ev table s (All-of_members (λ a. In a table) table (λ a m. m)) p in
      let (r, f) = events_loop-Kin events (event_loop now pool ev table s) q in (r, f ∙ e)

-- Rows that are the same VMs with the same resources are as safe.
Kin-IsSafe :
    (t s : Store)
    → t.settings ≡ s.settings
    → Pointwise Kin (read_instances t) (read_instances s)
    → IsSafe s
    → IsSafe t
Kin-IsSafe t s e p v =
    let c = read_config-eq t s e in
    record {
      sound = subst IsSound (sym c) v.sound;
      ledger =
          subst (λ d. Ledger d (read_instances t)) (sym c)
            (Ledger-Below (read_config s).0 (read_instances t) (read_instances s)
              (Kin-Below (read_instances t) (read_instances s) v.ledger.nonneg p) v.ledger);
      distinct =
          Distinct-keys (read_instances t) (read_instances s)
            (Pointwise-ids Kin (λ b a k. k.0.same_id) (read_instances t) (read_instances s) p)
            v.distinct;
    }

-- A message that PersistMessage takes on a sound database leaves a sound database, whatever
-- runner events it holds.
pub persist_message-IsSafe :
    (now : ℕ) (session : String) (id : ℤ) (pool : String) (desired : ℤ) (events : List RunnerEvent)
    (hash : String) (hold : Bool) (s t : Store)
    → IsSafe s
    → persist_message now session id pool desired events hash hold s ≡ ok t
    → IsSafe t
unfolding persist_message persist_new
persist_message-IsSafe now session id pool desired events hash hold s t v h =
    elim (Bool-cases (bad_desired desired || lt_ℤ id (pos 0))) [
      | inl b ↦ cc (rw b at h)
      | inr b ↦ elim (Option-cases (find_inbox session id s.inbox)) [
        | inr (m, e) ↦ elim (Bool-cases (str_eq m.hash hash)) [
          | inr f ↦ cc (rw f at (rw (e, persist_message) at (rw b at h)))
          | inl f ↦ subst IsSafe (ok-injective (rw f at (rw (e, persist_message) at (rw b at h)))) v
        ]
        | inl e ↦
            let (p, q) =
              events_loop-Kin now pool (read_instances s) v.distinct events s
                (Kin-rows (read_instances s)) in
            subst IsSafe (ok-injective (rw (e, persist_message) at (rw b at h)))
              (Kin-IsSafe (persist_new now session id pool desired events hash hold s) s q p v)
      ]
    ]
