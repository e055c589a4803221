-- ===== src/Safety/Tasks.antt =====
-- Task placement and cancellation keep the database sound, and a guest's report changes no VM.
use runner_loom.Base.{
  ℕ, ◌-◌, not, ◌||◌, String, Option, none, some, List, [], ◌∷◌, ◌++◌, ◌≡◌, refl, ap, ◌∙◌, sym,
  subst, inl, inr, ltb, contains, All, arith, Bool-cases, Option-cases, Result, ok, ok-injective,
  >>=-eq-ok,
}
use Prim.Native.String.{◌++◌ as str_append}
use runner_loom.Base.Int64.{pos, eq_ℤ}
use runner_loom.Config.{Config, Pool, find_pool}
use runner_loom.Instance.{Instance}
use runner_loom.Scheduler.Place.{place}
use runner_loom.Task.{Task}
use runner_loom.Store.{
  Store, payloads, read_config, read_instances, read_nodes, insert_instance, place_row,
}
use runner_loom.Store.Tasks.{
  Round, for_task, dispatch_at, dispatch_pool, dispatch, dispatch_round, dispatch_loop,
  dispatch_tasks, queue_lifetime, expire, after_dispatch, is_no_capacity, queued_tasks,
}
use runner_loom.Resources.Laws.{IsNonneg}
use runner_loom.Ledger.{Ledger, IsSound, Distinct}
use runner_loom.Ledger.Shrink.{Below, Below-refl, Pointwise, Ledger-Below}
use runner_loom.Ledger.Alike.{
  Alike, Alike-refl, Alike-sym, Alike-trans, Alike-cons, Alike-snoc, Ledger-Alike,
}
use runner_loom.Ledger.Allocate.{place-Ledger}
use runner_loom.Ledger.Rows.{place_row-Alike}
use runner_loom.Safety.{IsSafe}
use runner_loom.Safety.Operations.{
  find_pool-name, row_of, insert_instance-eq, insert-IsSafe, read_config-eq,
}

-- Only the configuration and the instances matter to `IsSafe`.
pub IsSafe-same :
    (t s : Store)
    → t.settings ≡ s.settings
    → read_instances t ≡ read_instances s
    → IsSafe s
    → IsSafe t
IsSafe-same t s e f v =
    let c = read_config-eq t s e in
    record {
      sound = subst IsSound (sym c) v.sound;
      ledger =
          subst (Ledger (read_config t).0) (sym f)
            (subst (λ d. Ledger d (read_instances s)) (sym c) v.ledger);
      distinct = subst (Distinct (λ a. a.id)) (sym f) v.distinct;
    }

Pointwise-refl :
    (runs : List Instance) → All (λ a. IsNonneg a.held) runs → Pointwise Below runs runs
Pointwise-refl [] h = tt
Pointwise-refl (a ∷ runs) h = (Below-refl a h.0, Pointwise-refl runs h.1)

-- A placed task's VM holds what the scheduler reckoned.
for_task-Ledger :
    (c : Config) (t : Task) (a : Instance) (runs : List Instance)
    → Ledger c (a ∷ runs)
    → Ledger c (for_task t a ∷ runs)
for_task-Ledger c t a runs l =
    Ledger-Below c (for_task t a ∷ runs) (a ∷ runs)
      (
        record {
          same_node = refl;
          same_pool = refl;
          same_reservation = refl;
          nonneg = l.nonneg.0;
          held_le = λ k. omega arith;
        },
        Pointwise-refl runs l.nonneg.1,
      )
      l

-- The loop's own list and the table stay the same VMs.
pub record Good (c : Config) (w : Round) : Type 0 where
  pub safe : IsSafe w.store
  pub config_kept : (read_config w.store).0 ≡ c
  pub alike : Alike w.runs (read_instances w.store)

dispatch_at-Good :
    (c : Config) (now : ℕ) (t : Task) (a : Instance) (w : Round)
    (z : Store × Option (Instance × Task))
    → Good c w
    → Ledger c (a ∷ w.runs)
    → dispatch_at now t a w.store ≡ ok z
    → Good c (after_dispatch t w z)
unfolding dispatch_at after_dispatch row_of
dispatch_at-Good c now t a w z g l h =
    let b = for_task t a in
    let (u, e, f) = >>=-eq-ok (insert_instance b w.store) _ h in
    let (fresh, q) = insert_instance-eq b w.store u e in
    let rows : read_instances u ≡ payloads (place_row (row_of b) w.store.instances) =
      ap (λ (x : Store). read_instances x) q in
    let kept : u.settings ≡ w.store.settings = ap (λ (x : Store). x.settings) q in
    let counted : Ledger (read_config w.store).0 (b ∷ read_instances w.store) =
      subst (λ d. Ledger d (b ∷ read_instances w.store)) (sym g.config_kept)
        (Ledger-Alike c (b ∷ read_instances w.store) (b ∷ w.runs)
          (Alike-cons b (read_instances w.store) w.runs
            (Alike-sym w.runs (read_instances w.store) g.alike))
          (for_task-Ledger c t a w.runs l)) in
    subst (λ y. Good c (after_dispatch t w y)) (ok-injective f)
      (record {
        safe = IsSafe-same _ u refl refl (insert-IsSafe b w.store u g.safe counted e);
        config_kept = read_config-eq _ w.store kept ∙ g.config_kept;
        alike = appended (read_instances u) rows;
      })
  where
    appended :
        (table : List Instance)
        → table ≡ payloads (place_row (row_of (for_task t a)) w.store.instances)
        → Alike (w.runs ++ for_task t a ∷ []) table
    appended table rows =
        let b = for_task t a in
        subst (Alike (w.runs ++ b ∷ [])) (sym rows) (
          Alike-trans _ (b ∷ w.runs) _ (Alike-snoc b w.runs) (
            Alike-trans _ (b ∷ read_instances w.store) _
              (Alike-cons b w.runs (read_instances w.store) g.alike)
              (Alike-sym _ _ (place_row-Alike (row_of b) w.store.instances))))

kept_queued :
    (c : Config) (t : Task) (w : Round) → Good c w → Good c (after_dispatch t w (w.store, none))
unfolding after_dispatch
kept_queued c t w g = record { safe = g.safe; config_kept = g.config_kept; alike = g.alike }

dispatch_pool-Good :
    (c : Config) (now : ℕ) (id : String) (p : Pool) (t : Task) (w : Round)
    (z : Store × Option (Instance × Task))
    → Good c w
    → find_pool c.pools t.pool ≡ some p
    → dispatch_pool c w.runs now id p t w.store ≡ ok z
    → Good c (after_dispatch t w z)
unfolding dispatch_pool
dispatch_pool-Good c now id p t w z g known h =
    elim (Bool-cases (not p.tasks || not p.enabled || is_no_capacity placed)) [
      | inl q ↦
          subst (λ y. Good c (after_dispatch t w y)) (ok-injective (rw q at h))
            (kept_queued c t w g)
      | inr q ↦
          let (a, e, f) = >>=-eq-ok placed _ (rw q at h) in
          dispatch_at-Good c now t a w z g (counted a e) f
    ]
  where
    placed : Result Instance
    placed = place c w.runs (read_nodes w.store) now id (str_append "task:" t.id) p

    counted : (a : Instance) → placed ≡ ok a → Ledger c (a ∷ w.runs)
    counted a e =
        place-Ledger c p w.runs (read_nodes w.store) now id (str_append "task:" t.id) a
          (subst IsSound g.config_kept g.safe.sound)
          (ap (find_pool c.pools) (find_pool-name c.pools t.pool p known) ∙ known)
          (Ledger-Alike c w.runs (read_instances w.store) g.alike
            (subst (λ d. Ledger d (read_instances w.store)) g.config_kept g.safe.ledger))
          e

pub dispatch-Good :
    (c : Config) (now : ℕ) (id : String) (t : Task) (w : Round)
    (z : Store × Option (Instance × Task))
    → Good c w
    → dispatch c w.runs now id t w.store ≡ ok z
    → Good c (after_dispatch t w z)
unfolding dispatch
dispatch-Good c now id t w z g h = elim (Option-cases (find_pool c.pools t.pool)) [
  | inl e ↦
      subst (λ y. Good c (after_dispatch t w y)) (ok-injective (rw (e, dispatch) at h))
        (kept_queued c t w g)
  | inr (p, e) ↦ dispatch_pool-Good c now id p t w z g e (rw (e, dispatch) at h)
]

expire-IsSafe : (now : ℕ) (t : Task) (s : Store) → IsSafe s → IsSafe (expire now t s)
unfolding expire
expire-IsSafe now t s v = IsSafe-same _ s refl refl v

dispatch_round-Good :
    (c : Config) (now : ℕ) (ids : String → String) (t : Task) (w x : Round)
    → Good c w
    → dispatch_round c now ids t w ≡ ok x
    → Good c x
unfolding dispatch_round
dispatch_round-Good c now ids t w x g h = elim (Bool-cases (ltb queue_lifetime (now - t.created))) [
  | inl e ↦ subst (Good c) (ok-injective (rw e at h)) (record {
    safe = expire-IsSafe now t w.store g.safe;
    config_kept = read_config-eq _ w.store refl ∙ g.config_kept;
    alike = g.alike;
  })
  | inr e ↦ elim (Bool-cases (contains w.blocked t.pool)) [
    | inl f ↦ subst (Good c) (ok-injective (rw f at (rw e at h))) g
    | inr f ↦
        let (z, p, q) =
          >>=-eq-ok (dispatch c w.runs now (ids t.id) t w.store) _ (rw f at (rw e at h)) in
        subst (Good c) (ok-injective q) (dispatch-Good c now (ids t.id) t w z g p)
  ]
]

dispatch_loop-Good :
    (c : Config) (now : ℕ) (ids : String → String) (ts : List Task) (w x : Round)
    → Good c w
    → dispatch_loop c now ids ts w ≡ ok x
    → Good c x
unfolding dispatch_loop
dispatch_loop-Good c now ids [] w x g h = subst (Good c) (ok-injective h) g
dispatch_loop-Good c now ids (t ∷ ts) w x g h =
    let (y, e, f) = >>=-eq-ok (dispatch_round c now ids t w) _ h in
    dispatch_loop-Good c now ids ts y x (dispatch_round-Good c now ids t w y g e) f

-- DispatchTasks on a sound database, however many queued tasks it expires and places in one
-- transaction, leaves a sound database.
pub dispatch_tasks-IsSafe :
    (now : ℕ) (ids : String → String) (s t : Store) (placed : ℕ)
    → IsSafe s
    → dispatch_tasks now ids s ≡ ok (t, placed)
    → IsSafe t
unfolding dispatch_tasks
dispatch_tasks-IsSafe now ids s t placed v h = elim (Bool-cases (eq_ℤ (read_config s).1 (pos 0))) [
  | inl e ↦ subst IsSafe (ap (λ (x : Store × ℕ). x.0) (ok-injective (rw e at h))) v
  | inr e ↦
      let (w, p, q) =
        >>=-eq-ok (dispatch_loop (read_config s).0 now ids (queued_tasks s.tasks) start) _
          (rw e at h) in
      subst IsSafe (ap (λ (x : Store × ℕ). x.0) (ok-injective q)) (
        (dispatch_loop-Good (read_config s).0 now ids (queued_tasks s.tasks) start w
          (record { safe = v; config_kept = refl; alike = Alike-refl (read_instances s) }) p).safe)
]
  where
    start : Round
    start = record { store = s; runs = read_instances s; blocked = []; placed = 0 }
