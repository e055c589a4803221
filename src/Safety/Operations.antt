-- ===== src/Safety/Operations.antt =====
-- `Allocate`, `SetJIT` and `StopInstance` keep the database sound.
use runner_loom.Base.{
  len, ltb, ◌==◌, ℕ, Bool, true, false, not, ◌||◌, String, Option, none, some, List, [], ◌∷◌, ◌≡◌,
  refl, ap, ◌∙◌, sym, subst, ◌⊎◌, inl, inr, str_eq, All-of_members, All_of_In, In, arith,
  Bool-cases, Option-cases, eq_iff, ok, fail, plain, ok-injective, or_fail, require, or_fail-eq-ok,
  require-eq-ok, >>=-eq-ok,
}
use runner_loom.Base.Int64.{ℤ, pos, le_ℤ}
use runner_loom.Resources.Laws.{IsNonneg}
use runner_loom.Config.{Pool, find_pool}
use runner_loom.Instance.{Instance, State, is_deleted, is_deleting, is_reserved}
use runner_loom.Scheduler.Place.{place}
use runner_loom.Store.{
  Store, InstanceRow, payloads, place_row, taken, find_row, insert_instance, save_instance,
  save_row, set_jit_row, read_config, read_instances, read_nodes,
}
use runner_loom.Store.Seal.{Sealed, sealed}
use runner_loom.Store.Allocate.{
  registered, allocate, allocate_new, by_request, set_jit, stop_instance,
}
use runner_loom.Store.Sync.Moves.{Same}
use runner_loom.Store.Sync.Moves.Rows.{save_run, payloads-save_row, payloads-set_jit_row}
use runner_loom.Ledger.{Ledger, Distinct, keys}
use runner_loom.Ledger.Allocate.{place-Ledger}
use runner_loom.Ledger.Rows.{Ledger-place_row}
use runner_loom.Ledger.Shrink.{Below, Ledger-Below}
use runner_loom.Ledger.Grow.{eq_of_name}
use runner_loom.Safety.{IsSafe}
use runner_loom.Safety.Rows.{
  Below-Same_held, Distinct-keys, save_run-Below, save_run-keys, find_row-In, Distinct-insert,
}

pub find_pool-name : (ps : List Pool) (s : String) (p : Pool) → find_pool ps s ≡ some p → p.name ≡ s
unfolding find_pool
find_pool-name [] s p h = cc
find_pool-name (q ∷ ps) s p h = elim (Bool-cases (str_eq q.name s)) [
  | inl e ↦
      let r : q ≡ p = cc (rw e at h) in ap (λ (x : Pool). x.name) (sym r) ∙ (eq_iff q.name s).0 e
  | inr e ↦ find_pool-name ps s p (rw e at h)
]

-- What `Allocate` does when it places a VM.
pub record Inserted (now : ℕ) (id request pool : String) (s t : Store) (a : Instance) : Type 0 where
  pub shape : Pool
  pub known : find_pool (read_config s).0.pools pool ≡ some shape
  pub not_tasks : not shape.tasks ≡ true
  pub chosen : place (read_config s).0 (read_instances s) (read_nodes s) now id request shape ≡ ok a
  pub inserted : insert_instance a s ≡ ok t

pub allocate_new-Inserted :
    (now : ℕ) (id request pool : String) (s t : Store) (a : Instance)
    → allocate_new now id request pool s ≡ ok (t, a)
    → Inserted now id request pool s t a
unfolding allocate_new
allocate_new-Inserted now id request pool s t a h =
    let (p, e1, h1) =
      >>=-eq-ok (or_fail (find_pool (read_config s).0.pools pool) (fail "POOL_NOT_FOUND")) _ h in
    let (_, e2, h2) = >>=-eq-ok (require (not p.tasks) (fail "TASK_POOL")) _ h1 in
    let (b, e3, h3) =
      >>=-eq-ok (place (read_config s).0 (read_instances s) (read_nodes s) now id request p) _ h2 in
    let (u, e4, h4) = >>=-eq-ok (insert_instance b s) _ h3 in
    let q = ok-injective h4 in
    let same_row : b ≡ a = ap (λ (x : Store × Instance). x.1) q in
    record {
      shape = p;
      known = or_fail-eq-ok _ _ e1;
      not_tasks = require-eq-ok _ _ e2;
      chosen = e3 ∙ ap ok same_row;
      inserted =
          ap (λ x. insert_instance x s) (sym same_row)
          ∙ e4
          ∙ ap (λ (x : Store × Instance). ok x.0) q;
    }

unfoldable pub row_of : Instance → InstanceRow
row_of a = record { payload = a; jit = none }

pub insert_instance-eq :
    (a : Instance) (s t : Store)
    → insert_instance a s ≡ ok t
    → (taken a s.instances ≡ false)
      × (t ≡ record s { instances = place_row (row_of a) s.instances })
unfolding insert_instance row_of
insert_instance-eq a s t h = elim (Bool-cases (taken a s.instances)) [
  | inl e ↦ cc (rw e at h)
  | inr e ↦ (e, sym (ok-injective (rw e at h)))
]

pub insert-IsSafe :
    (a : Instance) (s t : Store)
    → IsSafe s
    → Ledger (read_config s).0 (a ∷ read_instances s)
    → insert_instance a s ≡ ok t
    → IsSafe t
unfolding read_config row_of
insert-IsSafe a s t v l h =
    let (fresh, e) = insert_instance-eq a s t h in
    subst IsSafe (sym e) (record {
      sound = v.sound;
      ledger = Ledger-place_row (read_config s).0 (row_of a) s.instances l;
      distinct = Distinct-insert a (row_of a) s.instances refl fresh v.distinct;
    })

allocate_new-IsSafe :
    (now : ℕ) (id request pool : String) (s t : Store) (a : Instance)
    → IsSafe s
    → allocate_new now id request pool s ≡ ok (t, a)
    → IsSafe t
allocate_new-IsSafe now id request pool s t a v h =
    let i = allocate_new-Inserted now id request pool s t a h in
    let name = find_pool-name (read_config s).0.pools pool i.shape i.known in
    insert-IsSafe a s t v
      (place-Ledger (read_config s).0 i.shape (read_instances s) (read_nodes s) now id request a
        v.sound (ap (find_pool (read_config s).0.pools) name ∙ i.known) v.ledger i.chosen)
      i.inserted

unfoldable pub bad_request : String → Bool
bad_request request = str_eq request "" || ltb 128 (len request)

pub allocate-cases :
    (now : ℕ) (id request pool : String) (s t : Store) (a : Instance)
    → allocate now id request pool s ≡ ok (t, a)
    → ((by_request request (read_instances s) ≡ some a) × (t ≡ s))
      ⊎ ((by_request request (read_instances s) ≡ none)
          × (allocate_new now id request pool s ≡ ok (t, a)))
unfolding allocate bad_request
allocate-cases now id request pool s t a h = elim (Bool-cases (bad_request request)) [
  | inl e ↦ cc (rw (e, allocate, bad_request) at h)
  | inr e ↦
      let h1 = rw (e, allocate, bad_request) at h in
      elim (Option-cases (by_request request (read_instances s))) [
        | inl f ↦ inr (f, rw (f, allocate) at h1)
        | inr (b, f) ↦ elim (Bool-cases (str_eq b.pool.name pool)) [
          | inl g ↦
              let q : (s, b) ≡ (t, a) = ok-injective (rw (g) at (rw (f, allocate) at h1)) in
              inl (
                f ∙ ap some (ap (λ (x : Store × Instance). x.1) q),
                ap (λ (x : Store × Instance). x.0) (sym q),
              )
          | inr g ↦ cc (rw g at (rw (f, allocate) at h1))
        ]
      ]
]

-- A successful Allocate, new or repeated, on a sound database leaves a sound database: with it
-- no Node's budget, no reservation and no Pool limit is exceeded.
pub allocate-IsSafe :
    (now : ℕ) (id request pool : String) (s t : Store) (a : Instance)
    → IsSafe s
    → allocate now id request pool s ≡ ok (t, a)
    → IsSafe t
unfolding allocate
allocate-IsSafe now id request pool s t a v h = elim (allocate-cases now id request pool s t a h) [
  | inl (f, e) ↦ subst IsSafe (sym e) v
  | inr (f, e) ↦ allocate_new-IsSafe now id request pool s t a v e
]

-- A write of one row that changes neither what the VM holds nor what it is.
pub save-IsSafe :
    (b a : Instance) (s : Store)
    → IsSafe s
    → In a (read_instances s)
    → Same b a
    → b.held ≡ a.held
    → IsSafe (save_instance b s)
unfolding save_instance read_config
save-IsSafe b a s v m h e = record {
  sound = v.sound;
  ledger = subst (Ledger (read_config s).0) (sym (payloads-save_row b s.instances)) (
      Ledger-Below (read_config s).0 (save_run b (read_instances s)) (read_instances s)
        (save_run-Below b (read_instances s) v.ledger.nonneg
          (All-of_members _ (read_instances s) below))
        v.ledger);
  distinct =
      Distinct-keys (payloads (save_row b s.instances)) (read_instances s)
        (ap (keys (λ x. x.id)) (payloads-save_row b s.instances)
          ∙ save_run-keys b (read_instances s))
        v.distinct;
}
  where
    below : (x : Instance) → In x (read_instances s) → x.id ≡ b.id → Below b x
    below x i q =
        let same : a ≡ x =
          eq_of_name (λ (y : Instance). y.id) (read_instances s) v.distinct m i
            (sym h.same_id ∙ sym q) in
        subst (Below b) same (
          Below-Same_held b a h e
            (All_of_In (λ y. IsNonneg y.held) (read_instances s) v.ledger.nonneg m))

set_jit_row-IsSafe :
    (id : String) (jit : Option (Sealed String)) (s : Store)
    → IsSafe s
    → IsSafe (record s { instances = set_jit_row id jit s.instances })
unfolding read_config
set_jit_row-IsSafe id jit s v =
    let e = payloads-set_jit_row id jit s.instances in
    record {
      sound = v.sound;
      ledger = subst (Ledger (read_config s).0) (sym e) v.ledger;
      distinct = subst (Distinct (λ a. a.id)) (sym e) v.distinct;
    }

-- A successful StopInstance on a sound database leaves a sound database.
pub stop_instance-IsSafe :
    (id : String) (s t : Store) → IsSafe s → stop_instance id s ≡ ok t → IsSafe t
unfolding stop_instance
stop_instance-IsSafe id s t v h =
    let (r, e, h1) =
      >>=-eq-ok (or_fail (find_row id s.instances) (fail "INSTANCE_NOT_FOUND")) _ h in
    elim (Bool-cases (is_deleted r.payload.state || is_deleting r.payload.state)) [
      | inl q ↦ subst IsSafe (ok-injective (rw q at h1)) v
      | inr q ↦ subst IsSafe (ok-injective (rw q at h1)) (
          save-IsSafe _ r.payload s v (find_row-In id s.instances r (or_fail-eq-ok _ _ e)).0 same
            refl)
    ]
  where
    same : {a : Instance} → Same (record a { state = State.stopping }) a
    same = record {
      same_id = refl;
      same_request = refl;
      same_node = refl;
      same_pool = refl;
      same_image = refl;
      same_reservation = refl;
      same_task = refl;
      same_deadline = refl;
    }

-- A successful SetJIT on a sound database leaves a sound database.
pub set_jit-IsSafe :
    (now : ℕ) (id : String) (runner_id : ℤ) (jit : String) (s t : Store)
    → IsSafe s
    → set_jit now id runner_id jit s ≡ ok t
    → IsSafe t
unfolding set_jit
set_jit-IsSafe now id runner_id jit s t v h =
    let (_, e0, h0) =
      >>=-eq-ok
        (require (not (len jit == 0 || ltb 131072 (len jit) || le_ℤ runner_id (pos 0)))
          (plain "invalid JIT response"))
        _ h in
    let (r, e, h1) =
      >>=-eq-ok (or_fail (find_row id s.instances) (plain "sql: no rows in result set")) _ h0 in
    elim (Bool-cases r.payload.jit_ready) [
      | inl q ↦ subst IsSafe (ok-injective (rw q at h1)) v
      | inr q ↦
          let (_, e2, h2) =
            >>=-eq-ok
              (require (is_reserved r.payload.state)
                (plain "instance no longer awaiting registration"))
              _ (rw q at h1) in
          subst IsSafe (ok-injective h2) (
            set_jit_row-IsSafe id (some (sealed id jit)) _ (
              save-IsSafe _ r.payload s v (find_row-In id s.instances r (or_fail-eq-ok _ _ e)).0
                same refl))
    ]
  where
    same : {a : Instance} → Same (registered now runner_id a) a
    same = record {
      same_id = refl;
      same_request = refl;
      same_node = refl;
      same_pool = refl;
      same_image = refl;
      same_reservation = refl;
      same_task = refl;
      same_deadline = refl;
    }

pub read_config-eq : (t s : Store) → t.settings ≡ s.settings → (read_config t).0 ≡ (read_config s).0
unfolding read_config
read_config-eq t s e = ground arith
