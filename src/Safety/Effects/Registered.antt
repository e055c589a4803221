-- ===== src/Safety/Effects/Registered.antt =====
-- `SetJIT` registers one VM that waits for it, and Sync hands out what it stored.
use runner_loom.Base.{
  ℕ, ◌+◌, ◌==◌, Bool, true, false, not, ◌&&◌, ◌||◌, String, Option, none, some, List, [], ◌∷◌, ◌≡◌,
  ◌⊎◌, refl, ap, ◌∙◌, sym, subst, inl, inr, str_eq, len, ltb, In, map, arith, Bool-cases, eq_iff,
  ok, plain, require, or_fail, ok-injective, or_fail-eq-ok, require-eq-ok, >>=-eq-ok, if◌then◌else◌,
}
use runner_loom.Base.Int64.{ℤ, pos, le_ℤ}
use runner_loom.Instance.{Instance, State, is_reserved}
use runner_loom.Store.{
  Store, InstanceRow, read_instances, find_row, save_instance, save_row, set_jit_row,
}
use runner_loom.Store.Seal.{Sealed, sealed}
use runner_loom.Store.Allocate.{set_jit, registered}
use runner_loom.Store.Sync.Delivery.{jit_parcel}
use runner_loom.Store.Sync.Moves.Rows.{payloads-save_row, payloads-set_jit_row}
use runner_loom.Task.{TaskPayload}
use runner_loom.Ledger.{Distinct}
use runner_loom.Ledger.Grow.{eq_of_name}
use runner_loom.Safety.Rows.{find_row-In}
use runner_loom.Safety.Effects.Rows.{map-same, save_run-one}

-- The VM of the ID is registered when it is Reserved and not registered yet.
unfoldable pub register_vm : ℕ → String → ℤ → Instance → Instance
register_vm now id runner_id a =
    if str_eq a.id id && is_reserved a.state && not a.jit_ready
    then record a {
      jit_ready = true;
      runner_id = runner_id;
      state = State.provisioning;
      updated = now;
    }
    else a

unfoldable pub is_registered : Option InstanceRow → Bool
is_registered none = false
is_registered (some r) = r.payload.jit_ready

find_row-save_row :
    (b : Instance) (rows : List InstanceRow) (r : InstanceRow)
    → find_row b.id rows ≡ some r
    → find_row b.id (save_row b rows) ≡ some (record r { payload = b })
unfolding find_row save_row
find_row-save_row b [] r h = cc
find_row-save_row b (q ∷ rows) r h = elim (Bool-cases (str_eq q.payload.id b.id)) [
  | inl f ↦
      let p : q ≡ r = cc (rw f at h) in
      let g = (eq_iff b.id b.id).1 refl in
      rw (f, g) (ap (λ (x : InstanceRow). some (record x { payload = b })) p)
  | inr f ↦ rw (f, f) (find_row-save_row b rows r (rw f at h))
]

find_row-set_jit_row :
    (jit : Option (Sealed String)) (id : String) (rows : List InstanceRow) (r : InstanceRow)
    → find_row id rows ≡ some r
    → find_row id (set_jit_row id jit rows) ≡ some (record r { jit = jit })
unfolding find_row set_jit_row
find_row-set_jit_row jit id [] r h = cc
find_row-set_jit_row jit id (q ∷ rows) r h = elim (Bool-cases (str_eq q.payload.id id)) [
  | inl f ↦
      let p : q ≡ r = cc (rw f at h) in
      rw (f, f) (ap (λ (x : InstanceRow). some (record x { jit = jit })) p)
  | inr f ↦ rw (f, f) (find_row-set_jit_row jit id rows r (rw f at h))
]

register_vm-other :
    (now : ℕ) (id : String) (runner_id : ℤ) (x : Instance)
    → str_eq x.id id ≡ false
    → register_vm now id runner_id x ≡ x
unfolding register_vm
register_vm-other now id runner_id x e = rw e refl

register_vm-ready :
    (now : ℕ) (id : String) (runner_id : ℤ) (x : Instance)
    → x.jit_ready ≡ true
    → register_vm now id runner_id x ≡ x
unfolding register_vm
register_vm-ready now id runner_id x e = elim (Bool-cases (str_eq x.id id && is_reserved x.state)) [
  | inl f ↦ rw (e, never (str_eq x.id id) (is_reserved x.state)) refl
  | inr f ↦ rw (e, never (str_eq x.id id) (is_reserved x.state)) refl
]
  where
    never : (a b : Bool) → (a && b && false) ≡ false
    never a b = ground arith

register_vm-waiting :
    (now : ℕ) (id : String) (runner_id : ℤ) (x : Instance)
    → x.id ≡ id
    → x.jit_ready ≡ false
    → is_reserved x.state ≡ true
    → register_vm now id runner_id x ≡ registered now runner_id x
unfolding register_vm registered
register_vm-waiting now id runner_id x e f g = let k = (eq_iff x.id id).1 e in rw (k, f, g) refl

-- A VM that is registered keeps its row, and so do the others.
all_kept :
    (now : ℕ) (id : String) (runner_id : ℤ) (runs : List Instance) (a : Instance)
    → Distinct (λ x. x.id) runs
    → In a runs
    → a.id ≡ id
    → a.jit_ready ≡ true
    → (x : Instance) → In x runs
    → register_vm now id runner_id x ≡ x
all_kept now id runner_id runs a d m i e x n = elim (Bool-cases (str_eq x.id id)) [
  | inr f ↦ register_vm-other now id runner_id x f
  | inl f ↦
      let same : a ≡ x =
        eq_of_name (λ (y : Instance). y.id) runs d m n (i ∙ sym ((eq_iff x.id id).0 f)) in
      register_vm-ready now id runner_id x (subst (λ y. y.jit_ready ≡ true) same e)
]

opened :
    (size : TaskPayload → ℕ) (id jit : String) (row : InstanceRow)
    → row.jit ≡ some (sealed id jit)
    → jit_parcel size id (some row)
      ≡ ok (some (record { jit = jit; task = none; size = 4096 + len jit }))
unfolding jit_parcel
opened size id jit row e = let k = (eq_iff id id).1 refl in rw (e, k) refl

-- Where VM IDs are unique, a successful SetJIT registers the VM of the ID when it is Reserved
-- and not registered, leaves every other row as it is, and, unless the VM was registered before,
-- the stored JIT configuration is what Sync reads for the VM's command.
pub set_jit-register_vm :
    (size : TaskPayload → ℕ) (now : ℕ) (id : String) (runner_id : ℤ) (jit : String) (s t : Store)
    → Distinct (λ a. a.id) (read_instances s)
    → set_jit now id runner_id jit s ≡ ok t
    → (read_instances t ≡ map (register_vm now id runner_id) (read_instances s))
      × ((is_registered (find_row id s.instances) ≡ true)
          ⊎ (jit_parcel size id (find_row id t.instances)
              ≡ ok (some (record { jit = jit; task = none; size = 4096 + len jit }))))
unfolding set_jit save_instance is_registered
set_jit-register_vm size now id runner_id jit s t d h =
    let (_, e0, h0) =
      >>=-eq-ok
        (require (not (len jit == 0 || ltb 131072 (len jit) || le_ℤ runner_id (pos 0)))
          (plain "invalid JIT response"))
        _ h in
    let (r, e, h1) =
      >>=-eq-ok (or_fail (find_row id s.instances) (plain "sql: no rows in result set")) _ h0 in
    let f = or_fail-eq-ok _ _ e in
    let (m, i) = find_row-In id s.instances r f in
    elim (Bool-cases r.payload.jit_ready) [
      | inl q ↦ (
        ap read_instances (sym (ok-injective (rw q at h1)))
            ∙ sym (
                map-same (register_vm now id runner_id) (read_instances s)
                  (all_kept now id runner_id (read_instances s) r.payload d m i q)),
        inl (rw (f, is_registered) q),
      )
      | inr q ↦
          let (_, e2, h2) =
            >>=-eq-ok
              (require (is_reserved r.payload.state)
                (plain "instance no longer awaiting registration"))
              _ (rw q at h1) in
          let b = registered now runner_id r.payload in
          let box = some (sealed id jit) in
          let g = find_row-set_jit_row box id (save_row b s.instances) _ (
            subst (λ y. find_row y (save_row b s.instances) ≡ some (record r { payload = b })) i
              (find_row-save_row b s.instances r
                (subst (λ y. find_row y s.instances ≡ some r) (sym i) f))) in
          (
            ap read_instances (sym (ok-injective h2))
                ∙ payloads-set_jit_row id box (save_row b s.instances)
                ∙ payloads-save_row b s.instances
                ∙ save_run-one (register_vm now id runner_id) b r.payload (read_instances s) d m
                    refl (register_vm-waiting now id runner_id r.payload i q (require-eq-ok _ _ e2))
                    (λ x k.
                      register_vm-other now id runner_id x
                        (subst (λ y. str_eq x.id y ≡ false) i k)),
            inr (
                ap (λ (x : Store). jit_parcel size id (find_row id x.instances))
                  (sym (ok-injective h2))
                ∙ ap (jit_parcel size id) g
                ∙ opened size id jit _ refl),
          )
    ]
