-- ===== src/Safety/Effects/Stopped.antt =====
-- `StopInstance` changes one VM, and only one that still exists.
use runner_loom.Base.{
  Bool, true, false, not, ◌&&◌, ◌||◌, String, List, ◌≡◌, refl, ap, ◌∙◌, sym, subst, inl, inr,
  str_eq, In, map, arith, Bool-cases, eq_iff, ok, fail, or_fail, ok-injective, or_fail-eq-ok,
  >>=-eq-ok, if◌then◌else◌,
}
use runner_loom.Instance.{Instance, State, is_deleted, is_deleting}
use runner_loom.Store.{Store, read_instances, find_row, save_instance}
use runner_loom.Store.Allocate.{stop_instance}
use runner_loom.Store.Sync.Moves.Rows.{payloads-save_row}
use runner_loom.Ledger.{Distinct}
use runner_loom.Ledger.Grow.{eq_of_name}
use runner_loom.Safety.Rows.{find_row-In}
use runner_loom.Safety.Effects.{may_stop}
use runner_loom.Safety.Effects.Rows.{map-same, save_run-one, may_stop-not}

-- The VM of the ID is to stop, unless its deletion is under way or done.
unfoldable pub stop_vm : String → Instance → Instance
unfolding may_stop
stop_vm id a = if str_eq a.id id && may_stop a.state then record a { state = State.stopping } else a

stop_vm-other : (id : String) (x : Instance) → str_eq x.id id ≡ false → stop_vm id x ≡ x
unfolding stop_vm
stop_vm-other id x e = rw e refl

stop_vm-ended : (id : String) (x : Instance) → may_stop x.state ≡ false → stop_vm id x ≡ x
unfolding stop_vm
stop_vm-ended id x e = elim (Bool-cases (str_eq x.id id)) [
  | inl f ↦ rw (f, e) refl
  | inr f ↦ rw f refl
]

stop_vm-live :
    (id : String) (x : Instance)
    → x.id ≡ id
    → may_stop x.state ≡ true
    → stop_vm id x ≡ record x { state = State.stopping }
unfolding stop_vm
stop_vm-live id x f e = let g = (eq_iff x.id id).1 f in rw (g, e) refl

-- A VM that is over keeps its row, and so do the others.
all_kept :
    (id : String) (runs : List Instance) (a : Instance)
    → Distinct (λ x. x.id) runs
    → In a runs
    → a.id ≡ id
    → may_stop a.state ≡ false
    → (x : Instance) → In x runs
    → stop_vm id x ≡ x
all_kept id runs a d m i e x n = elim (Bool-cases (str_eq x.id id)) [
  | inr f ↦ stop_vm-other id x f
  | inl f ↦
      let same : a ≡ x =
        eq_of_name (λ (y : Instance). y.id) runs d m n (i ∙ sym ((eq_iff x.id id).0 f)) in
      stop_vm-ended id x (subst (λ y. may_stop y.state ≡ false) same e)
]

-- Where VM IDs are unique, a successful StopInstance marks the VM of the ID Stopping unless its
-- deletion is under way or done, and leaves every other row as it is.
pub stop_instance-stop_vm :
    (id : String) (s t : Store)
    → Distinct (λ a. a.id) (read_instances s)
    → stop_instance id s ≡ ok t
    → read_instances t ≡ map (stop_vm id) (read_instances s)
unfolding stop_instance save_instance stop_vm
stop_instance-stop_vm id s t d h =
    let (r, e, h1) =
      >>=-eq-ok (or_fail (find_row id s.instances) (fail "INSTANCE_NOT_FOUND")) _ h in
    let (m, i) = find_row-In id s.instances r (or_fail-eq-ok _ _ e) in
    let k = may_stop-not r.payload.state in
    elim (Bool-cases (is_deleted r.payload.state || is_deleting r.payload.state)) [
      | inl q ↦
          ap read_instances (sym (ok-injective (rw q at h1)))
          ∙ sym (
              map-same (stop_vm id) (read_instances s)
                (all_kept id (read_instances s) r.payload d m i (not_false (rw q at k))))
      | inr q ↦
          let b = record r.payload { state = State.stopping } in
          ap read_instances (sym (ok-injective (rw q at h1)))
          ∙ payloads-save_row b s.instances
          ∙ save_run-one (stop_vm id) b r.payload (read_instances s) d m refl
              (stop_vm-live id r.payload i (not_true (rw q at k)))
              (λ x f. stop_vm-other id x (subst (λ y. str_eq x.id y ≡ false) i f))
    ]
  where
    not_false : {b : Bool} → true ≡ not b → b ≡ false
    not_false h = ground arith

    not_true : {b : Bool} → false ≡ not b → b ≡ true
    not_true h = ground arith
