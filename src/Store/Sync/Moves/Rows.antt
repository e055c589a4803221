-- ===== src/Store/Sync/Moves/Rows.antt =====
-- The table of instances as a list of VMs, and what a write of one row does to it.
use runner_loom.Base.{
  false, String, Option, List, [], ◌∷◌, ◌++◌, ◌≡◌, refl, str_eq, contains, arith, eq_iff,
  if◌then◌else◌,
}
use runner_loom.Instance.{Instance}
use runner_loom.Store.Seal.{Sealed}
use runner_loom.Store.{InstanceRow, payloads, save_row, set_jit_row}
use runner_loom.Ledger.{keys}

pub payloads-set_jit_row :
    (id : String) (jit : Option (Sealed String)) (rows : List InstanceRow)
    → payloads (set_jit_row id jit rows) ≡ payloads rows
unfolding set_jit_row
payloads-set_jit_row id jit [] = refl
payloads-set_jit_row id jit (r ∷ rows) = ground (arith, payloads-set_jit_row id jit rows)

-- `UPDATE instances SET payload=?` seen on the payloads.
abbrev pub save_run : Instance → List Instance → List Instance
save_run b [] = []
save_run b (a ∷ runs) = (if str_eq a.id b.id then b else a) ∷ save_run b runs

pub payloads-save_row :
    (b : Instance) (rows : List InstanceRow)
    → payloads (save_row b rows) ≡ save_run b (payloads rows)
unfolding save_row
payloads-save_row b [] = refl
payloads-save_row b (r ∷ rows) = ground (arith, payloads-save_row b rows)

save_run-absent :
    (b : Instance) (runs : List Instance)
    → contains (keys (λ a. a.id) runs) b.id ≡ false
    → save_run b runs ≡ runs
save_run-absent b [] h = refl
save_run-absent b (a ∷ runs) h = ground (arith, save_run-absent b runs)

pub save_run-middle :
    (b a : Instance) (bs runs : List Instance)
    → contains (keys (λ a. a.id) bs) b.id ≡ false
    → contains (keys (λ a. a.id) runs) b.id ≡ false
    → a.id ≡ b.id
    → save_run b (bs ++ a ∷ runs) ≡ bs ++ b ∷ runs
save_run-middle b a [] runs h g e = ground (arith, save_run-absent b runs g, eq_iff a.id b.id)
save_run-middle b a (q ∷ bs) runs h g e = ground (arith, save_run-middle b a bs runs)
