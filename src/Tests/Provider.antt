-- ===== src/Tests/Provider.antt =====
-- GitHub's listener and the reconciliation on the example cluster.
use runner_loom.Resources
use runner_loom.Base.Int64
use runner_loom.Reservations.{protection, validate_owners}
use runner_loom.Scheduler.Place.{place, after_minutes}
use runner_loom.Scheduler.{
  candidates, candidate, share_of, shares, held_on, pool_count, standing, reason_if, observed, sort,
}
use runner_loom.Config.{find_pool, charge, eligible, image_or_zero}
use runner_loom.Store.Allocate.{allocate, set_jit}
use runner_loom.Store.{
  read_instances, save_instance, set_jit_row, find_row, read_config, insert_instance,
  observations_of, Store,
}
use runner_loom.Instance.{Instance}
use runner_loom.Config.Names.{valid_name}
use runner_loom.Base.{true, false, none, some, List, [], ◌∷◌, ◌≡◌, ◌≤◌, ◌↔◌, refl, ok}
use runner_loom.Base.Int64.{ℤ, pos}
use runner_loom.Store.Messages.{persist_message, set_intake_fence, demands}
use runner_loom.GitHub.Intake.{
  Intake, Answers, ScaleSetMessage, acquired_all, persist_then_acknowledge,
}
use runner_loom.GitHub.Reconcile.{JitApi, reconcile, Left}
use runner_loom.GitHub.Durable.{IsStored, persist_then_acknowledge-IsStored}
use runner_loom.GitHub.Acquired.{times, acquired_all_iff}
use runner_loom.Tests.Fixtures.{home_store, lite}
use runner_loom.Tests.Ledger.{now}

abbrev twice : List ℤ
twice = pos 7 ∷ pos 7 ∷ []

-- A request that is wanted twice must be acquired twice.
acquired_test : acquired_all twice (pos 7 ∷ []) ≡ false
unfolding acquired_all
acquired_test = refl

acquired_all_iff_example :
    (acquired_all twice twice ≡ true) ↔ ((x : ℤ) → times x twice ≤ times x twice)
acquired_all_iff_example = acquired_all_iff twice twice

abbrev message : ScaleSetMessage
message = record {
  id = pos 3;
  assigned = some (pos 1);
  started = [];
  completed = [];
  available = pos 7 ∷ [];
}

abbrev answers : Answers
answers = record { acquire = λ ids. ok ids; acknowledge = λ id. ok tt }

abbrev taken : Intake
taken = persist_then_acknowledge answers now "session" "hash" "linux-lite" (some message) home_store

acknowledged_eq : taken.acknowledged ≡ true
unfolding persist_then_acknowledge persist_message set_intake_fence valid_name
acknowledged_eq = refl

persist_then_acknowledge-IsStored_example : IsStored "session" (pos 3) "hash" taken.store
persist_then_acknowledge-IsStored_example =
    persist_then_acknowledge-IsStored answers now "session" "hash" "linux-lite" message home_store
      acknowledged_eq

-- One job waits, and GitHub answers every request.
abbrev busy_store : Store
busy_store = record home_store {
  demand =
      record {
        pool = "linux-lite";
        desired = pos 1;
        seen = 1000000000;
        barrier = false;
        intake = false;
      }
      ∷ [];
}

abbrev willing : JitApi
willing = record {
  runner_by_name = λ name. ok none;
  remove_runner = λ id. ok tt;
  generate = λ name set. ok (
      some (record {
        runner = some (record { id = pos 9; name = name; scale_set = set });
        config = "jit";
      }));
}

abbrev ran : Left
ran = reconcile willing now "aa" "request-1" (pos 1) lite busy_store

runner_ids : List Instance → List ℤ
runner_ids [] = []
runner_ids (a ∷ runs) = a.runner_id ∷ runner_ids runs

-- One VM was placed and registered with GitHub's runner.
ran_test : runner_ids (read_instances ran.0) ≡ pos 9 ∷ []
unfolding runner_ids reconcile allocate set_jit find_row save_instance set_jit_row read_config
    find_pool place candidates candidate share_of held_on pool_count observed validate_owners
    protection insert_instance observations_of standing reason_if sort image_or_zero eligible shares
    charge Int64.add Int64.sub Int64.mul Resources.fits Resources.add Resources.sub Resources.mul
    Resources.empty after_minutes demands
ran_test = refl
