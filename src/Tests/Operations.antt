-- ===== src/Tests/Operations.antt =====
-- The example cluster's VM through registration, a stop and a deletion.
use runner_loom.Safety.Effects.Stopped.{stop_instance-stop_vm, stop_vm}
use runner_loom.Safety.Effects.Registered.{set_jit-register_vm, register_vm, is_registered}
use runner_loom.Base.{
  ℕ, true, false, [], ◌∷◌, ◌≡◌, refl, inl, All, is_empty, ok, err, fail, map, ◌⊎◌, ◌+◌, none, some,
  len,
}
use runner_loom.Base.Int64.{pos}
use runner_loom.Resources
use runner_loom.Config.{find_node, charge, find_pool, eligible, image_or_zero}
use runner_loom.Base.Int64
use runner_loom.Reservations.{protection, validate_owners}
use runner_loom.Config.Names.{valid_name}
use runner_loom.Scheduler.{
  observed, candidate, candidates, standing, share_of, shares, held_on, pool_count, reason_if, sort,
}
use runner_loom.Scheduler.Place.{place}
use runner_loom.Scheduler.Choice.{place-finds, place-refuses}
use runner_loom.Instance.{Instance, Observation, ReportState}
use runner_loom.Task.{TaskPayload}
use runner_loom.Store.{
  Store, read_instances, read_nodes, observations_of, read_config, find_row, save_instance,
  save_row, set_jit_row,
}
use runner_loom.Store.Allocate.{set_jit, stop_instance, registered}
use runner_loom.Store.Sync.{
  SyncResponse, sync, good_report, is_stale, put_node, duplicated, seen_at,
}
use runner_loom.Store.Sync.Report.{
  advance, report_of, advance_one, concerns, observe_if, observe, erase, fence, needs_barrier, due,
  settled, queue,
}
use runner_loom.Store.Sync.Delivery.{deliver, sort_pending, parcel, jit_parcel}
use runner_loom.Store.Sync.Images.{pool_images, run_images}
use runner_loom.Safety.{IsSafe}
use runner_loom.Safety.Syncing.{sync-IsSafe}
use runner_loom.Tests.Fixtures.{value, observation, home, home_store, heavy, node_a}
use runner_loom.Tests.Ledger.{now, first, first-IsSafe}

-- No payload of a task is sent here.
abbrev pub size : TaskPayload → ℕ
size p = 0

unfoldable second : Store
unfolding first set_jit find_row save_instance save_row set_jit_row registered
second = value (set_jit now "aa" (pos 7) "jit" first.0) first.0

second_eq : set_jit now "aa" (pos 7) "jit" first.0 ≡ ok second
unfolding second
second_eq = refl

set_jit-register_vm_example :
    (read_instances second ≡ map (register_vm now "aa" (pos 7)) (read_instances first.0))
    × ((is_registered (find_row "aa" first.0.instances) ≡ true)
        ⊎ (jit_parcel size "aa" (find_row "aa" second.instances)
            ≡ ok (some (record { jit = "jit"; task = none; size = 4096 + len "jit" }))))
set_jit-register_vm_example =
    set_jit-register_vm size now "aa" (pos 7) "jit" first.0 second first-IsSafe.distinct second_eq

-- The VM was not registered before.
unregistered_test : is_registered (find_row "aa" first.0.instances) ≡ false
unfolding is_registered first find_row
unregistered_test = refl

unfoldable third : Store
unfolding first stop_instance find_row save_instance save_row
third = value (stop_instance "aa" first.0) first.0

third_eq : stop_instance "aa" first.0 ≡ ok third
unfolding third
third_eq = refl

stop_instance-stop_vm_example : read_instances third ≡ map (stop_vm "aa") (read_instances first.0)
stop_instance-stop_vm_example =
    stop_instance-stop_vm "aa" first.0 third first-IsSafe.distinct third_eq

-- The VM has stopped: CPU and memory come back, and its deletion is the command that is due.
abbrev pub report : Observation
report = record observation {
  sequence = pos 2;
  instances = record { id = "aa"; state = ReportState.stopped; detail = "" } ∷ [];
}

unfoldable pub fourth : Store × SyncResponse
unfolding first sync good_report read_config find_node Resources.fits is_stale observed put_node
    duplicated seen_at advance report_of advance_one concerns observe_if observe erase fence
    needs_barrier due settled queue deliver sort_pending save_instance save_row pool_images
    run_images
fourth =
    value (sync size now "node-a" report first.0)
      (first.0, record { commands = []; interval_seconds = 5; images = [] })

pub fourth_eq : sync size now "node-a" report first.0 ≡ ok (fourth.0, fourth.1)
unfolding fourth valid_name Resources.valid parcel
fourth_eq = refl

sync-IsSafe_example : IsSafe fourth.0
sync-IsSafe_example =
    sync-IsSafe size now "node-a" report first.0 fourth.0 fourth.1 first-IsSafe fourth_eq

usable : is_empty (candidate home heavy [] (read_nodes home_store) now node_a).reasons ≡ true
unfolding candidate standing candidates place validate_owners protection reason_if image_or_zero
    eligible shares share_of held_on pool_count observed observations_of charge Int64.add Int64.sub
    Int64.mul Resources.fits Resources.add Resources.sub Resources.mul Resources.empty find_pool
    sort
usable = refl

place-finds_example :
    (a : Instance) × (place home [] (read_nodes home_store) now "bb" "request-2" heavy ≡ ok a)
place-finds_example =
    place-finds home heavy [] (read_nodes home_store) now "bb" "request-2" node_a (inl refl) usable

-- Without a report of the Node.
refused : place home [] [] now "bb" "request-2" heavy ≡ err (fail "NO_CAPACITY")
unfolding candidate standing candidates place validate_owners protection reason_if image_or_zero
    eligible shares share_of held_on pool_count observed observations_of charge Int64.add Int64.sub
    Int64.mul Resources.fits Resources.add Resources.sub Resources.mul Resources.empty find_pool
    sort
refused = refl

place-refuses_example :
    (fail "NO_CAPACITY" ≡ fail "NO_CAPACITY")
    × All (λ n. is_empty (candidate home heavy [] [] now n).reasons ≡ false) home.nodes
place-refuses_example =
    place-refuses home heavy [] [] now "bb" "request-2" (fail "NO_CAPACITY") refused
