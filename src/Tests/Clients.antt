-- ===== src/Tests/Clients.antt =====
-- Clients and submitted tasks on the example cluster.
use runner_loom.Store.Sync.Report.{erase_secret}
use runner_loom.Base.{
  ℕ, true, false, String, none, some, [], ◌∷◌, ◌≡◌, refl, ok, err, fail, require, ltb, ◌+◌, ◌⊎◌,
}
use runner_loom.Base.Int64.{pos}
use runner_loom.Base.Int64
use runner_loom.Resources
use runner_loom.Config.{charge, find_pool, eligible, image_or_zero}
use runner_loom.Config.Names.{valid_name, valid_id}
use runner_loom.Reservations.{protection, validate_owners}
use runner_loom.Scheduler.{
  candidates, candidate, share_of, shares, held_on, pool_count, standing, reason_if, observed, sort,
}
use runner_loom.Scheduler.Place.{place, after_minutes}
use runner_loom.Task.Title.{task_title}
use runner_loom.Task.State.{queued}
use runner_loom.Task.Spec.{reserved_env, validate_spec}
use runner_loom.Task.Spec.Patterns.{is_space}
use runner_loom.Task.Spec.Paths.{valid_home_path}
use runner_loom.Store.{
  Store, ClientRow, seconds, find_client, find_task, read_config, insert_instance, observations_of,
}
use runner_loom.Store.Tasks.{queued_tasks, dispatch_tasks}
use runner_loom.Store.Tasks.View.{TaskView}
use runner_loom.Store.Submit.{submit_task, find_request}
use runner_loom.Store.Clients.{
  authorize_client, update_client_certificate, revoke_client, renewal_grace,
}
use runner_loom.Store.Sync.Delivery.{task_payload, is_live_client}
use runner_loom.Safety.Submitted.{submit_task-payload, submit_task-again}
use runner_loom.Safety.Clients.{IsLocked, revoke_client-IsLocked}
use runner_loom.Safety.Certificates.{update_client_certificate-grace}
use runner_loom.Safety.History.{
  History, beginning, then_event, worked, revoked_client-refused, is_of,
}
use runner_loom.Safety.Runs.{tasks_dispatched}
use runner_loom.Tests.Fixtures.{value, no_pki}
use runner_loom.Tests.Validation.{platform}
use runner_loom.Tests.Ledger.{now}
use runner_loom.Tests.Tasks.{task, task_id, vm_id, payload, task_store}

title_test : task_title "\n  Fix the\tbuild  \nnow" ≡ "Fix the build"
unfolding task_title is_space
title_test = refl

path_test : valid_home_path ".config/agent.json" ≡ true
unfolding valid_home_path
path_test = refl

path_test_work : valid_home_path "work/x" ≡ false
unfolding valid_home_path
path_test_work = refl

path_test_up : valid_home_path "a/../b" ≡ false
unfolding valid_home_path
path_test_up = refl

env_test : reserved_env "ld_preload" ≡ true
unfolding reserved_env
env_test = refl

spec_test : validate_spec platform (λ p. 1000) payload.spec ≡ ok tt
unfolding validate_spec is_space
spec_test = refl

abbrev laptop : ClientRow
laptop = record {
  name = "laptop";
  certificate_hash = "first";
  revoked = false;
  created = 0;
  previous_hash = "";
  previous_until = 0;
}

abbrev desk : Store
desk = record task_store { tasks = []; clients = laptop ∷ [] }

abbrev no_view : TaskView
no_view = record {
  task = task;
  node = "";
  deadline = none;
  state = queued;
  progress = "";
  outcome = none;
}

unfoldable submitted : Store × TaskView
unfolding submit_task read_config find_pool place candidates candidate share_of held_on pool_count
    observed validate_owners protection insert_instance observations_of standing reason_if sort
    image_or_zero eligible shares charge Int64.add Int64.sub Int64.mul Resources.fits Resources.add
    Resources.sub Resources.mul Resources.empty after_minutes queued_tasks is_space valid_id
    valid_name
submitted =
    value
      (submit_task platform (λ p. 1000) (λ spec. "hash") now task_id vm_id "laptop" payload.spec
        desk)
      (desk, no_view)

submitted_eq :
    submit_task platform (λ p. 1000) (λ spec. "hash") now task_id vm_id "laptop" payload.spec desk
    ≡ ok submitted
unfolding submitted find_task
submitted_eq = refl

submit_task-payload_example :
    task_payload task_id submitted.0 ≡ ok (some (record { id = task_id; spec = payload.spec }))
unfolding find_request find_client is_live_client
submit_task-payload_example =
    submit_task-payload platform (λ p. 1000) (λ spec. "hash") now task_id vm_id "laptop"
      payload.spec desk submitted.0 submitted.1 refl refl submitted_eq

abbrev retry_id : String
retry_id = "00000000000000000000000000000001"

submit_task-again_example :
    (w : TaskView) × (submit_task platform
        (λ p. 1000)
        (λ spec. "hash")
        5000
        retry_id
        retry_id
        "laptop"
        payload.spec
        submitted.0
      ≡ ok (submitted.0, w))
    × (w.task ≡ submitted.1.task)
unfolding find_request
submit_task-again_example =
    submit_task-again platform (λ p. 1000) (λ spec. "hash") now 5000 task_id vm_id "laptop" retry_id
      retry_id payload.spec desk submitted.0 submitted.1 refl submitted_eq

abbrev ids : String → String
ids id = vm_id

abbrev a_week : ℕ
a_week = 604800000000000

abbrev own_hash : String → String
own_hash cert = cert

unfoldable renewed_store : Store
unfolding update_client_certificate
renewed_store = value (update_client_certificate now own_hash "laptop" "second" desk) desk

renewed_eq : update_client_certificate now own_hash "laptop" "second" desk ≡ ok renewed_store
unfolding renewed_store
renewed_eq = refl

update_client_certificate-grace_example :
    (authorize_client a_week own_hash "laptop" "second" renewed_store ≡ ok tt)
    × (authorize_client a_week own_hash "laptop" "first" renewed_store
        ≡ require
            (ltb (seconds a_week) (seconds (now + renewal_grace)))
            (fail "CLIENT_UNAUTHORIZED"))
unfolding find_client
update_client_certificate-grace_example =
    update_client_certificate-grace now a_week own_hash "laptop" "second" "first" desk renewed_store
      laptop refl refl refl refl refl renewed_eq

-- The task still waits when its client is revoked.
abbrev waiting : Store
waiting = record task_store { clients = laptop ∷ [] }

unfoldable revoked_store : Store × ℕ
unfolding revoke_client find_client
revoked_store = value (revoke_client 6000 "laptop" waiting) (waiting, 0)

revoked_eq : revoke_client 6000 "laptop" waiting ≡ ok (revoked_store.0, 1)
unfolding revoked_store
revoked_eq = refl

revoke_client-IsLocked_example : IsLocked "laptop" revoked_store.0
revoke_client-IsLocked_example =
    revoke_client-IsLocked 6000 "laptop" waiting revoked_store.0 1 revoked_eq

-- Nothing is left to place.
idle_eq : dispatch_tasks 7000 ids revoked_store.0 ≡ ok (revoked_store.0, 0)
unfolding revoked_store dispatch_tasks queued_tasks read_config erase_secret
idle_eq = refl

afterwards : History platform no_pki (λ p. 1000) revoked_store.0 revoked_store.0
afterwards = then_event beginning (worked (tasks_dispatched 7000 ids 0 idle_eq))

revoked_client-refused_example :
    (authorize_client 8000 own_hash "laptop" "first" revoked_store.0
      ≡ err (fail "CLIENT_UNAUTHORIZED"))
    × ((is_of "laptop" (find_task task_id revoked_store.0.tasks) ≡ false)
        ⊎ (task_payload task_id revoked_store.0 ≡ ok none))
revoked_client-refused_example =
    revoked_client-refused platform no_pki (λ p. 1000) 6000 8000 own_hash "laptop" "first" task_id
      waiting revoked_store.0 revoked_store.0 1 revoked_eq afterwards

-- The row is there, and it is the client's.
ended_test : is_of "laptop" (find_task task_id revoked_store.0.tasks) ≡ true
unfolding is_of revoked_store find_task erase_secret
ended_test = refl
