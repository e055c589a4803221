-- ===== src/Tests/Repeats.antt =====
-- A request and a message that come twice, and a payload that is handed out.
use runner_loom.Safety.Effects.Told.{persist_message-after_events, after_events}
use runner_loom.Base.{ℕ, true, false, some, [], ◌∷◌, ◌≡◌, refl, ok, All, ◌≤◌, map, none}
use runner_loom.Base.Int64.{pos}
use runner_loom.Instance.{active}
use runner_loom.Store.{Store, save_instance, find_task, find_client, read_instances, read_config}
use runner_loom.Store.Allocate.{allocate}
use runner_loom.Store.Messages.{
  RunnerEvent, EventState, persist_message, persist_new, find_inbox, bad_desired,
}
use runner_loom.Store.Sync.Delivery.{task_payload, may_deliver, is_live_client, open_payload}
use runner_loom.Resources.Laws.{cpus, amount}
use runner_loom.Ledger.{held_sum}
use runner_loom.Safety.Runs.{Run, start, next, allocated, message_taken, run-within_budget}
use runner_loom.Safety.Again.{allocate-again}
use runner_loom.Safety.Repeats.{Live, task_payload-Live, persist_message-repeated}
use runner_loom.Tests.Fixtures.{value, home_store}
use runner_loom.Tests.Ledger.{now, first, first_eq, first-IsSafe, home_store-IsSafe}
use runner_loom.Tests.Validation.{platform}
use runner_loom.Tests.Tasks.{task_store, task_id, payload}

abbrev later : ℕ
later = 2000000000

allocate-again_example :
    allocate later "bb" "request-1" "linux-lite" first.0 ≡ ok (first.0, first.1)
allocate-again_example =
    allocate-again now later "aa" "bb" "request-1" "linux-lite" home_store first.0 first.1 first_eq

abbrev started : RunnerEvent
started = record { name = "rl-aa"; state = EventState.busy; outcome = "" }

unfoldable told : Store
unfolding first persist_message bad_desired find_inbox persist_new save_instance active
told =
    value
      (persist_message now "session" (pos 1) "linux-lite" (pos 2) (started ∷ []) "hash" true
        first.0)
      home_store

told_eq :
    persist_message now "session" (pos 1) "linux-lite" (pos 2) (started ∷ []) "hash" true first.0
    ≡ ok told
unfolding told
told_eq = refl

persist_message-repeated_example :
    persist_message later "session" (pos 1) "linux-lite" (pos 2) (started ∷ []) "hash" true told
    ≡ ok told
persist_message-repeated_example =
    persist_message-repeated now later "session" (pos 1) "linux-lite" (pos 2) (started ∷ []) "hash"
      true first.0 told told_eq

-- The task's client is known and not revoked.
abbrev client_store : Store
client_store = record task_store {
  clients =
      record {
        name = "laptop";
        certificate_hash = "";
        revoked = false;
        created = 0;
        previous_hash = "";
        previous_until = 0;
      }
      ∷ [];
}

delivered : task_payload task_id client_store ≡ ok (some payload)
unfolding task_payload may_deliver is_live_client open_payload find_task find_client
delivered = refl

task_payload-Live_example : Live task_id client_store payload
task_payload-Live_example = task_payload-Live task_id client_store payload delivered

unseen_eq : find_inbox "session" (pos 1) first.0.inbox ≡ none
unfolding first find_inbox
unseen_eq = refl

persist_message-after_events_example :
    read_instances told
    ≡ map (λ x. after_events now "linux-lite" (started ∷ []) x x) (read_instances first.0)
persist_message-after_events_example =
    persist_message-after_events now "session" (pos 1) "linux-lite" (pos 2) (started ∷ []) "hash"
      true first.0 told first-IsSafe.distinct unseen_eq told_eq

-- An allocation and a message about its VM.
morning : Run platform (λ p. 0) home_store told
morning =
    next (next start (allocated now "aa" "request-1" "linux-lite" first.1 first_eq))
      (message_taken now "session" (pos 1) "linux-lite" (pos 2) (started ∷ []) "hash" true told_eq)

run-within_budget_example :
    All
      (λ n. held_sum cpus n.name (read_instances told) ≤ amount cpus n.budget)
      (read_config told).0.nodes
run-within_budget_example =
    run-within_budget platform (λ p. 0) home_store told home_store-IsSafe morning cpus
