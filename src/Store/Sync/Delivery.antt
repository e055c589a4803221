-- ===== src/Store/Sync/Delivery.antt =====
-- internal/core/store.go: the order and the delivery of the commands of a `Sync` reply.
-- internal/core/task.go: `taskPayloadTx`.
use Prim.Native.String.{◌++◌ as str_append}
use runner_loom.Base.{
  len, ℕ, ◌+◌, Bool, false, not, ◌&&◌, String, Option, none, some, List, [], ◌∷◌, ◌++◌, str_eq,
  str_lt, ltb, leb, length, ◌==◌, Result, ok, err, fail, plain, ◌>>=◌, or_fail, if◌then◌else◌,
}
use runner_loom.Base.Int64
use runner_loom.Base.Int64.{ℤ, pos, lt_ℤ}
use runner_loom.Instance.{Instance}
use runner_loom.Task.{Task, TaskPayload}
use runner_loom.Store.{Store, InstanceRow, ClientRow, find_row, find_task, find_client}
use runner_loom.Store.Seal.{Sealed, unseal}
use runner_loom.Store.Sync.Report.{Pending, Action, delete, stop, ensure}

pub record Command : Type 0 where
  pub run : Instance
  pub action : Action
  pub jit : String
  pub task : Option TaskPayload

abbrev pub rank : Action → ℕ
rank delete = 0
rank stop = 1
rank ensure = 2

unfoldable pub precedes : Pending → Pending → Bool
precedes a b =
    if rank a.action == rank b.action
    then str_lt a.run.id b.run.id
    else ltb (rank a.action) (rank b.action)

-- `sort.SliceStable`: an entry goes behind all that do not come after it.
unfoldable pub insert_pending : Pending → List Pending → List Pending
unfolding precedes
insert_pending a [] = a ∷ []
insert_pending a (b ∷ bs) = if precedes b a then b ∷ insert_pending a bs else a ∷ b ∷ bs

unfoldable pub sort_pending : List Pending → List Pending
unfolding insert_pending
sort_pending [] = []
sort_pending (a ∷ rest) = insert_pending a (sort_pending rest)

unfoldable pub may_deliver : Task → Bool
may_deliver t = not t.cancelled && not t.expired

unfoldable pub is_live_client : Option ClientRow → Bool
is_live_client none = false
is_live_client (some c) = not c.revoked

-- The payload opened, when all allows its delivery.
unfoldable pub open_payload : String → Option (Sealed TaskPayload) → Result (Option TaskPayload)
open_payload id secret = do
  p ← unseal (str_append id ":payload") secret
  if str_eq p.id id then ok (some p) else err (plain "task payload identity mismatch")

-- `taskPayloadTx`: nothing for a task that is cancelled, expired or erased, or whose client is
-- revoked.
unfoldable pub task_payload : String → Store → Result (Option TaskPayload)
unfolding may_deliver is_live_client open_payload
task_payload id s = do
  row ← or_fail (find_task id s.tasks) (fail "TASK_NOT_FOUND")
  elim row.secret [
    | none ↦ ok none
    | some box ↦
        if may_deliver row.payload && is_live_client (find_client row.payload.client s.clients)
        then open_payload id (some box)
        else ok none
  ]

-- The secrets that go with one command, and the size that is reckoned for it. `payload_size` is the
-- length of the payload's JSON.
pub record Parcel : Type 0 where
  pub jit : String
  pub task : Option TaskPayload
  pub size : ℕ

unfoldable pub jit_of : Option InstanceRow → Option (Sealed String)
jit_of none = none
jit_of (some row) = row.jit

module _ (payload_size : TaskPayload → ℕ) where
  unfoldable pub task_parcel : Option TaskPayload → Option Parcel
  task_parcel none = none
  task_parcel (some p) = some (record { jit = ""; task = some p; size = 4096 + payload_size p })

  unfoldable pub jit_parcel : String → Option InstanceRow → Result (Option Parcel)
  unfolding jit_of
  jit_parcel id row = do
    found ← or_fail row (plain "sql: no rows in result set")
    jit ← unseal id found.jit
    ok (some (record { jit = jit; task = none; size = 4096 + len jit }))

  -- `none` where the loop goes on without a command.
  unfoldable pub parcel : Store → Pending → Result (Option Parcel)
  unfolding task_parcel jit_parcel
  parcel s item = elim item.action [
    | ensure ↦
        if str_eq item.run.task ""
        then jit_parcel item.run.id (find_row item.run.id s.instances)
        else (task_payload item.run.task s >>= λ p. ok (task_parcel p))
    | _ ↦ ok (some (record { jit = ""; task = none; size = 4096 }))
  ]

  unfoldable pub command_of : Pending → Parcel → Command
  command_of item c = record { run = item.run; action = item.action; jit = c.jit; task = c.task }

  -- Whether a parcel waits for the next cycle. The first command always goes out.
  unfoldable pub too_big : ℤ → Parcel → List Command → Bool
  too_big budget c commands = lt_ℤ budget (pos c.size) && ltb 0 (length commands)

  -- What the loop does with the parcel of one item: the new budget and commands.
  unfoldable pub pack : Pending → Option Parcel → ℤ × List Command → ℤ × List Command
  unfolding command_of too_big
  pack item none (budget, commands) = (budget, commands)
  pack item (some c) (budget, commands) =
      if too_big budget c commands
      then (budget, commands)
      else (Int64.sub budget (pos c.size), commands ++ command_of item c ∷ [])

  unfoldable pub deliver : Store → List Pending → ℤ × List Command → Result (List Command)
  unfolding pack
  deliver s [] (budget, commands) = ok commands
  deliver s (item ∷ items) (budget, commands) =
      let next : Result (List Command) =
        (parcel s item >>= λ c. deliver s items (pack item c (budget, commands))) in
      if leb 4 (length commands) then ok commands else next

-- 900 KiB.
abbrev pub reply_budget : ℤ
reply_budget = pos 921600
