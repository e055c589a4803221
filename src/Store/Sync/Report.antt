-- ===== src/Store/Sync/Report.antt =====
-- internal/core/store.go: the loop of `Sync` over the instances: what a report changes, and which
-- command is then due.
use runner_loom.Base.{
  ℕ, Bool, true, false, not, ◌&&◌, String, Option, none, some, List, [], ◌∷◌, ◌++◌, str_eq, ltb,
  Result, ok, err, fail, ◌>>=◌, if◌then◌else◌,
}
use runner_loom.Base.Int64.{pos, lt_ℤ}
use runner_loom.Resources
use runner_loom.Instance.{
  Instance, State, VmReport, ReportState, running, stopped, deleted, failed, unknown, other,
  is_deleted, is_deleting, is_provisioning,
}
use runner_loom.Store.{Store, TaskRow, set_jit_row, save_instance}
use runner_loom.Store.Messages.{set_barrier}

-- `reports[a.ID]`.
unfoldable pub report_of : List VmReport → String → Option VmReport
report_of [] id = none
report_of (r ∷ rs) id = if str_eq r.id id then some r else report_of rs id

-- `UPDATE tasks SET secret=NULL WHERE id=?`.
unfoldable pub erase_secret : String → List TaskRow → List TaskRow
erase_secret id [] = []
erase_secret id (r ∷ rows) =
    (if str_eq r.payload.id id then record r { secret = none } else r) ∷ erase_secret id rows

-- The rows that a confirmed deletion clears.
unfoldable pub erase : Instance → Store → Store
unfolding erase_secret
erase a s = record s {
  instances = set_jit_row a.id none s.instances;
  tasks = if str_eq a.task "" then s.tasks else erase_secret a.task s.tasks;
}

-- A GitHub VM that stops without a recorded result holds back demand, until it is counted afresh.
unfoldable pub needs_barrier : Instance → Bool
needs_barrier a = str_eq a.outcome "" && lt_ℤ (pos 0) a.held.cpu && str_eq a.task ""

unfoldable pub fence : Instance → Store → Store
unfolding needs_barrier
fence a s = record s {
  demand = if needs_barrier a then set_barrier a.pool.name true s.demand else s.demand;
}

unfoldable pub observe : ReportState → Instance → Store → Result (Store × Instance)
unfolding erase fence
observe running a s = ok (s, if is_provisioning a.state then record a { state = State.idle } else a)
observe stopped a s = ok (
  fence a s,
  record a { state = State.deleting; held = record a.held { cpu = pos 0; memory = pos 0 } },
)
observe deleted a s =
    if is_deleting a.state
    then ok (erase a s, record a { state = State.deleted; held = Resources.zero })
    else err (fail "UNEXPECTED_DELETION")
observe failed a s = ok (s, record a { state = State.stopping })
observe unknown a s = ok (s, a)
observe (other t) a s = err (fail "REPORT_STATE")

unfoldable pub observe_if : Option VmReport → Instance → Store → Result (Store × Instance)
unfolding observe
observe_if none a s = ok (s, a)
observe_if (some r) a s = observe r.state a s

pub data Action : Type 0 where
  delete stop ensure : Action

pub record Pending : Type 0 where
  pub run : Instance
  pub action : Action

-- The VM is up already, or its Node does not know.
unfoldable pub settled : Option VmReport → Bool
settled none = false
settled (some r) = settled_state r.state
  where
    settled_state : ReportState → Bool
    settled_state running = true
    settled_state unknown = true
    settled_state _ = false

-- The `switch` after the report; `updated` has been set.
unfoldable pub due : ℕ → Option VmReport → Instance → Option Action
unfolding settled
due now r a = due_in a.state
  where
    otherwise : Option Action
    otherwise =
        if not (ltb now a.deadline)
        then some stop
        else if a.jit_ready && not (settled r)
        then some ensure
        else none

    due_in : State → Option Action
    due_in State.deleted = none
    due_in State.deleting = some delete
    due_in State.stopping = some stop
    due_in _ = otherwise

unfoldable pub queue : Instance → Option Action → List Pending → List Pending
queue a none pending = pending
queue a (some action) pending = pending ++ record { run = a; action = action } ∷ []

-- One round of the loop, on an instance of this Node that is not deleted.
unfoldable pub advance_one :
    ℕ → Option VmReport → Instance → Store × List Pending → Result (Store × List Pending)
unfolding observe_if due queue
advance_one now r a (s, pending) = do
  (t, b) ← observe_if r a s
  let saved = record b { updated = now }
  ok (save_instance saved t, queue saved (due now r saved) pending)

unfoldable pub concerns : String → Instance → Bool
concerns name a = str_eq a.node name && not (is_deleted a.state)

unfoldable pub advance :
    ℕ
    → String
    → List VmReport
    → List Instance
    → Store × List Pending
    → Result (Store × List Pending)
unfolding report_of advance_one concerns
advance now name reports [] sp = ok sp
advance now name reports (a ∷ runs) sp =
    let skipped = advance now name reports runs sp in
    let next : Result (Store × List Pending) =
      (advance_one now (report_of reports a.id) a sp >>= advance now name reports runs) in
    if concerns name a then next else skipped
