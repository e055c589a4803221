-- ===== src/Store/Messages.antt =====
-- internal/core/store.go and runtime.go: `PersistMessage`, `RefreshDemand`, the demand flags,
-- `Demands` and `Drain`.
use runner_loom.Base.{
  ℕ, Bool, false, not, ◌&&◌, ◌||◌, String, Option, none, some, List, [], ◌∷◌, str_eq, Result, ok,
  err, fail, plain, ◌>>◌, require, if◌then◌else◌,
}
use Prim.Native.String.{◌++◌ as str_append}
use runner_loom.Base.Int64.{ℤ, pos, lt_ℤ, eq_ℤ}
use runner_loom.Config.Names.{valid_name}
use runner_loom.Instance.{Instance, State, active}
use runner_loom.Store.{Store, DemandRow, InboxRow, NodeRow, read_instances, save_instance, seconds}

-- What `RunnerEvent.State` may say; other texts have no effect.
pub data EventState : Type 0 where
  busy complete : EventState
  other : String → EventState

pub record RunnerEvent : Type 0 where
  pub name : String
  pub state : EventState
  pub outcome : String

-- `Instance.Name()`.
abbrev pub runner_name : Instance → String
runner_name a = str_append "rl-" a.id

unfoldable pub on_event : EventState → String → Instance → Instance
on_event busy outcome a = if active a then record a { state = State.busy } else a
on_event complete outcome a = record a { outcome = outcome }
on_event (other t) outcome a = a

-- The inner loop. The event works on the instances as they were read before the first event, so a
-- later event of the same instance starts from that value again.
unfoldable pub event_loop : ℕ → String → RunnerEvent → List Instance → Store → Store
unfolding on_event
event_loop now pool ev [] s = s
event_loop now pool ev (a ∷ runs) s = event_loop now pool ev runs (
    if str_eq (runner_name a) ev.name && str_eq a.pool.name pool
    then save_instance (record (on_event ev.state ev.outcome a) { updated = now }) s
    else s)

unfoldable pub events_loop : ℕ → String → List Instance → List RunnerEvent → Store → Store
unfolding event_loop
events_loop now pool runs [] s = s
events_loop now pool runs (ev ∷ events) s =
    events_loop now pool runs events (event_loop now pool ev runs s)

unfoldable pub find_inbox : String → ℤ → List InboxRow → Option InboxRow
find_inbox session id [] = none
find_inbox session id (m ∷ inbox) =
    if str_eq m.session session && eq_ℤ m.id id then some m else find_inbox session id inbox

-- `INSERT INTO demand … ON CONFLICT(pool) DO UPDATE`: the barrier falls, and the intake fence stays
-- or is raised.
unfoldable pub put_demand : ℕ → String → ℤ → Bool → List DemandRow → List DemandRow
put_demand now pool desired hold [] =
    record { pool = pool; desired = desired; seen = now; barrier = false; intake = hold } ∷ []
put_demand now pool desired hold (d ∷ ds) =
    if str_eq d.pool pool
    then record d { desired = desired; seen = now; barrier = false; intake = d.intake || hold } ∷ ds
    else d ∷ put_demand now pool desired hold ds

unfoldable pub bad_desired : ℤ → Bool
bad_desired desired = lt_ℤ desired (pos 0) || lt_ℤ (pos 1000000) desired

-- `hash` is the SHA-256 of the JSON of pool, desired and events.
unfoldable pub persist_new :
    ℕ → String → ℤ → String → ℤ → List RunnerEvent → String → Bool → Store → Store
unfolding events_loop put_demand
persist_new now session id pool desired events hash hold s =
    let t = events_loop now pool (read_instances s) events s in
    record t {
      demand = put_demand now pool desired hold t.demand;
      inbox = record { session = session; id = id; hash = hash; created = seconds now } ∷ t.inbox;
    }

unfoldable pub persist_message :
    ℕ → String → ℤ → String → ℤ → List RunnerEvent → String → Bool → Store → Result Store
unfolding bad_desired find_inbox persist_new
persist_message now session id pool desired events hash hold s =
    if bad_desired desired || lt_ℤ id (pos 0)
    then err (plain "invalid demand")
    else elim (find_inbox session id s.inbox) [
      | some m ↦ if str_eq m.hash hash then ok s else err (fail "MESSAGE_CONFLICT")
      | none ↦ ok (persist_new now session id pool desired events hash hold s)
    ]

-- `RefreshDemand`.
unfoldable pub refresh_demand : ℕ → String → ℤ → Store → Result Store
unfolding bad_desired put_demand
refresh_demand now pool desired s =
    if not (valid_name pool) || bad_desired desired
    then err (plain "invalid demand snapshot")
    else ok (record s { demand = put_demand now pool desired false s.demand })

unfoldable pub has_demand : String → List DemandRow → Bool
has_demand pool [] = false
has_demand pool (d ∷ ds) = str_eq d.pool pool || has_demand pool ds

unfoldable pub set_barrier : String → Bool → List DemandRow → List DemandRow
set_barrier pool b [] = []
set_barrier pool b (d ∷ ds) =
    (if str_eq d.pool pool then record d { barrier = b } else d) ∷ set_barrier pool b ds

unfoldable pub set_intake : String → Bool → List DemandRow → List DemandRow
set_intake pool b [] = []
set_intake pool b (d ∷ ds) =
    (if str_eq d.pool pool then record d { intake = b } else d) ∷ set_intake pool b ds

-- `SetDemandBarrier` and `SetIntakeFence` through `setDemandFlag`.
unfoldable pub set_demand_flag :
    (String → Bool → List DemandRow → List DemandRow) → String → Bool → Store → Result Store
unfolding has_demand
set_demand_flag column pool blocked s = do
  require (valid_name pool) (plain "invalid demand")
  require (has_demand pool s.demand) (plain "demand not found")
  ok (record s { demand = column pool blocked s.demand })

unfoldable pub set_demand_barrier : String → Bool → Store → Result Store
unfolding set_demand_flag set_barrier
set_demand_barrier = set_demand_flag set_barrier

unfoldable pub set_intake_fence : String → Bool → Store → Result Store
unfolding set_demand_flag set_intake
set_intake_fence = set_demand_flag set_intake

pub record Demand : Type 0 where
  pub pool : String
  pub desired : ℤ
  pub seen : ℕ
  pub blocked : Bool

-- `Demands`.
unfoldable pub demands : List DemandRow → List Demand
demands [] = []
demands (d ∷ ds) =
    record { pool = d.pool; desired = d.desired; seen = d.seen; blocked = d.barrier || d.intake }
    ∷ demands ds

unfoldable pub drain_rows : String → Bool → List NodeRow → List NodeRow
drain_rows name drained [] = []
drain_rows name drained (r ∷ rows) =
    (if str_eq r.name name then record r { drained = drained } else r)
    ∷ drain_rows name drained rows

unfoldable pub has_node_row : String → List NodeRow → Bool
has_node_row name [] = false
has_node_row name (r ∷ rows) = str_eq r.name name || has_node_row name rows

-- `Drain`.
unfoldable pub drain : String → Bool → Store → Result Store
unfolding has_node_row drain_rows
drain name drained s = do
  require (has_node_row name s.nodes) (fail "NODE_NOT_OBSERVED")
  ok (record s { nodes = drain_rows name drained s.nodes })
