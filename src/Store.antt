-- ===== src/Store.antt =====
-- internal/core/store.go: the Controller's database, one list to a table, and its reads and writes.
-- A JSON column is the value that was written to it. A transaction that fails leaves the database as
-- it was, so an operation is a function into `Result (Store × A)`.
pub mod Seal
pub mod Plans
pub mod Allocate
pub mod Sync
pub mod Messages
pub mod Tasks
pub mod Clients
pub mod Submit
pub mod Identity
pub mod Maintenance
use Seal.{Sealed}
use runner_loom.Base.{
  ℕ, ◌/◌, Bool, true, false, not, ◌&&◌, ◌||◌, String, Option, none, some, List, [], ◌∷◌, ◌++◌,
  str_eq, str_lt, Result, ok, err, plain, if◌then◌else◌,
}
use runner_loom.Base.Int64.{ℤ, pos}
use runner_loom.Resources.{Resources}
use runner_loom.Config.{Config, GitHub}
use runner_loom.Instance.{Instance, Observation}
use runner_loom.Scheduler.{Observations}
use runner_loom.Task.{Task, TaskPayload, TaskResult}

pub record Settings : Type 0 where
  pub revision : ℤ
  pub payload : Config

pub record Plan : Type 0 where
  pub id : String
  pub base : ℤ
  pub expires : ℕ
  pub payload : Config
  pub applied : Option ℤ

pub record InstanceRow : Type 0 where
  pub payload : Instance
  pub jit : Option (Sealed String)

pub record NodeRow : Type 0 where
  pub name : String
  pub payload : Observation
  pub drained : Bool

pub record DemandRow : Type 0 where
  pub pool : String
  pub desired : ℤ
  pub seen : ℕ
  pub barrier : Bool
  pub intake : Bool

pub record InboxRow : Type 0 where
  pub session : String
  pub id : ℤ
  pub hash : String
  pub created : ℕ

pub record AuditRow : Type 0 where
  pub time : ℕ
  pub event : String
  pub target : String

pub record TaskRow : Type 0 where
  pub payload : Task
  pub secret : Option (Sealed TaskPayload)
  pub outcome : Option (Sealed TaskResult)
  pub progress : Option (Sealed String)

pub record ClientRow : Type 0 where
  pub name : String
  pub certificate_hash : String
  pub revoked : Bool
  pub created : ℕ
  pub previous_hash : String
  pub previous_until : ℕ

pub record InviteRow : Type 0 where
  pub id : String
  pub hash : String
  pub expires : ℕ
  pub used : Bool
  pub revoked : Bool

pub record EnrollmentRow : Type 0 where
  pub id : String
  pub invite : String
  pub name : String
  pub csr : String
  pub ceiling : Resources
  pub status : String
  pub certificate : String

pub record IdentityRow : Type 0 where
  pub name : String
  pub certificate_hash : String
  pub revoked : Bool

pub record Store : Type 0 where
  pub settings : Option Settings
  pub plans : List Plan
  pub instances : List InstanceRow
  pub nodes : List NodeRow
  pub demand : List DemandRow
  pub inbox : List InboxRow
  pub audit : List AuditRow
  pub tasks : List TaskRow
  pub clients : List ClientRow
  pub invites : List InviteRow
  pub enrollments : List EnrollmentRow
  pub identities : List IdentityRow

-- Seconds of the epoch.
abbrev pub seconds : ℕ → ℕ
seconds now = now / 1000000000

abbrev pub no_config : Config
no_config = record {
  api_version = "";
  name = "";
  github = record {
    url = "";
    runner_group_id = pos 0;
    credential_file = "";
    allowed_repositories = [];
  };
  images = [];
  nodes = [];
  pools = [];
  reservations = [];
}

-- `readConfig`: the empty configuration at revision 0 before the first `Apply`.
unfoldable pub read_config : Store → Config × ℤ
read_config s = elim s.settings [ none ↦ (no_config, pos 0) | some r ↦ (r.payload, r.revision) ]

abbrev pub payloads : List InstanceRow → List Instance
payloads [] = []
payloads (r ∷ rows) = r.payload ∷ payloads rows

-- `readInstances`. The table is kept in the order of its keys.
abbrev pub read_instances : Store → List Instance
read_instances s = payloads s.instances

unfoldable pub observations_of : List NodeRow → Observations
observations_of [] = []
observations_of (r ∷ rows) =
    (r.payload.node, record r.payload { drained = r.drained }) ∷ observations_of rows

-- `readNodes`.
abbrev pub read_nodes : Store → Observations
read_nodes s = observations_of s.nodes

-- `INSERT INTO instances`: both keys are unique.
unfoldable pub taken : Instance → List InstanceRow → Bool
taken a [] = false
taken a (r ∷ rows) =
    str_eq r.payload.id a.id || str_eq r.payload.request_id a.request_id || taken a rows

unfoldable pub place_row : InstanceRow → List InstanceRow → List InstanceRow
place_row r [] = r ∷ []
place_row r (q ∷ rows) =
    if str_lt q.payload.id r.payload.id then q ∷ place_row r rows else r ∷ q ∷ rows

unfoldable pub insert_instance : Instance → Store → Result Store
unfolding taken place_row
insert_instance a s =
    if taken a s.instances
    then err (plain "UNIQUE constraint failed")
    else ok (record s { instances = place_row (record { payload = a; jit = none }) s.instances })

-- `UPDATE instances SET payload=? WHERE id=?`.
unfoldable pub save_row : Instance → List InstanceRow → List InstanceRow
save_row a [] = []
save_row a (r ∷ rows) =
    (if str_eq r.payload.id a.id then record r { payload = a } else r) ∷ save_row a rows

unfoldable pub save_instance : Instance → Store → Store
unfolding save_row
save_instance a s = record s { instances = save_row a s.instances }

-- `UPDATE instances SET jit=? WHERE id=?`.
unfoldable pub set_jit_row : String → Option (Sealed String) → List InstanceRow → List InstanceRow
set_jit_row id jit [] = []
set_jit_row id jit (r ∷ rows) =
    (if str_eq r.payload.id id then record r { jit = jit } else r) ∷ set_jit_row id jit rows

unfoldable pub find_row : String → List InstanceRow → Option InstanceRow
find_row id [] = none
find_row id (r ∷ rows) = if str_eq r.payload.id id then some r else find_row id rows

unfoldable pub find_task : String → List TaskRow → Option TaskRow
find_task id [] = none
find_task id (r ∷ rows) = if str_eq r.payload.id id then some r else find_task id rows

unfoldable pub find_client : String → List ClientRow → Option ClientRow
find_client name [] = none
find_client name (r ∷ rows) = if str_eq r.name name then some r else find_client name rows

-- `INSERT INTO audit`.
unfoldable pub add_audit : ℕ → String → String → Store → Store
add_audit now event target s = record s {
  audit = s.audit ++ record { time = seconds now; event = event; target = target } ∷ [];
}
