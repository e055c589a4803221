-- ===== src/Instance.antt =====
-- internal/core/model.go: the records of virtual machines and what Nodes report of them. Times are
-- nanoseconds of the epoch.
use runner_loom.Base.{
  ℕ, Bool, true, false, not, ◌&&◌, ◌||◌, String, List, str_eq, ◌==◌, Result, ok, err, plain,
  if◌then◌else◌,
}
use runner_loom.Base.Int64.{ℤ, pos, lt_ℤ}
use runner_loom.Resources
use runner_loom.Resources.{Resources}
use runner_loom.Config.{Pool, Image, charge}
use runner_loom.Config.Names.{valid_name, valid_id, valid_digest}

-- The strings that the Controller stores in `Instance.State`.
pub data State : Type 0 where
  reserved provisioning idle busy finishing stopping deleting deleted : State

pub State-discrete : Discrete State
State-discrete = hlevel

pub record Instance : Type 0 where
  pub id : String
  pub request_id : String
  pub node : String
  pub pool : Pool
  pub image : Image
  pub state : State
  pub reservation : String
  pub held : Resources
  pub runner_id : ℤ
  pub outcome : String
  pub created : ℕ
  pub deadline : ℕ
  pub updated : ℕ
  pub jit_ready : Bool
  pub task : String

abbrev pub is_deleted : State → Bool
is_deleted State.deleted = true
is_deleted _ = false

abbrev pub is_deleting : State → Bool
is_deleting State.deleting = true
is_deleting _ = false

abbrev pub is_provisioning : State → Bool
is_provisioning State.provisioning = true
is_provisioning _ = false

abbrev pub is_stopping : State → Bool
is_stopping State.stopping = true
is_stopping _ = false

abbrev pub is_reserved : State → Bool
is_reserved State.reserved = true
is_reserved _ = false

unfoldable pub active : Instance → Bool
active a = active_state a.state
  where
    active_state : State → Bool
    active_state State.deleted = false
    active_state State.deleting = false
    active_state State.finishing = false
    active_state _ = true

-- What a Node says of a VM; any other text is refused by the Controller.
pub data ReportState : Type 0 where
  running stopped deleted failed unknown : ReportState
  other : String → ReportState

pub record VmReport : Type 0 where
  pub id : String
  pub state : ReportState
  pub detail : String

pub record Observation : Type 0 where
  pub node : String
  pub boot_id : String
  pub sequence : ℤ
  pub seen : ℕ
  pub ready : Bool
  pub drained : Bool
  pub isolation : Bool
  pub ceiling : Resources
  pub free_disk_gib : ℤ
  pub digests : List String
  pub instances : List VmReport
  pub error : String

-- `ValidateInstance`. A deadline of 0 is the zero time.
unfoldable pub validate_instance : Instance → Result (Unit {0})
validate_instance a =
    if out_of_bounds
    then err (plain "VM component size outside safe bounds")
    else if not (str_eq a.task "") && not (valid_id a.task)
    then err (plain "invalid task link")
    else if not (valid_id a.id)
        || not (valid_name a.node)
        || not (valid_name p.name)
        || not (valid_digest a.image.digest)
        || not (Resources.valid (charge p))
        || a.deadline == 0
    then err (plain "invalid instance identity or resources")
    else ok tt
  where
    p : Pool
    p = a.pool

    out_of_bounds : Bool
    out_of_bounds =
        lt_ℤ p.vcpu (pos 1)
        || lt_ℤ (pos 65536) p.vcpu
        || lt_ℤ p.memory_mib (pos 512)
        || lt_ℤ (pos 1073741824) p.memory_mib
        || lt_ℤ p.overhead_mib (pos 512)
        || lt_ℤ (pos 1048576) p.overhead_mib
        || lt_ℤ p.root_gib (pos 1)
        || lt_ℤ (pos 1048576) p.root_gib
        || lt_ℤ p.scratch_gib (pos 0)
        || lt_ℤ (pos 1048576) p.scratch_gib
        || lt_ℤ p.disk_overhead_gib (pos 1)
        || lt_ℤ (pos 1024) p.disk_overhead_gib
