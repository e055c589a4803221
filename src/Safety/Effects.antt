-- ===== src/Safety/Effects.antt =====
-- What the operations on one VM do to all rows of the table of instances, row by row.
pub mod Rows
pub mod Registered
pub mod Stopped
pub mod Cancelled
pub mod Told
use runner_loom.Base.{Bool, true, false}
use runner_loom.Instance.{State}

-- The Controller may still ask the Node to stop the VM.
unfoldable pub may_stop : State → Bool
may_stop State.reserved = true
may_stop State.provisioning = true
may_stop State.idle = true
may_stop State.busy = true
may_stop State.finishing = true
may_stop State.stopping = true
may_stop State.deleting = false
may_stop State.deleted = false
