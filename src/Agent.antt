-- ===== src/Agent.antt =====
-- internal/agent/agent.go: the Node's agent: its configuration, which commands it takes, one cycle's
-- commands and reports, and the delay between cycles.
pub mod Delivered
pub mod Cycle
pub mod Synced
use Prim.Native.String.{◌++◌ as str_append}
use runner_loom.Base.{
  ℕ, zero, suc, ◌*◌, ◌==◌, Bool, true, false, not, ◌&&◌, ◌||◌, String, Option, none, some, List, [],
  ◌∷◌, ◌++◌, ltb, leb, length, str_eq, bytes, is_some, Result, ok, err, Fault, fail, plain, require,
  ◌>>=◌, ◌>>◌, if◌then◌else◌,
}
use runner_loom.Base.Int64.{ℤ, pos, lt_ℤ}
use runner_loom.Base.Split.{has_prefix}
use runner_loom.Resources
use runner_loom.Resources.{Resources}
use runner_loom.Config.{charge}
use runner_loom.Config.Names.{valid_name}
use runner_loom.Config.Validate.Check.{Platform, Url}
use runner_loom.Instance.{Instance}
use runner_loom.Task.{TaskPayload}
use runner_loom.Store.Sync.Report.{Action, delete, stop, ensure}
use runner_loom.Store.Sync.Delivery.{Command}
use runner_loom.Store.Tasks.Report.{TaskReport}

pub record AgentConfig : Type 0 where
  pub node : String
  pub cluster : String
  pub controller : String
  pub state_dir : String
  pub disk_dir : String
  pub network_cidr : String
  pub ceiling : Resources
  pub cache_gib : ℤ
  pub qemu_user : String

unfoldable pub is_origin : Option Url → Bool
is_origin none = false
is_origin (some u) =
    str_eq u.scheme "https"
    && not (str_eq u.host "")
    && not u.has_user
    && str_eq u.path ""
    && str_eq u.raw_query ""
    && str_eq u.fragment ""

unfoldable pub good_path : Platform → String → Bool
good_path e p = e.is_clean_absolute p && not (str_eq p "/")

-- `strings.HasPrefix(p, dir+"/")`.
unfoldable pub inside : String → String → Bool
unfolding has_prefix
inside p dir = has_prefix (bytes (str_append dir "/")) (bytes p)

-- `Config.Validate`.
unfoldable pub validate_agent_config : Platform → AgentConfig → Result (Unit {0})
unfolding is_origin good_path inside
validate_agent_config e c = do
  require (is_origin (e.parse_url c.controller)) (plain "controller must be an https origin")
  require
      (valid_name c.node
        && valid_name c.cluster
        && Resources.valid c.ceiling
        && not (lt_ℤ c.cache_gib (pos 1))
        && not (lt_ℤ (pos 1048576) c.cache_gib))
      (plain "invalid node configuration")
  require (good_path e c.state_dir && good_path e c.disk_dir)
      (plain "node paths must be normalized absolute paths")
  require
      (not (
        str_eq c.state_dir c.disk_dir
        || inside c.disk_dir c.state_dir
        || inside c.state_dir c.disk_dir))
      (plain "VM disk directory must be outside the private agent state directory")

unfoldable pub is_ensure : Action → Bool
is_ensure ensure = true
is_ensure _ = false

-- The payload that came with a command is not that of its VM.
unfoldable pub stray_payload : Command → Option TaskPayload → Bool
unfolding is_ensure
stray_payload cmd none = false
stray_payload cmd (some p) =
    not (is_ensure cmd.action) || str_eq cmd.run.task "" || not (str_eq p.id cmd.run.task)

-- A VM for a task without its payload, or mixed with a JIT configuration.
unfoldable pub unfit_task : Command → Bool
unfolding is_ensure
unfit_task cmd =
    is_ensure cmd.action
    && (not (str_eq cmd.run.task "") || cmd.run.pool.tasks)
    && (not (is_some cmd.task)
        || not (str_eq cmd.jit "")
        || not cmd.run.pool.tasks
        || str_eq cmd.run.task "")

-- `acceptCommand`.
unfoldable pub accept_command : String → Resources → Command → Result (Unit {0})
unfolding is_ensure stray_payload unfit_task
accept_command node ceiling cmd = do
  require (str_eq cmd.run.node node) (plain "controller command exceeds node policy")
  require (not (is_ensure cmd.action) || Resources.fits (charge cmd.run.pool) ceiling)
      (plain "controller command exceeds node policy")
  require (not (stray_payload cmd cmd.task || unfit_task cmd))
      (plain "controller task command does not match its instance")

-- What the agent asks of the Node's provider.
pub data Operation : Type 0 where
  ensure_task : Instance → TaskPayload → Operation
  ensure_runner : Instance → String → Operation
  stop_vm : Instance → Operation
  delete_vm : String → Operation

unfoldable pub ensure_operation : Command → Option TaskPayload → Operation
ensure_operation cmd none = ensure_runner cmd.run cmd.jit
ensure_operation cmd (some p) = ensure_task cmd.run p

unfoldable pub operation_of : Command → Action → Operation
unfolding ensure_operation
operation_of cmd ensure = ensure_operation cmd cmd.task
operation_of cmd stop = stop_vm cmd.run
operation_of cmd delete = delete_vm cmd.run.id

-- What the loop of `Step` has asked for, and the error that ended it. An operation that fails is
-- logged, and the loop goes on.
unfoldable pub run_commands :
    String → Resources → List Command → List Operation → List Operation × Option Fault
unfolding accept_command operation_of
run_commands node ceiling [] done = (done, none)
run_commands node ceiling (cmd ∷ commands) done =
    goes_on (accept_command node ceiling cmd)
      (run_commands node ceiling commands (done ++ operation_of cmd cmd.action ∷ []))
  where
    goes_on : Result (Unit {0}) → List Operation × Option Fault → List Operation × Option Fault
    goes_on (ok passed) rest = rest
    goes_on (err f) rest = (done, some f)

-- The whole reply is refused beyond these counts.
unfoldable pub take_reply : String → Resources → ℕ → List Command → List Operation × Option Fault
unfolding run_commands
take_reply node ceiling images commands =
    if ltb 1024 images || ltb 8 (length commands)
    then ([], some (plain "controller response exceeds policy"))
    else run_commands node ceiling commands []

pub record TaskUpload : Type 0 where
  pub task : String
  pub report : TaskReport

-- The Controller will never take the report.
unfoldable pub is_refused_for_good : Fault → Bool
is_refused_for_good (plain message) = false
is_refused_for_good (fail code) =
    str_eq code "TASK_NOT_FOUND"
    || str_eq code "TASK_NOT_OWNED"
    || str_eq code "TASK_RESULT"
    || str_eq code "TASK_REPORT"

unfoldable pub is_settled : Option Fault → Bool
unfolding is_refused_for_good
is_settled none = true
is_settled (some f) = is_refused_for_good f

-- The uploads that `reportTasks` marks as reported, with whether the report is final. `post` is the
-- Controller's answer to an upload, none for success.
unfoldable pub report_loop :
    (TaskUpload → Option Fault) → ℕ → List TaskUpload → List (String × Bool)
unfolding is_settled
report_loop post left [] = []
report_loop post zero (u ∷ uploads) = []
report_loop post (suc left) (u ∷ uploads) =
    let rest = report_loop post left uploads in
    if is_settled (post u) then (u.report.run, is_some u.report.outcome) ∷ rest else rest

unfoldable pub report_tasks : (TaskUpload → Option Fault) → List TaskUpload → List (String × Bool)
unfolding report_loop
report_tasks post uploads = report_loop post 4 uploads

-- Nanoseconds.
abbrev pub short_delay : ℕ
short_delay = 5000000000

abbrev pub long_delay : ℕ
long_delay = 30000000000

-- The delay of `Run` behind a cycle.
unfoldable pub next_delay : ℕ → Bool → ℕ
next_delay delay true = short_delay
next_delay delay false = if leb long_delay (delay * 2) then long_delay else delay * 2

-- The delays behind the cycles, from the outcomes of the cycles.
unfoldable pub delays : ℕ → List Bool → List ℕ
unfolding next_delay
delays delay [] = []
delays delay (outcome ∷ outcomes) =
    next_delay delay outcome ∷ delays (next_delay delay outcome) outcomes
