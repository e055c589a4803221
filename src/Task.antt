-- ===== src/Task.antt =====
-- internal/core/task.go: the records of agent tasks.
pub mod State
pub mod Check
pub mod Spec
pub mod Title
pub mod Life
use runner_loom.Base.{ℕ, Bool, String, Option, List}
use runner_loom.Base.Int64.{ℤ}

pub record AgentProfile : Type 0 where
  pub name : String
  pub binary : String
  pub runtime : String
  pub install : String
  pub run : List String
  pub sudo : Bool

pub record TaskFile : Type 0 where
  pub path : String
  pub content : List ℕ

pub record TaskSpec : Type 0 where
  pub request_id : String
  pub pool : String
  pub agent : AgentProfile
  pub prompt : String
  pub repository : String
  pub base_ref : String
  pub branch : String
  pub pull_request : Bool
  pub files : List TaskFile
  pub env : List (String × String)
  pub git_token : String

pub record TaskPayload : Type 0 where
  pub id : String
  pub spec : TaskSpec

pub record TaskResult : Type 0 where
  pub status : String
  pub exit_code : ℤ
  pub error : String
  pub output : String
  pub branch : String
  pub commit : String
  pub changed : Bool
  pub pushed : Bool
  pub pull_request_url : String
  pub diff_stat : String
  pub patch : String
  pub truncated : Bool

-- What the payload column keeps of a `Task`; the other fields are derived when it is read.
pub record Task : Type 0 where
  pub id : String
  pub client : String
  pub request_id : String
  pub pool : String
  pub agent : String
  pub title : String
  pub repository : String
  pub base_ref : String
  pub branch : String
  pub pull_request : Bool
  pub spec_hash : String
  pub instance_id : String
  pub cancelled : Bool
  pub expired : Bool
  pub created : ℕ
  pub updated : ℕ
  pub progress_at : Option ℕ
