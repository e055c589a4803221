-- ===== src/Task/Spec.antt =====
-- internal/core/task.go: what a client may submit, `AgentProfile.Validate` and `TaskSpec.Validate`.
-- A text is a sequence of code points here, so `utf8.ValidString` holds of every text.
pub mod Paths
pub mod Patterns
use runner_loom.Task.Spec.Patterns.{
  request_pattern, binary_pattern, env_pattern, is_blank, has_nul, is_text,
}
use runner_loom.Task.Spec.Paths.{codes_eq, valid_home_path}
use Prim.Native.Nat.{◌+◌, ◌-◌}
use runner_loom.Base.{
  ℕ, ◌==◌, Bool, true, false, not, ◌&&◌, ◌||◌, String, Option, none, some, List, [], ◌∷◌, ◌++◌, ltb,
  str_eq, len, length, is_empty, is_some, contains, Result, fail, require, ◌>>◌, if◌then◌else◌,
}
use runner_loom.Base.Split.{codes, split, join, trim_left, trim_right, contains_any, has_prefix}
use runner_loom.Config.Names.{at_most, between, valid_name}
use runner_loom.Config.Validate.Check.{Platform, Url, Bad, check, ◌&◌}
use runner_loom.Task.{AgentProfile, TaskFile, TaskSpec, TaskPayload}
use runner_loom.Task.State.{repository_path}
use runner_loom.Task.Check.{valid_git_ref, alphanumeric}

plain_url : Option Url → Bool
unfolding trim_left trim_right
plain_url none = false
plain_url (some u) =
    str_eq u.scheme "https"
    && not (str_eq u.host "")
    && not u.has_user
    && str_eq u.raw_query ""
    && str_eq u.fragment ""
    && not (is_empty (trim_right b'/' (trim_left b'/' (codes u.path))))

-- `validRepository`.
unfoldable pub valid_repository : Platform → String → Bool
unfolding plain_url contains_any
valid_repository e raw =
    plain_url (e.parse_url raw)
    && not (ltb 512 (len raw))
    && not (contains_any (codes raw) (codes " \t\r\n\\'\"`$"))

-- `strings.ToUpper`, of the ASCII texts that `envPattern` lets through.
upper : List ℕ → List ℕ
upper [] = []
upper (c ∷ cs) = (if between b'a' b'z' c then c - 32 else c) ∷ upper cs

any_text : List ℕ → List String → Bool
unfolding codes_eq
any_text u [] = false
any_text u (s ∷ ss) = codes_eq u (codes s) || any_text u ss

unfoldable pub reserved_env : String → Bool
unfolding upper any_text has_prefix
reserved_env k =
    let u = upper (codes k) in
    any_text u ("HOME" ∷ "USER" ∷ "LOGNAME" ∷ "PATH" ∷ "SHELL" ∷ "PWD" ∷ "TERM" ∷ "LANG" ∷ [])
    || has_prefix (codes "LD_") u
    || has_prefix (codes "RUNNERLOOM_") u

unfoldable pub run_loop : List String → Bad
unfolding is_text
run_loop [] = []
run_loop (v ∷ vs) = check (not (str_eq v "") && is_text 4096 v) "agent.run" ++ run_loop vs

unfoldable pub agent_bad : AgentProfile → Bad
unfolding valid_name binary_pattern is_text run_loop
agent_bad p =
    check (valid_name p.name) "agent.name"
    ++ (check (str_eq p.binary "" || binary_pattern (codes p.binary)) "agent.binary"
        ++ (check (str_eq p.runtime "" || str_eq p.runtime "node") "agent.runtime"
            ++ (check (is_text 16384 p.install) "agent.install"
                ++ (check (not (is_empty p.run) && not (ltb 64 (length p.run))) "agent.run"
                    ++ run_loop p.run))))

-- `AgentProfile.Validate`.
unfoldable pub validate_agent : AgentProfile → Result (Unit {0})
unfolding agent_bad
validate_agent p = require (is_empty (agent_bad p)) (fail "INVALID_TASK")

unfoldable pub repository_bad : Platform → TaskSpec → Bad
unfolding valid_repository valid_git_ref repository_path
repository_bad e t =
    if str_eq t.repository ""
    then check (str_eq t.base_ref "" && str_eq t.branch "" && not t.pull_request) "repository"
    else check (valid_repository e t.repository) "repository"
      ++ (check (str_eq t.base_ref "" || valid_git_ref t.base_ref) "baseRef"
          ++ (check (valid_git_ref t.branch) "branch"
              ++ (check (not (str_eq t.branch t.base_ref)) "branch"
                  ++ (if t.pull_request
                      then check
                          (is_some (repository_path e t.repository) && not (str_eq t.git_token ""))
                          "pullRequest"
                      else []))))

unprintable : List ℕ → Bool
unprintable [] = false
unprintable (c ∷ cs) = not (between 33 126 c) || unprintable cs

unfoldable pub token_bad : Platform → TaskSpec → Bad
unfolding unprintable repository_path
token_bad e t =
    check (not (ltb 1024 (len t.git_token)) && not (unprintable (codes t.git_token))) "gitToken"
    ++ (if str_eq t.git_token ""
        then []
        else check (is_some (repository_path e t.repository)) "gitToken")

-- `seen` holds the paths above, and the sum is checked behind the last file.
unfoldable pub files_loop : List String → ℕ → List TaskFile → Bad
unfolding valid_home_path
files_loop seen total [] = check (not (ltb 262144 total)) "files"
files_loop seen total (f ∷ fs) =
    check (valid_home_path f.path && not (contains seen f.path)) ("files." & f.path)
    ++ (check (not (ltb 131072 (length f.content))) ("files." & f.path)
        ++ files_loop (f.path ∷ seen) (total + length f.content) fs)

unfoldable pub env_loop : List (String × String) → Bad
unfolding env_pattern reserved_env is_text
env_loop [] = []
env_loop ((k, v) ∷ rest) =
    check (env_pattern (codes k) && not (reserved_env k)) ("env." & k)
    ++ (check (is_text 16384 v) ("env." & k) ++ env_loop rest)

unfoldable pub spec_bad : Platform → TaskSpec → Bad
unfolding request_pattern valid_name is_blank is_text repository_bad token_bad files_loop env_loop
spec_bad e t =
    check (request_pattern (codes t.request_id)) "requestID"
    ++ (check (valid_name t.pool) "pool"
        ++ (check (not (is_blank (codes t.prompt)) && is_text 65536 t.prompt) "prompt"
            ++ (repository_bad e t
                ++ (token_bad e t
                    ++ (check (not (ltb 32 (length t.files))) "files"
                        ++ (files_loop [] 0 t.files
                            ++ (check (not (ltb 32 (length t.env))) "env" ++ env_loop t.env)))))))

abbrev pub zero_id : String
zero_id = "00000000000000000000000000000000"

-- `TaskSpec.Validate`. `payload_size` is the length of a payload's JSON.
unfoldable pub validate_spec : Platform → (TaskPayload → ℕ) → TaskSpec → Result (Unit {0})
unfolding validate_agent spec_bad
validate_spec e payload_size t = do
  validate_agent t.agent
  require (is_empty (spec_bad e t)) (fail "INVALID_TASK")
  require (not (ltb 524288 (payload_size (record { id = zero_id; spec = t }))))
      (fail "TASK_TOO_LARGE")
