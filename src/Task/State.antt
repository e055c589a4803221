-- ===== src/Task/State.antt =====
-- internal/core/task.go: the life cycle of a task, which is derived from its VM, and what is kept of
-- a guest's result.
use Prim.Native.Char.{Char, code}
use Prim.Native.String.{◌++◌ as str_append}
use runner_loom.Base.{
  ℕ, ◌-◌, ◌==◌, Bool, true, false, not, ◌&&◌, ◌||◌, String, Option, none, some, List, [], ◌∷◌, ltb,
  str_eq, bytes, Result, ok, err, plain, if◌then◌else◌,
}
use runner_loom.Base.Split.{codes, has_prefix}
use runner_loom.Config.Names.{at_most, between}
use runner_loom.Config.Validate.Check.{Platform}
use runner_loom.Instance.{Instance, State}
use runner_loom.Task.{Task, TaskResult}

pub data TaskState : Type 0 where
  queued starting running stopping collecting : TaskState
  succeeded failed cancelled expired finished : TaskState

-- `Terminal`.
unfoldable pub terminal : TaskState → Bool
terminal succeeded = true
terminal failed = true
terminal cancelled = true
terminal expired = true
terminal finished = true
terminal _ = false

-- Two minutes.
abbrev pub collecting_grace : ℕ
collecting_grace = 120000000000

-- The VM is gone or going: only then does a result count.
unfoldable pub vm_over : Option Instance → Bool
vm_over none = true
vm_over (some a) = over a.state
  where
    over : State → Bool
    over State.deleting = true
    over State.deleted = true
    over _ = false

unfoldable pub state_of_result : Task → TaskResult → TaskState
state_of_result t r =
    if str_eq r.status "succeeded" then succeeded else if t.cancelled then cancelled else failed

unfoldable pub state_without_vm : Task → TaskState
state_without_vm t =
    if t.cancelled then cancelled else if str_eq t.instance_id "" then queued else finished

unfoldable pub state_with_vm : Task → Instance → ℕ → TaskState
state_with_vm t a now = in_state a.state
  where
    live : TaskState → TaskState
    live s = if t.cancelled || not (ltb now a.deadline) then stopping else s

    gone : TaskState
    gone =
        if t.cancelled
        then cancelled
        else if ltb collecting_grace (now - a.updated)
        then finished
        else collecting

    in_state : State → TaskState
    in_state State.reserved = live starting
    in_state State.provisioning = live starting
    in_state State.idle = live running
    in_state State.busy = live running
    in_state State.stopping = stopping
    in_state State.finishing = collecting
    in_state State.deleting = collecting
    in_state State.deleted = gone

unfoldable pub state_by_vm : Task → Option Instance → ℕ → TaskState
unfolding state_without_vm state_with_vm
state_by_vm t none now = state_without_vm t
state_by_vm t (some a) now = state_with_vm t a now

unfoldable pub state_by_result : Task → Option Instance → Option TaskResult → ℕ → TaskState
unfolding vm_over state_of_result state_by_vm
state_by_result t a none now = state_by_vm t a now
state_by_result t a (some r) now = if vm_over a then state_of_result t r else state_by_vm t a now

unfoldable pub derive_task_state : Task → Option Instance → Option TaskResult → ℕ → TaskState
unfolding state_by_result
derive_task_state t a r now = if t.expired then expired else state_by_result t a r now

-- `strings.Trim(s, "/")`, `strings.TrimSuffix(s, ".git")` and `strings.Split(s, "/")` on characters.
trim_front : List Char → List Char
trim_front [] = []
trim_front (c ∷ cs) = let rest = trim_front cs in if code c == b'/' then rest else c ∷ cs

keep_char : Char → List Char → List Char
keep_char c [] = if code c == b'/' then [] else c ∷ []
keep_char c (d ∷ ds) = c ∷ d ∷ ds

trim_back : List Char → List Char
unfolding keep_char
trim_back [] = []
trim_back (c ∷ cs) = keep_char c (trim_back cs)

chars : String → List Char
chars String.[] = []
chars (String.◌∷◌ c s) = c ∷ chars s

text : List Char → String
text [] = String.[]
text (c ∷ cs) = String.◌∷◌ c (text cs)

trim_git : List Char → List Char
unfolding text
trim_git [] = []
trim_git (c ∷ cs) = let rest = trim_git cs in if str_eq (text (c ∷ cs)) ".git" then [] else c ∷ rest

grow : Char → List (List Char) → List (List Char)
grow c [] = (c ∷ []) ∷ []
grow c (part ∷ parts) = (c ∷ part) ∷ parts

split_slash : List Char → List (List Char)
unfolding grow
split_slash [] = [] ∷ []
split_slash (c ∷ cs) =
    let rest = split_slash cs in if code c == b'/' then [] ∷ rest else grow c rest

two_parts : List (List Char) → Option String
unfolding text
two_parts ((a ∷ owner) ∷ (b ∷ name) ∷ []) =
    some (str_append (text (a ∷ owner)) (str_append "/" (text (b ∷ name))))
two_parts _ = none

-- `RepositoryPath`.
unfoldable pub repository_path : Platform → String → Option String
unfolding trim_front trim_back trim_git chars split_slash two_parts
repository_path e raw = elim (e.parse_url raw) [
  | none ↦ none
  | some u ↦
      if e.equal_fold (codes u.host) (codes "github.com")
      then two_parts (split_slash (trim_git (trim_back (trim_front (chars u.path)))))
      else none
]

-- `s[len(p):]`, which panics where the text is shorter.
slice_after : List ℕ → List ℕ → Option (List ℕ)
slice_after [] cs = some cs
slice_after (p ∷ ps) [] = none
slice_after (p ∷ ps) (c ∷ cs) = slice_after ps cs

-- `^[1-9][0-9]{0,9}$`
pull_number : List ℕ → Bool
pull_number [] = false
pull_number (c ∷ cs) = between b'1' b'9' c && at_most 9 (between b'0' b'9') cs

-- Whether a pull request's URL is kept. A text that is shorter than the prefix is a panic.
unfoldable pub keeps_url : Platform → Option String → String → Result Bool
unfolding has_prefix slice_after pull_number
keeps_url e none url = ok false
keeps_url e (some repository) url =
    let prefix =
      bytes (str_append "https://github.com/" (str_append (e.to_lower repository) "/pull/")) in
    if has_prefix prefix (bytes (e.to_lower url))
    then elim (slice_after prefix (bytes url)) [
      | none ↦ err (plain "slice bounds out of range")
      | some rest ↦ ok (pull_number rest)
    ]
    else ok false

unfoldable pub bind_result : Platform → Task → TaskResult → Result TaskResult
unfolding repository_path keeps_url
bind_result e t r =
    if str_eq r.pull_request_url ""
    then ok (record r { branch = t.branch })
    else elim (keeps_url e (repository_path e t.repository) r.pull_request_url) [
      | err f ↦ err f
      | ok true ↦ ok (record r { branch = t.branch })
      | ok false ↦ ok (record r { branch = t.branch; pull_request_url = "" })
    ]
