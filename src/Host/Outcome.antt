-- ===== src/Host/Outcome.antt =====
-- internal/host/task.go: `boundResult`, which brings a guest's result within the Controller's limits,
-- and the size of the JSON text that the Agent would send.
use Prim.Native.Char.{code}
use runner_loom.Base.{
  ℕ, zero, suc, ◌+◌, ◌/◌, ◌==◌, Bool, true, false, not, ◌||◌, String, Option, none, some, ltb, leb,
  length, str_eq, encode, len, if◌then◌else◌,
}
use runner_loom.Base.Int64.{ℤ, pos, negsuc}
use runner_loom.Config.Validate.Check.{Platform}
use runner_loom.Task.{TaskResult}
use runner_loom.Task.Check.{valid_git_ref, result_valid}

-- `tailString`: the longest end of a text of at most n bytes. What a cut leaves of a code point is
-- taken off by `strings.ToValidUTF8`.
unfoldable pub tail_string : String → ℕ → String
tail_string String.[] n = String.[]
tail_string (String.◌∷◌ c s) n =
    let rest = tail_string s n in if leb (len (String.◌∷◌ c s)) n then String.◌∷◌ c s else rest

-- What encoding/json writes for a code point: `\"`, `\\` and the five short escapes, `\u00XX` for
-- other controls and for <, > and &, `\u2028` and `\u2029`, and else its bytes.
unfoldable pub json_char : ℕ → ℕ
json_char c =
    if c == 34 || c == 92 || c == 8 || c == 9 || c == 10 || c == 12 || c == 13
    then 2
    else if ltb c 32 || c == 60 || c == 62 || c == 38 || c == 8232 || c == 8233
    then 6
    else length (encode c)

unfoldable pub json_chars : String → ℕ
unfolding json_char
json_chars String.[] = 0
json_chars (String.◌∷◌ c s) = json_char (code c) + json_chars s

unfoldable pub json_string : String → ℕ
unfolding json_chars
json_string s = 2 + json_chars s

-- `,"key":` and the text, unless it is empty (`omitempty`).
unfoldable pub json_field : ℕ → String → ℕ
unfolding json_string
json_field key s = if str_eq s "" then 0 else (4 + key) + json_string s

-- The digits of a number below 10^20.
unfoldable pub digits : ℕ → ℕ → ℕ
digits zero n = 1
digits (suc left) n = let rest = digits left (n / 10) in if ltb n 10 then 1 else 1 + rest

unfoldable pub json_int : ℤ → ℕ
unfolding digits
json_int (pos n) = digits 19 n
json_int (negsuc n) = 1 + digits 19 (suc n)

unfoldable pub json_bool : Bool → ℕ
json_bool true = 4
json_bool false = 5

unfoldable pub truncated_mark : Bool → ℕ
truncated_mark true = 17
truncated_mark false = 0

-- The JSON text of `TaskReport{Instance: strings.Repeat("0", 32), Result: &r}`: the numbers are the
-- lengths of its keys and marks.
unfoldable pub report_size : TaskResult → ℕ
unfolding json_string json_field json_int json_bool truncated_mark
report_size r =
    (12 + 34 + 10)
    + (10 + json_string r.status)
    + (12 + json_int r.exit_code)
    + json_field 5 r.error
    + json_field 6 r.output
    + json_field 6 r.branch
    + json_field 6 r.commit
    + (11 + json_bool r.changed)
    + (10 + json_bool r.pushed)
    + json_field 14 r.pull_request_url
    + json_field 8 r.diff_stat
    + json_field 5 r.patch
    + truncated_mark r.truncated
    + 2

-- Bytes: `MaxTaskOutput`, `MaxTaskPatch` and `MaxTaskReport`.
abbrev pub max_output : ℕ
max_output = 65536

abbrev pub max_patch : ℕ
max_patch = 393216

abbrev pub max_report : ℕ
max_report = 921600

unfoldable pub final_status : String → String
final_status s = if str_eq s "succeeded" || str_eq s "failed" then s else "failed"

unfoldable pub small_patch : String → String
small_patch s = if ltb max_patch (len s) then "" else s

unfoldable pub safe_branch : String → String
safe_branch s = if str_eq s "" || valid_git_ref s then s else ""

-- The first part of `boundResult`: each field within its own limit.
unfoldable pub bound_fields : TaskResult → TaskResult
unfolding tail_string final_status small_patch safe_branch
bound_fields r = record r {
  status = final_status r.status;
  error = tail_string r.error 4096;
  output = tail_string r.output max_output;
  diff_stat = tail_string r.diff_stat 16384;
  patch = small_patch r.patch;
  branch = safe_branch r.branch;
  truncated = r.truncated || ltb max_output (len r.output) || ltb max_patch (len r.patch);
}

unfoldable pub drop_links : Platform → TaskResult → TaskResult
drop_links e r = if result_valid e r then r else record r { commit = ""; pull_request_url = "" }

-- One round of the loop: the patch goes first, then half of the output.
unfoldable pub smaller : TaskResult → TaskResult
unfolding tail_string
smaller r =
    if not (str_eq r.patch "")
    then record r { patch = ""; truncated = true }
    else record r { output = tail_string r.output (len r.output / 2); truncated = true }

-- The loop of `boundResult`, at most n rounds; none when they do not suffice.
unfoldable pub shrink : ℕ → TaskResult → Option TaskResult
unfolding report_size smaller
shrink zero r = none
shrink (suc n) r =
    let rest = shrink n (smaller r) in if leb (report_size r) max_report then some r else rest

-- `boundResult`.
unfoldable pub bound_result : ℕ → Platform → TaskResult → Option TaskResult
unfolding bound_fields drop_links shrink
bound_result n e r = shrink n (drop_links e (bound_fields r))
