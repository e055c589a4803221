-- ===== src/Tests/Host.antt =====
-- A guest's result through the limits.
use runner_loom.Base.{ℕ, suc, true, false, some, ◌≡◌, ◌≤◌, refl}
use runner_loom.Base.Int64.{pos}
use runner_loom.Task.{TaskResult}
use runner_loom.Task.Check.{result_valid}
use runner_loom.Host.Outcome.{
  tail_string, bound_result, report_size, max_output, max_report, json_string, final_status,
}
use runner_loom.Host.Bounded.{bound_result_ends}
use runner_loom.Tests.Validation.{platform}

abbrev odd : TaskResult
odd = record {
  status = "no-result";
  exit_code = pos 7;
  error = "";
  output = "ready";
  branch = "a..b";
  commit = "not hexadecimal";
  changed = true;
  pushed = false;
  pull_request_url = "";
  diff_stat = "";
  patch = "";
  truncated = false;
}

-- `é` has two bytes: half of it is no code point.
tail_string_test : tail_string "caféine" 4 ≡ "ine"
unfolding tail_string
tail_string_test = refl

-- `"<a>\n"` within quotes.
json_string_test : json_string "<a>\n" ≡ 17
unfolding json_string
json_string_test = refl

final_status_test : final_status "no-result" ≡ "failed"
unfolding final_status
final_status_test = refl

bound_result_ends_example :
    (out : TaskResult) × ((n : ℕ) → bound_result (suc (suc n)) platform odd ≡ some out)
    × (result_valid platform out ≡ true)
    × (report_size out ≤ max_report)
    × (out.output ≡ tail_string odd.output max_output)
bound_result_ends_example = bound_result_ends platform odd
