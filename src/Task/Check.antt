-- ===== src/Task/Check.antt =====
-- internal/core/task.go: `ValidGitRef` and `TaskResult.Validate`.
use runner_loom.Base.{
  ℕ, ◌==◌, Bool, false, not, ◌&&◌, ◌||◌, String, Option, none, some, List, [], ◌∷◌, ltb, str_eq,
  bytes, len,
}
use runner_loom.Base.Split.{has_prefix}
use runner_loom.Config.Names.{at_most, between}
use runner_loom.Config.Validate.Check.{Platform, Url}
use runner_loom.Task.{TaskResult}

-- `strings.Contains`, for a part that is not empty.
contains_text : List ℕ → List ℕ → Bool
unfolding has_prefix
contains_text p [] = false
contains_text p (c ∷ cs) = has_prefix p (c ∷ cs) || contains_text p cs

has_suffix : List ℕ → List ℕ → Bool
unfolding has_prefix
has_suffix p [] = false
has_suffix p (c ∷ cs) = (has_prefix p (c ∷ cs) && has_prefix (c ∷ cs) p) || has_suffix p cs

unfoldable pub alphanumeric : ℕ → Bool
alphanumeric c = between b'A' b'Z' c || between b'a' b'z' c || between b'0' b'9' c

unfoldable pub ref_char : ℕ → Bool
unfolding alphanumeric
ref_char c = alphanumeric c || c == b'.' || c == b'_' || c == b'/' || c == b'-'

-- `^[A-Za-z0-9][A-Za-z0-9._/-]{0,199}$`
unfoldable pub ref_pattern : List ℕ → Bool
unfolding alphanumeric ref_char
ref_pattern [] = false
ref_pattern (c ∷ cs) = alphanumeric c && at_most 199 ref_char cs

unfoldable pub valid_git_ref : String → Bool
unfolding ref_pattern contains_text has_suffix
valid_git_ref s =
    ref_pattern (bytes s)
    && not (contains_text (bytes "..") (bytes s))
    && not (contains_text (bytes "//") (bytes s))
    && not (contains_text (bytes "/.") (bytes s))
    && not (has_suffix (bytes "/") (bytes s))
    && not (has_suffix (bytes ".") (bytes s))
    && not (has_suffix (bytes ".lock") (bytes s))

unfoldable pub hex : ℕ → Bool
hex c = between b'a' b'f' c || between b'0' b'9' c

unfoldable pub known_status : String → Bool
known_status s = str_eq s "succeeded" || str_eq s "failed" || str_eq s "no-result"

unfoldable pub safe_url : Option Url → Bool
safe_url none = false
safe_url (some u) = str_eq u.scheme "https" && not (str_eq u.host "") && not u.has_user

-- `TaskResult.Validate`: whether it returns nil.
unfoldable pub result_valid : Platform → TaskResult → Bool
unfolding valid_git_ref hex known_status safe_url
result_valid e r =
    known_status r.status
    && not (ltb 4096 (len r.error))
    && not (ltb 65536 (len r.output))
    && not (ltb 16384 (len r.diff_stat))
    && not (ltb 393216 (len r.patch))
    && (str_eq r.branch "" || valid_git_ref r.branch)
    && at_most 64 hex (bytes r.commit)
    && not (ltb 512 (len r.pull_request_url))
    && (str_eq r.pull_request_url "" || safe_url (e.parse_url r.pull_request_url))
