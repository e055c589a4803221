-- ===== src/Task/Spec/Patterns.antt =====
-- internal/core/task.go: the patterns of a submitted task's texts.
use runner_loom.Base.{ℕ, ◌==◌, Bool, true, false, not, ◌&&◌, ◌||◌, String, List, [], ◌∷◌, ltb, len}
use runner_loom.Base.Split.{codes}
use runner_loom.Config.Names.{at_most, between}
use runner_loom.Task.Check.{alphanumeric}

request_char : ℕ → Bool
request_char c = alphanumeric c || c == b'.' || c == b'_' || c == b':' || c == b'-'

-- `^[A-Za-z0-9][A-Za-z0-9._:-]{0,127}$`
unfoldable pub request_pattern : List ℕ → Bool
unfolding alphanumeric request_char
request_pattern [] = false
request_pattern (c ∷ cs) = alphanumeric c && at_most 127 request_char cs

binary_char : ℕ → Bool
binary_char c = alphanumeric c || c == b'.' || c == b'_' || c == b'+' || c == b'-'

-- `^[A-Za-z0-9][A-Za-z0-9._+-]{0,63}$`
unfoldable pub binary_pattern : List ℕ → Bool
unfolding alphanumeric binary_char
binary_pattern [] = false
binary_pattern (c ∷ cs) = alphanumeric c && at_most 63 binary_char cs

env_first : ℕ → Bool
env_first c = between b'A' b'Z' c || between b'a' b'z' c || c == b'_'

env_char : ℕ → Bool
env_char c = alphanumeric c || c == b'_'

-- `^[A-Za-z_][A-Za-z0-9_]{0,63}$`
unfoldable pub env_pattern : List ℕ → Bool
unfolding env_first env_char
env_pattern [] = false
env_pattern (c ∷ cs) = env_first c && at_most 63 env_char cs

-- `unicode.IsSpace`.
unfoldable pub is_space : ℕ → Bool
is_space c =
    between 9 13 c
    || c == 32
    || c == 133
    || c == 160
    || c == 5760
    || between 8192 8202 c
    || c == 8232
    || c == 8233
    || c == 8239
    || c == 8287
    || c == 12288

-- `strings.TrimSpace(s) == ""`.
unfoldable pub is_blank : List ℕ → Bool
is_blank [] = true
is_blank (c ∷ cs) = is_space c && is_blank cs

unfoldable pub has_nul : List ℕ → Bool
has_nul [] = false
has_nul (c ∷ cs) = c == 0 || has_nul cs

-- `len(s) <= n && utf8.ValidString(s) && !strings.ContainsRune(s, 0)`.
unfoldable pub is_text : ℕ → String → Bool
unfolding has_nul
is_text n s = not (ltb n (len s)) && not (has_nul (codes s))
