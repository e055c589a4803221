-- ===== src/Task/Title.antt =====
-- internal/core/task.go: `TaskTitle`, on texts of code points.
use Prim.Native.Char.{Char, code}
use runner_loom.Base.{
  ℕ, zero, suc, ◌==◌, Bool, ◌||◌, String, List, [], ◌∷◌, ◌++◌, length, ltb, if◌then◌else◌,
}
use runner_loom.Config.Names.{between}
use runner_loom.Task.Spec.Patterns.{is_space}

chars : String → List Char
chars String.[] = []
chars (String.◌∷◌ c s) = c ∷ chars s

text : List Char → String
text [] = String.[]
text (c ∷ cs) = String.◌∷◌ c (text cs)

-- `strings.TrimSpace`.
trim_front : List Char → List Char
unfolding is_space
trim_front [] = []
trim_front (c ∷ cs) = let rest = trim_front cs in if is_space (code c) then rest else c ∷ cs

keep_char : Char → List Char → List Char
unfolding is_space
keep_char c [] = if is_space (code c) then [] else c ∷ []
keep_char c (d ∷ ds) = c ∷ d ∷ ds

trim_back : List Char → List Char
unfolding keep_char
trim_back [] = []
trim_back (c ∷ cs) = keep_char c (trim_back cs)

unfoldable pub trim_space : List Char → List Char
unfolding trim_front trim_back
trim_space cs = trim_back (trim_front cs)

grow : Char → List (List Char) → List (List Char)
grow c [] = (c ∷ []) ∷ []
grow c (part ∷ parts) = (c ∷ part) ∷ parts

-- `strings.Split(s, "\n")`.
split_lines : List Char → List (List Char)
unfolding grow
split_lines [] = [] ∷ []
split_lines (c ∷ cs) = let rest = split_lines cs in if code c == 10 then [] ∷ rest else grow c rest

-- The first line that is not blank, trimmed.
first_line : List (List Char) → List Char
unfolding trim_space
first_line [] = []
first_line (l ∷ ls) = pick (trim_space l) (first_line ls)
  where
    pick : List Char → List Char → List Char
    pick [] rest = rest
    pick (c ∷ cs) rest = c ∷ cs

-- `unicode.IsControl`.
unfoldable pub is_control : ℕ → Bool
is_control c = between 0 31 c || between 127 159 c

abbrev blank : Char
blank = " "

blank_controls : List Char → List Char
unfolding is_control
blank_controls [] = []
blank_controls (c ∷ cs) = (if is_control (code c) then blank else c) ∷ blank_controls cs

take : ℕ → List Char → List Char
take zero cs = []
take (suc n) [] = []
take (suc n) (c ∷ cs) = c ∷ take n cs

unfoldable pub cut : List Char → List Char
unfolding take chars
cut cs = if ltb 120 (length cs) then take 117 cs ++ chars "..." else cs

unfoldable pub title_chars : String → List Char
unfolding chars split_lines first_line blank_controls cut
title_chars prompt = cut (blank_controls (first_line (split_lines (chars prompt))))

-- `TaskTitle`.
unfoldable pub task_title : String → String
unfolding title_chars text
task_title prompt = text (title_chars prompt)
