-- ===== src/Base/Split.antt =====
-- `strings.Split` and `strings.Trim` at one separator, over code points.
use Prim.Native.Char.{code}
use Prim.Native.Nat.{ℕ}
use Prim.Native.String.{String}
use mathlib.Core.Bool.{Bool, true, false, ◌&&◌, ◌||◌}
use mathlib.Core.List.{List, [], ◌∷◌, ◌++◌}
use runner_loom.Base.Tests.{◌==◌, if◌then◌else◌}

abbrev pub codes : String → List ℕ
codes String.[] = []
codes (String.◌∷◌ c s) = code c ∷ codes s

-- The head part grows until the next separator.
abbrev pub cons_head : ℕ → List (List ℕ) → List (List ℕ)
cons_head c [] = (c ∷ []) ∷ []
cons_head c (part ∷ parts) = (c ∷ part) ∷ parts

unfoldable pub split : ℕ → List ℕ → List (List ℕ)
split sep [] = [] ∷ []
split sep (c ∷ cs) = let rest = split sep cs in if c == sep then [] ∷ rest else cons_head c rest

unfoldable pub trim_left : ℕ → List ℕ → List ℕ
trim_left sep [] = []
trim_left sep (c ∷ cs) = let rest = trim_left sep cs in if c == sep then rest else c ∷ cs

abbrev drop_sep : ℕ → ℕ → List ℕ → List ℕ
drop_sep sep c [] = if c == sep then [] else c ∷ []
drop_sep sep c (d ∷ ds) = c ∷ d ∷ ds

unfoldable pub trim_right : ℕ → List ℕ → List ℕ
trim_right sep [] = []
trim_right sep (c ∷ cs) = drop_sep sep c (trim_right sep cs)

unfoldable pub join : ℕ → List (List ℕ) → List ℕ
join sep [] = []
join sep (part ∷ []) = part
join sep (part ∷ next ∷ parts) = part ++ sep ∷ join sep (next ∷ parts)

-- `strings.ContainsAny`.
unfoldable pub contains_any : List ℕ → List ℕ → Bool
contains_any [] chars = false
contains_any (c ∷ cs) chars = has chars c || contains_any cs chars
  where
    has : List ℕ → ℕ → Bool
    has [] c = false
    has (d ∷ ds) c = d == c || has ds c

-- `strings.HasPrefix(s, p)`, with the prefix first.
unfoldable pub has_prefix : List ℕ → List ℕ → Bool
has_prefix [] cs = true
has_prefix (p ∷ ps) [] = false
has_prefix (p ∷ ps) (c ∷ cs) = p == c && has_prefix ps cs
