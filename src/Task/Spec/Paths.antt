-- ===== src/Task/Spec/Paths.antt =====
-- internal/core/task.go: `ValidHomePath`.
use runner_loom.Base.{
  ℕ, Bool, false, not, ◌&&◌, ◌||◌, String, List, [], ◌∷◌, ltb, str_eq, len, is_empty, if◌then◌else◌,
}
use runner_loom.Base.Split.{codes, split, join, contains_any, has_prefix}

-- `path.Clean` of a relative path: the parts that are kept, the last one first.
clean_part : List ℕ → List (List ℕ) → List (List ℕ)
clean_part part kept =
    if is_empty part || part_eq part "."
    then kept
    else if part_eq part ".."
    then up kept
    else part ∷ kept
  where
    part_eq : List ℕ → String → Bool
    part_eq p s = has_prefix p (codes s) && has_prefix (codes s) p

    up : List (List ℕ) → List (List ℕ)
    up [] = codes ".." ∷ []
    up (p ∷ ps) = if part_eq p ".." then codes ".." ∷ p ∷ ps else ps

clean_parts : List (List ℕ) → List (List ℕ) → List (List ℕ)
unfolding clean_part
clean_parts [] kept = kept
clean_parts (p ∷ ps) kept = clean_parts ps (clean_part p kept)

abbrev reverse_onto : List (List ℕ) → List (List ℕ) → List (List ℕ)
reverse_onto [] ys = ys
reverse_onto (x ∷ xs) ys = reverse_onto xs (x ∷ ys)

cleaned : List (List ℕ) → List ℕ
unfolding join
cleaned [] = codes "."
cleaned (p ∷ ps) = join b'/' (reverse_onto (p ∷ ps) [])

unfoldable pub codes_eq : List ℕ → List ℕ → Bool
unfolding has_prefix
codes_eq p q = has_prefix p q && has_prefix q p

-- A part of a path that `ValidHomePath` refuses.
bad_part : List ℕ → Bool
unfolding codes_eq
bad_part p = is_empty p || codes_eq p (codes ".") || codes_eq p (codes "..")

any_bad_part : List (List ℕ) → Bool
unfolding bad_part
any_bad_part [] = false
any_bad_part (p ∷ ps) = bad_part p || any_bad_part ps

reserved_first : List (List ℕ) → Bool
unfolding codes_eq
reserved_first [] = false
reserved_first (p ∷ ps) = codes_eq p (codes "work") || codes_eq p (codes ".runnerloom")

-- `ValidHomePath`.
unfoldable pub valid_home_path : String → Bool
unfolding split contains_any has_prefix codes_eq clean_parts cleaned any_bad_part reserved_first
valid_home_path p =
    not (
      str_eq p ""
      || ltb 256 (len p)
      || contains_any (codes p) (0 ∷ codes "\\\r\n")
      || has_prefix (codes "/") (codes p)
      || not (codes_eq (cleaned (clean_parts (split b'/' (codes p)) [])) (codes p)))
    && not (any_bad_part (split b'/' (codes p)))
    && not (reserved_first (split b'/' (codes p)))
