-- ===== src/Config/Names.antt =====
-- internal/core/model.go: the name, ID and digest patterns, and membership in a list of names.
use Prim.Native.Char.{code}
use Prim.Native.String.{String}
use runner_loom.Base.{
  ℕ, zero, suc, Bool, true, false, ◌&&◌, ◌||◌, List, [], ◌∷◌, ◌==◌, leb, length, ◌≡◌, refl, Option,
  none, some, if◌then◌else◌, str_eq, eq_iff, Bool-cases, subst, inl, inr,
}

abbrev pub codes : String → List ℕ
codes String.[] = []
codes (String.◌∷◌ c s) = code c ∷ codes s

abbrev pub between : ℕ → ℕ → ℕ → Bool
between lo hi c = leb lo c && leb c hi

lower : ℕ → Bool
lower = between b'a' b'z'

digit : ℕ → Bool
digit = between b'0' b'9'

name_char : ℕ → Bool
unfolding lower digit
name_char c = lower c || digit c || c == b'-'

hex : ℕ → Bool
unfolding digit
hex c = between b'a' b'f' c || digit c

all_hex : List ℕ → Bool
unfolding hex
all_hex [] = true
all_hex (c ∷ cs) = hex c && all_hex cs

-- A character class repeated at most n times, to the end of the text.
unfoldable pub at_most : ℕ → (ℕ → Bool) → List ℕ → Bool
at_most n p [] = true
at_most zero p (c ∷ cs) = false
at_most (suc n) p (c ∷ cs) = p c && at_most n p cs

matches_name : List ℕ → Bool
unfolding lower name_char at_most
matches_name [] = false
matches_name (c ∷ cs) = lower c && at_most 62 name_char cs

-- `^[a-z][a-z0-9-]{0,62}$`
unfoldable pub valid_name : String → Bool
unfolding matches_name
valid_name s = matches_name (codes s)

-- `^[a-f0-9]{32}$`
unfoldable pub valid_id : String → Bool
unfolding all_hex
valid_id s = length (codes s) == 32 && all_hex (codes s)

drop_prefix : List ℕ → List ℕ → Option (List ℕ)
drop_prefix [] cs = some cs
drop_prefix (p ∷ ps) [] = none
drop_prefix (p ∷ ps) (c ∷ cs) = if p == c then drop_prefix ps cs else none

-- `^sha256:[a-f0-9]{64}$`
unfoldable pub valid_digest : String → Bool
unfolding all_hex drop_prefix
valid_digest s = elim (drop_prefix (codes "sha256:") (codes s)) [
  | none ↦ false
  | some cs ↦ length cs == 64 && all_hex cs
]

name_test : valid_name "linux-lite" ≡ true
unfolding valid_name
name_test = refl

name_test_upper : valid_name "Linux" ≡ false
unfolding valid_name
name_test_upper = refl

-- A valid name is not the empty text.
pub valid_name-ne_empty : (s : String) → valid_name s ≡ true → str_eq s "" ≡ false
unfolding valid_name
valid_name-ne_empty s h = elim (Bool-cases (str_eq s "")) [
  | inl e ↦ cc (subst (λ t. valid_name t ≡ true) ((eq_iff s "").0 e) h)
  | inr e ↦ e
]
