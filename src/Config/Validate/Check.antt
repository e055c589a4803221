-- ===== src/Config/Validate/Check.antt =====
-- The accumulator of `Config.Validate`, and what the checks take from Go's libraries.
use Prim.Native.String.{◌++◌ as str_append}
use runner_loom.Base.{Bool, String, Option, List, [], ◌∷◌, ℕ, if◌then◌else◌}

-- The keys of the failed checks. The source keeps them in a map, and reads only whether it is empty.
abbrev pub Bad : Type 0
Bad = List String

abbrev pub check : Bool → String → Bad
check good key = if good then [] else key ∷ []

infixl 65 ◌&◌
abbrev pub ◌&◌ : String → String → String
a & b = str_append a b

-- What `url.Parse` gives.
pub record Url : Type 0 where
  pub scheme : String
  pub host : String
  pub has_user : Bool
  pub path : String
  pub raw_query : String
  pub fragment : String

-- `url.Parse`; `filepath.IsAbs(p) && filepath.Clean(p) == p`; `strings.EqualFold`,
-- `strings.ToLower`.
pub record Platform : Type 0 where
  pub parse_url : String → Option Url
  pub is_clean_absolute : String → Bool
  pub equal_fold : List ℕ → List ℕ → Bool
  pub to_lower : String → String
