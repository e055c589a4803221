-- ===== src/Tests/Validation.antt =====
-- The example cluster through `Config.Validate`, and the ledger's bound on it.
use runner_loom.Base.{ℕ, Bool, true, false, ◌==◌, ◌&&◌, List, str_eq, some, [], ◌∷◌, ◌≡◌, refl, ok}
use runner_loom.Base.Int64
use runner_loom.Base.Split.{split, trim_right, trim_left, contains_any}
use runner_loom.Resources
use runner_loom.Config.{
  charge, find_pool, find_image, find_node, uses_github, eligible, image_or_zero,
}
use runner_loom.Config.Names.{valid_name, valid_digest}
use runner_loom.Config.Validate.{validate, problems}
use runner_loom.Config.Validate.Check.{Platform}
use runner_loom.Config.Validate.GitHubBlock.{github_block}
use runner_loom.Config.Validate.Entries.{images_loop, nodes_loop, allowed_loop}
use runner_loom.Config.Validate.Pools.{pools_loop}
use runner_loom.Config.Validate.Reserved.{reservations_loop, totals, node_totals, pool_totals}
use runner_loom.Ledger.{IsSound}
use runner_loom.Safety.Sound.{validate-IsSound}
use runner_loom.Tests.Fixtures.{home}

abbrev same_codes : List ℕ → List ℕ → Bool
same_codes [] [] = true
same_codes [] (b ∷ bs) = false
same_codes (a ∷ qs) [] = false
same_codes (a ∷ qs) (b ∷ bs) = a == b && same_codes qs bs

-- The libraries at the texts of the example.
abbrev pub platform : Platform
platform = record {
  parse_url = λ s. some (record {
    scheme = "https";
    host = "github.com";
    has_user = false;
    path = "/example-org";
    raw_query = "";
    fragment = "";
  });
  is_clean_absolute = λ s. str_eq s home.github.credential_file;
  equal_fold = same_codes;
  to_lower = λ s. s;
}

home_valid : validate platform home ≡ ok tt
unfolding validate problems valid_name uses_github github_block valid_digest charge find_pool
    find_image find_node images_loop nodes_loop allowed_loop pools_loop reservations_loop totals
    node_totals pool_totals Resources.fits Resources.mul Resources.add Resources.valid eligible
    split trim_right trim_left contains_any image_or_zero Int64.add Int64.mul
home_valid = refl

validate-IsSound_example : IsSound home
validate-IsSound_example = validate-IsSound platform home home_valid
