-- ===== src/Config/Validate/GitHubBlock.antt =====
-- internal/core/model.go: the checks of the `github` block in `Config.Validate`.
use runner_loom.Base.{
  Bool, true, false, not, ◌&&◌, String, Option, none, some, List, [], ◌∷◌, ◌++◌, ℕ, str_eq, ltb,
  length, contains, is_empty,
}
use runner_loom.Base.Split.{codes, split, trim_left, trim_right, join, contains_any}
use runner_loom.Base.Int64.{pos, lt_ℤ}
use runner_loom.Config.{GitHub}
use runner_loom.Config.Validate.Check.{Platform, Url, Bad, check, ◌&◌}

-- `strings.Split(strings.Trim(u.Path, "/"), "/")`, or no part where the URL does not parse.
parts_of : Option Url → List (List ℕ)
parts_of none = []
parts_of (some u) = split b'/' (trim_right b'/' (trim_left b'/' (codes u.path)))

first_nonempty : List (List ℕ) → Bool
first_nonempty [] = false
first_nonempty (part ∷ parts) = not (is_empty part)

good_url : Option Url → List (List ℕ) → Bool
unfolding first_nonempty
good_url none parts = false
good_url (some u) parts =
    str_eq u.scheme "https"
    && str_eq u.host "github.com"
    && not u.has_user
    && str_eq u.raw_query ""
    && str_eq u.fragment ""
    && ltb 0 (length parts)
    && ltb (length parts) 3
    && first_nonempty parts

module _ (e : Platform) where
  owner_matches : List (List ℕ) → List ℕ → Bool
  owner_matches [] owner = false
  owner_matches (part ∷ parts) owner = e.equal_fold owner part

  -- `rp` must be owner/name, of the owner that the URL names.
  well_split : List (List ℕ) → List (List ℕ) → Bool
  unfolding owner_matches
  well_split (owner ∷ name ∷ []) parts =
      not (is_empty owner) && not (is_empty name) && owner_matches parts owner
  well_split _ parts = false

  -- With a repository URL the only repository is the URL's.
  is_the_one : String → List (List ℕ) → Bool
  is_the_one r (owner ∷ name ∷ []) = e.equal_fold (codes r) (join b'/' (owner ∷ name ∷ []))
  is_the_one r _ = true

  good_repository : String → List (List ℕ) → Bool
  unfolding well_split is_the_one
  good_repository r parts =
      well_split (split b'/' (codes r)) parts
      && not (contains_any (codes r) (b' ' ∷ 92 ∷ 9 ∷ 13 ∷ 10 ∷ []))
      && is_the_one r parts

  repositories_loop : List (List ℕ) → List String → List String → Bad
  unfolding good_repository
  repositories_loop parts seen [] = []
  repositories_loop parts seen (r ∷ rs) =
      check (good_repository r parts && not (contains seen (e.to_lower r)))
        ("github.allowedRepositories." & r)
      ++ repositories_loop parts (e.to_lower r ∷ seen) rs

  unfoldable pub github_block : GitHub → Bad
  unfolding parts_of good_url repositories_loop
  github_block g =
      let u = e.parse_url g.url in
      check (good_url u (parts_of u)) "github.url"
      ++ (check (lt_ℤ (pos 0) g.runner_group_id) "github.runnerGroupID"
          ++ (check (e.is_clean_absolute g.credential_file) "github.credentialFile"
              ++ (check (ltb 0 (length g.allowed_repositories)) "github.allowedRepositories"
                  ++ repositories_loop (parts_of u) [] g.allowed_repositories)))
