-- ===== src/Capabilities/Files.antt =====
-- Which files of its data directory an App may use: `_path_matches` and `authorize_file` of
-- backend/capabilities/policy.py. `PurePosixPath.match` is an argument.
use ambient_agent.Prelude.{
  ℕ, ◌-◌, String, ◌≡◌, ◌⊎◌, Bool, true, false, ◌&&◌, ◌||◌, not, Option, none, some, List, [], ◌∷◌,
  ◌++◌, length, take, any, leb, ◌==◌, ◌=ₛ◌, if◌then◌else◌,
}
use mathlib.Core.List.{reverse}
use ambient_agent.Prelude.Texts.{Text, codes, same_text}
use ambient_agent.Capabilities.Grants.{
  Grant, Manifest, Verdict, denied, capability_scope_denied, demand, grant_of, paths_of,
  max_bytes_of, Backed, ◌>>=◌, ◌>>◌,
}

-- `text.startswith(prefix)`
unfoldable pub starts_with : Text → Text → Bool
starts_with [] t = true
starts_with (c ∷ cs) [] = false
starts_with (c ∷ cs) (d ∷ ds) = c == d && starts_with cs ds

-- `text.endswith(suffix)`
unfoldable pub ends_with : Text → Text → Bool
unfolding starts_with
ends_with suffix t = starts_with (reverse suffix) (reverse t)

unfoldable pub without_slashes : Text → Text
without_slashes [] = []
without_slashes (c ∷ cs) = let rest = without_slashes cs in if c == 47 then rest else c ∷ cs

-- `pattern[:-3].rstrip("/")`
unfoldable pub prefix_of : Text → Text
unfolding without_slashes
prefix_of pattern = reverse (without_slashes (reverse (take (length pattern - 3) pattern)))

abbrev pub category_of : String → Option String
category_of operation =
    if operation =ₛ "read"
    then some "file.read"
    else if operation =ₛ "list"
    then some "file.read"
    else if operation =ₛ "write"
    then some "file.write"
    else if operation =ₛ "delete"
    then some "file.delete"
    else none

-- `size is None or size > max_bytes`, negated.
abbrev pub size_fits : Option ℕ → ℕ → Bool
size_fits none max_bytes = false
size_fits (some n) max_bytes = leb n max_bytes

module _ (posix_match : Text → Text → Bool) where
  -- `_path_matches`
  unfoldable pub path_matches : Text → Text → Bool
  unfolding ends_with prefix_of same_text starts_with
  path_matches pattern path =
      if ends_with (codes "/**") pattern
      then same_text path (prefix_of pattern) || starts_with (prefix_of pattern ++ codes "/") path
      else posix_match (codes "/" ++ path) (codes "/" ++ pattern)

  -- The rest of `authorize_file`, from the category of the operation.
  unfoldable pub authorize_file_in :
      Option String
      → Option Manifest
      → String
      → Text
      → Option ℕ
      → Option String
      → Option String
      → Verdict (Unit {0})
  unfolding path_matches grant_of
  authorize_file_in none loaded operation path size revision digest = denied capability_scope_denied
  authorize_file_in (some category) loaded operation path size revision digest = do
    grant ← grant_of loaded category revision digest
    demand (any (λ pattern. path_matches pattern path) (paths_of grant)) capability_scope_denied
    demand (not (operation =ₛ "write") || size_fits size (max_bytes_of grant))
        capability_scope_denied

  -- `authorize_file`
  unfoldable pub authorize_file :
      Option Manifest
      → String
      → Text
      → Option ℕ
      → Option String
      → Option String
      → Verdict (Unit {0})
  unfolding authorize_file_in
  authorize_file loaded operation path size revision digest =
      authorize_file_in (category_of operation) loaded operation path size revision digest

abbrev pub IsOneOf : Text → List Text → Type 0
IsOneOf t [] = ⊥
IsOneOf t (s ∷ ss) = (t ≡ s) ⊎ IsOneOf t ss

-- A directory pattern covers the directory and what lies below it; any other pattern covers what it
-- matches from the root of the data directory.
abbrev pub Covers : (Text → Text → Bool) → Text → Text → Type 0
Covers posix_match pattern path =
    (path ≡ prefix_of pattern)
    ⊎ ((rest : Text) × (path ≡ (prefix_of pattern ++ codes "/") ++ rest))
    ⊎ (posix_match (codes "/" ++ path) (codes "/" ++ pattern) ≡ true)

-- What stands behind an authorized use of a file.
pub record FileScope (posix_match : Text → Text → Bool) (loaded : Option Manifest)
    (operation : String) (path : Text) (size : Option ℕ) (revision digest : Option String)
    : Type 0 where
  pub category : String
  pub grant : Grant
  pub pattern : Text
  pub of_operation : category_of operation ≡ some category
  pub backed : Backed loaded category revision digest grant
  pub is_own : IsOneOf pattern (paths_of grant)
  pub covers : Covers posix_match pattern path
  pub fits : (not (operation =ₛ "write") || size_fits size (max_bytes_of grant)) ≡ true
