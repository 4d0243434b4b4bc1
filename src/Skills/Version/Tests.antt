-- ===== src/Skills/Version/Tests.antt =====
-- The precedence example of the Semantic Versioning document.
use Prim.Native.Nat.Ordering.{lt, eq}
use mathlib.Core.Option
use ambient_agent.Prelude.{List, [], ◌∷◌, Option, none, some, ◌≡◌, ◌↔◌, refl}
use ambient_agent.Prelude.Texts.{Text, codes}
use ambient_agent.Skills.Version.{SemanticVersion, parse_semver, compare_semver}
use ambient_agent.Skills.Version.Order.{
  swap, precedence, compare_semver_total, compare_semver_transitive,
}

abbrev alpha : Text
alpha = codes "1.0.0-alpha.9+exp.sha"

abbrev beta : Text
beta = codes "1.0.0-alpha.10"

abbrev release : Text
release = codes "1.0.0"

abbrev version : Option (List Text) → Option (List Text) → SemanticVersion
version p b = record { major = 1; minor = 0; patch = 0; prerelease = p; build = b }

abbrev alpha_version : SemanticVersion
alpha_version =
    version (some (codes "alpha" ∷ codes "9" ∷ [])) (some (codes "exp" ∷ codes "sha" ∷ []))

abbrev beta_version : SemanticVersion
beta_version = version (some (codes "alpha" ∷ codes "10" ∷ [])) none

leading_zero : parse_semver (codes "1.0.0-01") ≡ none
unfolding parse_semver
leading_zero = refl

short_core : parse_semver (codes "1.0") ≡ none
unfolding parse_semver
short_core = refl

alpha_before_beta : compare_semver alpha beta ≡ some lt
unfolding compare_semver
alpha_before_beta = refl

compare_semver_total_example :
    ((compare_semver alpha beta ≡ some eq) ↔ (precedence alpha_version ≡ precedence beta_version))
    × (compare_semver alpha beta ≡ Option.map swap (compare_semver beta alpha))
unfolding parse_semver
compare_semver_total_example = compare_semver_total alpha beta alpha_version beta_version refl refl

compare_semver_transitive_example : compare_semver alpha release ≡ some lt
unfolding parse_semver compare_semver
compare_semver_transitive_example =
    compare_semver_transitive alpha beta release alpha_version beta_version (version none none) refl
      refl refl refl refl
