-- ===== src/Skills/Version.antt =====
-- Semantic versions, backend/skill_version.py. A text is the list of its code points, in ASCII.
pub mod Order
pub mod Numerals
mod Tests
use Prim.Native.Nat.{compare, Ordering, ◌*◌}
use mathlib.Core.List.{reverse}
use ambient_agent.Prelude.{
  ℕ, zero, suc, ◌+◌, ◌-◌, Bool, true, false, not, ◌&&◌, ◌||◌, Option, none, some, List, [], ◌∷◌,
  map, length, any, ltb, leb, ◌==◌, if◌then◌else◌,
}
use mathlib.Core.Option
use ambient_agent.Prelude.Texts.{Text, compare_text, same_text}

pub record SemanticVersion : Type 0 where
  pub major : ℕ
  pub minor : ℕ
  pub patch : ℕ
  pub prerelease : Option (List Text)
  pub build : Option (List Text)

-- \d
unfoldable pub is_digit : ℕ → Bool
is_digit c = leb 48 c && leb c 57

-- [0-9A-Za-z-]
unfoldable pub is_identifier_char : ℕ → Bool
unfolding is_digit
is_identifier_char c = is_digit c || (leb 65 c && leb c 90) || (leb 97 c && leb c 122) || c == 45

unfoldable pub all_of : (ℕ → Bool) → Text → Bool
all_of p [] = true
all_of p (c ∷ cs) = p c && all_of p cs

-- `identifier.isdigit()`: at least one character, and digits only.
unfoldable pub isdigit : Text → Bool
unfolding all_of is_digit
isdigit [] = false
isdigit (c ∷ cs) = all_of is_digit (c ∷ cs)

-- The number of which the digits are given, the lowest first.
unfoldable pub from_low : Text → ℕ
from_low [] = 0
from_low (c ∷ cs) = (c - 48) + 10 * from_low cs

-- `int(text)` of a text of digits.
unfoldable pub int : Text → ℕ
unfolding from_low
int t = from_low (reverse t)

-- (0|[1-9]\d*), as the number that it stands for.
unfoldable pub core_number : Text → Option ℕ
unfolding isdigit int
core_number [] = none
core_number (c ∷ []) = if isdigit (c ∷ []) then some (int (c ∷ [])) else none
core_number (c ∷ d ∷ cs) =
    if isdigit (c ∷ d ∷ cs) && not (c == 48) then some (int (c ∷ d ∷ cs)) else none

-- The text before the first `c`, and the text after it, if there is one.
unfoldable pub cut : ℕ → Text → Text × Option Text
cut c [] = ([], none)
cut c (d ∷ cs) = let rest = cut c cs in if d == c then ([], some cs) else (d ∷ rest.0, rest.1)

-- `text.split(".")`
unfoldable pub split_dots : Text → List Text
split_dots [] = [] ∷ []
split_dots (c ∷ cs) =
    let rest = split_dots cs in
    if c == 46 then [] ∷ rest else (elim rest [ [] ↦ (c ∷ []) ∷ [] | t ∷ ts ↦ (c ∷ t) ∷ ts ])

-- One alternative [0-9A-Za-z-]+
unfoldable pub is_identifier : Text → Bool
unfolding all_of is_identifier_char
is_identifier [] = false
is_identifier (c ∷ cs) = all_of is_identifier_char (c ∷ cs)

unfoldable pub all_identifiers : List Text → Bool
unfolding is_identifier
all_identifiers [] = true
all_identifiers (t ∷ ts) = is_identifier t && all_identifiers ts

-- Whether an identifier is numeric with a leading zero.
unfoldable pub has_leading_zero : Text → Bool
unfolding isdigit
has_leading_zero [] = false
has_leading_zero (c ∷ cs) = isdigit (c ∷ cs) && ltb 1 (length (c ∷ cs)) && c == 48

-- An optional group of identifiers: absent, matched, or no match.
unfoldable pub identifiers : Option Text → Option (Option (List Text))
unfolding split_dots all_identifiers
identifiers none = some none
identifiers (some t) = if all_identifiers (split_dots t) then some (some (split_dots t)) else none

-- The ValueError on a numeric prerelease identifier with a leading zero.
unfoldable pub check_prerelease : Option (List Text) → Option (Option (List Text))
unfolding has_leading_zero any
check_prerelease none = some none
check_prerelease (some ids) = if any has_leading_zero ids then none else some (some ids)

infixl 5 ◌>>=◌
abbrev pub ◌>>=◌ {ℓ κ} : {A : Type ℓ} {B : Type κ} → Option A → (A → Option B) → Option B
none >>= next = none
some value >>= next = next value

unfoldable pub version_of :
    List Text → Option (List Text) → Option (List Text) → Option SemanticVersion
unfolding core_number
version_of (a ∷ b ∷ c ∷ []) prerelease build = do
  major ← core_number a
  minor ← core_number b
  patch ← core_number c
  some (record {
    major = major;
    minor = minor;
    patch = patch;
    prerelease = prerelease;
    build = build;
  })
version_of _ prerelease build = none

-- The groups of a match, with the check of the prerelease: a group is `none` where it does not match.
unfoldable pub match_groups :
    List Text → Option (Option (List Text)) → Option (Option (List Text)) → Option SemanticVersion
unfolding check_prerelease version_of
match_groups core prerelease build = do
  matched ← prerelease
  build_ids ← build
  prerelease_ids ← check_prerelease matched
  version_of core prerelease_ids build_ids

-- `parse_semver`; `none` is a ValueError. The first "+" starts the build, and a "-" before it the
-- prerelease, since neither sign can stand earlier in a match.
unfoldable pub parse_semver : Text → Option SemanticVersion
unfolding cut split_dots identifiers match_groups
parse_semver value =
    let head = cut 43 value in
    let core = cut 45 head.0 in
    match_groups (split_dots core.0) (identifiers core.1) (identifiers head.1)

-- `1 if left > right else -1`
abbrev pub greater_or_less : Ordering → Ordering
greater_or_less Ordering.gt = Ordering.gt
greater_or_less _ = Ordering.lt

-- The body of the loop over the identifiers, past the test of equality.
unfoldable pub compare_identifier : Text → Text → Ordering
unfolding isdigit int compare_text
compare_identifier l r =
    if isdigit l && isdigit r
    then greater_or_less (compare (int l) (int r))
    else if isdigit l
    then Ordering.lt
    else if isdigit r
    then Ordering.gt
    else greater_or_less (compare_text l r)

-- The loop over the pairs of identifiers: what it returns, if it returns.
unfoldable pub first_difference : List Text → List Text → Option Ordering
unfolding same_text compare_identifier
first_difference [] rs = none
first_difference (l ∷ ls) [] = none
first_difference (l ∷ ls) (r ∷ rs) =
    let rest = first_difference ls rs in
    if same_text l r then rest else some (compare_identifier l r)

unfoldable pub compare_identifiers : List Text → List Text → Ordering
unfolding first_difference
compare_identifiers ls rs = elim (first_difference ls rs) [
  | some order ↦ order
  | none ↦ compare (length ls) (length rs)
]

-- A prerelease comes before its release.
unfoldable pub compare_prerelease : Option (List Text) → Option (List Text) → Ordering
unfolding compare_identifiers
compare_prerelease none none = Ordering.eq
compare_prerelease none (some rs) = Ordering.gt
compare_prerelease (some ls) none = Ordering.lt
compare_prerelease (some ls) (some rs) = compare_identifiers ls rs

-- The first comparison that is not equal.
infixr 30 ◌then_by◌
abbrev pub ◌then_by◌ : Ordering → Ordering → Ordering
Ordering.eq then_by next = next
Ordering.lt then_by next = Ordering.lt
Ordering.gt then_by next = Ordering.gt

-- What `compare_semver` makes of two parsed versions: -1, 0 or 1.
unfoldable pub compare_versions : SemanticVersion → SemanticVersion → Ordering
unfolding compare_prerelease
compare_versions l r =
    compare l.major r.major
    then_by compare l.minor r.minor
    then_by compare l.patch r.patch
    then_by compare_prerelease l.prerelease r.prerelease

unfoldable pub compare_semver : Text → Text → Option Ordering
unfolding parse_semver compare_versions
compare_semver candidate installed = do
  left ← parse_semver candidate
  right ← parse_semver installed
  some (compare_versions left right)
