-- ===== src/Skills/Version/Order.antt =====
-- The precedence of versions is a total order that ignores build metadata.
use Prim.Native.Nat.{compare, Ordering}
use Prim.Native.Nat.Ordering.{lt, eq, gt}
use mathlib.Core.Option
use mathlib.Core.Option.{some-injective}
use mathlib.Core.Path.{subst}
use ambient_agent.Prelude.{
  ℕ, ◌≡◌, refl, sym, ap, ◌∙◌, false, ◌↔◌, Option, none, some, List, [], ◌∷◌, any, if◌then◌else◌,
  arith, inl, inr, Bool-cases, Option-cases, All,
}
use ambient_agent.Prelude.Texts.{Text, compare_text, same_text, compare_text-eq}
use ambient_agent.Skills.Version.{
  SemanticVersion, has_leading_zero, compare_identifier, first_difference, compare_identifiers,
  compare_prerelease, check_prerelease, identifiers, cut, split_dots, version_of, match_groups,
  ◌then_by◌, compare_versions, parse_semver, compare_semver,
}
use ambient_agent.Skills.Version.Numerals.{int_injective}

abbrev pub swap : Ordering → Ordering
swap lt = gt
swap eq = eq
swap gt = lt

-- A comparison that orders the values with a property totally.
pub record IsTotal {ℓ} {A : Type ℓ} (P : A → Type 0) (cmp : A → A → Ordering) : Type ℓ where
  pub equal : (a b : A) → P a → P b → cmp a b ≡ eq → a ≡ b
  pub same : (a : A) → P a → cmp a a ≡ eq
  pub swapped : (a b : A) → P a → P b → cmp a b ≡ swap (cmp b a)
  pub before : (a b c : A) → P a → P b → P c → cmp a b ≡ lt → cmp b c ≡ lt → cmp a c ≡ lt

compare-IsTotal : IsTotal (λ (n : ℕ). Unit {0}) compare
compare-IsTotal = record {
  equal = λ a b _ _ e. ground arith;
  same = λ a _. ground arith;
  swapped = λ a b _ _. ground arith;
  before = λ a b c _ _ _ p q. ground arith;
}

text_same : (s : Text) → compare_text s s ≡ eq
unfolding compare_text
text_same [] = refl
text_same (c ∷ cs) = ground (arith, text_same cs)

text_swapped : (s t : Text) → compare_text s t ≡ swap (compare_text t s)
unfolding compare_text
text_swapped [] [] = refl
text_swapped [] (d ∷ ds) = refl
text_swapped (c ∷ cs) [] = refl
text_swapped (c ∷ cs) (d ∷ ds) = ground (arith, text_swapped cs ds)

text_before : (s t u : Text) → compare_text s t ≡ lt → compare_text t u ≡ lt → compare_text s u ≡ lt
unfolding compare_text
text_before [] [] u p q = ground arith
text_before [] (d ∷ ds) [] p q = ground arith
text_before [] (d ∷ ds) (x ∷ xs) p q = refl
text_before (c ∷ cs) [] u p q = ground arith
text_before (c ∷ cs) (d ∷ ds) [] p q = ground arith
text_before (c ∷ cs) (d ∷ ds) (x ∷ xs) p q =
    ground (arith, text_before cs ds xs, compare_text-eq cs ds, compare_text-eq ds xs)

-- The order of two identifiers.
compare_id : Text → Text → Ordering
compare_id l r = if same_text l r then eq else compare_identifier l r

abbrev IsPlain : Text → Type 0
IsPlain t = has_leading_zero t ≡ false

compare_id-IsTotal : IsTotal IsPlain compare_id
unfolding compare_id same_text compare_identifier
compare_id-IsTotal = record {
  equal = λ a b p q e. ground (arith, compare_text-eq a b, int_injective a b);
  same = λ a p. ground (arith, text_same a);
  swapped = λ a b p q. ground (
    arith,
    text_swapped a b,
    text_swapped b a,
    compare_text-eq a b,
    compare_text-eq b a,
    int_injective a b,
    int_injective b a,
    text_same a,
  );
  before = λ a b c p q r x y. ground (
    arith,
    text_before a b c,
    compare_text-eq a b,
    compare_text-eq b c,
    compare_text-eq a c,
    text_swapped a b,
    text_same a,
    int_injective a b,
    int_injective b c,
  );
}

differs : (l r : Text) → compare_identifier l r ≡ eq → ⊥
unfolding compare_identifier
differs l r e = ground arith

compare_identifiers-cons :
    (l r : Text) (ls rs : List Text)
    → compare_identifiers (l ∷ ls) (r ∷ rs) ≡ (compare_id l r then_by compare_identifiers ls rs)
unfolding compare_identifiers first_difference compare_id same_text
compare_identifiers-cons l r ls rs = ground (arith, differs l r)

abbrev ArePlain : List Text → Type 0
ArePlain ts = All IsPlain ts

no_ids : compare_identifiers [] [] ≡ eq
unfolding compare_identifiers first_difference
no_ids = refl

fewer_ids : (r : Text) (rs : List Text) → compare_identifiers [] (r ∷ rs) ≡ lt
unfolding compare_identifiers first_difference
fewer_ids r rs = ground arith

more_ids : (l : Text) (ls : List Text) → compare_identifiers (l ∷ ls) [] ≡ gt
unfolding compare_identifiers first_difference
more_ids l ls = ground arith

ids_equal :
    (ls rs : List Text) → ArePlain ls → ArePlain rs → compare_identifiers ls rs ≡ eq → ls ≡ rs
ids_equal [] [] p q e = refl
ids_equal [] (r ∷ rs) p q e = ground (arith, fewer_ids r rs)
ids_equal (l ∷ ls) [] p q e = ground (arith, more_ids l ls)
ids_equal (l ∷ ls) (r ∷ rs) p q e = ground (
  arith,
  compare_identifiers-cons l r ls rs,
  compare_id-IsTotal.equal l r p.0 q.0,
  ids_equal ls rs p.1 q.1,
)

ids_same : (ls : List Text) → ArePlain ls → compare_identifiers ls ls ≡ eq
ids_same [] p = no_ids
ids_same (l ∷ ls) p =
    ground
      (arith, compare_identifiers-cons l l ls ls, compare_id-IsTotal.same l p.0, ids_same ls p.1)

ids_swapped :
    (ls rs : List Text)
    → ArePlain ls
    → ArePlain rs
    → compare_identifiers ls rs ≡ swap (compare_identifiers rs ls)
ids_swapped [] [] p q = ground (arith, no_ids)
ids_swapped [] (r ∷ rs) p q = ground (arith, fewer_ids r rs, more_ids r rs)
ids_swapped (l ∷ ls) [] p q = ground (arith, fewer_ids l ls, more_ids l ls)
ids_swapped (l ∷ ls) (r ∷ rs) p q = ground (
  arith,
  compare_identifiers-cons l r ls rs,
  compare_identifiers-cons r l rs ls,
  compare_id-IsTotal.swapped l r p.0 q.0,
  ids_swapped ls rs p.1 q.1,
)

ids_before :
    (ls rs ts : List Text)
    → ArePlain ls
    → ArePlain rs
    → ArePlain ts
    → compare_identifiers ls rs ≡ lt
    → compare_identifiers rs ts ≡ lt
    → compare_identifiers ls ts ≡ lt
ids_before [] [] ts p q r x y = ground (arith, no_ids)
ids_before (a ∷ as') [] ts p q r x y = ground (arith, more_ids a as')
ids_before ls (b ∷ bs) [] p q r x y = ground (arith, more_ids b bs)
ids_before [] (b ∷ bs) (c ∷ cs) p q r x y = fewer_ids c cs
ids_before (a ∷ as') (b ∷ bs) (c ∷ cs) p q r x y = ground (
  arith,
  compare_identifiers-cons a b as' bs,
  compare_identifiers-cons b c bs cs,
  compare_identifiers-cons a c as' cs,
  compare_id-IsTotal.equal a b p.0 q.0,
  compare_id-IsTotal.equal b c q.0 r.0,
  compare_id-IsTotal.before a b c p.0 q.0 r.0,
  compare_id-IsTotal.same b q.0,
  ids_before as' bs cs p.1 q.1 r.1,
)

compare_identifiers-IsTotal : IsTotal ArePlain compare_identifiers
compare_identifiers-IsTotal = record {
  equal = ids_equal;
  same = ids_same;
  swapped = ids_swapped;
  before = ids_before;
}

abbrev ArePlain? : Option (List Text) → Type 0
ArePlain? none = Unit
ArePlain? (some ts) = ArePlain ts

prerelease_equal :
    (l r : Option (List Text)) → ArePlain? l → ArePlain? r → compare_prerelease l r ≡ eq → l ≡ r
unfolding compare_prerelease
prerelease_equal none none p q e = refl
prerelease_equal none (some rs) p q e = ground arith
prerelease_equal (some ls) none p q e = ground arith
prerelease_equal (some ls) (some rs) p q e = ap some (ids_equal ls rs p q e)

prerelease_same : (l : Option (List Text)) → ArePlain? l → compare_prerelease l l ≡ eq
unfolding compare_prerelease
prerelease_same none p = refl
prerelease_same (some ls) p = ids_same ls p

prerelease_swapped :
    (l r : Option (List Text))
    → ArePlain? l
    → ArePlain? r
    → compare_prerelease l r ≡ swap (compare_prerelease r l)
unfolding compare_prerelease
prerelease_swapped none none p q = refl
prerelease_swapped none (some rs) p q = refl
prerelease_swapped (some ls) none p q = refl
prerelease_swapped (some ls) (some rs) p q = ids_swapped ls rs p q

prerelease_before :
    (l r t : Option (List Text))
    → ArePlain? l
    → ArePlain? r
    → ArePlain? t
    → compare_prerelease l r ≡ lt
    → compare_prerelease r t ≡ lt
    → compare_prerelease l t ≡ lt
unfolding compare_prerelease
prerelease_before none none t p q k x y = ground arith
prerelease_before none (some rs) t p q k x y = ground arith
prerelease_before (some ls) none none p q k x y = refl
prerelease_before (some ls) none (some ts) p q k x y = ground arith
prerelease_before (some ls) (some rs) none p q k x y = refl
prerelease_before (some ls) (some rs) (some ts) p q k x y = ids_before ls rs ts p q k x y

compare_prerelease-IsTotal : IsTotal ArePlain? compare_prerelease
compare_prerelease-IsTotal = record {
  equal = prerelease_equal;
  same = prerelease_same;
  swapped = prerelease_swapped;
  before = prerelease_before;
}

-- The version without its build metadata.
abbrev pub Precedence : Type 0
Precedence = ℕ × (ℕ × (ℕ × Option (List Text)))

abbrev pub precedence : SemanticVersion → Precedence
precedence v = (v.major, (v.minor, (v.patch, v.prerelease)))

-- A comparison of numbers, and of what follows where they are equal.
pair_order : {A : Type 0} → (A → A → Ordering) → ℕ × A → ℕ × A → Ordering
pair_order cmp (m, a) (n, b) = compare m n then_by cmp a b

pair_order-IsTotal :
    {A : Type 0} {Q : A → Type 0} {cmp : A → A → Ordering}
    → IsTotal Q cmp
    → IsTotal (λ (x : ℕ × A). Q x.1) (pair_order cmp)
unfolding pair_order
pair_order-IsTotal t = record {
  equal = λ a b p q e. ground (arith, t.equal a.1 b.1 p q);
  same = λ a p. ground (arith, t.same a.1 p);
  swapped = λ a b p q. ground (arith, t.swapped a.1 b.1 p q);
  before = λ a b c p q r x y. ground (arith, t.before a.1 b.1 c.1 p q r);
}

order : Precedence → Precedence → Ordering
unfolding pair_order
order = pair_order (pair_order (pair_order compare_prerelease))

order-IsTotal : IsTotal (λ (x : Precedence). ArePlain? x.1.1.1) order
unfolding order
order-IsTotal =
    pair_order-IsTotal (pair_order-IsTotal (pair_order-IsTotal compare_prerelease-IsTotal))

compare_versions-order :
    (v w : SemanticVersion) → compare_versions v w ≡ order (precedence v) (precedence w)
unfolding compare_versions order
compare_versions-order v w = refl

any-ArePlain : (ids : List Text) → any has_leading_zero ids ≡ false → ArePlain ids
unfolding any
any-ArePlain [] h = tt
any-ArePlain (t ∷ ts) h = (ground arith, any-ArePlain ts (ground arith))

check_prerelease-ArePlain :
    (ids checked : Option (List Text)) → check_prerelease ids ≡ some checked → ArePlain? checked
unfolding check_prerelease
check_prerelease-ArePlain none checked h = subst ArePlain? (some-injective _ _ h) tt
check_prerelease-ArePlain (some ids) checked h = elim (Bool-cases (any has_leading_zero ids)) [
  | inl bad ↦ ground arith
  | inr good ↦
      let same : some (some ids) ≡ some checked = ground arith in
      subst ArePlain? (some-injective _ _ same) (any-ArePlain ids good)
]

version_of-prerelease :
    (ts : List Text) (p b : Option (List Text)) (v : SemanticVersion)
    → version_of ts p b ≡ some v
    → v.prerelease ≡ p
unfolding version_of
version_of-prerelease [] p b v h = ground arith
version_of-prerelease (x ∷ []) p b v h = ground arith
version_of-prerelease (x ∷ y ∷ []) p b v h = ground arith
version_of-prerelease (x ∷ y ∷ z ∷ []) p b v h = ground arith
version_of-prerelease (x ∷ y ∷ z ∷ w ∷ ts) p b v h = ground arith

match_groups-ArePlain :
    (core : List Text) (prerelease build : Option (Option (List Text))) (v : SemanticVersion)
    → match_groups core prerelease build ≡ some v
    → ArePlain? v.prerelease
unfolding match_groups
match_groups-ArePlain core none build v h = ground arith
match_groups-ArePlain core (some p) none v h = ground arith
match_groups-ArePlain core (some p) (some b) v h = elim (Option-cases (check_prerelease p)) [
  | inl e ↦ ground arith
  | inr (ids, e) ↦
      let kept : v.prerelease ≡ ids = ground (arith, version_of-prerelease core ids b v) in
      subst ArePlain? (sym kept) (check_prerelease-ArePlain p ids e)
]

-- A parsed version has no numeric identifier with a leading zero in its prerelease.
parse_semver-ArePlain :
    (t : Text) (v : SemanticVersion) → parse_semver t ≡ some v → ArePlain? v.prerelease
unfolding parse_semver
parse_semver-ArePlain t v h =
    match_groups-ArePlain (split_dots (cut 45 (cut 43 t).0).0) (identifiers (cut 45 (cut 43 t).0).1)
      (identifiers (cut 43 t).1) v h

compare_semver-some :
    (a b : Text) (v w : SemanticVersion)
    → parse_semver a ≡ some v
    → parse_semver b ≡ some w
    → compare_semver a b ≡ some (order (precedence v) (precedence w))
unfolding compare_semver
compare_semver-some a b v w p q = rw (p, q) (ap some (compare_versions-order v w))

-- Two texts that parse have equal precedence exactly when they agree on everything but their build
-- metadata, and comparing them the other way round gives the opposite sign.
pub compare_semver_total :
    (a b : Text) (v w : SemanticVersion)
    → parse_semver a ≡ some v
    → parse_semver b ≡ some w
    → ((compare_semver a b ≡ some eq) ↔ (precedence v ≡ precedence w))
      × (compare_semver a b ≡ Option.map swap (compare_semver b a))
compare_semver_total a b v w p q =
    let pv = parse_semver-ArePlain a v p in
    let pw = parse_semver-ArePlain b w q in
    (
      (
        λ h.
            order-IsTotal.equal _ _ pv pw
              (some-injective _ _ (sym (compare_semver-some a b v w p q) ∙ h)),
        λ h.
            compare_semver-some a b v w p q
            ∙ ap some (ap (λ (x : Precedence). order x (precedence w)) h ∙ order-IsTotal.same _ pw),
      ),
      ground (
        arith,
        compare_semver-some a b v w p q,
        compare_semver-some b a w v q p,
        order-IsTotal.swapped (precedence v) (precedence w) pv pw,
      ),
    )

-- Of three texts that parse, the first is older than the third if it is older than the second and
-- the second is older than the third.
pub compare_semver_transitive :
    (a b c : Text) (v w u : SemanticVersion)
    → parse_semver a ≡ some v
    → parse_semver b ≡ some w
    → parse_semver c ≡ some u
    → compare_semver a b ≡ some lt
    → compare_semver b c ≡ some lt
    → compare_semver a c ≡ some lt
compare_semver_transitive a b c v w u p q r x y = ground (
  arith,
  compare_semver-some a b v w p q,
  compare_semver-some b c w u q r,
  compare_semver-some a c v u p r,
  order-IsTotal.before (precedence v) (precedence w) (precedence u) (parse_semver-ArePlain a v p)
      (parse_semver-ArePlain b w q) (parse_semver-ArePlain c u r),
)
