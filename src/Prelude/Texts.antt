-- ===== src/Prelude/Texts.antt =====
-- Texts as lists of code points, for code that counts, cuts or compares characters.
use Prim.Native.Nat.{ℕ, zero, suc, ◌+◌, ◌/◌, ◌%◌, compare, Ordering}
use Prim.Native.String.{String}
use mathlib.Core.Path.{◌≡◌, refl}
use native.Mathlib.Omega.{arith}
use mathlib.Core.Bool.{Bool, true, false}
use mathlib.Core.List.{List, [], ◌∷◌, ◌++◌}
use Prim.Native.Char.{code}
use ambient_agent.Prelude.Tests.{ltb, if◌then◌else◌}

abbrev pub Text : Type 0
Text = List ℕ

abbrev pub codes : String → Text
codes String.[] = []
codes (String.◌∷◌ c s) = code c ∷ codes s

-- `left > right` on texts, by code points.
unfoldable pub compare_text : Text → Text → Ordering
compare_text [] [] = Ordering.eq
compare_text [] (d ∷ ds) = Ordering.lt
compare_text (c ∷ cs) [] = Ordering.gt
compare_text (c ∷ cs) (d ∷ ds) =
    let rest = compare_text cs ds in
    elim (compare c d) [
      | Ordering.lt ↦ Ordering.lt
      | Ordering.gt ↦ Ordering.gt
      | Ordering.eq ↦ rest
    ]

unfoldable pub same_text : Text → Text → Bool
unfolding compare_text
same_text s t = elim (compare_text s t) [ Ordering.eq ↦ true | _ ↦ false ]

pub compare_text-eq : (s t : Text) → compare_text s t ≡ Ordering.eq → s ≡ t
unfolding compare_text
compare_text-eq [] [] e = refl
compare_text-eq [] (d ∷ ds) e = ground arith
compare_text-eq (c ∷ cs) [] e = ground arith
compare_text-eq (c ∷ cs) (d ∷ ds) e = ground (arith, compare_text-eq cs ds)

pub same_text-eq : (s t : Text) → same_text s t ≡ true → s ≡ t
unfolding same_text
same_text-eq s t h = ground (arith, compare_text-eq s t)

-- A new member of `sorted(set(...))`.
unfoldable pub insert_text : Text → List Text → List Text
unfolding compare_text
insert_text t [] = t ∷ []
insert_text t (s ∷ ss) =
    let rest = insert_text t ss in
    elim (compare_text t s) [
      | Ordering.lt ↦ t ∷ s ∷ ss
      | Ordering.eq ↦ s ∷ ss
      | Ordering.gt ↦ s ∷ rest
    ]

-- `sorted(set(texts))`
unfoldable pub sorted_set : List Text → List Text
unfolding insert_text
sorted_set [] = []
sorted_set (t ∷ ts) = insert_text t (sorted_set ts)

-- The digits of a number before a text; a number is fuel enough for its own digits.
unfoldable pub digits_before : ℕ → ℕ → Text → Text
digits_before zero n text = text
digits_before (suc fuel) n text =
    let rest = digits_before fuel (n / 10) ((48 + n % 10) ∷ text) in
    if ltb n 10 then (48 + n % 10) ∷ text else rest

-- `str(n)`
unfoldable pub decimal : ℕ → Text
unfolding digits_before
decimal n = digits_before (suc n) n []

-- `separator.join(texts)`
unfoldable pub join_texts : Text → List Text → Text
join_texts separator [] = []
join_texts separator (t ∷ []) = t
join_texts separator (t ∷ s ∷ ts) = t ++ (separator ++ join_texts separator (s ∷ ts))
