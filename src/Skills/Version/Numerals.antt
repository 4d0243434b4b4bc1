-- ===== src/Skills/Version/Numerals.antt =====
-- Numeric identifiers without leading zeros are determined by their number.
use mathlib.Core.List.{reverse, reverse-cons, reverse-reverse}
use ambient_agent.Prelude.{
  ℕ, ◌≤◌, ◌<◌, ◌≡◌, refl, sym, ap, ◌∙◌, true, false, [], ◌∷◌, ◌++◌, ◌==◌, arith, inl, inr, ◌⊎◌,
  Bool-cases,
}
use ambient_agent.Prelude.Texts.{Text}
use ambient_agent.Skills.Version.{is_digit, all_of, isdigit, from_low, int, has_leading_zero}

abbrev IsDigit : ℕ → Type 0
IsDigit c = (48 ≤ c) × (c ≤ 57)

abbrev Digits : Text → Type 0
Digits [] = Unit
Digits (c ∷ cs) = IsDigit c × Digits cs

-- Digits, the lowest first, of which the highest is not zero.
abbrev Proper : Text → Type 0
Proper [] = Unit
Proper (c ∷ []) = (48 < c) × (c ≤ 57)
Proper (c ∷ d ∷ cs) = IsDigit c × Proper (d ∷ cs)

from_low_pos : (c : ℕ) (cs : Text) → Proper (c ∷ cs) → 0 < from_low (c ∷ cs)
unfolding from_low
from_low_pos c [] h = omega arith
from_low_pos c (d ∷ cs) h = omega (arith, from_low_pos d cs h.1)

Proper-tail : (c : ℕ) (cs : Text) → Proper (c ∷ cs) → IsDigit c × Proper cs
Proper-tail c [] h = ((omega arith, h.1), tt)
Proper-tail c (d ∷ cs) h = h

low_digit :
    (c d : ℕ) (cs ds : Text)
    → IsDigit c
    → IsDigit d
    → from_low (c ∷ cs) ≡ from_low (d ∷ ds)
    → (c ≡ d) × (from_low cs ≡ from_low ds)
unfolding from_low
low_digit c d cs ds p q e = omega arith

from_low_injective : (xs ys : Text) → Proper xs → Proper ys → from_low xs ≡ from_low ys → xs ≡ ys
unfolding from_low
from_low_injective [] [] p q e = refl
from_low_injective [] (d ∷ ds) p q e = absurd (omega (arith, from_low_pos d ds q))
from_low_injective (c ∷ cs) [] p q e = absurd (omega (arith, from_low_pos c cs p))
from_low_injective (c ∷ cs) (d ∷ ds) p q e =
    let cp = Proper-tail c cs p in
    let dq = Proper-tail d ds q in
    let both = low_digit c d cs ds cp.0 dq.0 e in
    ground (arith, from_low_injective cs ds cp.1 dq.1 both.1)

Digits-append_one : (xs : Text) (c : ℕ) → Digits xs → IsDigit c → Digits (xs ++ c ∷ [])
Digits-append_one [] c h p = (p, tt)
Digits-append_one (x ∷ xs) c h p = (h.0, Digits-append_one xs c h.1 p)

Digits-reverse : (xs : Text) → Digits xs → Digits (reverse xs)
Digits-reverse [] h = tt
Digits-reverse (x ∷ xs) h =
    rw (reverse-cons x xs) (Digits-append_one (reverse xs) x (Digits-reverse xs h.1) h.0)

Proper-append_one : (xs : Text) (c : ℕ) → Digits xs → (48 < c) × (c ≤ 57) → Proper (xs ++ c ∷ [])
Proper-append_one [] c h p = p
Proper-append_one (x ∷ []) c h p = (h.0, p)
Proper-append_one (x ∷ y ∷ xs) c h p = (h.0, Proper-append_one (y ∷ xs) c h.1 p)

all_of-Digits : (xs : Text) → all_of is_digit xs ≡ true → Digits xs
unfolding all_of is_digit
all_of-Digits [] h = tt
all_of-Digits (x ∷ xs) h = (ground arith, all_of-Digits xs (ground arith))

isdigit-Digits : (xs : Text) → isdigit xs ≡ true → Digits xs
unfolding isdigit
isdigit-Digits [] h = tt
isdigit-Digits (x ∷ xs) h = all_of-Digits (x ∷ xs) h

from_low-append_pos : (xs : Text) (c : ℕ) → Proper (xs ++ c ∷ []) → 0 < from_low (xs ++ c ∷ [])
from_low-append_pos [] c h = from_low_pos c [] h
from_low-append_pos (x ∷ xs) c h = from_low_pos x (xs ++ c ∷ []) h

-- A numeral that does not stand for zero.
record IsPositive (t : Text) : Type 0 where
  proper : Proper (reverse t)
  positive : 0 < int t

IsPositive-cons : (c : ℕ) (cs : Text) → Digits (c ∷ cs) → 48 < c → IsPositive (c ∷ cs)
unfolding int
IsPositive-cons c cs h p =
    let proper = Proper-append_one (reverse cs) c (Digits-reverse cs h.1) (p, h.0.1) in
    record {
      proper = rw (reverse-cons c cs) proper;
      positive = rw (reverse-cons c cs) (from_low-append_pos (reverse cs) c proper);
    }

zero_alone :
    (c : ℕ) (cs : Text)
    → isdigit (c ∷ cs) ≡ true
    → (c == 48) ≡ true
    → has_leading_zero (c ∷ cs) ≡ false
    → c ∷ cs ≡ 48 ∷ []
unfolding has_leading_zero
zero_alone c [] d e z = ground arith
zero_alone c (x ∷ cs) d e z = ground arith

-- A numeric identifier without leading zeros is 0 or a numeral of a positive number.
numeral_cases :
    (t : Text) → isdigit t ≡ true → has_leading_zero t ≡ false → (t ≡ 48 ∷ []) ⊎ IsPositive t
unfolding has_leading_zero
numeral_cases [] d z = ground arith
numeral_cases (c ∷ cs) d z =
    let digits = isdigit-Digits (c ∷ cs) d in
    elim (Bool-cases (c == 48)) [
      | inl e ↦ inl (zero_alone c cs d e z)
      | inr e ↦ inr (IsPositive-cons c cs digits (ground arith))
    ]

int-zero : int (48 ∷ []) ≡ 0
unfolding int
int-zero = refl

reverse_injective : (l r : Text) → reverse l ≡ reverse r → l ≡ r
reverse_injective l r e = sym (reverse-reverse l) ∙ ap reverse e ∙ reverse-reverse r

pub int_injective :
    (l r : Text)
    → isdigit l ≡ true
    → isdigit r ≡ true
    → has_leading_zero l ≡ false
    → has_leading_zero r ≡ false
    → int l ≡ int r
    → l ≡ r
int_injective l r dl dr zl zr e = elim (numeral_cases l dl zl) [
  | inl x ↦ elim (numeral_cases r dr zr) [
    | inl y ↦ x ∙ sym y
    | inr q ↦ absurd (omega (arith, q.positive, ap int x, int-zero))
  ]
  | inr p ↦ elim (numeral_cases r dr zr) [
    | inl y ↦ absurd (omega (arith, p.positive, ap int y, int-zero))
    | inr q ↦ reverse_injective l r (same_number l r p.proper q.proper e)
  ]
]
  where
    same_number :
        (l r : Text)
        → Proper (reverse l)
        → Proper (reverse r)
        → int l ≡ int r
        → reverse l ≡ reverse r
    same_number l r p q e = from_low_injective (reverse l) (reverse r) p q (unfold int in e)
