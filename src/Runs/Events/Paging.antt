-- ===== src/Runs/Events/Paging.antt =====
-- The event stream is read in pages (`events_after`), by the sequence of the last event seen.
use ambient_agent.Prelude.{
  ℕ, zero, suc, ◌+◌, ◌≤◌, ◌<◌, ◌≡◌, refl, ap, ◌∙◌, inl, inr, Bool, true, false, List, [], ◌∷◌, ◌++◌,
  arith, ltb, select, take, Bool-cases,
}
use native.Mathlib.Nat.{suc-add, zero-add}
use ambient_agent.Runs.Rows.{Event, Store}
use ambient_agent.Runs.Events.{events_after}

-- Sequences rise strictly from above the first bound, and end at most at the second.
abbrev pub InOrder : ℕ → List Event → ℕ → Type 0
InOrder low [] high = low ≤ high
InOrder low (e ∷ es) high = (low < e.sequence) × InOrder e.sequence es high

-- The events are in order below the counter of the table.
abbrev pub IsLog : Store → Type 0
IsLog s = InOrder 0 s.events s.last_sequence

InOrder-lower :
    (low low' : ℕ) (es : List Event) (high : ℕ)
    → low' ≤ low
    → InOrder low es high
    → InOrder low' es high
InOrder-lower low low' [] high h d = omega (arith, d, h)
InOrder-lower low low' (e ∷ es) high h d = (omega (arith, d.0, h), d.1)

abbrev is_after : ℕ → Event → Bool
is_after n e = ltb n e.sequence

-- Where a reader stands after a page.
abbrev pub cursor : ℕ → List Event → ℕ
cursor n [] = n
cursor n (e ∷ es) = cursor e.sequence es

pub select-InOrder :
    (p : Event → Bool) (low : ℕ) (es : List Event) (high : ℕ)
    → InOrder low es high
    → InOrder low (select p es) high
unfolding select
select-InOrder p low [] high d = d
select-InOrder p low (e ∷ es) high d = elim (Bool-cases (p e)) [
  | inl hit ↦ rw hit (d.0, select-InOrder p e.sequence es high d.1)
  | inr miss ↦
      rw miss (
        select-InOrder p low es high
          (InOrder-lower e.sequence low es high (omega (arith, d.0)) d.1))
]

-- Every selected event is after the bound that selected it.
after-InOrder :
    (n low : ℕ) (es : List Event) (high : ℕ)
    → InOrder low es high
    → n ≤ high
    → InOrder n (select (is_after n) es) high
unfolding select
after-InOrder n low [] high d h = h
after-InOrder n low (e ∷ es) high d h = elim (Bool-cases (is_after n e)) [
  | inl hit ↦ rw hit (ground (arith, hit), select-InOrder (is_after n) e.sequence es high d.1)
  | inr miss ↦ rw miss (after-InOrder n e.sequence es high d.1 h)
]

after-all :
    (n low : ℕ) (es : List Event) (high : ℕ)
    → n ≤ low
    → InOrder low es high
    → select (is_after n) es ≡ es
unfolding select
after-all n low [] high h d = refl
after-all n low (e ∷ es) high h d =
    let first : is_after n e ≡ true = ground (arith, h, d.0) in
    rw first (ap (λ x. e ∷ x) (after-all n e.sequence es high (omega (arith, h, d.0)) d.1))

after-after :
    (n c : ℕ) (es : List Event)
    → n ≤ c
    → select (is_after c) (select (is_after n) es) ≡ select (is_after c) es
unfolding select
after-after n c [] h = refl
after-after n c (e ∷ es) h = ground (arith, after-after n c es h)

cursor-grows :
    (n k low : ℕ) (es : List Event) (high : ℕ)
    → n ≤ low
    → InOrder low es high
    → low ≤ cursor low (take k es)
cursor-grows n zero low es high h d = omega arith
cursor-grows n (suc k) low [] high h d = omega arith
cursor-grows n (suc k) low (e ∷ es) high h d =
    omega (arith, d.0, cursor-grows e.sequence k e.sequence es high (omega arith) d.1)

take-empty : {A : Type 0} (m : ℕ) → take {A = A} m [] ≡ []
take-empty zero = refl
take-empty (suc m) = refl

take-resumes :
    (k m low : ℕ) (es : List Event) (high : ℕ)
    → InOrder low es high
    → take (k + m) es ≡ take k es ++ take m (select (is_after (cursor low (take k es))) es)
unfolding select
take-resumes zero m low es high d = rw (zero-add, after-all low low es high (omega arith) d) refl
take-resumes (suc k) m low [] high d = rw (take-empty (suc k + m), take-empty m) refl
take-resumes (suc k) m low (e ∷ es) high d =
    let le = cursor-grows e.sequence k e.sequence es high (omega arith) d.1 in
    let seen : is_after (cursor e.sequence (take k es)) e ≡ false = ground (arith, le) in
    rw (suc-add, seen) (ap (λ x. e ∷ x) (take-resumes k m e.sequence es high d.1))

-- In a store whose events are in order, a reader that has seen everything up to a sequence within
-- the log, reads a page and then a second one from the last event of the first, sees exactly what
-- one page of both lengths would have shown: nothing is lost and nothing repeated.
pub events_after_resumes :
    (sequence limit more : ℕ) (s : Store)
    → IsLog s
    → sequence ≤ s.last_sequence
    → events_after sequence (limit + more) s
      ≡ events_after sequence limit s
        ++ events_after (cursor sequence (events_after sequence limit s)) more s
unfolding events_after
events_after_resumes sequence limit more s d h =
    let log = select (is_after sequence) s.events in
    let ordered = after-InOrder sequence 0 s.events s.last_sequence d h in
    let le = cursor-grows sequence limit sequence log s.last_sequence (omega arith) ordered in
    take-resumes limit more sequence log s.last_sequence ordered
    ∙ ap (λ x. take limit log ++ take more x)
        (after-after sequence (cursor sequence (take limit log)) s.events le)
