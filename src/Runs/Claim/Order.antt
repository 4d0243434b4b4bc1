-- ===== src/Runs/Claim/Order.antt =====
-- The order of the candidates: `ORDER BY created_at, id`, and which one the loop picks.
use ambient_agent.Prelude.{
  ℕ, zero, suc, ◌≤◌, String, ◌≡◌, refl, ◌∙◌, inl, inr, Bool, true, false, none, some, [], ◌∷◌,
  arith, eq_iff, take, find?, All, ◌=ₛ◌, Bool-cases,
}
use ambient_agent.Prelude.Table.{Table, lookup}
use ambient_agent.Prelude.Keys.{Distinct, AllFound}
use ambient_agent.Runs.Rows.{Run}
use ambient_agent.Runs.Lane.{is_before}
use ambient_agent.Runs.Claim.{insert_ordered, order_rows}

abbrev NoOlder : Run → String × Run → Type 0
NoOlder r row = r.created_at ≤ row.1.created_at

abbrev OldestFirst : Table Run → Type 0
OldestFirst [] = Unit
OldestFirst ((id, r) ∷ rows) = All (NoOlder r) rows × OldestFirst rows

All-lookup :
    (r : Run) (rows : Table Run) (id : String) (x : Run)
    → All (NoOlder r) rows
    → lookup id rows ≡ some x
    → r.created_at ≤ x.created_at
unfolding lookup
All-lookup r [] id x d h = ground arith
All-lookup r ((j, y) ∷ rows) id x d h = elim (Bool-cases (j =ₛ id)) [
  | inl same ↦ ground arith
  | inr other ↦ All-lookup r rows id x d.1 (rw other at h)
]

is_before-le :
    (i j : String) (a b : Run) → is_before (i, a) (j, b) ≡ true → a.created_at ≤ b.created_at
unfolding is_before
is_before-le i j a b h = ground arith

after-le :
    (i j : String) (a b : Run) → is_before (i, a) (j, b) ≡ false → b.created_at ≤ a.created_at
unfolding is_before
after-le i j a b h = ground arith

weaken :
    (a b : Run) (rows : Table Run)
    → a.created_at ≤ b.created_at
    → All (NoOlder b) rows
    → All (NoOlder a) rows
weaken a b [] h d = tt
weaken a b ((k, x) ∷ rows) h d = (omega (arith, h, d.0), weaken a b rows h d.1)

insert_ordered-All :
    (a : Run) (id : String) (r : Run) (rows : Table Run)
    → a.created_at ≤ r.created_at
    → All (NoOlder a) rows
    → All (NoOlder a) (insert_ordered (id, r) rows)
unfolding insert_ordered
insert_ordered-All a id r [] h d = (h, tt)
insert_ordered-All a id r ((k, x) ∷ rows) h d = elim (Bool-cases (is_before (k, x) (id, r))) [
  | inl later ↦ rw later (d.0, insert_ordered-All a id r rows h d.1)
  | inr earlier ↦ rw earlier (h, d)
]

insert_ordered-OldestFirst :
    (id : String) (r : Run) (rows : Table Run)
    → OldestFirst rows
    → OldestFirst (insert_ordered (id, r) rows)
unfolding insert_ordered
insert_ordered-OldestFirst id r [] d = (tt, tt)
insert_ordered-OldestFirst id r ((k, x) ∷ rows) d = elim (Bool-cases (is_before (k, x) (id, r))) [
  | inl later ↦ rw later (
    insert_ordered-All x id r rows (is_before-le k id x r later) d.0,
    insert_ordered-OldestFirst id r rows d.1,
  )
  | inr earlier ↦ let le = after-le k id x r earlier in rw earlier ((le, weaken r x rows le d.0), d)
]

pub order_rows-OldestFirst : (rows : Table Run) → OldestFirst (order_rows rows)
unfolding order_rows
order_rows-OldestFirst [] = tt
order_rows-OldestFirst ((id, r) ∷ rows) =
    insert_ordered-OldestFirst id r (order_rows rows) (order_rows-OldestFirst rows)

lookup-insert_ordered :
    (id : String) (r : Run) (rows : Table Run) (k : String)
    → lookup id rows ≡ none
    → lookup k (insert_ordered (id, r) rows) ≡ lookup k ((id, r) ∷ rows)
unfolding insert_ordered lookup
lookup-insert_ordered id r [] k h = refl
lookup-insert_ordered id r ((j, x) ∷ rows) k h = elim (Bool-cases (is_before (j, x) (id, r))) [
  | inr earlier ↦ rw earlier refl
  | inl later ↦ elim (Bool-cases (j =ₛ id)) [
    | inl same ↦ ground arith
    | inr other ↦
        let rest = lookup-insert_ordered id r rows k (rw other at h) in
        ground (arith, later, rest, eq_iff j k, eq_iff id k, eq_iff j id)
  ]
]

pub lookup-order_rows :
    (rows : Table Run) (k : String) → Distinct rows → lookup k (order_rows rows) ≡ lookup k rows
unfolding order_rows lookup
lookup-order_rows [] k d = refl
lookup-order_rows ((id, r) ∷ rows) k d =
    let rest = lookup-order_rows rows k d.1 in
    let fresh = lookup-order_rows rows id d.1 in
    let moved = lookup-insert_ordered id r (order_rows rows) k (fresh ∙ d.0) in
    ground (arith, rest, moved)

insert_ordered-AllFound :
    (t : Table Run) (q : String → Run → Bool) (id : String) (r : Run) (rows : Table Run)
    → lookup id t ≡ some r
    → q id r ≡ true
    → AllFound t q rows
    → AllFound t q (insert_ordered (id, r) rows)
unfolding insert_ordered
insert_ordered-AllFound t q id r [] found ok d = (found, ok, tt)
insert_ordered-AllFound t q id r ((k, x) ∷ rows) found ok d =
    elim (Bool-cases (is_before (k, x) (id, r))) [
      | inl later ↦ rw later (d.0, d.1, insert_ordered-AllFound t q id r rows found ok d.2)
      | inr earlier ↦ rw earlier (found, ok, d)
    ]

pub order_rows-AllFound :
    (t : Table Run) (q : String → Run → Bool) (rows : Table Run)
    → AllFound t q rows
    → AllFound t q (order_rows rows)
unfolding order_rows
order_rows-AllFound t q [] d = tt
order_rows-AllFound t q ((id, r) ∷ rows) d =
    insert_ordered-AllFound t q id r (order_rows rows) d.0 d.1 (order_rows-AllFound t q rows d.2)

-- The first match among the first rows is no younger than any match.
pub oldest_match :
    (p : String × Run → Bool) (n : ℕ) (rows : Table Run) (id other : String) (r x : Run)
    → OldestFirst rows
    → find? p (take n rows) ≡ some (id, r)
    → lookup other rows ≡ some x
    → p (other, x) ≡ true
    → r.created_at ≤ x.created_at
unfolding find? lookup
oldest_match p zero rows id other r x d h found ok = ground arith
oldest_match p (suc n) [] id other r x d h found ok = ground arith
oldest_match p (suc n) ((j, y) ∷ rows) id other r x d h found ok = elim (Bool-cases (p (j, y))) [
  | inl hit ↦ elim (Bool-cases (j =ₛ other)) [
    | inl same ↦ ground arith
    | inr differs ↦
        let le = All-lookup y rows other x d.0 (rw differs at found) in ground (arith, le)
  ]
  | inr miss ↦ elim (Bool-cases (j =ₛ other)) [
    | inl same ↦ ground (arith, (eq_iff j other).0 same)
    | inr differs ↦ oldest_match p n rows id other r x d.1 (rw miss at h) (rw differs at found) ok
  ]
]
