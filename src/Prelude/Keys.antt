-- ===== src/Prelude/Keys.antt =====
-- Primary keys: a table holds each key once, an update keeps the keys, a selection finds its rows.
use ambient_agent.Prelude.Tests.{◌=ₛ◌, text_refl, Bool-cases, Option-cases}
use ambient_agent.Prelude.Table.{
  Table, lookup, update, update_where, select_where, lookup-update_where, lookup-update,
}
use Prim.Native.String.{String}
use mathlib.Core.Path.{◌≡◌, refl, ◌∙◌}
use mathlib.Core.Logic.{inl, inr}
use mathlib.Core.Bool.{Bool, true, false}
use mathlib.Core.List.{[], ◌∷◌, ◌++◌}
use mathlib.Core.Option.{none, some}
use native.Mathlib.Omega.{arith}
use text.Mathlib.TextEquality.{eq_iff}

module _ {ℓ} {V : Type ℓ} where
  abbrev pub Distinct : Table V → Type ℓ
  Distinct [] = Unit
  Distinct ((k, v) ∷ t) = (lookup k t ≡ none) × Distinct t

  -- Each row of the first list is the row of its key in the table, and passes the test.
  abbrev pub AllFound : Table V → (String → V → Bool) → Table V → Type ℓ
  AllFound t p [] = Unit
  AllFound t p ((k, v) ∷ rows) = (lookup k t ≡ some v) × (p k v ≡ true) × AllFound t p rows

  pub update_where-Distinct :
      (p : String → V → Bool) (f : V → V) (t : Table V) → Distinct t → Distinct (update_where p f t)
  unfolding update_where
  update_where-Distinct p f [] d = tt
  update_where-Distinct p f ((k, v) ∷ t) d =
      (rw (lookup-update_where p f k t, d.0) refl, update_where-Distinct p f t d.1)

  lookup-append_none :
      (t : Table V) (k : String) (v : V) (j : String)
      → (k =ₛ j) ≡ false
      → lookup j t ≡ none
      → lookup j (t ++ (k, v) ∷ []) ≡ none
  unfolding lookup
  lookup-append_none [] k v j h e = rw h refl
  lookup-append_none ((i, w) ∷ t) k v j h e = elim (Bool-cases (i =ₛ j)) [
    | inl hit ↦ ground arith
    | inr miss ↦ rw miss (lookup-append_none t k v j h (rw miss at e))
  ]

  pub append-Distinct :
      (t : Table V) (k : String) (v : V)
      → lookup k t ≡ none
      → Distinct t
      → Distinct (t ++ (k, v) ∷ [])
  unfolding lookup
  append-Distinct [] k v h d = (refl, tt)
  append-Distinct ((j, w) ∷ t) k v h d = (
    lookup-append_none t k v j (ground (arith, eq_iff j k, eq_iff k j)) d.0,
    append-Distinct t k v (ground arith) d.1,
  )

  pub lookup-append_some :
      (t u : Table V) (k : String) (v : V) → lookup k t ≡ some v → lookup k (t ++ u) ≡ some v
  unfolding lookup
  lookup-append_some [] u k v h = ground arith
  lookup-append_some ((j, w) ∷ t) u k v h = elim (Bool-cases (j =ₛ k)) [
    | inl same ↦ rw same (rw same at h)
    | inr other ↦ rw other (lookup-append_some t u k v (rw other at h))
  ]

  -- A longer table still holds the rows, where the new key hides none of them.
  found-cons :
      (j : String) (w : V) (t : Table V) (p : String → V → Bool) (rows : Table V)
      → lookup j t ≡ none
      → AllFound t p rows
      → AllFound ((j, w) ∷ t) p rows
  unfolding lookup
  found-cons j w t p [] h d = tt
  found-cons j w t p ((k, v) ∷ rows) h d =
      (ground (arith, eq_iff j k, d.0), d.1, found-cons j w t p rows h d.2)

  pub select_where-AllFound :
      (p : String → V → Bool) (t : Table V) → Distinct t → AllFound t p (select_where p t)
  unfolding select_where lookup
  select_where-AllFound p [] d = tt
  select_where-AllFound p ((j, v) ∷ t) d =
      let rest = found-cons j v t p (select_where p t) d.0 (select_where-AllFound p t d.1) in
      elim (Bool-cases (p j v)) [
        | inl hit ↦ rw hit (rw (text_refl j) refl, hit, rest)
        | inr miss ↦ rw miss rest
      ]

  pub lookup-select_where-none :
      (p : String → V → Bool) (k : String) (t : Table V)
      → lookup k t ≡ none
      → lookup k (select_where p t) ≡ none
  unfolding lookup select_where
  lookup-select_where-none p k [] h = refl
  lookup-select_where-none p k ((j, v) ∷ t) h = ground (arith, lookup-select_where-none p k t)

  pub select_where-Distinct :
      (p : String → V → Bool) (t : Table V) → Distinct t → Distinct (select_where p t)
  unfolding select_where
  select_where-Distinct p [] d = tt
  select_where-Distinct p ((j, v) ∷ t) d = elim (Bool-cases (p j v)) [
    | inl hit ↦ rw hit (lookup-select_where-none p j t d.0, select_where-Distinct p t d.1)
    | inr miss ↦ rw miss (select_where-Distinct p t d.1)
  ]

  -- A change of one key leaves the rows of other keys where they were.
  pub AllFound-kept :
      (k : String) (t t' : Table V) (p : String → V → Bool) (rows : Table V)
      → ((j : String) → (j =ₛ k) ≡ false → lookup j t' ≡ lookup j t)
      → lookup k rows ≡ none
      → AllFound t p rows
      → AllFound t' p rows
  unfolding lookup
  AllFound-kept k t t' p [] same h d = tt
  AllFound-kept k t t' p ((j, v) ∷ rows) same h d = elim (Bool-cases (j =ₛ k)) [
    | inl hit ↦ ground arith
    | inr miss ↦ (same j miss ∙ d.0, d.1, AllFound-kept k t t' p rows same (rw miss at h) d.2)
  ]

  pub lookup-update_ne :
      (k j : String) (f : V → V) (t : Table V)
      → (j =ₛ k) ≡ false
      → lookup j (update k f t) ≡ lookup j t
  lookup-update_ne k j f t h = elim (Option-cases (lookup j t)) [
    | inl e ↦ rw (lookup-update k j f t, e) refl
    | inr (v, e) ↦ rw (lookup-update k j f t, e) (rw h refl)
  ]

  pub lookup-append_new :
      (k : String) (v : V) (t : Table V) → lookup k t ≡ none → lookup k (t ++ (k, v) ∷ []) ≡ some v
  unfolding lookup
  lookup-append_new k v [] h = rw (text_refl k) refl
  lookup-append_new k v ((j, w) ∷ t) h = elim (Bool-cases (j =ₛ k)) [
    | inl same ↦ ground arith
    | inr other ↦ rw other (lookup-append_new k v t (rw other at h))
  ]

  pub lookup-update_same :
      (k : String) (f : V → V) (t : Table V) (v : V)
      → lookup k t ≡ some v
      → lookup k (update k f t) ≡ some (f v)
  lookup-update_same k f t v h = rw (lookup-update k k f t, h) (rw (text_refl k) refl)

  pub lookup-select_where_miss :
      (p : String → V → Bool) (k : String) (t : Table V) (v : V)
      → Distinct t
      → lookup k t ≡ some v
      → p k v ≡ false
      → lookup k (select_where p t) ≡ none
  unfolding lookup select_where
  lookup-select_where_miss p k [] v d h off = refl
  lookup-select_where_miss p k ((j, w) ∷ t) v d h off = elim (Bool-cases (j =ₛ k)) [
    | inl same ↦
        let key = (eq_iff j k).0 same in
        let gone : lookup k (select_where p t) ≡ none =
          rw (← key) (lookup-select_where-none p j t d.0) in
        ground (arith, key, gone)
    | inr other ↦
        let rest = lookup-select_where_miss p k t v d.1 (rw other at h) off in
        ground (arith, other, rest)
  ]
