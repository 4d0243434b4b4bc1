-- ===== src/Prelude/Counts.antt =====
-- What counts, tests and selections over a table say of the row of one key.
use ambient_agent.Prelude.Tests.{◌=ₛ◌, Bool-cases}
use ambient_agent.Prelude.Lists.{take, find?}
use ambient_agent.Prelude.Table.{Table, lookup, update_where, select_where, count, exists}
use ambient_agent.Prelude.Keys.{Distinct, AllFound}
use Prim.Native.String.{String}
use Prim.Native.Nat.{ℕ, zero, suc}
use mathlib.Core.Path.{◌≡◌, refl}
use mathlib.Core.Logic.{inl, inr}
use mathlib.Core.Bool.{Bool, true, false, ◌&&◌}
use mathlib.Core.List.{[], ◌∷◌}
use mathlib.Core.Option.{none, some}
use native.Mathlib.Omega.{arith}
use text.Mathlib.TextEquality.{eq_iff}

module _ {ℓ} {V : Type ℓ} where
  pub exists-none :
      (p q : String → V → Bool) (t : Table V) (k : String) (v : V)
      → exists p (select_where q t) ≡ false
      → lookup k t ≡ some v
      → q k v ≡ true
      → p k v ≡ false
  unfolding exists select_where lookup
  exists-none p q [] k v h found hit = ground arith
  exists-none p q ((j, w) ∷ t) k v h found hit = elim (Bool-cases (j =ₛ k)) [
    | inl same ↦ ground (arith, (eq_iff j k).0 same)
    | inr other ↦ exists-none p q t k v (ground arith) (rw other at found) hit
  ]

  pub find?-AllFound :
      (p : String × V → Bool) (q : String → V → Bool) (t rows : Table V) (k : String) (v : V)
      → find? p rows ≡ some (k, v)
      → AllFound t q rows
      → (lookup k t ≡ some v) × (q k v ≡ true)
  unfolding find?
  find?-AllFound p q t [] k v h d = ground arith
  find?-AllFound p q t ((j, w) ∷ rows) k v h d = elim (Bool-cases (p (j, w))) [
    | inl hit ↦ ground (arith, d.0, d.1)
    | inr miss ↦ find?-AllFound p q t rows k v (rw miss at h) d.2
  ]

  pub take-AllFound :
      (n : ℕ) (q : String → V → Bool) (t rows : Table V)
      → AllFound t q rows
      → AllFound t q (take n rows)
  take-AllFound zero q t rows d = tt
  take-AllFound (suc n) q t [] d = tt
  take-AllFound (suc n) q t ((k, v) ∷ rows) d = (d.0, d.1, take-AllFound n q t rows d.2)

module _ {ℓ} {V : Type ℓ} (p : String → V → Bool) (k : String) (q : V → Bool) (f : V → V) where
  count-update_where-none :
      (t : Table V)
      → lookup k t ≡ none
      → count p (update_where (λ j v. j =ₛ k && q v) f t) ≡ count p t
  unfolding count update_where lookup
  count-update_where-none [] h = refl
  count-update_where-none ((j, v) ∷ t) h = elim (Bool-cases (j =ₛ k)) [
    | inl same ↦ ground arith
    | inr other ↦
        let rest = count-update_where-none t (rw other at h) in ground (arith, rest, other)
  ]

  -- A row that begins to pass the test adds one to the count.
  pub count-update_where :
      (t : Table V) (v : V)
      → Distinct t
      → lookup k t ≡ some v
      → q v ≡ true
      → p k v ≡ false
      → p k (f v) ≡ true
      → count p (update_where (λ j w. j =ₛ k && q w) f t) ≡ suc (count p t)
  unfolding count update_where lookup
  count-update_where [] v d found ok off on = ground arith
  count-update_where ((j, w) ∷ t) v d found ok off on = elim (Bool-cases (j =ₛ k)) [
    | inl same ↦
        let key = (eq_iff j k).0 same in
        let fresh : lookup k t ≡ none = rw (← key) d.0 in
        ground (arith, key, count-update_where-none t fresh)
    | inr other ↦
        let rest = count-update_where t v d.1 (rw other at found) ok off on in
        ground (arith, rest, other)
  ]
