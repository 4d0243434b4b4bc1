-- ===== src/Prelude/Table.antt =====
-- A SQL table whose primary key is a text: an association list in insertion order.
use ambient_agent.Prelude.Tests.{◌=ₛ◌, if◌then◌else◌}
use Prim.Native.String.{String}
use Prim.Native.Nat.{ℕ, suc}
use mathlib.Core.Path.{◌≡◌, refl}
use mathlib.Core.Bool.{Bool, true, false, ◌||◌}
use mathlib.Core.List.{List, [], ◌∷◌}
use mathlib.Core.Option
use mathlib.Core.Option.{Option, none, some}
use native.Mathlib.Omega.{arith}
use text.Mathlib.TextEquality.{eq_iff}

abbrev pub Table {ℓ} : Type ℓ → Type ℓ
Table V = List (String × V)

module _ {ℓ} {V : Type ℓ} where
  -- SELECT * FROM t WHERE id=?
  unfoldable pub lookup : String → Table V → Option V
  lookup k [] = none
  lookup k ((j, v) ∷ t) = if j =ₛ k then some v else lookup k t

  -- UPDATE t SET ... WHERE p: each row that passes the test is rewritten.
  unfoldable pub update_where : (String → V → Bool) → (V → V) → Table V → Table V
  update_where p f [] = []
  update_where p f ((j, v) ∷ t) = (j, if p j v then f v else v) ∷ update_where p f t

  -- UPDATE t SET ... WHERE id=?
  unfoldable pub update : String → (V → V) → Table V → Table V
  unfolding update_where
  update k f t = update_where (λ j v. j =ₛ k) f t

  -- SELECT COUNT(*) FROM t WHERE p
  unfoldable pub count : (String → V → Bool) → Table V → ℕ
  count p [] = 0
  count p ((j, v) ∷ t) = let rest = count p t in if p j v then suc rest else rest

  -- SELECT 1 FROM t WHERE p
  unfoldable pub exists : (String → V → Bool) → Table V → Bool
  exists p [] = false
  exists p ((j, v) ∷ t) = p j v || exists p t

  -- SELECT * FROM t WHERE p
  unfoldable pub select_where : (String → V → Bool) → Table V → Table V
  select_where p [] = []
  select_where p ((j, v) ∷ t) = let rest = select_where p t in if p j v then (j, v) ∷ rest else rest

  -- What an update does to the row of a key, whatever the test reads.
  abbrev pub changed : (String → V → Bool) → (V → V) → String → V → V
  changed p f k v = if p k v then f v else v

  pub lookup-update_where :
      (p : String → V → Bool) (f : V → V) (k : String) (t : Table V)
      → lookup k (update_where p f t) ≡ Option.map (changed p f k) (lookup k t)
  unfolding lookup update_where
  lookup-update_where p f k [] = refl
  lookup-update_where p f k ((j, v) ∷ t) = ground (arith, eq_iff j k, lookup-update_where p f k t)

  pub lookup-update :
      (k j : String) (f : V → V) (t : Table V)
      → lookup j (update k f t) ≡ Option.map (λ v. if j =ₛ k then f v else v) (lookup j t)
  unfolding update
  lookup-update k j f t = lookup-update_where (λ i v. i =ₛ k) f j t

  pub lookup-select_where :
      (p : String → V → Bool) (k : String) (t : Table V) (v : V)
      → lookup k t ≡ some v
      → p k v ≡ true
      → lookup k (select_where p t) ≡ some v
  unfolding lookup select_where
  lookup-select_where p k [] v h ok = ground arith
  lookup-select_where p k ((j, w) ∷ t) v h ok =
      ground (arith, eq_iff j k, lookup-select_where p k t v)
