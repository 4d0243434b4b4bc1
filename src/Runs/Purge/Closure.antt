-- ===== src/Runs/Purge/Closure.antt =====
-- The rounds of `_session_run_rows` reach a fixed point, and a purge leaves no dangling reference.
use ambient_agent.Prelude.{
  ℕ, zero, suc, ◌+◌, ◌≤◌, ◌<◌, String, ◌≡◌, refl, ap, ◌∙◌, sym, ◌⊎◌, inl, inr, Bool, true, some, [],
  ◌∷◌, length, arith, eq_iff, leb, ◌=ₛ◌, text_refl, Bool-cases,
}
use ambient_agent.Prelude.Table.{Table, lookup, select_where, lookup-select_where}
use ambient_agent.Prelude.Keys.{Distinct}
use ambient_agent.Runs.Rows.{Run}
use ambient_agent.Runs.Purge.{has_id, joins, next_round, rounds}

module _ {ℓ} {V : Type ℓ} where
  length-select_where : (p : String → V → Bool) (t : Table V) → length (select_where p t) ≤ length t
  unfolding select_where
  length-select_where p [] = omega arith
  length-select_where p ((k, v) ∷ t) = ground (arith, length-select_where p t)

  -- The second test passes every row of the table that the first passes.
  abbrev Wider : (String → V → Bool) → (String → V → Bool) → Table V → Type ℓ
  Wider p q [] = Unit
  Wider p q ((k, v) ∷ t) = (p k v ≡ true → q k v ≡ true) × Wider p q t

  Wider-grows :
      (p q : String → V → Bool) (t : Table V)
      → Wider p q t
      → length (select_where p t) ≤ length (select_where q t)
  unfolding select_where
  Wider-grows p q [] w = omega arith
  Wider-grows p q ((k, v) ∷ t) w = ground (arith, Wider-grows p q t w.1, w.0)

  -- If it selects no more rows, it selects the same.
  Wider-same :
      (p q : String → V → Bool) (t : Table V)
      → Wider p q t
      → length (select_where q t) ≤ length (select_where p t)
      → select_where q t ≡ select_where p t
  unfolding select_where
  Wider-same p q [] w h = refl
  Wider-same p q ((k, v) ∷ t) w h =
      let rest = Wider-same p q t w.1 in
      let grown = Wider-grows p q t w.1 in
      elim (Bool-cases (p k v)) [
        | inl hit ↦ let hit' = w.0 hit in ground (arith, rest, grown, hit, hit')
        | inr miss ↦ elim (Bool-cases (q k v)) [
          | inl more ↦ ground (arith, rest, grown, miss, more)
          | inr none' ↦ ground (arith, rest, grown, miss, none')
        ]
      ]

  Wider-of :
      (p q : String → V → Bool) (t : Table V)
      → Distinct t
      → ((k : String) (v : V) → lookup k t ≡ some v → p k v ≡ true → q k v ≡ true)
      → Wider p q t
  unfolding lookup
  Wider-of p q [] d h = tt
  Wider-of p q ((k, v) ∷ t) d h = (
    h k v (rw (text_refl k) refl),
    Wider-of p q t d.1 λ j w e ok.
        h j w
          (elim (Bool-cases (k =ₛ j)) [
            | inl same ↦ ground (arith, (eq_iff k j).0 same, d.0, e)
            | inr other ↦ rw other e
          ])
          ok,
  )

module _ (session : String) (runs : Table Run) (d : Distinct runs) where
  -- A table that some test selects.
  abbrev Stage : Table Run → Type 0
  Stage t = (p : String → Run → Bool) × (t ≡ select_where p runs)

  stage-Wider :
      (t : Table Run) (p : String → Run → Bool)
      → t ≡ select_where p runs
      → Wider p (joins session t) runs
  unfolding joins has_id
  stage-Wider t p e = Wider-of p (joins session t) runs d λ k v found ok.
      let kept : lookup k t ≡ some v = rw e (lookup-select_where p k runs v found ok) in
      ground (arith, kept)

  -- A round is the last, or adds a row.
  round-progress :
      (t : Table Run)
      → Stage t
      → (next_round session runs t ≡ t) ⊎ (length t < length (next_round session runs t))
  unfolding next_round
  round-progress t (p, e) =
      let w = stage-Wider t p e in
      let same = Wider-same p (joins session t) runs w in
      let grown = Wider-grows p (joins session t) runs w in
      elim (Bool-cases
        (leb (length (select_where (joins session t) runs)) (length (select_where p runs)))) [
          | inl few ↦ inl (same (ground (arith, few)) ∙ sym e)
          | inr many ↦ inr (rw (ap length e) (ground (arith, many)))
        ]

  rounds-fixed :
      (n : ℕ) (t : Table Run) → next_round session runs t ≡ t → rounds n session runs t ≡ t
  unfolding rounds
  rounds-fixed zero t h = refl
  rounds-fixed (suc n) t h = ap (rounds n session runs) h ∙ rounds-fixed n t h

  pub rounds-enough :
      (n : ℕ) (t : Table Run)
      → Stage t
      → length runs ≤ length t + n
      → next_round session runs (rounds n session runs t) ≡ rounds n session runs t
  unfolding rounds next_round
  rounds-enough zero t st h = elim (round-progress t st) [
    | inl last ↦ last
    | inr more ↦ absurd (omega (arith, h, more, length-select_where (joins session t) runs))
  ]
  rounds-enough (suc n) t st h = elim (round-progress t st) [
    | inl last ↦
        let stay = ap (rounds n session runs) last ∙ rounds-fixed n t last in
        ap (next_round session runs) stay ∙ last ∙ sym stay
    | inr more ↦
        rounds-enough n (next_round session runs t) (joins session t, refl) (omega (arith, h, more))
  ]
