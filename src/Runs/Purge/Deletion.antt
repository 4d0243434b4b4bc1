-- ===== src/Runs/Purge/Deletion.antt =====
-- What a purge deletes: ended Runs only, and with each Run all that refers to it.
use mathlib.Core.Path.{fun_ext}
use ambient_agent.Prelude.{
  ◌&&◌, select, select, String, ◌≡◌, refl, ap, ◌∙◌, sym, ◌⊎◌, inl, inr, Bool, true, false, not,
  none, some, List, [], ◌∷◌, length, arith, Bool-cases, Option-cases,
}
use ambient_agent.Prelude.Table.{Table, lookup, exists, select_where, lookup-select_where}
use ambient_agent.Prelude.Keys.{Distinct, lookup-select_where-none, lookup-select_where_miss}
use ambient_agent.Prelude.Counts.{exists-none}
use ambient_agent.Runs.Status.{is_active}
use ambient_agent.Runs.Rows.{Run, Interaction, Store}
use ambient_agent.Runs.Errors.{ok}
use ambient_agent.Runs.Purge.{
  has_id, is_child_of, joins, next_round, purge_session, delete_runs, session_run_rows,
  starts_session,
}
use ambient_agent.Runs.Purge.Closure.{rounds-enough}

lookup-selected {ℓ} :
    {V : Type ℓ} (p : String → V → Bool) (k : String) (t : Table V) (v : V)
    → Distinct t
    → lookup k (select_where p t) ≡ some v
    → (lookup k t ≡ some v) × (p k v ≡ true)
lookup-selected p k t v d h = elim (Option-cases (lookup k t)) [
  | inl e ↦ ground (arith, h, lookup-select_where-none p k t e)
  | inr (w, e) ↦ elim (Bool-cases (p k w)) [
    | inl hit ↦ ground (arith, e, h, hit, lookup-select_where p k t w e hit)
    | inr miss ↦ ground (arith, h, lookup-select_where_miss p k t w d e miss)
  ]
]

nothing-selected {ℓ} : {V : Type ℓ} (t : Table V) → [] ≡ select_where (λ k v. false) t
unfolding select_where
nothing-selected [] = refl
nothing-selected ((k, v) ∷ t) = nothing-selected t

module _ (session : String) (runs : Table Run) (d : Distinct runs) where
  abbrev gone : Table Run
  gone = session_run_rows session runs

  -- The rows of the session are closed under the query.
  gone-fixed : select_where (joins session gone) runs ≡ gone
  unfolding session_run_rows next_round
  gone-fixed =
      rounds-enough session runs d (length runs) [] ((λ k v. false), nothing-selected runs)
        (omega arith)

  joined-gone :
      (id : String) (r : Run)
      → lookup id runs ≡ some r
      → joins session gone id r ≡ true
      → lookup id gone ≡ some r
  joined-gone id r e h =
      ap (lookup id) (sym gone-fixed) ∙ lookup-select_where (joins session gone) id runs r e h

  kept-unjoined :
      (id : String) (r : Run)
      → lookup id runs ≡ some r
      → has_id gone id ≡ false
      → joins session gone id r ≡ false
  unfolding has_id
  kept-unjoined id r e free = elim (Bool-cases (joins session gone id r)) [
    | inr out ↦ out
    | inl in' ↦ let there = joined-gone id r e in' in ground (arith, there, free)
  ]

  gone-ended :
      (id : String) (r : Run)
      → exists (λ i x. is_active x.status) gone ≡ false
      → lookup id runs ≡ some r
      → has_id gone id ≡ true
      → is_active r.status ≡ false
  unfolding joins
  gone-ended id r quiet e h =
      exists-none (λ i x. is_active x.status) (joins session gone) runs id r
        (ap (exists (λ i x. is_active x.status)) gone-fixed ∙ quiet) e (rw h refl)

-- The Run was there, and is gone.
abbrev pub is_deleted : Store → Store → String → Bool
is_deleted s s' id = has_id s.runs id && not (has_id s'.runs id)

-- The store after a purge.
pub record Purged (session : String) (s s' : Store) : Type 0 where
  pub kept_rows : (id : String) (r : Run) → lookup id s'.runs ≡ some r → lookup id s.runs ≡ some r
  pub only_ended :
      (id : String) (r : Run)
      → lookup id s.runs ≡ some r
      → lookup id s'.runs ≡ none
      → is_active r.status ≡ false
  pub session_gone :
      (id : String) (r : Run) → lookup id s'.runs ≡ some r → starts_session session r ≡ false
  pub parents_kept :
      (id parent : String) (r x : Run)
      → lookup id s'.runs ≡ some r
      → (r.parent_run_id ≡ some parent) ⊎ (r.retry_of ≡ some parent)
      → lookup parent s.runs ≡ some x
      → lookup parent s'.runs ≡ some x
  pub questions_kept :
      (id : String) (i : Interaction) (x : Run)
      → Distinct s.interactions
      → lookup id s'.interactions ≡ some i
      → lookup i.run_id s.runs ≡ some x
      → lookup i.run_id s'.runs ≡ some x
  pub steps_left : s'.steps ≡ select (λ x. not (is_deleted s s' x.run_id)) s.steps
  pub questions_left :
      s'.interactions ≡ select_where (λ id i. not (is_deleted s s' i.run_id)) s.interactions
  pub grants_left : s'.grants ≡ select_where (λ id g. not (is_deleted s s' g.run_id)) s.grants
  pub events_left : s'.events ≡ select (λ e. not (is_deleted s s' e.run_id)) s.events

purge_session-ok :
    (session : String) (s s' : Store) (ids : List String)
    → purge_session session s ≡ ok (s', ids)
    → (exists (λ i x. is_active x.status) (session_run_rows session s.runs) ≡ false)
      × (s' ≡ delete_runs (session_run_rows session s.runs) s)
unfolding purge_session
purge_session-ok session s s' ids h = (ground arith, ground arith)

module _ (session : String) (s : Store) (d : Distinct s.runs) where
  abbrev out : String → Bool
  out id = has_id (session_run_rows session s.runs) id

  kept_row :
      (id : String) (x : Run)
      → lookup id s.runs ≡ some x
      → out id ≡ false
      → lookup id (delete_runs (session_run_rows session s.runs) s).runs ≡ some x
  unfolding delete_runs
  kept_row id x e free = lookup-select_where (λ j r. not (out j)) id s.runs x e (rw free refl)

  kept_row-old :
      (id : String) (x : Run)
      → lookup id (delete_runs (session_run_rows session s.runs) s).runs ≡ some x
      → (lookup id s.runs ≡ some x) × (out id ≡ false)
  unfolding delete_runs
  kept_row-old id x h =
      let (e, free) = lookup-selected (λ j r. not (out j)) id s.runs x d h in
      (e, ground (arith, free))

  kept_question :
      (id : String) (i : Interaction)
      → Distinct s.interactions
      → lookup id (delete_runs (session_run_rows session s.runs) s).interactions ≡ some i
      → out i.run_id ≡ false
  unfolding delete_runs
  kept_question id i di h =
      let (e, free) = lookup-selected (λ j x. not (out x.run_id)) id s.interactions i di h in
      ground (arith, free)

  gone_row :
      (id : String) (x : Run)
      → lookup id s.runs ≡ some x
      → out id ≡ true
      → lookup id (delete_runs (session_run_rows session s.runs) s).runs ≡ none
  unfolding delete_runs
  gone_row id x e hit = lookup-select_where_miss (λ j r. not (out j)) id s.runs x d e (rw hit refl)

  absent-out : (id : String) → lookup id s.runs ≡ none → out id ≡ false
  unfolding has_id
  absent-out id e =
      let gone-none : lookup id (session_run_rows session s.runs) ≡ none =
        ap (lookup id) (sym (gone-fixed session s.runs d))
        ∙ lookup-select_where-none (joins session (session_run_rows session s.runs)) id s.runs e in
      ground (arith, gone-none)

  -- A row of the query is a Run that is deleted.
  out-is_deleted :
      (id : String) → out id ≡ is_deleted s (delete_runs (session_run_rows session s.runs) s) id
  unfolding has_id
  out-is_deleted id = elim (Option-cases (lookup id s.runs)) [
    | inl e ↦ ground (arith, e, absent-out id e)
    | inr (r, e) ↦ elim (Bool-cases (out id)) [
      | inl hit ↦ ground (arith, e, hit, gone_row id r e hit)
      | inr free ↦ ground (arith, e, free, kept_row id r e free)
    ]
  ]

  same_runs : out ≡ is_deleted s (delete_runs (session_run_rows session s.runs) s)
  same_runs = fun_ext out-is_deleted

  delete_runs-Purged :
      exists (λ i x. is_active x.status) (session_run_rows session s.runs) ≡ false
      → Purged session s (delete_runs (session_run_rows session s.runs) s)
  unfolding joins is_child_of delete_runs
  delete_runs-Purged quiet = record {
    kept_rows = λ id r h. (kept_row-old id r h).0;
    only_ended = λ id r e missing. elim (Bool-cases (out id)) [
      | inl hit ↦ gone-ended session s.runs d id r quiet e hit
      | inr free ↦ ground (arith, kept_row id r e free, missing)
    ];
    session_gone = λ id r h.
        let (e, free) = kept_row-old id r h in
        let unjoined = kept-unjoined session s.runs d id r e free in ground (arith, unjoined);
    parents_kept = λ id parent r x h refers e'.
        let (e, free) = kept_row-old id r h in
        let unjoined = kept-unjoined session s.runs d id r e free in
        kept_row parent x e' (ground (arith, unjoined, refers));
    questions_kept = λ id i x di h e. kept_row i.run_id x e (kept_question id i di h);
    steps_left = ap (λ (p : String → Bool). select (λ x. not (p x.run_id)) s.steps) same_runs;
    questions_left =
        ap (λ (p : String → Bool). select_where (λ id i. not (p i.run_id)) s.interactions)
          same_runs;
    grants_left =
        ap (λ (p : String → Bool). select_where (λ id g. not (p g.run_id)) s.grants) same_runs;
    events_left = ap (λ (p : String → Bool). select (λ e. not (p e.run_id)) s.events) same_runs;
  }

-- In a store of distinct Run ids, if `purge_session` succeeds, then every remaining row is as it was;
-- every Run that was deleted had ended; no remaining Run starts in the session, and none has a deleted
-- Run as its parent or as the Run that it retries; and the steps, the interactions, the grants and the
-- events that are left are exactly those of before, in their order, that belong to no deleted Run.
pub purge_session_purges :
    (session : String) (s s' : Store) (ids : List String)
    → Distinct s.runs
    → purge_session session s ≡ ok (s', ids)
    → Purged session s s'
purge_session_purges session s s' ids d h =
    let (quiet, w) = purge_session-ok session s s' ids h in
    coe 1 0 (j. Purged session s (w j)) (delete_runs-Purged session s d quiet)
