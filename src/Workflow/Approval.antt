-- ===== src/Workflow/Approval.antt =====
-- What the user must have approved before the workflow publishes an App or commits graph actions
-- (backend/agent/durable_workflow.py), and what of it each phase may rely on.
pub mod Phases
pub mod Widget
pub mod Counts
pub mod Failures
pub mod Publication
pub mod Runs
use ambient_agent.Prelude.{
  ℕ, suc, ◌≤◌, ◌≡◌, refl, ◌⊎◌, inl, inr, Bool, true, false, Option, none, some, List, [], ◌∷◌, ◌++◌,
  if◌then◌else◌,
}
use mathlib.Core.Path.{subst, sym, ap}
use ambient_agent.Prelude.Texts.{Text}
use ambient_agent.Json.{Json}
use ambient_agent.Workflow.{
  unlisted, approve, checked, noting, answered, Diff, Phase, route, clarify, converse, graph_query,
  graph_preflight, wait_graph_approval, graph_commit, multi_preflight, multi_dispatch, plan,
  wait_plan, align_schema, wait_schema, stage_code, verify, wait_override, promote, same_phase,
  Intent, Data, State, Failure, Reply, raised, returned, Event, plan_approved, schema_approved,
  app_verified, app_published, mutation_approved, mutation_committed, phase_retried, Ending,
  goes_to, waits, succeeds, fails, Reduced, ends, ends_with, reports, call, Response, Interaction,
  missing, unresolved, cancelled, resolved,
}

-- The event stands in the log, the latest first.
abbrev pub Has : Event → List Event → Type 0
Has e [] = ⊥
Has e (x ∷ log) = (e ≡ x) ⊎ Has e log

-- The user approved a plan.
abbrev pub Planned : List Event → Type 0
Planned log = (p : Text) × Has (plan_approved p) log

-- The user approved a proposal that has this contract.
abbrev pub Contracted : Json → List Event → Type 0
Contracted contract log = (approved : Json) × Has (schema_approved approved contract) log

-- The user's approval, read in a phase, is the last thing that happened.
abbrev pub ApprovedIn : Phase → List Event → Type 0
ApprovedIn p (answered q r ∷ log) = (q ≡ p) × (r.action ≡ approve)
ApprovedIn p log = ⊥

-- The last thing that happened is a clean verification of this artifact against this contract.
abbrev pub FoundClean : (staged contract : Json) → List Event → Type 0
FoundClean staged contract (checked x c d ∷ log) =
    (x ≡ staged) × (c ≡ contract) × (d.is_clean ≡ true)
FoundClean staged contract log = ⊥

-- What must come before an event.
abbrev pub Justifies : Event → List Event → Type 0
Justifies (app_published staged contract) log =
    Planned log × Contracted contract log × Has (app_verified staged contract) log
Justifies (mutation_committed actions) log = Has (mutation_approved actions) log
Justifies (plan_approved approved) log = ApprovedIn wait_plan log
Justifies (schema_approved approved contract) log = ApprovedIn wait_schema log
Justifies (mutation_approved actions) log = ApprovedIn wait_graph_approval log
Justifies (app_verified staged contract) log = FoundClean staged contract log
Justifies e log = Unit

abbrev pub Justified : List Event → Type 0
Justified [] = Unit
Justified (e ∷ log) = Justifies e log × Justified log

abbrev pub Approved : Option Json → List Event → Type 0
Approved none log = Unit
Approved (some actions) log = Has (mutation_approved actions) log

abbrev pub Held : Option Json → List Event → Type 0
Held none log = Unit
Held (some contract) log = Contracted contract log

abbrev pub Cleared : Option Json → Option Json → List Event → Type 0
Cleared none contract log = Unit
Cleared (some staged) none log = Unit
Cleared (some staged) (some contract) log = Has (app_verified staged contract) log

-- What a phase relies on.
abbrev pub Fits : Phase → Data → List Event → Type 0
Fits graph_commit d log = Approved d.graph_actions log
Fits align_schema d log = Planned log
Fits wait_schema d log = Planned log
Fits stage_code d log = Planned log × Held d.runtime_contract log
Fits verify d log = Planned log × Held d.runtime_contract log
Fits wait_override d log = Planned log × Held d.runtime_contract log
Fits promote d log =
    Planned log × Held d.runtime_contract log × Cleared d.staged_app d.runtime_contract log
Fits unlisted d log = ⊥
Fits p d log = Unit

-- The retries of a phase.
abbrev pub retries_of : Phase → List Event → ℕ
retries_of p [] = 0
retries_of p (phase_retried q ∷ log) =
    if same_phase q p then suc (retries_of p log) else retries_of p log
retries_of p (e ∷ log) = retries_of p log

-- The checkpoint counts the retries, and there are at most two for a phase.
abbrev pub Counted : Data → List Event → Type 0
Counted d log = (p : Phase) → (retries_of p log ≡ d.phase_retries p) × (retries_of p log ≤ 2)

-- An App was published; anything took effect.
abbrev pub published : List Event → Bool
published [] = false
published (app_published staged contract ∷ log) = true
published (e ∷ log) = published log

abbrev pub effected : List Event → Bool
effected [] = false
effected (app_published staged contract ∷ log) = true
effected (mutation_committed actions ∷ log) = true
effected (e ∷ log) = effected log

-- The checkpoint knows what took effect.
abbrev pub Recorded : Data → List Event → Type 0
Recorded d log =
    (effected log ≡ true → d.effects_committed ≡ true)
    × (published log ≡ true → d.non_compensable_effect ≡ true)

abbrev pub Tracked : Data → List Event → Type 0
Tracked d log = Counted d log × Recorded d log

abbrev pub Sound : Data → List Event → Type 0
Sound d log = Justified log × Tracked d log

-- A checkpoint in a phase, with what the phase relies on.
pub record Ready (p : Phase) (s : State) (log : List Event) : Type 0 where
  pub at : s.phase ≡ p
  pub fits : Fits p s.values log
  pub sound : Sound s.values log

abbrev pub Owed : Phase → State → List Event → Type 0
Owed p s log = (s.phase ≡ p) × Fits p s.values log × Sound s.values log

-- What a phase owes to the next one.
abbrev pub Owes : Phase → Ending → State → List Event → Type 0
Owes p (goes_to q) s log = Fits q s.values log × Sound s.values log
Owes p waits s log = Fits s.phase s.values log × Sound s.values log
Owes p succeeds s log = Sound s.values log
Owes p (fails f) s log = Owed p s log

pub record Keeps (p : Phase) (log : List Event) (r : Reduced) : Type 0 where
  pub keeps : Owes p r.ending r.state (r.events ++ log)

abbrev pub Planned-later : (e : Event) (log : List Event) → Planned log → Planned (e ∷ log)
Planned-later e log (p, h) = (p, inr h)

abbrev pub Held-later :
    (e : Event) (c : Option Json) (log : List Event) → Held c log → Held c (e ∷ log)
Held-later e none log h = tt
Held-later e (some c) log (approved, h) = (approved, inr h)

Cleared-later :
    (e : Event) (x c : Option Json) (log : List Event) → Cleared x c log → Cleared x c (e ∷ log)
Cleared-later e none c log h = tt
Cleared-later e (some x) none log h = tt
Cleared-later e (some x) (some c) log h = inr h

Approved-later :
    (e : Event) (x : Option Json) (log : List Event) → Approved x log → Approved x (e ∷ log)
Approved-later e none log h = tt
Approved-later e (some x) log h = inr h

-- What happened is not taken back.
Fits-later :
    (p : Phase) (d : Data) (e : Event) (log : List Event) → Fits p d log → Fits p d (e ∷ log)
Fits-later graph_commit d e log h = Approved-later e d.graph_actions log h
Fits-later align_schema d e log h = Planned-later e log h
Fits-later wait_schema d e log h = Planned-later e log h
Fits-later stage_code d e log (h, k) =
    (Planned-later e log h, Held-later e d.runtime_contract log k)
Fits-later verify d e log (h, k) = (Planned-later e log h, Held-later e d.runtime_contract log k)
Fits-later wait_override d e log (h, k) =
    (Planned-later e log h, Held-later e d.runtime_contract log k)
Fits-later promote d e log (h, k, l) = (
  Planned-later e log h,
  Held-later e d.runtime_contract log k,
  Cleared-later e d.staged_app d.runtime_contract log l,
)
Fits-later unlisted d e log h = h
Fits-later p d e log h = tt

Approved-some :
    (v : Option Json) (x : Json) (log : List Event)
    → v ≡ some x
    → Approved v log
    → Has (mutation_approved x) log
Approved-some v x log e h = subst (λ v. Approved v log) e h

Held-some :
    (v : Option Json) (x : Json) (log : List Event) → v ≡ some x → Held v log → Contracted x log
Held-some v x log e h = subst (λ v. Held v log) e h

Cleared-some :
    (v w : Option Json) (x c : Json) (log : List Event)
    → v ≡ some x
    → w ≡ some c
    → Cleared v w log
    → Has (app_verified x c) log
Cleared-some v w x c log e e1 h =
    subst (λ w. Cleared (some x) w log) e1 (subst (λ v. Cleared v w log) e h)

append_assoc : {A : Type 0} (xs ys zs : List A) → (xs ++ ys) ++ zs ≡ xs ++ (ys ++ zs)
append_assoc [] ys zs = refl
append_assoc (x ∷ xs) ys zs = ap (λ t. x ∷ t) (append_assoc xs ys zs)

module _ {p : Phase} {log : List Event} where
  pub kept : {r : Reduced} → Owes p r.ending r.state (r.events ++ log) → Keeps p log r
  kept o = record { keeps = o }

  owed : {s : State} → Ready p s log → Owed p s log
  owed h = (h.at, h.fits, h.sound)

  -- A call whose exception ends the phase.
  call-Keeps :
      {A : Type 0} {s : State} {next : A → Reduced} (reply : Reply A)
      → Ready p s log
      → ((x : A) → Keeps p log (next x))
      → Keeps p log (call s reply next)
  call-Keeps (raised f) h k = kept (owed h)
  call-Keeps (returned x) h k = k x

  interaction-Keeps :
      {m u c : Reduced} {next : Response → Reduced} (interaction : Interaction)
      → Keeps p log m
      → Keeps p log u
      → Keeps p log c
      → ((r : Response) → Keeps p log (next r))
      → Keeps p log
          (elim interaction [ missing ↦ m | unresolved ↦ u | cancelled ↦ c | resolved r ↦ next r ])
  interaction-Keeps missing m u c k = m
  interaction-Keeps unresolved m u c k = u
  interaction-Keeps cancelled m u c k = c
  interaction-Keeps (resolved r) m u c k = k r

  -- The two cases of an optional value, and of a test.
  option-Keeps :
      {A : Type 0} {none_case : Reduced} {some_case : A → Reduced} (v : Option A)
      → Keeps p log none_case
      → ((x : A) → v ≡ some x → Keeps p log (some_case x))
      → Keeps p log (elim v [ none ↦ none_case | some x ↦ some_case x ])
  option-Keeps none h k = h
  option-Keeps (some x) h k = k x refl

  if-Keeps :
      {yes no : Reduced} (b : Bool)
      → Keeps p log yes
      → Keeps p log no
      → Keeps p log (if b then yes else no)
  if-Keeps true h k = h
  if-Keeps false h k = k

  tested-Keeps :
      {yes no : Reduced} (b : Bool)
      → (b ≡ true → Keeps p log yes)
      → Keeps p log no
      → Keeps p log (if b then yes else no)
  tested-Keeps true h k = h refl
  tested-Keeps false h k = k

  noting-Keeps : (e : Event) {r : Reduced} → Keeps p (e ∷ log) r → Keeps p log (noting e r)
  noting-Keeps e {r} k =
      kept
        (subst (λ l. Owes p r.ending r.state l) (sym (append_assoc r.events (e ∷ []) log)) k.keeps)

  -- A response that was read, and a verification that was made, change nothing that a phase relies on.
  answered-Ready :
      {s : State} (q : Phase) (r : Response) → Ready p s log → Ready p s (answered q r ∷ log)
  answered-Ready {s} q r h = record {
    at = h.at;
    fits = Fits-later p s.values (answered q r) log h.fits;
    sound = ((tt, h.sound.0), h.sound.1);
  }

  checked-Ready :
      {s : State} (staged contract : Json) (d : Diff)
      → Ready p s log
      → Ready p s (checked staged contract d ∷ log)
  checked-Ready {s} staged contract d h = record {
    at = h.at;
    fits = Fits-later p s.values (checked staged contract d) log h.fits;
    sound = ((tt, h.sound.0), h.sound.1);
  }

  list-Keeps :
      {A : Type 0} {empty more : Reduced} (xs : List A)
      → Keeps p log empty
      → Keeps p log more
      → Keeps p log (elim xs [ [] ↦ empty | x ∷ rest ↦ more ])
  list-Keeps [] h k = h
  list-Keeps (x ∷ xs) h k = k
