-- ===== src/Runs/Budget.antt =====
-- The limits of a Run's budget: `RunBudget` and the development policy (backend/run_service.py).
use ambient_agent.Prelude.{◌≡◌, refl, true, arith, ◌=ₛ◌, text_refl}
use ambient_agent.Runs.State.{
  AgentRunState, apply_development_budget_policy, release_default_model_turn_limit,
}

-- What the policy makes of a checkpoint.
pub record PolicyKeeps (s s' : AgentRunState) : Type 0 where
  pub explicit_kept : s.budget.model_turn_limit_explicit ≡ true → s' ≡ s
  pub route_kept : s.phase ≡ "route" → s' ≡ s
  pub limit_only :
      s' ≡ record s { budget = record s.budget { max_model_turns = s'.budget.max_model_turns } }
  pub repeated : apply_development_budget_policy s' ≡ s'

policy-explicit :
    (s : AgentRunState)
    → s.budget.model_turn_limit_explicit ≡ true
    → apply_development_budget_policy s ≡ s
unfolding apply_development_budget_policy release_default_model_turn_limit
policy-explicit s h = ground (arith, h)

policy-route : (s : AgentRunState) → s.phase ≡ "route" → apply_development_budget_policy s ≡ s
unfolding apply_development_budget_policy
policy-route s h = let same : (s.phase =ₛ "route") ≡ true = rw h (text_refl "route") in rw same refl

policy-limit :
    (s : AgentRunState)
    → apply_development_budget_policy s ≡ record s {
      budget = record s.budget {
        max_model_turns = (apply_development_budget_policy s).budget.max_model_turns;
      };
    }
unfolding apply_development_budget_policy release_default_model_turn_limit
policy-limit s = ground arith

policy-repeated :
    (s : AgentRunState)
    → apply_development_budget_policy (apply_development_budget_policy s)
      ≡ apply_development_budget_policy s
unfolding apply_development_budget_policy release_default_model_turn_limit
policy-repeated s = ground arith

-- The development policy leaves a checkpoint with an explicit turn limit, or in the route phase, as it
-- is; otherwise it changes nothing but the turn limit; and applying it again changes nothing more.
pub apply_development_budget_policy-PolicyKeeps :
    (s : AgentRunState) → PolicyKeeps s (apply_development_budget_policy s)
apply_development_budget_policy-PolicyKeeps s = record {
  explicit_kept = policy-explicit s;
  route_kept = policy-route s;
  limit_only = policy-limit s;
  repeated = policy-repeated s;
}
