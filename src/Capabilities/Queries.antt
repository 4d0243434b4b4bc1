-- ===== src/Capabilities/Queries.antt =====
-- Which graph queries an App may run: `authorize_graph_query` of backend/capabilities/policy.py.
use ambient_agent.Prelude.{String, ◌≡◌, refl, true, Option, List, arith, ◌↔◌}
use ambient_agent.Json.{Json, Items, nil, cons, obj, arr, null, get_or}
use ambient_agent.Capabilities.Grants.{
  Manifest, Grant, granted, demand-granted, >>=-granted, entities_of, Backed, grant_of-Backed,
  Backed-grant_of,
}
use ambient_agent.Capabilities.Policy.{
  is_member, target_type_of, authorize_includes, authorize_include_field, authorize_query_scope,
  authorize_graph_query,
}

abbrev pub IncludesInScope : List String → Items → Type 0
IncludesInScope entities nil = Unit
IncludesInScope entities (cons include includes) =
    (is_member (target_type_of include) entities ≡ true) × IncludesInScope entities includes

abbrev pub IncludeFieldInScope : List String → Json → Type 0
IncludeFieldInScope entities (arr includes) = IncludesInScope entities includes
IncludeFieldInScope entities v = ⊥

-- The root type and the target of every include are granted entities.
abbrev pub QueryInScope : List String → Json → Type 0
QueryInScope entities (obj query) =
    (is_member (get_or query "type" null) entities ≡ true)
    × IncludeFieldInScope entities (get_or query "include" (arr nil))
QueryInScope entities v = ⊥

includes-InScope :
    (entities : List String) (includes : Items)
    → (authorize_includes entities includes ≡ granted tt) ↔ IncludesInScope entities includes
unfolding authorize_includes
includes-InScope entities nil = (λ h. tt, λ h. refl)
includes-InScope entities (cons include includes) = (
  λ h.
      let parts = demand-granted _ _ _ h in
      (parts.0, (includes-InScope entities includes).0 parts.1),
  λ h. ground (arith, h.0, (includes-InScope entities includes).1 h.1),
)

field-InScope :
    (entities : List String) (v : Json)
    → (authorize_include_field entities v ≡ granted tt) ↔ IncludeFieldInScope entities v
unfolding authorize_include_field
field-InScope entities (arr includes) = includes-InScope entities includes
field-InScope entities null = (λ h. ground arith, λ h. absurd h)
field-InScope entities v = (λ h. ground arith, λ h. absurd h)

query-InScope :
    (entities : List String) (query : Json)
    → (authorize_query_scope entities query ≡ granted tt) ↔ QueryInScope entities query
unfolding authorize_query_scope
query-InScope entities (obj query) = (
  λ h.
      let parts = demand-granted _ _ _ h in
      (parts.0, (field-InScope entities (get_or query "include" (arr nil))).0 parts.1),
  λ h. ground (arith, h.0, (field-InScope entities (get_or query "include" (arr nil))).1 h.1),
)
query-InScope entities null = (λ h. ground arith, λ h. absurd h)
query-InScope entities v = (λ h. ground arith, λ h. absurd h)

-- A query is authorized exactly when the App has a `graph.query` grant in its current manifest, no
-- given snapshot is stale, and the root type of the query and the target type of every include are
-- entities of that grant.
pub authorize_graph_query_iff :
    (loaded : Option Manifest) (query : Json) (revision digest : Option String)
    → (authorize_graph_query loaded query revision digest ≡ granted tt) ↔ (
        (g : Grant) × Backed loaded "graph.query" revision digest g
        × QueryInScope (entities_of g) query)
unfolding authorize_graph_query
authorize_graph_query_iff loaded query revision digest = (
  λ h.
      let (g, first, rest) = >>=-granted _ _ h in
      (
        g,
        grant_of-Backed loaded "graph.query" revision digest g first,
        (query-InScope (entities_of g) query).0 rest,
      ),
  λ h. ground (
    arith,
    Backed-grant_of loaded "graph.query" revision digest h.0 h.1,
    (query-InScope (entities_of h.0) query).1 h.2,
  ),
)
