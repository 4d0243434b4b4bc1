-- ===== src/Capabilities/Policy.antt =====
-- `CapabilityAuthorizer`, backend/capabilities/policy.py: the default-deny policy over the current
-- manifest of an App. What the manifest loader returns, the node types of the graph store and
-- `PurePosixPath.match` are arguments.
use ambient_agent.Prelude.{
  ◌-◌, String, Bool, true, false, ◌&&◌, Option, none, some, List, [], ◌∷◌, ◌=ₛ◌, if◌then◌else◌, any,
  leb, map,
}
use ambient_agent.Prelude.Texts.{Text, same_text}
use ambient_agent.Prelude.Table.{Table, lookup}
use ambient_agent.Json.{Json, Items, nil, cons, Fields, str, obj, arr, null, get_or}
use ambient_agent.Capabilities.Grants.{
  Source, Manifest, Verdict, denied, granted, capability_scope_denied, demand, grant_of,
  entities_of, operations_of, edge_types_of, sources_of, catalog_ids_of, actions_of, ◌>>=◌, ◌>>◌,
}

-- `value in texts`, of a value that is a text.
unfoldable pub member : String → List String → Bool
member s texts = any (λ t. t =ₛ s) texts

unfoldable pub is_member : Json → List String → Bool
unfolding member
is_member (str s) texts = member s texts
is_member v texts = false

abbrev pub target_type_of : Json → Json
target_type_of (obj include) = get_or include "target_type" null
target_type_of v = null

-- The loop over the includes.
unfoldable pub authorize_includes : List String → Items → Verdict (Unit {0})
unfolding is_member
authorize_includes allowed nil = granted tt
authorize_includes allowed (cons include includes) = do
  demand (is_member (target_type_of include) allowed) capability_scope_denied
  authorize_includes allowed includes

unfoldable pub authorize_include_field : List String → Json → Verdict (Unit {0})
unfolding authorize_includes
authorize_include_field allowed (arr includes) = authorize_includes allowed includes
authorize_include_field allowed v = denied capability_scope_denied

unfoldable pub authorize_query_scope : List String → Json → Verdict (Unit {0})
unfolding authorize_include_field
authorize_query_scope allowed (obj query) = do
  demand (is_member (get_or query "type" null) allowed) capability_scope_denied
  authorize_include_field allowed (get_or query "include" (arr nil))
authorize_query_scope allowed v = denied capability_scope_denied

unfoldable pub authorize_graph_query :
    Option Manifest → Json → Option String → Option String → Verdict (Unit {0})
unfolding grant_of authorize_query_scope
authorize_graph_query loaded query revision digest = do
  grant ← grant_of loaded "graph.query" revision digest
  authorize_query_scope (entities_of grant) query

module _ (node_type_loader : String → Option String) where
  -- The type of a node: of an earlier action of the batch, else of the store.
  unfoldable pub known_type : Table String → Json → Option String
  unfolding lookup
  known_type known (str id) = elim (lookup id known) [
    | none ↦ node_type_loader id
    | some t ↦ some t
  ]
  known_type known v = none

abbrev pub type_allowed : List String → Option String → Bool
type_allowed entities none = false
type_allowed entities (some t) = member t entities

-- `entity is not None and entity not in entities`, negated.
abbrev pub entity_allowed : List String → Option String → Bool
entity_allowed entities none = true
entity_allowed entities (some t) = member t entities

abbrev pub created_allowed : List String → Json → Bool
created_allowed entities null = true
created_allowed entities v = is_member v entities

-- The types that a `create_node` makes known.
abbrev pub remember : Json → Json → Table String → Table String
remember (str id) (str t) known = (id, t) ∷ known
remember id t known = known

-- The kinds of actions that the policy tells apart.
pub data Kind : Type 0 where
  creates_node updates_node deletes_node creates_edge deletes_edge unknown : Kind

unfoldable pub kind_named : String → Kind
kind_named name =
    if name =ₛ "create_node"
    then creates_node
    else if name =ₛ "update_node_property"
    then updates_node
    else if name =ₛ "delete_node"
    then deletes_node
    else if name =ₛ "create_edge"
    then creates_edge
    else if name =ₛ "delete_edge"
    then deletes_edge
    else unknown

abbrev pub kind_of_json : Json → Kind
kind_of_json (str name) = kind_named name
kind_of_json v = unknown

abbrev pub kind_of : Fields → Kind
kind_of action = kind_of_json (get_or action "action" null)

module _ (node_type_loader : String → Option String)
    (entities operations edge_types : List String) where
  unfoldable pub authorize_node : String → Json → Table String → Verdict (Unit {0})
  unfolding known_type
  authorize_node operation id known = do
    demand (member operation operations) capability_scope_denied
    demand (entity_allowed entities (known_type node_type_loader known id)) capability_scope_denied

  unfoldable pub authorize_edge : String → Fields → Table String → Verdict (Unit {0})
  unfolding known_type
  authorize_edge operation action known = do
    demand (is_member (get_or action "type" null) edge_types) capability_scope_denied
    demand
        (type_allowed entities (known_type node_type_loader known (get_or action "from_id" null))
          && type_allowed entities (known_type node_type_loader known (get_or action "to_id" null)))
        capability_scope_denied
    demand (member operation operations) capability_scope_denied

  -- The body of the loop: the types that are known after the action.
  unfoldable pub authorize_kind : Kind → Fields → Table String → Verdict (Table String)
  authorize_kind creates_node action known = do
    demand (member "create" operations) capability_scope_denied
    demand (created_allowed entities (get_or action "type" null)) capability_scope_denied
    granted (remember (get_or action "id" null) (get_or action "type" null) known)
  authorize_kind updates_node action known = do
    authorize_node "update" (get_or action "id" null) known
    granted known
  authorize_kind deletes_node action known = do
    authorize_node "delete" (get_or action "id" null) known
    granted known
  authorize_kind creates_edge action known = do authorize_edge "create" action known; granted known
  authorize_kind deletes_edge action known = do authorize_edge "delete" action known; granted known
  authorize_kind unknown action known = denied capability_scope_denied

  unfoldable pub authorize_actions : List Fields → Table String → Verdict (Unit {0})
  authorize_actions [] known = granted tt
  authorize_actions (action ∷ actions) known = do
    known' ← authorize_kind (kind_of action) action known
    authorize_actions actions known'

unfoldable pub authorize_graph_mutation :
    (String → Option String)
    → Option Manifest
    → List Fields
    → Option String
    → Option String
    → Verdict (Unit {0})
unfolding grant_of authorize_actions
authorize_graph_mutation node_type_loader loaded actions revision digest = do
  grant ← grant_of loaded "graph.mutate" revision digest
  authorize_actions node_type_loader (entities_of grant) (operations_of grant) (edge_types_of grant)
      actions []

unfoldable pub authorize_location :
    Option Manifest → String → Option String → Option String → Verdict (Unit {0})
unfolding grant_of member
authorize_location loaded operation revision digest = do
  grant ← grant_of loaded "device.location" revision digest
  demand (operation =ₛ "current" && member operation (operations_of grant)) capability_scope_denied

-- `method.upper()`, in ASCII.
abbrev pub upper : Text → Text
upper method = map (λ c. if leb 97 c && leb c 122 then c - 32 else c) method

abbrev pub text_member : Text → List Text → Bool
text_member t texts = any (λ s. same_text s t) texts

abbrev source_for : Option Source → Text → Text → Verdict Source
source_for none path method = denied capability_scope_denied
source_for (some source) path method =
    if text_member path source.paths && text_member (upper method) source.methods
    then granted source
    else denied capability_scope_denied

unfoldable pub authorize_network_request :
    Option Manifest → String → Text → Text → Option String → Option String → Verdict Source
unfolding grant_of lookup
authorize_network_request loaded source_id path method revision digest = do
  grant ← grant_of loaded "network.request" revision digest
  source_for (lookup source_id (sources_of grant)) path method

unfoldable pub authorize_invocation :
    Option Manifest → String → String → Option String → Option String → Verdict (Unit {0})
unfolding grant_of member
authorize_invocation loaded catalog_id action_id revision digest = do
  grant ← grant_of loaded "capability.invoke" revision digest
  demand (member catalog_id (catalog_ids_of grant) && member action_id (actions_of grant))
      capability_scope_denied
