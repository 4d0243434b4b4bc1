-- ===== src/Capabilities/Mutations.antt =====
-- What an authorized batch of graph actions may touch, while the batch itself changes the node types
-- that the policy asks for (backend/capabilities/policy.py, `authorize_graph_mutation`; the effects
-- of the actions on the types are those of backend/graph_db.py, `apply_actions_atomic`).
use ambient_agent.Prelude.{
  String, ◌≡◌, ◌≢◌, refl, Bool, true, false, ◌&&◌, Option, none, some, List, [], ◌∷◌, ◌=ₛ◌,
  if◌then◌else◌, arith, eq_iff, inl, inr, Option-cases, All,
}
use mathlib.Core.Path.{subst, sym, ap}
use ambient_agent.Prelude.Table.{Table, lookup}
use ambient_agent.Json.{Json, Fields, str, null, obj, end, get, get_or, object}
use ambient_agent.Capabilities.Grants.{
  Manifest, Grant, demand-granted, seq-granted, denied_granted, >>=-granted, granted, entities_of,
  operations_of, edge_types_of, Backed, grant_of-Backed, Backed-grant_of,
}
use ambient_agent.Capabilities.Policy.{
  Kind, kind_named, creates_node, updates_node, deletes_node, creates_edge, deletes_edge, unknown,
  kind_of, member, is_member, known_type, type_allowed, entity_allowed, created_allowed, remember,
  authorize_node, authorize_edge, authorize_kind, authorize_actions, authorize_graph_mutation,
}

-- The type of each node of the graph.
abbrev pub NodeTypes : Type 0
NodeTypes = String → Option String

abbrev pub type_at : NodeTypes → Json → Option String
type_at types (str id) = types id
type_at types v = none

abbrev pub retype : Json → Json → NodeTypes → NodeTypes
retype (str id) (str t) types j = if id =ₛ j then some t else types j
retype id t types j = types j

abbrev pub forget : Json → NodeTypes → NodeTypes
forget (str id) types j = if id =ₛ j then none else types j
forget v types j = types j

-- An `update_node_property` that carries a type gives it to the node.
abbrev pub retyped : Option Json → Json → NodeTypes → NodeTypes
retyped none id types = types
retyped (some t) id types = retype id t types

-- The types after an action that was applied. A `create_node` on an existing id gives the node its
-- new type; ids are not empty.
abbrev pub applied : Kind → Fields → NodeTypes → NodeTypes
applied creates_node action types =
    retype (get_or action "id" null) (get_or action "type" (str "Generic")) types
applied updates_node action types = retyped (get "type" action) (get_or action "id" null) types
applied deletes_node action types = forget (get_or action "id" null) types
applied kind action types = types

-- A node that exists has a granted type.
abbrev pub InScope : List String → Option String → Type 0
InScope entities none = Unit
InScope entities (some t) = member t entities ≡ true

-- What an action needs of the scope of the grant, at the types of the moment.
abbrev pub Touches :
    (entities operations edge_types : List String) → Kind → Fields → NodeTypes → Type 0
Touches entities operations edge_types creates_node action types =
    (member "create" operations ≡ true) × (is_member (get_or action "type" null) entities ≡ true)
Touches entities operations edge_types updates_node action types =
    (member "update" operations ≡ true) × InScope entities (type_at types (get_or action "id" null))
Touches entities operations edge_types deletes_node action types =
    (member "delete" operations ≡ true) × InScope entities (type_at types (get_or action "id" null))
Touches entities operations edge_types creates_edge action types =
    (member "create" operations ≡ true)
    × (is_member (get_or action "type" null) edge_types ≡ true)
    × InScope entities (type_at types (get_or action "from_id" null))
    × InScope entities (type_at types (get_or action "to_id" null))
Touches entities operations edge_types deletes_edge action types =
    (member "delete" operations ≡ true)
    × (is_member (get_or action "type" null) edge_types ≡ true)
    × InScope entities (type_at types (get_or action "from_id" null))
    × InScope entities (type_at types (get_or action "to_id" null))
Touches entities operations edge_types unknown action types = ⊥

-- Each action of the batch stays in the scope when its turn comes.
abbrev pub StaysInScope :
    (entities operations edge_types : List String) → List Fields → NodeTypes → Type 0
StaysInScope entities operations edge_types [] types = Unit
StaysInScope entities operations edge_types (a ∷ actions) types =
    Touches entities operations edge_types (kind_of a) a types
    × StaysInScope entities operations edge_types actions (applied (kind_of a) a types)

-- A `create_node` that names its type, an `update_node_property` that does not.
abbrev pub NamesType : Kind → Fields → Type 0
NamesType creates_node action = get_or action "type" null ≢ null
NamesType updates_node action = get "type" action ≡ none
NamesType kind action = Unit

get_or-default :
    (d : Fields) (k : String) (v : Json) → get_or d k null ≢ null → get_or d k null ≡ get_or d k v
unfolding get_or
get_or-default d k v n = elim (Option-cases (get k d)) [
  | inl e ↦ absurd (n (ap (λ o. elim o [ none ↦ null | some w ↦ w ]) e))
  | inr (w, e) ↦ rw (get_or, e) refl
]

and_parts : (a b : Bool) → (a && b) ≡ true → (a ≡ true) × (b ≡ true)
and_parts a b h = ground arith

granted_injective : {x y : Table String} → granted x ≡ granted y → x ≡ y
granted_injective h = cc

-- What the policy knows of the types is right for every node that exists.
record Knows (loader : NodeTypes) (known : Table String) (types : NodeTypes) : Type 0 where
  right : (id t : String) → types id ≡ some t → known_type loader known (str id) ≡ some t

module _ (loader : NodeTypes) (entities operations edge_types : List String) where
  known-InScope :
      (known : Table String) (types : NodeTypes) (id : Json)
      → Knows loader known types
      → entity_allowed entities (known_type loader known id) ≡ true
      → InScope entities (type_at types id)
  known-InScope known types (str id) k h = elim (Option-cases (types id)) [
    | inl e ↦ rw e tt
    | inr (t, e) ↦ rw e (rw (k.right id t e) at h)
  ]
  known-InScope known types v k h = tt

  type-entity_allowed :
      (t : Option String) → type_allowed entities t ≡ true → entity_allowed entities t ≡ true
  type-entity_allowed none h = ground arith
  type-entity_allowed (some t) h = h

  remember-Knows :
      (known : Table String) (types : NodeTypes) (id t : Json)
      → Knows loader known types
      → Knows loader (remember id t known) (retype id t types)
  unfolding known_type
  remember-Knows known types (str id) (str t) k = record {
    right = λ j u e. ground (arith, eq_iff id j, k.right j u);
  }
  remember-Knows known types (str id) t k = k
  remember-Knows known types id t k = k

  forget-Knows :
      (known : Table String) (types : NodeTypes) (id : Json)
      → Knows loader known types
      → Knows loader known (forget id types)
  forget-Knows known types (str id) k = record {
    right = λ j u e. ground (arith, eq_iff id j, k.right j u);
  }
  forget-Knows known types id k = k

  created-is_member :
      (t : Json) → t ≢ null → created_allowed entities t ≡ true → is_member t entities ≡ true
  created-is_member null n h = absurd (n refl)
  created-is_member t n h = h

  node-Touches :
      (operation : String) (id : Json) (known : Table String) (types : NodeTypes)
      → Knows loader known types
      → authorize_node loader entities operations edge_types operation id known ≡ granted tt
      → (member operation operations ≡ true) × InScope entities (type_at types id)
  unfolding authorize_node
  node-Touches operation id known types k h =
      (ground arith, known-InScope known types id k (ground arith))

  edge-Touches :
      (operation : String) (action : Fields) (known : Table String) (types : NodeTypes)
      → Knows loader known types
      → authorize_edge loader entities operations edge_types operation action known ≡ granted tt
      → (member operation operations ≡ true)
        × (is_member (get_or action "type" null) edge_types ≡ true)
        × InScope entities (type_at types (get_or action "from_id" null))
        × InScope entities (type_at types (get_or action "to_id" null))
  unfolding authorize_edge
  edge-Touches operation action known types k h =
      let first = demand-granted _ _ _ h in
      let second = demand-granted _ _ _ first.1 in
      let from = known_type loader known (get_or action "from_id" null) in
      let to = known_type loader known (get_or action "to_id" null) in
      let ends = and_parts (type_allowed entities from) (type_allowed entities to) second.0 in
      (
        ground (arith, second.1),
        first.0,
        known-InScope known types (get_or action "from_id" null) k
            (type-entity_allowed from ends.0),
        known-InScope known types (get_or action "to_id" null) k (type-entity_allowed to ends.1),
      )

  -- What the loop's body has checked when it goes on.
  kind_step :
      (kind : Kind) (action : Fields) (known known' : Table String) (types : NodeTypes)
      → NamesType kind action
      → Knows loader known types
      → authorize_kind loader entities operations edge_types kind action known ≡ granted known'
      → Touches entities operations edge_types kind action types
        × Knows loader known' (applied kind action types)
  unfolding authorize_kind
  kind_step creates_node action known known' types n k h =
      let first = demand-granted _ _ _ h in
      let second = demand-granted _ _ _ first.1 in
      (
        (first.0, created-is_member (get_or action "type" null) n second.0),
        subst (λ m. Knows loader m (applied creates_node action types)) (granted_injective second.1)
            (subst
              (λ t.
                Knows loader (remember (get_or action "id" null) (get_or action "type" null) known)
                  (retype (get_or action "id" null) t types))
              (get_or-default action "type" (str "Generic") n)
              (remember-Knows known types (get_or action "id" null) (get_or action "type" null) k)),
      )
  kind_step updates_node action known known' types n k h =
      let parts = seq-granted _ _ h in
      (
        node-Touches "update" (get_or action "id" null) known types k parts.0,
        subst (λ o. Knows loader known' (retyped o (get_or action "id" null) types)) (sym n)
            (subst (λ m. Knows loader m types) (granted_injective parts.1) k),
      )
  kind_step deletes_node action known known' types n k h =
      let parts = seq-granted _ _ h in
      (
        node-Touches "delete" (get_or action "id" null) known types k parts.0,
        subst (λ m. Knows loader m (applied deletes_node action types)) (granted_injective parts.1)
            (forget-Knows known types (get_or action "id" null) k),
      )
  kind_step creates_edge action known known' types n k h =
      let parts = seq-granted _ _ h in
      (
        edge-Touches "create" action known types k parts.0,
        subst (λ m. Knows loader m types) (granted_injective parts.1) k,
      )
  kind_step deletes_edge action known known' types n k h =
      let parts = seq-granted _ _ h in
      (
        edge-Touches "delete" action known types k parts.0,
        subst (λ m. Knows loader m types) (granted_injective parts.1) k,
      )
  kind_step unknown action known known' types n k h = absurd (denied_granted h)

  actions-StaysInScope :
      (actions : List Fields) (known : Table String) (types : NodeTypes)
      → All (λ a. NamesType (kind_of a) a) actions
      → Knows loader known types
      → authorize_actions loader entities operations edge_types actions known ≡ granted tt
      → StaysInScope entities operations edge_types actions types
  unfolding authorize_actions
  actions-StaysInScope [] known types n k h = tt
  actions-StaysInScope (a ∷ actions) known types n k h =
      let (known', first, rest) = >>=-granted _ _ h in
      let step = kind_step (kind_of a) a known known' types n.0 k first in
      (step.0, actions-StaysInScope actions known' _ n.1 step.1 rest)

-- An authorized batch in which every `create_node` names its type and no `update_node_property` does:
-- the App has a `graph.mutate` grant
-- in its current, not stale manifest, and each action, at the node types of the moment when its turn
-- comes, has a granted operation, creates nodes of granted types only, touches existing nodes of
-- granted types only, and edges of granted edge types only.
pub authorize_graph_mutation-StaysInScope :
    (types : NodeTypes) (loaded : Option Manifest) (actions : List Fields)
    (revision digest : Option String)
    → All (λ a. NamesType (kind_of a) a) actions
    → authorize_graph_mutation types loaded actions revision digest ≡ granted tt
    → (g : Grant) × Backed loaded "graph.mutate" revision digest g
      × StaysInScope (entities_of g) (operations_of g) (edge_types_of g) actions types
unfolding authorize_graph_mutation known_type
authorize_graph_mutation-StaysInScope types loaded actions revision digest n h =
    let (g, first, rest) = >>=-granted _ _ h in
    (
      g,
      grant_of-Backed loaded "graph.mutate" revision digest g first,
      actions-StaysInScope types (entities_of g) (operations_of g) (edge_types_of g) actions []
          types n (record { right = λ id t e. e }) rest,
    )

-- `{"action": "create_node", "id": id, "type": t}`
abbrev pub creation : String → String → Fields
creation id t = object (("action", str "create_node") ∷ ("id", str id) ∷ ("type", str t) ∷ [])

-- An App that may create nodes of one type is allowed to create a node under the id of an existing
-- node whose type is not granted; the batch then gives that node the new type.
pub create_node_retypes :
    (types : NodeTypes) (loaded : Option Manifest) (revision digest : Option String) (g : Grant)
    (id old new : String)
    → Backed loaded "graph.mutate" revision digest g
    → member "create" (operations_of g) ≡ true
    → member new (entities_of g) ≡ true
    → types id ≡ some old
    → member old (entities_of g) ≡ false
    → (authorize_graph_mutation types loaded (creation id new ∷ []) revision digest ≡ granted tt)
      × (applied (kind_of (creation id new)) (creation id new) types id ≡ some new)
unfolding authorize_graph_mutation authorize_actions authorize_kind kind_named is_member get_or get
create_node_retypes types loaded revision digest g id old new b may fits found foreign = (
  ground (arith, Backed-grant_of loaded "graph.mutate" revision digest g b),
  ground (arith, eq_iff id id),
)

-- `{"action": "update_node_property", "id": id, "type": t, "properties": {}}`
abbrev pub retyping : String → String → Fields
retyping id t = object (
    ("action", str "update_node_property")
    ∷ ("id", str id)
    ∷ ("type", str t)
    ∷ ("properties", obj end)
    ∷ [])

-- An App that may update nodes of one type is allowed an update that carries any other type, granted
-- or not; the batch then gives the node that type, and what the policy loaded for it is out of date.
pub update_node_retypes :
    (types : NodeTypes) (loaded : Option Manifest) (revision digest : Option String) (g : Grant)
    (id old new : String)
    → Backed loaded "graph.mutate" revision digest g
    → member "update" (operations_of g) ≡ true
    → types id ≡ some old
    → member old (entities_of g) ≡ true
    → (authorize_graph_mutation types loaded (retyping id new ∷ []) revision digest ≡ granted tt)
      × (applied (kind_of (retyping id new)) (retyping id new) types id ≡ some new)
unfolding authorize_graph_mutation authorize_actions authorize_kind authorize_node known_type lookup
    kind_named is_member get_or get
update_node_retypes types loaded revision digest g id old new b may found owned = (
  ground (arith, Backed-grant_of loaded "graph.mutate" revision digest g b),
  ground (arith, eq_iff id id),
)
