-- ===== src/Capabilities/Tests.antt =====
-- The policy of an App that keeps notes.
use ambient_agent.Prelude.{
  List, [], ◌∷◌, none, some, ◌≡◌, ◌↔◌, refl, any, ◌=ₛ◌, if◌then◌else◌, find?,
}
use ambient_agent.Prelude.Texts.{codes}
use ambient_agent.Json.{Json, Fields, obj, object, str, get, get_or}
use ambient_agent.Capabilities.Grants.{
  Grant, graph_query, graph_mutate, file_write, Manifest, Backed, granted, denied,
  capability_scope_denied, manifest_revision_stale, capability_not_granted, entities_of,
  operations_of, edge_types_of,
}
use ambient_agent.Capabilities.Policy.{
  authorize_kind, authorize_node, authorize_edge, member, is_member, authorize_graph_query,
  authorize_graph_mutation, authorize_location, kind_of, kind_named,
}
use ambient_agent.Capabilities.Queries.{QueryInScope, authorize_graph_query_iff}
use ambient_agent.Capabilities.Mutations.{
  NodeTypes, StaysInScope, creation, applied, authorize_graph_mutation-StaysInScope,
  create_node_retypes, retyping, update_node_retypes,
}

abbrev grants : List Grant
grants =
    graph_query ("Note" ∷ [])
    ∷ graph_mutate ("Note" ∷ []) ("create" ∷ "update" ∷ []) []
    ∷ file_write (codes "notes/**" ∷ []) 1024
    ∷ []

abbrev manifest : Manifest
manifest = record { revision = some "r1"; grants_digest = some "d1"; capabilities = some grants }

abbrev store : NodeTypes
store id = if id =ₛ "c1" then some "Contact" else if id =ₛ "n1" then some "Note" else none

-- Creates a note and changes it, and a note of the store.
abbrev batch : List Fields
batch =
    creation "n2" "Note"
    ∷ object (("action", str "update_node_property") ∷ ("id", str "n2") ∷ [])
    ∷ object (("action", str "update_node_property") ∷ ("id", str "n1") ∷ [])
    ∷ []

abbrev mutate_grant : Grant
mutate_grant = graph_mutate ("Note" ∷ []) ("create" ∷ "update" ∷ []) []

backed : Backed (some manifest) "graph.mutate" none (some "d1") mutate_grant
unfolding find?
backed = record {
  manifest = manifest;
  grants = grants;
  is_loaded = refl;
  is_valid = refl;
  is_found = refl;
  same_revision = refl;
  same_digest = refl;
}

foreign_node :
    authorize_graph_mutation store
      (some manifest)
      (object (("action", str "update_node_property") ∷ ("id", str "c1") ∷ []) ∷ [])
      none
      none
    ≡ denied capability_scope_denied
unfolding authorize_graph_mutation find? authorize_kind get_or get kind_named authorize_node
    authorize_edge member is_member any
foreign_node = refl

stale :
    authorize_location (some manifest) "current" (some "r0") none ≡ denied manifest_revision_stale
unfolding authorize_location find?
stale = refl

not_granted :
    authorize_location (some manifest) "current" (some "r1") none ≡ denied capability_not_granted
unfolding authorize_location find?
not_granted = refl

authorize_graph_mutation-StaysInScope_example :
    (g : Grant) × Backed (some manifest) "graph.mutate" none (some "d1") g
    × StaysInScope (entities_of g) (operations_of g) (edge_types_of g) batch store
unfolding authorize_graph_mutation find? authorize_kind get_or get kind_named authorize_node
    authorize_edge member is_member any
authorize_graph_mutation-StaysInScope_example =
    authorize_graph_mutation-StaysInScope store (some manifest) batch none (some "d1")
      (cc, (refl, (refl, tt))) refl

create_node_retypes_example :
    (authorize_graph_mutation store (some manifest) (creation "c1" "Note" ∷ []) none (some "d1")
      ≡ granted tt)
    × (applied (kind_of (creation "c1" "Note")) (creation "c1" "Note") store "c1" ≡ some "Note")
unfolding member any
create_node_retypes_example =
    create_node_retypes store (some manifest) none (some "d1") mutate_grant "c1" "Contact" "Note"
      backed refl refl refl refl

update_node_retypes_example :
    (authorize_graph_mutation store (some manifest) (retyping "n1" "Contact" ∷ []) none (some "d1")
      ≡ granted tt)
    × (applied (kind_of (retyping "n1" "Contact")) (retyping "n1" "Contact") store "n1"
        ≡ some "Contact")
unfolding member any
update_node_retypes_example =
    update_node_retypes store (some manifest) none (some "d1") mutate_grant "n1" "Note" "Contact"
      backed refl refl refl

abbrev notes_query : Json
notes_query = obj (object (("type", str "Note") ∷ []))

authorize_graph_query_iff_example :
    (authorize_graph_query (some manifest) notes_query none (some "d1") ≡ granted tt) ↔ (
      (g : Grant) × Backed (some manifest) "graph.query" none (some "d1") g
      × QueryInScope (entities_of g) notes_query)
authorize_graph_query_iff_example =
    authorize_graph_query_iff (some manifest) notes_query none (some "d1")
