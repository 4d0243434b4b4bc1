-- ===== src/Capabilities/Grants.antt =====
-- Grants in their normal form (backend/capabilities/models.py) and the grant of a category in the
-- current manifest of an App (backend/capabilities/policy.py, `_manifest` and `_grant`).
use ambient_agent.Prelude.{
  ℕ, String, Bool, true, false, not, Option, none, some, List, [], ◌=ₛ◌, find?, ◌≡◌, refl, inl, inr,
  arith, Option-cases,
}
use ambient_agent.Prelude.Texts.{Text}

-- A source of network requests, with the fields that the policy reads.
pub record Source : Type 0 where
  pub base_url : Text
  pub paths : List Text
  pub methods : List Text
  pub response_limit : ℕ

-- `CapabilityGrant`: the scope of each category, as `_normalize_scope` builds it.
pub data Grant : Type 0 where
  graph_query : (entities : List String) → Grant
  graph_mutate : (entities operations edge_types : List String) → Grant
  device_location : (operations : List String) → Grant
  network_request : (sources : List (String × Source)) → Grant
  file_read : (paths : List Text) → Grant
  file_delete : (paths : List Text) → Grant
  file_write : (paths : List Text) → (max_bytes : ℕ) → Grant
  capability_invoke : (catalog_ids actions : List String) → Grant

abbrev pub id_of : Grant → String
id_of (graph_query _) = "graph.query"
id_of (graph_mutate _ _ _) = "graph.mutate"
id_of (device_location _) = "device.location"
id_of (network_request _) = "network.request"
id_of (file_read _) = "file.read"
id_of (file_delete _) = "file.delete"
id_of (file_write _ _) = "file.write"
id_of (capability_invoke _ _) = "capability.invoke"

-- `scope["entities"]` and the like; another category has no such field.
abbrev pub entities_of : Grant → List String
entities_of (graph_query entities) = entities
entities_of (graph_mutate entities _ _) = entities
entities_of _ = []

abbrev pub operations_of : Grant → List String
operations_of (graph_mutate _ operations _) = operations
operations_of (device_location operations) = operations
operations_of _ = []

abbrev pub edge_types_of : Grant → List String
edge_types_of (graph_mutate _ _ edge_types) = edge_types
edge_types_of _ = []

abbrev pub sources_of : Grant → List (String × Source)
sources_of (network_request sources) = sources
sources_of _ = []

abbrev pub paths_of : Grant → List Text
paths_of (file_read paths) = paths
paths_of (file_delete paths) = paths
paths_of (file_write paths _) = paths
paths_of _ = []

abbrev pub max_bytes_of : Grant → ℕ
max_bytes_of (file_write _ max_bytes) = max_bytes
max_bytes_of _ = 0

abbrev pub catalog_ids_of : Grant → List String
catalog_ids_of (capability_invoke catalog_ids _) = catalog_ids
catalog_ids_of _ = []

abbrev pub actions_of : Grant → List String
actions_of (capability_invoke _ actions) = actions
actions_of _ = []

-- A manifest; its capabilities are `none` where `normalize_grants` raises.
pub record Manifest : Type 0 where
  pub revision : Option String
  pub grants_digest : Option String
  pub capabilities : Option (List Grant)

-- The code of `CapabilityDenied`.
pub data Denial : Type 0 where
  app_manifest_unavailable manifest_revision_stale grants_digest_stale : Denial
  capability_contract_invalid capability_not_granted capability_scope_denied : Denial

pub data Verdict {ℓ} (A : Type ℓ) : Type ℓ where
  denied : Denial → Verdict A
  granted : A → Verdict A

infixl 5 ◌>>=◌ ◌>>◌
abbrev pub ◌>>=◌ {κ ℓ} : {B : Type κ} {A : Type ℓ} → Verdict B → (B → Verdict A) → Verdict A
denied code >>= next = denied code
granted value >>= next = next value

abbrev pub ◌>>◌ {ℓ} : {A : Type ℓ} → Verdict (Unit {0}) → Verdict A → Verdict A
denied code >> next = denied code
granted value >> next = next

-- `if not allowed: raise self._scope_denied(...)`
abbrev pub demand : Bool → Denial → Verdict (Unit {0})
demand true code = granted tt
demand false code = denied code

-- A successful sequence, taken apart.
pub demand-granted {ℓ} :
    {A : Type ℓ} (allowed : Bool) (code : Denial) (next : Verdict A) {a : A}
    → (demand allowed code >> next) ≡ granted a
    → (allowed ≡ true) × (next ≡ granted a)
demand-granted true code next h = (refl, h)
demand-granted false code next h = cc

pub seq-granted {ℓ} :
    {A : Type ℓ} (first : Verdict (Unit {0})) (next : Verdict A) {a : A}
    → (first >> next) ≡ granted a
    → (first ≡ granted tt) × (next ≡ granted a)
seq-granted (denied code) next h = cc
seq-granted (granted done) next h = (refl, h)

pub denied_granted : {A : Type 0} {code : Denial} {x : A} → denied code ≡ granted x → ⊥
denied_granted h = cc

pub >>=-granted :
    {A B : Type 0} (m : Verdict A) (f : A → Verdict B) {b : B}
    → (m >>= f) ≡ granted b
    → (a : A) × (m ≡ granted a) × (f a ≡ granted b)
>>=-granted (denied code) f h = absurd (denied_granted h)
>>=-granted (granted a) f h = (a, refl, h)

-- A snapshot that is given and differs from the manifest's, if that has one.
abbrev pub is_stale : Option String → Option String → Bool
is_stale (some given) (some current) = not (given =ₛ current)
is_stale given current = false

abbrev load : Option Manifest → Verdict Manifest
load none = denied app_manifest_unavailable
load (some m) = granted m

abbrev contract : Option (List Grant) → Verdict (List Grant)
contract none = denied capability_contract_invalid
contract (some grants) = granted grants

abbrev choose : Option Grant → Verdict Grant
choose none = denied capability_not_granted
choose (some g) = granted g

-- `_manifest`, of what the manifest loader returns for the App.
unfoldable pub current_manifest : Option Manifest → Option String → Option String → Verdict Manifest
current_manifest loaded manifest_revision grants_digest = do
  manifest ← load loaded
  demand (not (is_stale manifest_revision manifest.revision)) manifest_revision_stale
  demand (not (is_stale grants_digest manifest.grants_digest)) grants_digest_stale
  granted manifest

-- `_grant`
unfoldable pub grant_of : Option Manifest → String → Option String → Option String → Verdict Grant
unfolding current_manifest
grant_of loaded category_id revision grants_digest = do
  manifest ← current_manifest loaded revision grants_digest
  grants ← contract manifest.capabilities
  choose (find? (λ g. id_of g =ₛ category_id) grants)

-- What stands behind a grant: the App has a valid manifest, which no given snapshot contradicts, and
-- the grant is one of its own.
pub record Backed (loaded : Option Manifest) (category_id : String)
    (revision digest : Option String) (g : Grant) : Type 0 where
  pub manifest : Manifest
  pub grants : List Grant
  pub is_loaded : loaded ≡ some manifest
  pub is_valid : manifest.capabilities ≡ some grants
  pub is_found : find? (λ h. id_of h =ₛ category_id) grants ≡ some g
  pub same_revision : is_stale revision manifest.revision ≡ false
  pub same_digest : is_stale digest manifest.grants_digest ≡ false

pub grant_of-Backed :
    (loaded : Option Manifest) (category_id : String) (revision digest : Option String) (g : Grant)
    → grant_of loaded category_id revision digest ≡ granted g
    → Backed loaded category_id revision digest g
unfolding grant_of
grant_of-Backed none category_id revision digest g h = ground arith
grant_of-Backed (some m) category_id revision digest g h = elim (Option-cases m.capabilities) [
  | inl e ↦ ground (arith, e)
  | inr (grants, e) ↦ elim (Option-cases (find? (λ k. id_of k =ₛ category_id) grants)) [
    | inl f ↦ ground (arith, e, f)
    | inr (k, f) ↦
        let same : k ≡ g = ground (arith, e, f) in
        record {
          manifest = m;
          grants = grants;
          is_loaded = refl;
          is_valid = e;
          is_found = rw (← same) f;
          same_revision = ground (arith, e);
          same_digest = ground (arith, e);
        }
  ]
]

pub Backed-grant_of :
    (loaded : Option Manifest) (category_id : String) (revision digest : Option String) (g : Grant)
    → Backed loaded category_id revision digest g
    → grant_of loaded category_id revision digest ≡ granted g
unfolding grant_of
Backed-grant_of loaded category_id revision digest g b =
    ground (arith, b.is_loaded, b.is_valid, b.is_found, b.same_revision, b.same_digest)
