-- ===== src/Lb.antt =====
-- forward/lb: what the package takes from github.com/xgfone/go-loadbalancer, which is not part of
-- the repository, and the types that groups and forwarders share (backend.go, forward.go).
pub mod Updates
pub mod BackendGroup
pub mod Group
pub mod Heap
pub mod Forwarder
pub mod Membership
pub mod Endpoints
pub mod GroupManager
pub mod Gateway
pub mod HttpBackend
pub mod NoopBackend
pub mod Request
pub mod Builder
use apigw.Common.{
  String, ◌==◌, if◌then◌else◌, Bool, true, false, ℕ, List, [], ◌∷◌, Option, none, some, or_else,
  ◌≡◌, refl, nat_eq,
}
use apigw.Dict.{Dict}

-- An `lb.Endpoint`, which has a fixed id, or a pointer to a `GroupBackend`, whose id is its name.
pub data Backend (E : Type 0) : Type 0 where
  endpoint : String → E → Backend E
  group : String → ℕ → Backend E

unfoldable pub backend_id : {E : Type 0} → Backend E → String
backend_id (endpoint id e) = id
backend_id (group name ref) = name

-- `K` is the type of checkers, `D` that of their durations; a nil checker is `none`.
pub record BackendInfo (E K D : Type 0) : Type 0 where
  pub online : Bool
  pub backend : Backend E
  pub checker : Option K
  pub duration : D

-- The calls of `loadbalancer.LoadBalancer` that add and remove endpoints, and whether it has an
-- endpoint with an id.
pub record Balancer (E L : Type 0) : Type 0 where
  pub add_endpoint : Backend E → L → L
  pub del_endpoint_by_id : String → L → L
  pub has_endpoint : String → L → Bool

-- The documented effect of those calls: the endpoints are a set by their ids.
pub record BalancerLaws {E L : Type 0} (b : Balancer E L) : Type 0 where
  pub has-add :
      (e : Backend E) (id : String) (l : L)
      → b.has_endpoint id (b.add_endpoint e l)
        ≡ (if backend_id e == id then true else b.has_endpoint id l)
  pub has-del :
      (k id : String) (l : L)
      → b.has_endpoint id (b.del_endpoint_by_id k l)
        ≡ (if k == id then false else b.has_endpoint id l)

-- The calls of `loadbalancer.HealthCheck`. `GetEndpoints` gives each endpoint with its health.
pub record HealthCheck (E K D H : Type 0) : Type 0 where
  pub new : H
  pub add_endpoint : Backend E → K → D → H → H
  pub del_endpoint_by_id : String → H → H
  pub is_healthy : String → H → Bool
  pub get_endpoints : H → List (Backend E × Bool)
  pub stop : H → H

-- The load balancers of the forwarders, by the address of the forwarder. A `forwardUpdater` is that
-- address.
abbrev pub Balancers : Type 0 → Type 0
Balancers L = ℕ → L

abbrev pub update : {L : Type 0} → ℕ → (L → L) → Balancers L → Balancers L
update u f s v = if nat_eq u v then f (s v) else s v

-- `forwardUpdater.AddBackend` and `forwardUpdater.DelBackendByID`
module _ {E L : Type 0} (lb : Balancer E L) where
  unfoldable pub add_backend : ℕ → Backend E → Balancers L → Balancers L
  add_backend u b = update u (lb.add_endpoint b)

  unfoldable pub del_backend_by_id : ℕ → String → Balancers L → Balancers L
  del_backend_by_id u id = update u (lb.del_endpoint_by_id id)

  -- `for _, u := range us { u.AddBackend(b) }`
  unfoldable pub add_to_all : Backend E → Dict ℕ → Balancers L → Balancers L
  unfolding add_backend
  add_to_all b [] s = s
  add_to_all b ((name, u) ∷ us) s = add_to_all b us (add_backend u b s)

  -- `for _, u := range us { u.DelBackendByID(id) }`
  unfoldable pub del_from_all : String → Dict ℕ → Balancers L → Balancers L
  unfolding del_backend_by_id
  del_from_all id [] s = s
  del_from_all id ((name, u) ∷ us) s = del_from_all id us (del_backend_by_id u id s)

-- A Go map that may be nil: reading, deleting and ranging take nil for an empty map.
abbrev pub entries : {V : Type 0} → Option (Dict V) → Dict V
entries m = or_else m []
