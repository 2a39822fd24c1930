-- ===== src/Lb/Gateway.antt =====
-- forward/lb/gateway.go: a gateway that keeps a manager of groups for each host.
pub mod Managed
pub mod Reach
pub mod Timeouts
pub mod Deletion
pub mod Policies
use apigw.Common.{String, if◌then◌else◌, Bool, ℕ, ◌+◌, List, [], ◌∷◌, Option, none, some}
use apigw.Common.Int.{ℤ, pos}
use apigw.Dict.{Dict, lookup, insert, delete, has, values}
use apigw.Types.{Outcome, returns, panic, ◌>>=◌, Result, ok, err, Err, Handler}
use apigw.Route.{Route}
use apigw.Route
use apigw.Ship.{Ship}
use apigw.Gateway.{Gateway, new_gateway}
use apigw.Gateway.Hosts
use apigw.Gateway.Hosts.{get_route}
use apigw.Lb.{Backend, BackendInfo, Balancer, HealthCheck}
use apigw.Lb.Heap.{Heap, put}
use apigw.Lb.Forwarder.{
  get_backends, get_max_timeout, set_max_timeout, add_backend_group, add_backend_with_checker,
  del_backend,
}
use apigw.Lb.GroupManager.{BackendGroupManager, new_backend_group_manager}
use apigw.Lb.GroupManager

-- The objects of the package, with the managers by their addresses.
pub record Store (E K D H L : Type 0) : Type 0 where
  pub heap : Heap E K D H L
  pub managers : ℕ → BackendGroupManager
  pub next_manager : ℕ

-- `Gateway`, with the gateway that it embeds
pub record LbGateway (W C R : Type 0) : Type 0 where
  pub gateway : Gateway W C R
  pub bgms : Dict ℕ

module _ {W C R : Type 0} where
  unfoldable pub get_backend_group_manager : String → LbGateway W C R → Option ℕ
  get_backend_group_manager host g = lookup host g.bgms

  unfoldable pub get_backend_group_managers : LbGateway W C R → List ℕ
  get_backend_group_managers g = values g.bgms

module _ {W C R Q : Type 0} (ship : Ship W C R Q) (not_found : Handler W) where
  unfoldable pub new_lb_gateway : LbGateway W C R
  unfolding new_gateway
  new_lb_gateway = record { gateway = new_gateway ship not_found; bgms = [] }

-- The state `W` of the handlers has a store in it, which `get` reads and `set` replaces.
module _ {E K D H L W C R Q : Type 0} (ship : Ship W C R Q) (lb : Balancer E L)
    (hc : HealthCheck E K D H) (get : W → Store E K D H L) (set : Store E K D H L → W → W) where
  -- The part of `AddHost` that holds the lock of this gateway.
  unfoldable pub add_manager : String → LbGateway W C R → W → LbGateway W C R × W
  unfolding new_backend_group_manager
  add_manager host g w = if has host g.bgms then (g, w) else (
    record g { bgms = insert host (get w).next_manager g.bgms },
    set
        (record (get w) {
          managers = put (get w).next_manager (new_backend_group_manager host) (get w).managers;
          next_manager = (get w).next_manager + 1;
        })
        w,
  )

  after_add : String → LbGateway W C R → W → Option Err → LbGateway W C R × W × Option Err
  unfolding add_manager
  after_add host g w (some e) = (g, w, some e)
  after_add host g w none = let (g', w') = add_manager host g w in (g', w', none)

  unfoldable pub add_host : String → LbGateway W C R → W → LbGateway W C R × W × Option Err
  unfolding after_add Hosts.add_host
  add_host host g w =
      let (gateway, e) = Hosts.add_host ship host g.gateway in
      after_add host (record g { gateway = gateway }) w e

  close_manager : ℕ → W → W
  unfolding GroupManager.close
  close_manager a w =
      let (m, hp) = GroupManager.close lb hc ((get w).managers a) (get w).heap in
      set (record (get w) { heap = hp; managers = put a m (get w).managers }) w

  -- The part of `DelHost` that holds the lock of this gateway.
  unfoldable pub del_manager : String → LbGateway W C R → W → LbGateway W C R × W
  unfolding close_manager
  del_manager host g w = elim (lookup host g.bgms) [
    | none ↦ (g, w)
    | some a ↦ (record g { bgms = delete host g.bgms }, close_manager a w)
  ]

  after_del : String → LbGateway W C R → W → Option Err → LbGateway W C R × W × Option Err
  unfolding del_manager
  after_del host g w (some e) = (g, w, some e)
  after_del host g w none = let (g', w') = del_manager host g w in (g', w', none)

  unfoldable pub del_host :
      String → LbGateway W C R → W → Outcome (LbGateway W C R × W × Option Err)
  unfolding after_del Hosts.del_host
  del_host host g w = do
    t ← Hosts.del_host ship host g.gateway w
    returns (after_del host (record g { gateway = t.0 }) t.1 t.2)

-- `address` is the type assertion `.(*Forwarder)`: the address of a forwarder of this package.
module _ {W : Type 0} (address : Route.Forwarder W → Option ℕ) where
  forwarder_of : Option (Route.Forwarder W) → Outcome (Result ℕ)
  forwarder_of none = panic "interface conversion"
  forwarder_of (some f) = elim (address f) [
    | none ↦ panic "interface conversion"
    | some a ↦ returns (ok a)
  ]

  found : {C : Type 0} → Route W C × Option Err → Outcome (Result ℕ)
  unfolding forwarder_of
  found (r, some e) = returns (err e)
  found (r, none) = forwarder_of r.forwarder

  unfoldable pub get_route_forwarder :
      {C R : Type 0} → String → String → String → LbGateway W C R → Outcome (Result ℕ)
  unfolding found get_route
  get_route_forwarder host path method g = found (get_route host path method g.gateway)

module _ {A : Type 0} where
  -- A convenient function that reads a forwarder; `zero` is what it returns with an error.
  unfoldable pub read_route : A → (ℕ → A) → Outcome (Result ℕ) → Outcome (A × Option Err)
  read_route zero f (panic s) = panic s
  read_route zero f (returns (err e)) = returns (zero, some e)
  read_route zero f (returns (ok a)) = returns (f a, none)

module _ {E K D H L : Type 0} where
  -- A convenient function that calls a forwarder.
  unfoldable pub call_route :
      (ℕ → Heap E K D H L → Outcome (Heap E K D H L))
      → Outcome (Result ℕ)
      → Heap E K D H L
      → Outcome (Heap E K D H L × Option Err)
  call_route f (panic s) hp = panic s
  call_route f (returns (err e)) hp = returns (hp, some e)
  call_route f (returns (ok a)) hp = do hp' ← f a hp; returns (hp', none)

module _ {E K D H L W C R : Type 0} (address : Route.Forwarder W → Option ℕ)
    (host path method : String) (g : LbGateway W C R) where
  unfoldable pub get_route_max_timeout : Heap E K D H L → Outcome (ℤ × Option Err)
  unfolding read_route get_route_forwarder get_max_timeout
  get_route_max_timeout hp =
      read_route (pos 0) (λ f. get_max_timeout (hp.forwarders f))
        (get_route_forwarder address host path method g)

  unfoldable pub set_route_max_timeout : ℤ → Heap E K D H L → Outcome (Heap E K D H L × Option Err)
  unfolding call_route get_route_forwarder set_max_timeout
  set_route_max_timeout t hp =
      call_route
        (λ f hp.
          returns
            (record hp { forwarders = put f (set_max_timeout t (hp.forwarders f)) hp.forwarders }))
        (get_route_forwarder address host path method g) hp

  unfoldable pub get_route_backends :
      HealthCheck E K D H → Heap E K D H L → Outcome (List (BackendInfo E K D) × Option Err)
  unfolding read_route get_route_forwarder get_backends
  get_route_backends hc hp =
      read_route [] (λ f. get_backends hc (hp.forwarders f))
        (get_route_forwarder address host path method g)

module _ {E K D H L W C R : Type 0} (lb : Balancer E L) (hc : HealthCheck E K D H)
    (address : Route.Forwarder W → Option ℕ) (host path method : String) (g : LbGateway W C R) where
  -- The group is at address `group` and has the name `name`.
  unfoldable pub add_route_backend_group :
      String → ℕ → D → Heap E K D H L → Outcome (Heap E K D H L × Option Err)
  unfolding call_route get_route_forwarder add_backend_group
  add_route_backend_group name group zero hp =
      call_route (λ f. add_backend_group lb hc f name group zero)
        (get_route_forwarder address host path method g) hp

  unfoldable pub add_route_backend_with_checker :
      Backend E → Option K → D → D → Heap E K D H L → Outcome (Heap E K D H L × Option Err)
  unfolding call_route get_route_forwarder add_backend_with_checker
  add_route_backend_with_checker e k d zero hp =
      call_route (λ f. add_backend_with_checker lb hc f e k d zero)
        (get_route_forwarder address host path method g) hp

  unfoldable pub del_route_backend_by_id :
      String → Heap E K D H L → Outcome (Heap E K D H L × Option Err)
  unfolding call_route get_route_forwarder del_backend
  del_route_backend_by_id id hp =
      call_route (λ f hp. returns (del_backend lb hc f id hp))
        (get_route_forwarder address host path method g) hp
