-- ===== src/Lb/Gateway/Timeouts.antt =====
-- forward/lb/gateway.go: reading back what is set on the forwarder of a route.
use apigw.Common.{
  String, ℕ, Option, none, some, ◌≡◌, refl, nat_eq, nat_eq_refl, arith, if◌then◌else◌,
}
use apigw.Common.Int.{ℤ, pos}
use apigw.Types.{Outcome, returns, panic, Result, ok, err}
use apigw.Route
use apigw.Lb.Forwarder.{set_max_timeout, get_max_timeout}
use apigw.Lb.Heap.{Heap, put}
use apigw.Lb.Gateway.{LbGateway, get_route_forwarder, get_route_max_timeout, set_route_max_timeout}

module _ {E K D H L W C R : Type 0} (address : Route.Forwarder W → Option ℕ)
    (host path method : String) (g : LbGateway W C R) where
  -- What setting a timeout promises, by the forwarder that the route has.
  abbrev pub SetsTimeout : ℤ → Heap E K D H L → Outcome (Result ℕ) → Type 0
  SetsTimeout t hp (panic s) = set_route_max_timeout address host path method g t hp ≡ panic s
  SetsTimeout t hp (returns (err e)) =
      (set_route_max_timeout address host path method g t hp ≡ returns (hp, some e))
      × (get_route_max_timeout address host path method g hp ≡ returns (pos 0, some e))
  SetsTimeout t hp (returns (ok a)) =
      (hp' : Heap E K D H L) × (set_route_max_timeout address host path method g t hp
        ≡ returns (hp', none))
      × (get_route_max_timeout address host path method g hp' ≡ returns (t, none))
      × ((f : ℕ)
          → get_max_timeout (hp'.forwarders f)
            ≡ (if nat_eq a f then t else get_max_timeout (hp.forwarders f)))
      × (hp'.groups ≡ hp.groups)
      × (hp'.balancers ≡ hp.balancers)

  -- Where the route has a forwarder of this package, `SetRouteMaxTimeout` succeeds,
  -- `GetRouteMaxTimeout` then returns the timeout, and no other forwarder, no group and no load
  -- balancer changes. Where the route is not found, both return the error of `GetRoute` and nothing
  -- changes, and at another forwarder the call panics.
  pub get_route_max_timeout-set_route_max_timeout :
      (t : ℤ) (hp : Heap E K D H L)
      → SetsTimeout t hp (get_route_forwarder address host path method g)
  unfolding set_route_max_timeout get_route_max_timeout
  get_route_max_timeout-set_route_max_timeout t hp =
      at (get_route_forwarder address host path method g) refl
    where
      at :
          (o : Outcome (Result ℕ))
          → get_route_forwarder address host path method g ≡ o
          → SetsTimeout t hp o
      at (panic s) e = rw e refl
      at (returns (err x)) e = (rw e refl, rw e refl)
      at (returns (ok a)) e = (
        record hp { forwarders = put a (set_max_timeout t (hp.forwarders a)) hp.forwarders },
        rw e refl,
        rw (e, nat_eq_refl a) refl,
        λ f. ground arith,
        refl,
        refl,
      )
