-- ===== src/Gateway/Hosts/Deletion.antt =====
-- `DelHost`: what goes with a host, and what stays.
use apigw.Common.{
  String, ◌==◌, if◌then◌else◌, true, false, List, [], ◌∷◌, Option, none, some, is_some, ◌≡◌, refl,
  ◌≢◌, arith, ==-false_of_ne,
}
use apigw.Dict.{Dict, lookup, values}
use apigw.Dict.Laws.{Every, Every-lookup, lookup-delete}
use apigw.Types.{returns, ◌>>=◌, no_host}
use apigw.Route.{Route, Forwarder, zero_route}
use apigw.Ship.{Ship}
use apigw.Gateway.{Gateway, host_mdws}
use apigw.Gateway.Settings.{host_not_found}
use apigw.Gateway.Hosts.{has_host, get_route, close_forwarder, close_routes, forget_host, del_host}
use apigw.Gateway.Routes.Valid.{RoutesAreValid, RouteIsValid}

-- The state after `Close` has been called on the forwarders of the routes, one after the other.
abbrev close_all : {W C : Type 0} → List (Route W C) → W → W
close_all [] w = w
close_all (r ∷ rs) w = elim r.forwarder [
  | none ↦ close_all rs w
  | some f ↦ close_all rs (f.close w).0
]

close_routes_of_Every :
    {W C : Type 0} (host : String) (rs : Dict (Route W C)) (w : W)
    → Every (RouteIsValid host) rs
    → close_routes (values rs) w ≡ returns (close_all (values rs) w)
unfolding close_routes
close_routes_of_Every host [] w v = refl
close_routes_of_Every host ((k, r) ∷ rs) w v =
    closed r.forwarder v.0.its_forwarder λ f. close_routes_of_Every host rs (f.close w).0 v.1
  where
    closed :
        (f : Option (Forwarder _))
        → is_some f ≡ true
        → ((f : Forwarder _)
            → close_routes (values rs) (f.close w).0
              ≡ returns (close_all (values rs) (f.close w).0))
        → (close_forwarder f w >>= close_routes (values rs))
          ≡ returns (elim f [
            | none ↦ close_all (values rs) w
            | some f ↦ close_all (values rs) (f.close w).0
          ])
    closed none e rest = cc
    closed (some f) e rest = rest f

module _ {W C R Q : Type 0} (ship : Ship W C R Q) where
  -- `DelHost` of a host that is there, in a gateway with valid routes, returns no error, closes the
  -- forwarder of each of the host's routes once, in order, and leaves a gateway in which the host
  -- is unknown and has no routes, no middlewares and no NotFound handler, while every other host
  -- has what it had.
  pub del_host_lem :
      (host : String) (g : Gateway W C R) (w : W) (rs : Dict (Route W C))
      → RoutesAreValid g
      → lookup host g.routes ≡ some rs
      → (h : Gateway W C R) × (del_host ship host g w ≡ returns (h, close_all (values rs) w, none))
        × ((other : String)
            → has_host other h ≡ (if host == other then false else has_host other g))
        × ((other path method : String)
            → path ≢ ""
            → get_route other path method h ≡ (
                if host == other
                then (zero_route, some no_host)
                else get_route other path method g))
        × ((other : String) → host_mdws h other ≡ (if host == other then [] else host_mdws g other))
        × ((other : String)
            → host_not_found other h ≡ (if host == other then none else host_not_found other g))
  unfolding del_host forget_host has_host get_route host_not_found
  del_host_lem host g w rs v known = (
    forget_host ship host g,
    rw (
      known,
      del_host,
      close_routes_of_Every host rs w
          (Every-lookup (λ host. Every (RouteIsValid host)) host g.routes v known),
    ),
    λ other. ground (arith, lookup-delete host other g.routes),
    λ other path method ne.
        ground (arith, ==-false_of_ne path "" ne, lookup-delete host other g.routes),
    λ other. ground (arith, lookup-delete host other g.hostmdws),
    λ other. lookup-delete host other g.notfounds,
  )
