-- ===== src/Gateway/Hosts.antt =====
-- route.go: the hosts of a gateway and the lookup of routes. A call that closes forwarders also
-- acts on their state `W`; an error of `Close` is only logged. A call holds the gateway's lock, so
-- it is one step here.
pub mod Deletion
use apigw.Common.{String, ◌==◌, if◌then◌else◌, Bool, List, [], ◌∷◌, Option, none, some}
use apigw.Dict.{Dict, lookup, insert, delete, has, keys, values}
use apigw.Types.{Outcome, returns, panic, ◌>>=◌, Err, no_host, no_route, empty_path}
use apigw.Route.{Forwarder, Route, zero_route, route_key}
use apigw.Ship.{Ship}
use apigw.Gateway.{Gateway}

-- `r.Forwarder.Close()`
unfoldable pub close_forwarder : {W : Type 0} → Option (Forwarder W) → W → Outcome W
close_forwarder none w = panic "nil forwarder"
close_forwarder (some f) w = returns (f.close w).0

module _ {W C : Type 0} where
  pick_route : Option (Route W C) → Route W C × Option Err
  pick_route none = (zero_route, some no_route)
  pick_route (some r) = (r, none)

  -- The loop of `DelHost`.
  unfoldable pub close_routes : List (Route W C) → W → Outcome W
  unfolding close_forwarder
  close_routes [] w = returns w
  close_routes (r ∷ rs) w = do w' ← close_forwarder r.forwarder w; close_routes rs w'

module _ {W C R : Type 0} where
  unfoldable pub get_hosts : Gateway W C R → List String
  get_hosts g = keys g.routes

  unfoldable pub has_host : String → Gateway W C R → Bool
  has_host host g = has host g.routes

  unfoldable pub get_routes : String → Gateway W C R → List (Route W C) × Option Err
  get_routes host g = elim (lookup host g.routes) [
    | none ↦ ([], some no_host)
    | some rs ↦ (values rs, none)
  ]

  unfoldable pub get_route : String → String → String → Gateway W C R → Route W C × Option Err
  unfolding pick_route route_key
  get_route host path method g =
      if path == "" then (zero_route, some empty_path) else elim (lookup host g.routes) [
        | none ↦ (zero_route, some no_host)
        | some rs ↦
            pick_route
              (lookup (route_key (record { host = host; path = path; method = method })) rs)
      ]

module _ {W C R Q : Type 0} (ship : Ship W C R Q) where
  unfoldable pub added_host : String → Gateway W C R → R × Option Err → Gateway W C R × Option Err
  added_host host g (r, none) = (record g { router = r; routes = insert host [] g.routes }, none)
  added_host host g (r, some e) = (record g { router = r }, some e)

  unfoldable pub add_host : String → Gateway W C R → Gateway W C R × Option Err
  unfolding added_host
  add_host host g =
      if has host g.routes
      then (g, none)
      else if host == ""
      then (record g { routes = insert host [] g.routes }, none)
      else added_host host g (ship.add_host host g.router)

  -- The state that `DelHost` leaves when the host is there.
  unfoldable pub forget_host : String → Gateway W C R → Gateway W C R
  forget_host host g = record g {
    routes = delete host g.routes;
    hostmdws = delete host g.hostmdws;
    notfounds = delete host g.notfounds;
    router = ship.del_host host g.router;
  }

  -- The error of `DelHost` is always nil. A panic of a forwarder's `Close`, which comes after the
  -- host is forgotten, carries no state.
  unfoldable pub del_host : String → Gateway W C R → W → Outcome (Gateway W C R × W × Option Err)
  unfolding forget_host
  del_host host g w = elim (lookup host g.routes) [
    | none ↦ returns (g, w, none)
    | some rs ↦
        let g' = forget_host host g in (do w' ← close_routes (values rs) w; returns (g', w', none))
  ]
