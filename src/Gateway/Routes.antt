-- ===== src/Gateway/Routes.antt =====
-- route.go: registering and unregistering routes. A call is one step here, with the part of
-- `RegisterRoute` that looks up and makes the plugins before it takes the gateway's lock; an error
-- of `Close` is only logged.
pub mod Configs
pub mod Lookups
pub mod Removals
pub mod Valid
pub mod Success
pub mod Returned
pub mod Frame
pub mod Routing
pub mod Hosting
use apigw.Common.{String, ◌==◌, if◌then◌else◌, Bool, true, false, List, [], ◌∷◌, Option, none, some}
use apigw.Dict.{Dict, lookup, insert, delete}
use apigw.Types.{
  Handler, Middleware, Result, ok, err, Outcome, returns, panic, ◌>>=◌, Err, no_host, no_route,
  existed_route, empty_path, nil_forwarder, no_plugin, from_outside,
}
use apigw.Plugin.{Plugin, sort}
use apigw.Route.{Matcher, RoutePlugin, Route, Forwarder, zero_route, route_key}
use apigw.Ship.{Ship, Context, RouteInfo}
use apigw.Gateway.{Gateway, handle_request}
use apigw.Gateway.Registry.{plugin}
use apigw.Gateway.Hosts.{close_forwarder}

module _ {W C R : Type 0} (g : Gateway W C R) where
  -- The loop that looks up the route's plugins; the first name that is not registered ends it.
  unfoldable pub pick_plugins : List (RoutePlugin C) → Result (List (Plugin W C))
  pick_plugins [] = ok []
  pick_plugins (pc ∷ pcs) =
      let rest = pick_plugins pcs in
      elim (plugin pc.name g) [
        | none ↦ err (no_plugin pc.name)
        | some p ↦ elim rest [ ok ps ↦ ok (p ∷ ps) | err e ↦ err e ]
      ]

module _ {W C : Type 0} where
  -- The loop that wraps the handler: plugin `i` of the sorted plugins gets the configuration of
  -- entry `i` of the route's plugins. There are as many, so the index is never out of range.
  unfoldable pub build : List (Plugin W C) → List (RoutePlugin C) → Handler W → Result (Handler W)
  build [] pcs h = ok h
  build (p ∷ ps) [] h = err (from_outside "index out of range")
  build (p ∷ ps) (pc ∷ pcs) h = elim (p.newf pc.config) [
    | err e ↦ err e
    | ok mw ↦ build ps pcs (mw h)
  ]

  unfoldable pub info_of : Route W C → RouteInfo W C
  info_of r = record {
    host = r.matcher.host;
    path = r.matcher.path;
    method = r.matcher.method;
    handler = r.handler;
    ctx_data = some r;
  }

  unfoldable pub info_of_matcher : Matcher → RouteInfo W C
  info_of_matcher m = record {
    host = m.host;
    path = m.path;
    method = m.method;
    handler = none;
    ctx_data = none;
  }

module _ {W C R : Type 0} where
  -- The handler of a route, or the error of `RegisterRoute` before it takes the lock.
  unfoldable pub build_handler :
      Context W C → Gateway W C R → List (RoutePlugin C) → Result (Handler W)
  build_handler ctx g pcs = elim (pick_plugins g pcs) [
    | err e ↦ err e
    | ok ps ↦ build (sort ps) pcs (handle_request ctx)
  ]

module _ {W C R Q : Type 0} (ship : Ship W C R Q) where
  -- The end of `RegisterRoute`, after `g.addRoute(route)`.
  added_route :
      Route W C
      → Dict (Route W C)
      → Gateway W C R
      → R × Option Err
      → Gateway W C R × Route W C × Option Err
  unfolding route_key
  added_route route rs g (r, some e) = (record g { router = r }, zero_route, some e)
  added_route route rs g (r, none) = (
    record g {
      router = r;
      routes = insert route.matcher.host (insert (route_key route.matcher) route rs) g.routes;
    },
    route,
    none,
  )

  -- The part of `RegisterRoute` that holds the lock, from its inner test outwards.
  insert_in :
      Route W C
      → Dict (Route W C)
      → Gateway W C R
      → Option (Route W C)
      → Gateway W C R × Route W C × Option Err
  unfolding added_route info_of
  insert_in route rs g (some r) = (g, r, some existed_route)
  insert_in route rs g none = added_route route rs g (ship.add_route (info_of route) g.router)

  insert_at :
      Route W C → Gateway W C R → Option (Dict (Route W C)) → Gateway W C R × Route W C × Option Err
  unfolding insert_in route_key
  insert_at route g none = (g, zero_route, some no_host)
  insert_at route g (some rs) = insert_in route rs g (lookup (route_key route.matcher) rs)

  unfoldable pub insert_route : Route W C → Gateway W C R → Gateway W C R × Route W C × Option Err
  unfolding insert_at
  insert_route route g = insert_at route g (lookup route.matcher.host g.routes)

  insert_built :
      Route W C → Result (Handler W) → Gateway W C R → Gateway W C R × Route W C × Option Err
  insert_built route (err e) g = (g, zero_route, some e)
  insert_built route (ok h) g = insert_route (record route { handler = some h }) g

  -- The tests of `RegisterRoute` on its argument come first.
  register_given :
      Context W C
      → Route W C
      → Gateway W C R
      → Bool
      → Option (Forwarder W)
      → Gateway W C R × Route W C × Option Err
  unfolding build_handler insert_built
  register_given ctx route g no_path none = (g, zero_route, some nil_forwarder)
  register_given ctx route g true (some f) = (g, zero_route, some empty_path)
  register_given ctx route g false (some f) =
      insert_built route (build_handler ctx g route.plugins) g

  unfoldable pub register_route :
      Context W C → Route W C → Gateway W C R → Gateway W C R × Route W C × Option Err
  unfolding register_given
  register_route ctx route g = register_given ctx route g (route.matcher.path == "") route.forwarder

  -- The end of `UnregisterRoute`, after `g.delRoute(m)`. A panic of the forwarder's `Close`, which
  -- comes after the entry is deleted, carries no state.
  removed_route :
      Matcher
      → Dict (Route W C)
      → Route W C
      → Gateway W C R
      → W
      → R × Option Err
      → Outcome (Gateway W C R × W × Route W C × Option Err)
  unfolding close_forwarder route_key
  removed_route m rs route g w (r, some e) = returns (record g { router = r }, w, route, some e)
  removed_route m rs route g w (r, none) =
      let g' : Gateway W C R = record g {
        router = r;
        routes = insert m.host (delete (route_key m) rs) g.routes;
      } in
      (do w' ← close_forwarder route.forwarder w; returns (g', w', route, none))

  -- The lookups of `UnregisterRoute`, from the inner one outwards.
  remove_in :
      Matcher
      → Dict (Route W C)
      → Gateway W C R
      → W
      → Option (Route W C)
      → Outcome (Gateway W C R × W × Route W C × Option Err)
  unfolding removed_route info_of_matcher
  remove_in m rs g w none = returns (g, w, zero_route, some no_route)
  remove_in m rs g w (some route) =
      removed_route m rs route g w (ship.del_route (info_of_matcher m) g.router)

  remove_at :
      Matcher
      → Gateway W C R
      → W
      → Option (Dict (Route W C))
      → Outcome (Gateway W C R × W × Route W C × Option Err)
  unfolding remove_in route_key
  remove_at m g w none = returns (g, w, zero_route, some no_host)
  remove_at m g w (some rs) = remove_in m rs g w (lookup (route_key m) rs)

  unfoldable pub unregister_route :
      Matcher → Gateway W C R → W → Outcome (Gateway W C R × W × Route W C × Option Err)
  unfolding remove_at
  unregister_route m g w =
      if m.path == ""
      then returns (g, w, zero_route, some empty_path)
      else remove_at m g w (lookup m.host g.routes)
