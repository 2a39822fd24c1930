-- ===== src/Tests/Agreeing.antt =====
-- A router that keeps its routes by host, path and method, and a gateway over it.
use mathlib.Core.Path.{sym}
use apigw.Common.{String, ◌==◌, if◌then◌else◌, Option, none, some, ◌≡◌, refl, ap, []}
use apigw.Types.{Err}
use apigw.Route.{Matcher, route_key}
use apigw.Ship.{Ship, RouteInfo}
use apigw.Gateway.{new_gateway}
use apigw.Gateway.Hosts.{add_host}
use apigw.Dict.{lookup, insert}
use apigw.Plugin.{sort}
use apigw.Gateway.Routes.{register_route, insert_route, pick_plugins, build}
use apigw.Gateway.Routes.Routing.{RouterLaws, has_matcher, Agrees}
use apigw.Gateway.Agreement.{here, next, adds_host, registers_route, Reach-Agrees}
use apigw.Tests.Fixtures.{get-NoAt, Request, site, ctx, request, route, not_found}

abbrev Router : Type 0
Router = Matcher → Option (RouteInfo Request String)

abbrev keeping : Ship Request String Router (Unit {0})
keeping = record {
  default = λ m. none;
  name = λ r. "gateway";
  set_name = λ n r. r;
  add_host = λ h r. (r, none);
  del_host = λ h r m. if h == m.host then none else r m;
  add_route = λ i r. ((λ m. if has_matcher i m then some i else r m), none);
  del_route = λ i r. ((λ m. if has_matcher i m then none else r m), none);
  router = λ h r. none;
  get_default_host = λ r. "";
  set_default_router = λ h q r. r;
}

abbrev run_at : Matcher → Router × Option Err → Option (RouteInfo Request String)
run_at m t = t.0 m

laws : RouterLaws keeping
laws = record {
  holds = λ m r. r m;
  holds-default = λ m. refl;
  holds-add_host = λ m h r. refl;
  holds-del_host = λ m h r nh. refl;
  holds-add_route = λ m i r r' e. sym (ap (run_at m) e);
  holds-add_route_fails = λ m i r r' x e. cc (e);
  holds-del_route = λ m i r r' e. sym (ap (run_at m) e);
  holds-del_route_fails = λ m i r r' x e. cc (e);
}

Reach-Agrees_example :
    Agrees keeping laws
      (register_route keeping ctx
        (record route { plugins = [] })
        (add_host keeping site (new_gateway keeping not_found)).0).0
Reach-Agrees_example = Reach-Agrees keeping laws ctx not_found (
    next {w' = request}
      (next {g' = new_gateway keeping not_found} {w' = request} here (adds_host site))
      (registers_route (record route { plugins = [] }) get-NoAt))

-- The route is registered, and the router has it.
registers_there :
    (register_route keeping ctx
      (record route { plugins = [] })
      (add_host keeping site (new_gateway keeping not_found)).0).2
    ≡ none
unfolding register_route add_host new_gateway lookup insert insert_route route_key pick_plugins
    build sort
registers_there = refl
