-- ===== src/Tests/Routing.antt =====
-- Hosts and routes.
use mathlib.Core.List.{reverse}
use apigw.Common.{
  String, ◌==◌, if◌then◌else◌, Bool, true, false, List, [], ◌∷◌, Option, none, some, ◌≡◌, refl, ◌≢◌,
  ◌↔◌, arith, eq_iff, ℕ,
}
use apigw.Common.Int.{ltb_ℤ}
use apigw.Dict.{lookup}
use apigw.Types.{ok, wrap, returns, Err}
use apigw.Plugin.{Plugin, sort, less}
use apigw.Plugin.Sorting.{IsSorted, of_prio, sort-IsStableSort}
use apigw.Route.{RoutePlugin, route_key, zero_route}
use apigw.Gateway.{Gateway, handle_request, new_gateway}
use apigw.Gateway.Registry.{plugin}
use apigw.Gateway.Hosts.{del_host, get_route, has_host, add_host}
use apigw.Gateway.Hosts.Deletion.{del_host_lem}
use apigw.Gateway.Routes.{
  register_route, insert_route, unregister_route, build_handler, pick_plugins, build,
}
use apigw.Gateway.Routes.Configs.{build_handler_of_IsSorted, build_handler_swaps}
use apigw.Gateway.Routes.Removals.{Unregisters, unregister_route-Unregisters}
use apigw.Gateway.Routes.Success.{Acceptable, register_route-eq-none_iff}
use apigw.Gateway.Routes.Valid.{RouteIsValid, RoutesAreValid}
use apigw.Gateway.WellFormed.{IsWellFormed}
use apigw.Gateway.Reach.{here, next, Reach-IsWellFormed, adds_host, registers_host}
use apigw.Gateway.Middlewares.{register_host_middlewares}
use apigw.Tests.Fixtures.{
  Request, ship, ctx, site, request, gateway, routeless, tracing, not_found, tracer, matcher, route,
  built, note,
}

v1≢ε : matcher.path ≢ ""
v1≢ε = ground (arith, eq_iff "/v1" "")

registers : (register_route ship ctx route routeless).2 ≡ none
unfolding register_route plugin lookup pick_plugins build route_key sort insert_route
registers = refl

register_route-eq-none_iff_example :
    ((register_route ship ctx route routeless).2 ≡ none) ↔ Acceptable ship ctx route routeless
register_route-eq-none_iff_example = register_route-eq-none_iff ship ctx route routeless

unregister_route-Unregisters_example :
    Unregisters ship matcher matcher gateway request (unregister_route ship matcher gateway request)
unregister_route-Unregisters_example =
    unregister_route-Unregisters ship matcher matcher gateway request v1≢ε

built-IsValid : RouteIsValid site "GET@/v1" built
unfolding route_key
built-IsValid = record {
  its_host = refl;
  its_key = refl;
  its_path = v1≢ε;
  its_forwarder = refl;
  its_handler = refl;
}

gateway-RoutesAreValid : RoutesAreValid gateway
gateway-RoutesAreValid = ((built-IsValid, tt), tt)

site_routes : lookup site gateway.routes ≡ some (("GET@/v1", built) ∷ [])
unfolding lookup
site_routes = refl

del_host_lem_example :
    (h : Gateway Request String String) × (del_host ship site gateway request
      ≡ returns (h, note "closed" request, none))
    × ((other : String)
        → has_host other h ≡ (if site == other then false else has_host other gateway))
    × ((other path method : String)
        → path ≢ ""
        → get_route other path method h ≡ (
            if site == other
            then (zero_route, some Err.no_host)
            else get_route other path method gateway))
    × ((other : String)
        → apigw.Gateway.host_mdws h other
          ≡ (if site == other then [] else apigw.Gateway.host_mdws gateway other))
    × ((other : String)
        → apigw.Gateway.Settings.host_not_found other h
          ≡ (if site == other then none else apigw.Gateway.Settings.host_not_found other gateway))
del_host_lem_example =
    del_host_lem ship site gateway request (("GET@/v1", built) ∷ []) gateway-RoutesAreValid
      site_routes

Reach-IsWellFormed_example : IsWellFormed (
    register_host_middlewares site
      (tracing "a" ∷ [])
      (add_host ship site (new_gateway ship not_found)).0)
Reach-IsWellFormed_example =
    Reach-IsWellFormed ship ctx not_found
      (next (next here (adds_host site)) (registers_host site (tracing "a" ∷ [])))

abbrev entry : String → String → RoutePlugin String
entry name config = record { name = name; config = some config }

build_handler_of_IsSorted_example :
    build_handler ctx gateway (entry "token" "t" ∷ entry "log" "l" ∷ [])
    ≡ ok (wrap (reverse (tracing "t" ∷ tracing "l" ∷ [])) (handle_request ctx))
unfolding plugin lookup less
build_handler_of_IsSorted_example =
    build_handler_of_IsSorted ctx gateway (entry "token" "t" ∷ entry "log" "l" ∷ [])
      (tracer "token" 1 ∷ tracer "log" 2 ∷ []) (tracing "t" ∷ tracing "l" ∷ []) (refl, (refl, tt))
      ((refl, tt), (tt, tt)) (refl, (refl, tt))

build_handler_swaps_example :
    build_handler ctx gateway (entry "log" "l" ∷ entry "token" "t" ∷ [])
    ≡ build
        (tracer "token" 1 ∷ tracer "log" 2 ∷ [])
        (entry "log" "l" ∷ entry "token" "t" ∷ [])
        (handle_request ctx)
unfolding plugin lookup less
build_handler_swaps_example =
    build_handler_swaps ctx gateway (entry "log" "l") (entry "token" "t") (tracer "log" 2)
      (tracer "token" 1) (refl, (refl, tt)) refl

abbrev some_plugins : List (Plugin Request String)
some_plugins = tracer "b" 2 ∷ tracer "a" 1 ∷ tracer "c" 2 ∷ []

abbrev in_order : List (Plugin Request String)
in_order = tracer "a" 1 ∷ tracer "b" 2 ∷ tracer "c" 2 ∷ []

sorts : sort some_plugins ≡ in_order
unfolding sort
sorts = refl

sort-IsStableSort_example : (in_order ≡ sort some_plugins) ↔ (
    IsSorted in_order
    × mathlib.Core.List.Perm in_order some_plugins
    × ((k : apigw.Common.Int.ℤ) → of_prio k in_order ≡ of_prio k some_plugins))
sort-IsStableSort_example = sort-IsStableSort some_plugins in_order
