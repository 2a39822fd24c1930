-- ===== src/Gateway/Serving.antt =====
-- gateway.go and route.go: what a request meets, from the router that the gateway fills to the
-- forwarder of a route.
use mathlib.Core.Path.{fun_ext}
use apigw.Common.{
  if◌then◌else◌, true, false, Option, none, some, is_some, ◌≡◌, refl, ◌≢◌, List, Option-cases, inl,
  inr, subst, ◌∙◌,
}
use apigw.Types.{Handler, panics, fail, request_entity_too_large, wrap, Err}
use apigw.Plugin.{Plugin}
use apigw.Route.{Matcher, Route}
use apigw.Route.Names.{NoAt}
use apigw.Ship.{Ship, Context, RouteInfo}
use apigw.Gateway.{Gateway, execute_route, not_found_handler, hooks}
use apigw.Gateway.Executes.{FlagsAreRight, is_too_large, request_mdws, execute_route-wrap}
use apigw.Gateway.Routes.{info_of}
use apigw.Gateway.Routes.Lookups.{find}
use apigw.Gateway.Routes.Routing.{RouterLaws, routed, Agrees}

-- The call of the handler that a router has with a route.
abbrev pub run : {W : Type 0} → Option (Handler W) → Handler W
run none w = (w, panics "nil handler")
run (some h) w = h w

module _ {W C R Q : Type 0} (ship : Ship W C R Q) (laws : RouterLaws ship) (ctx : Context W C) where
  -- What the gateway relies on of the router's `Context.Execute`, which `c.Execute()` calls:
  -- `executes` over the router's `NotFound`, which is the one that `NewGateway` sets. `matched` is
  -- the route at which a router files a request, `bind` sets `c.RouteInfo`.
  pub record Executes (g : Gateway W C R) : Type 0 where
    pub matched : W → Option Matcher
    pub bind : RouteInfo W C → W → W
    pub executes : Handler W → Handler W
    pub execute-executes : (w : W) → ctx.execute w ≡ executes (hooks ctx g).not_found w
    pub ctx_data-bind :
        (w : W) (m : Matcher) (i : RouteInfo W C)
        → matched w ≡ some m
        → laws.holds m g.router ≡ some i
        → ctx.ctx_data (bind i w) ≡ i.ctx_data
    pub has_path : (w : W) (m : Matcher) → matched w ≡ some m → m.path ≢ ""
    pub has_method : (w : W) (m : Matcher) → matched w ≡ some m → NoAt m.method
    pub runs :
        (not_found : Handler W) (w : W) (m : Matcher) (i : RouteInfo W C)
        → matched w ≡ some m
        → laws.holds m g.router ≡ some i
        → executes not_found w ≡ run i.handler (bind i w)
    pub misses :
        (not_found : Handler W) (w : W) → matched w ≡ none → executes not_found w ≡ not_found w
    pub finds : (w : W) (m : Matcher) → matched w ≡ some m → is_some (laws.holds m g.router) ≡ true

  module _ (g : Gateway W C R) (ex : Executes g) where
    -- What the gateway's own table says of a request: it runs the handler of the route that
    -- `GetRoute` finds where the router files the request, or else the NotFound handler.
    answer : Route W C × Option Err → Handler W
    answer (r, none) w = run r.handler (ex.bind (info_of r) w)
    answer (r, some e) w = not_found_handler ctx g w

    unfoldable pub serve : Handler W
    unfolding answer
    serve w = elim (ex.matched w) [
      | none ↦ not_found_handler ctx g w
      | some m ↦ answer (find m g) w
    ]

    execute-answer :
        (w : W) (m : Matcher) (found : Route W C × Option Err)
        → ex.matched w ≡ some m
        → laws.holds m g.router ≡ routed found
        → ctx.execute w ≡ answer found w
    unfolding answer info_of
    execute-answer w m (r, none) at there =
        ex.execute-executes w ∙ ex.runs _ w m (info_of r) at there
    execute-answer w m (r, some e) at there =
        let missing : is_some (laws.holds m g.router) ≡ false = rw there refl in
        cc (missing, ex.finds w m at)

    execute-serve : Agrees ship laws g → (w : W) → ctx.execute w ≡ serve w
    unfolding serve
    execute-serve v w = elim (Option-cases (ex.matched w)) [
      | inl missing ↦
          rw (serve, missing)
            (ex.execute-executes w
              ∙ (unfold hooks in ex.misses (not_found_handler ctx g) w missing))
      | inr (m, at) ↦
          rw (serve, at)
            (execute-answer w m (find m g) at (v m (ex.has_method w m at) (ex.has_path w m at)))
    ]

    -- Where the flags are right, the router holds the routes of the table, files a request only at a
    -- route that it holds, with a path and a method without an `@`, and its `Execute` runs the
    -- handler of that route, or its `NotFound` where it files the request at no route: the
    -- `RouterExecutor` that `NewGateway` sets takes a request whose body is within the limit through
    -- the global middlewares and those of its hosts into the handler of the route that `GetRoute`
    -- finds at that place, or into the gateway's own `NotFoundHandler`; a request whose body is too
    -- large runs nothing and is answered with the error for that.
    pub execute_route-serve :
        FlagsAreRight g
        → Agrees ship laws g
        → (w : W)
        → (hooks ctx g).router_executor w ≡ (
            if is_too_large ctx g w
            then (w, fail request_entity_too_large)
            else wrap (request_mdws ctx g w) serve w)
    unfolding hooks
    execute_route-serve flags v w =
        subst
          (λ (h : Handler W). execute_route ctx g w ≡ (
            if is_too_large ctx g w
            then (w, fail request_entity_too_large)
            else wrap (request_mdws ctx g w) h w))
          (fun_ext (execute-serve v)) (execute_route-wrap ctx g w flags)
