-- ===== src/Gateway/Executes.antt =====
-- How a request passes the limit and the middlewares.
use apigw.Common.{
  String, if◌then◌else◌, Bool, false, ◌&&◌, List, [], ◌++◌, ◌≡◌, arith, is_empty, not,
}
use apigw.Common.Int.{pos, ltb_ℤ}
use apigw.Dict.{lookup}
use apigw.Types.{Middleware, fail, request_entity_too_large, wrap, wrap-append}
use apigw.Ship.{Context}
use apigw.Gateway.{Gateway, host_mdws, execute_route}

module _ {W C R : Type 0} where
  -- The two flags tell whether there are middlewares: the global one exactly, the host one at least
  -- whenever a host has an entry.
  pub record FlagsAreRight (g : Gateway W C R) : Type 0 where
    pub globals : g.hasgmdw ≡ not (is_empty g.mdws)
    pub hosts : g.hashmdw ≡ false → g.hostmdws ≡ []

  -- The body is longer than the limit, and there is a limit.
  abbrev pub is_too_large : Context W C → Gateway W C R → W → Bool
  is_too_large ctx g w = ltb_ℤ (pos 0) g.body_max_len && ltb_ℤ g.body_max_len (ctx.content_length w)

  -- All the middlewares of a request, the outermost first.
  abbrev pub request_mdws : Context W C → Gateway W C R → W → List (Middleware W)
  request_mdws ctx g w = g.mdws ++ (host_mdws g (ctx.host w) ++ host_mdws g (ctx.route_host w))

  no_globals : (g : Gateway W C R) → FlagsAreRight g → g.hasgmdw ≡ false → g.mdws ≡ []
  no_globals g v h = ground arith

  no_hosts :
      (g : Gateway W C R) (host : String)
      → FlagsAreRight g
      → g.hashmdw ≡ false
      → host_mdws g host ≡ []
  unfolding lookup
  no_hosts g host v h = rw (v.hosts h)

  -- If the flags are right, a request whose body is within the limit runs through the global
  -- middlewares, then those of its own host, then those of the host of its route, each list in its
  -- order, and then through the router, whichever shortcut the flags allow; a request whose body is
  -- too large runs nothing and is answered with the error for that.
  pub execute_route-wrap :
      (ctx : Context W C) (g : Gateway W C R) (w : W)
      → FlagsAreRight g
      → execute_route ctx g w ≡ (
          if is_too_large ctx g w
          then (w, fail request_entity_too_large)
          else wrap (request_mdws ctx g w) ctx.execute w)
  unfolding execute_route wrap
  execute_route-wrap ctx g w v =
      rw (wrap-append, wrap-append)
        (ground (arith, no_globals g v, no_hosts g (ctx.host w) v, no_hosts g (ctx.route_host w) v))
