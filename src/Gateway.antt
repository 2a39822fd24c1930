-- ===== src/Gateway.antt =====
-- gateway.go: the state of a gateway, and how a request runs through it.
pub mod Metadata
pub mod Settings
pub mod Executes
pub mod Middlewares
pub mod Registry
pub mod Hosts
pub mod Routes
pub mod WellFormed
pub mod Reach
pub mod Agreement
pub mod Serving
use apigw.Common.{
  String, if◌then◌else◌, Bool, true, false, ◌&&◌, ◌||◌, List, [], ◌∷◌, Option, none, some, or_else,
}
use apigw.Common.Int.{ℤ, pos, ltb_ℤ}
use apigw.Dict.{Dict, lookup}
use apigw.Types.{
  Handler, Middleware, Reply, done, fail, panics, Err, wrap, request_entity_too_large,
}
use apigw.Plugin.{Plugin}
use apigw.Route.{Route, Forwarder}
use apigw.Ship.{Ship, Context}

-- `hasgmdw` and `hashmdw` are the tests `== 1` of the two atomic words. The user's field `Context`,
-- which no method reads, is left out.
pub record Gateway (W C R : Type 0) : Type 0 where
  pub mdws : List (Middleware W)
  pub router : R
  pub mdata : Dict C
  pub routes : Dict (Dict (Route W C))
  pub plugins : Dict (Plugin W C)
  pub notfounds : Dict (Handler W)
  pub hostmdws : Dict (List (Middleware W))
  pub notfound : Handler W
  pub hasgmdw : Bool
  pub hashmdw : Bool
  pub body_max_len : ℤ

-- 8 << 20
abbrev pub default_body_max_len : ℤ
default_body_max_len = pos 8388608

module _ {W C R Q : Type 0} (ship : Ship W C R Q) (not_found : Handler W) where
  -- The parameter `not_found` is `ship.NotFoundHandler()`.
  unfoldable pub new_gateway : Gateway W C R
  new_gateway = record {
    mdws = [];
    router = ship.default;
    mdata = [];
    routes = [];
    plugins = [];
    notfounds = [];
    hostmdws = [];
    notfound = not_found;
    hasgmdw = false;
    hashmdw = false;
    body_max_len = default_body_max_len;
  }

-- `g.hostmdws[host]`, nil where there is no entry
abbrev pub host_mdws : {W C R : Type 0} → Gateway W C R → String → List (Middleware W)
host_mdws g host = or_else (lookup host g.hostmdws) []

module _ {W C R : Type 0} (ctx : Context W C) (g : Gateway W C R) where
  abbrev pub find_and_execute_route : Handler W
  find_and_execute_route = ctx.execute

  unfoldable pub with_host_middlewares : W → Handler W → Handler W
  with_host_middlewares w handler =
      wrap (host_mdws g (ctx.host w)) (wrap (host_mdws g (ctx.route_host w)) handler)

  unfoldable pub execute_route_with_middleware : Bool → Bool → Handler W
  unfolding with_host_middlewares
  execute_route_with_middleware hasgmdw hashmdw w =
      let inner : Handler W =
        (if hashmdw
          then with_host_middlewares w find_and_execute_route
          else find_and_execute_route) in
      let handler : Handler W = (if hasgmdw then wrap g.mdws inner else inner) in handler w

  unfoldable pub execute_route : Handler W
  unfolding execute_route_with_middleware
  execute_route w =
      if ltb_ℤ (pos 0) g.body_max_len && ltb_ℤ g.body_max_len (ctx.content_length w)
      then (w, fail request_entity_too_large)
      else if g.hasgmdw || g.hashmdw
      then execute_route_with_middleware g.hasgmdw g.hashmdw w
      else find_and_execute_route w

  -- The handler that `NotFoundHandler` chooses.
  unfoldable pub choose_not_found : W → Handler W
  choose_not_found w = elim (lookup (ctx.host w) g.notfounds) [
    | some h ↦ h
    | none ↦ or_else (lookup (ctx.route_host w) g.notfounds) g.notfound
  ]

  unfoldable pub not_found_handler : Handler W
  unfolding choose_not_found
  not_found_handler w = choose_not_found w w

module _ {W C : Type 0} (ctx : Context W C) where
  -- `c.RouteInfo.CtxData.(Route).Forwarder.Forward(c)`: the type assertion and the call on a nil
  -- interface panic.
  forward_route : Option (Forwarder W) → Handler W
  forward_route none w = (w, panics "nil forwarder")
  forward_route (some f) w = f.forward w

  unfoldable pub handle_request : Handler W
  unfolding forward_route
  handle_request w = elim (ctx.ctx_data w) [
    | none ↦ (w, panics "interface conversion")
    | some r ↦ forward_route r.forwarder w
  ]

  unfoldable pub handle_error : W → Err → W
  handle_error w e =
      if ctx.is_responded w
      then w
      else if ctx.is_http_error e
      then ctx.blob_text e w
      else ctx.text 500 e w

-- What `NewGateway` sets of its router: `NotFound`, `HandleError` and `RouterExecutor`.
pub record Hooks (W : Type 0) : Type 0 where
  pub not_found : Handler W
  pub handle_error : W → Err → W
  pub router_executor : Handler W

-- The hooks are methods of the gateway, so they read it as it is when the router calls them.
unfoldable pub hooks : {W C R : Type 0} → Context W C → Gateway W C R → Hooks W
unfolding not_found_handler handle_error execute_route
hooks ctx g = record {
  not_found = not_found_handler ctx g;
  handle_error = handle_error ctx;
  router_executor = execute_route ctx g;
}
