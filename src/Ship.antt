-- ===== src/Ship.antt =====
-- The router github.com/xgfone/ship/v4, which is not part of the repository: the calls that
-- route.go and gateway.go make of it, over a state `R`, and what they read of a request context.
use apigw.Common.{String, Bool, Option, ℕ}
use apigw.Common.Int.{ℤ}
use apigw.Types.{Handler, Err}
use apigw.Route.{Route}

-- `ship.RouteInfo`; `CtxData` is the route, or absent in the argument of `DelRoute`.
pub record RouteInfo (W C : Type 0) : Type 0 where
  pub host : String
  pub path : String
  pub method : String
  pub handler : Option (Handler W)
  pub ctx_data : Option (Route W C)

-- `Q` is the type of the routers of single hosts.
pub record Ship (W C R Q : Type 0) : Type 0 where
  pub default : R
  pub name : R → String
  pub set_name : String → R → R
  pub add_host : String → R → R × Option Err
  pub del_host : String → R → R
  pub add_route : RouteInfo W C → R → R × Option Err
  pub del_route : RouteInfo W C → R → R × Option Err
  pub router : String → R → Option Q
  pub get_default_host : R → String
  pub set_default_router : String → Q → R → R

-- What a handler reads of the context, and the calls by which it answers.
pub record Context (W C : Type 0) : Type 0 where
  pub content_length : W → ℤ
  pub host : W → String
  pub route_host : W → String
  pub ctx_data : W → Option (Route W C)
  pub execute : Handler W
  pub is_responded : W → Bool
  pub blob_text : Err → W → W
  pub text : ℕ → Err → W → W
  pub is_http_error : Err → Bool
