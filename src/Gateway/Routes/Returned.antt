-- ===== src/Gateway/Routes/Returned.antt =====
-- route.go: the route that `RegisterRoute` returns.
use apigw.Common.{◌==◌, Bool, true, false, Option, none, some, ◌≡◌, refl}
use apigw.Dict.{Dict, lookup}
use apigw.Types.{Handler, Result, ok, err, Err}
use apigw.Route.{Route, Forwarder}
use apigw.Ship.{Ship, Context}
use apigw.Gateway.{Gateway}
use apigw.Gateway.Routes.{
  build_handler, added_route, insert_in, insert_at, insert_route, insert_built, register_given,
  register_route,
}

module _ {W C R Q : Type 0} (ship : Ship W C R Q) (ctx : Context W C) (route : Route W C)
    (g : Gateway W C R) where
  -- A success returns the given route with the handler that its plugins make, and its path is not
  -- empty.
  abbrev pub ReturnsBuilt : Gateway W C R × Route W C × Option Err → Type 0
  ReturnsBuilt (g', r, none) =
      (h : Handler W) × (build_handler ctx g route.plugins ≡ ok h)
      × (r ≡ record route { handler = some h })
      × ((route.matcher.path == "") ≡ false)
  ReturnsBuilt (g', r, some e) = Unit

  inserted :
      (h : Handler W)
      → build_handler ctx g route.plugins ≡ ok h
      → (route.matcher.path == "") ≡ false
      → ReturnsBuilt (insert_route ship (record route { handler = some h }) g)
  unfolding insert_route
  inserted h built path = at (lookup route.matcher.host g.routes)
    where
      new : Route W C
      new = record route { handler = some h }

      added :
          (rs : Dict (Route W C)) (res : R × Option Err)
          → ReturnsBuilt (added_route ship new rs g res)
      added rs (r, none) = (h, built, refl, path)
      added rs (r, some e) = tt

      in_table :
          (rs : Dict (Route W C)) (there : Option (Route W C))
          → ReturnsBuilt (insert_in ship new rs g there)
      in_table rs none = added rs _
      in_table rs (some r) = tt

      at : (rs : Option (Dict (Route W C))) → ReturnsBuilt (insert_at ship new g rs)
      at none = tt
      at (some rs) = in_table rs _

  pub register_route-ReturnsBuilt : ReturnsBuilt (register_route ship ctx route g)
  unfolding register_route
  register_route-ReturnsBuilt = given (route.matcher.path == "") route.forwarder refl
    where
      built :
          (b : Result (Handler W))
          → build_handler ctx g route.plugins ≡ b
          → (route.matcher.path == "") ≡ false
          → ReturnsBuilt (insert_built ship route b g)
      built (err e) made path = tt
      built (ok h) made path = inserted h made path

      given :
          (no_path : Bool) (f : Option (Forwarder W))
          → (route.matcher.path == "") ≡ no_path
          → ReturnsBuilt (register_given ship ctx route g no_path f)
      given no_path none path = tt
      given true (some f) path = tt
      given false (some f) path = built _ refl path
