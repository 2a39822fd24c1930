-- ===== src/Gateway/Routes/Frame.antt =====
-- What the calls on hosts and routes leave alone.
use apigw.Common.{String, ◌==◌, Bool, true, false, Option, none, some, ◌≡◌, refl, if_intro}
use apigw.Dict.{Dict, lookup, has}
use apigw.Types.{Handler, Result, ok, err, Outcome, returns, panic, ◌>>=◌, Err}
use apigw.Route.{Matcher, Route, Forwarder}
use apigw.Ship.{Ship, Context}
use apigw.Gateway.{Gateway}
use apigw.Gateway.Hosts.{added_host, add_host, close_forwarder}
use apigw.Gateway.Routes.{
  added_route, insert_in, insert_at, insert_route, insert_built, register_given, register_route,
  removed_route, remove_in, remove_at, unregister_route,
}

module _ {W C R : Type 0} where
  -- Nothing but the router and the routes differs.
  abbrev pub SameButRoutes : Gateway W C R → Gateway W C R → Type 0
  SameButRoutes g h = h ≡ record g { router = h.router; routes = h.routes }

module _ {W C R Q : Type 0} (ship : Ship W C R Q) (g : Gateway W C R) where
  added_host-SameButRoutes :
      (host : String) (res : R × Option Err) → SameButRoutes g (added_host ship host g res).0
  unfolding added_host
  added_host-SameButRoutes host (r, none) = refl
  added_host-SameButRoutes host (r, some e) = refl

  pub add_host-SameButRoutes : (host : String) → SameButRoutes g (add_host ship host g).0
  unfolding add_host
  add_host-SameButRoutes host =
      let same = λ (t : Gateway W C R × Option Err). SameButRoutes g t.0 in
      if_intro same (has host g.routes) refl
        (if_intro same (host == "") refl (added_host-SameButRoutes host _))

  insert_built-SameButRoutes :
      (route : Route W C) (b : Result (Handler W)) → SameButRoutes g (insert_built ship route b g).0
  unfolding insert_built insert_route
  insert_built-SameButRoutes route (err e) = refl
  insert_built-SameButRoutes route (ok h) = at (lookup route.matcher.host g.routes)
    where
      built : Route W C
      built = record route { handler = some h }

      added :
          (rs : Dict (Route W C)) (res : R × Option Err)
          → SameButRoutes g (added_route ship built rs g res).0
      added rs (r, none) = refl
      added rs (r, some e) = refl

      in_table :
          (rs : Dict (Route W C)) (there : Option (Route W C))
          → SameButRoutes g (insert_in ship built rs g there).0
      in_table rs none = added rs _
      in_table rs (some r) = refl

      at : (rs : Option (Dict (Route W C))) → SameButRoutes g (insert_at ship built g rs).0
      at none = refl
      at (some rs) = in_table rs _

  pub register_route-SameButRoutes :
      (ctx : Context W C) (route : Route W C) → SameButRoutes g (register_route ship ctx route g).0
  unfolding register_route
  register_route-SameButRoutes ctx route = given (route.matcher.path == "") route.forwarder
    where
      given :
          (no_path : Bool) (f : Option (Forwarder W))
          → SameButRoutes g (register_given ship ctx route g no_path f).0
      given no_path none = refl
      given true (some f) = refl
      given false (some f) = insert_built-SameButRoutes route _

  -- If the call returns, it leaves a gateway that is the same but for its routes.
  abbrev pub LeavesSame : Outcome (Gateway W C R × W × Route W C × Option Err) → Type 0
  LeavesSame (returns t) = SameButRoutes g t.0
  LeavesSame (panic s) = Unit

  pub unregister_route-LeavesSame : (m : Matcher) (w : W) → LeavesSame (unregister_route ship m g w)
  unfolding unregister_route
  unregister_route-LeavesSame m w =
      if_intro LeavesSame (m.path == "") refl (at (lookup m.host g.routes))
    where
      closed :
          (f : Option (Forwarder W)) (route : Route W C) (rs : Dict (Dict (Route W C))) (r : R)
          → LeavesSame (do
            w' ← close_forwarder f w
            returns (record g { router = r; routes = rs }, w', route, none))
      closed none route rs r = tt
      closed (some f) route rs r = refl

      removed :
          (rs : Dict (Route W C)) (route : Route W C) (res : R × Option Err)
          → LeavesSame (removed_route ship m rs route g w res)
      removed rs route (r, none) = closed route.forwarder route _ r
      removed rs route (r, some e) = refl

      in_table :
          (rs : Dict (Route W C)) (there : Option (Route W C))
          → LeavesSame (remove_in ship m rs g w there)
      in_table rs none = refl
      in_table rs (some route) = removed rs route _

      at : (rs : Option (Dict (Route W C))) → LeavesSame (remove_at ship m g w rs)
      at none = refl
      at (some rs) = in_table rs _
