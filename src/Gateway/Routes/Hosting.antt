-- ===== src/Gateway/Routes/Hosting.antt =====
-- Registering and unregistering routes leaves the hosts as they are.
use apigw.Common.{
  String, ◌==◌, eq_iff, Bool, true, false, Option, none, some, ◌≡◌, refl, arith, if_intro,
}
use apigw.Dict.{Dict, lookup, insert, delete}
use apigw.Dict.Laws.{lookup-insert}
use apigw.Types.{Handler, Result, ok, err, Outcome, returns, panic, ◌>>=◌, Err}
use apigw.Route.{Matcher, Route, Forwarder, route_key}
use apigw.Ship.{Ship, Context}
use apigw.Gateway.{Gateway}
use apigw.Gateway.Hosts.{has_host, close_forwarder}
use apigw.Gateway.Routes.{
  added_route, insert_in, insert_at, insert_route, insert_built, register_given, register_route,
  removed_route, remove_in, remove_at, unregister_route,
}

module _ {W C R : Type 0} where
  -- The two gateways have the same hosts.
  abbrev pub SameHosts : Gateway W C R → Gateway W C R → Type 0
  SameHosts g h = (j : String) → has_host j h ≡ has_host j g

  abbrev pub LeavesHosts :
      Gateway W C R → Outcome (Gateway W C R × W × Route W C × Option Err) → Type 0
  LeavesHosts g (returns t) = SameHosts g t.0
  LeavesHosts g (panic s) = Unit

  rerouted-SameHosts : (r : R) (g : Gateway W C R) → SameHosts g (record g { router = r })
  unfolding has_host
  rerouted-SameHosts r g j = refl

  refilled-SameHosts :
      (host : String) (rs rs' : Dict (Route W C)) (r : R) (g : Gateway W C R)
      → lookup host g.routes ≡ some rs
      → SameHosts g (record g { router = r; routes = insert host rs' g.routes })
  unfolding has_host
  refilled-SameHosts host rs rs' r g known j =
      ground (arith, eq_iff host j, lookup-insert host j rs' g.routes)

module _ {W C R Q : Type 0} (ship : Ship W C R Q) (g : Gateway W C R) where
  insert_route-SameHosts : (route : Route W C) → SameHosts g (insert_route ship route g).0
  unfolding insert_route
  insert_route-SameHosts route = at (lookup route.matcher.host g.routes) refl
    where
      added :
          (rs : Dict (Route W C)) (res : R × Option Err)
          → lookup route.matcher.host g.routes ≡ some rs
          → SameHosts g (added_route ship route rs g res).0
      added rs (r, none) known = refilled-SameHosts route.matcher.host rs _ r g known
      added rs (r, some e) known = rerouted-SameHosts r g

      in_table :
          (rs : Dict (Route W C)) (there : Option (Route W C))
          → lookup route.matcher.host g.routes ≡ some rs
          → SameHosts g (insert_in ship route rs g there).0
      in_table rs none known = added rs _ known
      in_table rs (some r) known = λ j. refl

      at :
          (rs : Option (Dict (Route W C)))
          → lookup route.matcher.host g.routes ≡ rs
          → SameHosts g (insert_at ship route g rs).0
      at none known = λ j. refl
      at (some rs) known = in_table rs _ known

  pub register_route-SameHosts :
      (ctx : Context W C) (route : Route W C) → SameHosts g (register_route ship ctx route g).0
  unfolding register_route
  register_route-SameHosts ctx route = given (route.matcher.path == "") route.forwarder
    where
      built : (b : Result (Handler W)) → SameHosts g (insert_built ship route b g).0
      built (err e) = λ j. refl
      built (ok h) = insert_route-SameHosts (record route { handler = some h })

      given :
          (no_path : Bool) (f : Option (Forwarder W))
          → SameHosts g (register_given ship ctx route g no_path f).0
      given no_path none = λ j. refl
      given true (some f) = λ j. refl
      given false (some f) = built _

  pub unregister_route-LeavesHosts :
      (m : Matcher) (w : W) → LeavesHosts g (unregister_route ship m g w)
  unfolding unregister_route
  unregister_route-LeavesHosts m w =
      if_intro (LeavesHosts g) (m.path == "") (λ j. refl) (at (lookup m.host g.routes) refl)
    where
      closed :
          (rs : Dict (Route W C)) (route : Route W C) (r : R) (o : Outcome W)
          → lookup m.host g.routes ≡ some rs
          → LeavesHosts g (
              o >>= λ w'. returns (
                record g { router = r; routes = insert m.host (delete (route_key m) rs) g.routes },
                w',
                route,
                none,
              ))
      closed rs route r (returns w') known = refilled-SameHosts m.host rs _ r g known
      closed rs route r (panic s) known = tt

      removed :
          (rs : Dict (Route W C)) (route : Route W C) (res : R × Option Err)
          → lookup m.host g.routes ≡ some rs
          → LeavesHosts g (removed_route ship m rs route g w res)
      removed rs route (r, none) known = closed rs route r (close_forwarder route.forwarder w) known
      removed rs route (r, some e) known = rerouted-SameHosts r g

      in_table :
          (rs : Dict (Route W C)) (there : Option (Route W C))
          → lookup m.host g.routes ≡ some rs
          → LeavesHosts g (remove_in ship m rs g w there)
      in_table rs none known = λ j. refl
      in_table rs (some route) known = removed rs route _ known

      at :
          (rs : Option (Dict (Route W C)))
          → lookup m.host g.routes ≡ rs
          → LeavesHosts g (remove_at ship m g w rs)
      at none known = λ j. refl
      at (some rs) known = in_table rs _ known
