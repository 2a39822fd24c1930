-- ===== src/Gateway/Routes/Valid.antt =====
-- The well-formedness of a gateway's routes: what it is and what keeps it.
use apigw.Common.{
  String, ◌==◌, Bool, true, false, [], Option, none, some, is_some, ◌≡◌, refl, ◌≢◌, eq_refl,
  if_intro,
}
use apigw.Dict.{Dict, has, lookup, insert, delete}
use apigw.Dict.Laws.{Every, Every-lookup, Every-insert, Every-delete}
use apigw.Types.{Handler, Result, ok, err, Outcome, returns, ReturnsWith, ◌>>=◌, Err}
use apigw.Route.{Matcher, Route, Forwarder, route_key}
use apigw.Ship.{Ship, Context}
use apigw.Gateway.{Gateway}
use apigw.Gateway.Hosts.{close_forwarder, added_host, add_host}
use apigw.Gateway.Routes.{
  added_route, insert_in, insert_at, insert_route, insert_built, build_handler, register_given,
  register_route, removed_route, remove_in, remove_at, unregister_route,
}

-- What holds of a route that stands in the table under a host and a key.
pub record RouteIsValid {W C : Type 0} (host key : String) (r : Route W C) : Type 0 where
  pub its_host : r.matcher.host ≡ host
  pub its_key : route_key r.matcher ≡ key
  pub its_path : r.matcher.path ≢ ""
  pub its_forwarder : is_some r.forwarder ≡ true
  pub its_handler : is_some r.handler ≡ true

abbrev pub AreValid : {W C : Type 0} → Dict (Dict (Route W C)) → Type 0
AreValid = Every λ host. Every (RouteIsValid host)

abbrev pub RoutesAreValid : {W C R : Type 0} → Gateway W C R → Type 0
RoutesAreValid g = AreValid g.routes

module _ {W C R : Type 0} where
  -- `UnregisterRoute` returns, and leaves valid routes.
  abbrev pub LeavesValid : Outcome (Gateway W C R × W × Route W C × Option Err) → Type 0
  LeavesValid = ReturnsWith λ t. RoutesAreValid t.0

module _ {W C R Q : Type 0} (ship : Ship W C R Q) where
  added_host-RoutesAreValid :
      (host : String) (g : Gateway W C R) (res : R × Option Err)
      → RoutesAreValid g
      → RoutesAreValid (added_host ship host g res).0
  unfolding added_host
  added_host-RoutesAreValid host g (r, none) v = Every-insert _ host [] g.routes tt v
  added_host-RoutesAreValid host g (r, some e) v = v

  pub add_host-RoutesAreValid :
      (host : String) (g : Gateway W C R)
      → RoutesAreValid g
      → RoutesAreValid (add_host ship host g).0
  unfolding add_host
  add_host-RoutesAreValid host g v =
      if_intro (λ (t : Gateway W C R × Option Err). RoutesAreValid t.0) (has host g.routes) v
        (if_intro (λ (t : Gateway W C R × Option Err). RoutesAreValid t.0) (host == "")
          (Every-insert _ host [] g.routes tt v) (added_host-RoutesAreValid host g _ v))

  added_route-RoutesAreValid :
      (route : Route W C) (rs : Dict (Route W C)) (g : Gateway W C R) (res : R × Option Err)
      → RouteIsValid route.matcher.host (route_key route.matcher) route
      → RoutesAreValid g
      → Every (RouteIsValid route.matcher.host) rs
      → RoutesAreValid (added_route ship route rs g res).0
  unfolding added_route
  added_route-RoutesAreValid route rs g (r, some e) ok_route v vs = v
  added_route-RoutesAreValid route rs g (r, none) ok_route v vs =
      Every-insert _ route.matcher.host _ g.routes
        (Every-insert _ (route_key route.matcher) route rs ok_route vs) v

  insert_in-RoutesAreValid :
      (route : Route W C) (rs : Dict (Route W C)) (g : Gateway W C R) (there : Option (Route W C))
      → RouteIsValid route.matcher.host (route_key route.matcher) route
      → RoutesAreValid g
      → Every (RouteIsValid route.matcher.host) rs
      → RoutesAreValid (insert_in ship route rs g there).0
  unfolding insert_in
  insert_in-RoutesAreValid route rs g (some r) ok_route v vs = v
  insert_in-RoutesAreValid route rs g none ok_route v vs =
      added_route-RoutesAreValid route rs g _ ok_route v vs

  insert_at-RoutesAreValid :
      (route : Route W C) (g : Gateway W C R) (at : Option (Dict (Route W C)))
      → lookup route.matcher.host g.routes ≡ at
      → RouteIsValid route.matcher.host (route_key route.matcher) route
      → RoutesAreValid g
      → RoutesAreValid (insert_at ship route g at).0
  unfolding insert_at
  insert_at-RoutesAreValid route g none e ok_route v = v
  insert_at-RoutesAreValid route g (some rs) e ok_route v =
      insert_in-RoutesAreValid route rs g _ ok_route v
        (Every-lookup (λ host. Every (RouteIsValid host)) route.matcher.host g.routes v e)

  register_given-RoutesAreValid :
      (ctx : Context W C) (route : Route W C) (g : Gateway W C R) (no_path : Bool)
      (f : Option (Forwarder W))
      → (route.matcher.path == "") ≡ no_path
      → route.forwarder ≡ f
      → RoutesAreValid g
      → RoutesAreValid (register_given ship ctx route g no_path f).0
  unfolding register_given insert_built insert_route
  register_given-RoutesAreValid ctx route g no_path none p e v = v
  register_given-RoutesAreValid ctx route g true (some f) p e v = v
  register_given-RoutesAreValid ctx route g false (some f) p e v =
      built (build_handler ctx g route.plugins)
    where
      built : (b : Result (Handler W)) → RoutesAreValid (insert_built ship route b g).0
      built (err e) = v
      built (ok h) =
          insert_at-RoutesAreValid (record route { handler = some h }) g _ refl
            (record {
              its_host = refl;
              its_key = refl;
              its_path = λ q. cc (p, eq_refl "", q);
              its_forwarder = rw e refl;
              its_handler = refl;
            })
            v

  pub register_route-RoutesAreValid :
      (ctx : Context W C) (route : Route W C) (g : Gateway W C R)
      → RoutesAreValid g
      → RoutesAreValid (register_route ship ctx route g).0
  unfolding register_route
  register_route-RoutesAreValid ctx route g v =
      register_given-RoutesAreValid ctx route g _ _ refl refl v

  removed_route-RoutesAreValid :
      (m : Matcher) (rs : Dict (Route W C)) (route : Route W C) (g : Gateway W C R) (w : W)
      (res : R × Option Err)
      → RouteIsValid m.host (route_key m) route
      → RoutesAreValid g
      → Every (RouteIsValid m.host) rs
      → LeavesValid (removed_route ship m rs route g w res)
  unfolding removed_route
  removed_route-RoutesAreValid m rs route g w (r, some e) ok_route v vs = v
  removed_route-RoutesAreValid m rs route g w (r, none) ok_route v vs =
      closed route.forwarder ok_route.its_forwarder
    where
      closed :
          (f : Option (Forwarder W))
          → is_some f ≡ true
          → LeavesValid (do
            w' ← close_forwarder f w
            returns (
              record g { router = r; routes = insert m.host (delete (route_key m) rs) g.routes },
              w',
              route,
              none,
            ))
      closed none e = cc
      closed (some f) e = Every-insert _ m.host _ g.routes (Every-delete _ (route_key m) rs vs) v

  remove_in-RoutesAreValid :
      (m : Matcher) (rs : Dict (Route W C)) (g : Gateway W C R) (w : W) (at : Option (Route W C))
      → lookup (route_key m) rs ≡ at
      → RoutesAreValid g
      → Every (RouteIsValid m.host) rs
      → LeavesValid (remove_in ship m rs g w at)
  unfolding remove_in
  remove_in-RoutesAreValid m rs g w none e v vs = v
  remove_in-RoutesAreValid m rs g w (some route) e v vs =
      removed_route-RoutesAreValid m rs route g w _ (Every-lookup _ (route_key m) rs vs e) v vs

  remove_at-RoutesAreValid :
      (m : Matcher) (g : Gateway W C R) (w : W) (at : Option (Dict (Route W C)))
      → lookup m.host g.routes ≡ at
      → RoutesAreValid g
      → LeavesValid (remove_at ship m g w at)
  unfolding remove_at
  remove_at-RoutesAreValid m g w none e v = v
  remove_at-RoutesAreValid m g w (some rs) e v =
      remove_in-RoutesAreValid m rs g w _ refl v
        (Every-lookup (λ host. Every (RouteIsValid host)) m.host g.routes v e)

  -- In a gateway with valid routes `UnregisterRoute` does not panic and leaves valid routes.
  pub unregister_route-RoutesAreValid :
      (m : Matcher) (g : Gateway W C R) (w : W)
      → RoutesAreValid g
      → LeavesValid (unregister_route ship m g w)
  unfolding unregister_route
  unregister_route-RoutesAreValid m g w v =
      if_intro LeavesValid (m.path == "") v (remove_at-RoutesAreValid m g w _ refl v)
