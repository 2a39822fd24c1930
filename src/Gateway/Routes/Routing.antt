-- ===== src/Gateway/Routes/Routing.antt =====
-- gateway.go and route.go: the router has exactly the routes of the table.
use apigw.Common.{
  String, ◌==◌, eq_iff, if◌then◌else◌, Bool, true, false, ◌&&◌, Option, none, some, ◌≡◌, refl, ◌≢◌,
  arith, Bool-cases, inl, inr, if_intro,
}
use apigw.Dict.{Dict, lookup, insert, delete}
use apigw.Types.{Handler, Result, ok, err, Outcome, returns, panic, ◌>>=◌, Err}
use apigw.Route.{Matcher, Route, Forwarder, route_key}
use apigw.Route.Names.{NoAt, route_key_injective}
use apigw.Ship.{Ship, Context, RouteInfo}
use apigw.Gateway.{Gateway}
use apigw.Gateway.Hosts.{close_forwarder}
use apigw.Gateway.Routes.{
  info_of, info_of_matcher, added_route, insert_in, insert_at, insert_route, insert_built,
  register_given, register_route, removed_route, remove_in, remove_at, unregister_route,
}
use apigw.Gateway.Routes.Lookups.{same_entry, find, find-router, find-insert, find-delete}

abbrev pub has_matcher : {W C : Type 0} → RouteInfo W C → Matcher → Bool
has_matcher i m = (i.host == m.host) && ((i.path == m.path) && (i.method == m.method))

-- What the gateway relies on of the router: `holds` is the route that a router has at a host, a
-- path and a method. A call that returns an error changes no route.
pub record RouterLaws {W C R Q : Type 0} (ship : Ship W C R Q) : Type 0 where
  pub holds : Matcher → R → Option (RouteInfo W C)
  pub holds-default : (m : Matcher) → holds m ship.default ≡ none
  pub holds-add_host :
      (m : Matcher) (h : String) (r : R) → holds m (ship.add_host h r).0 ≡ holds m r
  pub holds-del_host :
      (m : Matcher) (h : String) (r : R)
      → h ≢ ""
      → holds m (ship.del_host h r) ≡ (if h == m.host then none else holds m r)
  pub holds-add_route :
      (m : Matcher) (i : RouteInfo W C) (r r' : R)
      → ship.add_route i r ≡ (r', none)
      → holds m r' ≡ (if has_matcher i m then some i else holds m r)
  pub holds-add_route_fails :
      (m : Matcher) (i : RouteInfo W C) (r r' : R) (e : Err)
      → ship.add_route i r ≡ (r', some e)
      → holds m r' ≡ holds m r
  pub holds-del_route :
      (m : Matcher) (i : RouteInfo W C) (r r' : R)
      → ship.del_route i r ≡ (r', none)
      → holds m r' ≡ (if has_matcher i m then none else holds m r)
  pub holds-del_route_fails :
      (m : Matcher) (i : RouteInfo W C) (r r' : R) (e : Err)
      → ship.del_route i r ≡ (r', some e)
      → holds m r' ≡ holds m r

same_entry-has_matcher :
    {W C : Type 0} (i : RouteInfo W C) (n m : Matcher)
    → i.host ≡ n.host
    → i.path ≡ n.path
    → i.method ≡ n.method
    → NoAt n.method
    → NoAt m.method
    → has_matcher i m ≡ same_entry n m
same_entry-has_matcher i n m h p t na nb = ground (
  arith,
  eq_iff i.host m.host,
  eq_iff i.path m.path,
  eq_iff i.method m.method,
  eq_iff n.host m.host,
  eq_iff (route_key n) (route_key m),
  route_key_injective n m na nb,
)

module _ {W C : Type 0} where
  -- The route that `GetRoute` found, as the router is given it.
  abbrev pub routed : Route W C × Option Err → Option (RouteInfo W C)
  routed (r, none) = some (info_of r)
  routed (r, some e) = none

module _ {W C R Q : Type 0} (ship : Ship W C R Q) (laws : RouterLaws ship) where
  -- At every host, path and method the router has the route that `GetRoute` finds, with the handler
  -- that `RegisterRoute` made, and has none where `GetRoute` fails.
  abbrev pub Agrees : Gateway W C R → Type 0
  Agrees g = (m : Matcher) → NoAt m.method → m.path ≢ "" → laws.holds m g.router ≡ routed (find m g)

  pub insert_route-Agrees :
      (route : Route W C) (g : Gateway W C R)
      → NoAt route.matcher.method
      → Agrees g
      → Agrees (insert_route ship route g).0
  unfolding insert_route info_of
  insert_route-Agrees route g na v = at (lookup route.matcher.host g.routes) refl
    where
      i : RouteInfo W C
      i = info_of route

      added :
          (rs : Dict (Route W C)) (res : R × Option Err)
          → lookup route.matcher.host g.routes ≡ some rs
          → ship.add_route i g.router ≡ res
          → Agrees (added_route ship route rs g res).0
      added rs (r, none) known e m nb ne =
          let same = same_entry-has_matcher i route.matcher m refl refl refl na nb in
          rw
            (
              find-insert m route rs (record g { router = r }) ne known,
              laws.holds-add_route m i g.router r e,
              same,
            )
            (elim (Bool-cases (same_entry route.matcher m)) [
              | inl hit ↦ rw hit refl
              | inr miss ↦ rw (miss, find-router m g r) (v m nb ne)
            ])
      added rs (r, some x) known e m nb ne =
          rw (find-router m g r, laws.holds-add_route_fails m i g.router r x e) (v m nb ne)

      in_table :
          (rs : Dict (Route W C)) (there : Option (Route W C))
          → lookup route.matcher.host g.routes ≡ some rs
          → Agrees (insert_in ship route rs g there).0
      in_table rs none known = added rs _ known refl
      in_table rs (some r) known = v

      at :
          (rs : Option (Dict (Route W C)))
          → lookup route.matcher.host g.routes ≡ rs
          → Agrees (insert_at ship route g rs).0
      at none known = v
      at (some rs) known = in_table rs _ known

  pub register_route-Agrees :
      (ctx : Context W C) (route : Route W C) (g : Gateway W C R)
      → NoAt route.matcher.method
      → Agrees g
      → Agrees (register_route ship ctx route g).0
  unfolding register_route
  register_route-Agrees ctx route g na v = given (route.matcher.path == "") route.forwarder
    where
      built : (b : Result (Handler W)) → Agrees (insert_built ship route b g).0
      built (err e) = v
      built (ok h) = insert_route-Agrees (record route { handler = some h }) g na v

      given :
          (no_path : Bool) (f : Option (Forwarder W))
          → Agrees (register_given ship ctx route g no_path f).0
      given no_path none = v
      given true (some f) = v
      given false (some f) = built _

  -- If the call returns, the router agrees with the table that it leaves.
  abbrev pub LeavesAgreeing : Outcome (Gateway W C R × W × Route W C × Option Err) → Type 0
  LeavesAgreeing (returns t) = Agrees t.0
  LeavesAgreeing (panic s) = Unit

  pub unregister_route-Agrees :
      (n : Matcher) (g : Gateway W C R) (w : W)
      → NoAt n.method
      → Agrees g
      → LeavesAgreeing (unregister_route ship n g w)
  unfolding unregister_route info_of_matcher
  unregister_route-Agrees n g w na v =
      if_intro LeavesAgreeing (n.path == "") v (at (lookup n.host g.routes) refl)
    where
      i : RouteInfo W C
      i = info_of_matcher n

      closed :
          (rs : Dict (Route W C)) (route : Route W C) (r : R) (o : Outcome W)
          → lookup n.host g.routes ≡ some rs
          → ship.del_route i g.router ≡ (r, none)
          → LeavesAgreeing (
              o >>= λ w'. returns (
                record g { router = r; routes = insert n.host (delete (route_key n) rs) g.routes },
                w',
                route,
                none,
              ))
      closed rs route r (panic s) known e = tt
      closed rs route r (returns w') known e = λ m nb ne.
          let same = same_entry-has_matcher i n m refl refl refl na nb in
          rw
            (
              find-delete m n rs (record g { router = r }) ne known,
              laws.holds-del_route m i g.router r e,
              same,
            )
            (elim (Bool-cases (same_entry n m)) [
              | inl hit ↦ rw hit refl
              | inr miss ↦ rw (miss, find-router m g r) (v m nb ne)
            ])

      removed :
          (rs : Dict (Route W C)) (route : Route W C) (res : R × Option Err)
          → lookup n.host g.routes ≡ some rs
          → ship.del_route i g.router ≡ res
          → LeavesAgreeing (removed_route ship n rs route g w res)
      removed rs route (r, none) known e =
          closed rs route r (close_forwarder route.forwarder w) known e
      removed rs route (r, some x) known e = λ m nb ne.
          rw (find-router m g r, laws.holds-del_route_fails m i g.router r x e) (v m nb ne)

      in_table :
          (rs : Dict (Route W C)) (there : Option (Route W C))
          → lookup n.host g.routes ≡ some rs
          → LeavesAgreeing (remove_in ship n rs g w there)
      in_table rs none known = v
      in_table rs (some route) known = removed rs route _ known refl

      at :
          (rs : Option (Dict (Route W C)))
          → lookup n.host g.routes ≡ rs
          → LeavesAgreeing (remove_at ship n g w rs)
      at none known = v
      at (some rs) known = in_table rs _ known
