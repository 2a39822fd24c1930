-- ===== src/Gateway/Agreement.antt =====
-- gateway.go and route.go: whatever calls are made, the router has the routes of the table.
use apigw.Common.{
  String, ◌==◌, eq_iff, if◌then◌else◌, false, Option, none, some, ◌≡◌, refl, ◌≢◌, arith, Bool-cases,
  inl, inr, ==-false_of_ne, [], if_intro, subst,
}
use apigw.Dict.{Dict, lookup, insert, delete, has, values}
use apigw.Dict.Laws.{lookup-insert, lookup-delete}
use apigw.Types.{Handler, Outcome, returns, panic, ◌>>=◌, Err}
use apigw.Route.{Matcher, Route}
use apigw.Route.Names.{NoAt}
use apigw.Ship.{Ship, Context}
use apigw.Gateway.{Gateway, new_gateway}
use apigw.Gateway.Hosts.{get_route, added_host, add_host, close_routes, forget_host, del_host}
use apigw.Gateway.Routes.{insert_route, register_route, unregister_route}
use apigw.Gateway.Routes.Lookups.{find, find-router}
use apigw.Gateway.Routes.Routing.{
  insert_route-Agrees, RouterLaws, routed, Agrees, register_route-Agrees, LeavesAgreeing,
  unregister_route-Agrees,
}

module _ {W C R : Type 0} where
  routed-new_host :
      (m : Matcher) (host : String) (r : R) (g : Gateway W C R)
      → m.path ≢ ""
      → has host g.routes ≡ false
      → routed (find m (record g { router = r; routes = insert host [] g.routes }))
        ≡ routed (find m g)
  unfolding get_route lookup
  routed-new_host m host r g ne new = elim (Bool-cases (host == m.host)) [
    | inl hit ↦
        let same = (eq_iff host m.host).0 hit in
        let unknown : lookup m.host g.routes ≡ none = ground (arith) in
        rw (==-false_of_ne m.path "" ne, lookup-insert host m.host [] g.routes, hit, unknown) refl
    | inr miss ↦ rw (==-false_of_ne m.path "" ne, lookup-insert host m.host [] g.routes, miss) refl
  ]

  routed-deleted :
      (m : Matcher) (host : String) (g h : Gateway W C R)
      → m.path ≢ ""
      → h.routes ≡ delete host g.routes
      → routed (find m h) ≡ (if host == m.host then none else routed (find m g))
  unfolding get_route
  routed-deleted m host g h ne gone = elim (Bool-cases (host == m.host)) [
    | inl hit ↦ rw (gone, ==-false_of_ne m.path "" ne, lookup-delete host m.host g.routes, hit) refl
    | inr miss ↦
        rw (gone, ==-false_of_ne m.path "" ne, lookup-delete host m.host g.routes, miss) refl
  ]

  routed-same : (m : Matcher) (g h : Gateway W C R) → h.routes ≡ g.routes → find m h ≡ find m g
  unfolding get_route
  routed-same m g h same = rw same refl

module _ {W C R Q : Type 0} (ship : Ship W C R Q) (laws : RouterLaws ship) where
  abbrev AgreesAll : Gateway W C R → Type 0
  AgreesAll = Agrees ship laws

  add_host-Agrees :
      (host : String) (g : Gateway W C R) → AgreesAll g → AgreesAll (add_host ship host g).0
  unfolding add_host
  add_host-Agrees host g v = elim (Bool-cases (has host g.routes)) [
    | inl known ↦ rw known v
    | inr new ↦ rw new (
        if_intro (λ (t : Gateway W C R × Option Err). AgreesAll t.0) (host == "")
          (λ m nb ne. rw (routed-new_host m host g.router g ne new) (v m nb ne))
          (added new (ship.add_host host g.router) refl))
  ]
    where
      added :
          has host g.routes ≡ false
          → (res : R × Option Err) → ship.add_host host g.router ≡ res
          → AgreesAll (added_host ship host g res).0
      added new (r, none) e = λ m nb ne.
          let kept = rw e at (laws.holds-add_host m host g.router) in
          rw (routed-new_host m host r g ne new, kept) (v m nb ne)
      added new (r, some x) e = λ m nb ne.
          let kept = rw e at (laws.holds-add_host m host g.router) in
          rw (find-router m g r, kept) (v m nb ne)

  abbrev DeletesAgreeing : Outcome (Gateway W C R × W × Option Err) → Type 0
  DeletesAgreeing (returns t) = AgreesAll t.0
  DeletesAgreeing (panic s) = Unit

  del_host-Agrees :
      (host : String) (g : Gateway W C R) (w : W)
      → host ≢ ""
      → AgreesAll g
      → DeletesAgreeing (del_host ship host g w)
  unfolding del_host forget_host
  del_host-Agrees host g w nh v = at (lookup host g.routes)
    where
      closed :
          (o : Outcome W)
          → DeletesAgreeing (o >>= λ w'. returns (forget_host ship host g, w', none))
      closed (returns w') = λ m nb ne.
          rw
            (
              routed-deleted m host g (forget_host ship host g) ne refl,
              laws.holds-del_host m host g.router nh,
              v m nb ne,
            )
            refl
      closed (panic s) = tt

      at :
          (rs : Option (Dict (Route W C)))
          → DeletesAgreeing (elim rs [
            | none ↦ returns (g, w, none)
            | some rs ↦ do
              w' ← close_routes (values rs) w
              returns (forget_host ship host g, w', none)
          ])
      at none = v
      at (some rs) = closed (close_routes (values rs) w)

module _ {W C R Q : Type 0} (ship : Ship W C R Q) (laws : RouterLaws ship) (ctx : Context W C) where
  -- One call. `changes` is a call that touches neither the routes nor the router; `acts` is
  -- whatever handlers and forwarders do. The methods that are registered and unregistered have no
  -- `@`, and the default host stays.
  pub data Step (g : Gateway W C R) (w : W) : Gateway W C R → W → Type 0 where
    adds_host : (host : String) → Step g w (add_host ship host g).0 w
    dels_host :
        {h : Gateway W C R} {w' : W} {e : Option Err} (host : String)
        → host ≢ ""
        → del_host ship host g w ≡ returns (h, w', e)
        → Step g w h w'
    registers_route :
        (route : Route W C)
        → NoAt route.matcher.method
        → Step g w (register_route ship ctx route g).0 w
    -- The part of `RegisterRoute` that holds the lock, whatever was called since the handler was
    -- made.
    inserts_route :
        (route : Route W C) (h : Handler W)
        → NoAt route.matcher.method
        → Step g w (insert_route ship (record route { handler = some h }) g).0 w
    unregisters_route :
        {h : Gateway W C R} {w' : W} {r : Route W C} {e : Option Err} (m : Matcher)
        → NoAt m.method
        → unregister_route ship m g w ≡ returns (h, w', r, e)
        → Step g w h w'
    changes : (h : Gateway W C R) → h.routes ≡ g.routes → h.router ≡ g.router → Step g w h w
    acts : (w' : W) → Step g w g w'

  pub data Reach (g : Gateway W C R) (w : W) : Gateway W C R → W → Type 0 where
    here : Reach g w g w
    next :
        {g' : Gateway W C R} {w' : W} {g'' : Gateway W C R} {w'' : W}
        → Reach g w g' w'
        → Step g' w' g'' w''
        → Reach g w g'' w''

  Step-Agrees :
      {g : Gateway W C R} {w : W} {h : Gateway W C R} {w' : W}
      → Step g w h w'
      → Agrees ship laws g
      → Agrees ship laws h
  Step-Agrees {g} (adds_host host) v = add_host-Agrees ship laws host g v
  Step-Agrees {g} {w} (dels_host host nh p) v =
      subst (DeletesAgreeing ship laws) p (del_host-Agrees ship laws host g w nh v)
  Step-Agrees {g} (registers_route route na) v = register_route-Agrees ship laws ctx route g na v
  Step-Agrees {g} (inserts_route route h na) v =
      insert_route-Agrees ship laws (record route { handler = some h }) g na v
  Step-Agrees {g} {w} (unregisters_route m na p) v =
      subst (LeavesAgreeing ship laws) p (unregister_route-Agrees ship laws m g w na v)
  Step-Agrees {g} (changes h same router) v =
      λ m nb ne. rw (routed-same m g h same, router) (v m nb ne)
  Step-Agrees (acts w') v = v

  new_gateway-Agrees : (not_found : Handler W) → Agrees ship laws (new_gateway ship not_found)
  unfolding new_gateway get_route lookup
  new_gateway-Agrees not_found m nb ne = rw (laws.holds-default m, ==-false_of_ne m.path "" ne) refl

  -- Where the router keeps its routes by host, path and method, each path apart, every sequence of
  -- calls, where other calls may come between the parts of `RegisterRoute` before its lock and under
  -- it, that starts from a new gateway, neither registers nor unregisters a method with an `@`, does
  -- not delete the default host and does not set the name or the default host leaves the router with
  -- the route that `GetRoute` finds at every host, every path that is not empty and every method
  -- without an `@`, with the handler that `RegisterRoute` made, and with none where `GetRoute` fails.
  pub Reach-Agrees :
      (not_found : Handler W) {w w' : W} {g : Gateway W C R}
      → Reach (new_gateway ship not_found) w g w'
      → Agrees ship laws g
  Reach-Agrees not_found here = new_gateway-Agrees not_found
  Reach-Agrees not_found (next r st) = Step-Agrees st (Reach-Agrees not_found r)
