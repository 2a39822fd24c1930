-- ===== src/Gateway/Routes/Success.antt =====
-- When `RegisterRoute` succeeds.
use apigw.Common.{
  ◌==◌, eq_refl, Bool, true, false, Option, none, some, is_some, ◌≡◌, refl, ◌≢◌, ◌↔◌, arith,
  ==-false_of_ne, List, subst,
}
use mathlib.Core.List.{reverse}
use apigw.Plugin.{Plugin, sort}
use apigw.Gateway.Routes.Configs.{Named, Makes, build_handler-Made, build_handler_of_Named}
use apigw.Dict.{Dict, lookup}
use apigw.Types.{Middleware, wrap, Handler, Result, ok, err, Err}
use apigw.Route.{Route, Forwarder, route_key}
use apigw.Ship.{Ship, Context}
use apigw.Gateway.{Gateway, handle_request}
use apigw.Gateway.Routes.{
  info_of, added_route, insert_in, insert_at, insert_route, insert_built, build_handler,
  register_given, register_route,
}

module _ {W C R Q : Type 0} (ship : Ship W C R Q) (ctx : Context W C) (route : Route W C)
    (g : Gateway W C R) where
  -- The forwarding of a request inside middlewares, the last of them outermost.
  abbrev pub inside : List (Middleware W) → Handler W
  inside ms = wrap (reverse ms) (handle_request ctx)

  -- What `RegisterRoute` asks of a route. Of the plugins that the route names, the one that comes
  -- at a place of the sorted plugins takes the configuration of the route's entry at that place.
  pub record Acceptable : Type 0 where
    pub given : is_some route.forwarder ≡ true
    pub path : route.matcher.path ≢ ""
    pub plugins : List (Plugin W C)
    pub named : Named g route.plugins plugins
    pub middlewares : List (Middleware W)
    pub makes : Makes (sort plugins) route.plugins middlewares
    pub table : Dict (Route W C)
    pub known : lookup route.matcher.host g.routes ≡ some table
    pub free : lookup (route_key route.matcher) table ≡ none
    pub taken :
        (ship.add_route (info_of (record route { handler = some (inside middlewares) })) g.router).1
        ≡ none

  -- The route's handler is made, and the route goes into the table and the router.
  record Goes : Type 0 where
    given : is_some route.forwarder ≡ true
    path : route.matcher.path ≢ ""
    handler : Handler W
    built : build_handler ctx g route.plugins ≡ ok handler
    table : Dict (Route W C)
    known : lookup route.matcher.host g.routes ≡ some table
    free : lookup (route_key route.matcher) table ≡ none
    taken : (ship.add_route (info_of (record route { handler = some handler })) g.router).1 ≡ none

  Goes-Acceptable : Goes → Acceptable
  Goes-Acceptable v =
      let (ps, ms, named, makes, same) = build_handler-Made ctx g route.plugins v.handler v.built in
      record {
        given = v.given;
        path = v.path;
        plugins = ps;
        named = named;
        middlewares = ms;
        makes = makes;
        table = v.table;
        known = v.known;
        free = v.free;
        taken =
            subst
              (λ (h : Handler W).
                (ship.add_route (info_of (record route { handler = some h })) g.router).1 ≡ none)
              same v.taken;
      }

  Acceptable-Goes : Acceptable → Goes
  Acceptable-Goes v = record {
    given = v.given;
    path = v.path;
    handler = inside v.middlewares;
    built = build_handler_of_Named ctx g route.plugins v.plugins v.middlewares v.named v.makes;
    table = v.table;
    known = v.known;
    free = v.free;
    taken = v.taken;
  }

  built_accepts :
      (b : Result (Handler W)) (at : Option (Dict (Route W C)))
      → is_some route.forwarder ≡ true
      → route.matcher.path ≢ ""
      → build_handler ctx g route.plugins ≡ b
      → lookup route.matcher.host g.routes ≡ at
      → (insert_built ship route b g).2 ≡ none
      → Goes
  unfolding insert_built insert_route
  built_accepts (err e) at given path built known done = cc
  built_accepts (ok h) none given path built known done = ground (arith)
  built_accepts (ok h) (some rs) given path built known done =
      free (lookup (route_key route.matcher) rs) refl (rw known at done)
    where
      new : Route W C
      new = record route { handler = some h }

      added : (res : R × Option Err) → (added_route ship new rs g res).2 ≡ none → res.1 ≡ none
      added (r, none) e = refl
      added (r, some x) e = cc

      free :
          (there : Option (Route W C))
          → lookup (route_key route.matcher) rs ≡ there
          → (insert_in ship new rs g there).2 ≡ none
          → Goes
      free (some r) e done' = cc
      free none e done' = record {
        given = given;
        path = path;
        handler = h;
        built = built;
        table = rs;
        known = known;
        free = e;
        taken = added _ done';
      }

  accepts :
      (no_path : Bool) (f : Option (Forwarder W))
      → (route.matcher.path == "") ≡ no_path
      → route.forwarder ≡ f
      → (register_given ship ctx route g no_path f).2 ≡ none
      → Goes
  unfolding register_given
  accepts no_path none p e done = cc
  accepts true (some f) p e done = cc
  accepts false (some f) p e done =
      built_accepts (build_handler ctx g route.plugins) (lookup route.matcher.host g.routes)
        (rw e refl) (λ q. cc (p, eq_refl "", q)) refl refl done

  succeeds : Goes → (register_route ship ctx route g).2 ≡ none
  unfolding register_route insert_route
  succeeds a = given (route.matcher.path == "") route.forwarder (==-false_of_ne _ "" a.path) a.given
    where
      new : Route W C
      new = record route { handler = some a.handler }

      added : (res : R × Option Err) → res.1 ≡ none → (added_route ship new a.table g res).2 ≡ none
      added (r, none) e = refl
      added (r, some x) e = cc

      placed : (insert_route ship new g).2 ≡ none
      placed = rw (a.known, insert_at, a.free) (added _ a.taken)

      given :
          (no_path : Bool) (f : Option (Forwarder W))
          → no_path ≡ false
          → is_some f ≡ true
          → (register_given ship ctx route g no_path f).2 ≡ none
      given no_path none p e = cc
      given true (some f) p e = cc
      given false (some f) p e = rw (a.built, insert_built) placed

  -- `RegisterRoute` succeeds exactly if the route has a forwarder and a path, the plugins that it
  -- names are known, each of them, at its place in ascending priority, makes a middleware from the
  -- configuration that the route's entry at that place has (in whatever order the entries are), the
  -- route's host is known and has no route with its key, and the router takes the route with the
  -- handler that forwards inside these middlewares.
  pub register_route-eq-none_iff : ((register_route ship ctx route g).2 ≡ none) ↔ Acceptable
  unfolding register_route
  register_route-eq-none_iff =
      (λ done. Goes-Acceptable (accepts _ _ refl refl done), λ v. succeeds (Acceptable-Goes v))
