-- ===== src/Tests/Serving.antt =====
-- A request that goes through the router to the forwarder of its route.
use mathlib.Core.Path.{fun_ext, sym}
use apigw.Common.{
  eq_iff, ==-false_of_ne, subst, Bool-cases, inl, inr, ◌==◌, String, Bool, true, false, List, [],
  ◌∷◌, Option, none, some, is_some, ◌≡◌, ◌≢◌, arith, refl, ap, if◌then◌else◌, ◌∙◌,
}
use apigw.Common.Int.{pos}
use apigw.Types.{ok, fail, request_entity_too_large, Handler, Middleware, done, panics, wrap, Err}
use apigw.Plugin.{Plugin, sort}
use apigw.Route.{Matcher, Forwarder, Route, route_key}
use apigw.Route.Names.{NoAt}
use apigw.Ship.{Ship, Context, RouteInfo}
use apigw.Gateway.{hooks, Gateway, handle_request, not_found_handler, execute_route}
use apigw.Gateway.Hosts.{get_route}
use apigw.Gateway.Executes.{FlagsAreRight, is_too_large, request_mdws}
use apigw.Dict.{lookup, insert}
use apigw.Gateway.Registry.{plugin}
use apigw.Gateway.Routes.{register_route, info_of, insert_route, pick_plugins, build}
use apigw.Gateway.Routes.Routing.{RouterLaws, has_matcher, Agrees, register_route-Agrees}
use apigw.Gateway.Serving.{run, Executes, serve, execute_route-serve}
use apigw.Tests.Fixtures.{get-NoAt, site, matcher}

-- A request in the router: whether it asks for the only route, and whether it has been given it.
pub record Visit : Type 0 where
  pub asks : Bool
  pub routed : Bool
  pub trace : List String

abbrev mark : String → Visit → Visit
mark what w = record w { trace = what ∷ w.trace }

abbrev Router : Type 0
Router = Matcher → Option (RouteInfo Visit String)

abbrev keeping : Ship Visit String Router (Unit {0})
keeping = record {
  default = λ m. none;
  name = λ r. "gateway";
  set_name = λ n r. r;
  add_host = λ h r. (r, none);
  del_host = λ h r m. if h == m.host then none else r m;
  add_route = λ i r. ((λ m. if has_matcher i m then some i else r m), none);
  del_route = λ i r. ((λ m. if has_matcher i m then none else r m), none);
  router = λ h r. none;
  get_default_host = λ r. "";
  set_default_router = λ h q r. r;
}

abbrev run_at : Matcher → Router × Option Err → Option (RouteInfo Visit String)
run_at m t = t.0 m

laws : RouterLaws keeping
laws = record {
  holds = λ m r. r m;
  holds-default = λ m. refl;
  holds-add_host = λ m h r. refl;
  holds-del_host = λ m h r nh. refl;
  holds-add_route = λ m i r r' e. sym (ap (run_at m) e);
  holds-add_route_fails = λ m i r r' x e. cc (e);
  holds-del_route = λ m i r r' e. sym (ap (run_at m) e);
  holds-del_route_fails = λ m i r r' x e. cc (e);
}

abbrev target_forwarder : Forwarder Visit
target_forwarder = record {
  name = "f";
  forward = λ w. (mark "backend" w, done);
  close = λ w. (mark "closed" w, none);
}

abbrev guard : Middleware Visit
guard next w = next (mark "token" w)

abbrev token : Plugin Visit String
token = record { prio = pos 1; name = "token"; newf = λ config. ok guard }

abbrev given : Route Visit String
given = record {
  matcher = matcher;
  plugins = record { name = "token"; config = none } ∷ [];
  forwarder = some target_forwarder;
  handler = none;
}

-- The forwarding of a request to the only route.
abbrev forwards : Handler Visit
forwards w = if w.routed then (mark "backend" w, done) else (w, panics "interface conversion")

abbrev held : Route Visit String
held = record given { handler = some (guard forwards) }

abbrev not_found : Handler Visit
not_found w = (mark "not found" w, done)

abbrev ctx : Context Visit String
ctx = record {
  content_length = λ w. pos 10;
  host = λ w. site;
  route_host = λ w. site;
  ctx_data = λ w. if w.routed then some held else none;
  execute = λ w. if w.asks then guard forwards (record w { routed = true }) else not_found w;
  is_responded = λ w. false;
  blob_text = λ e w. w;
  text = λ n e w. w;
  is_http_error = λ e. false;
}

abbrev before : Gateway Visit String Router
before = record {
  mdws = guard ∷ [];
  router = λ m. none;
  mdata = [];
  routes = (site, []) ∷ [];
  plugins = ("token", token) ∷ [];
  notfounds = [];
  hostmdws = [];
  notfound = not_found;
  hasgmdw = true;
  hashmdw = false;
  body_max_len = pos 100;
}

abbrev registered : Route Visit String
registered = record given { handler = some (guard (handle_request ctx)) }

abbrev after : Gateway Visit String Router
after = (register_route keeping ctx given before).0

holds_it : laws.holds matcher after.router ≡ some (info_of registered)
unfolding register_route lookup insert insert_route route_key pick_plugins build plugin sort laws
holds_it = refl

forwards_at :
    (w : Visit) (b : Bool)
    → w.routed ≡ b
    → handle_request ctx (record w { routed = b }) ≡ forwards (record w { routed = b })
unfolding handle_request
forwards_at w true e = refl
forwards_at w false e = refl

handle_request-forwards : (w : Visit) → handle_request ctx w ≡ forwards w
unfolding handle_request
handle_request-forwards w = forwards_at w w.routed refl

held-registered : held ≡ registered
held-registered =
    ap (λ (h : Handler Visit). record given { handler = some (guard h) })
      (fun_ext (λ w. sym (handle_request-forwards w)))

abbrev matched : Visit → Option Matcher
matched w = if w.asks then some matcher else none

matcher_path : matcher.path ≢ ""
matcher_path = ground (arith, eq_iff matcher.path "")

matched-some : (w : Visit) (m : Matcher) → matched w ≡ some m → (w.asks ≡ true) × (matcher ≡ m)
matched-some w m e = elim (Bool-cases w.asks) [
  | inl t ↦ (t, (let same : some matcher ≡ some m = rw t at e in cc (same)))
  | inr f ↦ (let no : none ≡ some m = rw f at e in cc (no))
]

held_at :
    (w : Visit) (m : Matcher) (i : RouteInfo Visit String)
    → matched w ≡ some m
    → laws.holds m after.router ≡ some i
    → info_of registered ≡ i
held_at w m i at e =
    let there : laws.holds matcher after.router ≡ some i =
      subst (λ m. laws.holds m after.router ≡ some i) (sym (matched-some w m at).1) e in
    let same : some (info_of registered) ≡ some i = sym holds_it ∙ there in cc (same)

abbrev execution : Handler Visit → Handler Visit
execution absent w = if w.asks then guard forwards (record w { routed = true }) else absent w

runs_there :
    (absent : Handler Visit) (w : Visit)
    → w.asks ≡ true
    → execution absent w ≡ guard (handle_request ctx) (record w { routed = true })
runs_there absent w e =
    ap (λ b. if b then guard forwards (record w { routed = true }) else absent w) e
    ∙ (sym (handle_request-forwards (mark "token" (record w { routed = true }))))

execute-execution : (w : Visit) → ctx.execute w ≡ execution (hooks ctx after).not_found w
unfolding hooks not_found_handler register_route lookup insert insert_route route_key pick_plugins
    build plugin sort
execute-execution w = refl

misses_there :
    (absent : Handler Visit) (w : Visit) → matched w ≡ none → execution absent w ≡ absent w
misses_there absent w missing = elim (Bool-cases w.asks) [
  | inl t ↦ (let no : some matcher ≡ none = rw t at missing in cc (no))
  | inr f ↦ ap (λ b. if b then guard forwards (record w { routed = true }) else absent w) f
]

-- The router of a gateway with one route does what the gateway relies on.
executes : Executes keeping laws ctx after
unfolding info_of
executes = record {
  matched = matched;
  bind = λ i w. record w { routed = is_some i.ctx_data };
  executes = execution;
  execute-executes = execute-execution;
  ctx_data-bind = λ w m i at e.
      subst (λ i. (if is_some i.ctx_data then some held else none) ≡ i.ctx_data)
        (held_at w m i at e) (ap some held-registered);
  has_path = λ w m e. subst (λ m. m.path ≢ "") (matched-some w m e).1 matcher_path;
  has_method = λ w m e. subst (λ m. NoAt m.method) (matched-some w m e).1 get-NoAt;
  runs = λ absent w m i at e.
      subst (λ i. execution absent w ≡ run i.handler (record w { routed = is_some i.ctx_data }))
        (held_at w m i at e) (runs_there absent w (matched-some w m at).0);
  misses = misses_there;
  finds = λ w m at.
      subst (λ m. is_some (laws.holds m after.router) ≡ true) (matched-some w m at).1
        (ap is_some holds_it);
}

before-Agrees : Agrees keeping laws before
unfolding get_route lookup laws
before-Agrees m na ne = elim (Bool-cases (site == m.host)) [
  | inl hit ↦ rw (==-false_of_ne m.path "" ne, hit) refl
  | inr miss ↦ rw (==-false_of_ne m.path "" ne, miss) refl
]

after-Agrees : Agrees keeping laws after
after-Agrees = register_route-Agrees keeping laws ctx given before get-NoAt before-Agrees

after-FlagsAreRight : FlagsAreRight after
unfolding register_route lookup insert insert_route route_key pick_plugins build plugin sort
after-FlagsAreRight = record { globals = refl; hosts = λ e. refl }

abbrev visit : Visit
visit = record { asks = true; routed = false; trace = [] }

execute_route-serve_example : (hooks ctx after).router_executor visit ≡ (
    if is_too_large ctx after visit
    then (visit, fail request_entity_too_large)
    else wrap (request_mdws ctx after visit) (serve keeping laws ctx after executes) visit)
execute_route-serve_example =
    execute_route-serve keeping laws ctx after executes after-FlagsAreRight after-Agrees visit

-- The request passes the global middleware, the plugin's and the forwarder.
is_served :
    execute_route ctx after visit
    ≡ (record visit { routed = true; trace = "backend" ∷ "token" ∷ "token" ∷ [] }, done)
unfolding register_route lookup insert insert_route route_key pick_plugins build plugin sort
    execute_route wrap
is_served = refl
