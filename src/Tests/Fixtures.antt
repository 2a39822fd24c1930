-- ===== src/Tests/Fixtures.antt =====
-- A small router, request and load balancer, and a gateway over them.
use apigw.Common.{String, true, false, ℕ, List, [], ◌∷◌, none, some, arith}
use apigw.Common.Int.{ℤ, pos}
use apigw.Types.{Handler, Middleware, done, ok, err, from_outside}
use apigw.Plugin.{Plugin}
use apigw.Route.{Matcher, Forwarder, Route}
use apigw.Route.Names.{NoAt}
use apigw.Ship.{Ship, Context}
use apigw.Gateway.{Gateway}

-- A request with the names of what it has run through, the last one first.
pub record Request : Type 0 where
  pub host : String
  pub route_host : String
  pub size : ℤ
  pub trace : List String

abbrev pub note : String → Request → Request
note what w = record w { trace = what ∷ w.trace }

-- The state of the router is its default host.
abbrev pub ship : Ship Request String String (Unit {0})
ship = record {
  default = "";
  name = λ r. "gateway";
  set_name = λ n r. r;
  add_host = λ h r. (r, none);
  del_host = λ h r. r;
  add_route = λ i r. (r, none);
  del_route = λ i r. (r, none);
  router = λ h r. some tt;
  get_default_host = λ r. r;
  set_default_router = λ h q r. h;
}

abbrev pub ctx : Context Request String
ctx = record {
  content_length = λ w. w.size;
  host = λ w. w.host;
  route_host = λ w. w.route_host;
  ctx_data = λ w. none;
  execute = λ w. (note "router" w, done);
  is_responded = λ w. false;
  blob_text = λ e w. w;
  text = λ n e w. w;
  is_http_error = λ e. false;
}

abbrev pub not_found : Handler Request
not_found w = (note "not found" w, done)

abbrev pub tracing : String → Middleware Request
tracing name next w = next (note name w)

-- A plugin that traces its own name and its configuration.
abbrev pub tracer : String → ℕ → Plugin Request String
tracer name prio = record {
  prio = pos prio;
  name = name;
  newf = λ config. elim config [ none ↦ err (from_outside "no config") | some c ↦ ok (tracing c) ];
}

abbrev pub site : String
site = "www.example.com"

abbrev pub request : Request
request = record { host = site; route_host = site; size = pos 10; trace = [] }

abbrev pub backend : Forwarder Request
backend = record {
  name = "f";
  forward = λ w. (note "backend" w, done);
  close = λ w. (note "closed" w, none);
}

abbrev pub matcher : Matcher
matcher = record { host = site; path = "/v1"; method = "GET" }

abbrev pub route : Route Request String
route = record {
  matcher = matcher;
  plugins = record { name = "token"; config = some "t" } ∷ [];
  forwarder = some backend;
  handler = none;
}

-- The route as it stands in a table.
abbrev pub built : Route Request String
built = record route { handler = some not_found }

abbrev pub gateway : Gateway Request String String
gateway = record {
  mdws = tracing "global" ∷ [];
  router = "";
  mdata = ("k", "v") ∷ [];
  routes = (site, ("GET@/v1", built) ∷ []) ∷ [];
  plugins = ("token", tracer "token" 1) ∷ ("log", tracer "log" 2) ∷ [];
  notfounds = [];
  hostmdws = (site, tracing "host" ∷ []) ∷ [];
  notfound = not_found;
  hasgmdw = true;
  hashmdw = true;
  body_max_len = pos 100;
}

-- The gateway before it has a route.
abbrev pub routeless : Gateway Request String String
routeless = record gateway { routes = (site, []) ∷ [] }

pub get-NoAt : NoAt "GET"
get-NoAt = omega arith
