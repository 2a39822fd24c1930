-- ===== src/Route.antt =====
-- route.go: matchers, routes, their names and their equality.
pub mod Names
pub mod Equality
use Prim.Native.String
use apigw.Common.{
  String, ◌==◌, if◌then◌else◌, Bool, true, false, ◌&&◌, not, List, [], ◌∷◌, Option, none, some,
  length, nat_eq,
}
use apigw.Types.{Handler, Err}

pub record Matcher : Type 0 where
  pub host : String
  pub path : String
  pub method : String

-- `Config` is an `interface{}`, with values in `C`, or nil.
pub record RoutePlugin (C : Type 0) : Type 0 where
  pub name : String
  pub config : Option C

-- The interface `Forwarder`. Both calls act on the state `W`.
pub record Forwarder (W : Type 0) : Type 0 where
  pub name : String
  pub forward : Handler W
  pub close : W → W × Option Err

-- `none` is a nil forwarder, or a handler that is not built yet.
pub record Route (W C : Type 0) : Type 0 where
  pub matcher : Matcher
  pub plugins : List (RoutePlugin C)
  pub forwarder : Option (Forwarder W)
  pub handler : Option (Handler W)

-- `strings.Join([]string{a, b}, "@")`
abbrev pub join : String → String → String
join a b = String.◌++◌ a (String.◌++◌ "@" b)

unfoldable pub route_key : Matcher → String
route_key m = join m.method m.path

unfoldable pub matcher_name : Matcher → String
matcher_name m = join m.host (join m.method m.path)

unfoldable pub new_matcher : String → String → String → Matcher
new_matcher host path method = record { host = host; path = path; method = method }

-- `r.Matcher == other.Matcher`
unfoldable pub matcher_eq : Matcher → Matcher → Bool
matcher_eq m n = (m.host == n.host) && ((m.path == n.path) && (m.method == n.method))

module _ {W C : Type 0} where
  unfoldable pub new_route_with_matcher : Matcher → Route W C
  new_route_with_matcher m = record { matcher = m; plugins = []; forwarder = none; handler = none }

  unfoldable pub new_route : String → String → String → Route W C
  unfolding new_matcher new_route_with_matcher
  new_route host path method = new_route_with_matcher (new_matcher host path method)

  -- `Route{}`
  abbrev pub zero_route : Route W C
  zero_route = record {
    matcher = record { host = ""; path = ""; method = "" };
    plugins = [];
    forwarder = none;
    handler = none;
  }

  unfoldable pub route_name : Route W C → String
  unfolding matcher_name
  route_name r = matcher_name r.matcher

-- `deep_equal` is `reflect.DeepEqual` on configurations.
module _ {C : Type 0} (deep_equal : Option C → Option C → Bool) where
  unfoldable pub plugin_equal : RoutePlugin C → RoutePlugin C → Bool
  plugin_equal p q = (p.name == q.name) && deep_equal p.config q.config

  -- The loop of `Equal`, entered with lists of one length.
  unfoldable pub plugins_equal : List (RoutePlugin C) → List (RoutePlugin C) → Bool
  unfolding plugin_equal
  plugins_equal [] qs = true
  plugins_equal (p ∷ ps) [] = true
  plugins_equal (p ∷ ps) (q ∷ qs) =
      let rest = plugins_equal ps qs in if not (plugin_equal p q) then false else rest

  unfoldable pub route_equal : {W : Type 0} → Route W C → Route W C → Bool
  unfolding matcher_eq plugins_equal
  route_equal r other =
      if not (matcher_eq r.matcher other.matcher)
      then false
      else if not (nat_eq (length r.plugins) (length other.plugins))
      then false
      else plugins_equal r.plugins other.plugins
