-- ===== src/Gateway/Routes/Lookups.antt =====
-- route.go: the routes that are found after `RegisterRoute`.
use apigw.Common.{
  ◌==◌, eq_iff, if◌then◌else◌, Bool, false, ◌&&◌, Option, none, some, ◌≡◌, refl, ◌≢◌, arith,
  ==-false_of_ne,
}
use apigw.Dict.{Dict, lookup, insert, delete}
use apigw.Dict.Laws.{lookup-insert, lookup-delete}
use apigw.Types.{Err, no_route}
use apigw.Route.{zero_route, Matcher, Route, route_key}
use apigw.Ship.{Ship}
use apigw.Gateway.{Gateway}
use apigw.Gateway.Hosts.{get_route}

-- Two matchers name one entry of the routing table.
abbrev pub same_entry : Matcher → Matcher → Bool
same_entry m n = (m.host == n.host) && (route_key m == route_key n)

module _ {W C R : Type 0} where
  abbrev pub find : Matcher → Gateway W C R → Route W C × Option Err
  find n g = get_route n.host n.path n.method g

  -- The contract of `RegisterRoute` at a matcher: after a success the matcher finds the returned
  -- route if it names the same entry, and otherwise what it found before; a failure changes
  -- nothing.
  abbrev pub Registers :
      Matcher → Route W C → Gateway W C R → Gateway W C R × Route W C × Option Err → Type 0
  Registers n route g (g', r, none) =
      find n g' ≡ (if same_entry route.matcher n then (r, none) else find n g)
  Registers n route g (g', r, some e) = find n g' ≡ find n g

  pub find-router :
      (n : Matcher) (g : Gateway W C R) (r : R) → find n (record g { router = r }) ≡ find n g
  unfolding get_route
  find-router n g r = refl

  pub find-insert :
      (n : Matcher) (route : Route W C) (rs : Dict (Route W C)) (g : Gateway W C R)
      → n.path ≢ ""
      → lookup route.matcher.host g.routes ≡ some rs
      → find n (record g {
        routes = insert route.matcher.host (insert (route_key route.matcher) route rs) g.routes;
      })
        ≡ (if same_entry route.matcher n then (route, none) else find n g)
  unfolding get_route
  find-insert n route rs g ne known = ground (
    arith,
    ==-false_of_ne n.path "" ne,
    eq_iff route.matcher.host n.host,
    lookup-insert route.matcher.host n.host (insert (route_key route.matcher) route rs) g.routes,
    lookup-insert (route_key route.matcher) (route_key n) route rs,
  )

  pub find-delete :
      (n m : Matcher) (rs : Dict (Route W C)) (g : Gateway W C R)
      → n.path ≢ ""
      → lookup m.host g.routes ≡ some rs
      → find n (record g { routes = insert m.host (delete (route_key m) rs) g.routes })
        ≡ (if same_entry m n then (zero_route, some no_route) else find n g)
  unfolding get_route
  find-delete n m rs g ne known = ground (
    arith,
    ==-false_of_ne n.path "" ne,
    eq_iff m.host n.host,
    lookup-insert m.host n.host (delete (route_key m) rs) g.routes,
    lookup-delete (route_key m) (route_key n) rs,
  )

  pub find_of_lookup :
      (m : Matcher) (rs : Dict (Route W C)) (route : Route W C) (g : Gateway W C R)
      → (m.path == "") ≡ false
      → lookup m.host g.routes ≡ some rs
      → lookup (route_key m) rs ≡ some route
      → find m g ≡ (route, none)
  unfolding get_route
  find_of_lookup m rs route g ne known there = rw (ne, known, there)
