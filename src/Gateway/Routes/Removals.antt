-- ===== src/Gateway/Routes/Removals.antt =====
-- route.go: the routes that are found after `UnregisterRoute`.
use apigw.Common.{◌==◌, if◌then◌else◌, Bool, true, false, Option, none, some, ◌≡◌, refl, ◌≢◌}
use apigw.Dict.{Dict, lookup, insert, delete}
use apigw.Types.{Outcome, returns, panic, ◌>>=◌, Err, no_route, empty_path}
use apigw.Route.{zero_route, Matcher, Route, route_key, Forwarder}
use apigw.Ship.{Ship}
use apigw.Gateway.{Gateway}
use apigw.Gateway.Hosts.{get_route, close_forwarder}
use apigw.Gateway.Routes.{removed_route, remove_in, remove_at, unregister_route}
use apigw.Gateway.Routes.Lookups.{same_entry, find, find-router, find-delete, find_of_lookup}

module _ {W C R Q : Type 0} (ship : Ship W C R Q) where
  -- The contract of `UnregisterRoute` for the lookup of `n` afterwards. A success takes the entry
  -- of the matcher away, returns its route and closes its forwarder once; a failure changes neither
  -- a lookup nor a forwarder; the call panics only at a route with no forwarder.
  abbrev pub Unregisters :
      Matcher
      → Matcher
      → Gateway W C R
      → W
      → Outcome (Gateway W C R × W × Route W C × Option Err)
      → Type 0
  Unregisters n m g w (returns (g', w', r, none)) =
      (find n g' ≡ (if same_entry m n then (zero_route, some no_route) else find n g))
      × (find m g ≡ (r, none))
      × (close_forwarder r.forwarder w ≡ returns w')
  Unregisters n m g w (returns (g', w', r, some e)) = (find n g' ≡ find n g) × (w' ≡ w)
  Unregisters n m g w (panic s) = (r : Route W C) × (find m g ≡ (r, none)) × (r.forwarder ≡ none)

  removed_route-Unregisters :
      (n m : Matcher) (rs : Dict (Route W C)) (route : Route W C) (g : Gateway W C R) (w : W)
      (res : R × Option Err)
      → n.path ≢ ""
      → lookup m.host g.routes ≡ some rs
      → find m g ≡ (route, none)
      → Unregisters n m g w (removed_route ship m rs route g w res)
  unfolding removed_route get_route
  removed_route-Unregisters n m rs route g w (r, some e) ne known there = (find-router n g r, refl)
  removed_route-Unregisters n m rs route g w (r, none) ne known there = closed route.forwarder refl
    where
      closed :
          (f : Option (Forwarder W))
          → route.forwarder ≡ f
          → Unregisters n m g w (do
            w' ← close_forwarder f w
            returns (
              record g { router = r; routes = insert m.host (delete (route_key m) rs) g.routes },
              w',
              route,
              none,
            ))
      closed none e = (route, there, e)
      closed (some f) e = (
        find-delete n m rs (record g { router = r }) ne known,
        there,
        rw (e, close_forwarder) refl,
      )

  remove_in-Unregisters :
      (n m : Matcher) (rs : Dict (Route W C)) (g : Gateway W C R) (w : W) (at : Option (Route W C))
      → n.path ≢ ""
      → (m.path == "") ≡ false
      → lookup m.host g.routes ≡ some rs
      → lookup (route_key m) rs ≡ at
      → Unregisters n m g w (remove_in ship m rs g w at)
  unfolding remove_in
  remove_in-Unregisters n m rs g w none ne path known there = (refl, refl)
  remove_in-Unregisters n m rs g w (some route) ne path known there =
      removed_route-Unregisters n m rs route g w _ ne known
        (find_of_lookup m rs route g path known there)

  remove_at-Unregisters :
      (n m : Matcher) (g : Gateway W C R) (w : W) (at : Option (Dict (Route W C)))
      → n.path ≢ ""
      → (m.path == "") ≡ false
      → lookup m.host g.routes ≡ at
      → Unregisters n m g w (remove_at ship m g w at)
  unfolding remove_at
  remove_at-Unregisters n m g w none ne path known = (refl, refl)
  remove_at-Unregisters n m g w (some rs) ne path known =
      remove_in-Unregisters n m rs g w _ ne path known refl

  -- After a successful `UnregisterRoute`, `GetRoute` fails for the matchers of the removed entry
  -- and elsewhere finds what it found before; the call returns the route that was found and closes
  -- its forwarder once. A failed call changes neither a lookup nor a forwarder, and the call panics
  -- only at a route with no forwarder. (The lookups are those with a path.)
  pub unregister_route-Unregisters :
      (n m : Matcher) (g : Gateway W C R) (w : W)
      → n.path ≢ ""
      → Unregisters n m g w (unregister_route ship m g w)
  unfolding unregister_route
  unregister_route-Unregisters n m g w ne = tested (m.path == "") refl
    where
      tested :
          (no_path : Bool)
          → (m.path == "") ≡ no_path
          → Unregisters n m g w (
              if no_path
              then returns (g, w, zero_route, some empty_path)
              else remove_at ship m g w (lookup m.host g.routes))
      tested true e = (refl, refl)
      tested false e = remove_at-Unregisters n m g w _ ne e refl
