-- ===== src/Tests/Managing.antt =====
-- Managers of groups, and gateways with managers.
use apigw.Common.{
  String, ◌==◌, if◌then◌else◌, false, [], ◌∷◌, none, some, ◌≡◌, refl, ℕ, nat_eq, ◌≢◌, ◌⊎◌, arith,
  eq_iff, true, is_some, ◌&&◌, Option, sym,
}
use apigw.Common.Int.{pos}
use apigw.Dict.{lookup, insert, delete}
use apigw.Types.{returns, Handler, done, ok, panic, no_selector}
use apigw.Route.{route_key}
use apigw.Route
use apigw.Gateway.{Gateway, new_gateway}
use apigw.Gateway.Hosts
use apigw.Gateway.Hosts.{has_host, get_route}
use apigw.Lb.Gateway.{
  del_host, add_manager, get_backend_group_manager, get_route_forwarder, Store, LbGateway,
  new_lb_gateway, add_host,
}
use apigw.Lb.Forwarder.Policy.{Policies, PolicyLaws, set_selector_by_name}
use apigw.Lb.Gateway.Policies.{
  set_route_policy_selector_by_name, set_route_policy_selector_by_name_lem,
}
use apigw.Lb.Gateway.Deletion.{LeavesClosed, del_host_closes_groups}
use apigw.Lb.Gateway.Reach.{add_manager_races, Reach-IsManaged, here, next, adds_host}
use apigw.Ship.{Ship, Context}
use apigw.Lb.{endpoint, entries}
use apigw.Lb.Group.{get_updater_by_name}
use apigw.Lb.Forwarder
use apigw.Lb.Group.Loops.{mentions}
use apigw.Lb.{group}
use apigw.Lb.Forwarder.Joining.{AreApart, add_backend_group_lem}
use apigw.Tests.Objects.{laws, pair, Ids, lb, Checks, hc, heap, Objects}
use apigw.Lb.Forwarder.Closing.{has_joined, updater-close}
use apigw.Lb.Updates.{listed}
use apigw.Lb.GroupManager
use apigw.Lb.GroupManager.Closing.{Left, taken, close_manager_lem}
use apigw.Lb.GroupManager.{
  get_backend_groups, BackendGroupManager, get_backend_group_by_name,
  get_backend_groups_by_updater_name, add_or_new_backend_group, del_updater_by_name,
}
use apigw.Lb.GroupManager.Effects.{
  groups_by_updater-del_updater_by_name, add_or_new_backend_group_lem,
}
use apigw.Lb.Gateway.Managed.{IsManaged}
use apigw.Tests.Fixtures.{site}

abbrev manager : BackendGroupManager
manager = record { name = site; groups = some (("g", 2) ∷ ("h", 1) ∷ []) }

groups_by_updater-del_updater_by_name_example :
    get_backend_groups_by_updater_name "f" manager (del_updater_by_name lb hc "f" manager heap) ≡ []
groups_by_updater-del_updater_by_name_example =
    groups_by_updater-del_updater_by_name lb hc "f" "f" manager heap

two_groups : get_backend_groups_by_updater_name "f" manager heap ≡ 2 ∷ 1 ∷ []
unfolding get_backend_groups_by_updater_name lookup
two_groups = refl

k≢ε : ◌≢◌ {A = String} "k" ""
k≢ε = ground (arith, eq_iff "k" "")

add_or_new_backend_group_lem_example :
    (m' : BackendGroupManager) × (hp' : Objects) × (g : ℕ) × (add_or_new_backend_group hc "k"
        manager heap
      ≡ returns (m', hp', g))
    × (add_or_new_backend_group hc "k" m' hp' ≡ returns (m', hp', g))
    × (get_backend_group_by_name "k" m' ≡ some g)
    × (((m' ≡ manager) × (hp' ≡ heap))
        ⊎ ((g ≡ 3)
            × ((hp'.groups g).name ≡ "k")
            × ((hp'.groups g).backends ≡ some [])
            × ((j : String)
                → get_backend_group_by_name j m'
                  ≡ (if "k" == j then some g else get_backend_group_by_name j manager))
            × ((a : ℕ) → hp'.groups a ≡ (if nat_eq g a then hp'.groups g else heap.groups a))))
add_or_new_backend_group_lem_example =
    add_or_new_backend_group_lem lb hc "k" manager heap (("g", 2) ∷ ("h", 1) ∷ []) k≢ε refl

-- The handlers' state is the store itself.
abbrev Objs : Type 0
Objs = Store (Unit {0}) (Unit {0}) (Unit {0}) Checks Ids

abbrev objs : Objs
objs = record { heap = heap; managers = λ a. manager; next_manager = 0 }

abbrev replace : Objs → Objs → Objs
replace s w = s

abbrev router : Ship Objs String String (Unit {0})
router = record {
  default = "";
  name = λ r. "gateway";
  set_name = λ n r. r;
  add_host = λ h r. (r, none);
  del_host = λ h r. r;
  add_route = λ i r. (r, none);
  del_route = λ i r. (r, none);
  router = λ h r. some tt;
  get_default_host = λ r. r;
  set_default_router = λ h q r. h;
}

abbrev silent : Handler Objs
silent w = (w, done)

abbrev context : Context Objs String
context = record {
  content_length = λ w. pos 0;
  host = λ w. site;
  route_host = λ w. site;
  ctx_data = λ w. none;
  execute = silent;
  is_responded = λ w. false;
  blob_text = λ e w. w;
  text = λ n e w. w;
  is_http_error = λ e. false;
}

abbrev start : LbGateway Objs String String
start = record { gateway = new_gateway router silent; bgms = [] }

Reach-IsManaged_example :
    IsManaged (add_host router lb hc (λ w. w) replace site (new_lb_gateway router silent) objs).0
Reach-IsManaged_example =
    Reach-IsManaged router lb hc (λ w. w) replace context silent (next here (adds_host site))

-- What the gateway is after the gateway's own part of `AddHost`.
abbrev half : Gateway Objs String String
half = record (new_gateway router silent) { routes = (site, []) ∷ [] }

half_added : Hosts.add_host router site (new_gateway router silent) ≡ (half, none)
unfolding Hosts.add_host lookup insert new_gateway
half_added = refl

half_deleted :
    del_host router lb hc (λ w. w) replace site (record start { gateway = half }) objs
    ≡ returns (start, objs, none)
unfolding del_host lookup new_gateway delete Hosts.close_routes
half_deleted = refl

add_manager_races_example :
    (add_host router lb hc (λ w. w) replace site start objs ≡ (
      (add_manager router lb hc (λ w. w) replace site (record start { gateway = half }) objs).0,
      (add_manager router lb hc (λ w. w) replace site (record start { gateway = half }) objs).1,
      none,
    ))
    × (is_some (
          get_backend_group_manager site
            (add_manager router lb hc (λ w. w) replace site start objs).0)
        ≡ true)
    × (has_host site (add_manager router lb hc (λ w. w) replace site start objs).0.gateway ≡ false)
add_manager_races_example =
    add_manager_races router lb hc (λ w. w) replace context site start objs half_added half_deleted

-- A gateway with one route, whose forwarder is the one at address 1.
abbrev forwarder : Route.Forwarder Objs
forwarder = record { name = "f"; forward = silent; close = λ w. (w, none) }

abbrev routed : LbGateway Objs String String
routed = record start {
  gateway = record half {
    routes =
        (
          site,
          (
            "GET@/v1",
            record {
              matcher = record { host = site; path = "/v1"; method = "GET" };
              plugins = [];
              forwarder = some forwarder;
              handler = some silent;
            },
          )
              ∷ [],
        )
        ∷ [];
  };
}

finds_forwarder : get_route_forwarder (λ f. some 1) site "/v1" "GET" routed ≡ returns (ok 1)
unfolding get_route_forwarder lookup route_key
finds_forwarder = refl

updater-close_example :
    let h = (Forwarder.close lb hc (λ l. (l, none)) 1 heap).0 in
    ((j : String) (a : ℕ)
      → get_updater_by_name j (h.groups a) ≡ (
          if has_joined a (entries (heap.forwarders 1).backends) && ("f" == j)
          then none
          else get_updater_by_name j (heap.groups a)))
    × (Forwarder.get_backends hc (h.forwarders 1) ≡ [])
    × ((v : ℕ) → nat_eq 1 v ≡ false → h.forwarders v ≡ heap.forwarders v)
    × ((id : String) (e : Unit {0}) (k : Option (Unit {0})) (d zero : Unit {0})
        → Forwarder.add_backend_with_checker lb hc 1 (endpoint id e) k d zero h
          ≡ panic "assignment to entry in nil map")
updater-close_example = updater-close lb hc (λ l. (l, none)) 1 heap

-- The group at address 2 is one of the backends.
group_has_joined : has_joined 2 (entries (heap.forwarders 1).backends) ≡ true
group_has_joined = refl

-- No forwarder has a backend, and no group an updater.
abbrev apart : Objects
apart = record heap {
  groups = λ g. record pair { updaters = some [] };
  forwarders = λ f. record (heap.forwarders f) { backends = some [] };
}

apart-AreApart : AreApart lb laws hc 1 "g" 2 [] [] apart
unfolding lookup
apart-AreApart = record {
  named = refl;
  backends = refl;
  updaters = refl;
  no_backend = refl;
  no_updater = refl;
}

add_backend_group_lem_example :
    (h : Objects) × (Forwarder.add_backend_group lb hc 1 "g" 2 tt apart ≡ returns h)
    × ((j : String)
        → lookup j (entries (h.forwarders 1).backends) ≡ (
            if "g" == j
            then some
                (record { online = true; backend = group "g" 2; checker = none; duration = tt })
            else none))
    × ((v : ℕ) → nat_eq 1 v ≡ false → h.forwarders v ≡ apart.forwarders v)
    × ((a : ℕ) (j : String)
        → get_updater_by_name j (h.groups a)
          ≡ (if nat_eq 2 a && ("f" == j) then some 1 else get_updater_by_name j (apart.groups a)))
    × ((v : ℕ) (j : String)
        → h.balancers v j
          ≡ (if nat_eq 1 v && mentions j (entries pair.backends) then true else false))
    × ((a : ℕ)
        → ((h.groups a).name ≡ (apart.groups a).name)
          × ((h.groups a).backends ≡ (apart.groups a).backends)
          × ((h.groups a).checker ≡ (apart.groups a).checker))
unfolding lookup
add_backend_group_lem_example =
    add_backend_group_lem lb laws hc 1 "g" 2 tt [] [] apart apart-AreApart (refl, tt)

-- A selector is what a load balancer has; the selector "all" is registered.
abbrev policies : Policies Ids Ids
policies = record {
  session_timeout = λ l. pos 0;
  set_session_timeout = λ t l. l;
  selector = λ l. some l;
  set_selector = λ s l. some s;
  registered = λ name. if name == "all" then some (λ j. true) else none;
}

policies-PolicyLaws : PolicyLaws policies
policies-PolicyLaws = record { selector-set = λ s l l' e. sym e }

set_route_policy_selector_by_name_lem_example :
    (set_selector_by_name policies "any" 1 heap.balancers
      ≡ returns (heap.balancers, some (no_selector "any")))
    × (set_route_policy_selector_by_name policies (λ f. some 1) site "/v1" "GET" routed "any" heap
        ≡ returns (heap, none))
unfolding get_route_forwarder get_route lookup route_key
set_route_policy_selector_by_name_lem_example =
    set_route_policy_selector_by_name_lem policies (λ f. some 1) site "/v1" "GET" routed
      policies-PolicyLaws 1 "any" heap (λ s. (s, refl)) refl

close_manager_lem_example :
    let (m', h) = GroupManager.close lb hc manager heap in
    (get_backend_groups m' ≡ [])
    × ((a : ℕ) → Left (listed a (entries manager.groups)) (heap.groups a) (h.groups a))
    × ((v : ℕ) (j : String)
        → lb.has_endpoint j (h.balancers v)
          ≡ (if taken v j (entries manager.groups) heap then false else heap.balancers v j))
    × ((name : String) → get_backend_group_by_name name m' ≡ none)
    × ((name : String)
        → name ≢ ""
        → add_or_new_backend_group hc name m' h ≡ panic "assignment to entry in nil map")
close_manager_lem_example = close_manager_lem lb laws hc manager heap

-- The gateway with the host, whose manager is the one at address 0.
abbrev whole : LbGateway Objs String String
whole = record { gateway = half; bgms = (site, 0) ∷ [] }

embedded_deletes :
    Hosts.del_host router site half objs ≡ returns (new_gateway router silent, objs, none)
unfolding lookup new_gateway delete Hosts.close_routes Hosts.del_host
embedded_deletes = refl

del_host_closes_groups_example :
    (g' : LbGateway Objs String String) × (w' : Objs) × (del_host router lb hc
        (λ w. w)
        replace
        site
        whole
        objs
      ≡ returns (g', w', none))
    × (g'.gateway ≡ new_gateway router silent)
    × ((j : String)
        → get_backend_group_manager j g'
          ≡ (if site == j then none else get_backend_group_manager j whole))
    × LeavesClosed router lb laws hc (λ w. w) replace 0 objs w'
unfolding get_backend_group_manager lookup
del_host_closes_groups_example =
    del_host_closes_groups router lb laws hc (λ w. w) replace (λ st w. refl) site whole objs objs
      (new_gateway router silent) 0 embedded_deletes refl
