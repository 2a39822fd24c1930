-- ===== src/Tests/Balancing.antt =====
-- Groups and forwarders.
use apigw.Common.{
  Bool, String, ◌==◌, if◌then◌else◌, true, false, not, ◌&&◌, ◌||◌, [], ◌∷◌, Option, none, some,
  is_some, ◌≡◌, refl, ℕ, nat_eq,
}
use apigw.Common.Int.{ℤ}
use apigw.Dict.{lookup, insert, has, delete}
use apigw.Types.{returns, Handler, fail, no_available_endpoints}
use apigw.Lb.{endpoint, backend_id, Balancers, entries, add_backend, add_to_all, del_from_all}
use apigw.Lb.Updates.{listed}
use apigw.Lb.Group.{
  new_group_backend, add_updater, add_backend_with_checker, del_backend, inform, drop_backend,
  del_endpoint,
}
use apigw.Lb.Group.Effects.{
  add_backend_with_checker_lem, del_backend_lem, add_updater_ignores_health,
}
use apigw.Lb.Group.Sync.{IsInSync}
use apigw.Lb.Group.Steps.{here, next, adds, is_down, adds_updater, Reach-IsInSync}
use apigw.Lb.Forwarder
use apigw.Lb.Forwarder.{forward}
use apigw.Lb.Forwarder.Effects.{
  Adds, add_backend_with_checker-Adds, del_backend_of_endpoint, Passes, forward_lem,
}
use apigw.Tests.Objects.{Ids, lb, laws, hc, node, plain, checked, nobody, Group, fresh, pair, heap}

add_backend_with_checker_lem_example :
    (b' : Group) × (s' : Balancers Ids) × (add_backend_with_checker lb hc
        (node "b")
        none
        tt
        pair
        nobody
      ≡ returns (b', s'))
    × ((j : String) → has j (entries b'.backends) ≡ (("b" == j) || has j (("a", plain "a") ∷ [])))
    × ((v : ℕ) (j : String)
        → s' v j ≡ (
            if not (has "b" (("a", plain "a") ∷ []))
              && (not (is_some {A = Unit {0}} none) && (listed v (("f", 1) ∷ []) && ("b" == j)))
            then true
            else false))
unfolding backend_id
add_backend_with_checker_lem_example =
    add_backend_with_checker_lem lb laws hc pair nobody (node "b") none tt (("a", plain "a") ∷ [])
      refl

del_backend_lem_example :
    ((j : String)
      → has j (entries (del_backend lb hc "a" pair nobody).0.backends)
        ≡ (not ("a" == j) && has j (("a", plain "a") ∷ [])))
    × ((v : ℕ) (j : String)
        → (del_backend lb hc "a" pair nobody).1 v j ≡ (
            if has "a" (("a", plain "a") ∷ []) && (listed v (("f", 1) ∷ []) && ("a" == j))
            then false
            else false))
del_backend_lem_example = del_backend_lem lb laws hc pair nobody "a"

abbrev alone : Group
alone = record pair { updaters = some [] }

-- Backend `a` is ill and `b` is well.
abbrev half_ill : Group
half_ill = record {
  checker = (node "a", false) ∷ (node "b", true) ∷ [];
  name = "g";
  backends = some (("a", checked "a") ∷ ("b", checked "b") ∷ []);
  updaters = some [];
}

add_updater_ignores_health_example :
    (b' : Group) × (s' : Balancers Ids) × (add_updater lb hc "f" 1 half_ill nobody
      ≡ returns (b', s'))
    × (s' 1 "a" ≡ true)
unfolding lookup backend_id
add_updater_ignores_health_example =
    add_updater_ignores_health lb laws hc half_ill nobody "f" 1 [] "a" (checked "a") refl refl
      ((refl, refl), ((refl, refl), tt)) refl refl

abbrev named_f : ℕ → String
named_f u = "f"

-- The group `pair`, after it has also taken the checked backend `b`.
abbrev checking : Group
checking = record pair {
  checker = (node "b", false) ∷ [];
  backends = some (("a", plain "a") ∷ ("b", checked "b") ∷ []);
}

abbrev informed : Balancers Ids
informed = add_backend lb 1 (node "a") nobody

checks_b :
    add_backend_with_checker lb hc (node "b") (some tt) tt pair informed
    ≡ returns (checking, informed)
unfolding add_backend_with_checker lookup insert backend_id
checks_b = refl

-- A backend is added, a forwarder joins, a checked backend is added, and the checker finds it ill.
Reach-IsInSync_example :
    IsInSync lb laws hc named_f checking (del_endpoint lb hc "b" checking informed)
unfolding new_group_backend add_updater lookup insert add_backend_with_checker backend_id inform
    add_to_all add_backend
Reach-IsInSync_example = Reach-IsInSync lb laws hc named_f "g" fresh nobody refl (
    next
      (next
        (next (next here (adds {b' = alone} {s' = nobody} (node "a") none tt refl))
          (adds_updater {b' = pair} {s' = informed} 1 refl))
        (adds (node "b") (some tt) tt checks_b))
      (is_down "b" (λ info e. let same : checked "b" ≡ info = cc (e) in cc (same))))

-- The bug: `b` is dropped and, before it is unchecked, added again without a checker; then its old
-- checker finds it ill, and the group has it online while it is no endpoint of the forwarder.
abbrev readded : Group
readded = record checking { backends = some (("a", plain "a") ∷ ("b", plain "b") ∷ []) }

abbrev dropped : Group × Balancers Ids × Bool
dropped = drop_backend lb hc "b" checking informed

readds :
    add_backend_with_checker lb hc (node "b") none tt dropped.0 dropped.1
    ≡ returns (readded, add_backend lb 1 (node "b") dropped.1)
unfolding add_backend_with_checker lookup insert delete backend_id drop_backend add_to_all
readds = refl

readded_is_lost :
    (lookup "b" (entries readded.backends) ≡ some (plain "b"))
    × (del_endpoint lb hc "b" readded (add_backend lb 1 (node "b") dropped.1) 1 "b" ≡ false)
unfolding lookup del_endpoint del_from_all
readded_is_lost = (refl, refl)

add_backend_with_checker-Adds_example :
    Adds lb laws hc heap 1 "d" none
      (entries (heap.forwarders 1).backends)
      (Forwarder.add_backend_with_checker lb hc 1 (endpoint "d" tt) none tt tt heap)
add_backend_with_checker-Adds_example =
    add_backend_with_checker-Adds lb laws hc heap 1 "d" tt none tt tt
      (entries (heap.forwarders 1).backends) refl

del_backend_of_endpoint_example :
    ((j : String)
      → lookup j (entries ((Forwarder.del_backend lb hc 1 "c" heap).forwarders 1).backends)
        ≡ (if "c" == j then none else lookup j (entries (heap.forwarders 1).backends)))
    × ((v : ℕ) (j : String)
        → (Forwarder.del_backend lb hc 1 "c" heap).balancers v j
          ≡ (if nat_eq 1 v && ("c" == j) then false else nobody v j))
    × ((Forwarder.del_backend lb hc 1 "c" heap).groups ≡ heap.groups)
unfolding lookup
del_backend_of_endpoint_example =
    del_backend_of_endpoint lb laws hc heap 1 "c" "c" tt (checked "c") refl refl

abbrev empty_handed : Option ℤ → Unit {0} → Handler ℕ
empty_handed deadline r w = (w, fail no_available_endpoints)

forward_lem_example :
    ((forward empty_handed (λ w. tt) none (heap.forwarders 1) 7).0 ≡ 7)
    × Passes
        (fail no_available_endpoints)
        (forward empty_handed (λ w. tt) none (heap.forwarders 1) 7).1
forward_lem_example = forward_lem empty_handed (λ w. tt) none (heap.forwarders 1) 7
