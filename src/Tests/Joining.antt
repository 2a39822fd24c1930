-- ===== src/Tests/Joining.antt =====
-- Forwarders that join groups and leave them.
use apigw.Common.{String, ℕ, [], ◌∷◌, none, some, ◌≡◌, refl, true, false, ◌⊎◌}
use apigw.Common.Int.{pos}
use apigw.Dict.{lookup, insert, has}
use apigw.Types.{returns}
use apigw.Lb.{group, backend_id, entries, add_backend, add_to_all}
use apigw.Lb.Group.{get_updater_by_name, add_updater, inform}
use apigw.Lb.Forwarder
use apigw.Lb.Forwarder.{drop_info, leave_group, add_backend_info, join_group, del_backend}
use apigw.Lb.Forwarder.Joining.{AreApart}
use apigw.Lb.Forwarder.Race.{add_backend_group_races, del_backend_races}
use apigw.Lb.Heap.{put}
use apigw.Lb.Membership.{is_member}
use apigw.Lb.Membership.Reach.{
  here, next, adds_backend_group, Reach-IsMutual, with_group, adds_to_group,
}
use apigw.Lb.Group
use apigw.Lb.Endpoints.{is_single, StartsEmpty}
use apigw.Lb.Endpoints.Reach.{Reach-endpoints}
use apigw.Lb.Endpoints.Shared.{del_backend_takes_shared}
use apigw.Tests.Objects.{node, plain, nobody, lb, hc, laws, heap, fresh, Group, Info, Objects}

-- Forwarders without backends and groups without updaters.
abbrev alone : Objects
alone = record heap {
  groups = λ g. fresh;
  forwarders = λ f. record { name = "f"; backends = some []; timeout = pos 0; checker = [] };
}

abbrev informing : Group
informing = record fresh { updaters = some (("f", 0) ∷ []) }

abbrev as_backend : Info
as_backend = record { online = true; backend = group "g" 1; checker = none; duration = tt }

-- The forwarder at 0 has joined the group at 1.
abbrev joined : Objects
joined = record alone {
  groups = put 1 informing alone.groups;
  forwarders =
      put 0 (record (alone.forwarders 0) { backends = some (("g", as_backend) ∷ []) })
        alone.forwarders;
}

joins : Forwarder.add_backend_group lb hc 0 "g" 1 tt alone ≡ returns joined
unfolding Forwarder.add_backend_group lookup insert backend_id inform add_updater add_backend_info
    join_group
joins = refl

apart : (n : String) (a : ℕ) → get_updater_by_name n (alone.groups a) ≡ none
unfolding get_updater_by_name lookup
apart n a = refl

Reach-IsMutual_example : ("f" ≡ (joined.forwarders 0).name) × (is_member joined 1 0 ≡ true)
unfolding get_updater_by_name lookup
Reach-IsMutual_example =
    Reach-IsMutual lb hc apart (next here (adds_backend_group 0 1 tt joins)) "f" 1 0 refl

are_apart : AreApart lb laws hc 0 "g" 1 [] [] alone
unfolding lookup
are_apart = record {
  named = refl;
  backends = refl;
  updaters = refl;
  no_backend = refl;
  no_updater = refl;
}

add_backend_group_races_example :
    (h : Objects) × (h' : Objects) × (add_backend_info lb hc 0 (group "g" 1) true none tt alone
      ≡ returns (h, true))
    × (join_group lb hc 0 1 (del_backend lb hc 0 "g" h) ≡ returns h')
    × (get_updater_by_name "f" (h'.groups 1) ≡ some 0)
    × (is_member h' 1 0 ≡ false)
    × (del_backend lb hc 0 "g" h' ≡ h')
add_backend_group_races_example = add_backend_group_races lb laws hc 0 1 tt [] [] alone are_apart

abbrev full : Group
full = record informing { backends = some (("a", plain "a") ∷ []) }

adds :
    Group.add_backend_with_checker lb hc (node "a") none tt informing nobody
    ≡ returns (full, add_backend lb 0 (node "a") nobody)
unfolding Group.add_backend_with_checker lookup insert backend_id add_to_all
adds = refl

-- The group of the forwarder at 0 has taken a backend.
abbrev grown : Objects
grown = with_group lb hc 1 (full, add_backend lb 0 (node "a") nobody) joined

alone-StartsEmpty : StartsEmpty lb alone
alone-StartsEmpty = record { backends = λ a. refl; updaters = λ a. refl; endpoints = λ f j. refl }

Reach-endpoints_example :
    (is_single (lookup "a" (entries (grown.forwarders 0).backends)) ≡ true)
    ⊎ ((a : ℕ) × (is_member grown a 0 ≡ true)
        × (get_updater_by_name "f" (grown.groups a) ≡ some 0)
        × (has "a" (entries (grown.groups a).backends) ≡ true))
unfolding add_backend backend_id
Reach-endpoints_example =
    Reach-endpoints lb laws hc 0 "a" alone-StartsEmpty
      (next (next here (adds_backend_group 0 1 tt joins)) (adds_to_group 1 (node "a") none tt adds))
      refl refl

-- The forwarder at 0 has the backend itself, too.
abbrev both : Objects
both = record grown {
  forwarders =
      put 0 (record (alone.forwarders 0) { backends = some (("a", plain "a") ∷ []) })
        grown.forwarders;
}

del_backend_takes_shared_example :
    let h = with_group lb hc 1 (Group.del_backend lb hc "a" (both.groups 1) both.balancers) both in
    (lb.has_endpoint "a" (h.balancers 0) ≡ false)
    × (is_single (lookup "a" (entries (h.forwarders 0).backends)) ≡ true)
    × (Forwarder.add_backend_with_checker lb hc 0 (node "a") none tt tt h ≡ returns h)
unfolding get_updater_by_name lookup
del_backend_takes_shared_example =
    del_backend_takes_shared lb laws hc 0 1 "f" "a" tt none tt tt both refl refl refl

del_backend_races_example :
    (h : Objects) × (Forwarder.add_backend_group lb hc 0 "g" 1 tt (drop_info lb hc 0 "g" joined)
      ≡ returns h)
    × (let h' = leave_group lb hc 0 1 h in
        (is_member h' 1 0 ≡ true)
        × (get_updater_by_name "f" (h'.groups 1) ≡ none)
        × (Forwarder.add_backend_group lb hc 0 "g" 1 tt h' ≡ returns h'))
unfolding lookup
del_backend_races_example =
    del_backend_races lb laws hc 0 1 tt (("g", as_backend) ∷ []) (("f", 0) ∷ []) joined refl refl
      refl
