-- ===== src/Lb/Endpoints/Reach.antt =====
-- The calls on forwarders, groups and managers of groups, and the endpoints that they leave in the
-- load balancers.
use apigw.Common.{
  String, true, ℕ, some, is_some, ◌≡◌, nat_eq, arith, ◌⊎◌, inl, inr, Bool-cases, eq_iff, subst,
  ◌&&◌, ◌==◌,
}
use apigw.Dict.{lookup, has}
use apigw.Lb.{
  Backend, backend_id, Balancer, BalancerLaws, HealthCheck, Balancers, entries, add_backend,
  del_backend_by_id,
}
use apigw.Lb.Updates.{has-add_backend, has-del_backend_by_id}
use apigw.Lb.Group
use apigw.Lb.Group.{GroupBackend, get_updater_by_name}
use apigw.Lb.Group.Accounts.{StaysTidy}
use apigw.Lb.Group.Accounts.Adding.{add_backend_with_checker-StaysTidy, add_endpoint-StaysTidy}
use apigw.Lb.Group.Accounts.Removing.{
  del_backend-StaysTidy, close-StaysTidy, del_endpoint-StaysTidy,
}
use apigw.Lb.GroupManager.Endpoints.{
  leave-IsAccounted, del_updater_by_name-IsAccounted, close-IsAccounted,
  add_or_new_backend_group-IsAccounted,
}
use apigw.Lb.Forwarder.Endpoints
use apigw.Lb.Forwarder.Endpoints.{del_backend-IsAccounted}
use apigw.Lb.Forwarder.Endpoints.Adding.{
  add_backend_group-IsAccounted, add_backend_with_checker-IsAccounted,
}
use apigw.Lb.Heap.{Heap}
use apigw.Lb.Membership.{is_member}
use apigw.Lb.Membership.Reach.{
  with_group, Step, Reach, here, next, adds_backend_group, adds_backend, dels_backend, closes,
  adds_to_group, dels_from_group, dels_updater, closes_group, makes_group, dels_updater_of_all,
  closes_manager, finds_healthy, finds_ill, finds_healthy_in_group, finds_ill_in_group,
  Reach-IsMutual,
}
use apigw.Lb.Endpoints.{
  StartsEmpty, StartsEmpty-IsAccounted, StartsEmpty-apart, is_single, IsAccounted, IsAccounted-put,
  IsAccounted-balancers,
}

module _ {E K D H L : Type 0} (lb : Balancer E L) (laws : BalancerLaws lb)
    (hc : HealthCheck E K D H) where
  with_group-IsAccounted :
      (g : ℕ) (t : GroupBackend E K D H × Balancers L) (hp : Heap E K D H L)
      → StaysTidy lb (hp.groups g) hp.balancers t
      → IsAccounted lb hp
      → IsAccounted lb (with_group lb hc g t hp)
  with_group-IsAccounted g t hp stays v = IsAccounted-put lb g t hp stays v

  finds_healthy-IsAccounted :
      (f : ℕ) (e : Backend E) (hp : Heap E K D H L)
      → is_single (lookup (backend_id e) (entries (hp.forwarders f).backends)) ≡ true
      → IsAccounted lb hp
      → IsAccounted lb (record hp { balancers = add_backend lb f e hp.balancers })
  finds_healthy-IsAccounted f e hp single =
      IsAccounted-balancers lb (add_backend lb f e hp.balancers) hp (λ u j there.
        let told = has-add_backend lb laws f u e j hp.balancers in
        elim (Bool-cases (nat_eq f u && (backend_id e == j))) [
          | inl new ↦
              let same : f ≡ u = ground arith in
              let it : backend_id e ≡ j = ground (arith, eq_iff (backend_id e) j) in
              inr (inl (rw (← same, ← it) single))
          | inr old ↦ inl (ground (arith, told))
        ])

  finds_ill-IsAccounted :
      (f : ℕ) (id : String) (hp : Heap E K D H L)
      → IsAccounted lb hp
      → IsAccounted lb (record hp { balancers = del_backend_by_id lb f id hp.balancers })
  finds_ill-IsAccounted f id hp =
      IsAccounted-balancers lb (del_backend_by_id lb f id hp.balancers) hp (λ u j there.
        let told = has-del_backend_by_id lb laws f u id j hp.balancers in
        inl (ground (arith, told)))

  Step-IsAccounted :
      {hp h : Heap E K D H L} → Step lb hc hp h → IsAccounted lb hp → IsAccounted lb h
  Step-IsAccounted {hp} {h} (adds_backend_group f g zero r) =
      add_backend_group-IsAccounted lb laws hc f g (hp.groups g).name zero hp h r
  Step-IsAccounted {hp} {h} (adds_backend f e k d zero named r) =
      add_backend_with_checker-IsAccounted lb laws hc f e k d zero hp h r
  Step-IsAccounted {hp} (dels_backend f id) = del_backend-IsAccounted lb laws hc f id hp
  Step-IsAccounted {hp} (closes close_balancer f) =
      Endpoints.close-IsAccounted lb laws hc close_balancer f hp
  Step-IsAccounted {hp} (adds_to_group {b} {s} g e k d r) = λ v.
      with_group-IsAccounted g (b, s) hp
        (add_backend_with_checker-StaysTidy lb laws hc e k d (hp.groups g) b hp.balancers s r
          (v.tidy g))
        v
  Step-IsAccounted {hp} (dels_from_group g id) = λ v.
      with_group-IsAccounted g (Group.del_backend lb hc id (hp.groups g) hp.balancers) hp
        (del_backend-StaysTidy lb laws hc id (hp.groups g) hp.balancers (v.tidy g)) v
  Step-IsAccounted {hp} (dels_updater n g) = leave-IsAccounted lb laws hc n g hp
  Step-IsAccounted {hp} (closes_group g) = λ v.
      with_group-IsAccounted g (Group.close lb hc (hp.groups g) hp.balancers) hp
        (close-StaysTidy lb laws hc (hp.groups g) hp.balancers (v.tidy g)) v
  Step-IsAccounted {hp} {h} (makes_group {m'} {g = g} n m free r) =
      add_or_new_backend_group-IsAccounted lb hc n m m' hp h g free r
  Step-IsAccounted {hp} (dels_updater_of_all n m) =
      del_updater_by_name-IsAccounted lb laws hc n m hp
  Step-IsAccounted {hp} (closes_manager m) = close-IsAccounted lb laws hc m hp
  Step-IsAccounted {hp} (finds_healthy f e single) = finds_healthy-IsAccounted f e hp single
  Step-IsAccounted {hp} (finds_ill f id) = finds_ill-IsAccounted f id hp
  Step-IsAccounted {hp} (finds_healthy_in_group g e member) = λ v.
      with_group-IsAccounted g (hp.groups g, Group.add_endpoint lb hc e (hp.groups g) hp.balancers)
        hp (add_endpoint-StaysTidy lb laws hc e (hp.groups g) hp.balancers member (v.tidy g)) v
  Step-IsAccounted {hp} (finds_ill_in_group g id) = λ v.
      with_group-IsAccounted g (hp.groups g, Group.del_endpoint lb hc id (hp.groups g) hp.balancers)
        hp (del_endpoint-StaysTidy lb laws hc id (hp.groups g) hp.balancers (v.tidy g)) v

  Reach-IsAccounted :
      {hp h : Heap E K D H L} → StartsEmpty lb hp → Reach lb hc hp h → IsAccounted lb h
  Reach-IsAccounted {hp} start here = StartsEmpty-IsAccounted lb hp start
  Reach-IsAccounted start (next r s) = Step-IsAccounted s (Reach-IsAccounted start r)

  -- Where the load balancers keep their endpoints by id, from empty groups and load balancers,
  -- whatever whole calls are made on forwarders, groups and managers of groups, where only
  -- forwarders add updaters and the address of a new group is not in use, and whatever the checkers
  -- find of backends that are still there: each endpoint that the load balancer of a forwarder has,
  -- while the forwarder is not closed, is the id of a single backend of that forwarder, or of a
  -- backend of a group that the forwarder has among its backends and that informs it.
  pub Reach-endpoints :
      {hp h : Heap E K D H L} (f : ℕ) (j : String)
      → StartsEmpty lb hp
      → Reach lb hc hp h
      → is_some (h.forwarders f).backends ≡ true
      → lb.has_endpoint j (h.balancers f) ≡ true
      → (is_single (lookup j (entries (h.forwarders f).backends)) ≡ true)
        ⊎ ((a : ℕ) × (is_member h a f ≡ true)
            × (get_updater_by_name (h.forwarders f).name (h.groups a) ≡ some f)
            × (has j (entries (h.groups a).backends) ≡ true))
  Reach-endpoints {hp} {h} f j start r opened there =
      elim ((Reach-IsAccounted start r).founded f j opened there) [
        | inl own ↦ inl own
        | inr (a, (n, known, member)) ↦
            let (named, has_it) =
              Reach-IsMutual lb hc (StartsEmpty-apart lb hp start) r n a f known in
            inr (
              a,
              has_it,
              subst (λ n. get_updater_by_name n (h.groups a) ≡ some f) named known,
              member,
            )
      ]
